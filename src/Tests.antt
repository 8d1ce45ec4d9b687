-- ===== src/Tests.antt =====
-- Concrete runs, and the theorems applied to concrete inputs.
mod Fixtures
mod Configs
mod Services
mod Queues
mod Clients
mod Connections
mod Protocols
mod Commands
mod Counts
mod Reporters
mod Syncs
