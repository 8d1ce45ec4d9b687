-- ===== src/Lib.antt =====
-- Knode, a relay node of the KLESS protocol. The node listens on inbounds. A `tcp` inbound carries
-- its connections to an upstream node over a KLESS connection; a `kless-server` inbound accepts
-- KLESS clients and carries their traffic to the targets that they name. The node reports to a Kboard
-- server and takes its list of users from it.
--
-- Parts, and the files that model them (paths from the repository's root):
--   * cmd/knode/main.go: CommandLine (the commands), CommandLine/FlagSet (package flag),
--     CommandLine/Printing (the texts).
--   * internal/config/config.go: Config (types), Config/Defaults (applyDefaults), Config/Duration,
--     Config/Capability, Config/Validate and its children (Validate), Config/File (Load, WriteSample),
--     Keys (decodeKey), Base64 (the standard library's base64). internal/config/sample.go:
--     Config/Sample. Config/System has what is asked of time, net/url, os, unicode and
--     kray's constants.
--   * internal/node/service.go: Service (New, status), Service/Run (Run), Service/Admin (the handlers
--     of the admin address), Accept (acceptLoop and the goroutines of the connections),
--     Service/Connection (handleConnection), Service/Counts (the counters over all connections),
--     Kboard/Start (the reporter that Run starts).
--   * internal/node/server_relay.go: Relay (newServerRelay), Relay/Effects (what handlers do, pipe),
--     Relay/Handle (Handle, handleTCPConnect, handleUDPAssociate), Relay/Udp (the loops of
--     pipeUDPAssociate, recordUDPAccess), Relay/ServerConfig (serverConfig); Relay/Accounting has
--     the users of the items.
--   * internal/node/dialer.go: Dialer, Dialer/Headers (headerFromMap).
--   * internal/node/client_store.go: ClientStore, ClientStore/Derive. ClientStore/Contract is what its
--     clients rely on, and ClientStore/Refinement fills it for the code's store.
--   * internal/node/access_log.go: AccessLog, AccessLog/Item.
--   * internal/node/metrics.go: Metrics, Metrics/Counters.
--   * internal/node/kboard.go: Kboard (requests and answers), Kboard/Reporter (users and
--     access logs), Kboard/Batches (payloads), Kboard/Loop (report and run).
--   * internal/node/relay_protocol.go: RelayProtocol. internal/node/check.go: Check.
--     internal/node/build.go: Build.
-- Text, Dict, Decimal and Utf8 model the strings, maps and printing of the Go library. Shared has the
-- objects that several parts point to, by their addresses: the client store and the access log queue
-- of a service, which its relays and its reporter share. Prelude has shared names. Tests applies the
-- theorems to a small configuration.
--
-- How the parts interact: a command of cmd/knode loads the configuration, which validates it, and
-- `run` makes the service with `New` and calls its `Run`. `New` validates the configuration, makes a
-- dialer for each upstream and a relay for each server inbound, which share one client store, one
-- access log queue and the metrics. `acceptLoop` passes a connection to `handleConnection`, which looks
-- up the dialer or the relay. The relay asks the client store for secrets and records in the access log queue, which the Kboard
-- reporter drains; the reporter also replaces the dynamic half of the client store.
--
-- How the code is modelled: a string is a list of code points, as it is valid UTF-8; a byte slice a
-- list of numbers; a map an association list with distinct keys; an int an integer; the counters of
-- the metrics wrap at 2^64. A method under a mutex is one step, and so is each atomic operation. A
-- `Validate` method returns the receiver with its changes, when it succeeds. An error keeps its kind
-- and prefix, not the text of a library's error. A handler gives the list of its effects; what
-- sockets, kray, the HTTP client, the JSON decoder, the hashes and the clock answer is an argument.
-- A connection makes its access log items at moments, each of which has the clock and the store as
-- they are then. The accept loops and their connections are a step relation, whose steps come in any
-- order. The functions are structural recursions, but for the digits of a number n, which get n + 1
-- rounds; these are enough, as each divides the number by 10.
--
-- The files of the operating system are a record of calls over an unknown state (Config/File), whose
-- documented behaviour, devices aside, is a record of laws (CommandLine/Files); no other process changes
-- them between two calls. What a listen answers may depend on the listeners that are open. A run of the
-- reporter is the list of the events that its loop receives, each with the answers that it meets and
-- the items that others record meanwhile.
--
-- Not modelled: logging, the JSON encoder and decoder, the order in which the goroutines of a service
-- end during the shutdown in `Run`, the HTTP server of the admin address under its handlers, signals,
-- the manager program that the menu runs, and the cipher and framing of kray, which is another
-- repository.
pub mod Prelude
pub mod Shared
pub mod Text
pub mod Dict
pub mod Decimal
pub mod AccessLog
pub mod Utf8
pub mod ClientStore
pub mod Base64
pub mod Keys
pub mod Config
pub mod Metrics
pub mod Relay
pub mod Dialer
pub mod Accept
pub mod Kboard
pub mod Service
pub mod RelayProtocol
pub mod Build
pub mod Check
pub mod CommandLine
pub mod Tests
