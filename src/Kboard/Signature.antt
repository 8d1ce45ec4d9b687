-- ===== src/Kboard/Signature.antt =====
-- internal/node/kboard.go: what a signature covers is determined by the signed text.
use knode.Prelude.{◌≡◌, refl, ◌==◌, Bool, true, not, ◌&&◌, [], ◌∷◌, ◌++◌, arith}
use knode.Text.{Str, lit, join}
use knode.Kboard.{signature_base}

-- The text has no line break.
abbrev pub is_line : Str → Bool
is_line [] = true
is_line (c ∷ s) = not (c == 10) && is_line s

-- A line that ends at a line break is determined by the text.
line-end :
    (s t rest more : Str)
    → is_line s ≡ true
    → is_line t ≡ true
    → s ++ (lit "\n" ++ rest) ≡ t ++ (lit "\n" ++ more)
    → (s ≡ t) × (rest ≡ more)
line-end [] [] rest more p q e = (refl, ground arith)
line-end [] (d ∷ t) rest more p q e = ground arith
line-end (c ∷ s) [] rest more p q e = ground arith
line-end (c ∷ s) (d ∷ t) rest more p q e = ground (arith, line-end s t rest more)

-- Requests whose method, path, query, node and time are lines have the same signed text only if they
-- agree in all of these.
pub signature_base-injective :
    (m1 p1 q1 n1 t1 m2 p2 q2 n2 t2 : Str)
    → (is_line m1 && is_line p1 && is_line q1 && is_line n1) ≡ true
    → (is_line m2 && is_line p2 && is_line q2 && is_line n2) ≡ true
    → signature_base m1 p1 q1 n1 t1 ≡ signature_base m2 p2 q2 n2 t2
    → (m1 ≡ m2) × (p1 ≡ p2) × (q1 ≡ q2) × (n1 ≡ n2) × (t1 ≡ t2)
unfolding signature_base join
signature_base-injective m1 p1 q1 n1 t1 m2 p2 q2 n2 t2 h k e =
    let (m, e1) =
      line-end m1 m2 (join (p1 ∷ (q1 ∷ (n1 ∷ (t1 ∷ [])))) (lit "\n"))
        (join (p2 ∷ (q2 ∷ (n2 ∷ (t2 ∷ [])))) (lit "\n")) (ground arith) (ground arith) e in
    let (p, e2) =
      line-end p1 p2 (join (q1 ∷ (n1 ∷ (t1 ∷ []))) (lit "\n"))
        (join (q2 ∷ (n2 ∷ (t2 ∷ []))) (lit "\n")) (ground arith) (ground arith) e1 in
    let (q, e3) =
      line-end q1 q2 (join (n1 ∷ (t1 ∷ [])) (lit "\n")) (join (n2 ∷ (t2 ∷ [])) (lit "\n"))
        (ground arith) (ground arith) e2 in
    let (n, t) = line-end n1 n2 t1 t2 (ground arith) (ground arith) e3 in (m, p, q, n, t)
