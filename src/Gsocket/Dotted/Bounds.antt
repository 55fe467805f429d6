-- ===== src/Gsocket/Dotted/Bounds.antt =====
-- What `ak_parse_dotted` stores.
use aegir.Prelude.{
  ℕ, ◌+◌, ◌*◌, ◌-◌, ◌≤◌, ◌<◌, Bool, true, List, [], ◌∷◌, ◌++◌, length, length-append, ◌≡◌, arith,
}
use aegir.Prelude.Bits.{AllBytes}
use aegir.Gsocket.Dotted.{parse_loop, ak_parse_dotted}

append-AllBytes : (xs : List ℕ) (v : ℕ) → AllBytes xs → v < 256 → AllBytes (xs ++ v ∷ [])
append-AllBytes [] v h lt = (lt, tt)
append-AllBytes (x ∷ xs) v h lt = (h.0, append-AllBytes xs v h.1 lt)

-- The stored bytes fit in `dst`, and a success has filled it.
abbrev pub FitsDst : Bool × List ℕ → Type 0
FitsDst (ok, out) = (length out ≤ 4) × AllBytes out × (ok ≡ true → length out ≡ 4)

parse_loop-FitsDst :
    (s out : List ℕ) (val digits : ℕ)
    → length out < 4
    → AllBytes out
    → val < 256
    → FitsDst (parse_loop s out val digits)
unfolding parse_loop
parse_loop-FitsDst [] out val digits h all lt =
    ground (arith, append-AllBytes out val all lt, length-append out (val ∷ []))
parse_loop-FitsDst (c ∷ s) out val digits h all lt = ground (
  arith,
  append-AllBytes out val all lt,
  length-append out (val ∷ []),
  parse_loop-FitsDst s out (val * 10 + (c - b'0')) (digits + 1),
  parse_loop-FitsDst s (out ++ val ∷ []) 0 0,
)

-- Whatever the text, `ak_parse_dotted` stores at most the four bytes that its callers have room for,
-- each below 256, and it returns 1 only with all four stored.
pub ak_parse_dotted-FitsDst : (src : List ℕ) → FitsDst (ak_parse_dotted src)
unfolding ak_parse_dotted
ak_parse_dotted-FitsDst src = parse_loop-FitsDst src [] 0 0 (omega arith) tt (omega arith)
