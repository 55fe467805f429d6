-- ===== src/Gsocket/Dotted.antt =====
-- Dotted decimal addresses in userspace/gnat-rts/gnat_user/aegir_gsocket.c: `ak_parse_dotted`,
-- `__gnat_inet_pton` and `__gnat_inet_ntop`. A C string is the list of its bytes before the NUL.
pub mod RoundTrip
pub mod Bounds
use aegir.Prelude.{
  ℕ, zero, suc, ◌+◌, ◌-◌, ◌*◌, ◌/◌, ◌%◌, ◌^◌, ℤ, pos, minus_one, eq_ℤ, Bool, true, false, not, ◌&&◌,
  ◌||◌, Option, none, some, List, [], ◌∷◌, ◌++◌, length, get_or, ltb, leb, ◌==◌, if◌then◌else◌,
}
use aegir.Gsocket.Consts.{af_inet}
use aegir.Gsocket.Errno.{eafnosupport, enospc}
use aegir.Gsocket.Types.{State}

abbrev pub is_digit : ℕ → Bool
is_digit c = leb b'0' c && leb c b'9'

-- Space, newline, carriage return and tab end a number, as the NUL does.
abbrev pub is_blank : ℕ → Bool
is_blank c = c == 32 || c == 10 || c == 13 || c == 9

-- The loop of `ak_parse_dotted` over the unread bytes: `out` is `dst[0..part)`. The result is the
-- returned value and the bytes stored in `dst`.
unfoldable pub parse_loop : List ℕ → List ℕ → ℕ → ℕ → Bool × List ℕ
parse_loop [] out val digits =
    if ltb 0 digits then (length out + 1 == 4, out ++ val ∷ []) else (false, out)
parse_loop (c ∷ s) out val digits =
    let v = val * 10 + (c - b'0') in
    let more = parse_loop s out v (digits + 1) in
    let part = parse_loop s (out ++ val ∷ []) 0 0 in
    if is_digit c
    then if ltb 255 v then (false, out) else more
    else if ltb 0 digits && c == b'.'
    then if length out + 1 == 4 then (false, out ++ val ∷ []) else part
    else if ltb 0 digits && is_blank c
    then (length out + 1 == 4, out ++ val ∷ [])
    else (false, out)

unfoldable pub ak_parse_dotted : List ℕ → Bool × List ℕ
unfolding parse_loop
ak_parse_dotted src = parse_loop src [] 0 0

-- "%u": the digits of `n`, before `out`. The fuel bounds the number of digits; an `unsigned` has at
-- most ten.
unfoldable pub print_digits : ℕ → ℕ → List ℕ → List ℕ
print_digits zero n out = out
print_digits (suc fuel) n out =
    let rest = print_digits fuel (n / 10) ((b'0' + n % 10) ∷ out) in
    if n / 10 == 0 then (b'0' + n % 10) ∷ out else rest

unfoldable pub print_u : ℕ → List ℕ
unfolding print_digits
print_u n = print_digits 10 n []

-- "%u.%u.%u.%u"
unfoldable pub print_dotted : List ℕ → List ℕ
unfolding print_u
print_dotted b =
    print_u (get_or b 0 0)
    ++ b'.'
      ∷ (print_u (get_or b 1 0) ++ b'.' ∷ (print_u (get_or b 2 0) ++ b'.' ∷ print_u (get_or b 3 0)))

module _ {W : Type 0} where
  -- Beside the result, the bytes stored in `dst`.
  unfoldable pub inet_pton : ℤ → List ℕ → State W → ℤ × List ℕ × State W
  inet_pton af src s =
      let (ok, out) = ak_parse_dotted src in
      if eq_ℤ af (pos af_inet)
      then (if ok then pos 1 else pos 0, out, s)
      else (minus_one, [], record s { errno = eafnosupport })

  -- The text in `dst`, or NULL. `snprintf` returns the full length, which is compared
  -- with `size` as an int: a size from 2^31 on is negative as an int, and refused.
  unfoldable pub inet_ntop : ℤ → List ℕ → ℕ → State W → Option (List ℕ) × State W
  inet_ntop af src size s =
      let text = print_dotted src in
      if not (eq_ℤ af (pos af_inet))
      then (none, record s { errno = eafnosupport })
      else if leb (2 ^ 31) size || leb size (length text)
      then (none, record s { errno = enospc })
      else (some text, s)
