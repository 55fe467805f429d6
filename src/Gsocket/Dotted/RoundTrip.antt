-- ===== src/Gsocket/Dotted/RoundTrip.antt =====
-- Reading back a printed address.
use native.Mathlib.Decide.{dec_lt}
use aegir.Prelude.{
  ℕ, suc, ◌+◌, ◌*◌, ◌/◌, ◌%◌, ◌^◌, ◌≤◌, ◌<◌, pos, true, some, List, [], ◌∷◌, ◌++◌, append-nil,
  append_assoc, length, length-append, ◌≡◌, refl, ◌∙◌, arith,
}
use aegir.Gsocket.Types.{State}
use aegir.Gsocket.Dotted.{
  is_blank, parse_loop, ak_parse_dotted, print_digits, print_u, print_dotted, inet_pton, inet_ntop,
}

-- A byte is printed by one, two or three digits.
data Printed (n : ℕ) : List ℕ → Type 0 where
  one : n < 10 → Printed n ((48 + n) ∷ [])
  two : 10 ≤ n → n < 100 → Printed n ((48 + n / 10) ∷ (48 + n % 10) ∷ [])
  three : 100 ≤ n → Printed n ((48 + n / 100) ∷ (48 + n / 10 % 10) ∷ (48 + n % 10) ∷ [])

digits_stop : (f n : ℕ) (out : List ℕ) → n < 10 → print_digits (suc f) n out ≡ (48 + n) ∷ out
unfolding print_digits
digits_stop f n out h = ground arith

digits_step :
    (f n : ℕ) (out : List ℕ)
    → 10 ≤ n
    → print_digits (suc f) n out ≡ print_digits f (n / 10) ((48 + n % 10) ∷ out)
unfolding print_digits
digits_step f n out h = ground arith

print_u-Printed : (n : ℕ) → n < 256 → Printed n (print_u n)
unfolding print_u
print_u-Printed n h = elim (dec_lt n 10) [
  | yes p ↦ rw (digits_stop 9 n [] p) (one p)
  | no p ↦ elim (dec_lt n 100) [
    | yes q ↦
        rw (digits_step 9 n [] (omega arith), digits_stop 8 (n / 10) _ (omega arith))
          (two (omega arith) q)
    | no q ↦
        let e : n / 10 / 10 ≡ n / 100 = omega arith in
        rw
          (
            digits_step 9 n [] (omega arith),
            digits_step 8 (n / 10) _ (omega arith),
            digits_stop 7 (n / 10 / 10) _ (omega arith),
            e,
          )
          (three (omega arith))
  ]
]

-- One digit read behind the value `v` gives `w`.
parse_digit :
    (d v w k : ℕ) (s out : List ℕ)
    → d < 10
    → w ≡ v * 10 + d
    → w < 256
    → parse_loop ((48 + d) ∷ s) out v k ≡ parse_loop s out w (k + 1)
unfolding parse_loop
parse_digit d v w k s out h e fits = rw e (ground arith)

-- A printed byte is read as its value, by some number of digits.
parse-Printed :
    {n : ℕ} {t : List ℕ} (rest out : List ℕ)
    → Printed n t
    → n < 256
    → (k : ℕ) × (parse_loop (t ++ rest) out 0 0 ≡ parse_loop rest out n (suc k))
parse-Printed {n} rest out (one h) lt = (0, parse_digit n 0 n 0 rest out h (omega arith) lt)
parse-Printed {n} rest out (two lo hi) lt = (
  1,
  parse_digit (n / 10) 0 (n / 10) 0 _ out (omega arith) (omega arith) (omega arith)
      ∙ parse_digit (n % 10) (n / 10) n 1 rest out (omega arith) (omega arith) lt,
)
parse-Printed {n} rest out (three lo) lt = (
  2,
  parse_digit (n / 100) 0 (n / 100) 0 _ out (omega arith) (omega arith) (omega arith)
      ∙ parse_digit (n / 10 % 10) (n / 100) (n / 10) 1 _ out (omega arith) (omega arith)
          (omega arith)
      ∙ parse_digit (n % 10) (n / 10) n 2 rest out (omega arith) (omega arith) lt,
)

parse_dot :
    (v k : ℕ) (s out : List ℕ)
    → length out < 3
    → parse_loop (46 ∷ s) out v (suc k) ≡ parse_loop s (out ++ v ∷ []) 0 0
unfolding parse_loop
parse_dot v k s out h = ground arith

-- Text that may follow an address: nothing, or a blank and anything.
abbrev pub Ends : List ℕ → Type 0
Ends [] = Unit {0}
Ends (c ∷ s) = is_blank c ≡ true

parse_end :
    (v k : ℕ) (s out : List ℕ)
    → Ends s
    → length out ≡ 3
    → parse_loop s out v (suc k) ≡ (true, out ++ v ∷ [])
unfolding parse_loop
parse_end v k [] out h e = ground arith
parse_end v k (c ∷ s) out h e = ground arith

parse_part :
    (n : ℕ) (s out : List ℕ)
    → n < 256
    → length out < 3
    → parse_loop (print_u n ++ 46 ∷ s) out 0 0 ≡ parse_loop s (out ++ n ∷ []) 0 0
parse_part n s out lt h =
    let (k, e) = parse-Printed (46 ∷ s) out (print_u-Printed n lt) lt in e ∙ parse_dot n k s out h

parse_last :
    (n : ℕ) (s out : List ℕ)
    → n < 256
    → Ends s
    → length out ≡ 3
    → parse_loop (print_u n ++ s) out 0 0 ≡ (true, out ++ n ∷ [])
parse_last n s out lt h e =
    let (k, q) = parse-Printed s out (print_u-Printed n lt) lt in q ∙ parse_end n k s out h e

-- A printed address is read back, whatever follows it behind a blank.
pub ak_parse_dotted-print_dotted :
    (a b c d : ℕ) (rest : List ℕ)
    → a < 256
    → b < 256
    → c < 256
    → d < 256
    → Ends rest
    → ak_parse_dotted (print_dotted (a ∷ b ∷ c ∷ d ∷ []) ++ rest) ≡ (true, a ∷ b ∷ c ∷ d ∷ [])
unfolding ak_parse_dotted print_dotted
ak_parse_dotted-print_dotted a b c d rest ha hb hc hd h = simp append_assoc (
    parse_part a _ [] ha (omega arith)
    ∙ parse_part b _ (a ∷ []) hb (omega arith)
    ∙ parse_part c _ (a ∷ b ∷ []) hc (omega arith)
    ∙ parse_last d rest (a ∷ b ∷ c ∷ []) hd h refl)

length-Printed : {n : ℕ} {t : List ℕ} → Printed n t → length t ≤ 3
length-Printed (one h) = omega arith
length-Printed (two lo hi) = omega arith
length-Printed (three lo) = omega arith

length-print_u : (n : ℕ) → n < 256 → length (print_u n) ≤ 3
length-print_u n h = length-Printed (print_u-Printed n h)

-- A printed address has at most 15 bytes.
length-print_dotted :
    (a b c d : ℕ)
    → a < 256
    → b < 256
    → c < 256
    → d < 256
    → length (print_dotted (a ∷ b ∷ c ∷ d ∷ [])) ≤ 15
unfolding print_dotted
length-print_dotted a b c d ha hb hc hd = omega (
  arith,
  length-append {0},
  length-print_u a,
  length-print_u b,
  length-print_u c,
  length-print_u d,
)

-- For any four bytes and a buffer of 16 bytes or more, but fewer than 2^31, `inet_ntop` succeeds, and `inet_pton` of its
-- text returns 1 and gives the four bytes back; neither call changes the state.
pub inet_pton-inet_ntop :
    {W : Type 0} (a b c d size : ℕ) (s : State W)
    → a < 256
    → b < 256
    → c < 256
    → d < 256
    → 16 ≤ size
    → size < 2 ^ 31
    → (text : List ℕ) × (inet_ntop (pos 2) (a ∷ b ∷ c ∷ d ∷ []) size s ≡ (some text, s))
      × (inet_pton (pos 2) text s ≡ (pos 1, a ∷ b ∷ c ∷ d ∷ [], s))
unfolding inet_ntop inet_pton
inet_pton-inet_ntop a b c d size s ha hb hc hd h k =
    let text = print_dotted (a ∷ b ∷ c ∷ d ∷ []) in
    let back : ak_parse_dotted text ≡ (true, a ∷ b ∷ c ∷ d ∷ []) =
      rw append-nil at (ak_parse_dotted-print_dotted a b c d [] ha hb hc hd tt) in
    (text, ground (arith, length-print_dotted a b c d, k), rw back)
