-- ===== src/Gsocket/FdSet/Laws.antt =====
-- A bit array is the set of its members: the helpers refine membership, insertion and removal.
use Prim.Native.Nat.{bit_and, bit_or}
use native.Mathlib.Decide.{ℕ_discrete, dec_le}
use aegir.Prelude.{
  ℕ, zero, suc, ◌-◌, ◌/◌, ◌%◌, ◌^◌, ◌<◌, ◌≤◌, ℤ, pos, negsuc, Bool, true, false, List, [], ◌∷◌,
  get_or, set, ◌==◌, if◌then◌else◌, ◌≡◌, refl, arith, length, ◌&&◌, length-set, Bool-cases, inl,
  inr, ltb, ◌∙◌,
}
use aegir.Prelude.Bits.{AllBytes, passes, test-passes}
use aegir.Gsocket.FdSet.{
  FdSet, ak_isset, ak_setbit, ak_clrbit, last_from, last_socket_in_set, get_socket_from_set,
}

-- 32 bytes.
abbrev pub IsFdSet : FdSet → Type 0
IsFdSet s = (length s ≡ 32) × AllBytes s

bit : ℕ → ℕ → Bool
bit x k = x / 2 ^ k % 2 == 1

eqb : Bool → Bool → Bool
eqb true true = true
eqb false false = true
eqb _ _ = false

eqb_sound : (a c : Bool) → eqb a c ≡ true → a ≡ c
unfolding eqb
eqb_sound true true h = refl
eqb_sound false false h = refl
eqb_sound true false h = cc
eqb_sound false true h = cc

-- All bytes, and all pairs of bit positions, by evaluation.
set_row : ℕ → ℕ → ℕ → Bool
set_row x k j = eqb (bit (bit_or x (2 ^ k)) j) (if j == k then true else bit x j)

clr_row : ℕ → ℕ → ℕ → Bool
clr_row x k j = eqb (bit (bit_and x (255 - 2 ^ k)) j) (if j == k then false else bit x j)

-- A test of all bytes and all bit positions.
abbrev each_bit : (ℕ → ℕ → Bool) → ℕ → Bool
each_bit row x = passes (row x) 8

each_bit-holds :
    (row : ℕ → ℕ → Bool) (x k : ℕ)
    → passes (each_bit row) 256 ≡ true
    → x < 256
    → k < 8
    → row x k ≡ true
each_bit-holds row x k e hx hk = test-passes (row x) 8 hk (test-passes (each_bit row) 256 hx e)

set_table : passes (each_bit (λ x k. passes (set_row x k) 8)) 256 ≡ true
unfolding passes set_row eqb bit
set_table = refl

clr_table : passes (each_bit (λ x k. passes (clr_row x k) 8)) 256 ≡ true
unfolding passes clr_row eqb bit
clr_table = refl

range_row : ℕ → ℕ → Bool
range_row x k = ltb (bit_or x (2 ^ k)) 256 && ltb (bit_and x (255 - 2 ^ k)) 256

range_table : passes (each_bit range_row) 256 ≡ true
unfolding passes range_row
range_table = refl

byte_set :
    (x k j : ℕ)
    → x < 256
    → k < 8
    → j < 8
    → bit (bit_or x (2 ^ k)) j ≡ (if j == k then true else bit x j)
unfolding set_row
byte_set x k j hx hk hj =
    eqb_sound _ _ (test-passes (set_row x k) 8 hj (each_bit-holds _ x k set_table hx hk))

byte_clr :
    (x k j : ℕ)
    → x < 256
    → k < 8
    → j < 8
    → bit (bit_and x (255 - 2 ^ k)) j ≡ (if j == k then false else bit x j)
unfolding clr_row
byte_clr x k j hx hk hj =
    eqb_sound _ _ (test-passes (clr_row x k) 8 hj (each_bit-holds _ x k clr_table hx hk))

byte_range :
    (x k : ℕ) → x < 256 → k < 8 → (bit_or x (2 ^ k) < 256) × (bit_and x (255 - 2 ^ k) < 256)
unfolding range_row
byte_range x k hx hk = let h = each_bit-holds range_row x k range_table hx hk in ground arith

get_or-set :
    (s : List ℕ) (i j v : ℕ)
    → i < length s
    → get_or (set s i v) j 0 ≡ (if j == i then v else get_or s j 0)
get_or-set [] i j v h = absurd (omega arith)
get_or-set (x ∷ s) zero zero v h = refl
get_or-set (x ∷ s) zero (suc j) v h = ground arith
get_or-set (x ∷ s) (suc i) zero v h = ground arith
get_or-set (x ∷ s) (suc i) (suc j) v h = ground (arith, get_or-set s i j v (omega arith))

get_or-lt : (s : List ℕ) (i : ℕ) → AllBytes s → get_or s i 0 < 256
get_or-lt [] i h = omega arith
get_or-lt (x ∷ s) zero h = h.0
get_or-lt (x ∷ s) (suc i) h = get_or-lt s i h.1

set-AllBytes : (s : List ℕ) (i v : ℕ) → AllBytes s → v < 256 → AllBytes (set s i v)
set-AllBytes [] i v h hv = tt
set-AllBytes (x ∷ s) zero v h hv = (hv, h.1)
set-AllBytes (x ∷ s) (suc i) v h hv = (h.0, set-AllBytes s i v h.1 hv)

-- Two positions are one if byte and bit agree.
same_position : (j fd : ℕ) → j / 8 ≡ fd / 8 → j % 8 ≡ fd % 8 → j ≡ fd
same_position j fd p q = omega arith

pub ak_setbit-IsFdSet : (s : FdSet) (fd : ℕ) → IsFdSet s → IsFdSet (ak_setbit s fd)
unfolding ak_setbit
ak_setbit-IsFdSet s fd h = (
  length-set s (fd / 8) _ ∙ h.0,
  set-AllBytes s (fd / 8) _ h.1 (byte_range _ (fd % 8) (get_or-lt s (fd / 8) h.1) (omega arith)).0,
)

pub ak_clrbit-IsFdSet : (s : FdSet) (fd : ℕ) → IsFdSet s → IsFdSet (ak_clrbit s fd)
unfolding ak_clrbit
ak_clrbit-IsFdSet s fd h = (
  length-set s (fd / 8) _ ∙ h.0,
  set-AllBytes s (fd / 8) _ h.1 (byte_range _ (fd % 8) (get_or-lt s (fd / 8) h.1) (omega arith)).1,
)

isset-bit : (s : FdSet) (fd : ℕ) → ak_isset s fd ≡ bit (get_or s (fd / 8) 0) (fd % 8)
unfolding ak_isset bit
isset-bit s fd = refl

-- A write of one byte that changes one bit of it to `v` changes that member only.
isset-set :
    (s : FdSet) (fd j x : ℕ) (v : Bool)
    → IsFdSet s
    → fd < 256
    → ((k : ℕ) → k < 8 → bit x k ≡ (if k == fd % 8 then v else bit (get_or s (fd / 8) 0) k))
    → ak_isset (set s (fd / 8) x) j ≡ (if j == fd then v else ak_isset s j)
isset-set s fd j x v h hf hx =
    rw (isset-bit, isset-bit, get_or-set s (fd / 8) (j / 8) x (omega arith))
      (elim (ℕ_discrete (j / 8) (fd / 8)) [
        | yes q ↦ rw q (ground (arith, hx (j % 8), same_position j fd q))
        | no q ↦ ground arith
      ])

-- Setting a bit inserts that member, and changes no other.
isset-setbit :
    (s : FdSet) (fd j : ℕ)
    → IsFdSet s
    → fd < 256
    → ak_isset (ak_setbit s fd) j ≡ (if j == fd then true else ak_isset s j)
unfolding ak_setbit
isset-setbit s fd j h hf =
    isset-set s fd j _ true h hf
      (λ k hk. byte_set _ (fd % 8) k (get_or-lt s (fd / 8) h.1) (omega arith) hk)

-- Clearing a bit removes that member, and changes no other.
pub isset-clrbit :
    (s : FdSet) (fd j : ℕ)
    → IsFdSet s
    → fd < 256
    → ak_isset (ak_clrbit s fd) j ≡ (if j == fd then false else ak_isset s j)
unfolding ak_clrbit
isset-clrbit s fd j h hf =
    isset-set s fd j _ false h hf
      (λ k hk. byte_clr _ (fd % 8) k (get_or-lt s (fd / 8) h.1) (omega arith) hk)

-- Setting a bit inserts that member and clearing one removes it, and neither changes another member.
-- The set has 32 bytes and the descriptor is below 256.
pub ak_isset_after :
    (s : FdSet) (fd j : ℕ)
    → IsFdSet s
    → fd < 256
    → (ak_isset (ak_setbit s fd) j ≡ (if j == fd then true else ak_isset s j))
      × (ak_isset (ak_clrbit s fd) j ≡ (if j == fd then false else ak_isset s j))
ak_isset_after s fd j h hf = (isset-setbit s fd j h hf, isset-clrbit s fd j h hf)

-- What `last` says of the members up to `k`: it is the highest of them, or there is none.
abbrev pub IsLast : FdSet → ℕ → ℤ → Type 0
IsLast s k (pos m) =
    (m ≤ k) × (ak_isset s m ≡ true) × ((j : ℕ) → m < j → j ≤ k → ak_isset s j ≡ false)
IsLast s k (negsuc _) = (j : ℕ) → j ≤ k → ak_isset s j ≡ false

IsLast-suc :
    (s : FdSet) (k : ℕ) (l : ℤ) → ak_isset s (suc k) ≡ false → IsLast s k l → IsLast s (suc k) l
IsLast-suc s k (pos m) e h = (
  omega arith,
  h.1,
  λ j lo hi. elim (ℕ_discrete j (suc k)) [ yes q ↦ rw q e | no q ↦ h.2 j lo (omega arith) ],
)
IsLast-suc s k (negsuc n) e h =
    λ j hi. elim (ℕ_discrete j (suc k)) [ yes q ↦ rw q e | no q ↦ h j (omega arith) ]

pub last_from-IsLast : (s : FdSet) (k : ℕ) → IsLast s k (last_from s k)
unfolding last_from
last_from-IsLast s zero = elim (Bool-cases (ak_isset s zero)) [
  | inl e ↦ rw e (omega arith, e, λ j lo hi. absurd (omega arith))
  | inr e ↦ rw e (λ j hi. let q : j ≡ 0 = omega arith in rw q e)
]
last_from-IsLast s (suc k) = elim (Bool-cases (ak_isset s (suc k))) [
  | inl e ↦ rw e (omega arith, e, λ j lo hi. absurd (omega arith))
  | inr e ↦ rw e (IsLast-suc s k (last_from s k) e (last_from-IsLast s k))
]

-- The members stay below `last` when it is taken out.
IsLast-extend :
    (s : FdSet) (k : ℕ) (l : ℤ) (n : ℕ)
    → ((j : ℕ) → k < j → j ≤ n → ak_isset s j ≡ false)
    → k ≤ n
    → IsLast s k l
    → IsLast s n l
IsLast-extend s k (pos m) n above le h = (
  omega arith,
  h.1,
  λ j lo hi. elim (dec_le j k) [ yes q ↦ h.2 j lo q | no q ↦ above j (omega arith) hi ],
)
IsLast-extend s k (negsuc _) n above le h =
    λ j hi. elim (dec_le j k) [ yes q ↦ h j q | no q ↦ above j (omega arith) hi ]

-- Where `last` is the highest member of a 32-byte set, taking a socket out returns it, removes it and
-- no other member, and leaves in `last` the highest of the members that are left, or -1 if that was
-- the last one.
pub get_socket_from_set_lem :
    (s : FdSet) (last : ℕ)
    → IsFdSet s
    → IsLast s 255 (pos last)
    → let (sk, last', s') = get_socket_from_set s last in
      (sk ≡ last)
      × IsFdSet s'
      × ((j : ℕ) → ak_isset s' j ≡ (if j == last then false else ak_isset s j))
      × IsLast s' 255 last'
unfolding get_socket_from_set last_socket_in_set
get_socket_from_set_lem s last h l = (
  refl,
  ak_clrbit-IsFdSet s last h,
  (λ j. isset-clrbit s last j h (omega arith)),
  IsLast-extend (ak_clrbit s last) last (last_from (ak_clrbit s last) last) 255
      (λ j lo hi. ground (arith, isset-clrbit s last j h, l.2 j lo hi)) l.0
      (last_from-IsLast (ak_clrbit s last) last),
)
