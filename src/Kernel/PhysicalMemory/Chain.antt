-- ===== src/Kernel/PhysicalMemory/Chain.antt =====
-- The list of freed frames: what the links in memory stand for, and the walk along them.
use aegir.Prelude.{
  ℕ, zero, suc, ◌<◌, Bool, false, ◌||◌, some, List, [], ◌∷◌, length, ◌≡◌, ◌≢◌, arith, ◌==◌,
  if◌then◌else◌,
}
use aegir.Kernel.PhysicalMemory.{write, walk}

abbrev pub has : ℕ → List ℕ → Bool
has a [] = false
has a (x ∷ xs) = (a == x) || has a xs

-- From `p` the links lead through the frames `xs`, none twice, to 0.
abbrev pub IsChain : (ℕ → ℕ) → ℕ → List ℕ → Type 0
IsChain m p [] = p ≡ 0
IsChain m p (x ∷ xs) = (p ≡ x) × (x ≢ 0) × (has x xs ≡ false) × IsChain m (m x) xs

-- The frames of `xs` without one.
abbrev pub without : ℕ → List ℕ → List ℕ
without a [] = []
without a (x ∷ xs) = let rest = without a xs in if a == x then rest else x ∷ rest

pub has-without :
    (a b : ℕ) (xs : List ℕ) → has b (without a xs) ≡ (if b == a then false else has b xs)
has-without a b [] = ground arith
has-without a b (x ∷ xs) = ground (arith, has-without a b xs)

-- A write to another frame leaves the chain.
pub IsChain-write :
    (m : ℕ → ℕ) (p a v : ℕ) (xs : List ℕ)
    → has a xs ≡ false
    → IsChain m p xs
    → IsChain (write m a v) p xs
IsChain-write m p a v [] h c = c
IsChain-write m p a v (x ∷ xs) h (e, ne, out, c) =
    (e, ne, out, ground (arith, h, IsChain-write m (m x) a v xs, c))

-- The walk finds whether a frame is in the list, with a round for each frame and one for the end.
pub walk-has :
    (fuel : ℕ) (m : ℕ → ℕ) (frame p : ℕ) (xs : List ℕ)
    → IsChain m p xs
    → length xs < fuel
    → frame ≢ 0
    → walk fuel m frame p ≡ some (has frame xs)
unfolding walk
walk-has zero m frame p xs c h ne = absurd (omega arith)
walk-has (suc fuel) m frame p [] c h ne = ground (arith, c)
walk-has (suc fuel) m frame p (x ∷ xs) (e, n, out, c) h ne =
    ground (arith, e, n, walk-has fuel m frame (m x) xs c (omega arith) ne)
