-- ===== src/Kernel/Capabilities/Counting.antt =====
-- Sums of the first values of a function, by which entries and pages are counted.
use aegir.Prelude.{ℕ, zero, suc, ◌+◌, ◌*◌, ◌≤◌, ◌<◌, ◌≡◌, refl, arith, if◌then◌else◌}
use native.Mathlib.Decide.{ℕ_discrete}
use aegir.Kernel.PhysicalMemory.{write}
use aegir.Kernel.Capabilities.{CapEntry}

unfoldable pub sum : (ℕ → ℕ) → ℕ → ℕ
sum f zero = 0
sum f (suc n) = f n + sum f n

pub sum_ext : (f g : ℕ → ℕ) (n : ℕ) → ((i : ℕ) → i < n → f i ≡ g i) → sum f n ≡ sum g n
unfolding sum
sum_ext f g zero h = refl
sum_ext f g (suc n) h = omega (arith, h n (omega arith), sum_ext f g n (λ i l. h i (omega arith)))

pub sum_zero : (f : ℕ → ℕ) (n : ℕ) → ((i : ℕ) → i < n → f i ≡ 0) → sum f n ≡ 0
unfolding sum
sum_zero f zero h = refl
sum_zero f (suc n) h = omega (arith, h n (omega arith), sum_zero f n (λ i l. h i (omega arith)))

-- A sum of nothing has no positive part.
pub sum_part : (f : ℕ → ℕ) (n i : ℕ) → i < n → f i ≤ sum f n
unfolding sum
sum_part f zero i h = absurd (omega arith)
sum_part f (suc n) i h = elim (ℕ_discrete i n) [
  | yes q ↦ rw q (omega arith)
  | no q ↦ omega (arith, sum_part f n i (omega (arith, q)))
]

pub sum_bound : (f : ℕ → ℕ) (b n : ℕ) → ((i : ℕ) → f i ≤ b) → sum f n ≤ n * b
unfolding sum
sum_bound f b zero h = grind arith
sum_bound f b (suc n) h =
    let e : (suc n) * b ≡ b + n * b = grind arith in omega (arith, e, h n, sum_bound f b n h)

sum_outside : (f : ℕ → ℕ) (a v n : ℕ) → n ≤ a → sum (write f a v) n ≡ sum f n
sum_outside f a v n h = sum_ext (write f a v) f n (λ i l. ground (arith, h, l))

-- One value replaced by another.
pub sum-write : (f : ℕ → ℕ) (a v n : ℕ) → a < n → sum (write f a v) n + f a ≡ sum f n + v
unfolding sum
sum-write f a v zero h = absurd (omega arith)
sum-write f a v (suc n) h = elim (ℕ_discrete a n) [
  | yes q ↦
      let o : sum (write f a v) n ≡ sum f n = sum_outside f a v n (omega (arith, q)) in
      let w : write f a v n ≡ v = ground (arith, q) in
      let fa : f n ≡ f a = rw q refl in omega (arith, o, w, fa)
  | no q ↦
      let w : write f a v n ≡ f n = ground (arith, q) in
      omega (arith, w, sum-write f a v n (omega (arith, h, q)))
]

-- How much an entry counts.
abbrev pub flag : CapEntry → ℕ
flag e = if e.valid then 1 else 0
