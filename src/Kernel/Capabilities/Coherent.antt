-- ===== src/Kernel/Capabilities/Coherent.antt =====
-- `Table_Coherent`, which the source leaves unproved for the operations, follows from the invariant.
use aegir.Prelude.{ℕ, ◌≤◌, Bool, List, refl, sym, arith}
use native.Mathlib.Decide.{ℕ_discrete}
use aegir.Kernel.PhysicalMemory.Owned.{Owned}
use aegir.Kernel.Capabilities.{CapTable, Store, TableCoherent, get, initialize}
use aegir.Kernel.Capabilities.Counting.{sum_zero, sum_bound, flag}
use aegir.Kernel.Capabilities.Pages.{Holds}
use aegir.Kernel.Capabilities.Growing.{IsWell}

-- A page has no more than 128 entries in use.
count_bound :
    (t : CapTable) (m : Store) (free : List ℕ) (used : ℕ → Bool)
    → Holds t m free used
    → (p : ℕ) → t.count p ≤ 128
count_bound t m free used o p = elim (ℕ_discrete (t.root p) 0) [
  | yes z ↦ omega (arith, o.empty p z)
  | no z ↦
      omega (
        arith,
        o.counted p z,
        sum_bound (λ i. flag (m.cells (t.root p) i)) 1 128 (λ i. ground arith),
      )
]

pub IsWell-TableCoherent : (t : CapTable) (m : Store) → IsWell t m → TableCoherent t
IsWell-TableCoherent t m ((free, (used, o)), tight, proper) = (
  omega (arith, o.sums, sum_bound t.count 128 128 (count_bound t m free used o)),
  λ p l. (tight p, o.empty p),
)

-- A fresh table, over any state of the allocator.
initialize-IsWell :
    (m : Store) (free : List ℕ) (used : ℕ → Bool) → Owned m.pmm free used → IsWell initialize m
unfolding initialize get
initialize-IsWell m free used o = (
  (
    free,
    (
      used,
      record {
        owned = o;
        paged = λ p n. absurd (n refl);
        apart = λ p q n e. absurd (n refl);
        counted = λ p n. absurd (n refl);
        empty = λ p e. refl;
        sums = sym (sum_zero (λ p. 0) 128 (λ p l. refl));
      },
    ),
  ),
  (λ p e. refl),
  λ h v. ground arith,
)
