-- ===== src/Kernel/Capabilities/Pages.antt =====
-- A table and the memory its pages lie in: the invariant between calls, and what a store to an entry
-- changes.
use aegir.Prelude.{
  ℕ, ◌/◌, ◌%◌, Bool, true, false, ◌&&◌, List, ◌≡◌, ◌≢◌, ◌⊎◌, inl, inr, refl, arith, ◌==◌,
  if◌then◌else◌, Bool-cases,
}
use native.Mathlib.Decide.{ℕ_discrete}
use aegir.Kernel.PhysicalMemory.{Pmm}
use aegir.Kernel.PhysicalMemory.Owned.{Owned}
use aegir.Kernel.Capabilities.{
  CapEntry, CapTable, Store, null_cap, entry_at, set_entry, zero_page, get, put,
}
use aegir.Kernel.Capabilities.Counting.{sum, flag}

-- The table's pages are frames that are held, one for each page; the counts are those of the entries
-- in use.
pub record Holds (t : CapTable) (m : Store) (free : List ℕ) (used : ℕ → Bool) : Type 0 where
  pub owned : Owned m.pmm free used
  pub paged : (p : ℕ) → t.root p ≢ 0 → used (t.root p) ≡ true
  pub apart : (p q : ℕ) → t.root p ≢ 0 → t.root p ≡ t.root q → p ≡ q
  pub counted : (p : ℕ) → t.root p ≢ 0 → t.count p ≡ sum (λ i. flag (m.cells (t.root p) i)) 128
  pub empty : (p : ℕ) → t.root p ≡ 0 → t.count p ≡ 0
  pub sums : t.total ≡ sum t.count 128

-- A page that is there has an entry in use.
abbrev pub IsTight : CapTable → Type 0
IsTight t = (p : ℕ) → t.count p ≡ 0 → t.root p ≡ 0

pub reflexive : (f : ℕ) → (f == f) ≡ true
reflexive f = ground arith

pub entry_at-set_entry : (f i : ℕ) (e : CapEntry) (m : Store) → entry_at f i (set_entry f i e m) ≡ e
entry_at-set_entry f i e m = elim (Bool-cases (i == 0)) [
  | inl z ↦ rw (reflexive f, reflexive i, z, reflexive f) refl
  | inr z ↦ rw (reflexive f, reflexive i, z) refl
]

pub entry_at-set_entry_other :
    (f i g j : ℕ) (e : CapEntry) (m : Store)
    → (g ≢ f) ⊎ (j ≢ i)
    → entry_at g j (set_entry f i e m) ≡ entry_at g j m
entry_at-set_entry_other f i g j e m h =
    let cell : (if (g == f) && (j == i) then e else m.cells g j) ≡ m.cells g j =
      ground (arith, h) in
    rw cell (elim (Bool-cases (j == 0)) [
      | inr z ↦ rw z refl
      | inl z ↦ elim (Bool-cases (i == 0)) [
        | inr y ↦ rw (z, y) refl
        | inl y ↦ let out : (g == f) ≡ false = ground (arith, z, y, h) in rw (z, y, out) refl
      ]
    ])

pub entry_at-zero_page : (f i : ℕ) (m : Store) → entry_at f i (zero_page f m) ≡ null_cap
unfolding zero_page
entry_at-zero_page f i m = elim (Bool-cases (i == 0)) [
  | inl z ↦ rw (z, reflexive f) refl
  | inr z ↦ rw (z, reflexive f) refl
]

pub entry_at-zero_page_other :
    (f g j : ℕ) (m : Store) → g ≢ f → entry_at g j (zero_page f m) ≡ entry_at g j m
unfolding zero_page
entry_at-zero_page_other f g j m n = let out : (g == f) ≡ false = ground (arith, n) in rw out refl

-- Entries in the frames that are held stay what they were when the allocator is called.
pub entry_at_kept :
    (f i : ℕ) (m : Store) (pmm : Pmm)
    → pmm.link f ≡ m.pmm.link f
    → entry_at f i (record m { pmm = pmm }) ≡ entry_at f i m
entry_at_kept f i m pmm e = rw e refl

-- The value of a handle, and of the others, after an entry is stored.
pub get-set_entry_other :
    (t u : CapTable) (cap h : ℕ) (e : CapEntry) (m : Store)
    → ((p : ℕ) → u.root p ≡ t.root p)
    → ((p q : ℕ) → t.root p ≢ 0 → t.root p ≡ t.root q → p ≡ q)
    → h ≢ cap
    → get u h (put t cap e m) ≡ get t h m
unfolding get put
get-set_entry_other t u cap h e m same apart n = elim (Bool-cases (t.root (h / 128) == 0)) [
  | inl z ↦ rw (same (h / 128), z) refl
  | inr z ↦
      rw (same (h / 128), z)
        (entry_at-set_entry_other (t.root (cap / 128)) (cap % 128) (t.root (h / 128)) (h % 128) e m
          (elsewhere z))
]
  where
    elsewhere :
        (t.root (h / 128) == 0) ≡ false
        → (t.root (h / 128) ≢ t.root (cap / 128)) ⊎ (h % 128 ≢ cap % 128)
    elsewhere z = elim (ℕ_discrete (h % 128) (cap % 128)) [
      | no k ↦ inr k
      | yes k ↦ inl (λ q.
          absurd (omega (arith, n, k, apart (h / 128) (cap / 128) (λ r. ground (arith, z, r)) q)))
    ]

pub get-put :
    (t u : CapTable) (cap : ℕ) (e : CapEntry) (m : Store)
    → ((p : ℕ) → u.root p ≡ t.root p)
    → t.root (cap / 128) ≢ 0
    → get u cap (put t cap e m) ≡ e
unfolding get put
get-put t u cap e m same n =
    let z : (t.root (cap / 128) == 0) ≡ false = ground (arith, n) in
    rw (same (cap / 128), z) (entry_at-set_entry (t.root (cap / 128)) (cap % 128) e m)
