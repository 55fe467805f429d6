-- ===== src/Kernel/Capabilities/Storing.antt =====
-- An entry is stored in a page that is there, and the counts follow.
use aegir.Prelude.{
  ℕ, ◌+◌, ◌/◌, ◌%◌, ◌<◌, Bool, true, false, List, ◌≡◌, ◌≢◌, refl, sym, ◌∙◌, arith, ◌==◌, Bool-cases,
  inl, inr,
}
use native.Mathlib.Decide.{ℕ_discrete}
use aegir.Kernel.PhysicalMemory.{write}
use aegir.Kernel.PhysicalMemory.Owned.{Owned, Owned-write}
use aegir.Kernel.Capabilities.{CapEntry, CapTable, Store, set_entry, put}
use aegir.Kernel.Capabilities.Counting.{sum, sum_ext, sum-write, flag}
use aegir.Kernel.Capabilities.Pages.{Holds, reflexive}

set_entry-Owned :
    (f i : ℕ) (e : CapEntry) (m : Store) (free : List ℕ) (used : ℕ → Bool)
    → used f ≡ true
    → Owned m.pmm free used
    → Owned (set_entry f i e m).pmm free used
set_entry-Owned f i e m free used u o = elim (Bool-cases (i == 0)) [
  | inl z ↦ rw z (Owned-write m.pmm f e.object free used u o)
  | inr z ↦ rw z o
]

-- The entries in use of the page that is written, and of another.
row-set_entry :
    (f i : ℕ) (e : CapEntry) (m : Store)
    → i < 128
    → sum (λ j. flag ((set_entry f i e m).cells f j)) 128 + flag (m.cells f i)
      ≡ sum (λ j. flag (m.cells f j)) 128 + flag e
row-set_entry f i e m h =
    let row = λ (j : ℕ). flag (m.cells f j) in
    let same =
      sum_ext (λ j. flag ((set_entry f i e m).cells f j)) (write row i (flag e)) 128
        (λ j l. cell j) in
    rw same (sum-write row i (flag e) 128 h)
  where
    cell :
        (j : ℕ)
        → flag ((set_entry f i e m).cells f j) ≡ write (λ k. flag (m.cells f k)) i (flag e) j
    cell j = elim (Bool-cases (j == i)) [
      | inl y ↦ rw (reflexive f, y) refl
      | inr y ↦ rw (reflexive f, y) refl
    ]

row-set_entry_other :
    (f i g : ℕ) (e : CapEntry) (m : Store)
    → g ≢ f
    → sum (λ j. flag ((set_entry f i e m).cells g j)) 128 ≡ sum (λ j. flag (m.cells g j)) 128
row-set_entry_other f i g e m n =
    let out : (g == f) ≡ false = ground (arith, n) in
    sum_ext (λ j. flag ((set_entry f i e m).cells g j)) (λ j. flag (m.cells g j)) 128
      (λ j l. rw out refl)

pub put-Holds :
    (t : CapTable) (cap c w : ℕ) (e : CapEntry) (m : Store) (free : List ℕ) (used : ℕ → Bool)
    → Holds t m free used
    → cap < 16384
    → t.root (cap / 128) ≢ 0
    → c + flag (m.cells (t.root (cap / 128)) (cap % 128)) ≡ t.count (cap / 128) + flag e
    → w + t.count (cap / 128) ≡ t.total + c
    → Holds (record t { count = write t.count (cap / 128) c; total = w }) (put t cap e m) free used
unfolding put
put-Holds t cap c w e m free used o h n k q = record {
  owned =
      set_entry-Owned (t.root (cap / 128)) (cap % 128) e m free used (o.paged (cap / 128) n)
        o.owned;
  paged = o.paged;
  apart = o.apart;
  counted = counted;
  empty = λ p z. ground (arith, o.empty p, z, n);
  sums = omega (arith, q, o.sums, sum-write t.count (cap / 128) c 128 (omega (arith, h)));
}
  where
    now :
        write t.count (cap / 128) c (cap / 128)
        ≡ sum (λ i. flag ((put t cap e m).cells (t.root (cap / 128)) i)) 128
    now =
        let v : write t.count (cap / 128) c (cap / 128) ≡ c = ground arith in
        let r = row-set_entry (t.root (cap / 128)) (cap % 128) e m (omega arith) in
        let b = o.counted (cap / 128) n in omega (arith, v, r, b, k)

    counted :
        (p : ℕ)
        → t.root p ≢ 0
        → write t.count (cap / 128) c p ≡ sum (λ i. flag ((put t cap e m).cells (t.root p) i)) 128
    counted p z = elim (ℕ_discrete p (cap / 128)) [
      | yes y ↦ rw y now
      | no y ↦
          let v : write t.count (cap / 128) c p ≡ t.count p = ground (arith, y) in
          v
          ∙ o.counted p z
          ∙ sym (
              row-set_entry_other (t.root (cap / 128)) (cap % 128) (t.root p) e m
                (λ r. y (o.apart p (cap / 128) z r)))
    ]
