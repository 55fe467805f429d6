-- ===== src/Kernel/Capabilities/Growing.antt =====
-- `Ensure_Page`: the page is there afterwards, every handle means what it meant, and the table still
-- holds its frames.
use aegir.Prelude.{
  ℕ, ◌/◌, ◌%◌, ◌<◌, Bool, true, false, Option, none, some, List, [], length, ◌≡◌, ◌≢◌, ◌⊎◌, refl,
  sym, ◌∙◌, arith, ◌==◌, Bool-cases, inl, inr,
}
use native.Mathlib.Decide.{ℕ_discrete}
use aegir.Kernel.PhysicalMemory.{Pmm, write, allocate_frame}
use aegir.Kernel.PhysicalMemory as Pm
use aegir.Kernel.PhysicalMemory.Skip.{Yields}
use aegir.Kernel.PhysicalMemory.Owned.{IsFrame, Owned, Owned-write, KeepsWords, with_frame}
use aegir.Kernel.PhysicalMemory.Allocating.{Allocates, allocate_frame-Allocates}
use aegir.Kernel.Capabilities.{
  Status, ok, table_full, CapTable, Store, is_null, get, zero_page, new_page, ensure_page,
}
use aegir.Kernel.Capabilities.Counting.{sum, sum_zero, flag}
use aegir.Kernel.Capabilities.Pages.{
  Holds, IsTight, entry_at-zero_page, entry_at-zero_page_other, entry_at_kept, reflexive,
}

-- The invariant, for some account of who owns which frame.
abbrev pub IsSound : CapTable → Store → Type 0
IsSound t m = (free : List ℕ) × ((used : ℕ → Bool) × Holds t m free used)

-- An entry in use names an object.
abbrev pub IsProper : CapTable → Store → Type 0
IsProper t m =
    (h : ℕ)
    → (get t h m).valid ≡ true
    → (is_null (get t h m).kind ≡ false) × ((get t h m).object ≢ 0)

-- What holds of a table between the calls.
abbrev pub IsWell : CapTable → Store → Type 0
IsWell t m = IsSound t m × IsTight t × IsProper t m

-- What `Ensure_Page` leaves as it was.
pub record Grown (page : ℕ) (t : CapTable) (m : Store) (u : CapTable) (n : Store) : Type 0 where
  pub count : u.count ≡ t.count
  pub total : u.total ≡ t.total
  pub root : (p : ℕ) → p ≢ page → u.root p ≡ t.root p
  pub same : (h : ℕ) → get u h n ≡ get t h m
  pub sound : IsSound u n

abbrev pub Ensures : ℕ → CapTable → Store → Status × CapTable × Store → Type 0
Ensures page t m (st, u, n) =
    Grown page t m u n × (((st ≡ ok) × (u.root page ≢ 0)) ⊎ ((st ≡ table_full) × (u.root page ≡ 0)))

module _ (page : ℕ) (t : CapTable) (m : Store) (free : List ℕ) (used : ℕ → Bool)
    (o : Holds t m free used) (z : t.root page ≡ 0) where
  -- The allocator has given the frame `f`.
  module _ (f : ℕ) (pmm : Pmm) (rest : List ℕ) (fresh : used f ≡ false) (i : IsFrame pmm f)
      (words : KeepsWords used m.pmm pmm) (owned : Owned pmm rest (with_frame f used)) where
    abbrev grown : CapTable
    grown = record t { root = write t.root page f }

    abbrev zeroed : Store
    zeroed = zero_page f (record m { pmm = pmm })

    not_null : f ≢ 0
    not_null q = absurd (omega (arith, q, i.lower, owned.not_null))

    old : (p : ℕ) → t.root p ≢ 0 → t.root p ≢ f
    old p n q = let u : used f ≡ true = rw⁻¹ q (o.paged p n) in ground (arith, u, fresh)

    there : (p : ℕ) → p ≡ page → grown.root p ≡ f
    there p y = ground (arith, y)

    elsewhere : (p : ℕ) → p ≢ page → grown.root p ≡ t.root p
    elsewhere p y = ground (arith, y)

    grown_apart : (p q : ℕ) → grown.root p ≢ 0 → grown.root p ≡ grown.root q → p ≡ q
    grown_apart p q n e = elim (ℕ_discrete p page) [
      | yes y ↦ elim (ℕ_discrete q page) [
        | yes x ↦ y ∙ sym x
        | no x ↦
            let k : f ≡ t.root q = sym (there p y) ∙ e ∙ elsewhere q x in
            absurd (old q (λ w. not_null (k ∙ w)) (sym k))
      ]
      | no y ↦
          let k : t.root p ≡ grown.root q = sym (elsewhere p y) ∙ e in
          let nz : t.root p ≢ 0 = λ w. n (elsewhere p y ∙ w) in
          elim (ℕ_discrete q page) [
            | yes x ↦ absurd (old p nz (k ∙ there q x))
            | no x ↦ o.apart p q nz (k ∙ elsewhere q x)
          ]
    ]

    grown_counted :
        (p : ℕ) → grown.root p ≢ 0 → t.count p ≡ sum (λ j. flag (zeroed.cells (grown.root p) j)) 128
    unfolding zero_page
    grown_counted p n = elim (ℕ_discrete p page) [
      | yes y ↦
          rw (there p y)
            (o.empty p (rw y z) ∙ sym (sum_zero (λ j. flag (zeroed.cells f j)) 128 blank))
      | no y ↦
          let nz : t.root p ≢ 0 = λ w. n (elsewhere p y ∙ w) in
          let out : (t.root p == f) ≡ false = ground (arith, old p nz) in
          rw (elsewhere p y, out) (o.counted p nz)
    ]
      where
        blank : (j : ℕ) → j < 128 → flag (zeroed.cells f j) ≡ 0
        blank j l = rw (reflexive f) refl

    grown_same : (h : ℕ) → get grown h zeroed ≡ get t h m
    unfolding get
    grown_same h = elim (ℕ_discrete (h / 128) page) [
      | yes y ↦
          let a : (f == 0) ≡ false = ground (arith, not_null) in
          let b : t.root (h / 128) ≡ 0 = rw y z in
          rw (there (h / 128) y, a, b) (entry_at-zero_page f (h % 128) (record m { pmm = pmm }))
      | no y ↦ elim (Bool-cases (t.root (h / 128) == 0)) [
        | inl w ↦ rw (elsewhere (h / 128) y, w) refl
        | inr w ↦
            let nz : t.root (h / 128) ≢ 0 = λ q. ground (arith, w, q) in
            rw (elsewhere (h / 128) y, w)
              (entry_at-zero_page_other f (t.root (h / 128)) (h % 128) (record m { pmm = pmm })
                  (old (h / 128) nz)
                ∙ entry_at_kept (t.root (h / 128)) (h % 128) m pmm
                    (words (t.root (h / 128)) (o.paged (h / 128) nz)))
      ]
    ]

    grown-Holds : Holds grown zeroed rest (with_frame f used)
    unfolding zero_page
    grown-Holds = record {
      owned = Owned-write pmm f 0 rest (with_frame f used) (ground arith) owned;
      paged = λ p n. ground (arith, n, o.paged p);
      apart = grown_apart;
      counted = grown_counted;
      empty = λ p e. ground (arith, e, not_null, o.empty p);
      sums = o.sums;
    }

  untouched :
      (pmm : Pmm)
      → KeepsWords used m.pmm pmm
      → (h : ℕ) → get t h (record m { pmm = pmm }) ≡ get t h m
  unfolding get
  untouched pmm words h = elim (Bool-cases (t.root (h / 128) == 0)) [
    | inl w ↦ rw w refl
    | inr w ↦ rw w (
        entry_at_kept (t.root (h / 128)) (h % 128) m pmm
          (words (t.root (h / 128)) (o.paged (h / 128) (λ q. ground (arith, w, q)))))
  ]

  -- The allocator's answer is used, or the table is full.
  new_page-Ensures :
      (r : Pm.Status × ℕ × Pmm)
      → Allocates m.pmm free used r
      → Ensures page t m (new_page page t m r)
  new_page-Ensures (st, f, pmm) (inl (e, fresh, i, words, (rest, owned))) = rw e (
    record {
      count = refl;
      total = refl;
      root = elsewhere f pmm rest fresh i words owned;
      same = grown_same f pmm rest fresh i words owned;
      sound = (rest, (with_frame f used, grown-Holds f pmm rest fresh i words owned));
    },
    inl (refl, λ q. not_null f pmm rest fresh i words owned (ground (arith, q))),
  )
  new_page-Ensures (st, f, pmm) (inr (e, em, owned, words, full)) = rw e (
    record {
      count = refl;
      total = refl;
      root = λ p n. refl;
      same = untouched pmm words;
      sound = (
        [],
        (
          used,
          record {
            owned = owned;
            paged = o.paged;
            apart = o.apart;
            counted = o.counted;
            empty = o.empty;
            sums = o.sums;
          },
        ),
      );
    },
    inr (refl, z),
  )

pub ensure_page-Ensures :
    (fuel page : ℕ) (t : CapTable) (m : Store) (free : List ℕ) (used : ℕ → Bool)
    → Holds t m free used
    → length m.pmm.reserved < fuel
    → Yields (Ensures page t m) (ensure_page fuel page t m)
unfolding ensure_page
ensure_page-Ensures fuel page t m free used o h = elim (Bool-cases (t.root page == 0)) [
  | inl w ↦ rw w (
      answered (ground (arith, w)) (allocate_frame fuel m.pmm)
        (allocate_frame-Allocates fuel m.pmm free used o.owned h))
  | inr w ↦ rw w (
    record {
      count = refl;
      total = refl;
      root = λ p n. refl;
      same = λ k. refl;
      sound = (free, (used, o));
    },
    inl (refl, λ q. ground (arith, w, q)),
  )
]
  where
    answered :
        t.root page ≡ 0
        → (r : Option (Pm.Status × ℕ × Pmm)) → Yields (Allocates m.pmm free used) r
        → Yields (Ensures page t m) (elim r [ none ↦ none | some a ↦ some (new_page page t m a) ])
    answered z none y = y
    answered z (some a) y = new_page-Ensures page t m free used o z a y
