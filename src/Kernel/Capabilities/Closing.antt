-- ===== src/Kernel/Capabilities/Closing.antt =====
-- `Close`: one handle is given up, and an empty page with it.
use aegir.Prelude.{
  ℕ, ◌+◌, ◌-◌, ◌/◌, ◌%◌, ◌<◌, Bool, true, false, not, ◌||◌, Option, none, some, List, length, ◌≡◌,
  ◌≢◌, ◌⊎◌, refl, ◌∙◌, arith, ◌==◌, Bool-cases, inl, inr,
}
use native.Mathlib.Decide.{ℕ_discrete}
use aegir.Kernel.PhysicalMemory.{write}
use aegir.Kernel.PhysicalMemory.Skip.{Yields}
use aegir.Kernel.PhysicalMemory.Owned.{Owned}
use aegir.Kernel.Capabilities.{
  Status, ok, invalid_cap, CapTable, Store, TableCoherent, null_cap, get, put, lookup, close,
}
use aegir.Kernel.Capabilities.Counting.{sum_part, flag}
use aegir.Kernel.Capabilities.Pages.{Holds, IsTight, get-put, get-set_entry_other}
use aegir.Kernel.Capabilities.Storing.{put-Holds}
use aegir.Kernel.Capabilities.Growing.{IsProper, IsWell}
use aegir.Kernel.Capabilities.Coherent.{IsWell-TableCoherent}
use aegir.Kernel.Capabilities.Filling.{flag-get}
use aegir.Kernel.Capabilities.Deriving.{names}
use aegir.Kernel.Capabilities.Releasing.{GivenBack, Released, release_page-Released}

-- The frame of the handle's page: the page stays, the frame is still held, and the allocator has handed
-- out and got back nothing; or its count is 0, the page is absent, and the allocator has its frame.
abbrev pub SettlesPage : CapTable → Store → List ℕ → (ℕ → Bool) → ℕ → CapTable → Store → Type 0
SettlesPage t m free used page u n =
    ((u.count page ≢ 0)
      × (u.root page ≡ t.root page)
      × Owned n.pmm free used
      × (n.pmm.next_frame ≡ m.pmm.next_frame))
    ⊎ ((u.count page ≡ 0) × (u.root page ≡ 0) × GivenBack (t.root page) m.pmm free used n.pmm)

-- The handle names nothing any more, and the others are looked up as before; or it named nothing, and
-- nothing has changed.
abbrev pub Closes : CapTable → Store → List ℕ → (ℕ → Bool) → ℕ → Status × CapTable × Store → Type 0
Closes t m free used cap (st, u, n) =
    ((names t cap m ≡ true)
      × (st ≡ ok)
      × IsWell u n
      × TableCoherent u
      × (names u cap n ≡ false)
      × ((h : ℕ) → h ≢ cap → lookup u h n ≡ lookup t h m)
      × (u.total + 1 ≡ t.total)
      × SettlesPage t m free used (cap / 128) u n)
    ⊎ ((names t cap m ≡ false) × (st ≡ invalid_cap) × (u ≡ t) × (n ≡ m))

-- Two tables read the same at a handle: the same entry, or none in use.
abbrev Agrees : CapTable → Store → CapTable → Store → ℕ → Type 0
Agrees u n t m h =
    (get u h n ≡ get t h m) ⊎ (((get u h n).valid ≡ false) × ((get t h m).valid ≡ false))

lookup-Agrees :
    (u t : CapTable) (n m : Store) (h : ℕ) → Agrees u n t m h → lookup u h n ≡ lookup t h m
unfolding lookup
lookup-Agrees u t n m h (inl e) = rw e refl
lookup-Agrees u t n m h (inr (a, b)) =
    let x : ((h == 0) || not (get u h n).valid) ≡ true = ground (arith, a) in
    let y : ((h == 0) || not (get t h m).valid) ≡ true = ground (arith, b) in rw (x, y) refl

get_absent : (u : CapTable) (h : ℕ) (n : Store) → u.root (h / 128) ≡ 0 → get u h n ≡ null_cap
unfolding get
get_absent u h n e = let z : (u.root (h / 128) == 0) ≡ true = ground (arith, e) in rw z refl

module _ (cap : ℕ) (t : CapTable) (m : Store) (free : List ℕ) (used : ℕ → Bool)
    (o : Holds t m free used) (tight : IsTight t) (proper : IsProper t m) (small : cap < 16384)
    (valid : (get t cap m).valid ≡ true) (there : t.root (cap / 128) ≢ 0) where
  abbrev counted : CapTable
  counted = record t {
    count = write t.count (cap / 128) (t.count (cap / 128) - 1);
    total = t.total - 1;
  }

  abbrev emptied : Store
  emptied = put t cap null_cap m

  positive : 0 < t.count (cap / 128)
  positive =
      let row = λ (i : ℕ). flag (m.cells (t.root (cap / 128)) i) in
      let now : flag (get t cap m) ≡ 1 = rw valid refl in
      omega (
        arith,
        sum_part row 128 (cap % 128) (omega arith),
        o.counted (cap / 128) there,
        flag-get t cap m there,
        now,
      )

  emptied-Holds : Holds counted emptied free used
  emptied-Holds =
      let now : flag (get t cap m) ≡ 1 = rw valid refl in
      put-Holds t cap (t.count (cap / 128) - 1) (t.total - 1) null_cap m free used o small there
        (omega (arith, positive, flag-get t cap m there, now))
        (omega (arith, positive, o.sums, sum_part t.count 128 (cap / 128) (omega (arith, small))))

  emptied_other : (h : ℕ) → h ≢ cap → get counted h emptied ≡ get t h m
  emptied_other h n = get-set_entry_other t counted cap h null_cap m (λ p. refl) o.apart n

  emptied_same : get counted cap emptied ≡ null_cap
  emptied_same = get-put t counted cap null_cap m (λ p. refl) there

  emptied_next : emptied.pmm.next_frame ≡ m.pmm.next_frame
  unfolding put
  emptied_next = ground arith

  total_lem : counted.total + 1 ≡ t.total
  total_lem =
      omega (arith, positive, o.sums, sum_part t.count 128 (cap / 128) (omega (arith, small)))

  nameless : (u : CapTable) (n : Store) → (get u cap n).valid ≡ false → names u cap n ≡ false
  nameless u n e = ground (arith, e)

  inherits :
      (u : CapTable) (n : Store)
      → ((h : ℕ) → (get u h n).valid ≡ true → get u h n ≡ get t h m)
      → IsProper u n
  inherits u n same h v = let e = same h v in let w = rw e at (v) in rw e (proper h w)

  emptied_kept : (h : ℕ) → (get counted h emptied).valid ≡ true → get counted h emptied ≡ get t h m
  emptied_kept h v = elim (ℕ_discrete h cap) [
    | yes y ↦ let w = rw (y, emptied_same) at (v) in ground arith
    | no y ↦ emptied_other h y
  ]

  -- Other entries of the page are in use.
  stays-Closes :
      names t cap m ≡ true
      → t.count (cap / 128) - 1 ≢ 0
      → Closes t m free used cap (ok, counted, emptied)
  stays-Closes a c = inl (
    a,
    refl,
    ((free, (used, emptied-Holds)), still_tight, still_proper),
    IsWell-TableCoherent counted emptied ((free, (used, emptied-Holds)), still_tight, still_proper),
    nameless counted emptied (rw emptied_same refl),
    (λ h n. lookup-Agrees counted t emptied m h (inl (emptied_other h n))),
    total_lem,
    inl ((λ q. c (ground (arith, q))), refl, emptied-Holds.owned, emptied_next),
  )
    where
      still_tight : IsTight counted
      still_tight p k = tight p (elim (ℕ_discrete p (cap / 128)) [
        | yes y ↦ absurd (c (ground (arith, k, y)))
        | no y ↦ ground (arith, k, y)
      ])

      still_proper : IsProper counted emptied
      still_proper = inherits counted emptied emptied_kept

  -- When the count reaches 0, the page's other entries are not in use.
  alone :
      t.count (cap / 128) - 1 ≡ 0
      → (h : ℕ) → h ≢ cap
      → h / 128 ≡ cap / 128
      → (get t h m).valid ≡ false
  alone c h k y =
      let nz : t.root (h / 128) ≢ 0 = rw y there in
      let row = λ (i : ℕ). flag (emptied.cells (t.root (h / 128)) i) in
      let z : counted.count (h / 128) ≡ 0 = ground (arith, c, y) in
      let f : flag (get counted h emptied) ≡ 0 = omega (
        arith,
        z,
        sum_part row 128 (h % 128) (omega arith),
        emptied-Holds.counted (h / 128) nz,
        flag-get counted h emptied nz,
      ) in
      let g : flag (get t h m) ≡ 0 = rw (emptied_other h k) at (f) in ground (arith, g)

  -- It was the page's last entry, and the page is gone.
  goes-Closes :
      names t cap m ≡ true
      → t.count (cap / 128) - 1 ≡ 0
      → (u : CapTable) (n : Store) → Released (cap / 128) free used counted emptied u n
      → Closes t m free used cap (ok, u, n)
  goes-Closes a c u n r = inl (
    a,
    refl,
    (r.sound, left_tight, inherits u n left_kept),
    IsWell-TableCoherent u n (r.sound, left_tight, inherits u n left_kept),
    nameless u n (rw (get_absent u cap n r.gone) refl),
    (λ h k. lookup-Agrees u t n m h (agrees h k)),
    rw r.total total_lem,
    inr (rw r.count (ground (arith, c)), r.gone, back),
  )
    where
      back : GivenBack (t.root (cap / 128)) m.pmm free used n.pmm
      back = elim r.returned [ inl (w, e) ↦ inl (w, e) | inr (w, e) ↦ inr (w, e ∙ emptied_next) ]

      left_tight : IsTight u
      left_tight p k = elim (ℕ_discrete p (cap / 128)) [
        | yes y ↦ rw y r.gone
        | no y ↦
            let b : counted.count p ≡ 0 = rw r.count at (k) in
            r.root p y ∙ tight p (ground (arith, b, y))
      ]

      left_kept : (h : ℕ) → (get u h n).valid ≡ true → get u h n ≡ get t h m
      left_kept h v = elim (ℕ_discrete (h / 128) (cap / 128)) [
        | yes y ↦
            let z : u.root (h / 128) ≡ 0 = rw y r.gone in
            let w = rw (get_absent u h n z) at (v) in ground arith
        | no y ↦ r.same h y ∙ emptied_other h (λ q. y (rw q refl))
      ]

      agrees : (h : ℕ) → h ≢ cap → Agrees u n t m h
      agrees h k = elim (ℕ_discrete (h / 128) (cap / 128)) [
        | yes y ↦
            let z : u.root (h / 128) ≡ 0 = rw y r.gone in
            inr (rw (get_absent u h n z) refl, alone c h k y)
        | no y ↦ inl (r.same h y ∙ emptied_other h k)
      ]

  closed :
      names t cap m ≡ true
      → t.count (cap / 128) - 1 ≡ 0
      → (r : Option (CapTable × Store))
      → Yields (λ (v : CapTable × Store). Released (cap / 128) free used counted emptied v.0 v.1) r
      → Yields (Closes t m free used cap) (elim r [ none ↦ none | some (u, n) ↦ some (ok, u, n) ])
  closed a c none y = y
  closed a c (some (u, n)) y = goes-Closes a c u n y

get_there :
    (t : CapTable) (cap : ℕ) (m : Store) → (get t cap m).valid ≡ true → t.root (cap / 128) ≢ 0
unfolding get
get_there t cap m v q =
    let z : (t.root (cap / 128) == 0) ≡ true = ground (arith, q) in
    let w = rw z at (v) in ground arith

-- Over a well-formed table, for a handle below 16384 and with fuel for the allocator's list, `Close`
-- returns. When the handle names a capability, the answer is ok, the handle names nothing afterwards,
-- every other handle is looked up as before, the total is one less, and the table is well-formed and
-- coherent: a page has a frame exactly if it has an entry in use. If the handle's page has entries in use
-- left, it keeps its frame, and the allocator's frames are held and free as before. If it has none, the
-- page is absent, and its frame is held no more: the allocator's bump pointer fell to it, or it heads
-- the free list. When the handle names nothing, the answer is Invalid_Cap and nothing changes.
pub close-Closes :
    (fuel cap : ℕ) (t : CapTable) (m : Store) (free : List ℕ) (used : ℕ → Bool)
    → Holds t m free used
    → IsTight t
    → IsProper t m
    → cap < 16384
    → length free < fuel
    → Yields (Closes t m free used cap) (close fuel t cap m)
unfolding close
close-Closes fuel cap t m free used o tight proper small h = elim (Bool-cases (names t cap m)) [
  | inr a ↦
      let b : ((cap == 0) || not (get t cap m).valid) ≡ true = ground (arith, a) in
      rw b (inr (a, refl, refl, refl))
  | inl a ↦
      let b : ((cap == 0) || not (get t cap m).valid) ≡ false = ground (arith, a) in
      let v : (get t cap m).valid ≡ true = ground (arith, a) in
      let there = get_there t cap m v in
      let self : write t.count (cap / 128) (t.count (cap / 128) - 1) (cap / 128)
          ≡ t.count (cap / 128) - 1 =
        ground arith in
      elim (Bool-cases (t.count (cap / 128) - 1 == 0)) [
        | inl c ↦
            let d : t.count (cap / 128) - 1 ≡ 0 = ground (arith, c) in
            rw (b, self, c)
              (closed cap t m free used o tight proper small v there a d _ (
                release_page-Released fuel (cap / 128) _ _ free used
                  (emptied-Holds cap t m free used o tight proper small v there) there (self ∙ d)
                  h))
        | inr c ↦
            rw (b, self, c)
              (stays-Closes cap t m free used o tight proper small v there a
                (λ q. ground (arith, c, q)))
      ]
]
