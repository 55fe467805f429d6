-- ===== src/Kernel/Capabilities/Releasing.antt =====
-- `Release_Page`: an empty page goes back to the allocator.
use aegir.Prelude.{
  ℕ, ◌/◌, ◌%◌, ◌<◌, Bool, true, Option, none, some, List, ◌∷◌, length, ◌≡◌, ◌≢◌, ◌⊎◌, refl, sym,
  ◌∙◌, arith, ◌==◌, Bool-cases, inl, inr,
}
use native.Mathlib.Decide.{ℕ_discrete}
use aegir.Kernel.PhysicalMemory.{Pmm, write, deallocate_frame}
use aegir.Kernel.PhysicalMemory as Pm
use aegir.Kernel.PhysicalMemory.Skip.{Yields}
use aegir.Kernel.PhysicalMemory.Owned.{Owned, KeepsWords, without_frame}
use aegir.Kernel.PhysicalMemory.Freeing.{Returns, deallocate_frame-Returns}
use aegir.Kernel.Capabilities.{CapTable, Store, get, release_page}
use aegir.Kernel.Capabilities.Pages.{Holds, entry_at_kept}
use aegir.Kernel.Capabilities.Growing.{IsSound}

-- The page's frame, `f`, is not held any more, and the allocator has it: its bump pointer fell to it, or
-- it heads the free list. The other frames are held and free as before.
abbrev pub GivenBack : ℕ → Pmm → List ℕ → (ℕ → Bool) → Pmm → Type 0
GivenBack f p free used q =
    (Owned q free (without_frame f used) × (q.next_frame ≡ f))
    ⊎ (Owned q (f ∷ free) (without_frame f used) × (q.next_frame ≡ p.next_frame))

-- The page is absent, its frame went back, and the handles of the other pages mean what they meant.
pub record Released (page : ℕ) (free : List ℕ) (used : ℕ → Bool) (t : CapTable) (m : Store)
    (u : CapTable) (n : Store) : Type 0 where
  pub returned : GivenBack (t.root page) m.pmm free used n.pmm
  pub count : u.count ≡ t.count
  pub total : u.total ≡ t.total
  pub gone : u.root page ≡ 0
  pub root : (p : ℕ) → p ≢ page → u.root p ≡ t.root p
  pub same : (h : ℕ) → h / 128 ≢ page → get u h n ≡ get t h m
  pub sound : IsSound u n

module _ (page : ℕ) (t : CapTable) (m : Store) (free : List ℕ) (used : ℕ → Bool)
    (o : Holds t m free used) (there : t.root page ≢ 0) (blank : t.count page ≡ 0) where
  abbrev cut : CapTable
  cut = record t { root = write t.root page 0 }

  module _ (pmm : Pmm) (words : KeepsWords (without_frame (t.root page) used) m.pmm pmm) where
    still : (p : ℕ) → cut.root p ≢ 0 → (p ≢ page) × (cut.root p ≡ t.root p)
    still p n = elim (ℕ_discrete p page) [
      | yes y ↦ absurd (n (ground (arith, y)))
      | no y ↦ (y, ground (arith, y))
    ]

    away : (p : ℕ) → p ≢ page → cut.root p ≡ t.root p
    away p y = ground (arith, y)

    -- A page that stays is held by the table alone.
    kept : (p : ℕ) → t.root p ≢ 0 → p ≢ page → without_frame (t.root page) used (t.root p) ≡ true
    kept p n y =
        let d : t.root p ≢ t.root page = λ q. y (o.apart p page n q) in
        ground (arith, o.paged p n, d)

    cut-Holds :
        (rest : List ℕ)
        → Owned pmm rest (without_frame (t.root page) used)
        → Holds cut (record m { pmm = pmm }) rest (without_frame (t.root page) used)
    cut-Holds rest owned = record {
      owned = owned;
      paged = λ p n. let (y, e) = still p n in rw e (kept p (λ w. n (e ∙ w)) y);
      apart = λ p q n e.
          let (y, a) = still p n in
          let (x, b) = still q (λ w. n (e ∙ w)) in o.apart p q (λ w. n (a ∙ w)) (sym a ∙ e ∙ b);
      counted = λ p n. let (y, a) = still p n in rw a (o.counted p (λ w. n (a ∙ w)));
      empty = λ p e. elim (ℕ_discrete p page) [
        | yes y ↦ rw y blank
        | no y ↦ o.empty p (ground (arith, e, y))
      ];
      sums = o.sums;
    }

    cut_same : (h : ℕ) → h / 128 ≢ page → get cut h (record m { pmm = pmm }) ≡ get t h m
    unfolding get
    cut_same h n = elim (Bool-cases (t.root (h / 128) == 0)) [
      | inl w ↦ rw (away (h / 128) n, w) refl
      | inr w ↦
          let nz : t.root (h / 128) ≢ 0 = λ q. ground (arith, w, q) in
          rw (away (h / 128) n, w)
            (entry_at_kept (t.root (h / 128)) (h % 128) m pmm
              (words (t.root (h / 128)) (kept (h / 128) nz n)))
    ]

    cut-Released :
        (rest : List ℕ)
        → Owned pmm rest (without_frame (t.root page) used)
        → GivenBack (t.root page) m.pmm free used pmm
        → Released page free used t m cut (record m { pmm = pmm })
    cut-Released rest owned back = record {
      returned = back;
      count = refl;
      total = refl;
      gone = ground arith;
      root = away;
      same = cut_same;
      sound = (rest, (without_frame (t.root page) used, cut-Holds rest owned));
    }

  released :
      (r : Option (Pm.Status × Pmm))
      → Yields (Returns (t.root page) m.pmm free used) r
      → Yields
          (λ (v : CapTable × Store). Released page free used t m v.0 v.1)
          (elim r [ none ↦ none | some (st, pmm) ↦ some (cut, record m { pmm = pmm }) ])
  released none y = y
  released (some (st, pmm)) (e, words, inl (owned, q)) =
      cut-Released pmm words free owned (inl (owned, q))
  released (some (st, pmm)) (e, words, inr (owned, q)) =
      cut-Released pmm words (t.root page ∷ free) owned (inr (owned, q))

pub release_page-Released :
    (fuel page : ℕ) (t : CapTable) (m : Store) (free : List ℕ) (used : ℕ → Bool)
    → Holds t m free used
    → t.root page ≢ 0
    → t.count page ≡ 0
    → length free < fuel
    → Yields
        (λ (v : CapTable × Store). Released page free used t m v.0 v.1)
        (release_page fuel page t m)
unfolding release_page
release_page-Released fuel page t m free used o there blank h =
    released page t m free used o there blank (deallocate_frame fuel (t.root page) m.pmm)
      (deallocate_frame-Returns fuel (t.root page) m.pmm free used o.owned (o.paged page there) h)
