-- ===== src/Kernel/PhysicalMemory/Skip.antt =====
-- `Skip_Reserved`: the restarted scan ends at the first run that meets no reserved range.
use aegir.Prelude.{
  ℕ, suc, ◌+◌, ◌*◌, ◌%◌, ◌^◌, ◌≤◌, ◌<◌, true, ◌&&◌, Option, none, some, List, [], ◌∷◌, length, ltb,
  ◌≡◌, ◌⊎◌, inl, inr, arith, if◌then◌else◌, Option-cases, Bool-cases,
}
use aegir.Prelude.Loop.{loop, Ends, Advances, loop-Ends}
use aegir.Kernel.PhysicalMemory.{Pmm, ReservedRange, add64, overlap, skip_turn, skip_reserved}

-- Addresses stay far enough from the end of the 64-bit range.
abbrev pub top : ℕ
top = 2 ^ 62

-- Reserved ranges end at a page boundary, below `top`.
abbrev pub AllPaged : List ReservedRange → Type 0
AllPaged [] = Unit
AllPaged (r ∷ rs) = (r.last % 4096 ≡ 0) × (r.last ≤ top) × AllPaged rs

-- The `size` bytes from `a` on meet no range.
abbrev pub IsClear : ℕ → ℕ → List ReservedRange → Type 0
IsClear a size [] = Unit
IsClear a size (r ∷ rs) = ((r.last ≤ a) ⊎ (a + size ≤ r.base)) × IsClear a size rs

-- How many ranges end after `a`.
abbrev ahead : ℕ → List ReservedRange → ℕ
ahead a [] = 0
ahead a (r ∷ rs) = let rest = ahead a rs in if ltb a r.last then suc rest else rest

ahead_mono : (a b : ℕ) (rs : List ReservedRange) → a ≤ b → ahead b rs ≤ ahead a rs
ahead_mono a b [] h = omega arith
ahead_mono a b (r ∷ rs) h = ground (arith, ahead_mono a b rs h)

ahead_bound : (a : ℕ) (rs : List ReservedRange) → ahead a rs ≤ length rs
ahead_bound a [] = omega arith
ahead_bound a (r ∷ rs) = ground (arith, ahead_bound a rs)

overlap-none :
    (a size : ℕ) (rs : List ReservedRange) → overlap a (a + size) rs ≡ none → IsClear a size rs
unfolding overlap
overlap-none a size [] e = tt
overlap-none a size (r ∷ rs) e = ground (arith, e, overlap-none a size rs)

-- A range that the run meets: it ends after the run's start, at a boundary, fewer ranges end after it,
-- and no run of that size from before its end is clear.
record Hit (a size l : ℕ) (rs : List ReservedRange) : Type 0 where
  later : a < l
  paged : l % 4096 ≡ 0
  bound : l ≤ top
  fewer : ahead l rs < ahead a rs
  blocks : (d : ℕ) → a ≤ d → d < l → IsClear d size rs → ⊥

overlap-Hit :
    (a size l : ℕ) (rs : List ReservedRange)
    → AllPaged rs
    → overlap a (a + size) rs ≡ some l
    → Hit a size l rs
unfolding overlap
overlap-Hit a size l [] p e = ground arith
overlap-Hit a size l (r ∷ rs) p e = elim (Bool-cases (ltb a r.last && ltb r.base (a + size))) [
  | inl t ↦
      let q : l ≡ r.last = ground (arith, e, t) in
      record {
        later = ground (arith, t, q);
        paged = rw q p.0;
        bound = rw q p.1;
        fewer = ground (arith, t, q, ahead_mono a l rs);
        blocks = λ d lo hi c. missed d lo hi t q c.0;
      }
  | inr t ↦
      let h = overlap-Hit a size l rs p.2 (ground (arith, e, t)) in
      record {
        later = h.later;
        paged = h.paged;
        bound = h.bound;
        fewer = ground (arith, h.later, h.fewer);
        blocks = λ d lo hi c. h.blocks d lo hi c.1;
      }
]
  where
    missed :
        (d : ℕ)
        → a ≤ d
        → d < l
        → (ltb a r.last && ltb r.base (a + size)) ≡ true
        → l ≡ r.last
        → ((r.last ≤ d) ⊎ (d + size ≤ r.base))
        → ⊥
    missed d lo hi t q (inl u) = absurd (omega (arith, q))
    missed d lo hi t q (inr u) = ground (arith, t)

-- What the scan from `from` on finds: the first clear run, at a page boundary.
pub record Found (from size : ℕ) (rs : List ReservedRange) (c : ℕ) : Type 0 where
  pub later : from ≤ c
  pub paged : c % 4096 ≡ 0
  pub bound : c ≤ top
  pub clear : IsClear c size rs
  pub first : (d : ℕ) → from ≤ d → d < c → IsClear d size rs → ⊥

record Scanning (from size : ℕ) (rs : List ReservedRange) (c : ℕ) : Type 0 where
  later : from ≤ c
  paged : c % 4096 ≡ 0
  bound : c ≤ top
  first : (d : ℕ) → from ≤ d → d < c → IsClear d size rs → ⊥

skip_turn-Advances :
    (from pages c : ℕ) (rs : List ReservedRange)
    → AllPaged rs
    → pages * 4096 ≤ top
    → Scanning from (pages * 4096) rs c
    → Advances
        (Scanning from (pages * 4096) rs)
        (λ (r v : ℕ). Found from (pages * 4096) rs r)
        (λ v. ahead v rs)
        (ahead c rs)
        (skip_turn rs pages c)
skip_turn-Advances from pages c rs p h s =
    let size = pages * 4096 in
    let e : add64 c size ≡ c + size = omega (arith, s.bound, h) in
    elim (Option-cases (overlap c (add64 c size) rs)) [
      | inl q ↦
          rw (q, skip_turn)
            (record {
              later = s.later;
              paged = s.paged;
              bound = s.bound;
              clear = overlap-none c size rs (rw e at (q));
              first = s.first;
            })
      | inr (l, q) ↦
          let t = overlap-Hit c size l rs p (rw e at (q)) in rw (q, skip_turn) (next l s t, t.fewer)
    ]
  where
    next :
        (l : ℕ)
        → Scanning from (pages * 4096) rs c
        → Hit c (pages * 4096) l rs
        → Scanning from (pages * 4096) rs l
    next l s t = record {
      later = omega (arith, s.later, t.later);
      paged = t.paged;
      bound = t.bound;
      first = λ d lo hi cl. elim (Bool-cases (ltb d c)) [
        | inl b ↦ s.first d lo (ground (arith, b)) cl
        | inr b ↦ t.blocks d (ground (arith, b)) hi cl
      ];
    }

-- A result was found, and it is as `Q` says.
abbrev pub Yields : {A : Type 0} → (A → Type 0) → Option A → Type 0
Yields Q none = ⊥
Yields Q (some a) = Q a

pub skip_reserved-Found :
    (fuel from pages : ℕ) (s : Pmm)
    → AllPaged s.reserved
    → pages * 4096 ≤ top
    → from % 4096 ≡ 0
    → from ≤ top
    → length s.reserved < fuel
    → Yields (Found from (pages * 4096) s.reserved) (skip_reserved fuel from pages s)
unfolding skip_reserved
skip_reserved-Found fuel from pages s p h q b f =
    dropped (loop fuel (skip_turn s.reserved pages) from) (
      loop-Ends (Scanning from (pages * 4096) s.reserved)
        (λ (r v : ℕ). Found from (pages * 4096) s.reserved r) (λ v. ahead v s.reserved)
        (skip_turn s.reserved pages) (λ c t. skip_turn-Advances from pages c s.reserved p h t) fuel
        from (omega (arith, ahead_bound from s.reserved)) start)
  where
    start : Scanning from (pages * 4096) s.reserved from
    start = record {
      later = omega arith;
      paged = q;
      bound = b;
      first = λ d lo hi c. absurd (omega arith);
    }

    dropped :
        (r : Option (ℕ × ℕ))
        → Ends (λ (c v : ℕ). Found from (pages * 4096) s.reserved c) r
        → Yields
            (Found from (pages * 4096) s.reserved)
            (elim r [ none ↦ none | some (c, v) ↦ some c ])
    dropped none e = e
    dropped (some (c, v)) e = e
