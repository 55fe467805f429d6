-- ===== src/Kernel/PhysicalMemory/Allocating.antt =====
-- `Allocate_Frame` hands out frames that nobody holds.
use aegir.Prelude.{
  ℕ, ◌+◌, ◌-◌, ◌%◌, ◌^◌, ◌≤◌, ◌<◌, Bool, true, false, Option, none, some, List, [], ◌∷◌, length,
  ltb, ◌≡◌, ◌⊎◌, inl, inr, refl, arith, ◌==◌, Bool-cases,
}
use aegir.Kernel.PhysicalMemory.{
  Pmm, Status, ok, out_of_memory, take_free, bump, skip_reserved, allocate_frame, write, add64,
}
use aegir.Kernel.PhysicalMemory.Chain.{IsChain-write}
use aegir.Kernel.PhysicalMemory.Skip.{top, IsClear, Found, Yields, skip_reserved-Found}
use aegir.Kernel.PhysicalMemory.Owned.{
  IsFrame, Owned, KeepsWords, with_frame, IsFrame-kept, IsFrame-with_frame,
}

-- A frame was handed out that nobody held, or there is none left: the list is empty, and no clear page
-- lies between the bump pointer and the limit. Held frames keep their words.
abbrev pub Allocates : Pmm → List ℕ → (ℕ → Bool) → Status × ℕ × Pmm → Type 0
Allocates s free used (st, f, t) =
    ((st ≡ ok)
      × (used f ≡ false)
      × IsFrame t f
      × KeepsWords used s t
      × ((rest : List ℕ) × Owned t rest (with_frame f used)))
    ⊎ ((st ≡ out_of_memory)
        × (free ≡ [])
        × Owned t [] used
        × KeepsWords used s t
        × ((d : ℕ) → s.next_frame ≤ d → d + 4096 ≤ s.limit → IsClear d 4096 s.reserved → ⊥))

take_free-Allocates :
    (s : Pmm) (x : ℕ) (rest : List ℕ) (used : ℕ → Bool)
    → Owned s (x ∷ rest) used
    → Allocates s (x ∷ rest) used (take_free s)
unfolding take_free
take_free-Allocates s x rest used o =
    let (e, ne, out, c) = o.chain in
    let t : Pmm = record s {
      free_list_head = s.link x;
      free_list_count = (s.free_list_count + (2 ^ 64 - 1)) % 2 ^ 64;
      link = write s.link x 0;
    } in
    let kept = λ (f : ℕ) (i : IsFrame s f). IsFrame-kept s t f refl refl refl i.upper i in
    let fx : IsFrame s x = o.free_frame x (ground arith) in
    let owned : Owned t rest (with_frame x used) = record {
      ready = o.ready;
      chain = IsChain-write s.link (s.link x) x 0 rest out c;
      count = omega (arith, o.count);
      not_null = o.not_null;
      paged = o.paged;
      bound = o.bound;
      order = o.order;
      limit = o.limit;
      ranges = o.ranges;
      free_frame = λ f h. kept f (o.free_frame f (ground (arith, h)));
      used_frame = IsFrame-with_frame t used x (kept x fx) (λ f h. kept f (o.used_frame f h));
      apart = λ f h. ground (arith, out, h, o.apart f);
    } in
    let words : KeepsWords used s t = λ g h. ground (arith, h, o.apart x (ground arith)) in
    rw e (inl (refl, o.apart x (ground arith), kept x fx, words, (rest, owned)))

-- The bump pointer moves up to a clear page, or past it, and nothing else changes.
advanced-Owned :
    (s : Pmm) (n : ℕ) (used : ℕ → Bool)
    → Owned s [] used
    → s.next_frame ≤ n
    → n % 4096 ≡ 0
    → n ≤ top
    → Owned (record s { next_frame = n }) [] used
advanced-Owned s n used o h p b = record {
  ready = o.ready;
  chain = o.chain;
  count = o.count;
  not_null = o.not_null;
  paged = p;
  bound = b;
  order = omega (arith, o.order);
  limit = o.limit;
  ranges = o.ranges;
  free_frame = λ f e. ground arith;
  used_frame = λ f e.
      let i = o.used_frame f e in
      IsFrame-kept s (record s { next_frame = n }) f refl refl refl (omega (arith, i.upper)) i;
  apart = λ f e. ground arith;
}

-- The page that the bump pointer passed is handed out.
took-Owned :
    (s : Pmm) (c : ℕ) (used : ℕ → Bool)
    → Owned s [] used
    → Found s.next_frame 4096 s.reserved c
    → c + 4096 ≤ s.limit
    → IsFrame (record s { next_frame = c + 4096 }) c
      × Owned (record s { next_frame = c + 4096 }) [] (with_frame c used)
took-Owned s c used o f h =
    let t : Pmm = record s { next_frame = c + 4096 } in
    let a =
      advanced-Owned s (c + 4096) used o (omega (arith, f.later)) (omega (arith, f.paged))
        (omega (arith, o.limit)) in
    let i : IsFrame t c = record {
      lower = omega (arith, o.order, f.later);
      upper = omega arith;
      paged = f.paged;
      inside = h;
      clear = f.clear;
    } in
    (
      i,
      record {
        ready = a.ready;
        chain = a.chain;
        count = a.count;
        not_null = a.not_null;
        paged = a.paged;
        bound = a.bound;
        order = a.order;
        limit = a.limit;
        ranges = a.ranges;
        free_frame = a.free_frame;
        used_frame = IsFrame-with_frame t used c i a.used_frame;
        apart = λ f e. ground arith;
      },
    )

-- The bump pointer has skipped to a clear page.
bump-Allocates :
    (s : Pmm) (c : ℕ) (used : ℕ → Bool)
    → Owned s [] used
    → Found s.next_frame 4096 s.reserved c
    → Allocates s [] used (bump 1 (record s { next_frame = c }))
unfolding bump
bump-Allocates s c used o f =
    let q : add64 c 4096 ≡ c + 4096 = omega (arith, f.bound) in
    elim (Bool-cases (ltb s.limit (add64 c 4096))) [
      | inl b ↦ rw b (
          inr (
            refl,
            refl,
            advanced-Owned s c used o f.later f.paged f.bound,
            λ g h. refl,
            λ d lo hi cl. f.first d lo (ground (arith, b, f.bound)) cl,
          ))
      | inr b ↦
          let (i, n) = took-Owned s c used o f (ground (arith, b, q)) in
          rw b (inl (refl, fresh, rw q i, (λ g h. refl), ([], rw q n)))
    ]
  where
    fresh : used c ≡ false
    fresh = elim (Bool-cases (used c)) [
      | inl e ↦ absurd (omega (arith, (o.used_frame c e).upper, f.later))
      | inr e ↦ e
    ]

-- When the invariant holds and the fuel exceeds the number of reserved ranges, `Allocate_Frame` returns.
-- Either the answer is ok, with a page of the managed memory that meets no reserved range and that
-- nobody held, and the invariant holds with that frame held; or it is Out_Of_Memory, the list is empty,
-- no page from the bump pointer to the limit is clear of the reserved ranges, and the invariant holds.
-- The first words of the frames that were held are unchanged.
pub allocate_frame-Allocates :
    (fuel : ℕ) (s : Pmm) (free : List ℕ) (used : ℕ → Bool)
    → Owned s free used
    → length s.reserved < fuel
    → Yields (Allocates s free used) (allocate_frame fuel s)
unfolding allocate_frame
allocate_frame-Allocates fuel s (x ∷ rest) used o h =
    let (e, ne, out, c) = o.chain in
    let z : (s.free_list_head == 0) ≡ false = ground (arith, e, ne) in
    simp (o.ready, z) (take_free-Allocates s x rest used o)
allocate_frame-Allocates fuel s [] used o h =
    let z : (s.free_list_head == 0) ≡ true = ground (arith, o.chain) in
    simp (o.ready, z)
      (from_bump (skip_reserved fuel s.next_frame 1 s)
        (skip_reserved-Found fuel s.next_frame 1 s o.ranges (omega arith) o.paged o.bound h))
  where
    from_bump :
        (r : Option ℕ)
        → Yields (Found s.next_frame 4096 s.reserved) r
        → Yields
            (Allocates s [] used)
            (elim r [ none ↦ none | some next ↦ some (bump 1 (record s { next_frame = next })) ])
    from_bump none y = y
    from_bump (some c) y = bump-Allocates s c used o y
