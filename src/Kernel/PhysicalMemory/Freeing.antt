-- ===== src/Kernel/PhysicalMemory/Freeing.antt =====
-- `Deallocate_Frame` takes back a frame that is held, and refuses one that is free already.
use aegir.Prelude.{
  ℕ, ◌+◌, ◌%◌, ◌^◌, ◌≤◌, ◌<◌, Bool, true, false, some, List, ◌∷◌, length, ◌≡◌, ◌≢◌, ◌⊎◌, inl, inr,
  refl, arith, ◌==◌, Bool-cases,
}
use native.Mathlib.Decide.{ℕ_discrete}
use aegir.Kernel.PhysicalMemory.{
  Pmm, Status, ok, invalid_range, valid_frame, is_in_free_list, give_back, deallocate_frame, write,
  add64,
}
use aegir.Kernel.PhysicalMemory.Chain.{has, IsChain-write, walk-has}
use aegir.Kernel.PhysicalMemory.Skip.{Yields}
use aegir.Kernel.PhysicalMemory.Owned.{IsFrame, Owned, KeepsWords, without_frame, IsFrame-kept}

-- The frame is not held any more: the bump pointer fell to it, or it heads the list. Held frames keep
-- their words.
abbrev pub Returns : ℕ → Pmm → List ℕ → (ℕ → Bool) → Status × Pmm → Type 0
Returns f s free used (st, t) =
    (st ≡ ok)
    × KeepsWords (without_frame f used) s t
    × ((Owned t free (without_frame f used) × (t.next_frame ≡ f))
        ⊎ (Owned t (f ∷ free) (without_frame f used) × (t.next_frame ≡ s.next_frame)))

held_elsewhere :
    (f g : ℕ) (used : ℕ → Bool) → without_frame f used g ≡ true → (g ≢ f) × (used g ≡ true)
held_elsewhere f g used h = ((λ q. ground (arith, h, q)), ground (arith, h))

-- The newest frame: every other frame lies below it.
lowered-Owned :
    (s : Pmm) (f : ℕ) (free : List ℕ) (used : ℕ → Bool)
    → Owned s free used
    → used f ≡ true
    → f + 4096 ≡ s.next_frame
    → Owned (record s { next_frame = f }) free (without_frame f used)
lowered-Owned s f free used o u q =
    let i : IsFrame s f = o.used_frame f u in
    let t : Pmm = record s { next_frame = f } in
    record {
      ready = o.ready;
      chain = o.chain;
      count = o.count;
      not_null = o.not_null;
      paged = i.paged;
      bound = omega (arith, o.bound);
      order = i.lower;
      limit = o.limit;
      ranges = o.ranges;
      free_frame = λ g h. below g (o.free_frame g h) (λ q. contradictory g h q);
      used_frame =
          λ g h. let (ne, h2) = held_elsewhere f g used h in below g (o.used_frame g h2) ne;
      apart = λ g h. ground (arith, o.apart g h);
    }
  where
    contradictory : (g : ℕ) → has g free ≡ true → g ≡ f → ⊥
    contradictory g h q = let a : used f ≡ false = o.apart f (rw⁻¹ q h) in ground (arith, a, u)

    below : (g : ℕ) → IsFrame s g → g ≢ f → IsFrame (record s { next_frame = f }) g
    below g i n =
        IsFrame-kept s (record s { next_frame = f }) g refl refl refl
          (omega (arith, i.upper, i.paged, (o.used_frame f u).paged)) i

pushed-Owned :
    (s : Pmm) (f : ℕ) (free : List ℕ) (used : ℕ → Bool)
    → Owned s free used
    → used f ≡ true
    → has f free ≡ false
    → Owned
        (record s {
          link = write s.link f s.free_list_head;
          free_list_head = f;
          free_list_count = (s.free_list_count + 1) % 2 ^ 64;
        })
        (f ∷ free)
        (without_frame f used)
pushed-Owned s f free used o u out =
    let i : IsFrame s f = o.used_frame f u in
    let t : Pmm = record s {
      link = write s.link f s.free_list_head;
      free_list_head = f;
      free_list_count = (s.free_list_count + 1) % 2 ^ 64;
    } in
    let self : (f == f) ≡ true = ground arith in
    let kept = λ (g : ℕ) (j : IsFrame s g). IsFrame-kept s t g refl refl refl j.upper j in
    record {
      ready = o.ready;
      chain = (
        refl,
        (λ q. absurd (omega (arith, q, i.lower, o.not_null))),
        out,
        rw self (IsChain-write s.link s.free_list_head f s.free_list_head free out o.chain),
      );
      count = omega (arith, o.count);
      not_null = o.not_null;
      paged = o.paged;
      bound = o.bound;
      order = o.order;
      limit = o.limit;
      ranges = o.ranges;
      free_frame = λ g h. elim (ℕ_discrete g f) [
        | yes q ↦ rw q (kept f i)
        | no n ↦ kept g (o.free_frame g (ground (arith, h, n)))
      ];
      used_frame = λ g h. kept g (o.used_frame g (held_elsewhere f g used h).1);
      apart = λ g h. ground (arith, h, o.apart g);
    }

give_back-Returns :
    (f : ℕ) (s : Pmm) (free : List ℕ) (used : ℕ → Bool)
    → Owned s free used
    → used f ≡ true
    → has f free ≡ false
    → Returns f s free used (ok, give_back f s)
unfolding give_back
give_back-Returns f s free used o u out =
    let i = o.used_frame f u in
    let q : add64 f 4096 ≡ f + 4096 = omega (arith, i.upper, o.bound) in
    elim (Bool-cases (add64 f 4096 == s.next_frame)) [
      | inl b ↦
          rw b (
            refl,
            (λ g h. refl),
            inl (lowered-Owned s f free used o u (ground (arith, b, q)), refl),
          )
      | inr b ↦ rw b (
        refl,
        (λ g h. words g (held_elsewhere f g used h).0),
        inr (pushed-Owned s f free used o u out, refl),
      )
    ]
  where
    words : (g : ℕ) → g ≢ f → write s.link f s.free_list_head g ≡ s.link g
    words g n = ground (arith, n)

-- When the invariant holds, a caller holds the frame, and the fuel exceeds the length of the list,
-- `Deallocate_Frame` answers ok. The invariant holds with the frame held no more: the newest frame
-- lowers the bump pointer and leaves the list as it was, any other frame becomes the head of the list.
-- The first words of the frames that are still held are unchanged.
pub deallocate_frame-Returns :
    (fuel f : ℕ) (s : Pmm) (free : List ℕ) (used : ℕ → Bool)
    → Owned s free used
    → used f ≡ true
    → length free < fuel
    → Yields (Returns f s free used) (deallocate_frame fuel f s)
unfolding deallocate_frame valid_frame is_in_free_list
deallocate_frame-Returns fuel f s free used o u h =
    let i = o.used_frame f u in
    let out : has f free ≡ false = elim (Bool-cases (has f free)) [
      | inl e ↦ let a : used f ≡ false = o.apart f e in ground (arith, a, u)
      | inr e ↦ e
    ] in
    let v : valid_frame f s ≡ true = ground (arith, i.lower, i.upper, i.paged) in
    let w =
      walk-has fuel s.link f s.free_list_head free o.chain h
        (λ q. absurd (omega (arith, q, i.lower, o.not_null))) in
    let e : deallocate_frame fuel f s ≡ some (ok, give_back f s) =
      ground (arith, o.ready, v, w, out) in
    rw e (give_back-Returns f s free used o u out)

-- When the invariant holds and the fuel exceeds the length of the list, `Deallocate_Frame` of a frame
-- that is on the list already, or of an address not below the bump pointer, answers Invalid_Range and
-- changes nothing.
pub deallocate_frame-Refused :
    (fuel f : ℕ) (s : Pmm) (free : List ℕ) (used : ℕ → Bool)
    → Owned s free used
    → (has f free ≡ true) ⊎ (s.next_frame ≤ f)
    → length free < fuel
    → deallocate_frame fuel f s ≡ some (invalid_range, s)
unfolding deallocate_frame valid_frame is_in_free_list
deallocate_frame-Refused fuel f s free used o (inl e) h =
    let i = o.free_frame f e in
    let v : valid_frame f s ≡ true = ground (arith, i.lower, i.upper, i.paged) in
    let w =
      walk-has fuel s.link f s.free_list_head free o.chain h
        (λ q. absurd (omega (arith, q, i.lower, o.not_null))) in
    ground (arith, o.ready, v, w, e)
deallocate_frame-Refused fuel f s free used o (inr e) h = ground (arith, o.ready, e)
