-- ===== src/Gsocket/Ready/Report.antt =====
-- A round of `select` against its specification. Asking for a socket's state may change what lies behind
-- the bridge, so each descriptor is judged at the state at which the round looks at it.
use native.Mathlib.Decide.{ℕ_discrete}
use aegir.Prelude.{
  ℕ, zero, suc, ◌+◌, ◌≤◌, ◌<◌, ℤ, pos, ◌&&◌, Option, ◌==◌, if◌then◌else◌, ◌≡◌, refl, ◌∙◌, sym,
  arith, inl, inr,
}
use mathlib.Core.Path.{subst}
use native.Mathlib.Nat.{zero-add}
use aegir.Prelude.{lt→ltb}
use aegir.Prelude.Loop.{loop, Ends}
use aegir.Gsocket.Types.{State, Bridge}
use aegir.Gsocket.Ready.{
  FdSets, requested, ak_ready, select_fd, select_scan, select_turn, select, nfds_of,
}
use aegir.Gsocket.Ready.Scan.{
  Which, rd, wr, ex, set_of, bit_of, IsFdSets, hits, look, select_fd-sets, select_fd-count,
  select_fd-IsFdSets, select_fd-state, select_scan-outside, nfds_of-le,
}

module _ {W : Type 0} ⦃b : Bridge W⦄ where
  -- The mask of a descriptor.
  abbrev pub mask : ℕ → State W → ℕ
  mask fd s = (ak_ready (pos fd) s).0

  -- The state at which a round looks at a descriptor: asking for the ones below it, as far as they are
  -- requested, may have changed what lies behind the bridge.
  unfoldable pub state_at : ℕ → FdSets → State W → State W
  state_at zero f s = s
  state_at (suc j) f s = (look j f (state_at j f s)).1

  -- The mask that a round sees.
  abbrev pub seen : ℕ → FdSets → State W → ℕ
  seen j f s = mask j (state_at j f s)

  -- How often the descriptors of the range are reported, over the three sets.
  unfoldable pub reports : ℕ → ℕ → FdSets → State W → ℕ
  reports zero fd f s = 0
  reports (suc rounds) fd f s = hits fd f (seen fd f s) + reports rounds (fd + 1) f s

  -- What a round over the descriptors from `fd` on has done, for the sets `f` and the state `s` that the
  -- whole round began at.
  pub record Scanned (rounds fd n : ℕ) (f : FdSets) (s : State W) (out : ℕ × FdSets × State W)
      : Type 0 where
    pub same : out.2 ≡ state_at (fd + rounds) f s
    pub valid : IsFdSets out.1
    pub sets :
        (k : Which) (j : ℕ)
        → fd ≤ j
        → j < fd + rounds
        → requested (set_of k out.1) j ≡ (requested (set_of k f) j && bit_of k (seen j f s))
    pub count : out.0 ≡ n + reports rounds fd f s

  -- What `select` has done when it returns at once.
  pub record Reported (nfds : ℕ) (f : FdSets) (s : State W) (r : ℕ) (t : FdSets × State W)
      : Type 0 where
    pub count : r ≡ reports nfds 0 f s
    pub same : t.1 ≡ state_at nfds f s
    pub below :
        (k : Which) (j : ℕ)
        → j < nfds
        → requested (set_of k t.0) j ≡ (requested (set_of k f) j && bit_of k (seen j f s))
    pub above :
        (k : Which) (j : ℕ) → nfds ≤ j → requested (set_of k t.0) j ≡ requested (set_of k f) j

-- The sets `g` ask for the same descriptors as `f`, from `fd` on.
abbrev Agree : ℕ → FdSets → FdSets → Type 0
Agree fd f g = (k : Which) (j : ℕ) → fd ≤ j → requested (set_of k g) j ≡ requested (set_of k f) j

module _ {W : Type 0} ⦃b : Bridge W⦄ where
  -- A descriptor is looked at if some set asks for it, so the mask is right where it matters.
  look-mask :
      (k : Which) (fd : ℕ) (f : FdSets) (s : State W)
      → (requested (set_of k f) fd && bit_of k (look fd f s).0)
        ≡ (requested (set_of k f) fd && bit_of k (mask fd s))
  unfolding look
  look-mask rd fd f s = ground arith
  look-mask wr fd f s = ground arith
  look-mask ex fd f s = ground arith

  look-Agree : (fd : ℕ) (f g : FdSets) (s : State W) → Agree fd f g → look fd g s ≡ look fd f s
  unfolding look
  look-Agree fd f g s a =
      rw (a rd fd (omega arith), a wr fd (omega arith), a ex fd (omega arith)) refl

  hits-look :
      (fd : ℕ) (f g : FdSets) (s : State W)
      → Agree fd f g
      → hits fd g (look fd g s).0 ≡ hits fd f (mask fd s)
  hits-look fd f g s a =
      rw
        (
          look-mask rd fd g s,
          look-mask wr fd g s,
          look-mask ex fd g s,
          a rd fd (omega arith),
          a wr fd (omega arith),
          a ex fd (omega arith),
        )
        refl

  module _ (f : FdSets) (s : State W) where
    step_sets :
        (fd n : ℕ) (g : FdSets)
        → IsFdSets g
        → fd < 256
        → Agree fd f g
        → (k : Which) (j : ℕ) → fd ≤ j
        → requested (set_of k (select_fd fd (n, g, state_at fd f s)).1) j ≡ (
            if j == fd
            then requested (set_of k f) fd && bit_of k (seen fd f s)
            else requested (set_of k f) j)
    step_sets fd n g h lt a k j lo =
        select_fd-sets k fd n j g (state_at fd f s) h lt
        ∙ rw (look-mask k fd g (state_at fd f s), a k fd (omega arith), a k j lo) refl

    step_state :
        (fd n : ℕ) (g : FdSets)
        → Agree fd f g
        → (select_fd fd (n, g, state_at fd f s)).2 ≡ state_at (fd + 1) f s
    unfolding state_at
    step_state fd n g a =
        let e : fd + 1 ≡ suc fd = omega arith in
        rw e (
          select_fd-state fd n g (state_at fd f s)
          ∙ rw (look-Agree fd f g (state_at fd f s) a) refl)

    -- Over the descriptors `fd` to `fd + rounds - 1`, at most 255, a round leaves in each set exactly
    -- the requested descriptors that are ready for it when they are looked at, and returns the count
    -- of these over the three sets.
    pub select_scan-Scanned :
        (rounds fd n : ℕ) (g : FdSets)
        → IsFdSets g
        → Agree fd f g
        → fd + rounds ≤ 256
        → Scanned rounds fd n f s (select_scan rounds fd (n, g, state_at fd f s))
    unfolding select_scan reports
    select_scan-Scanned zero fd n g h a le = record {
      same = let e : fd + 0 ≡ fd = omega arith in rw e refl;
      valid = h;
      sets = λ k j lo hi. absurd (omega arith);
      count = omega arith;
    }
    select_scan-Scanned (suc rounds) fd n g h a le =
        let p = select_fd fd (n, g, state_at fd f s) in
        let e : fd + 1 + rounds ≡ fd + suc rounds = omega arith in
        let st = step_state fd n g a in
        let valid = select_fd-IsFdSets fd n g (state_at fd f s) h in
        let step = step_sets fd n g h (omega arith) a in
        let next : Agree (fd + 1) f p.1 = λ k j lo. step k j (omega arith) ∙ ground arith in
        let ih : Scanned rounds (fd + 1) p.0 f s (select_scan rounds (fd + 1) p) =
          subst (λ t. Scanned rounds (fd + 1) p.0 f s (select_scan rounds (fd + 1) (p.0, p.1, t)))
            (sym st) (select_scan-Scanned rounds (fd + 1) p.0 p.1 valid next (omega arith)) in
        record {
          same = rw (sym e) ih.same;
          valid = ih.valid;
          sets = λ k j lo hi. elim (ℕ_discrete j fd) [
            | yes q ↦ rw q (
                select_scan-outside k rounds (fd + 1) p.0 fd p.1 p.2 valid (omega arith)
                  (inl (omega arith))
                ∙ step k fd (omega arith)
                ∙ ground arith)
            | no q ↦ ih.sets k j (omega arith) (omega arith)
          ];
          count = omega (
            arith,
            ih.count,
            select_fd-count fd n g (state_at fd f s),
            hits-look fd f g (state_at fd f s) a,
          );
        }

  -- If some requested descriptor below `nfds` (at most 256) is ready for its set when the first round
  -- looks at it, then with any timeout `select` returns in that round, with the number of reports. Each
  -- set holds exactly its requested descriptors that were ready when the round looked at them, those
  -- from `nfds` on are left alone, and the state is the one that asking for the others left.
  pub select_at_once :
      (fuel : ℕ) (nfds : ℤ) (f : FdSets) (timeout : Option (ℕ × ℕ)) (s : State W)
      → IsFdSets f
      → 0 < reports (nfds_of nfds) 0 f s
      → Ends (Reported (nfds_of nfds) f s) (select (suc fuel) nfds f timeout s)
  unfolding select loop select_turn state_at
  select_at_once fuel nfds f timeout s h some_ready =
      rw (lt→ltb 0 p.0 (omega (arith, scan.count)), select_turn)
        (record {
          count = scan.count ∙ zero-add _;
          same = scan.same ∙ rw (zero-add (nfds_of nfds)) refl;
          below = λ k j lt. scan.sets k j (omega arith) (omega arith);
          above =
              λ k j le. select_scan-outside k (nfds_of nfds) 0 0 j f s h fits (inr (omega arith));
        })
    where
      p : ℕ × FdSets × State W
      p = select_scan (nfds_of nfds) 0 (0, f, s)

      fits : 0 + nfds_of nfds ≤ 256
      fits = omega (arith, nfds_of-le nfds)

      scan : Scanned (nfds_of nfds) 0 0 f s p
      scan = select_scan-Scanned f s (nfds_of nfds) 0 0 f h (λ k j lo. refl) fits
