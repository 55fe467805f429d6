-- ===== src/Gsocket/Ready/Select.antt =====
-- What `select` reports.
use native.Mathlib.Decide.{ℕ_discrete}
use aegir.Prelude.{
  ℕ, zero, suc, ◌+◌, ◌≤◌, ◌<◌, ℤ, false, ◌&&◌, Option, ◌≡◌, refl, ◌∙◌, arith, Bool-cases, inl, inr,
}
use aegir.Prelude.Loop.{loop-Allows, Allows, Keeps}
use aegir.Gsocket.Types.{State, Bridge, ak_sleep_slice}
use aegir.Gsocket.Ready.{
  FdSets, requested, select_fd, select_scan, select_turn, select, nfds_of, deadline_of, timed_out,
}
use aegir.Gsocket.Ready.Scan.{
  Which, rd, wr, ex, set_of, bit_of, IsFdSets, hits, look, select_fd-sets, select_fd-count,
  select_fd-IsFdSets, select_scan-outside, select_scan-IsFdSets, le-select_scan, nfds_of-le,
}

-- No descriptor of the range is in a set.
abbrev pub NoneIn : ℕ → ℕ → FdSets → Type 0
NoneIn fd to f = (k : Which) (j : ℕ) → fd ≤ j → j < to → requested (set_of k f) j ≡ false

no_hit :
    (k : Which) (fd m : ℕ) (f : FdSets)
    → hits fd f m ≡ 0
    → (requested (set_of k f) fd && bit_of k m) ≡ false
no_hit rd fd m f h = ground arith
no_hit wr fd m f h = ground arith
no_hit ex fd m f h = ground arith

module _ {W : Type 0} ⦃b : Bridge W⦄ where
  -- A round that counts nothing leaves every set empty.
  scan_quiet :
      (rounds fd n : ℕ) (f : FdSets) (s : State W)
      → IsFdSets f
      → fd + rounds ≤ 256
      → (select_scan rounds fd (n, f, s)).0 ≡ n
      → NoneIn fd (fd + rounds) (select_scan rounds fd (n, f, s)).1
  unfolding select_scan
  scan_quiet zero fd n f s h le e = λ k j lo hi. absurd (omega arith)
  scan_quiet (suc rounds) fd n f s h le e = λ k j lo hi. elim (ℕ_discrete j fd) [
    | yes q ↦ rw q (
        select_scan-outside k rounds (fd + 1) p.0 fd p.1 p.2 valid (omega arith) (inl (omega arith))
        ∙ here k)
    | no q ↦
        scan_quiet rounds (fd + 1) p.0 p.1 p.2 valid (omega arith) (omega (arith, same, e)) k j
          (omega arith) (omega arith)
  ]
    where
      p : ℕ × FdSets × State W
      p = select_fd fd (n, f, s)

      valid : IsFdSets p.1
      valid = select_fd-IsFdSets fd n f s h

      same : p.0 ≡ n
      same = omega (arith, le-select_scan rounds (fd + 1) p.0 p.1 p.2, select_fd-count fd n f s, e)

      none_hit : hits fd f (look fd f s).0 ≡ 0
      none_hit = omega (arith, same, select_fd-count fd n f s)

      here : (k : Which) → requested (set_of k p.1) fd ≡ false
      here k = ground (
        arith,
        select_fd-sets k fd n fd f s h (omega arith),
        no_hit k fd (look fd f s).0 f none_hit,
      )

  -- With no descriptor requested a round counts nothing.
  scan_empty :
      (rounds fd n : ℕ) (f : FdSets) (s : State W)
      → IsFdSets f
      → fd + rounds ≤ 256
      → NoneIn fd (fd + rounds) f
      → (select_scan rounds fd (n, f, s)).0 ≡ n
  unfolding select_scan
  scan_empty zero fd n f s h le e = refl
  scan_empty (suc rounds) fd n f s h le e =
      scan_empty rounds (fd + 1) p.0 p.1 p.2 (select_fd-IsFdSets fd n f s h) (omega arith) rest
      ∙ same
    where
      p : ℕ × FdSets × State W
      p = select_fd fd (n, f, s)

      same : p.0 ≡ n
      same = ground (
        arith,
        select_fd-count fd n f s,
        e rd fd (omega arith) (omega arith),
        e wr fd (omega arith) (omega arith),
        e ex fd (omega arith) (omega arith),
      )

      rest : NoneIn (fd + 1) (fd + 1 + rounds) p.1
      rest = λ k j lo hi.
          ground
            (arith, select_fd-sets k fd n j f s h (omega arith), e k j (omega arith) (omega arith))

  -- The sets of a wait in which nothing will be counted.
  record IsDeaf (nfds : ℕ) (f : FdSets) (s : State W) : Type 0 where
    valid : IsFdSets f
    quiet : (select_scan nfds 0 (0, f, s)).0 ≡ 0

  turn-IsDeaf :
      (nfds : ℕ) (deadline : Option ℕ) (f : FdSets) (s : State W)
      → nfds ≤ 256
      → IsDeaf nfds f s
      → Keeps
          (λ (p : FdSets × State W). IsDeaf nfds p.0 p.1)
          (λ r p. r ≡ 0)
          (select_turn nfds deadline (f, s))
  unfolding select_turn
  turn-IsDeaf nfds deadline f s le d =
      rw (select_turn, d.quiet)
        (elim (Bool-cases (timed_out deadline p.2)) [
          | inl q ↦ rw q refl
          | inr q ↦ rw q (record {
            valid = after;
            quiet =
                scan_empty nfds 0 0 p.1 (ak_sleep_slice p.2) after fits
                  (scan_quiet nfds 0 0 f s d.valid fits d.quiet);
          })
        ])
    where
      p : ℕ × FdSets × State W
      p = select_scan nfds 0 (0, f, s)

      fits : 0 + nfds ≤ 256
      fits = omega arith

      after : IsFdSets p.1
      after = select_scan-IsFdSets nfds 0 0 f s d.valid

  -- A wait in `select` that finds nothing ready in its first round never reports a descriptor,
  -- whatever becomes ready later: the round has cleared the sets that the next ones look at. If the
  -- call returns at all, with any timeout and after any number of rounds, it returns 0.
  pub select_deaf :
      (fuel : ℕ) (nfds : ℤ) (f : FdSets) (timeout : Option (ℕ × ℕ)) (s : State W)
      → IsFdSets f
      → (select_scan (nfds_of nfds) 0 (0, f, s)).0 ≡ 0
      → Allows (λ r (t : FdSets × State W). r ≡ 0) (select fuel nfds f timeout s)
  unfolding select
  select_deaf fuel nfds f timeout s h e =
      loop-Allows (λ (p : FdSets × State W). IsDeaf (nfds_of nfds) p.0 p.1) (λ r p. r ≡ 0)
        (select_turn (nfds_of nfds) (deadline_of timeout s))
        (λ (f1, s1) d. turn-IsDeaf (nfds_of nfds) (deadline_of timeout s) f1 s1 (nfds_of-le nfds) d)
        fuel (f, s) (record { valid = h; quiet = e })
