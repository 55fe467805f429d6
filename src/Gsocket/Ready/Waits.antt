-- ===== src/Gsocket/Ready/Waits.antt =====
-- `select` and `poll` with a timeout return, and return 0 only once it has passed.
use native.Mathlib.Nat.{le_trans}
use aegir.Prelude.{
  ℕ, ◌+◌, ◌-◌, ◌*◌, ◌/◌, ◌%◌, ◌^◌, ◌≤◌, ◌<◌, ℤ, some, ◌≡◌, arith, Bool-cases, inl, inr, ltb, leb,
}
use aegir.Prelude.Loop.{Ends, Advances, loop-Ends}
use aegir.Gsocket.Types.{State, Bridge, ak_sleep_slice}
use aegir.Gsocket.Ready.{FdSets, select_scan, select_turn, select, deadline_of, nfds_of}
use aegir.Gsocket.Ready.Clock.{IsClock, select_scan_later}

module _ {W : Type 0} ⦃b : Bridge W⦄ where
  -- The slices that are left until a deadline.
  abbrev pub slices_left : ℕ → State W → ℕ
  slices_left deadline s = (deadline - b.rdtime s.net + 49999) / 50000

  -- A return of 0 comes at the deadline or later.
  abbrev pub InTime : {S : Type 0} → ℕ → ℕ → S × State W → Type 0
  InTime deadline r t = r ≡ 0 → deadline ≤ b.rdtime t.1.net

module _ {W : Type 0} ⦃b : Bridge W⦄ (c : IsClock W) where
  pub sleep_shortens :
      (deadline : ℕ) (s : State W)
      → deadline + 50000 < 2 ^ 64
      → b.rdtime s.net < deadline
      → slices_left deadline (ak_sleep_slice s) < slices_left deadline s
  unfolding ak_sleep_slice
  sleep_shortens deadline s fits lt =
      omega (arith, c.sleeps ((b.rdtime s.net + 50000) % 2 ^ 64) s.net)

  select_turn-Advances :
      (nfds deadline : ℕ) (f : FdSets) (s : State W)
      → deadline + 50000 < 2 ^ 64
      → Advances
          (λ _. Unit {0})
          (InTime deadline)
          (λ (t : FdSets × State W). slices_left deadline t.1)
          (slices_left deadline s)
          (select_turn nfds (some deadline) (f, s))
  unfolding select_turn
  select_turn-Advances nfds deadline f s fits = elim (Bool-cases (ltb 0 p.0)) [
    | inl q ↦ rw (q, select_turn) (λ e. ground arith)
    | inr q ↦ elim (Bool-cases (leb deadline (b.rdtime p.2.net))) [
      | inl late ↦ rw (q, late, select_turn) (λ e. ground arith)
      | inr early ↦
          rw (q, early, select_turn)
            (
              tt,
              le_trans (sleep_shortens deadline p.2 fits (ground arith))
                  (ground (arith, select_scan_later c nfds 0 0 f s)),
            )
    ]
  ]
    where
      p : ℕ × FdSets × State W
      p = select_scan nfds 0 (0, f, s)

  -- `select` with a timeout returns: given more rounds than there are 5 ms slices in the timeout it
  -- ends, and where it returns 0 its deadline has passed. The deadline is taken not to overflow the
  -- 64-bit clock.
  pub select_returns :
      (fuel : ℕ) (nfds : ℤ) (f : FdSets) (sec usec : ℕ) (s : State W)
      → b.rdtime s.net + sec * 10000000 + usec * 10 + 50000 < 2 ^ 64
      → (sec * 10000000 + usec * 10 + 49999) / 50000 < fuel
      → Ends
          (InTime (b.rdtime s.net + sec * 10000000 + usec * 10))
          (select fuel nfds f (some (sec, usec)) s)
  unfolding select deadline_of
  select_returns fuel nfds f sec usec s fits enough =
      let deadline = b.rdtime s.net + sec * 10000000 + usec * 10 in
      let e : deadline % 2 ^ 64 ≡ deadline = omega arith in
      rw e (
        loop-Ends (λ _. Unit {0}) (InTime deadline) (λ t. slices_left deadline t.1)
          (select_turn (nfds_of nfds) (some deadline))
          (λ t _. select_turn-Advances (nfds_of nfds) deadline t.0 t.1 fits) fuel (f, s)
          (omega arith) tt)
