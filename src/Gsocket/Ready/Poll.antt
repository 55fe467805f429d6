-- ===== src/Gsocket/Ready/Poll.antt =====
-- `poll`: every result is what one round over the caller's array saw, and a timeout is kept.
use native.Mathlib.Nat.{le_trans}
use aegir.Prelude.{
  ℕ, ◌+◌, ◌*◌, ◌/◌, ◌%◌, ◌^◌, ◌≤◌, ◌<◌, pos, false, some, List, [], ◌∷◌, ◌≡◌, refl, ◌∙◌, sym, arith,
  Bool-cases, inl, inr, ltb, leb,
}
use aegir.Prelude.Loop.{Ends, Advances, loop-Ends}
use aegir.Gsocket.Types.{State, Bridge}
use aegir.Gsocket.Ready.{PollFd, poll_fd, poll_scan, poll_turn, poll, poll_deadline, ak_sleep_slice}
use mathlib.Core.Path.{subst}
use aegir.Gsocket.Ready.Clock.{IsClock, poll_scan_later}
use aegir.Gsocket.Ready.Waits.{slices_left, sleep_shortens}

module _ {W : Type 0} ⦃b : Bridge W⦄ where
  poll_fd-poll_fd : (p : PollFd) (s t : State W) → poll_fd (poll_fd p s).0 t ≡ poll_fd p t
  unfolding poll_fd
  poll_fd-poll_fd p s t = refl

  -- A round does not read the events that an earlier one has reported.
  poll_scan-poll_scan :
      (ps : List PollFd) (s t : State W) → poll_scan (poll_scan ps s).1 t ≡ poll_scan ps t
  unfolding poll_scan poll_fd
  poll_scan-poll_scan [] s t = refl
  poll_scan-poll_scan (p ∷ ps) s t = rw (poll_scan-poll_scan ps (poll_fd p s).1 (poll_fd p t).1)

  -- A wait over the array `ps` that began at `s` may begin a round at the state: at `s` itself, or after
  -- a round that found nothing, and the sleep of a slice.
  pub data Waited (ps : List PollFd) (s : State W) : State W → Type 0 where
    called : Waited ps s s
    slept :
        (t : State W)
        → Waited ps s t
        → (poll_scan ps t).0 ≡ 0
        → Waited ps s (ak_sleep_slice (poll_scan ps t).2)

  -- The array `ps'` and the state are what a round over `ps` leaves that the wait from `s` came to, and
  -- that counted `r`; a count of 0 is returned at the deadline or later.
  abbrev pub Polled : List PollFd → State W → ℕ → ℕ → List PollFd × State W → Type 0
  Polled ps s deadline r (ps', s') =
      (t : State W) × Waited ps s t
      × (poll_scan ps t ≡ (r, ps', s'))
      × (r ≡ 0 → deadline ≤ b.rdtime s'.net)

  -- What holds before each round: it sees the caller's array, and the wait has come to its state.
  abbrev Waiting : List PollFd → State W → List PollFd × State W → Type 0
  Waiting ps s (ps1, t) = Waited ps s t × ((u : State W) → poll_scan ps1 u ≡ poll_scan ps u)

module _ {W : Type 0} ⦃b : Bridge W⦄ (c : IsClock W) where
  poll_turn-Advances :
      (ps ps1 : List PollFd) (deadline : ℕ) (s0 s : State W)
      → deadline + 50000 < 2 ^ 64
      → Waited ps s0 s
      → ((t : State W) → poll_scan ps1 t ≡ poll_scan ps t)
      → Advances
          (Waiting ps s0)
          (Polled ps s0 deadline)
          (λ (t : List PollFd × State W). slices_left deadline t.1)
          (slices_left deadline s)
          (poll_turn (some deadline) (ps1, s))
  unfolding poll_turn
  poll_turn-Advances ps ps1 deadline s0 s fits w same = elim (Bool-cases (ltb 0 p.0)) [
    | inl q ↦ rw (q, poll_turn) (s, w, sym (same s), λ e. ground arith)
    | inr q ↦ elim (Bool-cases (leb deadline (b.rdtime p.2.net))) [
      | inl late ↦
          rw (q, late, poll_turn) (s, w, sym (same s) ∙ rw (zero_count q) refl, λ e. ground arith)
      | inr early ↦
          rw (q, early, poll_turn)
            (
              (
                subst (λ r. Waited ps s0 (ak_sleep_slice r.2)) (sym (same s))
                    (Waited.slept s w (rw (sym (same s)) (zero_count q))),
                λ t. poll_scan-poll_scan ps1 s t ∙ same t,
              ),
              le_trans (sleep_shortens c deadline p.2 fits (ground arith))
                  (ground (arith, poll_scan_later c ps1 s)),
            )
    ]
  ]
    where
      p : ℕ × List PollFd × State W
      p = poll_scan ps1 s

      zero_count : ltb 0 p.0 ≡ false → p.0 ≡ 0
      zero_count q = ground arith

  -- `poll` with a timeout returns: given more rounds than there are 5 ms slices in the timeout it
  -- ends. Its count, the events in the array and the state are those of one round over the caller's
  -- array, which began at the caller's state or after rounds that found nothing, each with the sleep of
  -- a slice; and where the count is 0 the deadline has passed. The deadline is taken not to overflow
  -- the 64-bit clock.
  pub poll_returns :
      (fuel : ℕ) (ps : List PollFd) (ms : ℕ) (s : State W)
      → b.rdtime s.net + ms * 10000 + 50000 < 2 ^ 64
      → (ms * 10000 + 49999) / 50000 < fuel
      → Ends (Polled ps s (b.rdtime s.net + ms * 10000)) (poll fuel ps (pos ms) s)
  unfolding poll poll_deadline
  poll_returns fuel ps ms s fits enough =
      let deadline = b.rdtime s.net + ms * 10000 in
      let e : deadline % 2 ^ 64 ≡ deadline = omega arith in
      rw e (
        loop-Ends (Waiting ps s) (Polled ps s deadline) (λ t. slices_left deadline t.1)
          (poll_turn (some deadline)) (λ t h. poll_turn-Advances ps t.0 deadline s t.1 fits h.0 h.1)
          fuel (ps, s) (omega arith) (Waited.called, λ t. refl))
