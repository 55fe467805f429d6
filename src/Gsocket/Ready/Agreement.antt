-- ===== src/Gsocket/Ready/Agreement.antt =====
-- `poll` and `select` agree on what is ready.
use aegir.Prelude.{ℕ, ◌/◌, ◌%◌, ◌<◌, ◌&&◌, none, ◌≡◌, ◌⊎◌, ◌==◌}
use aegir.Gsocket.Types.{State, Bridge}
use aegir.Gsocket.Table.{ak_get}
use aegir.Gsocket.Ready.{FdSets, PollFd, requested, poll_fd, select_fd}

module _ {W : Type 0} ⦃b : Bridge W⦄ where
  -- What `poll` reports of an entry for the descriptor `fd`, against what a `select` leaves in its
  -- three sets `f`, from the same state.
  abbrev pub Events : ℕ → ℕ → PollFd → FdSets → State W → Type 0
  Events fd n p f s =
      let (q, t) = poll_fd p s in
      let (m, g, u) = select_fd fd (n, f, s) in
      (t ≡ u)
      × (q.fd ≡ p.fd)
      × (q.events ≡ p.events)
      × (((ak_get t p.fd ≡ none) × (q.revents ≡ 32))
          ⊎ (((q.revents % 2 == 1) ≡ ((p.events % 2 == 1) && requested g.readfds fd))
              × ((q.revents / 4 % 2 == 1) ≡ ((p.events / 4 % 2 == 1) && requested g.writefds fd))
              × ((q.revents / 8 % 2 == 1) ≡ requested g.exceptfds fd)
              × (q.revents < 16)))
