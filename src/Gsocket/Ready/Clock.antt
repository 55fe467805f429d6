-- ===== src/Gsocket/Ready/Clock.antt =====
-- What the waits of userspace/gnat-rts/gnat_user/aegir_gsocket.c rely on of the clock behind the
-- bridge, and how time passes in a round.
use aegir.Prelude.{ℕ, zero, suc, ◌+◌, ◌≤◌, ℤ, Option-cases, List, [], ◌∷◌, arith, inl, inr}
use native.Mathlib.Nat.{le_trans}
use aegir.Gsocket.Ready.Scan.{look, select_fd-state}
use aegir.Gsocket.Types.{State, Bridge, Kind, unset, sock, sigr, sigw}
use aegir.Gsocket.Table.{ak_get}
use aegir.Gsocket.Ready.{
  FdSets, PollFd, ready_of, ak_ready, select_fd, select_scan, poll_fd, poll_scan,
}

-- Sleeping lasts until its deadline, and asking for a socket's state does not turn the clock back.
pub record IsClock (W : Type 0) ⦃b : Bridge W⦄ : Type 0 where
  pub sleeps : (d : ℕ) (w : W) → d ≤ b.rdtime (b.sleep_until d w)
  pub runs : (h : ℕ) (w : W) → b.rdtime w ≤ b.rdtime (b.sock_poll h w).net

module _ {W : Type 0} ⦃b : Bridge W⦄ (c : IsClock W) where
  ready_of_later :
      (k : Kind) (i : ℕ) (s : State W) → b.rdtime s.net ≤ b.rdtime (ready_of i k s).1.net
  unfolding ready_of
  ready_of_later unset i s = omega arith
  ready_of_later sigr i s = omega arith
  ready_of_later sigw i s = omega arith
  ready_of_later sock i s = ground (arith, c.runs (s.ak_fds i).handle s.net)

  ak_ready_later : (fd : ℤ) (s : State W) → b.rdtime s.net ≤ b.rdtime (ak_ready fd s).1.net
  unfolding ak_ready
  ak_ready_later fd s = elim (Option-cases (ak_get s fd)) [
    | inl q ↦ rw (q, ak_ready) (omega arith)
    | inr (i, q) ↦ rw (q, ak_ready) (ready_of_later (s.ak_fds i).kind i s)
  ]

  look_later : (fd : ℕ) (f : FdSets) (s : State W) → b.rdtime s.net ≤ b.rdtime (look fd f s).1.net
  unfolding look
  look_later fd f s = ground (arith, ak_ready_later (ℤ.pos fd) s)

  pub select_scan_later :
      (rounds fd n : ℕ) (f : FdSets) (s : State W)
      → b.rdtime s.net ≤ b.rdtime (select_scan rounds fd (n, f, s)).2.net
  unfolding select_scan
  select_scan_later zero fd n f s = omega arith
  select_scan_later (suc rounds) fd n f s =
      let p = select_fd fd (n, f, s) in
      le_trans (rw select_fd-state (look_later fd f s))
        (select_scan_later rounds (fd + 1) p.0 p.1 p.2)

  poll_fd_later : (p : PollFd) (s : State W) → b.rdtime s.net ≤ b.rdtime (poll_fd p s).1.net
  unfolding poll_fd
  poll_fd_later p s = ak_ready_later p.fd s

  pub poll_scan_later :
      (ps : List PollFd) (s : State W) → b.rdtime s.net ≤ b.rdtime (poll_scan ps s).2.net
  unfolding poll_scan
  poll_scan_later [] s = omega arith
  poll_scan_later (p ∷ ps) s = le_trans (poll_fd_later p s) (poll_scan_later ps (poll_fd p s).1)
