-- ===== src/Gsocket/Ready.antt =====
-- Readiness in userspace/gnat-rts/gnat_user/aegir_gsocket.c: `ak_ready`, `select` and `poll`. `none`
-- means that the fuel for the rounds of a wait ran out.
pub mod Scan
pub mod Clock
pub mod Select
pub mod Report
pub mod Waits
pub mod Poll
pub mod Agreement
use aegir.Prelude.{
  ℕ, zero, suc, ◌+◌, ◌*◌, ◌/◌, ◌%◌, ◌^◌, ℤ, pos, negsuc, Bool, true, false, not, ◌&&◌, ◌||◌, Option,
  none, some, List, [], ◌∷◌, min, ltb, leb, ◌==◌, if◌then◌else◌,
}
use aegir.Prelude.Loop.{Turn, done, again, loop}
use aegir.Gsocket.Consts.{st_ok, fd_max, tick_hz, pollin, pollout, pollerr, pollnval}
use aegir.Gsocket.Types.{Kind, unset, sock, sigr, sigw, State, Bridge, ak_sleep_slice}
use aegir.Gsocket.Table.{ak_get}
use aegir.Gsocket.FdSet.{FdSet, ak_isset, ak_clrbit}

-- The bits 1, 2 and 4 of a mask.
abbrev pub bit_1 : ℕ → Bool
bit_1 m = m % 2 == 1

abbrev pub bit_2 : ℕ → Bool
bit_2 m = m / 2 % 2 == 1

abbrev pub bit_4 : ℕ → Bool
bit_4 m = m / 4 % 2 == 1

-- A null set is `none`.
pub record FdSets : Type 0 where
  pub readfds : Option FdSet
  pub writefds : Option FdSet
  pub exceptfds : Option FdSet

unfoldable pub requested : Option FdSet → ℕ → Bool
requested none fd = false
requested (some s) fd = ak_isset s fd

-- A requested descriptor stays in its set and counts if it is ready; otherwise its bit is cleared.
unfoldable pub settle : Bool → Option FdSet → ℕ → Option FdSet × ℕ
settle ready none fd = (none, 0)
settle ready (some s) fd =
    if ak_isset s fd then if ready then (some s, 1) else (some (ak_clrbit s fd), 0) else (some s, 0)

pub record PollFd : Type 0 where
  pub fd : ℤ
  pub events : ℕ
  pub revents : ℕ

abbrev pub nfds_of : ℤ → ℕ
nfds_of (pos n) = min n fd_max
nfds_of (negsuc n) = 0

-- The events to report for a descriptor in use with the mask `m`.
abbrev pub revents_of : ℕ → ℕ → ℕ
revents_of events m =
    (if bit_1 events && bit_1 m then pollin else 0)
    + (if bit_4 events && bit_2 m then pollout else 0)
    + (if bit_4 m then pollerr else 0)

module _ {W : Type 0} ⦃b : Bridge W⦄ where
  -- The state of an entry in use: 1 readable, 2 writable, 4 exceptional.
  unfoldable pub ready_of : ℕ → Kind → State W → ℕ × State W
  ready_of i sigr s = (if ltb 0 (s.ak_fds i).sig_count then 1 else 0, s)
  ready_of i sigw s = (2, s)
  ready_of i unset s = (0, s)
  ready_of i sock s =
      let e = s.ak_fds i in
      let p = b.sock_poll e.handle s.net in
      let s1 = record s { net = p.net } in
      if not (p.status == st_ok) then (4, s1) else if not (p.error == 0) then (7, s1) else (
        (if ltb 0 p.rx_level then 1 else 0) + (if ltb 0 p.tx_free && not e.listening then 2 else 0),
        s1,
      )

  unfoldable pub ak_ready : ℤ → State W → ℕ × State W
  ak_ready fd s = elim (ak_get s fd) [ none ↦ (0, s) | some i ↦ ready_of i (s.ak_fds i).kind s ]

  -- One descriptor of a round of `select`: the count so far, the sets and the state.
  unfoldable pub select_fd : ℕ → ℕ × FdSets × State W → ℕ × FdSets × State W
  unfolding requested settle
  select_fd fd (nready, f, s) =
      let wanted = requested f.readfds fd || requested f.writefds fd || requested f.exceptfds fd in
      let (m, s1) = if wanted then ak_ready (pos fd) s else (0, s) in
      let (r, nr) = settle (bit_1 m) f.readfds fd in
      let (w, nw) = settle (bit_2 m) f.writefds fd in
      let (x, nx) = settle (bit_4 m) f.exceptfds fd in
      (nready + nr + nw + nx, record { readfds = r; writefds = w; exceptfds = x }, s1)

  -- `for (fd = 0; fd < nfds; fd++)`, by the rounds that are left.
  unfoldable pub select_scan : ℕ → ℕ → ℕ × FdSets × State W → ℕ × FdSets × State W
  select_scan zero fd acc = acc
  select_scan (suc rounds) fd acc = select_scan rounds (fd + 1) (select_fd fd acc)

  -- A wait with no deadline is `none`.
  abbrev pub timed_out : Option ℕ → State W → Bool
  timed_out none s = false
  timed_out (some deadline) s = leb deadline (b.rdtime s.net)

  unfoldable pub select_turn : ℕ → Option ℕ → FdSets × State W → Turn ℕ (FdSets × State W)
  select_turn nfds deadline (f, s) =
      let (nready, f1, s1) = select_scan nfds 0 (0, f, s) in
      if ltb 0 nready
      then done nready (f1, s1)
      else if timed_out deadline s1
      then done 0 (f1, s1)
      else again (f1, ak_sleep_slice s1)

  -- The timeout is `(tv_sec, tv_usec)`.
  unfoldable pub deadline_of : Option (ℕ × ℕ) → State W → Option ℕ
  deadline_of none s = none
  deadline_of (some (sec, usec)) s =
      some ((b.rdtime s.net + sec * tick_hz + usec * (tick_hz / 1000000)) % 2 ^ 64)

  unfoldable pub select :
      ℕ → ℤ → FdSets → Option (ℕ × ℕ) → State W → Option (ℕ × (FdSets × State W))
  unfolding deadline_of
  select fuel nfds f timeout s =
      loop fuel (select_turn (nfds_of nfds) (deadline_of timeout s)) (f, s)

  unfoldable pub poll_fd : PollFd → State W → PollFd × State W
  poll_fd p s =
      let (m, s1) = ak_ready p.fd s in
      let revents : ℕ = elim (ak_get s1 p.fd) [
        | none ↦ pollnval
        | some i ↦ revents_of p.events m
      ] in
      (record p { revents = revents }, s1)

  -- One round over the array, with the count of entries that report something.
  unfoldable pub poll_scan : List PollFd → State W → ℕ × List PollFd × State W
  unfolding poll_fd
  poll_scan [] s = (0, [], s)
  poll_scan (p ∷ ps) s =
      let (p1, s1) = poll_fd p s in
      let (n, ps1, s2) = poll_scan ps s1 in ((if p1.revents == 0 then 0 else 1) + n, p1 ∷ ps1, s2)

  unfoldable pub poll_turn : Option ℕ → List PollFd × State W → Turn ℕ (List PollFd × State W)
  poll_turn deadline (ps, s) =
      let (n, ps1, s1) = poll_scan ps s in
      if ltb 0 n
      then done n (ps1, s1)
      else if timed_out deadline s1
      then done 0 (ps1, s1)
      else again (ps1, ak_sleep_slice s1)

  -- A negative timeout waits for ever.
  unfoldable pub poll_deadline : ℤ → State W → Option ℕ
  poll_deadline (pos ms) s = some ((b.rdtime s.net + ms * (tick_hz / 1000)) % 2 ^ 64)
  poll_deadline (negsuc _) s = none

  unfoldable pub poll : ℕ → List PollFd → ℤ → State W → Option (ℕ × (List PollFd × State W))
  unfolding poll_deadline
  poll fuel ps timeout_ms s = loop fuel (poll_turn (poll_deadline timeout_ms s)) (ps, s)
