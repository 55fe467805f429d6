-- ===== src/Gsocket/Stream.antt =====
-- The blocking calls of userspace/gnat-rts/gnat_user/aegir_gsocket.c: accept and receive. A
-- wait is one round of a loop that sleeps a slice; `none` means that the fuel for the rounds ran
-- out. Lengths are those of the caller's buffers, so an `int` holds them.
pub mod Accepting
use aegir.Prelude.{
  ℕ, ◌/◌, ◌%◌, ℤ, pos, minus_one, eq_ℤ, is_neg, true, not, ◌||◌, ◌&&◌, Option, none, some, List, [],
  length, ltb, ◌==◌, if◌then◌else◌,
}
use aegir.Prelude.Loop.{Turn, done, again, loop}
use aegir.Gsocket.Consts.{ipproto_tcp, st_ok, st_timeout, st_not_ready, st_bad_args}
use aegir.Gsocket.Errno.{eio, ebadf, einval, eopnotsupp, ewouldblock}
use aegir.Gsocket.Types.{
  SockaddrIn, Sock, sock, State, RecvReply, Bridge, mk_sockaddr, ak_sticky_errno, ak_sleep_slice,
}
use aegir.Gsocket.Table.{get_sock}
use aegir.Gsocket.Calls.{install}

-- What a receive hands out: the result, the bytes in the buffer, and their sender.
pub record Received : Type 0 where
  pub n : ℤ
  pub buf : List ℕ
  pub src_ip : ℕ
  pub src_port : ℕ

-- The entry of an accepted connection, from that of the listener.
abbrev pub accepted : Sock → ℕ → ℕ → ℕ → Sock → Sock
accepted l handle ip port e = record e {
  kind = sock;
  proto = ipproto_tcp;
  handle = handle;
  connected = true;
  peer_ip = ip;
  peer_port = port % 65536;
  local_ip = l.local_ip;
  local_port = l.local_port;
}

module _ {W : Type 0} ⦃b : Bridge W⦄ where
  -- One round of the wait in `accept` on entry `i`: the handle and peer of a connection, or `none`
  -- with errno set.
  unfoldable pub accept_turn : ℕ → State W → Turn (Option (ℕ × ℕ × ℕ)) (State W)
  accept_turn i s =
      let e = s.ak_fds i in
      let r = b.sock_accept e.handle s.net in
      let s1 = record s { net = r.net } in
      if r.status == st_ok
      then done (some (r.new_handle, r.peer_ip, r.peer_port)) s1
      else if not (r.status == st_not_ready)
      then done none (record s1 { errno = eio })
      else if e.nonblock
      then done none (record s1 { errno = ewouldblock })
      else again (ak_sleep_slice s1)

  unfoldable pub accept : ℕ → ℤ → State W → Option ((ℤ × Option SockaddrIn) × State W)
  accept fuel fd s = elim (get_sock s fd) [
    | none ↦ some ((minus_one, none), record s { errno = einval })
    | some i ↦
        if not (s.ak_fds i).listening
        then some ((minus_one, none), record s { errno = einval })
        else elim (loop fuel (accept_turn i) s) [
          | none ↦ none
          | some (none, s1) ↦ some ((minus_one, none), s1)
          | some (some (nh, ip, port), s1) ↦
              let (nfd, s2) = install nh (accepted (s1.ak_fds i) nh ip port) s1 in
              let out = if is_neg nfd then none else some (mk_sockaddr (port % 65536) ip) in
              some ((nfd, out), s2)
        ]
  ]

  abbrev pub handed : ℤ → RecvReply W → Received
  handed n r = record { n = n; buf = r.bytes; src_ip = r.src_ip; src_port = r.src_port }

  -- One round of the wait in `ak_recv`. TCP's empty read is the end of the stream, which the sticky
  -- error word tells apart from a reset.
  unfoldable pub recv_turn : ℕ → ℕ → State W → Turn Received (State W)
  recv_turn i len s =
      let e = s.ak_fds i in
      let r = b.sock_recvfrom e.handle len 0 s.net in
      let s1 = record s { net = r.net } in
      let out = λ (n : ℤ). handed n r in
      if r.status == st_ok
      then if ltb 0 (length r.bytes)
        then done (out (pos (length r.bytes))) s1
        else if e.proto == ipproto_tcp
        then (let p = b.sock_poll e.handle s1.net in
            let s2 = record s1 { net = p.net } in
            if p.status == st_ok && not (p.error == 0)
            then done (out minus_one) (record s2 { errno = ak_sticky_errno p.error })
            else done (out (pos 0)) s2)
        else again s1
      else if r.status == st_timeout || r.status == st_not_ready
      then if e.nonblock
        then done (out minus_one) (record s1 { errno = ewouldblock })
        else again (ak_sleep_slice s1)
      else done (out minus_one)
          (record s1 { errno = if r.status == st_bad_args then ebadf else eio })

  -- Nothing was received: the buffer and the sender are as they were.
  abbrev pub no_data : ℕ → State W → Received × State W
  no_data e s =
      (record { n = minus_one; buf = []; src_ip = 0; src_port = 0 }, record s { errno = e })

  -- MSG_PEEK is the bit of value 2.
  unfoldable pub ak_recv : ℕ → ℕ → ℕ → ℕ → State W → Option (Received × State W)
  unfolding recv_turn
  ak_recv fuel i len flags s =
      if flags / 2 % 2 == 1 then some (no_data eopnotsupp s) else loop fuel (recv_turn i len) s

  unfoldable pub recv : ℕ → ℤ → ℕ → ℕ → State W → Option (Received × State W)
  recv fuel fd len flags s = elim (get_sock s fd) [
    | none ↦ some (no_data ebadf s)
    | some i ↦ ak_recv fuel i len flags s
  ]

  -- The sender's address is filled only if a byte came.
  unfoldable pub recvfrom :
      ℕ → ℤ → ℕ → ℕ → State W → Option ((ℤ × List ℕ × Option SockaddrIn) × State W)
  unfolding recv
  recvfrom fuel fd len flags s = elim (recv fuel fd len flags s) [
    | none ↦ none
    | some (r, s1) ↦
        let from =
          if is_neg r.n || eq_ℤ r.n (pos 0)
          then none
          else some (mk_sockaddr (r.src_port % 65536) r.src_ip) in
        some ((r.n, r.buf, from), s1)
  ]
