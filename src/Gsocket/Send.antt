-- ===== src/Gsocket/Send.antt =====
-- The send worker of userspace/gnat-rts/gnat_user/aegir_gsocket.c and `sendto`: one datagram, or a
-- stream in chunks of a ring slot. `none` means that the fuel for the rounds ran out.
pub mod Whole
use aegir.Prelude.{
  ℕ, ◌+◌, ◌-◌, ℤ, pos, minus_one, eq_ℤ, not, ◌||◌, ◌&&◌, Option, none, some, ◌⊎◌, inl, inr, List,
  length, take, drop, min, ltb, ◌==◌, if◌then◌else◌,
}
use aegir.Prelude.Loop.{Turn, done, again, loop}
use aegir.Gsocket.Consts.{
  af_inet, ipproto_tcp, st_ok, st_timeout, st_not_ready, st_bad_args, max_payload,
}
use aegir.Gsocket.Errno.{eio, ebadf, einval, eafnosupport, ewouldblock, emsgsize, edestaddrreq}
use aegir.Gsocket.Types.{
  SockaddrIn, State, Bridge, fail, ak_sw16, ak_addr_to_u32, ak_sticky_errno, ak_sleep_slice,
}
use aegir.Gsocket.Table.{get_sock}
use aegir.Gsocket.Calls.{ak_auto_bind}

module _ {W : Type 0} ⦃b : Bridge W⦄ where
  -- One attempt at a datagram.
  unfoldable pub datagram_turn : ℕ → List ℕ → ℕ → ℕ → State W → Turn ℤ (State W)
  datagram_turn i buf ip port s =
      let e = s.ak_fds i in
      let len = length buf in
      let (st, w) = b.sock_sendto e.handle buf ip port s.net in
      let s1 = record s { net = w } in
      if st == st_ok
      then done (pos len) s1
      else if st == st_not_ready || st == st_timeout
      then if e.nonblock
        then done minus_one (record s1 { errno = ewouldblock })
        else again (ak_sleep_slice s1)
      else done minus_one
          (record s1 { errno = if len == 0 || st == st_bad_args then einval else eio })

  -- One round of the stream loop, over the bytes sent so far.
  unfoldable pub stream_turn : ℕ → List ℕ → ℕ × State W → Turn ℤ (ℕ × State W)
  stream_turn i buf (sent, s) =
      let e = s.ak_fds i in
      let chunk = min (length buf - sent) max_payload in
      if not (ltb sent (length buf))
      then done (pos sent) (sent, s)
      else let p = b.sock_poll e.handle s.net in
        let s1 = record s { net = p.net } in
        if p.status == st_ok && not (p.error == 0)
        then done minus_one (sent, record s1 { errno = ak_sticky_errno p.error })
        else let (st, w) = b.sock_sendto e.handle (take chunk (drop sent buf)) 0 0 s1.net in
          let s2 = record s1 { net = w } in
          if st == st_ok
          then again (sent + chunk, s2)
          else if st == st_not_ready || st == st_timeout
          then if e.nonblock
            then done (if ltb 0 sent then pos sent else minus_one)
                (sent, record s2 { errno = ewouldblock })
            else again (sent, ak_sleep_slice s2)
          else done minus_one (sent, record s2 { errno = eio })

  unfoldable pub send_stream : ℕ → ℕ → List ℕ → State W → Option (ℤ × State W)
  send_stream fuel i buf s = elim (loop fuel (stream_turn i buf) (0, s)) [
    | none ↦ none
    | some (n, (sent, s1)) ↦ some (n, s1)
  ]

  unfoldable pub ak_send : ℕ → ℕ → List ℕ → ℕ → ℕ → State W → Option (ℤ × State W)
  unfolding send_stream
  ak_send fuel i buf ip port s =
      if (s.ak_fds i).proto == ipproto_tcp
      then send_stream fuel i buf s
      else if ltb max_payload (length buf)
      then some (fail emsgsize s)
      else loop fuel (datagram_turn i buf ip port) s

  -- The destination of `sendto`: the address given, or 0/0 for the connected peer; `none` with the
  -- errno to report.
  unfoldable pub destination : ℕ → Option SockaddrIn → State W → (ℕ × ℕ) ⊎ ℕ
  destination i none s = if (s.ak_fds i).connected then inl (0, 0) else inr edestaddrreq
  destination i (some sin) s =
      if sin.sin_family == af_inet
      then inl (ak_addr_to_u32 sin.sin_addr, ak_sw16 sin.sin_port)
      else inr eafnosupport

  -- `to` is `none` for a null pointer or an empty address.
  unfoldable pub sendto : ℕ → ℤ → List ℕ → Option SockaddrIn → State W → Option (ℤ × State W)
  unfolding destination
  sendto fuel fd msg to s = elim (get_sock s fd) [
    | none ↦ some (fail ebadf s)
    | some i ↦ elim (destination i to s) [
      | inr e ↦ some (fail e s)
      | inl (ip, port) ↦
          if (s.ak_fds i).connected
          then ak_send fuel i msg ip port s
          else let (r, s1) = ak_auto_bind i s in
            if eq_ℤ r (pos 0) then ak_send fuel i msg ip port s1 else some (minus_one, s1)
    ]
  ]
