-- ===== src/Gsocket/Calls.antt =====
-- The calls of userspace/gnat-rts/gnat_user/aegir_gsocket.c that make, name and close a socket.
-- A call returns its `int` result and the new state; errno is a field of the state.
pub mod Names
pub mod Handles
use aegir.Prelude.{
  ℕ, ◌%◌, ℤ, pos, minus_one, eq_ℤ, true, false, not, Option, none, some, ◌==◌, if◌then◌else◌,
}
use aegir.Gsocket.Consts.{
  af_inet, sock_stream, sock_dgram, ipproto_icmp, ipproto_tcp, ipproto_udp, st_ok, st_bad_args,
}
use aegir.Gsocket.Errno.{
  eio, ebadf, einval, eopnotsupp, enobufs, eafnosupport, econnrefused, eaddrinuse, enetdown,
  etimedout, eaddrnotavail, enotconn,
}
use aegir.Gsocket.Types.{
  SockaddrIn, Sock, sock, State, Bridge, put, fail, ak_sw16, ak_addr_to_u32, mk_sockaddr,
  ak_ensure_net,
}
use aegir.Gsocket.Table.{ak_get, get_sock, ak_alloc}

-- The bridge protocol of a socket type; `none` is an unsupported type.
unfoldable pub socket_proto : ℤ → ℤ → Option ℕ
socket_proto type protocol =
    if eq_ℤ type (pos sock_stream)
    then some ipproto_tcp
    else if eq_ℤ type (pos sock_dgram)
    then some (if eq_ℤ protocol (pos ipproto_icmp) then ipproto_icmp else ipproto_udp)
    else none

module _ {W : Type 0} ⦃b : Bridge W⦄ where
  -- A descriptor for the handle that the bridge has handed out; with no entry left the handle is
  -- closed again. `fill` writes the fields of the fresh entry.
  unfoldable pub install : ℕ → (Sock → Sock) → State W → ℤ × State W
  install handle fill s =
      let (slot, s1) = ak_alloc s in
      elim slot [
        | none ↦ (minus_one, record s1 { net = b.sock_close handle s1.net })
        | some fd ↦ (pos fd, put fd (fill (s1.ak_fds fd)) s1)
      ]

  unfoldable pub socket : ℤ → ℤ → ℤ → State W → ℤ × State W
  unfolding socket_proto ak_ensure_net
  socket domain type protocol s =
      let (up, s0) = ak_ensure_net s in
      if not up
      then fail enetdown s0
      else if not (eq_ℤ domain (pos af_inet))
      then fail eafnosupport s0
      else elim (socket_proto type protocol) [
        | none ↦ fail eopnotsupp s0
        | some p ↦
            let (st, h, w) = b.sock_socket p s0.net in
            let s1 = record s0 { net = w } in
            if st == st_ok
            then install h (λ e. record e { kind = sock; proto = p; handle = h }) s1
            else fail enobufs s1
      ]

  unfoldable pub gnat_socket_close : ℤ → State W → ℤ × State W
  gnat_socket_close fd s = elim (get_sock s fd) [
    | none ↦ fail ebadf s
    | some i ↦
        let s1 = record s { net = b.sock_close (s.ak_fds i).handle s.net } in
        (pos 0, put i (record (s.ak_fds i) { used = false }) s1)
  ]

  unfoldable pub bind : ℤ → SockaddrIn → State W → ℤ × State W
  bind fd name s = elim (get_sock s fd) [
    | none ↦ fail ebadf s
    | some i ↦
        if not (name.sin_family == af_inet)
        then fail eafnosupport s
        else let e = s.ak_fds i in
          let (st, assigned, w) = b.sock_bind e.handle (ak_sw16 name.sin_port) s.net in
          let s1 = record s { net = w } in
          if not (st == st_ok)
          then fail (if st == st_bad_args then einval else eaddrinuse) s1
          else (
            pos 0,
            put i
                (record e {
                  local_port = assigned % 65536;
                  local_ip = ak_addr_to_u32 name.sin_addr;
                })
                s1,
          )
  ]

  -- An unbound socket is bound to an ephemeral port before its first connect or send.
  unfoldable pub ak_auto_bind : ℕ → State W → ℤ × State W
  ak_auto_bind i s =
      let e = s.ak_fds i in
      if not (e.local_port == 0)
      then (pos 0, s)
      else let (st, assigned, w) = b.sock_bind e.handle 0 s.net in
        let s1 = record s { net = w } in
        if not (st == st_ok)
        then fail eaddrnotavail s1
        else (pos 0, put i (record e { local_port = assigned % 65536 }) s1)

  unfoldable pub connect : ℤ → SockaddrIn → State W → ℤ × State W
  connect fd name s = elim (get_sock s fd) [
    | none ↦ fail ebadf s
    | some i ↦
        if not (name.sin_family == af_inet)
        then fail eafnosupport s
        else let (r, s1) = ak_auto_bind i s in
          if not (eq_ℤ r (pos 0))
          then (minus_one, s1)
          else let e = s1.ak_fds i in
            let ip = ak_addr_to_u32 name.sin_addr in
            let port = ak_sw16 name.sin_port in
            let (st, w) = b.sock_connect e.handle ip port s1.net in
            let s2 = record s1 { net = w } in
            if not (st == st_ok)
            then fail (if st == 4 then econnrefused else if st == 5 then etimedout else eio) s2
            else (pos 0, put i (record e { peer_ip = ip; peer_port = port; connected = true }) s2)
  ]

  unfoldable pub listen : ℤ → ℕ → State W → ℤ × State W
  listen fd backlog s = elim (get_sock s fd) [
    | none ↦ fail eopnotsupp s
    | some i ↦
        let e = s.ak_fds i in
        if not (e.proto == ipproto_tcp)
        then fail eopnotsupp s
        else let (st, w) = b.sock_listen e.handle backlog s.net in
          let s1 = record s { net = w } in
          if not (st == st_ok)
          then fail eio s1
          else (pos 0, put i (record e { listening = true }) s1)
  ]

module _ {W : Type 0} where
  -- The filled address goes out beside the result.
  unfoldable pub getsockname : ℤ → State W → ℤ × Option SockaddrIn × State W
  getsockname fd s = elim (get_sock s fd) [
    | none ↦ (minus_one, none, record s { errno = ebadf })
    | some i ↦ (pos 0, some (mk_sockaddr (s.ak_fds i).local_port (s.ak_fds i).local_ip), s)
  ]

  unfoldable pub getpeername : ℤ → State W → ℤ × Option SockaddrIn × State W
  getpeername fd s = elim (get_sock s fd) [
    | none ↦ (minus_one, none, record s { errno = ebadf })
    | some i ↦
        let e = s.ak_fds i in
        if not e.connected
        then (minus_one, none, record s { errno = enotconn })
        else (pos 0, some (mk_sockaddr e.peer_port e.peer_ip), s)
  ]

  -- There is no half-close: `how` has no effect.
  unfoldable pub shutdown : ℤ → ℤ → State W → ℤ × State W
  shutdown fd how s = (elim (ak_get s fd) [ none ↦ minus_one | some i ↦ pos 0 ], s)
