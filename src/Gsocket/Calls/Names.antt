-- ===== src/Gsocket/Calls/Names.antt =====
-- The names of a socket: what `bind` and `connect` store is what `getsockname` and `getpeername` give.
use aegir.Prelude.{
  ℕ, ◌%◌, ℤ, pos, none, some, true, ◌≡◌, ◌≢◌, refl, ◌∙◌, arith, Option-cases, inl, inr,
}
use aegir.Gsocket.Types.{SockaddrIn, State, Bridge, mk_sockaddr, ak_sw16, ak_addr_to_u32}
use aegir.Gsocket.Types.Order.{IsInet, mk_sockaddr_lem}
use aegir.Gsocket.Table.{get_sock}
use aegir.Gsocket.Table.Laws.{IsOpen, get_sock-IsOpen, IsOpen-get_sock}
use aegir.Gsocket.Calls.{bind, ak_auto_bind, connect, getsockname, getpeername}

module _ {W : Type 0} where
  getpeername_lem :
      (s : State W) (i : ℕ)
      → IsOpen s i
      → (s.ak_fds i).connected ≡ true
      → getpeername (pos i) s
        ≡ (pos 0, some (mk_sockaddr (s.ak_fds i).peer_port (s.ak_fds i).peer_ip), s)
  unfolding getpeername
  getpeername_lem s i o c = rw (IsOpen-get_sock s i o, c, getpeername)

  getsockname_lem :
      (s : State W) (i : ℕ)
      → IsOpen s i
      → getsockname (pos i) s
        ≡ (pos 0, some (mk_sockaddr (s.ak_fds i).local_port (s.ak_fds i).local_ip), s)
  unfolding getsockname
  getsockname_lem s i o = rw (IsOpen-get_sock s i o, getsockname)

module _ {W : Type 0} ⦃b : Bridge W⦄ where
  -- What an automatic bind leaves of a socket.
  ak_auto_bind-IsOpen : (i : ℕ) (s : State W) → IsOpen s i → IsOpen (ak_auto_bind i s).1 i
  unfolding ak_auto_bind
  ak_auto_bind-IsOpen i s o = ground arith

  record Connected (s : State W) (i : ℕ) (name : SockaddrIn) : Type 0 where
    open_socket : IsOpen s i
    connected : (s.ak_fds i).connected ≡ true
    port : (s.ak_fds i).peer_port ≡ ak_sw16 name.sin_port
    ip : (s.ak_fds i).peer_ip ≡ ak_addr_to_u32 name.sin_addr

  connect_at :
      (i : ℕ) (name : SockaddrIn) (s : State W)
      → IsOpen s i
      → (connect (pos i) name s).0 ≡ pos 0
      → Connected (connect (pos i) name s).1 i name
  unfolding connect
  connect_at i name s o e = ground (arith, IsOpen-get_sock s i o, ak_auto_bind-IsOpen i s o)

  connect_closed :
      (fd : ℤ) (name : SockaddrIn) (s : State W)
      → get_sock s fd ≡ none
      → (connect fd name s).0 ≢ pos 0
  unfolding connect
  connect_closed fd name s q e = ground arith

  getpeername_at :
      (i : ℕ) (name : SockaddrIn) (s : State W)
      → IsInet name
      → Connected s i name
      → getpeername (pos i) s ≡ (pos 0, some name, s)
  getpeername_at i name s v c =
      getpeername_lem s i c.open_socket c.connected ∙ rw (c.port, c.ip, mk_sockaddr_lem name v) refl

  -- After a `connect` that returned 0, `getpeername` gives exactly the endpoint that was named.
  pub getpeername-connect :
      (fd : ℤ) (name : SockaddrIn) (s : State W)
      → IsInet name
      → (connect fd name s).0 ≡ pos 0
      → let s' = (connect fd name s).1 in getpeername fd s' ≡ (pos 0, some name, s')
  getpeername-connect fd name s v e = elim (Option-cases (get_sock s fd)) [
    | inl q ↦ absurd (connect_closed fd name s q e)
    | inr (i, q) ↦
        let (p, o) = get_sock-IsOpen s fd i q in
        rw p (getpeername_at i name _ v (connect_at i name s o (rw p at e)))
  ]

  record Bound (s : State W) (i : ℕ) (name : SockaddrIn) (port : ℕ) : Type 0 where
    open_socket : IsOpen s i
    local_port : (s.ak_fds i).local_port ≡ port
    ip : (s.ak_fds i).local_ip ≡ ak_addr_to_u32 name.sin_addr

  -- The port that the bridge assigns to a request of `bind`.
  abbrev pub assigned_port : ℕ → SockaddrIn → State W → ℕ
  assigned_port i name s = (b.sock_bind (s.ak_fds i).handle (ak_sw16 name.sin_port) s.net).1 % 65536

  bind_at :
      (i : ℕ) (name : SockaddrIn) (s : State W)
      → IsOpen s i
      → (bind (pos i) name s).0 ≡ pos 0
      → Bound (bind (pos i) name s).1 i name (assigned_port i name s)
  unfolding bind
  bind_at i name s o e = ground (arith, IsOpen-get_sock s i o)

  getsockname_at :
      (i port : ℕ) (name : SockaddrIn) (s : State W)
      → IsInet name
      → Bound s i name port
      → getsockname (pos i) s ≡ (pos 0, some (record name { sin_port = ak_sw16 port }), s)
  unfolding mk_sockaddr
  getsockname_at i port name s v c =
      getsockname_lem s i c.open_socket
      ∙ rw (c.local_port, c.ip) (ground (arith, mk_sockaddr_lem name v))

  -- After a `bind` that returned 0, `getsockname` gives the address that was named, with the port that
  -- the bridge assigned.
  getsockname-bind :
      (i : ℕ) (name : SockaddrIn) (s : State W)
      → IsInet name
      → IsOpen s i
      → (bind (pos i) name s).0 ≡ pos 0
      → let s' = (bind (pos i) name s).1 in
        getsockname (pos i) s'
        ≡ (pos 0, some (record name { sin_port = ak_sw16 (assigned_port i name s) }), s')
  getsockname-bind i name s v o e =
      getsockname_at i (assigned_port i name s) name _ v (bind_at i name s o e)
