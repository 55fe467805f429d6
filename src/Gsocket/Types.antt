-- ===== src/Gsocket/Types.antt =====
-- The structs and the file-scope state of userspace/gnat-rts/gnat_user/aegir_gsocket.c, its address
-- and byte-order helpers, and the interface of the bridge functions `aknet_sock_*` (exported by
-- userspace/rts/aegir/aegir_user-sockets.adb) and of the clock that it calls.
pub mod Order
use aegir.Prelude.{
  ℕ, ◌+◌, ◌*◌, ◌/◌, ◌%◌, ◌^◌, ℤ, minus_one, Bool, true, false, Option, List, [], ◌∷◌, get_or, ◌==◌,
  if◌then◌else◌,
}
use aegir.Gsocket.Consts.{af_inet, err_hairpin, err_arp, err_refused, err_cxtime, err_reset, slice}
use aegir.Gsocket.Errno.{enoerror, eio, econnrefused, ehostunreach, etimedout, econnreset}

-- `sin_port` is in network order; `sin_addr` holds the four address bytes in network order.
-- `sin_zero` is always zero and is left out.
pub record SockaddrIn : Type 0 where
  pub sin_family : ℕ
  pub sin_port : ℕ
  pub sin_addr : List ℕ

-- AK_KIND_*; `unset` is the 0 of a fresh entry.
pub data Kind : Type 0 where
  unset sock sigr sigw : Kind

abbrev pub is_sock : Kind → Bool
is_sock sock = true
is_sock _ = false

pub record Opt : Type 0 where
  pub level : ℤ
  pub name : ℤ
  pub val : ℤ

-- `struct ak_sock`. `opts` holds the first `nopts` entries of the source's array.
pub record Sock : Type 0 where
  pub used : Bool
  pub kind : Kind
  pub proto : ℕ
  pub nonblock : Bool
  pub listening : Bool
  pub connected : Bool
  pub handle : ℕ
  pub local_ip : ℕ
  pub local_port : ℕ
  pub peer_ip : ℕ
  pub peer_port : ℕ
  pub last_so_err : ℕ
  pub partner : ℤ
  pub sig_count : ℕ
  pub opts : List Opt

-- An entry of all zero bytes.
abbrev pub zero_sock : Sock
zero_sock = record {
  used = false;
  kind = unset;
  proto = 0;
  nonblock = false;
  listening = false;
  connected = false;
  handle = 0;
  local_ip = 0;
  local_port = 0;
  peer_ip = 0;
  peer_port = 0;
  last_so_err = 0;
  partner = ℤ.pos 0;
  sig_count = 0;
  opts = [];
}

-- `struct ak_hostent`: names are without their final NUL.
pub record Hostent : Type 0 where
  pub h_name : List ℕ
  pub h_aliases : List (List ℕ)
  pub h_addrtype : ℕ
  pub h_length : ℕ
  pub h_addr_list : List (List ℕ)

-- `struct ak_servent`; `s_port` is in network order.
pub record Servent : Type 0 where
  pub s_name : List ℕ
  pub s_aliases : List (List ℕ)
  pub s_port : ℕ
  pub s_proto : List ℕ

-- `ak_fds`, `errno`, `ak_h_errno`, the static results `ak_he` and `ak_se` of the netdb calls, to
-- which every result that a caller holds points, the number of heap blocks in use, and all that lies behind the bridge. Entries of `ak_fds` outside
-- 3..255 are never read.
pub record State (W : Type 0) : Type 0 where
  pub ak_fds : ℕ → Sock
  pub errno : ℕ
  pub ak_h_errno : ℕ
  pub ak_he : Hostent
  pub ak_se : Servent
  pub live : ℕ
  pub net : W

pub record AcceptReply (W : Type 0) : Type 0 where
  pub status : ℕ
  pub new_handle : ℕ
  pub peer_ip : ℕ
  pub peer_port : ℕ
  pub net : W

-- `bytes` is what was stored in the buffer; its length is `count`.
pub record RecvReply (W : Type 0) : Type 0 where
  pub status : ℕ
  pub bytes : List ℕ
  pub src_ip : ℕ
  pub src_port : ℕ
  pub net : W

-- What an out-pointer holds after a call is a part of its reply.
pub record PollReply (W : Type 0) : Type 0 where
  pub status : ℕ
  pub rx_level : ℕ
  pub tx_free : ℕ
  pub error : ℕ
  pub net : W

-- The functions of the bridge, and those of the C library that depend on the world (`malloc`, whether
-- a block was granted; the contents of Net:address, if it can be opened), over the state `W` of what lies behind it: socket handles, netserv,
-- the clock. A status comes first in a reply, then the values of the out-pointers.
pub record Bridge (W : Type 0) : Type 0 where
  pub sock_endpoint : W → ℕ
  pub sock_attach : ℕ → W → W
  pub sock_socket : ℕ → W → ℕ × ℕ × W
  pub sock_bind : ℕ → ℕ → W → ℕ × ℕ × W
  pub sock_connect : ℕ → ℕ → ℕ → W → ℕ × W
  pub sock_listen : ℕ → ℕ → W → ℕ × W
  pub sock_accept : ℕ → W → AcceptReply W
  pub sock_sendto : ℕ → List ℕ → ℕ → ℕ → W → ℕ × W
  pub sock_recvfrom : ℕ → ℕ → ℕ → W → RecvReply W
  pub sock_poll : ℕ → W → PollReply W
  pub sock_close : ℕ → W → W
  pub sock_resolve : List ℕ → W → ℕ × ℕ × W
  pub sleep_until : ℕ → W → W
  pub malloc : W → Bool × W
  pub read_address : W → Option (List ℕ)
  pub rdtime : W → ℕ

abbrev pub update : (ℕ → Sock) → ℕ → Sock → ℕ → Sock
update f i v j = if j == i then v else f j

module _ {W : Type 0} where
  -- A write through the pointer to entry `i`.
  abbrev pub put : ℕ → Sock → State W → State W
  put i v s = record s { ak_fds = update s.ak_fds i v }

  -- `errno = e; return -1;`
  abbrev pub fail : ℕ → State W → ℤ × State W
  fail e s = (minus_one, record s { errno = e })

unfoldable pub ak_sw16 : ℕ → ℕ
ak_sw16 v = v / 256 + v * 256 % 65536

unfoldable pub ak_addr_to_u32 : List ℕ → ℕ
ak_addr_to_u32 b =
    get_or b 0 0 * 2 ^ 24 + get_or b 1 0 * 2 ^ 16 + get_or b 2 0 * 2 ^ 8 + get_or b 3 0

unfoldable pub ak_u32_to_addr : ℕ → List ℕ
ak_u32_to_addr ip = (ip / 2 ^ 24 % 256) ∷ (ip / 2 ^ 16 % 256) ∷ (ip / 2 ^ 8 % 256) ∷ (ip % 256) ∷ []

-- The `sockaddr_in` that the calls fill for a port and an address in host order.
unfoldable pub mk_sockaddr : ℕ → ℕ → SockaddrIn
mk_sockaddr port ip = record {
  sin_family = af_inet;
  sin_port = ak_sw16 port;
  sin_addr = ak_u32_to_addr ip;
}

-- A bridge sticky error word as an errno.
unfoldable pub ak_sticky_errno : ℕ → ℕ
ak_sticky_errno err =
    if err == 0
    then enoerror
    else if err == err_hairpin
    then econnrefused
    else if err == err_arp
    then ehostunreach
    else if err == err_refused
    then econnrefused
    else if err == err_cxtime
    then etimedout
    else if err == err_reset
    then econnreset
    else eio

module _ {W : Type 0} ⦃b : Bridge W⦄ where
  unfoldable pub ak_sleep_slice : State W → State W
  ak_sleep_slice s = record s { net = b.sleep_until ((b.rdtime s.net + slice) % 2 ^ 64) s.net }

  -- Lazy binding to the netserv endpoint: handle 6, unless the program attached its own.
  unfoldable pub ak_ensure_net : State W → Bool × State W
  ak_ensure_net s =
      let w = if b.sock_endpoint s.net == 0 then b.sock_attach 6 s.net else s.net in
      (if b.sock_endpoint w == 0 then false else true, record s { net = w })
