-- ===== src/Gsocket/Types/Order.antt =====
-- Byte order: addresses and ports survive the way between host and network order.
use aegir.Prelude.{ℕ, ◌<◌, [], ◌∷◌, ◌≡◌, arith}
use aegir.Gsocket.Types.{SockaddrIn, ak_sw16, ak_addr_to_u32, ak_u32_to_addr, mk_sockaddr}

pub ak_sw16-ak_sw16 : (v : ℕ) → v < 65536 → ak_sw16 (ak_sw16 v) ≡ v
unfolding ak_sw16
ak_sw16-ak_sw16 v h = omega arith

pub ak_sw16-lt : (v : ℕ) → v < 65536 → ak_sw16 v < 65536
unfolding ak_sw16
ak_sw16-lt v h = omega arith

-- What a caller passes for an IPv4 endpoint.
pub record IsInet (name : SockaddrIn) : Type 0 where
  pub family : name.sin_family ≡ 2
  pub port : name.sin_port < 65536
  pub b0 : ℕ
  pub b1 : ℕ
  pub b2 : ℕ
  pub b3 : ℕ
  pub addr : name.sin_addr ≡ b0 ∷ b1 ∷ b2 ∷ b3 ∷ []
  pub bytes : (b0 < 256) × (b1 < 256) × (b2 < 256) × (b3 < 256)

u32_to_addr_bytes :
    (a b c d : ℕ)
    → a < 256
    → b < 256
    → c < 256
    → d < 256
    → ak_u32_to_addr (ak_addr_to_u32 (a ∷ b ∷ c ∷ d ∷ [])) ≡ a ∷ b ∷ c ∷ d ∷ []
unfolding ak_u32_to_addr ak_addr_to_u32
u32_to_addr_bytes a b c d ha hb hc hd = ground arith

-- The endpoint that is filled in for the port and the address read from an endpoint is that endpoint.
pub mk_sockaddr_lem :
    (name : SockaddrIn)
    → IsInet name
    → mk_sockaddr (ak_sw16 name.sin_port) (ak_addr_to_u32 name.sin_addr) ≡ name
unfolding mk_sockaddr
mk_sockaddr_lem name v =
    let (h0, h1, h2, h3) = v.bytes in
    let back : ak_u32_to_addr (ak_addr_to_u32 name.sin_addr) ≡ name.sin_addr =
      rw v.addr (u32_to_addr_bytes v.b0 v.b1 v.b2 v.b3 h0 h1 h2 h3) in
    ground (arith, ak_sw16-ak_sw16 name.sin_port v.port, back, v.family)
