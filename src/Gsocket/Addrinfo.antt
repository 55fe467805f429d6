-- ===== src/Gsocket/Addrinfo.antt =====
-- The getaddrinfo family of userspace/gnat-rts/gnat_user/aegir_gsocket.c. The heap is the number of
-- live blocks, `State.live`.
pub mod Heap
use aegir.Prelude.{
  ℕ, suc, ◌+◌, ◌-◌, ◌*◌, ◌/◌, ◌%◌, ◌^◌, ℤ, pos, negsuc, minus_one, eq_ℤ, Bool, true, false, not,
  ◌&&◌, ◌||◌, Option, none, some, List, [], ◌∷◌, ◌++◌, length, take, ltb, leb, min, ◌==◌,
  if◌then◌else◌, ◌⊎◌, inl, inr,
}
use aegir.Gsocket.Consts.{af_inet, sock_stream, sock_dgram, ipproto_tcp, ipproto_udp}
use aegir.Gsocket.Types.{SockaddrIn, State, Bridge, ak_sw16, ak_addr_to_u32, mk_sockaddr}
use aegir.Gsocket.Dotted.{is_digit, ak_parse_dotted, inet_ntop, print_u}
use aegir.Gsocket.Netdb.{by_name, ak_services, ak_dns_query}

-- getaddrinfo codes.
abbrev pub eai_noname : ℤ
eai_noname = negsuc 1

abbrev pub eai_family : ℤ
eai_family = negsuc 5

abbrev pub eai_socktype : ℤ
eai_socktype = negsuc 6

abbrev pub eai_service : ℤ
eai_service = negsuc 7

abbrev pub eai_memory : ℤ
eai_memory = negsuc 9

abbrev pub eai_system : ℤ
eai_system = negsuc 10

-- `struct ak_addrinfo` with the address that it points to. `ai_canonname` is always null, and the
-- list order stands for `ai_next`.
pub record Addrinfo : Type 0 where
  pub ai_flags : ℕ
  pub ai_family : ℕ
  pub ai_socktype : ℕ
  pub ai_protocol : ℕ
  pub ai_addr : SockaddrIn

-- The decimal digits at the front of a text read behind `v`, the number of them, and the rest.
unfoldable pub scan_digits : List ℕ → ℕ → ℕ → ℕ × ℕ × List ℕ
scan_digits [] v n = (v, n, [])
scan_digits (c ∷ s) v n =
    let rest = scan_digits s (v * 10 + (c - b'0')) (n + 1) in
    if is_digit c then rest else (v, n, c ∷ s)

-- `isspace`
abbrev pub is_space : ℕ → Bool
is_space c = c == 32 || leb 9 c && leb c 13

unfoldable pub skip_space : List ℕ → List ℕ
skip_space [] = []
skip_space (c ∷ s) = let rest = skip_space s in if is_space c then rest else c ∷ s

-- The magnitude of a `long` from the digits of `t`, at most `limit`; `none` where there is no digit.
unfoldable pub magnitude : ℕ → List ℕ → Option (ℕ × List ℕ)
unfolding scan_digits
magnitude limit t =
    let (v, n, rest) = scan_digits t 0 0 in if n == 0 then none else some (min v limit, rest)

abbrev pub negate : ℕ → ℤ
negate v = if v == 0 then pos 0 else negsuc (v - 1)

-- `s` is the whole text, to which `end` points where there is no digit.
unfoldable pub strtol_signed : List ℕ → List ℕ → ℤ × List ℕ
unfolding magnitude
strtol_signed s [] = (pos 0, s)
strtol_signed s (c ∷ t) =
    if c == b'-'
    then elim (magnitude (2 ^ 63) t) [ none ↦ (pos 0, s) | some (v, rest) ↦ (negate v, rest) ]
    else elim (magnitude (2 ^ 63 - 1) (if c == b'+' then t else c ∷ t)) [
      | none ↦ (pos 0, s)
      | some (v, rest) ↦ (pos v, rest)
    ]

-- `strtol (s, &end, 10)` on a 64-bit `long`: the value, saturated, and the text at `end`.
unfoldable pub strtol : List ℕ → ℤ × List ℕ
unfolding strtol_signed skip_space
strtol s = strtol_signed s (skip_space s)

-- `end != NULL && *end == '\0' && v >= 0 && v <= 65535`
unfoldable pub numeric_port : ℤ × List ℕ → Option ℕ
numeric_port (pos v, []) = if leb v 65535 then some v else none
numeric_port (pos v, c ∷ s) = none
numeric_port (negsuc v, s) = none

-- The port of a service: a number up to 65535 that is the whole text, or a name of the table.
unfoldable pub service_port : List ℕ → Option ℕ
unfolding strtol numeric_port
service_port service = elim (numeric_port (strtol service)) [
  | some p ↦ some p
  | none ↦ elim (by_name service ak_services) [ none ↦ none | some e ↦ some e.port ]
]

-- No service, or an empty one, is port 0.
unfoldable pub port_of : Option (List ℕ) → Option ℕ
port_of none = some 0
port_of (some []) = some 0
port_of (some (c ∷ s)) = service_port (c ∷ s)

-- The socket types to make entries for; 0 is any type.
abbrev pub wanted_types : ℕ → List (ℕ × ℕ)
wanted_types socktype =
    (if socktype == 0 || socktype == sock_stream then (sock_stream, ipproto_tcp) ∷ [] else [])
    ++ (if socktype == 0 || socktype == sock_dgram then (sock_dgram, ipproto_udp) ∷ [] else [])

module _ {W : Type 0} ⦃b : Bridge W⦄ where
  -- Our own address from Net:address, of which 63 bytes are read; 10.0.2.15 without it.
  unfoldable pub ak_own_address : State W → ℕ
  ak_own_address s = elim (b.read_address s.net) [
    | none ↦ 0x0A00020F
    | some text ↦
        let (ok, out) = ak_parse_dotted (take 63 text) in
        if ok then ak_addr_to_u32 out else 0x0A00020F
  ]

  -- The address of a node; the right side is the error to return. AI_PASSIVE is the bit 1 of the
  -- flags, AI_NUMERICHOST the bit 4.
  unfoldable pub node_address : Option (List ℕ) → ℕ → State W → (ℕ ⊎ ℤ) × State W
  node_address none flags s = (inl (if flags % 2 == 1 then 0 else ak_own_address s), s)
  node_address (some []) flags s = (inl (if flags % 2 == 1 then 0 else ak_own_address s), s)
  node_address (some (c ∷ t)) flags s =
      let (ok, out) = ak_parse_dotted (c ∷ t) in
      let (found, s1) = ak_dns_query (c ∷ t) s in
      if ok
      then (inl (ak_addr_to_u32 out), s)
      else if flags / 4 % 2 == 1
      then (inr eai_noname, s)
      else elim found [ none ↦ (inr eai_noname, s1) | some a ↦ (inl (ak_addr_to_u32 a), s1) ]

  -- A block more, if the heap grants it.
  unfoldable pub take_block : State W → Bool × State W
  take_block s =
      let (granted, w) = b.malloc s.net in
      (granted, record s { net = w; live = if granted then s.live + 1 else s.live })

  -- `free` of a block; of a null pointer it does nothing.
  abbrev pub free_if : Bool → State W → State W
  free_if granted s = record s { live = if granted then s.live - 1 else s.live }

  -- Two blocks: the info and the address. If one is refused the other is given back.
  unfoldable pub ak_mk_addrinfo : ℕ → ℕ → ℕ → ℕ → ℕ → State W → Option Addrinfo × State W
  unfolding take_block
  ak_mk_addrinfo ip port socktype protocol flags s =
      let (ai, s1) = take_block s in
      let (sa, s2) = take_block s1 in
      if ai && sa
      then (
        some (record {
          ai_flags = flags;
          ai_family = af_inet;
          ai_socktype = socktype;
          ai_protocol = protocol;
          ai_addr = mk_sockaddr port ip;
        }),
        s2,
      )
      else (none, free_if sa (free_if ai s2))

  -- `__gnat_freeaddrinfo`, and the clean-up of `__gnat_getaddrinfo`: both blocks of every entry.
  unfoldable pub freeaddrinfo : List Addrinfo → State W → State W
  freeaddrinfo [] s = s
  freeaddrinfo (ai ∷ rest) s = freeaddrinfo rest (free_if true (free_if true s))

  -- The entries for the wanted socket types are appended to `head` one after the other; where one
  -- cannot be made, all are freed.
  unfoldable pub add_infos :
      List (ℕ × ℕ) → ℕ → ℕ → ℕ → List Addrinfo → State W → ℤ × List Addrinfo × State W
  add_infos [] ip port flags head s = (pos 0, head, s)
  add_infos ((socktype, protocol) ∷ wanted) ip port flags head s =
      let (made, s1) = ak_mk_addrinfo ip port socktype protocol flags s in
      elim made [
        | none ↦ (eai_memory, [], freeaddrinfo head s1)
        | some ai ↦ add_infos wanted ip port flags (head ++ ai ∷ []) s1
      ]

  -- The end of the call, for the address and the port that were found.
  unfoldable pub infos_at : ℕ ⊎ ℤ → Option ℕ → ℕ → ℕ → State W → ℤ × List Addrinfo × State W
  unfolding add_infos
  infos_at (inr e) port socktype flags s = (e, [], s)
  infos_at (inl ip) none socktype flags s = (eai_service, [], s)
  infos_at (inl ip) (some port) socktype flags s =
      add_infos (wanted_types socktype) ip port flags [] s

  -- Without hints the family, the type and the flags are 0. The list is `*res`.
  unfoldable pub getaddrinfo :
      Option (List ℕ) → Option (List ℕ) → ℕ → ℕ → ℕ → State W → ℤ × List Addrinfo × State W
  getaddrinfo node service family socktype flags s =
      if not (family == 0 || family == af_inet)
      then (eai_family, [], s)
      else if not (socktype == 0 || socktype == sock_stream || socktype == sock_dgram)
      then (eai_socktype, [], s)
      else let (address, s1) = node_address node flags s in
        infos_at address (port_of service) socktype flags s1

-- The service text, if a buffer of some size is given; the number and its NUL must fit.
unfoldable pub serv_text : Option ℕ → ℕ → Option (List ℕ) ⊎ ℤ
serv_text none port = inl none
serv_text (some size) port =
    if leb size (length (print_u port)) then inr eai_system else inl (some (print_u port))

module _ {W : Type 0} where
  -- The host text, if a buffer of some size is given.
  unfoldable pub host_text : Option ℕ → List ℕ → State W → (Option (List ℕ) ⊎ ℤ) × State W
  host_text none addr s = (inl none, s)
  host_text (some size) addr s =
      let (text, s1) = inet_ntop (pos af_inet) addr size s in
      (elim text [ none ↦ inr eai_system | some t ↦ inl (some t) ], s1)

  -- `host` and `serv` are the sizes of the buffers that are given; beside the code, their texts.
  unfoldable pub getnameinfo :
      SockaddrIn → Option ℕ → Option ℕ → State W → ℤ × Option (List ℕ) × Option (List ℕ) × State W
  unfolding host_text serv_text
  getnameinfo sin host serv s =
      let (h, s1) = host_text host sin.sin_addr s in
      if not (sin.sin_family == af_inet) then (eai_family, none, none, s) else elim h [
        | inr e ↦ (e, none, none, s1)
        | inl name ↦ elim (serv_text serv (ak_sw16 sin.sin_port)) [
          | inr e ↦ (e, name, none, s1)
          | inl port ↦ (pos 0, name, port, s1)
        ]
      ]
