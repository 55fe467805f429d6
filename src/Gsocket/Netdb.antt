-- ===== src/Gsocket/Netdb.antt =====
-- Host and service lookups of userspace/gnat-rts/gnat_user/aegir_gsocket.c. A C string is the list
-- of its bytes before the NUL. Every `hostent` and `servent` that a call hands out points into the
-- static `ak_he` and `ak_se`, so a call returns its status and leaves the result there.
pub mod Services
use Prim.Native.Char.{code}
use Prim.Native.String.{String}
use aegir.Prelude.{
  ℕ, ◌%◌, ◌-◌, ℤ, pos, negsuc, minus_one, eq_ℤ, Bool, true, false, not, ◌&&◌, ◌||◌, Option, none,
  some, List, [], ◌∷◌, take, get_elem?, ◌==◌, if◌then◌else◌,
}
use aegir.Gsocket.Consts.{af_inet, st_ok, st_not_ready, host_not_found, try_again, no_data}
use aegir.Gsocket.Types.{Hostent, Servent, State, Bridge, ak_sw16, ak_u32_to_addr, ak_ensure_net}
use aegir.Gsocket.Dotted.{ak_parse_dotted, inet_ntop}

-- The bytes of an ASCII text.
abbrev pub codes : String → List ℕ
codes String.[] = []
codes (String.◌∷◌ c s) = code c ∷ codes s

-- `strcmp (a, b) == 0`
unfoldable pub same_text : List ℕ → List ℕ → Bool
same_text [] [] = true
same_text [] (c ∷ t) = false
same_text (c ∷ s) [] = false
same_text (c ∷ s) (d ∷ t) = c == d && same_text s t

pub record Svent : Type 0 where
  pub name : List ℕ
  pub port : ℕ

abbrev pub svent : String → ℕ → Svent
svent name port = record { name = codes name; port = port }

abbrev pub ak_services : List Svent
ak_services =
    svent "echo" 7
    ∷ svent "discard" 9
    ∷ svent "daytime" 13
    ∷ svent "ftp" 21
    ∷ svent "ssh" 22
    ∷ svent "telnet" 23
    ∷ svent "domain" 53
    ∷ svent "http" 80
    ∷ svent "ntp" 123
    ∷ []

-- `(unsigned short) port`
abbrev pub low16 : ℤ → ℕ
low16 (pos n) = n % 65536
low16 (negsuc n) = 65535 - n % 65536

-- The first entry of the table of that name.
unfoldable pub by_name : List ℕ → List Svent → Option Svent
unfolding same_text
by_name name [] = none
by_name name (v ∷ vs) = if same_text name v.name then some v else by_name name vs

-- The first entry of that port, which may be given in either byte order.
unfoldable pub by_port : ℤ → List Svent → Option Svent
by_port port [] = none
by_port port (v ∷ vs) =
    if eq_ℤ (pos v.port) (pos (ak_sw16 (low16 port))) || eq_ℤ (pos v.port) port
    then some v
    else by_port port vs

module _ {W : Type 0} where
  -- The name is cut to the 255 bytes that `ak_he_name` has room for.
  unfoldable pub ak_fill_hostent : List ℕ → List ℕ → State W → State W
  ak_fill_hostent name ip s = record s {
    ak_he = record {
      h_name = take 255 name;
      h_aliases = [];
      h_addrtype = af_inet;
      h_length = 4;
      h_addr_list = take 4 ip ∷ [];
    };
  }

  unfoldable pub ak_fill_servent : List ℕ → ℕ → List ℕ → State W → State W
  ak_fill_servent name port proto s = record s {
    ak_se = record { s_name = name; s_aliases = []; s_port = ak_sw16 port; s_proto = proto };
  }

  unfoldable pub getservbyname : List ℕ → List ℕ → State W → ℤ × State W
  getservbyname name proto s = elim (by_name name ak_services) [
    | none ↦ (minus_one, s)
    | some v ↦ (pos 0, ak_fill_servent v.name v.port proto s)
  ]

  unfoldable pub getservbyport : ℤ → List ℕ → State W → ℤ × State W
  getservbyport port proto s = elim (by_port port ak_services) [
    | none ↦ (minus_one, s)
    | some v ↦ (pos 0, ak_fill_servent v.name v.port proto s)
  ]

  -- A numeric name: there is no reverse lookup. Beside the result, `*h_errnop`.
  unfoldable pub gnat_gethostbyaddr : List ℕ → ℤ → State W → ℤ × ℕ × State W
  unfolding ak_fill_hostent
  gnat_gethostbyaddr addr type s =
      let (dotted, s1) = inet_ntop (pos af_inet) addr 16 s in
      let name : List ℕ = elim dotted [ none ↦ [] | some t ↦ t ] in
      if eq_ℤ type (pos af_inet)
      then (pos 0, 0, ak_fill_hostent name addr s1)
      else (minus_one, no_data, s)

  -- The plain call: whether it returns `&ak_he`.
  unfoldable pub gethostbyaddr : List ℕ → ℤ → State W → Bool × State W
  unfolding ak_fill_hostent
  gethostbyaddr addr type s =
      let (dotted, s1) = inet_ntop (pos af_inet) addr 16 s in
      let name : List ℕ = elim dotted [ none ↦ [] | some t ↦ t ] in
      if eq_ℤ type (pos af_inet)
      then (true, ak_fill_hostent name addr s1)
      else (false, record s { ak_h_errno = no_data })

module _ {W : Type 0} ⦃b : Bridge W⦄ where
  -- The four bytes of the address, or `none` on failure.
  unfoldable pub ak_dns_query : List ℕ → State W → Option (List ℕ) × State W
  ak_dns_query name s =
      let (up, s0) = ak_ensure_net s in
      let (st, ip, w) = b.sock_resolve name s0.net in
      let s1 = record s0 { net = w } in
      if not up then (none, s0) else if st == st_ok then (some (ak_u32_to_addr ip), s1) else (
        none,
        record s1 { ak_h_errno = if st == st_not_ready then try_again else host_not_found },
      )

  -- Beside the result, `*h_errnop`.
  unfoldable pub gethostbyname : List ℕ → State W → ℤ × ℕ × State W
  unfolding ak_fill_hostent
  gethostbyname name s =
      let (ok, ip) = ak_parse_dotted name in
      let (found, s1) = ak_dns_query name s in
      if ok then (pos 0, 0, ak_fill_hostent name ip s) else elim found [
        | some a ↦ (pos 0, 0, ak_fill_hostent name a s1)
        | none ↦ (minus_one, if s1.ak_h_errno == 0 then host_not_found else s1.ak_h_errno, s1)
      ]

-- The accessors that GNAT.Sockets reads a result by; an index past the end reads the null pointer.
abbrev pub hostent_h_name : Hostent → List ℕ
hostent_h_name h = h.h_name

abbrev pub hostent_h_alias : Hostent → ℕ → Option (List ℕ)
hostent_h_alias h index = get_elem? h.h_aliases index

abbrev pub hostent_h_addrtype : Hostent → ℕ
hostent_h_addrtype h = h.h_addrtype

abbrev pub hostent_h_length : Hostent → ℕ
hostent_h_length h = h.h_length

abbrev pub hostent_h_addr : Hostent → ℕ → Option (List ℕ)
hostent_h_addr h index = get_elem? h.h_addr_list index

abbrev pub servent_s_name : Servent → List ℕ
servent_s_name s = s.s_name

abbrev pub servent_s_alias : Servent → ℕ → Option (List ℕ)
servent_s_alias s index = get_elem? s.s_aliases index

abbrev pub servent_s_port : Servent → ℕ
servent_s_port s = s.s_port % 65536

abbrev pub servent_s_proto : Servent → List ℕ
servent_s_proto s = s.s_proto
