-- ===== src/Glue/Datagram.antt =====
-- The UDP and the raw ICMP half of userspace/lwip/port/aknet_glue.c: the buffers that are sent, and
-- the callbacks that lwIP calls with a received one. A `void *` argument is the socket id.
pub mod Buffers
pub mod Ports
use aegir.Prelude.{
  ℕ, ◌-◌, ◌%◌, ◌^◌, ℤ, pos, eq_ℤ, Bool, true, false, not, ◌&&◌, Option, none, some, List, [], ◌∷◌,
  length, ltb, ◌==◌, if◌then◌else◌,
}
use aegir.Glue.Types.{Glue, Lwip, low16}

-- `sizeof (aknet_rxbuf)`
abbrev pub rxbuf_size : ℕ
rxbuf_size = 2048

abbrev pub at_most : ℕ → ℕ → ℕ
at_most n cap = if ltb n cap then n else cap

module _ {Pbuf Pcb W : Type 0} ⦃l : Lwip Pbuf Pcb W⦄ where
  unfoldable pub free : Pbuf → Glue Pbuf Pcb W → Glue Pbuf Pcb W
  free p s = record s { lwip = l.pbuf_free (some p) s.lwip }

  unfoldable pub aknet_udp_rx_cb : ℕ → Option Pbuf → ℕ → ℕ → Glue Pbuf Pcb W → Glue Pbuf Pcb W
  unfolding free
  aknet_udp_rx_cb id none addr port s = s
  aknet_udp_rx_cb id (some p) addr port s =
      let n = at_most (l.tot_len p s.lwip) rxbuf_size in
      let bytes = l.pbuf_copy_partial p n 0 s.lwip in
      free p (l.aknet_on_udp_rx id (l.ntohl addr) port bytes s)

  -- The callback is set on the pcb, if there is one.
  abbrev pub with_recv :
      (Pcb → W → W) → Option Pcb × W → Glue Pbuf Pcb W → Option Pcb × Glue Pbuf Pcb W
  with_recv recv (none, w) s = (none, record s { lwip = w })
  with_recv recv (some pcb, w) s = (some pcb, record s { lwip = recv pcb w })

  unfoldable pub aknet_udp_new : ℕ → Glue Pbuf Pcb W → Option Pcb × Glue Pbuf Pcb W
  aknet_udp_new id s = with_recv (λ pcb w. l.udp_recv pcb id w) (l.udp_new s.lwip) s

  unfoldable pub aknet_udp_bind : Pcb → ℕ → Glue Pbuf Pcb W → ℤ × Glue Pbuf Pcb W
  aknet_udp_bind pcb port s =
      let (e, w) = l.udp_bind pcb (port % 2 ^ 16) s.lwip in (e, record s { lwip = w })

  unfoldable pub aknet_udp_connect : Pcb → ℕ → ℕ → Glue Pbuf Pcb W → ℤ × Glue Pbuf Pcb W
  aknet_udp_connect pcb ip port s =
      let (e, w) = l.udp_connect pcb (l.htonl ip) (port % 2 ^ 16) s.lwip in
      (e, record s { lwip = w })

  -- The data is put into the buffer, if there is one, which is sent and freed whatever came of it.
  abbrev pub send_copy :
      (Pbuf → Glue Pbuf Pcb W → ℤ × Glue Pbuf Pcb W)
      → List ℕ
      → Option Pbuf × W
      → Glue Pbuf Pcb W
      → ℤ × Glue Pbuf Pcb W
  send_copy send bytes (none, w) s = (l.err_mem, record s { lwip = w })
  send_copy send bytes (some p, w) s =
      let (e, t) = send p (record s { lwip = l.pbuf_take p (low16 bytes) w }) in (e, free p t)

  unfoldable pub aknet_udp_send : Pcb → ℕ → ℕ → List ℕ → Glue Pbuf Pcb W → ℤ × Glue Pbuf Pcb W
  unfolding free
  aknet_udp_send pcb ip port bytes s =
      send_copy (λ p t. l.udp_sendto pcb p (l.htonl ip) (port % 2 ^ 16) t) bytes
        (l.pbuf_alloc (length bytes % 2 ^ 16) s.lwip) s

  unfoldable pub aknet_udp_del : Pcb → Glue Pbuf Pcb W → Glue Pbuf Pcb W
  aknet_udp_del pcb s = record s { lwip = l.udp_remove pcb s.lwip }

  -- `for (pcb = udp_pcbs; ...)`
  unfoldable pub foreign_owner : ℕ → Glue Pbuf Pcb W → List Pcb → Bool
  foreign_owner port s [] = false
  foreign_owner port s (pcb ∷ pcbs) =
      let rest = foreign_owner port s pcbs in
      if l.udp_local_port pcb s.lwip == port % 2 ^ 16 && not (l.has_rx_cb pcb s.lwip)
      then true
      else rest

  unfoldable pub aknet_udp_port_open : ℕ → Glue Pbuf Pcb W → Bool
  unfolding foreign_owner
  aknet_udp_port_open port s = foreign_owner port s (l.udp_pcbs s.lwip)

  -- The number of bytes to hand on of a packet with a header of `hlen` bytes.
  abbrev pub icmp_bytes : Pbuf → Glue Pbuf Pcb W → ℕ
  icmp_bytes p s = at_most (l.tot_len p s.lwip - l.ip_hdr_bytes p s.lwip) rxbuf_size

  -- A result of 1 tells lwIP that the packet is eaten.
  unfoldable pub aknet_raw_rx_cb : Pbuf → ℕ → Glue Pbuf Pcb W → ℤ × Glue Pbuf Pcb W
  unfolding free
  aknet_raw_rx_cb p addr s =
      let len = l.tot_len p s.lwip in
      let hlen = l.ip_hdr_bytes p s.lwip in
      let bytes = l.pbuf_copy_partial p (icmp_bytes p s % 2 ^ 16) hlen s.lwip in
      let (eaten, t) = l.aknet_on_icmp_rx (l.ntohl addr) bytes s in
      if ltb len l.sizeof_ip_hdr
      then (pos 0, s)
      else if ltb len hlen
      then (pos 0, s)
      else if eq_ℤ eaten (pos 0)
      then (pos 0, t)
      else (pos 1, free p t)

  unfoldable pub aknet_raw_icmp_new : Glue Pbuf Pcb W → Option Pcb × Glue Pbuf Pcb W
  aknet_raw_icmp_new s = with_recv l.raw_recv (l.raw_new s.lwip) s

  unfoldable pub aknet_raw_send : Pcb → ℕ → List ℕ → Glue Pbuf Pcb W → ℤ × Glue Pbuf Pcb W
  unfolding free
  aknet_raw_send pcb ip bytes s =
      send_copy (λ p t. l.raw_sendto pcb p (l.htonl ip) t) bytes
        (l.pbuf_alloc (length bytes % 2 ^ 16) s.lwip) s
