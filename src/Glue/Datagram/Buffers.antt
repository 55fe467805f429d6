-- ===== src/Glue/Datagram/Buffers.antt =====
-- The bound on what the ICMP callback copies.
use aegir.Prelude.{◌+◌, ◌%◌, ◌^◌, ◌≤◌, ◌≡◌, arith}
use aegir.Glue.Types.{Glue, Lwip}
use aegir.Glue.Datagram.{icmp_bytes}

module _ {Pbuf Pcb W : Type 0} ⦃l : Lwip Pbuf Pcb W⦄ where
  -- What the ICMP callback copies fits its buffer of 2048 bytes, where the header is not longer than the
  -- packet lies within it, and its cast to 16 bits loses nothing.
  pub icmp_bytes_fit :
      (p : Pbuf) (s : Glue Pbuf Pcb W)
      → l.ip_hdr_bytes p s.lwip ≤ l.tot_len p s.lwip
      → (icmp_bytes p s ≤ 2048)
        × (l.ip_hdr_bytes p s.lwip + icmp_bytes p s ≤ l.tot_len p s.lwip)
        × (icmp_bytes p s % 2 ^ 16 ≡ icmp_bytes p s)
  icmp_bytes_fit p s h = ground arith
