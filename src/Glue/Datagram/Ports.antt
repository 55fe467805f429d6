-- ===== src/Glue/Datagram/Ports.antt =====
-- Which UDP ports belong to a pcb that is not netserv's.
use aegir.Prelude.{ℕ, ◌%◌, ◌^◌, true, false, List, [], ◌∷◌, ◌≡◌, ◌⊎◌, ◌↔◌, inl, inr, arith}
use aegir.Glue.Types.{Glue, Lwip}
use aegir.Glue.Datagram.{foreign_owner, aknet_udp_port_open}

module _ {Pbuf Pcb W : Type 0} ⦃l : Lwip Pbuf Pcb W⦄ where
  -- A pcb that has the port, and another receive callback than the glue's.
  abbrev pub Owner : ℕ → Glue Pbuf Pcb W → Pcb → Type 0
  Owner port s pcb =
      (l.udp_local_port pcb s.lwip ≡ port % 2 ^ 16) × (l.has_rx_cb pcb s.lwip ≡ false)

  -- Some pcb of the list owns the port, or none does.
  abbrev pub SomeOwner : ℕ → Glue Pbuf Pcb W → List Pcb → Type 0
  SomeOwner port s [] = ⊥
  SomeOwner port s (pcb ∷ pcbs) = Owner port s pcb ⊎ SomeOwner port s pcbs

  foreign_owner_sound :
      (port : ℕ) (s : Glue Pbuf Pcb W) (pcbs : List Pcb)
      → foreign_owner port s pcbs ≡ true
      → SomeOwner port s pcbs
  unfolding foreign_owner
  foreign_owner_sound port s [] e = ground arith
  foreign_owner_sound port s (pcb ∷ pcbs) e = ground (arith, e, foreign_owner_sound port s pcbs)

  foreign_owner_complete :
      (port : ℕ) (s : Glue Pbuf Pcb W) (pcbs : List Pcb)
      → SomeOwner port s pcbs
      → foreign_owner port s pcbs ≡ true
  unfolding foreign_owner
  foreign_owner_complete port s [] h = absurd h
  foreign_owner_complete port s (pcb ∷ pcbs) (inl h) = ground (arith, h)
  foreign_owner_complete port s (pcb ∷ pcbs) (inr h) =
      ground (arith, foreign_owner_complete port s pcbs h)

  -- `aknet_udp_port_open` answers yes exactly if some pcb of lwIP's list has that port, modulo 2^16, and
  -- not the glue's receive callback.
  aknet_udp_port_open_lem :
      (port : ℕ) (s : Glue Pbuf Pcb W)
      → (aknet_udp_port_open port s ≡ true) ↔ SomeOwner port s (l.udp_pcbs s.lwip)
  unfolding aknet_udp_port_open
  aknet_udp_port_open_lem port s = (
    foreign_owner_sound port s (l.udp_pcbs s.lwip),
    foreign_owner_complete port s (l.udp_pcbs s.lwip),
  )
