-- ===== src/Glue/Services/Laws.antt =====
-- The ARP scan finds what the table holds, and the address that is set is the one got.
use aegir.Prelude.{
  ℕ, zero, suc, ◌+◌, ◌≤◌, ◌<◌, ◌^◌, true, none, some, List, ◌≡◌, ◌↔◌, arith, ◌==◌, Option-cases,
  Bool-cases, inl, inr,
}
use native.Mathlib.Decide.{ℕ_discrete}
use aegir.Glue.Types.{Glue, Lwip}
use aegir.Glue.Services.{
  arp_scan, aknet_arp_resolved, aknet_arp_get, aknet_set_addr, aknet_get_addr,
}

-- Byte order is undone by its inverse, and the interface keeps the address that it is given.
pub record IsNetif (Pbuf Pcb W : Type 0) ⦃l : Lwip Pbuf Pcb W⦄ : Type 0 where
  pub order : (a : ℕ) → a < 2 ^ 32 → l.ntohl (l.htonl a) ≡ a
  pub address : (a g : ℕ) (w : W) → l.netif_ip4_addr (l.netif_set_addr a none g w) ≡ a
  pub gateway : (a g : ℕ) (w : W) → l.netif_ip4_gw (l.netif_set_addr a none g w) ≡ g

module _ {Pbuf Pcb W : Type 0} ⦃l : Lwip Pbuf Pcb W⦄ where
  -- The entry `i` of the ARP table is for the address `ip`.
  abbrev pub Resolves : ℕ → ℕ → Glue Pbuf Pcb W → Type 0
  Resolves ip i s = (mac : List ℕ) × (aknet_arp_get i s ≡ some (ip, mac))

  later :
      (ip rounds i : ℕ) (s : Glue Pbuf Pcb W)
      → (j : ℕ) × (j < i + 1 + rounds) × Resolves ip j s
      → (j : ℕ) × (j < i + suc rounds) × Resolves ip j s
  later ip rounds i s (j, lt, r) = (j, omega arith, r)

  arp_scan_sound :
      (ip rounds i : ℕ) (s : Glue Pbuf Pcb W)
      → arp_scan ip rounds i s ≡ true
      → (j : ℕ) × (j < i + rounds) × Resolves ip j s
  unfolding arp_scan aknet_arp_get
  arp_scan_sound ip zero i s e = ground arith
  arp_scan_sound ip (suc rounds) i s e = elim (Option-cases (l.etharp_get_entry i s.lwip)) [
    | inl q ↦ later ip rounds i s (arp_scan_sound ip rounds (i + 1) s (ground (arith, e, q)))
    | inr (x, q) ↦ elim (Bool-cases (l.ntohl x.0 == ip)) [
      | inl t ↦ (i, omega arith, (x.1, ground (arith, q, t)))
      | inr t ↦ later ip rounds i s (arp_scan_sound ip rounds (i + 1) s (ground (arith, e, q, t)))
    ]
  ]

  arp_scan_complete :
      (ip rounds i j : ℕ) (s : Glue Pbuf Pcb W)
      → i ≤ j
      → j < i + rounds
      → Resolves ip j s
      → arp_scan ip rounds i s ≡ true
  unfolding arp_scan aknet_arp_get
  arp_scan_complete ip zero i j s lo hi r = absurd (omega arith)
  arp_scan_complete ip (suc rounds) i j s lo hi r = elim (ℕ_discrete j i) [
    | yes q ↦ ground (arith, q, r.1)
    | no n ↦ ground (arith, arp_scan_complete ip rounds (i + 1) j s (omega arith) (omega arith) r)
  ]

  -- `aknet_arp_resolved` answers yes exactly if `aknet_arp_get` gives that address for some index of the
  -- ARP table.
  aknet_arp_resolved_lem :
      (ip : ℕ) (s : Glue Pbuf Pcb W)
      → (aknet_arp_resolved ip s ≡ true) ↔ ((j : ℕ) × (j < l.arp_table_size) × Resolves ip j s)
  unfolding aknet_arp_resolved
  aknet_arp_resolved_lem ip s = (
    λ e. at_start ip s (arp_scan_sound ip l.arp_table_size 0 s e),
    λ (j, lt, r). arp_scan_complete ip l.arp_table_size 0 j s (omega arith) (omega arith) r,
  )
    where
      at_start :
          (ip : ℕ) (s : Glue Pbuf Pcb W)
          → (j : ℕ) × (j < 0 + l.arp_table_size) × Resolves ip j s
          → (j : ℕ) × (j < l.arp_table_size) × Resolves ip j s
      at_start ip s (j, lt, r) = (j, omega arith, r)

  -- `aknet_get_addr` gives the address and the gateway that `aknet_set_addr` set.
  pub aknet_get_addr-aknet_set_addr :
      (c : IsNetif Pbuf Pcb W) (ip gw : ℕ) (s : Glue Pbuf Pcb W)
      → ip < 2 ^ 32
      → gw < 2 ^ 32
      → aknet_get_addr (aknet_set_addr ip gw s) ≡ (ip, gw)
  unfolding aknet_get_addr aknet_set_addr
  aknet_get_addr-aknet_set_addr c ip gw s h g = ground (
    arith,
    c.order ip h,
    c.order gw g,
    c.address (l.htonl ip) (l.htonl gw) s.lwip,
    c.gateway (l.htonl ip) (l.htonl gw) s.lwip,
  )
