-- ===== src/Glue/Services.antt =====
-- The address, ARP, DNS and DHCP queries of userspace/lwip/port/aknet_glue.c. An address that comes
-- from netserv is in host order, one that goes to lwIP in network order. Of an out-pointer the result
-- tells what was stored through it, if anything.
pub mod Laws
use aegir.Prelude.{
  ℕ, zero, suc, ◌+◌, ℤ, pos, minus_one, eq_ℤ, Bool, true, false, Option, none, some, List, ◌==◌,
  if◌then◌else◌,
}
use aegir.Glue.Types.{Glue, Lwip}

module _ {Pbuf Pcb W : Type 0} ⦃l : Lwip Pbuf Pcb W⦄ where
  unfoldable pub aknet_set_addr : ℕ → ℕ → Glue Pbuf Pcb W → Glue Pbuf Pcb W
  aknet_set_addr ip gw s = record s {
    lwip = l.netif_set_addr (l.htonl ip) none (l.htonl gw) s.lwip;
  }

  unfoldable pub aknet_get_addr : Glue Pbuf Pcb W → ℕ × ℕ
  aknet_get_addr s = (l.ntohl (l.netif_ip4_addr s.lwip), l.ntohl (l.netif_ip4_gw s.lwip))

  -- `for (i = 0; i < ARP_TABLE_SIZE; i++)`, by the rounds that are left.
  unfoldable pub arp_scan : ℕ → ℕ → ℕ → Glue Pbuf Pcb W → Bool
  arp_scan ip zero i s = false
  arp_scan ip (suc rounds) i s =
      let rest = arp_scan ip rounds (i + 1) s in
      elim (l.etharp_get_entry i s.lwip) [
        | none ↦ rest
        | some (eip, emac) ↦ if l.ntohl eip == ip then true else rest
      ]

  unfoldable pub aknet_arp_resolved : ℕ → Glue Pbuf Pcb W → Bool
  unfolding arp_scan
  aknet_arp_resolved ip s = arp_scan ip l.arp_table_size 0 s

  unfoldable pub aknet_arp_get : ℕ → Glue Pbuf Pcb W → Option (ℕ × List ℕ)
  aknet_arp_get i s = elim (l.etharp_get_entry i s.lwip) [
    | none ↦ none
    | some (eip, emac) ↦ some (l.ntohl eip, emac)
  ]

  -- A null `ipaddr` is `none`.
  unfoldable pub aknet_dns_found_cb : Option ℕ → ℕ → Glue Pbuf Pcb W → Glue Pbuf Pcb W
  aknet_dns_found_cb none slot s = l.aknet_on_dns_reply slot 0 s
  aknet_dns_found_cb (some ipaddr) slot s = l.aknet_on_dns_reply slot (l.ntohl ipaddr) s

  unfoldable pub aknet_dns_setserver : ℕ → Glue Pbuf Pcb W → Glue Pbuf Pcb W
  aknet_dns_setserver ip s = record s { lwip = l.dns_setserver 0 (l.htonl ip) s.lwip }

  unfoldable pub aknet_dns_resolve : List ℕ → ℕ → Glue Pbuf Pcb W → ℤ × Option ℕ × Glue Pbuf Pcb W
  aknet_dns_resolve name slot s =
      let (e, addr, t) = l.dns_gethostbyname name slot s in
      if eq_ℤ e l.err_ok
      then (pos 1, some (l.ntohl addr), t)
      else if eq_ℤ e l.err_inprogress
      then (pos 0, none, t)
      else (minus_one, none, t)

  unfoldable pub aknet_dhcp_start : Glue Pbuf Pcb W → ℤ × Glue Pbuf Pcb W
  aknet_dhcp_start s =
      let (e, t) = l.dhcp_start s in (if eq_ℤ e l.err_ok then pos 0 else minus_one, t)

  unfoldable pub aknet_dhcp_stop : Glue Pbuf Pcb W → Glue Pbuf Pcb W
  aknet_dhcp_stop s = l.dhcp_release_and_stop s

  unfoldable pub aknet_dhcp_renew : Glue Pbuf Pcb W → ℤ × Glue Pbuf Pcb W
  aknet_dhcp_renew s =
      if eq_ℤ (l.dhcp_supplied_address s.lwip) (pos 0)
      then (minus_one, s)
      else (let (e, t) = l.dhcp_renew s in (if eq_ℤ e l.err_ok then pos 0 else minus_one, t))

  unfoldable pub aknet_dhcp_bound : Glue Pbuf Pcb W → ℤ
  aknet_dhcp_bound s = l.dhcp_supplied_address s.lwip

  unfoldable pub aknet_dhcp_state : Glue Pbuf Pcb W → ℕ
  aknet_dhcp_state s = elim (l.netif_dhcp_data s.lwip) [ none ↦ 0 | some state ↦ state ]

  unfoldable pub aknet_timeouts : Glue Pbuf Pcb W → Glue Pbuf Pcb W
  aknet_timeouts s = l.sys_check_timeouts s
