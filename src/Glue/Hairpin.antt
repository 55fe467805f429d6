-- ===== src/Glue/Hairpin.antt =====
-- The netif driver of userspace/lwip/port/aknet_glue.c: transmission, reception, and the hairpin
-- queue of packets to the machine's own address. The drain loop takes its number of rounds as fuel.
pub mod Queue
pub mod Drain
use aegir.Prelude.{
  ℕ, ◌+◌, ◌-◌, ◌%◌, ◌^◌, ℤ, pos, eq_ℤ, true, false, not, Option, none, some, List, length, leb, ltb,
  ◌==◌, if◌then◌else◌,
}
use aegir.Prelude.Loop.{Turn, done, again, loop}
use aegir.Glue.Types.{Glue, Lwip, update_slot, low16}

-- The result of a C function that returns nothing.
abbrev pub Void : Type 0
Void = Unit

module _ {Pbuf Pcb W : Type 0} where
  -- `aknet_hq_tail - aknet_hq_head`, as a u32.
  unfoldable pub waiting : Glue Pbuf Pcb W → ℕ
  waiting s = (s.aknet_hq_tail + (2 ^ 32 - s.aknet_hq_head)) % 2 ^ 32

module _ {Pbuf Pcb W : Type 0} ⦃l : Lwip Pbuf Pcb W⦄ where
  unfoldable pub aknet_linkoutput : Pbuf → Glue Pbuf Pcb W → ℤ × Glue Pbuf Pcb W
  aknet_linkoutput p s =
      let len = l.tot_len p s.lwip in
      if ltb 2048 len
      then (l.err_mem, s)
      else (let (sent, w) = l.aknet_frame_tx (l.pbuf_copy_partial p len 0 s.lwip) s.lwip in
          (if eq_ℤ sent (pos 0) then l.err_ok else l.err_if, record s { lwip = w }))

  -- The copy is filled and put into the ring.
  abbrev pub push_copy : Pbuf → Option Pbuf × W → Glue Pbuf Pcb W → ℤ × Glue Pbuf Pcb W
  push_copy p (none, w) s = (l.err_mem, record s { lwip = w })
  push_copy p (some q, w) s = (
    l.err_ok,
    record s {
      aknet_hq = update_slot s.aknet_hq (s.aknet_hq_tail % 16) (some q);
      aknet_hq_tail = (s.aknet_hq_tail + 1) % 2 ^ 32;
      lwip = l.pbuf_copy q p w;
    },
  )

  unfoldable pub aknet_output : Pbuf → ℕ → Glue Pbuf Pcb W → ℤ × Glue Pbuf Pcb W
  aknet_output p ipaddr s =
      if ipaddr == l.netif_ip4_addr s.lwip
      then if leb 16 (waiting s)
        then (l.err_mem, s)
        else push_copy p (l.pbuf_alloc (l.tot_len p s.lwip) s.lwip) s
      else (let (e, w) = l.etharp_output p ipaddr s.lwip in (e, record s { lwip = w }))

  -- `if (ip4_input (p, &aknet_netif) != ERR_OK) pbuf_free (p);`
  unfoldable pub deliver : Option Pbuf → Glue Pbuf Pcb W → Glue Pbuf Pcb W
  deliver p s =
      let (e, t) = l.ip4_input p s in
      if eq_ℤ e l.err_ok then t else record t { lwip = l.pbuf_free p t.lwip }

  unfoldable pub drain_turn : Glue Pbuf Pcb W → Turn Void (Glue Pbuf Pcb W)
  drain_turn s =
      if s.aknet_hq_head == s.aknet_hq_tail
      then done tt s
      else again (
          deliver (s.aknet_hq (s.aknet_hq_head % 16))
            (record s { aknet_hq_head = (s.aknet_hq_head + 1) % 2 ^ 32 }))

  -- `aknet_hq_draining = 0;` after the loop.
  abbrev pub drained : Option (Void × Glue Pbuf Pcb W) → Option (Void × Glue Pbuf Pcb W)
  drained none = none
  drained (some (u, s)) = some (u, record s { aknet_hq_draining = false })

  unfoldable pub aknet_hairpin_drain : ℕ → Glue Pbuf Pcb W → Option (Void × Glue Pbuf Pcb W)
  aknet_hairpin_drain fuel s =
      if s.aknet_hq_draining
      then some (tt, s)
      else drained (loop fuel drain_turn (record s { aknet_hq_draining = true }))

  -- The frame is put into the buffer that was allocated for it and handed on.
  abbrev pub take_frame : List ℕ → Option Pbuf × W → Glue Pbuf Pcb W → ℤ × Glue Pbuf Pcb W
  take_frame frame (none, w) s = (l.err_mem, record s { lwip = w })
  take_frame frame (some p, w) s =
      let (e, t) = l.netif_input p (record s { lwip = l.pbuf_take p (low16 frame) w }) in
      if eq_ℤ e l.err_ok
      then (l.err_ok, t)
      else (l.err_if, record t { lwip = l.pbuf_free (some p) t.lwip })

  unfoldable pub aknet_rx : List ℕ → Glue Pbuf Pcb W → ℤ × Glue Pbuf Pcb W
  aknet_rx frame s = take_frame frame (l.pbuf_alloc (length frame % 2 ^ 16) s.lwip) s
