-- ===== src/Glue/Listen.antt =====
-- The TCP half of userspace/lwip/port/aknet_glue.c: the list of listening pcbs, the callbacks that
-- lwIP calls, and listening, kicking and closing.
pub mod Laws
use aegir.Prelude.{
  ℕ, ◌%◌, ◌^◌, ℤ, pos, eq_ℤ, true, false, Option, none, some, List, [], ◌∷◌, ◌==◌, if◌then◌else◌,
}
use aegir.Glue.Types.{ListenEnt, Glue, Lwip}

module _ {Pcb : Type 0} where
  unfoldable pub aknet_listen_find : ℕ → List (ListenEnt Pcb) → Option Pcb
  aknet_listen_find id [] = none
  aknet_listen_find id (e ∷ l) = if e.id == id then some e.pcb else aknet_listen_find id l

  unfoldable pub aknet_listen_del : ℕ → List (ListenEnt Pcb) → List (ListenEnt Pcb)
  aknet_listen_del id [] = []
  aknet_listen_del id (e ∷ l) = if e.id == id then l else e ∷ aknet_listen_del id l

module _ {Pbuf Pcb W : Type 0} ⦃l : Lwip Pbuf Pcb W⦄ where
  unfoldable pub aknet_listen_add : ℕ → Pcb → Glue Pbuf Pcb W → Glue Pbuf Pcb W
  aknet_listen_add id pcb s =
      let (ok, w) = l.malloc s.lwip in
      if ok
      then record s {
        aknet_listen_pcbs = (record { id = id; pcb = pcb }) ∷ s.aknet_listen_pcbs;
        lwip = w;
      }
      else record s { lwip = w }

  -- The listener's backlog slot is freed, where it is known.
  abbrev pub accepted_by : Option Pcb → Glue Pbuf Pcb W → Glue Pbuf Pcb W
  accepted_by none s = s
  accepted_by (some lp) s = record s { lwip = l.tcp_accepted lp s.lwip }

  unfoldable pub aknet_tcp_accept_cb : ℕ → Pcb → Glue Pbuf Pcb W → ℤ × Glue Pbuf Pcb W
  aknet_tcp_accept_cb id newpcb s =
      let (r, t) = l.aknet_on_tcp_accept id newpcb s in
      if eq_ℤ r (pos 0)
      then (l.err_ok, accepted_by (aknet_listen_find id t.aknet_listen_pcbs) t)
      else (l.err_abrt, t)

  unfoldable pub aknet_tcp_rx_cb : ℕ → Pcb → Option Pbuf → Glue Pbuf Pcb W → ℤ × Glue Pbuf Pcb W
  aknet_tcp_rx_cb id tpcb none s = (l.err_ok, l.aknet_on_tcp_eof id s)
  aknet_tcp_rx_cb id tpcb (some p) s =
      let (stored, t) = l.aknet_on_tcp_rx id p s in
      if eq_ℤ stored (pos 0) then (l.err_mem, t) else (
        l.err_ok,
        record t { lwip = l.pbuf_free (some p) (l.tcp_recved tpcb (l.tot_len p t.lwip) t.lwip) },
      )

  -- `*ppcb` after the call comes second in the result.
  abbrev pub listening_on : ℕ → Pcb → Option Pcb × W → Glue Pbuf Pcb W → ℤ × Pcb × Glue Pbuf Pcb W
  listening_on id pcb (none, w) s = (l.err_mem, pcb, record s { lwip = w })
  listening_on id pcb (some lp, w) s =
      let t = aknet_listen_add id lp (record s { lwip = w }) in
      (pos 0, lp, record t { lwip = l.tcp_accept lp t.lwip })

  unfoldable pub aknet_tcp_listen : Pcb → ℕ → Glue Pbuf Pcb W → ℤ × Pcb × Glue Pbuf Pcb W
  aknet_tcp_listen pcb id s =
      listening_on id pcb (l.tcp_listen pcb (l.tcp_arg pcb (some id) s.lwip)) s

  unfoldable pub aknet_tcp_attach : Pcb → ℕ → Glue Pbuf Pcb W → Glue Pbuf Pcb W
  aknet_tcp_attach pcb id s = record s {
    lwip = l.tcp_set_cbs pcb true (l.tcp_arg pcb (some id) s.lwip);
  }

  abbrev pub kick : Option Pbuf → Pcb → Glue Pbuf Pcb W → ℤ × Glue Pbuf Pcb W
  kick none pcb s = (pos 0, s)
  kick (some p) pcb s = l.tcp_process_refused_data pcb s

  unfoldable pub aknet_tcp_kick : Pcb → Glue Pbuf Pcb W → ℤ × Glue Pbuf Pcb W
  aknet_tcp_kick pcb s = kick (l.refused_data pcb s.lwip) pcb s

  -- The callbacks of a pcb that is no listener are set to NULL.
  unfoldable pub clear_cbs : Pcb → Glue Pbuf Pcb W → Glue Pbuf Pcb W
  clear_cbs pcb s =
      let w = l.tcp_arg pcb none s.lwip in
      record s { lwip = if l.listening pcb w then w else l.tcp_set_cbs pcb false w }

  unfoldable pub aknet_tcp_close : Pcb → ℕ → Glue Pbuf Pcb W → ℤ × Glue Pbuf Pcb W
  aknet_tcp_close pcb id s =
      let s' = record s { aknet_listen_pcbs = aknet_listen_del id s.aknet_listen_pcbs } in
      let (e, t) = l.tcp_close pcb (clear_cbs pcb s') in
      (pos 0, if eq_ℤ e l.err_ok then t else l.tcp_abort pcb t)
