-- ===== src/Glue/Tcp.antt =====
-- The calls and callbacks of userspace/lwip/port/aknet_glue.c that hand one thing on between netserv and
-- a TCP pcb, and its buffer accessors.
use aegir.Prelude.{ℕ, ◌%◌, ◌^◌, ℤ, pos, minus_one, true, Option, none, some, List}
use aegir.Glue.Types.{Glue, Lwip, low16}

module _ {Pbuf Pcb W : Type 0} ⦃l : Lwip Pbuf Pcb W⦄ where
  unfoldable pub aknet_tcp_set_cbs : Pcb → Glue Pbuf Pcb W → Glue Pbuf Pcb W
  aknet_tcp_set_cbs pcb s = record s { lwip = l.tcp_set_cbs pcb true s.lwip }

  unfoldable pub aknet_tcp_connected_cb : ℕ → ℤ → Glue Pbuf Pcb W → ℤ × Glue Pbuf Pcb W
  aknet_tcp_connected_cb id err s = (l.err_ok, l.aknet_on_tcp_connected id err s)

  unfoldable pub aknet_tcp_sent_cb : ℕ → ℕ → Glue Pbuf Pcb W → ℤ × Glue Pbuf Pcb W
  aknet_tcp_sent_cb id len s = (l.err_ok, l.aknet_on_tcp_sent id len s)

  unfoldable pub aknet_tcp_err_cb : ℕ → ℤ → Glue Pbuf Pcb W → Glue Pbuf Pcb W
  aknet_tcp_err_cb id err s = l.aknet_on_tcp_err id err s

  -- The argument is set on the pcb, if there is one.
  abbrev pub with_arg : ℕ → Option Pcb × W → Glue Pbuf Pcb W → Option Pcb × Glue Pbuf Pcb W
  with_arg id (none, w) s = (none, record s { lwip = w })
  with_arg id (some pcb, w) s = (some pcb, record s { lwip = l.tcp_arg pcb (some id) w })

  unfoldable pub aknet_tcp_new : ℕ → Glue Pbuf Pcb W → Option Pcb × Glue Pbuf Pcb W
  aknet_tcp_new id s = with_arg id (l.tcp_new s.lwip) s

  unfoldable pub aknet_tcp_bind : Pcb → ℕ → Glue Pbuf Pcb W → ℤ × Glue Pbuf Pcb W
  aknet_tcp_bind pcb port s =
      let (e, w) = l.tcp_bind pcb (port % 2 ^ 16) s.lwip in (e, record s { lwip = w })

  unfoldable pub aknet_tcp_connect : Pcb → ℕ → ℕ → Glue Pbuf Pcb W → ℤ × Glue Pbuf Pcb W
  unfolding aknet_tcp_set_cbs
  aknet_tcp_connect pcb ip port s =
      l.tcp_connect pcb (l.htonl ip) (port % 2 ^ 16) (aknet_tcp_set_cbs pcb s)

  unfoldable pub aknet_tcp_write : Pcb → List ℕ → Glue Pbuf Pcb W → ℤ × Glue Pbuf Pcb W
  aknet_tcp_write pcb bytes s =
      let (e, w) = l.tcp_write pcb (low16 bytes) s.lwip in (e, record s { lwip = w })

  unfoldable pub aknet_tcp_output : Pcb → Glue Pbuf Pcb W → ℤ × Glue Pbuf Pcb W
  aknet_tcp_output pcb s = l.tcp_output pcb s

  unfoldable pub aknet_tcp_state : Pcb → Glue Pbuf Pcb W → ℕ
  aknet_tcp_state pcb s = l.tcp_state pcb s.lwip

  -- Beside the status, what `*ip` and `*port` hold.
  unfoldable pub aknet_tcp_peer : Option Pcb → Glue Pbuf Pcb W → ℤ × Option (ℕ × ℕ)
  aknet_tcp_peer none s = (minus_one, none)
  aknet_tcp_peer (some pcb) s =
      (pos 0, some (l.ntohl (l.tcp_remote_ip pcb s.lwip), l.tcp_remote_port pcb s.lwip))

  unfoldable pub aknet_tcp_local_port : Pcb → Glue Pbuf Pcb W → ℕ
  aknet_tcp_local_port pcb s = l.tcp_local_port pcb s.lwip

  unfoldable pub aknet_tcp_remote_port : Pcb → Glue Pbuf Pcb W → ℕ
  aknet_tcp_remote_port pcb s = l.tcp_remote_port pcb s.lwip

  unfoldable pub aknet_tcp_remote_ip : Pcb → Glue Pbuf Pcb W → ℕ
  aknet_tcp_remote_ip pcb s = l.ntohl (l.tcp_remote_ip pcb s.lwip)

  unfoldable pub aknet_pbuf_totlen : Pbuf → Glue Pbuf Pcb W → ℕ
  aknet_pbuf_totlen p s = l.tot_len p s.lwip

  unfoldable pub aknet_pbuf_copy : Pbuf → ℕ → ℕ → Glue Pbuf Pcb W → List ℕ
  aknet_pbuf_copy p off len s = l.pbuf_copy_partial p (len % 2 ^ 16) (off % 2 ^ 16) s.lwip
