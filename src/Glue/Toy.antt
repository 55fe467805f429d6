-- ===== src/Glue/Toy.antt =====
-- Small lwIP stacks, for tests.
use aegir.Prelude.{
  ℕ, zero, suc, ◌+◌, pos, negsuc, true, none, some, [], ◌∷◌, ltb, ◌==◌, if◌then◌else◌,
}
use aegir.Glue.Types.{Glue, Lwip}
use aegir.Glue.Hairpin.{aknet_output}

-- It accepts everything and answers nothing.
abbrev pub silent : (W : Type 0) → Lwip ℕ ℕ W
silent W = record {
  err_ok = pos 0;
  err_mem = negsuc 0;
  err_if = negsuc 11;
  err_abrt = negsuc 12;
  tot_len = λ p w. 40;
  pbuf_alloc = λ n w. (some 77, w);
  pbuf_copy = λ q p w. w;
  pbuf_copy_partial = λ p n off w. [];
  pbuf_take = λ p bytes w. w;
  pbuf_free = λ p w. w;
  netif_ip4_addr = λ w. 0x0A00020F;
  etharp_output = λ p ip w. (pos 0, w);
  aknet_frame_tx = λ bytes w. (pos 0, w);
  ip4_input = λ p s. (pos 0, s);
  netif_input = λ p s. (pos 0, s);
  malloc = λ w. (true, w);
  tcp_arg = λ pcb a w. w;
  tcp_set_cbs = λ pcb on w. w;
  tcp_listen = λ pcb w. (some (pcb + 100), w);
  tcp_accept = λ pcb w. w;
  tcp_accepted = λ pcb w. w;
  tcp_recved = λ pcb n w. w;
  listening = λ pcb w. ltb 99 pcb;
  refused_data = λ pcb w. none;
  tcp_process_refused_data = λ pcb s. (pos 0, s);
  tcp_close = λ pcb s. (pos 0, s);
  tcp_abort = λ pcb s. s;
  aknet_on_tcp_accept = λ id pcb s. (pos 0, s);
  aknet_on_tcp_rx = λ id p s. (pos 1, s);
  aknet_on_tcp_eof = λ id s. s;
  err_inprogress = negsuc 4;
  htonl = λ a. a;
  ntohl = λ a. a;
  netif_set_addr = λ a m g w. w;
  netif_ip4_gw = λ w. 0x0A000202;
  sys_check_timeouts = λ s. s;
  sizeof_ip_hdr = 20;
  ip_hdr_bytes = λ p w. 20;
  udp_new = λ w. (some 9, w);
  udp_recv = λ pcb id w. w;
  udp_bind = λ pcb port w. (pos 0, w);
  udp_connect = λ pcb ip port w. (pos 0, w);
  udp_sendto = λ pcb p ip port s. (pos 0, s);
  udp_remove = λ pcb w. w;
  udp_pcbs = λ w. 9 ∷ 10 ∷ [];
  udp_local_port = λ pcb w. pcb + 1000;
  has_rx_cb = λ pcb w. pcb == 9;
  aknet_on_udp_rx = λ id ip port bytes s. s;
  raw_new = λ w. (some 8, w);
  raw_recv = λ pcb w. w;
  raw_sendto = λ pcb p ip s. (pos 0, s);
  aknet_on_icmp_rx = λ ip bytes s. (pos 1, s);
  arp_table_size = 10;
  etharp_get_entry = λ i w. if i == 3 then some (0x0A000202, []) else none;
  dns_setserver = λ i ip w. w;
  dns_gethostbyname = λ name slot s. (negsuc 4, 0, s);
  aknet_on_dns_reply = λ slot ip s. s;
  dhcp_start = λ s. (pos 0, s);
  dhcp_release_and_stop = λ s. s;
  dhcp_supplied_address = λ w. pos 0;
  dhcp_renew = λ s. (pos 0, s);
  netif_dhcp_data = λ w. none;
  tcp_new = λ w. (some 11, w);
  tcp_bind = λ pcb port w. (pos 0, w);
  tcp_connect = λ pcb ip port s. (pos 0, s);
  tcp_write = λ pcb bytes w. (pos 0, w);
  tcp_output = λ pcb s. (pos 0, s);
  aknet_on_tcp_connected = λ id e s. s;
  aknet_on_tcp_sent = λ id n s. s;
  aknet_on_tcp_err = λ id e s. s;
  tcp_state = λ pcb w. 0;
  tcp_local_port = λ pcb w. 0;
  tcp_remote_port = λ pcb w. 0;
  tcp_remote_ip = λ pcb w. 0;
}

-- A packet is answered by one to the machine's own address, while answers are left.
abbrev pub answer : ℕ → Glue ℕ ℕ ℕ → Glue ℕ ℕ ℕ
answer zero s = s
answer (suc n) s = (aknet_output ⦃l = silent ℕ⦄ 7 0x0A00020F (record s { lwip = n })).1

-- Its state is the number of answers that it still has to give.
instance abbrev pub talking : Lwip ℕ ℕ ℕ
talking = record (silent ℕ) { ip4_input = λ p s. (pos 0, answer s.lwip s) }

-- Its state is the address and the gateway of the interface.
abbrev pub addressed : Lwip ℕ ℕ (ℕ × ℕ)
addressed = record (silent (ℕ × ℕ)) {
  netif_ip4_addr = λ w. w.0;
  netif_ip4_gw = λ w. w.1;
  netif_set_addr = λ a m g w. (a, g);
}
