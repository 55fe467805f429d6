-- ===== src/Glue/Types.antt =====
-- The file-scope state of userspace/lwip/port/aknet_glue.c, and the interface of what it calls: lwIP,
-- which is not a part of this repository, the C library's `malloc`, and the functions that netserv
-- exports to it.
use aegir.Prelude.{ℕ, ℤ, ◌%◌, ◌^◌, Bool, Option, List, take, length, ◌==◌, if◌then◌else◌}

-- `struct listen_ent`, less its link.
pub record ListenEnt (Pcb : Type 0) : Type 0 where
  pub id : ℕ
  pub pcb : Pcb

-- The hairpin ring `aknet_hq` with its two u32 counters, read and written below 16, the list of the
-- listening pcbs, and `lwip`: all that lies behind the interface. The scratch buffers are filled
-- before each use and are left out.
pub record Glue (Pbuf Pcb W : Type 0) : Type 0 where
  pub aknet_hq : ℕ → Option Pbuf
  pub aknet_hq_head : ℕ
  pub aknet_hq_tail : ℕ
  pub aknet_hq_draining : Bool
  pub aknet_listen_pcbs : List (ListenEnt Pcb)
  pub lwip : W

-- What the glue calls. A function that may call back into the glue takes the whole state; one that
-- does not takes `W`. Lengths come before offsets. An `err_t` or a status comes first in a result. `Pbuf` and `Pcb` are pointers;
-- a `void *` callback argument is a socket id, or `none` for NULL.
pub record Lwip (Pbuf Pcb W : Type 0) : Type 0 where
  pub err_ok : ℤ
  pub err_mem : ℤ
  pub err_if : ℤ
  pub err_abrt : ℤ
  pub tot_len : Pbuf → W → ℕ
  pub pbuf_alloc : ℕ → W → Option Pbuf × W
  pub pbuf_copy : Pbuf → Pbuf → W → W
  pub pbuf_copy_partial : Pbuf → ℕ → ℕ → W → List ℕ
  pub pbuf_take : Pbuf → List ℕ → W → W
  pub pbuf_free : Option Pbuf → W → W
  pub netif_ip4_addr : W → ℕ
  pub etharp_output : Pbuf → ℕ → W → ℤ × W
  pub aknet_frame_tx : List ℕ → W → ℤ × W
  pub ip4_input : Option Pbuf → Glue Pbuf Pcb W → ℤ × Glue Pbuf Pcb W
  pub netif_input : Pbuf → Glue Pbuf Pcb W → ℤ × Glue Pbuf Pcb W
  pub malloc : W → Bool × W
  pub tcp_arg : Pcb → Option ℕ → W → W
  pub tcp_set_cbs : Pcb → Bool → W → W
  pub tcp_listen : Pcb → W → Option Pcb × W
  pub tcp_accept : Pcb → W → W
  pub tcp_accepted : Pcb → W → W
  pub tcp_recved : Pcb → ℕ → W → W
  pub listening : Pcb → W → Bool
  pub refused_data : Pcb → W → Option Pbuf
  pub tcp_process_refused_data : Pcb → Glue Pbuf Pcb W → ℤ × Glue Pbuf Pcb W
  pub tcp_close : Pcb → Glue Pbuf Pcb W → ℤ × Glue Pbuf Pcb W
  pub tcp_abort : Pcb → Glue Pbuf Pcb W → Glue Pbuf Pcb W
  pub aknet_on_tcp_accept : ℕ → Pcb → Glue Pbuf Pcb W → ℤ × Glue Pbuf Pcb W
  pub aknet_on_tcp_rx : ℕ → Pbuf → Glue Pbuf Pcb W → ℤ × Glue Pbuf Pcb W
  pub aknet_on_tcp_eof : ℕ → Glue Pbuf Pcb W → Glue Pbuf Pcb W
  pub err_inprogress : ℤ
  pub htonl : ℕ → ℕ
  pub ntohl : ℕ → ℕ
  pub netif_set_addr : ℕ → Option ℕ → ℕ → W → W
  pub netif_ip4_gw : W → ℕ
  pub sys_check_timeouts : Glue Pbuf Pcb W → Glue Pbuf Pcb W
  pub sizeof_ip_hdr : ℕ
  pub ip_hdr_bytes : Pbuf → W → ℕ
  pub udp_new : W → Option Pcb × W
  pub udp_recv : Pcb → ℕ → W → W
  pub udp_bind : Pcb → ℕ → W → ℤ × W
  pub udp_connect : Pcb → ℕ → ℕ → W → ℤ × W
  pub udp_sendto : Pcb → Pbuf → ℕ → ℕ → Glue Pbuf Pcb W → ℤ × Glue Pbuf Pcb W
  pub udp_remove : Pcb → W → W
  pub udp_pcbs : W → List Pcb
  pub udp_local_port : Pcb → W → ℕ
  pub has_rx_cb : Pcb → W → Bool
  pub aknet_on_udp_rx : ℕ → ℕ → ℕ → List ℕ → Glue Pbuf Pcb W → Glue Pbuf Pcb W
  pub raw_new : W → Option Pcb × W
  pub raw_recv : Pcb → W → W
  pub raw_sendto : Pcb → Pbuf → ℕ → Glue Pbuf Pcb W → ℤ × Glue Pbuf Pcb W
  pub aknet_on_icmp_rx : ℕ → List ℕ → Glue Pbuf Pcb W → ℤ × Glue Pbuf Pcb W
  pub arp_table_size : ℕ
  pub etharp_get_entry : ℕ → W → Option (ℕ × List ℕ)
  pub dns_setserver : ℕ → ℕ → W → W
  pub dns_gethostbyname : List ℕ → ℕ → Glue Pbuf Pcb W → ℤ × ℕ × Glue Pbuf Pcb W
  pub aknet_on_dns_reply : ℕ → ℕ → Glue Pbuf Pcb W → Glue Pbuf Pcb W
  pub dhcp_start : Glue Pbuf Pcb W → ℤ × Glue Pbuf Pcb W
  pub dhcp_release_and_stop : Glue Pbuf Pcb W → Glue Pbuf Pcb W
  pub dhcp_supplied_address : W → ℤ
  pub dhcp_renew : Glue Pbuf Pcb W → ℤ × Glue Pbuf Pcb W
  pub netif_dhcp_data : W → Option ℕ
  pub tcp_new : W → Option Pcb × W
  pub tcp_bind : Pcb → ℕ → W → ℤ × W
  pub tcp_connect : Pcb → ℕ → ℕ → Glue Pbuf Pcb W → ℤ × Glue Pbuf Pcb W
  pub tcp_write : Pcb → List ℕ → W → ℤ × W
  pub tcp_output : Pcb → Glue Pbuf Pcb W → ℤ × Glue Pbuf Pcb W
  pub aknet_on_tcp_connected : ℕ → ℤ → Glue Pbuf Pcb W → Glue Pbuf Pcb W
  pub aknet_on_tcp_sent : ℕ → ℕ → Glue Pbuf Pcb W → Glue Pbuf Pcb W
  pub aknet_on_tcp_err : ℕ → ℤ → Glue Pbuf Pcb W → Glue Pbuf Pcb W
  pub tcp_state : Pcb → W → ℕ
  pub tcp_local_port : Pcb → W → ℕ
  pub tcp_remote_port : Pcb → W → ℕ
  pub tcp_remote_ip : Pcb → W → ℕ

-- A write to slot `i` of the ring.
abbrev pub update_slot : {A : Type 0} → (ℕ → A) → ℕ → A → ℕ → A
update_slot f i v j = if j == i then v else f j

-- The bytes that a length cast to `u16_t` counts.
abbrev pub low16 : List ℕ → List ℕ
low16 bytes = take (length bytes % 2 ^ 16) bytes
