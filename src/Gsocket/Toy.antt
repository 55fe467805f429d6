-- ===== src/Gsocket/Toy.antt =====
-- A concrete network behind the bridge, for tests: handles are handed out in order, one clock ticks by
-- sleeping, every socket polls alike, and the heap grants a number of blocks.
use aegir.Prelude.{
  ℕ, ◌+◌, ◌-◌, ◌++◌, Bool, true, false, none, List, [], take, length, ltb, leb, if◌then◌else◌, ◌==◌,
}
use aegir.Gsocket.Types.{Bridge, State, zero_sock}

pub record Net : Type 0 where
  pub clock : ℕ
  pub issued : ℕ
  pub in_use : ℕ → Bool
  pub attached : ℕ
  pub inbox : List ℕ
  pub outbox : List ℕ
  pub blocks : ℕ

abbrev pub net0 : Net
net0 = record {
  clock = 100;
  issued = 0;
  in_use = λ h. false;
  attached = 0;
  inbox = [];
  outbox = [];
  blocks = 10;
}

-- The next handle, unless it is in use.
abbrev issue : Bool → Net → ℕ × ℕ × Net
issue true w = (1, 0, w)
issue false w =
    let h = w.issued + 1 in
    (0, h, record w { issued = h; in_use = λ k. if k == h then true else w.in_use k })

-- A full ring refuses, for ever: nobody takes the bytes out.
abbrev pub send_if : Bool → List ℕ → Net → ℕ × Net
send_if true bytes w = (0, record w { outbox = w.outbox ++ bytes })
send_if false bytes w = (2, w)

instance abbrev pub toy : Bridge Net
toy = record {
  sock_endpoint = λ w. w.attached;
  sock_attach = λ h w. record w { attached = h };
  sock_socket = λ p w. issue (w.in_use (w.issued + 1)) w;
  sock_bind = λ h port w. (0, if port == 0 then 49152 else port, w);
  sock_connect = λ h ip port w. (0, w);
  sock_listen = λ h n w. (0, w);
  sock_accept = λ h w.
      let (st, nh, w') = issue (w.in_use (w.issued + 1)) w in
      record { status = st; new_handle = nh; peer_ip = 0x0A000202; peer_port = 4000; net = w' };
  sock_sendto = λ h bytes ip port w. send_if (leb (length w.outbox) 1024) bytes w;
  sock_recvfrom = λ h max t w. record {
    status = if length w.inbox == 0 then 1 else 0;
    bytes = take max w.inbox;
    src_ip = 0x0A000202;
    src_port = 53;
    net = record w { inbox = [] };
  };
  sock_poll =
      λ h w. record { status = 0; rx_level = length w.inbox; tx_free = 4; error = 0; net = w };
  sock_close = λ h w. record w { in_use = λ k. if k == h then false else w.in_use k };
  sock_resolve = λ name w. (0, 0x7F000001, w);
  sleep_until = λ d w. record w { clock = if ltb w.clock d then d else w.clock };
  malloc = λ w. (ltb 0 w.blocks, record w { blocks = w.blocks - 1 });
  read_address = λ w. none;
  rdtime = λ w. w.clock;
}

-- The state at the start of a program.
abbrev pub start : State Net
start = record {
  ak_fds = λ i. zero_sock;
  errno = 0;
  ak_h_errno = 0;
  ak_he = record { h_name = []; h_aliases = []; h_addrtype = 0; h_length = 0; h_addr_list = [] };
  ak_se = record { s_name = []; s_aliases = []; s_port = 0; s_proto = [] };
  live = 0;
  net = net0;
}
