-- ===== src/Gsocket/Consts.antt =====
-- The constants of userspace/gnat-rts/gnat_user/aegir_gsocket.c, under its names less `AK_`.
use aegir.Prelude.{ℕ}

abbrev pub af_inet : ℕ
af_inet = 2

abbrev pub sock_stream : ℕ
sock_stream = 1

abbrev pub sock_dgram : ℕ
sock_dgram = 2

abbrev pub ipproto_icmp : ℕ
ipproto_icmp = 1

abbrev pub ipproto_tcp : ℕ
ipproto_tcp = 6

abbrev pub ipproto_udp : ℕ
ipproto_udp = 17

abbrev pub sol_socket : ℕ
sol_socket = 1

abbrev pub so_error : ℕ
so_error = 4

abbrev pub fionbio : ℕ
fionbio = 0x5421

abbrev pub fionread : ℕ
fionread = 0x541B

abbrev pub pollin : ℕ
pollin = 1

abbrev pub pollout : ℕ
pollout = 4

abbrev pub pollerr : ℕ
pollerr = 8

abbrev pub pollnval : ℕ
pollnval = 32

-- Bridge protocol statuses.
abbrev pub st_ok : ℕ
st_ok = 0

abbrev pub st_timeout : ℕ
st_timeout = 1

abbrev pub st_not_ready : ℕ
st_not_ready = 2

abbrev pub st_bad_args : ℕ
st_bad_args = 3

-- Bridge sticky error words.
abbrev pub err_hairpin : ℕ
err_hairpin = 1

abbrev pub err_arp : ℕ
err_arp = 2

abbrev pub err_refused : ℕ
err_refused = 4

abbrev pub err_cxtime : ℕ
err_cxtime = 5

abbrev pub err_reset : ℕ
err_reset = 6

-- Time: 10 MHz ticks.
abbrev pub tick_hz : ℕ
tick_hz = 10000000

abbrev pub slice : ℕ
slice = 50000

abbrev pub fd_first : ℕ
fd_first = 3

abbrev pub fd_max : ℕ
fd_max = 256

abbrev pub fdset_bytes : ℕ
fdset_bytes = 32

abbrev pub max_payload : ℕ
max_payload = 996

-- netdb codes.
abbrev pub host_not_found : ℕ
host_not_found = 1

abbrev pub try_again : ℕ
try_again = 2

abbrev pub no_data : ℕ
no_data = 4

-- Entries of `opts` in a socket.
abbrev pub nopt : ℕ
nopt = 8
