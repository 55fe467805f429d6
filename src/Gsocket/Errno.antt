-- ===== src/Gsocket/Errno.antt =====
-- The errno values that userspace/gnat-rts/gnat_user/aegir_gsocket.c stores: newlib's, as
-- userspace/gnat-rts/gnat_user/s-oscons.ads lists them.
use aegir.Prelude.{ℕ}

abbrev pub enoerror : ℕ
enoerror = 0

abbrev pub eio : ℕ
eio = 5

abbrev pub ebadf : ℕ
ebadf = 9

abbrev pub ewouldblock : ℕ
ewouldblock = 11

abbrev pub einval : ℕ
einval = 22

abbrev pub emfile : ℕ
emfile = 24

abbrev pub enospc : ℕ
enospc = 28

abbrev pub epipe : ℕ
epipe = 32

abbrev pub enosys : ℕ
enosys = 88

abbrev pub eopnotsupp : ℕ
eopnotsupp = 95

abbrev pub econnreset : ℕ
econnreset = 104

abbrev pub enobufs : ℕ
enobufs = 105

abbrev pub eafnosupport : ℕ
eafnosupport = 106

abbrev pub econnrefused : ℕ
econnrefused = 111

abbrev pub eaddrinuse : ℕ
eaddrinuse = 112

abbrev pub enetdown : ℕ
enetdown = 115

abbrev pub etimedout : ℕ
etimedout = 116

abbrev pub ehostunreach : ℕ
ehostunreach = 118

abbrev pub edestaddrreq : ℕ
edestaddrreq = 121

abbrev pub emsgsize : ℕ
emsgsize = 122

abbrev pub eaddrnotavail : ℕ
eaddrnotavail = 125

abbrev pub enotconn : ℕ
enotconn = 128
