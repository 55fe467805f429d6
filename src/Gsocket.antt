-- ===== src/Gsocket.antt =====
-- userspace/gnat-rts/gnat_user/aegir_gsocket.c: the C port layer under GNAT.Sockets.
pub mod Consts
pub mod Errno
pub mod Types
pub mod Table
pub mod Calls
pub mod Stream
pub mod Send
pub mod Options
pub mod Signal
pub mod FdSet
pub mod Ready
pub mod Dotted
pub mod Netdb
pub mod Addrinfo
mod Toy
mod Tests
