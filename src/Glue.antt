-- ===== src/Glue.antt =====
-- userspace/lwip/port/aknet_glue.c: the adapter between netserv and the lwIP raw API.
pub mod Types
pub mod Hairpin
pub mod Datagram
pub mod Services
pub mod Listen
pub mod Tcp
mod Toy
mod Tests
