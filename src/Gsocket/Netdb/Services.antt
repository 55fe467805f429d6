-- ===== src/Gsocket/Netdb/Services.antt =====
-- The services table: lookups by name and by port agree.
use aegir.Prelude.{ℕ, pos, some, List, ◌≡◌, arith}
use aegir.Gsocket.Types.{ak_sw16}
use aegir.Gsocket.Netdb.{Svent, ak_services, by_name, by_port}

-- A service found by its name is the one found by its port, whether the port is given in host or in
-- network order.
pub by_port-by_name :
    (name : List ℕ) (v : Svent)
    → by_name name ak_services ≡ some v
    → (by_port (pos v.port) ak_services ≡ some v)
      × (by_port (pos (ak_sw16 v.port)) ak_services ≡ some v)
unfolding by_name by_port ak_sw16
by_port-by_name name v e = ground arith
