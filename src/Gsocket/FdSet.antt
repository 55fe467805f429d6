-- ===== src/Gsocket/FdSet.antt =====
-- The fd_set helpers of userspace/gnat-rts/gnat_user/aegir_gsocket.c: bit arrays of 32 bytes over
-- the descriptors 0..255. The callers keep a descriptor in that range, as in C.
pub mod Laws
use Prim.Native.Nat.{bit_and, bit_or}
use aegir.Prelude.{
  ℕ, zero, suc, ◌-◌, ◌/◌, ◌%◌, ◌^◌, ℤ, pos, minus_one, Bool, true, false, List, get_or, set,
  replicate, ◌==◌, if◌then◌else◌,
}
use aegir.Gsocket.Consts.{fdset_bytes}

abbrev pub FdSet : Type 0
FdSet = List ℕ

unfoldable pub ak_isset : FdSet → ℕ → Bool
ak_isset s fd = get_or s (fd / 8) 0 / 2 ^ (fd % 8) % 2 == 1

unfoldable pub ak_setbit : FdSet → ℕ → FdSet
ak_setbit s fd = set s (fd / 8) (bit_or (get_or s (fd / 8) 0) (2 ^ (fd % 8)))

-- `~(1 << k)` of a byte is 255 less the bit.
unfoldable pub ak_clrbit : FdSet → ℕ → FdSet
ak_clrbit s fd = set s (fd / 8) (bit_and (get_or s (fd / 8) 0) (255 - 2 ^ (fd % 8)))

-- `for (s = last; s >= 0; s--)`: the highest member up to `last`, -1 if there is none.
unfoldable pub last_from : FdSet → ℕ → ℤ
last_from s zero = if ak_isset s zero then pos zero else minus_one
last_from s (suc k) = let rest = last_from s k in if ak_isset s (suc k) then pos (suc k) else rest

unfoldable pub last_socket_in_set : FdSet → ℤ → ℤ
unfolding last_from
last_socket_in_set s (pos last) = last_from s last
last_socket_in_set s last = minus_one

-- The highest member is taken out; the next one replaces `last`. The result is `(*sk, *last)`.
unfoldable pub get_socket_from_set : FdSet → ℕ → ℕ × ℤ × FdSet
get_socket_from_set s last =
    let s1 = ak_clrbit s last in (last, last_socket_in_set s1 (pos last), s1)

unfoldable pub insert_socket_in_set : FdSet → ℕ → FdSet
insert_socket_in_set s sk = ak_setbit s sk

unfoldable pub is_socket_in_set : FdSet → ℕ → Bool
is_socket_in_set s sk = ak_isset s sk

unfoldable pub remove_socket_from_set : FdSet → ℕ → FdSet
remove_socket_from_set s sk = ak_clrbit s sk

unfoldable pub reset_socket_set : FdSet → FdSet
reset_socket_set s = replicate fdset_bytes 0
