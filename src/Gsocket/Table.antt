-- ===== src/Gsocket/Table.antt =====
-- The fd table of userspace/gnat-rts/gnat_user/aegir_gsocket.c: lookup and allocation.
pub mod Laws
use aegir.Prelude.{
  ℕ, zero, suc, ◌+◌, ◌-◌, ℤ, pos, negsuc, Bool, true, false, not, ◌&&◌, ◌||◌, Option, none, some,
  ltb, leb, if◌then◌else◌, minus_one,
}
use aegir.Gsocket.Consts.{fd_first, fd_max}
use aegir.Gsocket.Errno.{emfile}
use aegir.Gsocket.Types.{Sock, zero_sock, is_sock, State, put, fail}

-- What `ak_alloc` leaves in the entry that it takes.
abbrev pub fresh_sock : Sock
fresh_sock = record zero_sock { used = true; partner = minus_one }

module _ {W : Type 0} where
  -- A pointer into `ak_fds` is an index; NULL is `none`.
  unfoldable pub ak_get : State W → ℤ → Option ℕ
  ak_get s (negsuc n) = none
  ak_get s (pos n) =
      if ltb n fd_first || leb fd_max n || not (s.ak_fds n).used then none else some n

  -- The guard `s == NULL || s->kind != AK_KIND_SOCK` that most calls begin with.
  unfoldable pub get_sock : State W → ℤ → Option ℕ
  unfolding ak_get
  get_sock s fd = elim (ak_get s fd) [
    | none ↦ none
    | some i ↦ if is_sock (s.ak_fds i).kind then some i else none
  ]

  -- `for (fd = AK_FD_FIRST; fd < AK_FD_MAX; fd++)`, by the rounds that are left.
  pub find_free : State W → ℕ → ℕ → Option ℕ
  find_free s zero fd = none
  find_free s (suc rounds) fd =
      let rest = find_free s rounds (fd + 1) in if (s.ak_fds fd).used then rest else some fd

  unfoldable pub ak_alloc : State W → Option ℕ × State W
  unfolding find_free
  ak_alloc s = elim (find_free s (fd_max - fd_first) fd_first) [
    | none ↦ (none, record s { errno = emfile })
    | some fd ↦ (some fd, put fd fresh_sock s)
  ]
