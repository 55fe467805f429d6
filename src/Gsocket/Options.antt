-- ===== src/Gsocket/Options.antt =====
-- Socket options and control requests of userspace/gnat-rts/gnat_user/aegir_gsocket.c, and its calls
-- that have no implementation.
pub mod RoundTrip
use aegir.Prelude.{
  ℕ, ◌-◌, ◌*◌, ◌%◌, ◌^◌, ℤ, pos, negsuc, minus_one, eq_ℤ, Bool, not, ◌&&◌, Option, none, some, List,
  [], ◌∷◌, ◌++◌, length, ltb, ◌==◌, if◌then◌else◌,
}
use aegir.Gsocket.Consts.{sol_socket, so_error, fionbio, fionread, st_ok, nopt, max_payload}
use aegir.Gsocket.Errno.{eio, ebadf, einval, eopnotsupp, enobufs, enosys}
use aegir.Gsocket.Types.{Opt, State, Bridge, put, fail, ak_sticky_errno}
use aegir.Gsocket.Table.{get_sock}

-- The test `opts[i].level == level && opts[i].name == optname`.
abbrev pub is_opt : ℤ → ℤ → Opt → Bool
is_opt level optname o = eq_ℤ o.level level && eq_ℤ o.name optname

abbrev pub is_so_error : ℤ → ℤ → Bool
is_so_error level optname = eq_ℤ level (pos sol_socket) && eq_ℤ optname (pos so_error)

-- The value stored for an option, 0 if there is none.
unfoldable pub find_opt : ℤ → ℤ → List Opt → ℤ
find_opt level optname [] = pos 0
find_opt level optname (o ∷ opts) =
    if is_opt level optname o then o.val else find_opt level optname opts

-- The options with the first entry of that key changed; `none` if there is no such entry.
unfoldable pub replace_opt : ℤ → ℤ → ℤ → List Opt → Option (List Opt)
replace_opt level optname val [] = none
replace_opt level optname val (o ∷ opts) =
    let rest = replace_opt level optname val opts in
    if is_opt level optname o
    then some (record o { val = val } ∷ opts)
    else elim rest [ none ↦ none | some os ↦ some (o ∷ os) ]

-- The low 32 bits of a word as an `int`.
abbrev pub to_int : ℕ → ℤ
to_int n = let w = n % 2 ^ 32 in if ltb w (2 ^ 31) then pos w else negsuc (2 ^ 32 - w - 1)

module _ {W : Type 0} where
  unfoldable pub setsockopt : ℤ → ℤ → ℤ → ℤ → State W → ℤ × State W
  setsockopt fd level optname optval s = elim (get_sock s fd) [
    | none ↦ fail ebadf s
    | some i ↦
        let e = s.ak_fds i in
        if is_so_error level optname
        then fail einval s
        else elim (replace_opt level optname optval e.opts) [
          | some os ↦ (pos 0, put i (record e { opts = os }) s)
          | none ↦ if length e.opts == nopt then fail enobufs s else (
            pos 0,
            put i
                (record e {
                  opts = e.opts ++ record { level = level; name = optname; val = optval } ∷ [];
                })
                s,
          )
        ]
  ]

module _ {W : Type 0} ⦃b : Bridge W⦄ where
  -- Beside the result, the value stored through `optval`. The bridge keeps its error word, so
  -- SO_ERROR compares it with the last one that was reported.
  unfoldable pub getsockopt : ℤ → ℤ → ℤ → State W → ℤ × Option ℤ × State W
  getsockopt fd level optname s = elim (get_sock s fd) [
    | none ↦ (minus_one, none, record s { errno = ebadf })
    | some i ↦
        let e = s.ak_fds i in
        if is_so_error level optname
        then (let p = b.sock_poll e.handle s.net in
            let new = p.status == st_ok && not (p.error == 0) && not (p.error == e.last_so_err) in
            (
              pos 0,
              some (pos (if new then ak_sticky_errno p.error else 0)),
              put i (record e { last_so_err = p.error }) (record s { net = p.net }),
            ))
        else (pos 0, some (find_opt level optname e.opts), s)
  ]

  -- Beside the result, what `arg` points to afterwards.
  unfoldable pub gnat_socket_ioctl : ℤ → ℤ → ℤ → State W → ℤ × ℤ × State W
  gnat_socket_ioctl fd req arg s = elim (get_sock s fd) [
    | none ↦ (minus_one, arg, record s { errno = ebadf })
    | some i ↦
        let e = s.ak_fds i in
        if eq_ℤ req (pos fionbio)
        then (pos 0, arg, put i (record e { nonblock = not (eq_ℤ arg (pos 0)) }) s)
        else if eq_ℤ req (pos fionread)
        then (let p = b.sock_poll e.handle s.net in
            let s1 = record s { net = p.net } in
            if p.status == st_ok
            then (pos 0, to_int (p.rx_level * max_payload % 2 ^ 64), s1)
            else (minus_one, arg, record s1 { errno = eio }))
        else (minus_one, arg, record s { errno = einval })
  ]

module _ {W : Type 0} where
  unfoldable pub socketpair : State W → ℤ × State W
  socketpair s = fail eopnotsupp s

  unfoldable pub recvmsg : State W → ℤ × State W
  recvmsg s = fail enosys s

  unfoldable pub sendmsg : State W → ℤ × State W
  sendmsg s = fail enosys s

  -- "aegir" with its NUL, if the buffer holds it.
  unfoldable pub gethostname : ℕ → State W → ℤ × Option (List ℕ) × State W
  gethostname namelen s =
      if ltb namelen 6
      then (minus_one, none, record s { errno = einval })
      else (pos 0, some (b'a' ∷ b'e' ∷ b'g' ∷ b'i' ∷ b'r' ∷ 0 ∷ []), s)
