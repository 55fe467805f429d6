-- ===== src/Gsocket/Signal.antt =====
-- The signalling pairs of userspace/gnat-rts/gnat_user/aegir_gsocket.c: two entries of the fd table
-- that know each other, for the abort of a selector.
pub mod Pair
use aegir.Prelude.{
  ℕ, ◌+◌, ◌-◌, ◌%◌, ◌^◌, ℤ, pos, minus_one, Bool, true, false, Option, none, some, ◌==◌,
  if◌then◌else◌,
}
use aegir.Gsocket.Errno.{ebadf, ewouldblock, epipe}
use aegir.Gsocket.Types.{Kind, sigr, sigw, State, put, fail}
use aegir.Gsocket.Table.{ak_get, ak_alloc}

abbrev pub is_sigr : Kind → Bool
is_sigr sigr = true
is_sigr _ = false

abbrev pub is_sigw : Kind → Bool
is_sigw sigw = true
is_sigw _ = false

module _ {W : Type 0} where
  -- The pair is `(fds[0], fds[1])`, the read end first. With one entry left it is given back.
  unfoldable pub create_signalling_fds : State W → ℤ × Option (ℕ × ℕ) × State W
  create_signalling_fds s =
      let (first, s1) = ak_alloc s in
      elim first [
        | none ↦ (minus_one, none, s1)
        | some r ↦
            let (second, s2) = ak_alloc s1 in
            elim second [
              | none ↦ (minus_one, none, put r (record (s2.ak_fds r) { used = false }) s2)
              | some w ↦
                  let s3 = put r (record (s2.ak_fds r) { kind = sigr; partner = pos w }) s2 in
                  let s4 = put w (record (s3.ak_fds w) { kind = sigw; partner = pos r }) s3 in
                  (pos 0, some (r, w), s4)
            ]
      ]

  -- `sig_count` is an `unsigned int`.
  unfoldable pub read_signalling_fd : ℤ → State W → ℤ × State W
  read_signalling_fd rsig s = elim (ak_get s rsig) [
    | none ↦ fail ebadf s
    | some i ↦
        let e = s.ak_fds i in
        if is_sigr e.kind
        then if e.sig_count == 0
          then fail ewouldblock s
          else (pos 1, put i (record e { sig_count = e.sig_count - 1 }) s)
        else fail ebadf s
  ]

  unfoldable pub write_signalling_fd : ℤ → State W → ℤ × State W
  write_signalling_fd wsig s = elim (ak_get s wsig) [
    | none ↦ fail ebadf s
    | some i ↦
        if is_sigw (s.ak_fds i).kind
        then elim (ak_get s (s.ak_fds i).partner) [
          | none ↦ fail epipe s
          | some j ↦
              let r = s.ak_fds j in
              (pos 1, put j (record r { sig_count = (r.sig_count + 1) % 2 ^ 32 }) s)
        ]
        else fail ebadf s
  ]

  unfoldable pub close_signalling_fd : ℤ → State W → State W
  close_signalling_fd sig s = elim (ak_get s sig) [
    | none ↦ s
    | some i ↦ put i (record (s.ak_fds i) { used = false }) s
  ]
