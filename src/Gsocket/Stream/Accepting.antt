-- ===== src/Gsocket/Stream/Accepting.antt =====
-- Accepting a connection: its handle has a descriptor, or is given back.
use aegir.Prelude.{
  ℕ, ◌%◌, ℤ, minus_one, Bool, true, false, not, is_neg, Option, none, some, ◌≡◌, ◌≢◌, inl, inr,
  refl, arith, Option-cases, Bool-cases, ◌==◌, if◌then◌else◌,
}
use aegir.Prelude.Loop.{Turn, done, again, loop, Allows, Keeps, loop-Allows}
use aegir.Gsocket.Consts.{st_ok, st_not_ready}
use aegir.Gsocket.Errno.{eio, einval, ewouldblock}
use aegir.Gsocket.Types.{SockaddrIn, State, Bridge, mk_sockaddr, ak_sleep_slice}
use aegir.Gsocket.Table.{get_sock}
use aegir.Gsocket.Calls.{install}
use aegir.Gsocket.Calls.Handles.{IsIssuer, Owns, same-Owns, Pending}
use aegir.Gsocket.Calls.Handles.Opening.{fresh-Pending, install-Owns, failed-Owns}
use aegir.Gsocket.Stream.{accept_turn, accept, accepted}

-- What waiting for a connection does to the set `live` of the handles that are open.
pub record IsAcceptor (W : Type 0) ⦃b : Bridge W⦄ (live : ℕ → W → Bool) : Type 0 where
  pub issuer : IsIssuer W live
  pub accepts :
      (h k : ℕ) (w : W)
      → let r = b.sock_accept h w in
        r.status ≡ st_ok
        → (live r.new_handle w ≡ false)
          × (live k r.net ≡ (if k == r.new_handle then true else live k w))
  pub idles :
      (h k : ℕ) (w : W)
      → (b.sock_accept h w).status ≢ st_ok
      → live k (b.sock_accept h w).net ≡ live k w
  pub sleeps : (d k : ℕ) (w : W) → live k (b.sleep_until d w) ≡ live k w

module _ {W : Type 0} ⦃b : Bridge W⦄ (live : ℕ → W → Bool) (c : IsAcceptor W live) where
  -- What the wait of `accept` leaves: a handle that no descriptor holds yet, or no new one.
  abbrev Waited : Option (ℕ × ℕ × ℕ) → State W → Type 0
  Waited none s = Owns live s
  Waited (some (h, ip, port)) s = Pending live h s

  idle-Owns :
      (h : ℕ) (s : State W)
      → Owns live s
      → (b.sock_accept h s.net).status ≢ st_ok
      → Owns live (record s { net = (b.sock_accept h s.net).net })
  idle-Owns h s w n = same-Owns live s _ (λ j. refl) (λ k. c.idles h k s.net n) w

  ak_sleep_slice-Owns : (s : State W) → Owns live s → Owns live (ak_sleep_slice s)
  unfolding ak_sleep_slice
  ak_sleep_slice-Owns s w = same-Owns live s _ (λ j. refl) (λ k. c.sleeps _ k s.net) w

  idle_cases :
      (i : ℕ) (s : State W) (st : ℕ) (nonblock : Bool)
      → Owns live s
      → let t : Turn (Option (ℕ × ℕ × ℕ)) (State W) =
          if not (st == st_not_ready)
          then done none (record s { errno = eio })
          else if nonblock
          then done none (record s { errno = ewouldblock })
          else again (ak_sleep_slice s) in
        Keeps (Owns live) Waited t
  idle_cases i s st nonblock w = elim (Bool-cases (st == st_not_ready)) [
    | inr e ↦ rw e (failed-Owns live c.issuer eio s w)
    | inl e ↦ elim (Bool-cases nonblock) [
      | inl n ↦ rw (e, n) (failed-Owns live c.issuer ewouldblock s w)
      | inr n ↦ rw (e, n) (ak_sleep_slice-Owns s w)
    ]
  ]

  accept_turn-Keeps :
      (i : ℕ) (s : State W) → Owns live s → Keeps (Owns live) Waited (accept_turn i s)
  unfolding accept_turn
  accept_turn-Keeps i s w =
      let h = (s.ak_fds i).handle in
      let r = b.sock_accept h s.net in
      let s1 = record s { net = r.net } in
      elim (Bool-cases (r.status == st_ok)) [
        | inl e ↦
            let q : r.status ≡ st_ok = ground arith in
            rw e (
              fresh-Pending live c.issuer r.new_handle s r.net w (c.accepts h 0 s.net q).0
                (λ k. (c.accepts h k s.net q).1))
        | inr e ↦
            let n : r.status ≢ st_ok = ground arith in
            let w1 : Owns live s1 = idle-Owns h s w n in
            rw e (idle_cases i s1 r.status (s.ak_fds i).nonblock w1)
      ]

  -- A descriptor for what was accepted.
  accept_done :
      (i : ℕ) (r : Option ((Option (ℕ × ℕ × ℕ)) × State W))
      → Allows Waited r
      → let out : Option ((ℤ × Option SockaddrIn) × State W) = elim r [
        | none ↦ none
        | some (none, s1) ↦ some ((minus_one, none), s1)
        | some (some (nh, ip, port), s1) ↦
            let (nfd, s2) = install nh (accepted (s1.ak_fds i) nh ip port) s1 in
            let out = if is_neg nfd then none else some (mk_sockaddr (port % 65536) ip) in
            some ((nfd, out), s2)
      ] in
        Allows (λ o t. Owns live t) out
  accept_done i none a = tt
  accept_done i (some (none, s1)) a = a
  accept_done i (some (some (nh, ip, port), s1)) a =
      install-Owns live c.issuer nh (accepted (s1.ak_fds i) nh ip port) s1
        (record { used = λ e. refl; kind = λ e. refl; handle = λ e. refl }) a

  -- Whenever `accept` returns, after any number of rounds and whether or not it got a connection, a
  -- descriptor and the memory for it, open descriptors and open handles are still in step.
  pub accept-Owns :
      (fuel : ℕ) (fd : ℤ) (s : State W)
      → Owns live s
      → Allows (λ (o : ℤ × Option SockaddrIn) t. Owns live t) (accept fuel fd s)
  unfolding accept
  accept-Owns fuel fd s w = elim (Option-cases (get_sock s fd)) [
    | inl q ↦ rw (q, accept) (failed-Owns live c.issuer einval s w)
    | inr (i, q) ↦ elim (Bool-cases (s.ak_fds i).listening) [
      | inr l ↦ rw (q, l, accept) (failed-Owns live c.issuer einval s w)
      | inl l ↦
          rw (q, l, accept)
            (accept_done i (loop fuel (accept_turn i) s)
              (loop-Allows (Owns live) Waited (accept_turn i) (accept_turn-Keeps i) fuel s w))
    ]
  ]
