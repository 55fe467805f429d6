-- ===== src/Gsocket/Calls/Handles/Opening.antt =====
-- Opening a socket: its descriptor holds the handle, or the handle is given back.
use aegir.Prelude.{
  ℕ, ℤ, pos, minus_one, eq_ℤ, Bool, true, false, Option, none, some, ◌≡◌, ◌≢◌, ◌⊎◌, inl, inr, refl,
  ap, ◌∙◌, arith, Option-cases, Bool-cases, ◌==◌, if◌then◌else◌,
}
use native.Mathlib.Decide.{ℕ_discrete}
use aegir.Gsocket.Consts.{st_ok, af_inet}
use aegir.Gsocket.Errno.{enetdown, eafnosupport, eopnotsupp, enobufs}
use aegir.Gsocket.Types.{Sock, sock, State, Bridge, put, ak_ensure_net}
use aegir.Gsocket.Table.{ak_alloc, fresh_sock}
use aegir.Gsocket.Table.Laws.{IsOpen, Allocated, ak_alloc-Allocated}
use aegir.Gsocket.Calls.{install, socket, socket_proto}
use aegir.Gsocket.Calls.Handles.{IsIssuer, Owns, same-IsOpen, same-Owns, Pending, put-Owns}

module _ {W : Type 0} ⦃b : Bridge W⦄ (live : ℕ → W → Bool) (c : IsIssuer W live) where
  refused-Owns :
      (h : ℕ) (s : State W) → Pending live h s → Owns live (record s { net = b.sock_close h s.net })
  refused-Owns h s p =
      let t = record s { net = b.sock_close h s.net } in
      record {
        owner = λ k l. let (ne, m) = refused_live h k s l in found h k s ne (p.owner k m);
        held = λ i o.
            let os = same-IsOpen live t s i (λ j. refl) o in
            let l = p.held i os in
            let ne = p.alone i os in ground (arith, c.closes h (s.ak_fds i).handle s.net, l, ne);
        once = λ i j oi oj q.
            p.once i j (same-IsOpen live t s i (λ k. refl) oi)
              (same-IsOpen live t s j (λ k. refl) oj) q;
      }
    where
      refused_live :
          (h k : ℕ) (s : State W)
          → live k (b.sock_close h s.net) ≡ true
          → (k ≢ h) × (live k s.net ≡ true)
      refused_live h k s e = ground (arith, c.closes h k s.net, e)

      found :
          (h k : ℕ) (s : State W)
          → k ≢ h
          → (k ≡ h) ⊎ ((i : ℕ) × IsOpen s i × ((s.ak_fds i).handle ≡ k))
          → let t = record s { net = b.sock_close h s.net } in
            (i : ℕ) × IsOpen t i × ((t.ak_fds i).handle ≡ k)
      found h k s ne (inl e) = absurd (ne e)
      found h k s ne (inr (i, o, q)) = (i, same-IsOpen live s _ i (λ j. refl) o, q)

  -- What the call writes into a fresh entry.
  pub record Fills (h : ℕ) (fill : Sock → Sock) : Type 0 where
    pub used : (e : Sock) → (fill e).used ≡ e.used
    pub kind : (e : Sock) → (fill e).kind ≡ sock
    pub handle : (e : Sock) → (fill e).handle ≡ h

  install_took :
      (h : ℕ) (fill : Sock → Sock) (s : State W) (out : Option ℕ × State W)
      → Fills h fill
      → Pending live h s
      → Allocated s out
      → let r : ℤ × State W = elim out.0 [
        | none ↦ (minus_one, record out.1 { net = b.sock_close h out.1.net })
        | some fd ↦ (pos fd, put fd (fill (out.1.ak_fds fd)) out.1)
      ] in
        Owns live r.1
  install_took h fill s (none, t) f p (full, e) = rw e (
      same-Owns live (record s { net = b.sock_close h s.net }) _ (λ j. refl) (λ k. refl)
        (refused-Owns h s p))
  install_took h fill s (some i, t) f p (lo, hi, un, first, e) =
      let v = fill ((put i fresh_sock s).ak_fds i) in
      let u : ((put i fresh_sock s).ak_fds i).used ≡ true = ground arith in
      rw e (
        same-Owns live (put i v s) _ (λ j. ground arith) (λ k. refl)
          (put-Owns live s i h v un p lo hi (f.used _ ∙ u) (f.kind _) (f.handle _)))

  pub install-Owns :
      (h : ℕ) (fill : Sock → Sock) (s : State W)
      → Fills h fill
      → Pending live h s
      → Owns live (install h fill s).1
  unfolding install
  install-Owns h fill s f p = install_took h fill s (ak_alloc s) f p (ak_alloc-Allocated s)

  -- A handle that was not open and now is.
  pub fresh-Pending :
      (h : ℕ) (s : State W) (w : W)
      → Owns live s
      → live h s.net ≡ false
      → ((k : ℕ) → live k w ≡ (if k == h then true else live k s.net))
      → Pending live h (record s { net = w })
  fresh-Pending h s w o f g =
      let t = record s { net = w } in
      record {
        owner = λ k l. elim (ℕ_discrete k h) [
          | yes q ↦ inl q
          | no ne ↦
              let m : live k s.net ≡ true = ground (arith, g k, l, ne) in
              let (i, oi, q) = o.owner k m in inr (i, same-IsOpen live s t i (λ j. refl) oi, q)
        ];
        held = λ i oi.
            let m = o.held i (same-IsOpen live t s i (λ j. refl) oi) in
            ground (arith, g (s.ak_fds i).handle, m);
        once = λ i j oi oj q.
            o.once i j (same-IsOpen live t s i (λ k. refl) oi)
              (same-IsOpen live t s j (λ k. refl) oj) q;
        new = ground (arith, g h);
        alone = λ i oi q.
            let m = o.held i (same-IsOpen live t s i (λ j. refl) oi) in
            let e : live (s.ak_fds i).handle s.net ≡ live h s.net = ap (λ k. live k s.net) q in
            ground (arith, f, m, e);
      }

  -- A handle that the bridge has just issued.
  issued-Pending :
      (p : ℕ) (s : State W)
      → Owns live s
      → (b.sock_socket p s.net).0 ≡ st_ok
      → let (st, h, w) = b.sock_socket p s.net in Pending live h (record s { net = w })
  issued-Pending p s w e =
      fresh-Pending _ s _ w (c.issues p 0 s.net e).0 (λ k. (c.issues p k s.net e).1)

  denied-Owns :
      (p e : ℕ) (s : State W)
      → Owns live s
      → (b.sock_socket p s.net).0 ≢ st_ok
      → Owns live (record s { net = (b.sock_socket p s.net).2; errno = e })
  denied-Owns p e s w n = same-Owns live s _ (λ j. refl) (λ k. c.denies p k s.net n) w

  ak_ensure_net-Owns : (s : State W) → Owns live s → Owns live (ak_ensure_net s).1
  unfolding ak_ensure_net
  ak_ensure_net-Owns s w =
      same-Owns live s _ (λ j. refl) (λ k. ground (arith, c.attaches 6 k s.net)) w

  pub failed-Owns : (e : ℕ) (s : State W) → Owns live s → Owns live (record s { errno = e })
  failed-Owns e s w = same-Owns live s _ (λ j. refl) (λ k. refl) w

  asked-Owns :
      (p : ℕ) (s : State W)
      → Owns live s
      → let (st, h, w) = b.sock_socket p s.net in
        let s1 = record s { net = w } in
        let r : ℤ × State W =
          if st == st_ok
          then install h (λ e. record e { kind = sock; proto = p; handle = h }) s1
          else (minus_one, record s1 { errno = enobufs }) in
        Owns live r.1
  asked-Owns p s w = elim (Bool-cases ((b.sock_socket p s.net).0 == st_ok)) [
    | inl e ↦ rw e (
        install-Owns _ _ _ (record { used = λ e. refl; kind = λ e. refl; handle = λ e. refl })
          (issued-Pending p s w (ground arith)))
    | inr e ↦ rw e (denied-Owns p enobufs s w (ground arith))
  ]

  socket_cases :
      (domain type protocol : ℤ) (s : State W)
      → Owns live (ak_ensure_net s).1
      → Owns live (socket domain type protocol s).1
  unfolding socket
  socket_cases domain type protocol s w = elim (Bool-cases (ak_ensure_net s).0) [
    | inr e ↦ rw (e, socket) (failed-Owns enetdown _ w)
    | inl e ↦ elim (Bool-cases (eq_ℤ domain (pos af_inet))) [
      | inr d ↦ rw (e, d, socket) (failed-Owns eafnosupport _ w)
      | inl d ↦ elim (Option-cases (socket_proto type protocol)) [
        | inl q ↦ rw (e, d, q, socket) (failed-Owns eopnotsupp _ w)
        | inr (p, q) ↦ rw (e, d, q, socket) (asked-Owns p _ w)
      ]
    ]
  ]

  -- Opening a socket keeps open descriptors and open handles in step on every path: also where the
  -- bridge refuses, or where the descriptor table is full and the fresh handle is given back.
  pub socket-Owns :
      (domain type protocol : ℤ) (s : State W)
      → Owns live s
      → Owns live (socket domain type protocol s).1
  socket-Owns domain type protocol s w =
      let s0 = (ak_ensure_net s).1 in
      let w0 : Owns live s0 = ak_ensure_net-Owns s w in socket_cases domain type protocol s w0
