-- ===== src/Gsocket/Calls/Handles.antt =====
-- The handles that the bridge hands out: every one is held by one open descriptor until it is closed.
pub mod Closing
pub mod Opening
use aegir.Prelude.{
  ℕ, ◌≤◌, ◌<◌, ℤ, pos, minus_one, eq_ℤ, Bool, true, false, Option, none, some, ◌≡◌, ◌≢◌, ◌⊎◌, inl,
  inr, refl, sym, ◌∙◌, ap, arith, Option-cases, Bool-cases, ◌==◌, if◌then◌else◌,
}
use native.Mathlib.Decide.{ℕ_discrete}
use aegir.Gsocket.Consts.{st_ok, af_inet}
use aegir.Gsocket.Errno.{enetdown, eafnosupport, eopnotsupp, enobufs}
use aegir.Gsocket.Types.{Sock, sock, State, Bridge, put, ak_ensure_net}
use aegir.Gsocket.Table.{get_sock, ak_alloc, fresh_sock}
use aegir.Gsocket.Table.Laws.{
  IsOpen, get_sock-IsOpen, IsOpen-get_sock, Allocated, ak_alloc-Allocated,
}
use aegir.Gsocket.Calls.{install, socket, socket_proto, gnat_socket_close}

-- What the bridge does to the set `live` of the handles that are open.
pub record IsIssuer (W : Type 0) ⦃b : Bridge W⦄ (live : ℕ → W → Bool) : Type 0 where
  pub attaches : (h k : ℕ) (w : W) → live k (b.sock_attach h w) ≡ live k w
  pub closes : (h k : ℕ) (w : W) → live k (b.sock_close h w) ≡ (if k == h then false else live k w)
  pub issues :
      (p k : ℕ) (w : W)
      → let (st, h, w') = b.sock_socket p w in
        st ≡ st_ok → (live h w ≡ false) × (live k w' ≡ (if k == h then true else live k w))
  pub denies :
      (p k : ℕ) (w : W) → (b.sock_socket p w).0 ≢ st_ok → live k (b.sock_socket p w).2 ≡ live k w

module _ {W : Type 0} (live : ℕ → W → Bool) where
  -- Open descriptors and open handles correspond one to one.
  pub record Owns (s : State W) : Type 0 where
    pub owner : (h : ℕ) → live h s.net ≡ true → (i : ℕ) × IsOpen s i × ((s.ak_fds i).handle ≡ h)
    pub held : (i : ℕ) → IsOpen s i → live (s.ak_fds i).handle s.net ≡ true
    pub once :
        (i j : ℕ) → IsOpen s i → IsOpen s j → (s.ak_fds i).handle ≡ (s.ak_fds j).handle → i ≡ j

  pub same-IsOpen :
      (s t : State W) (i : ℕ) → ((j : ℕ) → t.ak_fds j ≡ s.ak_fds j) → IsOpen s i → IsOpen t i
  same-IsOpen s t i e o = record {
    lower = o.lower;
    upper = o.upper;
    used = rw (e i) o.used;
    kind = rw (e i) o.kind;
  }

  -- The same entries and the same handles.
  pub same-Owns :
      (s t : State W)
      → ((j : ℕ) → t.ak_fds j ≡ s.ak_fds j)
      → ((k : ℕ) → live k t.net ≡ live k s.net)
      → Owns s
      → Owns t
  same-Owns s t e f w = record {
    owner = λ h l.
        let (i, o, q) = w.owner h (sym (f h) ∙ l) in
        (i, same-IsOpen s t i e o, ap (λ (v : Sock). v.handle) (e i) ∙ q);
    held = λ i o. rw (e i, f (s.ak_fds i).handle) (w.held i (same-IsOpen t s i (λ j. sym (e j)) o));
    once = λ i j oi oj q.
        w.once i j (same-IsOpen t s i (λ k. sym (e k)) oi) (same-IsOpen t s j (λ k. sym (e k)) oj)
          (sym (ap (λ (v : Sock). v.handle) (e i)) ∙ q ∙ ap (λ (v : Sock). v.handle) (e j));
  }

  -- `h` was just handed out, and no entry holds it yet.
  pub record Pending (h : ℕ) (s : State W) : Type 0 where
    pub owner :
        (k : ℕ) → live k s.net ≡ true → (k ≡ h) ⊎ ((i : ℕ) × IsOpen s i × ((s.ak_fds i).handle ≡ k))
    pub held : (i : ℕ) → IsOpen s i → live (s.ak_fds i).handle s.net ≡ true
    pub once :
        (i j : ℕ) → IsOpen s i → IsOpen s j → (s.ak_fds i).handle ≡ (s.ak_fds j).handle → i ≡ j
    pub new : live h s.net ≡ true
    pub alone : (i : ℕ) → IsOpen s i → (s.ak_fds i).handle ≢ h

  -- A free entry takes the handle.
  module _ (s : State W) (fd h : ℕ) (v : Sock) (free : (s.ak_fds fd).used ≡ false) (p : Pending h s)
      (lo : 3 ≤ fd) (hi : fd < 256) (vu : v.used ≡ true) (vk : v.kind ≡ sock)
      (vh : v.handle ≡ h) where
    at_fd : IsOpen (put fd v s) fd
    at_fd = record { lower = lo; upper = hi; used = ground (arith, vu); kind = ground (arith, vk) }

    other : (j : ℕ) → j ≢ fd → (put fd v s).ak_fds j ≡ s.ak_fds j
    other j ne = ground (arith, ne)

    self : (put fd v s).ak_fds fd ≡ v
    self = ground arith

    open_ne : (j : ℕ) → IsOpen s j → j ≢ fd
    open_ne j o e = ground (arith, o.used, free, e)

    IsOpen-put : (j : ℕ) → IsOpen s j → IsOpen (put fd v s) j
    IsOpen-put j o =
        let q = other j (open_ne j o) in
        record { lower = o.lower; upper = o.upper; used = rw q o.used; kind = rw q o.kind }

    put-IsOpen : (j : ℕ) → j ≢ fd → IsOpen (put fd v s) j → IsOpen s j
    put-IsOpen j ne o =
        let q = sym (other j ne) in
        record { lower = o.lower; upper = o.upper; used = rw q o.used; kind = rw q o.kind }

    put_owner :
        (k : ℕ)
        → (k ≡ h) ⊎ ((i : ℕ) × IsOpen s i × ((s.ak_fds i).handle ≡ k))
        → (i : ℕ) × IsOpen (put fd v s) i × (((put fd v s).ak_fds i).handle ≡ k)
    put_owner k (inl e) = (fd, at_fd, ap (λ (x : Sock). x.handle) self ∙ vh ∙ sym e)
    put_owner k (inr (i, o, q)) =
        (i, IsOpen-put i o, ap (λ (x : Sock). x.handle) (other i (open_ne i o)) ∙ q)

    put_held : (i : ℕ) → IsOpen (put fd v s) i → live ((put fd v s).ak_fds i).handle s.net ≡ true
    put_held i o = elim (ℕ_discrete i fd) [
      | yes e ↦ rw (e, self, vh) p.new
      | no ne ↦ rw (other i ne) (p.held i (put-IsOpen i ne o))
    ]

    put_other : (j : ℕ) → j ≢ fd → ((put fd v s).ak_fds j).handle ≡ (s.ak_fds j).handle
    put_other j ne = ap (λ (x : Sock). x.handle) (other j ne)

    put_new : (j : ℕ) → j ≡ fd → ((put fd v s).ak_fds j).handle ≡ h
    put_new j e = rw (e, self) vh

    put_once :
        (i j : ℕ)
        → IsOpen (put fd v s) i
        → IsOpen (put fd v s) j
        → ((put fd v s).ak_fds i).handle ≡ ((put fd v s).ak_fds j).handle
        → i ≡ j
    put_once i j oi oj q = elim (ℕ_discrete i fd) [
      | yes e ↦ elim (ℕ_discrete j fd) [
        | yes f ↦ e ∙ sym f
        | no nf ↦
            absurd (p.alone j (put-IsOpen j nf oj) (sym (put_other j nf) ∙ sym q ∙ put_new i e))
      ]
      | no ne ↦ elim (ℕ_discrete j fd) [
        | yes f ↦ absurd (p.alone i (put-IsOpen i ne oi) (sym (put_other i ne) ∙ q ∙ put_new j f))
        | no nf ↦
            p.once i j (put-IsOpen i ne oi) (put-IsOpen j nf oj)
              (sym (put_other i ne) ∙ q ∙ put_other j nf)
      ]
    ]

    pub put-Owns : Owns (put fd v s)
    put-Owns = record { owner = λ k l. put_owner k (p.owner k l); held = put_held; once = put_once }
