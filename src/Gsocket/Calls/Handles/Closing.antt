-- ===== src/Gsocket/Calls/Handles/Closing.antt =====
-- Closing a socket gives its handle back.
use aegir.Prelude.{
  ℕ, ℤ, Bool, true, false, ◌≡◌, ◌≢◌, inl, inr, refl, sym, ◌∙◌, ap, arith, Option-cases,
}
use aegir.Gsocket.Types.{State, Bridge, put}
use aegir.Gsocket.Table.{get_sock}
use aegir.Gsocket.Table.Laws.{IsOpen, get_sock-IsOpen}
use aegir.Gsocket.Calls.{gnat_socket_close}
use aegir.Gsocket.Calls.Handles.{IsIssuer, Owns, same-Owns}

module _ {W : Type 0} ⦃b : Bridge W⦄ (live : ℕ → W → Bool) (c : IsIssuer W live) where
  -- The entry `i` gives its handle back.
  abbrev closed : ℕ → State W → State W
  closed i s =
      put i (record (s.ak_fds i) { used = false })
        (record s { net = b.sock_close (s.ak_fds i).handle s.net })

  closed_ne : (i j : ℕ) (s : State W) → IsOpen (closed i s) j → j ≢ i
  closed_ne i j s o e = ground (arith, o.used, e)

  closed_handle :
      (i j : ℕ) (s : State W) → j ≢ i → ((closed i s).ak_fds j).handle ≡ (s.ak_fds j).handle
  closed_handle i j s ne = ground (arith, ne)

  closed-IsOpen : (i j : ℕ) (s : State W) → IsOpen (closed i s) j → IsOpen s j
  closed-IsOpen i j s o =
      let ne = closed_ne i j s o in
      record {
        lower = o.lower;
        upper = o.upper;
        used = ground (arith, o.used, ne);
        kind = ground (arith, o.kind, ne);
      }

  IsOpen-closed : (i j : ℕ) (s : State W) → j ≢ i → IsOpen s j → IsOpen (closed i s) j
  IsOpen-closed i j s ne o = record {
    lower = o.lower;
    upper = o.upper;
    used = ground (arith, o.used, ne);
    kind = ground (arith, o.kind, ne);
  }

  -- The handles that are still open are the others.
  closed_live :
      (i h : ℕ) (s : State W)
      → live h (closed i s).net ≡ true
      → (h ≢ (s.ak_fds i).handle) × (live h s.net ≡ true)
  closed_live i h s e = ground (arith, c.closes (s.ak_fds i).handle h s.net, e)

  live_closed :
      (i h : ℕ) (s : State W)
      → h ≢ (s.ak_fds i).handle
      → live h s.net ≡ true
      → live h (closed i s).net ≡ true
  live_closed i h s ne e = ground (arith, c.closes (s.ak_fds i).handle h s.net, e, ne)

  closed-Owns : (i : ℕ) (s : State W) → IsOpen s i → Owns live s → Owns live (closed i s)
  closed-Owns i s o w = record {
    owner = λ h e.
        let (ne, l) = closed_live i h s e in
        let (j, oj, q) = w.owner h l in
        let n : j ≢ i = λ p. ne (sym q ∙ ap (λ k. (s.ak_fds k).handle) p) in
        (j, IsOpen-closed i j s n oj, closed_handle i j s n ∙ q);
    held = λ j oj.
        let n = closed_ne i j s oj in
        let os = closed-IsOpen i j s oj in
        rw (closed_handle i j s n)
          (live_closed i (s.ak_fds j).handle s (λ e. n (w.once j i os o e)) (w.held j os));
    once = λ j k oj ok e. w.once j k (closed-IsOpen i j s oj) (closed-IsOpen i k s ok) (
        sym (closed_handle i j s (closed_ne i j s oj))
        ∙ e
        ∙ closed_handle i k s (closed_ne i k s ok));
  }

  -- Closing a socket keeps open descriptors and open handles in step, whether or not the descriptor is
  -- one of a socket in use.
  pub gnat_socket_close-Owns :
      (fd : ℤ) (s : State W) → Owns live s → Owns live (gnat_socket_close fd s).1
  unfolding gnat_socket_close
  gnat_socket_close-Owns fd s w = elim (Option-cases (get_sock s fd)) [
    | inl q ↦ rw (q, gnat_socket_close) (same-Owns live s _ (λ j. refl) (λ k. refl) w)
    | inr (i, q) ↦ rw (q, gnat_socket_close) (closed-Owns i s (get_sock-IsOpen s fd i q).1 w)
  ]
