-- ===== src/Gsocket/Signal/Pair.antt =====
-- The behaviour of a signalling pair, and of a write end whose read end was closed.
use aegir.Prelude.{
  ℕ, zero, suc, ◌+◌, ◌%◌, ◌^◌, ◌≤◌, ◌<◌, pos, true, false, Option, none, some, ◌≡◌, ◌≢◌, refl, ap,
  fun_ext, arith,
}
use aegir.Gsocket.Errno.{epipe, ewouldblock}
use aegir.Gsocket.Types.{Sock, State, sigr, sigw, put, update, fail}
use aegir.Gsocket.Table.{ak_get, ak_alloc, fresh_sock}
use aegir.Gsocket.Table.Laws.{ak_get_complete, Allocated, ak_alloc-Allocated}
use aegir.Gsocket.Signal.{read_signalling_fd, write_signalling_fd, close_signalling_fd}

put_twice :
    (f : ℕ → Sock) (r : ℕ) (u v : Sock) (j : ℕ) → update (update f r u) r v j ≡ update f r v j
put_twice f r u v j = ground arith

module _ {W : Type 0} where
  -- `r` and `w` are the two ends of a pair, with `n` signals waiting.
  pub record IsPair (s : State W) (r w n : ℕ) : Type 0 where
    pub lower_r : 3 ≤ r
    pub upper_r : r < 256
    pub lower_w : 3 ≤ w
    pub upper_w : w < 256
    pub distinct : r ≢ w
    pub used_r : (s.ak_fds r).used ≡ true
    pub used_w : (s.ak_fds w).used ≡ true
    pub kind_r : (s.ak_fds r).kind ≡ sigr
    pub kind_w : (s.ak_fds w).kind ≡ sigw
    pub partner : (s.ak_fds w).partner ≡ pos r
    pub count : (s.ak_fds r).sig_count ≡ n

  -- The state with `k` signals waiting at `r`.
  abbrev counted : ℕ → ℕ → State W → State W
  counted r k s = put r (record (s.ak_fds r) { sig_count = k }) s

  counted-IsPair : (s : State W) (r w n k : ℕ) → IsPair s r w n → IsPair (counted r k s) r w k
  counted-IsPair s r w n k p = record {
    lower_r = p.lower_r;
    upper_r = p.upper_r;
    lower_w = p.lower_w;
    upper_w = p.upper_w;
    distinct = p.distinct;
    used_r = ground (arith, p.used_r);
    used_w = ground (arith, p.used_w);
    kind_r = ground (arith, p.kind_r);
    kind_w = ground (arith, p.kind_w, p.distinct);
    partner = ground (arith, p.partner, p.distinct);
    count = ground arith;
  }

  write_lem :
      (s : State W) (r w n : ℕ)
      → IsPair s r w n
      → write_signalling_fd (pos w) s ≡ (pos 1, counted r ((n + 1) % 2 ^ 32) s)
  unfolding write_signalling_fd
  write_lem s r w n p = ground (
    arith,
    ak_get_complete s w p.lower_w p.upper_w p.used_w,
    p.kind_w,
    p.partner,
    ak_get_complete s r p.lower_r p.upper_r p.used_r,
    p.count,
  )

  read_lem :
      (s : State W) (r w n : ℕ)
      → IsPair s r w (suc n)
      → read_signalling_fd (pos r) s ≡ (pos 1, counted r n s)
  unfolding read_signalling_fd
  read_lem s r w n p =
      ground (arith, ak_get_complete s r p.lower_r p.upper_r p.used_r, p.kind_r, p.count)

  empty_lem :
      (s : State W) (r w : ℕ) → IsPair s r w 0 → read_signalling_fd (pos r) s ≡ fail ewouldblock s
  unfolding read_signalling_fd
  empty_lem s r w p =
      ground (arith, ak_get_complete s r p.lower_r p.upper_r p.used_r, p.kind_r, p.count)

  -- `k` writes, one after the other.
  abbrev pub writes : ℕ → ℕ → State W → State W
  writes zero w s = s
  writes (suc k) w s = writes k w (write_signalling_fd (pos w) s).1

  -- From `s` on, `k` reads of `r` return 1, and the next one would block.
  abbrev pub Drains : ℕ → ℕ → State W → Type 0
  Drains zero r s = read_signalling_fd (pos r) s ≡ fail ewouldblock s
  Drains (suc k) r s =
      ((read_signalling_fd (pos r) s).0 ≡ pos 1) × Drains k r (read_signalling_fd (pos r) s).1

  writes-IsPair :
      (k : ℕ) (s : State W) (r w n m : ℕ)
      → IsPair s r w n
      → m ≡ n + k
      → m < 2 ^ 32
      → IsPair (writes k w s) r w m
  writes-IsPair zero s r w n m p e h = let q : m ≡ n = omega (arith, e) in rw q p
  writes-IsPair (suc k) s r w n m p e h =
      let q : (n + 1) % 2 ^ 32 ≡ n + 1 = omega (arith, e) in
      rw (write_lem s r w n p, q)
        (writes-IsPair k _ r w (n + 1) m (counted-IsPair s r w n (n + 1) p) (omega (arith, e)) h)

  Drains-IsPair : (k : ℕ) (s : State W) (r w : ℕ) → IsPair s r w k → Drains k r s
  Drains-IsPair zero s r w p = empty_lem s r w p
  Drains-IsPair (suc k) s r w p =
      rw (read_lem s r w k p) (refl, Drains-IsPair k _ r w (counted-IsPair s r w (suc k) k p))

  -- A pair counts its signals: from a pair with none waiting, after `k` writes, fewer than 2^32, exactly
  -- `k` reads return 1, and the next one fails with EWOULDBLOCK.
  pub Drains-writes :
      (k : ℕ) (s : State W) (r w : ℕ) → IsPair s r w 0 → k < 2 ^ 32 → Drains k r (writes k w s)
  Drains-writes k s r w p h = Drains-IsPair k _ r w (writes-IsPair k s r w 0 k p (omega arith) h)

  ak_get_unused : (s : State W) (i : ℕ) → (s.ak_fds i).used ≡ false → ak_get s (pos i) ≡ none
  unfolding ak_get
  ak_get_unused s i u = ground (arith, u)

  close_lem :
      (s : State W) (r w n : ℕ)
      → IsPair s r w n
      → close_signalling_fd (pos r) s ≡ put r (record (s.ak_fds r) { used = false }) s
  unfolding close_signalling_fd
  close_lem s r w n p = ground (arith, ak_get_complete s r p.lower_r p.upper_r p.used_r)

  -- What a write sees once the entry of the read end holds `v`.
  write_gone :
      (s : State W) (r w n : ℕ) (v : Sock)
      → IsPair s r w n
      → v.used ≡ false
      → write_signalling_fd (pos w) (put r v s) ≡ fail epipe (put r v s)
  unfolding write_signalling_fd
  write_gone s r w n v p u = ground (
    arith,
    ak_get_complete (put r v s) w p.lower_w p.upper_w (ground (arith, p.used_w, p.distinct)),
    ak_get_unused (put r v s) r (ground (arith, u)),
    p.kind_w,
    p.partner,
    p.distinct,
  )

  write_reused :
      (s : State W) (r w n : ℕ) (v : Sock)
      → IsPair s r w n
      → v.used ≡ true
      → (write_signalling_fd (pos w) (put r v s)).0 ≡ pos 1
  unfolding write_signalling_fd
  write_reused s r w n v p u = ground (
    arith,
    ak_get_complete (put r v s) w p.lower_w p.upper_w (ground (arith, p.used_w, p.distinct)),
    ak_get_complete (put r v s) r p.lower_r p.upper_r (ground (arith, u)),
    p.kind_w,
    p.partner,
    p.distinct,
  )

  put-put : (s : State W) (r : ℕ) (u v : Sock) → put r v (put r u s) ≡ put r v s
  put-put s r u v = ap (λ f. record s { ak_fds = f }) (fun_ext (λ j. put_twice s.ak_fds r u v j))

  -- What an `ak_alloc` that returned `r` has done.
  took-Allocated :
      (s : State W) (r : ℕ) (out : Option ℕ × State W)
      → Allocated s out
      → out.0 ≡ some r
      → out.1 ≡ put r fresh_sock s
  took-Allocated s r (none, t) a e = ground arith
  took-Allocated s r (some i, t) a e =
      let q : i ≡ r = ground arith in let (lo, hi, unused, first, f) = a in rw (← q) f

  -- Once the read end of a pair is closed, writing fails with EPIPE only until its entry is taken
  -- again: after an `ak_alloc` that takes it, a write returns 1, for another descriptor's entry.
  pub write-close :
      (s : State W) (r w n : ℕ)
      → IsPair s r w n
      → (ak_alloc (close_signalling_fd (pos r) s)).0 ≡ some r
      → let closed = close_signalling_fd (pos r) s in
        (write_signalling_fd (pos w) closed ≡ fail epipe closed)
        × ((write_signalling_fd (pos w) (ak_alloc closed).1).0 ≡ pos 1)
  write-close s r w n p e =
      let closed = put r (record (s.ak_fds r) { used = false }) s in
      let t : (ak_alloc closed).1 ≡ put r fresh_sock closed =
        took-Allocated closed r (ak_alloc closed) (ak_alloc-Allocated closed)
          (rw (close_lem s r w n p) at e) in
      rw (close_lem s r w n p) (
        write_gone s r w n _ p refl,
        rw (t, put-put s r _ fresh_sock) (write_reused s r w n fresh_sock p refl),
      )
