-- ===== src/Gsocket/Send/Whole.antt =====
-- The stream path of `ak_send` on a nonblocking socket: what reaches the connection, and that it returns.
use aegir.Prelude.{
  ℕ, zero, suc, ◌+◌, ◌-◌, ◌≤◌, ◌<◌, ℤ, pos, minus_one, Bool, true, not, ◌&&◌, ◌||◌, Option, none,
  some, List, [], ◌∷◌, ◌++◌, append-nil, append_assoc, length, take, drop, min, ◌==◌, ltb,
  if◌then◌else◌, ◌≡◌, ◌⊎◌, refl, sym, ◌∙◌, ap, arith, inl, inr, Bool-cases,
}
use aegir.Prelude.Loop.{Ends, Advances, loop-Ends}
use aegir.Gsocket.Consts.{ipproto_tcp, st_ok, st_timeout, st_not_ready, max_payload}
use aegir.Gsocket.Errno.{eio, ewouldblock}
use aegir.Gsocket.Types.{Sock, State, Bridge, PollReply, ak_sticky_errno}
use aegir.Gsocket.Send.{stream_turn, send_stream, ak_send}

-- The statuses that say to try again later, and those that say that sending failed.
abbrev pub waits : ℕ → Bool
waits st = st == st_not_ready || st == st_timeout

abbrev pub breaks : ℕ → Bool
breaks st = not (st == st_ok) && not (waits st)

-- What sending on the handle `h` relies on, where `log w` is all that was accepted for it. A send that is
-- accepted appends its bytes, one that is to be tried again later appends nothing, and one that failed
-- may or may not have appended them; asking for the socket's state appends nothing.
pub record IsStream (W : Type 0) ⦃b : Bridge W⦄ (h : ℕ) (log : W → List ℕ) : Type 0 where
  pub polls : (w : W) → log (b.sock_poll h w).net ≡ log w
  pub accepts :
      (bytes : List ℕ) (w : W)
      → (b.sock_sendto h bytes 0 0 w).0 == st_ok ≡ true
      → log (b.sock_sendto h bytes 0 0 w).1 ≡ log w ++ bytes
  pub refuses :
      (bytes : List ℕ) (w : W)
      → waits (b.sock_sendto h bytes 0 0 w).0 ≡ true
      → log (b.sock_sendto h bytes 0 0 w).1 ≡ log w
  pub fails :
      (bytes : List ℕ) (w : W)
      → breaks (b.sock_sendto h bytes 0 0 w).0 ≡ true
      → (log (b.sock_sendto h bytes 0 0 w).1 ≡ log w)
        ⊎ (log (b.sock_sendto h bytes 0 0 w).1 ≡ log w ++ bytes)

take-nil : (c : ℕ) → take {A = ℕ} c [] ≡ []
take-nil zero = refl
take-nil (suc c) = refl

take-chunk : (buf : List ℕ) (k c m : ℕ) → m ≡ k + c → take k buf ++ take c (drop k buf) ≡ take m buf
take-chunk buf zero c m e = let q : m ≡ c = omega (arith, e) in rw q refl
take-chunk [] (suc k) c m e = rw (take-nil c, take-nil m) refl
take-chunk (x ∷ buf) (suc k) c zero e = absurd (omega (arith, e))
take-chunk (x ∷ buf) (suc k) c (suc m) e = ap (λ l. x ∷ l) (take-chunk buf k c m (omega (arith, e)))

module _ {W : Type 0} ⦃b : Bridge W⦄ (h : ℕ) (log : W → List ℕ) where
  -- The state is what a send on the handle left, with such a status.
  abbrev pub Answered : (ℕ → Bool) → State W → Type 0
  Answered test t =
      (w : W) × (bytes : List ℕ) × ((b.sock_sendto h bytes 0 0 w).1 ≡ t.net)
      × (test (b.sock_sendto h bytes 0 0 w).0 ≡ true)

  -- The state is what asking for the socket's state left, which showed an error.
  abbrev pub Broken : State W → Type 0
  Broken t =
      (w : W) × ((b.sock_poll h w).net ≡ t.net)
      × (((b.sock_poll h w).status == st_ok && not ((b.sock_poll h w).error == 0)) ≡ true)
      × (t.errno ≡ ak_sticky_errno (b.sock_poll h w).error)

  -- The result after `m` bytes, on a nonblocking socket.
  abbrev pub Results : List ℕ → ℕ → ℤ → State W → Type 0
  Results buf m n t =
      ((n ≡ pos m) × (m ≡ length buf))
      ⊎ (((n ≡ (if ltb 0 m then pos m else minus_one)) × Answered waits t × (t.errno ≡ ewouldblock))
          ⊎ ((n ≡ minus_one) × (Broken t ⊎ (Answered breaks t × (t.errno ≡ eio)))))

  -- The first `m` bytes were accepted, in order and each once.
  abbrev pub Sent : List ℕ → List ℕ → ℤ → State W → Type 0
  Sent buf before n t =
      (m : ℕ) × (m ≤ length buf) × (log t.net ≡ before ++ take m buf) × Results buf m n t

  abbrev Going : ℕ → Sock → List ℕ → List ℕ → ℕ × State W → Type 0
  Going i e buf before (k, s) =
      (k ≤ length buf) × (log s.net ≡ before ++ take k buf) × (s.ak_fds i ≡ e)

module _ {W : Type 0} ⦃b : Bridge W⦄ (log : W → List ℕ) (i : ℕ) (e : Sock)
    (c : IsStream W e.handle log) (nonblock : e.nonblock ≡ true) (buf before : List ℕ) where
  stream_turn-Advances :
      (k : ℕ) (s : State W)
      → Going e.handle log i e buf before (k, s)
      → Advances
          (Going e.handle log i e buf before)
          (λ n (t : ℕ × State W). Sent e.handle log buf before n t.1)
          (λ t. length buf - t.0)
          (length buf - k)
          (stream_turn i buf (k, s))
  unfolding stream_turn
  stream_turn-Advances k s (lo, lg, en) = elim (Bool-cases (ltb k (length buf))) [
    | inr x ↦ rw x (k, lo, lg, inl (refl, ground (arith, x, lo)))
    | inl x ↦ elim (Bool-cases (p.status == st_ok && not (p.error == 0))) [
      | inl y ↦ rw (x, en, y) (k, lo, polled, inr (inr (refl, inl (s.net, refl, y, refl))))
      | inr y ↦ elim (Bool-cases (q.0 == st_ok)) [
        | inl z ↦
            rw (x, en, y, z)
              ((omega (arith, more x), c.accepts piece p.net z ∙ longer, en), omega (arith, more x))
        | inr z ↦ elim (Bool-cases (waits q.0)) [
          | inl u ↦
              rw (x, en, y, z, u, nonblock)
                (
                  k,
                  lo,
                  c.refuses piece p.net u ∙ polled,
                  inr (inl (refl, (p.net, piece, refl, u), refl)),
                )
          | inr u ↦ let v : breaks q.0 ≡ true = rw (z, u) refl in rw (x, en, y, z, u) (failed v)
        ]
      ]
    ]
  ]
    where
      ch : ℕ
      ch = min (length buf - k) max_payload

      piece : List ℕ
      piece = take ch (drop k buf)

      p : PollReply W
      p = b.sock_poll e.handle s.net

      q : ℕ × W
      q = b.sock_sendto e.handle piece 0 0 p.net

      more : ltb k (length buf) ≡ true → k < length buf
      more x = ground (arith, x)

      polled : log p.net ≡ before ++ take k buf
      polled = c.polls s.net ∙ lg

      longer : log p.net ++ piece ≡ before ++ take (k + ch) buf
      longer = rw polled (
          append_assoc before (take k buf) piece
          ∙ ap (λ l. before ++ l) (take-chunk buf k ch (k + ch) refl))

      failed :
          breaks q.0 ≡ true
          → Sent e.handle log buf before minus_one (record s { net = q.1; errno = eio })
      failed v = elim (c.fails piece p.net v) [
        | inl l ↦ (k, lo, l ∙ polled, inr (inr (refl, inr ((p.net, piece, refl, v), refl))))
        | inr l ↦
            (k + ch, omega arith, l ∙ longer, inr (inr (refl, inr ((p.net, piece, refl, v), refl))))
      ]

  -- The number of bytes sent is dropped from the result.
  forget-Ends :
      (r : Option (ℤ × (ℕ × State W)))
      → Ends (λ n (t : ℕ × State W). Sent e.handle log buf before n t.1) r
      → Ends
          (Sent e.handle log buf before)
          (elim r [ none ↦ none | some (n, (k, t)) ↦ some (n, t) ])
  forget-Ends none y = y
  forget-Ends (some (n, (k, t))) y = y

module _ {W : Type 0} ⦃b : Bridge W⦄ (log : W → List ℕ) where
  -- A stream send on a nonblocking socket returns: more rounds than the buffer has bytes are enough. Some
  -- first `m` bytes of the buffer were accepted, in order and each once. The result is `m` and this is the
  -- whole length; or a send answered that it is to be tried again later, the result is `m`, or -1 if that
  -- is 0, and errno is EWOULDBLOCK; or it is -1, and either asking for the socket's state showed an error,
  -- which errno translates, or a send failed, and errno is EIO.
  -- Asking for the state and a send that is to be tried again later are taken to add nothing to what was
  -- accepted, and a send that failed to add its bytes or nothing.
  pub ak_send-Sent :
      (fuel i : ℕ) (buf : List ℕ) (ip port : ℕ) (s : State W)
      → IsStream W (s.ak_fds i).handle log
      → (s.ak_fds i).proto ≡ ipproto_tcp
      → (s.ak_fds i).nonblock ≡ true
      → length buf < fuel
      → Ends (Sent (s.ak_fds i).handle log buf (log s.net)) (ak_send fuel i buf ip port s)
  unfolding ak_send send_stream
  ak_send-Sent fuel i buf ip port s c q nonblock lt =
      let e = s.ak_fds i in
      let before = log s.net in
      rw q (
        forget-Ends log i e c nonblock buf before _ (
          loop-Ends (Going e.handle log i e buf before)
            (λ n (t : ℕ × State W). Sent e.handle log buf before n t.1)
            (λ (t : ℕ × State W). length buf - t.0) (stream_turn i buf)
            (λ (t : ℕ × State W) g. stream_turn-Advances log i e c nonblock buf before t.0 t.1 g)
            fuel (0, s) (omega arith) (omega arith, sym (append-nil before), refl)))
