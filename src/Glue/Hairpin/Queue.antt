-- ===== src/Glue/Hairpin/Queue.antt =====
-- The hairpin ring of `aknet_output` and `aknet_hairpin_drain` is a bounded queue.
use aegir.Prelude.{
  ℕ, zero, suc, ◌+◌, ◌%◌, ◌^◌, ◌≤◌, ◌<◌, ℤ, true, false, Option, none, some, List, [], ◌∷◌, ◌++◌,
  length, length-append, get_elem?, ltb, ◌≡◌, ◌≢◌, ◌⊎◌, inl, inr, refl, arith, ◌==◌, if◌then◌else◌,
}
use aegir.Prelude.Loop.{Turn, done, again}
use aegir.Glue.Types.{Glue, Lwip, update_slot}
use aegir.Glue.Hairpin.{Void, aknet_output, push_copy, drain_turn, deliver, waiting}

pub ==-cases : (a b : ℕ) → ((a ≡ b) × ((a == b) ≡ true)) ⊎ ((a ≢ b) × ((a == b) ≡ false))
==-cases a b = ground arith

module _ {A : Type 0} where
  get_elem?-snoc :
      (xs : List A) (x : A) (i : ℕ)
      → i < length xs + 1
      → get_elem? (xs ++ x ∷ []) i ≡ (if i == length xs then some x else get_elem? xs i)
  get_elem?-snoc [] x zero h = refl
  get_elem?-snoc [] x (suc i) h = absurd (omega arith)
  get_elem?-snoc (y ∷ xs) x zero h = ground arith
  get_elem?-snoc (y ∷ xs) x (suc i) h = ground (arith, get_elem?-snoc xs x i (omega arith))

module _ {Pbuf Pcb W : Type 0} where
  -- The ring holds the packets `xs`, oldest first, from its head on, with counters that may have
  -- wrapped around.
  pub record IsQueue (s : Glue Pbuf Pcb W) (xs : List Pbuf) : Type 0 where
    pub head : s.aknet_hq_head < 2 ^ 32
    pub tail : s.aknet_hq_tail ≡ (s.aknet_hq_head + length xs) % 2 ^ 32
    pub room : length xs ≤ 16
    pub slots : (i : ℕ) → i < length xs → s.aknet_hq ((s.aknet_hq_head + i) % 16) ≡ get_elem? xs i

  pub waiting-IsQueue :
      (s : Glue Pbuf Pcb W) (xs : List Pbuf) → IsQueue s xs → waiting s ≡ length xs
  unfolding waiting
  waiting-IsQueue s xs q = omega (arith, q.head, q.tail, q.room)

  pushed-IsQueue :
      (s : Glue Pbuf Pcb W) (xs : List Pbuf) (x : Pbuf) (w : W)
      → IsQueue s xs
      → length xs < 16
      → IsQueue
          (record s {
            aknet_hq = update_slot s.aknet_hq (s.aknet_hq_tail % 16) (some x);
            aknet_hq_tail = (s.aknet_hq_tail + 1) % 2 ^ 32;
            lwip = w;
          })
          (xs ++ x ∷ [])
  pushed-IsQueue s xs x w q h = record {
    head = q.head;
    tail = omega (arith, q.tail, length-append xs (x ∷ []));
    room = omega (arith, length-append xs (x ∷ []));
    slots = λ i lt. ground (
      arith,
      get_elem?-snoc xs x i (omega (arith, length-append xs (x ∷ []))),
      q.tail,
      q.slots i,
      length-append xs (x ∷ []),
    );
  }

  pub moved-IsQueue :
      (s : Glue Pbuf Pcb W) (w : W) (xs : List Pbuf)
      → IsQueue s xs
      → IsQueue (record s { lwip = w }) xs
  moved-IsQueue s w xs q = record { head = q.head; tail = q.tail; room = q.room; slots = q.slots }

  popped-IsQueue :
      (s : Glue Pbuf Pcb W) (x : Pbuf) (xs : List Pbuf)
      → IsQueue s (x ∷ xs)
      → IsQueue (record s { aknet_hq_head = (s.aknet_hq_head + 1) % 2 ^ 32 }) xs
  popped-IsQueue s x xs q = record {
    head = omega arith;
    tail = omega (arith, q.tail);
    room = omega (arith, q.room);
    slots = λ i lt.
        let e : ((s.aknet_hq_head + 1) % 2 ^ 32 + i) % 16 ≡ (s.aknet_hq_head + suc i) % 16 =
          omega arith in
        rw e (q.slots (suc i) (omega arith));
  }

-- What a bounded queue of 16 holds after an attempt to add to it: `q` is the copy, if there is room
-- for one in memory.
abbrev pub enqueue : {A : Type 0} → Option A → List A → List A
enqueue none xs = xs
enqueue (some q) xs = if ltb (length xs) 16 then xs ++ q ∷ [] else xs

-- The answer to that attempt: `ok`, or `mem` for want of room.
abbrev pub status_of : {A : Type 0} → ℤ → ℤ → Option A → List A → ℤ
status_of ok mem none xs = mem
status_of ok mem (some q) xs = if ltb (length xs) 16 then ok else mem

module _ {A : Type 0} where
  status_full :
      (ok mem : ℤ) (r : Option A) (xs : List A) → 16 ≤ length xs → status_of ok mem r xs ≡ mem
  status_full ok mem none xs h = refl
  status_full ok mem (some c) xs h = ground arith

module _ {Pbuf Pcb W : Type 0} ⦃l : Lwip Pbuf Pcb W⦄ where
  -- The copy that lwIP would allocate for `p`.
  abbrev pub copy_of : Pbuf → Glue Pbuf Pcb W → Option Pbuf
  copy_of p s = (l.pbuf_alloc (l.tot_len p s.lwip) s.lwip).0

  push_copy-IsQueue :
      (p : Pbuf) (r : Option Pbuf × W) (s : Glue Pbuf Pcb W) (xs : List Pbuf)
      → IsQueue s xs
      → length xs < 16
      → IsQueue (push_copy p r s).1 (enqueue r.0 xs)
  push_copy-IsQueue p (none, w) s xs q h = record {
    head = q.head;
    tail = q.tail;
    room = q.room;
    slots = q.slots;
  }
  push_copy-IsQueue p (some c, w) s xs q h =
      ground (arith, pushed-IsQueue s xs c (l.pbuf_copy c p w) q h)

  pub aknet_output_own :
      (p : Pbuf) (s : Glue Pbuf Pcb W) (xs : List Pbuf)
      → IsQueue s xs
      → IsQueue (aknet_output p (l.netif_ip4_addr s.lwip) s).1 (enqueue (copy_of p s) xs)
  unfolding aknet_output
  aknet_output_own p s xs q = ground (
    arith,
    waiting-IsQueue s xs q,
    push_copy-IsQueue p (l.pbuf_alloc (l.tot_len p s.lwip) s.lwip) s xs q,
    q,
  )

  push_copy_status :
      (p : Pbuf) (r : Option Pbuf × W) (s : Glue Pbuf Pcb W) (xs : List Pbuf)
      → length xs < 16
      → (push_copy p r s).0 ≡ status_of l.err_ok l.err_mem r.0 xs
  push_copy_status p (none, w) s xs h = refl
  push_copy_status p (some c, w) s xs h = ground arith

  aknet_output_own_status :
      (p : Pbuf) (s : Glue Pbuf Pcb W) (xs : List Pbuf)
      → IsQueue s xs
      → (aknet_output p (l.netif_ip4_addr s.lwip) s).0
        ≡ status_of l.err_ok l.err_mem (copy_of p s) xs
  unfolding aknet_output
  aknet_output_own_status p s xs q = ground (
    arith,
    waiting-IsQueue s xs q,
    push_copy_status p (l.pbuf_alloc (l.tot_len p s.lwip) s.lwip) s xs,
    status_full l.err_ok l.err_mem (copy_of p s) xs,
    q.room,
  )

  -- A packet to another address leaves the queue alone.
  pub aknet_output_other :
      (p : Pbuf) (ipaddr : ℕ) (s : Glue Pbuf Pcb W) (xs : List Pbuf)
      → ipaddr ≢ l.netif_ip4_addr s.lwip
      → IsQueue s xs
      → IsQueue (aknet_output p ipaddr s).1 xs
  unfolding aknet_output
  aknet_output_other p ipaddr s xs ne q =
      ground (arith, moved-IsQueue s (l.etharp_output p ipaddr s.lwip).1 xs q, ne)

  -- What `aknet_output` does to a queue `xs`.
  abbrev pub Answers : Pbuf → ℕ → Glue Pbuf Pcb W → List Pbuf → ℤ × Glue Pbuf Pcb W → Type 0
  Answers p ipaddr s xs (e, t) =
      if ipaddr == l.netif_ip4_addr s.lwip
      then (e ≡ status_of l.err_ok l.err_mem (copy_of p s) xs)
        × IsQueue t (enqueue (copy_of p s) xs)
      else IsQueue t xs

  pub aknet_output-IsQueue :
      (p : Pbuf) (ipaddr : ℕ) (s : Glue Pbuf Pcb W) (xs : List Pbuf)
      → IsQueue s xs
      → Answers p ipaddr s xs (aknet_output p ipaddr s)
  aknet_output-IsQueue p ipaddr s xs q = elim (==-cases ipaddr (l.netif_ip4_addr s.lwip)) [
    | inl (e, t) ↦ rw t (rw e (aknet_output_own_status p s xs q, aknet_output_own p s xs q))
    | inr (ne, f) ↦ rw f (aknet_output_other p ipaddr s xs ne q)
  ]

  -- What a round makes of a queue.
  abbrev pub Rounds : List Pbuf → Glue Pbuf Pcb W → Turn Void (Glue Pbuf Pcb W) → Type 0
  Rounds [] s t = t ≡ done tt s
  Rounds (x ∷ xs) s t =
      let s' = record s { aknet_hq_head = (s.aknet_hq_head + 1) % 2 ^ 32 } in
      (t ≡ again (deliver (some x) s')) × IsQueue s' xs

  -- A round over an empty queue is the last; one over any other hands the
  -- oldest packet to `ip4_input`, with the rest still queued. The ring is taken to hold a queue.
  pub drain_turn-IsQueue :
      (s : Glue Pbuf Pcb W) (xs : List Pbuf) → IsQueue s xs → Rounds xs s (drain_turn s)
  unfolding drain_turn
  drain_turn-IsQueue s [] q = ground (arith, q.tail, q.head)
  drain_turn-IsQueue s (x ∷ xs) q =
      (ground (arith, q.tail, q.head, q.room, q.slots 0 (omega arith)), popped-IsQueue s x xs q)

  -- The hairpin ring, with counters that may have wrapped around, is a queue of at most 16. A packet that
  -- `aknet_output` is given for the machine's own address is answered as such a queue answers: if there
  -- is room, in the ring and in memory, a copy joins its end and the result is ERR_OK; otherwise it is
  -- ERR_MEM and the queue stays. A packet to another address leaves the queue as it was. A round of
  -- `aknet_hairpin_drain` over an empty queue is the last; one over any other hands the oldest packet to
  -- `ip4_input`, with the rest still queued. The ring is taken to hold a queue.
  pub hairpin-IsQueue :
      (p : Pbuf) (ipaddr : ℕ) (s : Glue Pbuf Pcb W) (xs : List Pbuf)
      → IsQueue s xs
      → Answers p ipaddr s xs (aknet_output p ipaddr s) × Rounds xs s (drain_turn s)
  hairpin-IsQueue p ipaddr s xs q =
      (aknet_output-IsQueue p ipaddr s xs q, drain_turn-IsQueue s xs q)
