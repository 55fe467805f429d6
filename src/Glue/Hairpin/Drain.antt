-- ===== src/Glue/Hairpin/Drain.antt =====
-- The drain of the hairpin queue ends, with the queue empty.
use aegir.Prelude.{
  ℕ, ◌+◌, ◌≤◌, ◌<◌, eq_ℤ, true, false, Option, none, some, List, [], ◌∷◌, length, ◌≡◌, refl, arith,
  Bool-cases, inl, inr,
}
use aegir.Prelude.Loop.{loop, Ends, Advances, loop-Ends}
use aegir.Glue.Types.{Glue, Lwip}
use aegir.Glue.Hairpin.{
  Void, aknet_output, drain_turn, deliver, waiting, aknet_hairpin_drain, drained,
}
use aegir.Glue.Hairpin.Queue.{
  ==-cases, IsQueue, aknet_output_own, aknet_output_other, moved-IsQueue, waiting-IsQueue,
  drain_turn-IsQueue,
}

module _ {Pbuf Pcb W : Type 0} ⦃l : Lwip Pbuf Pcb W⦄ where
  -- What lwIP can do to the glue's queue from inside one of its functions: call `aknet_output`, and
  -- change what is its own.
  pub data Calls (s : Glue Pbuf Pcb W) : Glue Pbuf Pcb W → Type 0 where
    nothing : Calls s s
    output : (p : Pbuf) (ip : ℕ) (t : Glue Pbuf Pcb W) → Calls s t → Calls s (aknet_output p ip t).1
    inside : (w : W) (t : Glue Pbuf Pcb W) → Calls s t → Calls s (record t { lwip = w })

-- `ip4_input` works by such calls, and its packet pays for those that it makes wait from a budget of
-- lwIP's: lwIP does not answer itself for ever.
pub record IsInput (Pbuf Pcb : Type 0) {W : Type 0} ⦃l : Lwip Pbuf Pcb W⦄ (budget : W → ℕ)
    : Type 0 where
  pub calls : (p : Option Pbuf) (s : Glue Pbuf Pcb W) → Calls s (l.ip4_input p s).1
  pub settles :
      (p : Option Pbuf) (s : Glue Pbuf Pcb W)
      → let t = (l.ip4_input p s).1 in waiting t + budget t.lwip ≤ waiting s + budget s.lwip
  pub frees : (p : Option Pbuf) (w : W) → budget (l.pbuf_free p w) ≡ budget w

module _ {Pbuf Pcb W : Type 0} ⦃l : Lwip Pbuf Pcb W⦄ where
  -- The ring holds some queue.
  abbrev pub Ring : Glue Pbuf Pcb W → Type 0
  Ring s = (xs : List Pbuf) × IsQueue s xs

  Answers-Ring : (p : Pbuf) (ip : ℕ) (s : Glue Pbuf Pcb W) → Ring s → Ring (aknet_output p ip s).1
  Answers-Ring p ip s (xs, q) = elim (==-cases ip (l.netif_ip4_addr s.lwip)) [
    | inl (e, t) ↦ rw e (_, aknet_output_own p s xs q)
    | inr (ne, f) ↦ (xs, aknet_output_other p ip s xs ne q)
  ]

  Calls-Ring : (s t : Glue Pbuf Pcb W) → Calls s t → Ring s → Ring t
  Calls-Ring s t nothing r = r
  Calls-Ring s t (output p ip u c) r = Answers-Ring p ip u (Calls-Ring s u c r)
  Calls-Ring s t (inside w u c) r = let (xs, q) = Calls-Ring s u c r in (xs, moved-IsQueue u w xs q)

  abbrev pub Emptied : Void → Glue Pbuf Pcb W → Type 0
  Emptied u t = IsQueue t [] × (t.aknet_hq_draining ≡ false)

  module _ (budget : W → ℕ) (input : IsInput Pbuf Pcb budget) where
    abbrev cost : Glue Pbuf Pcb W → ℕ
    cost s = waiting s + budget s.lwip

    deliver_lem :
        (p : Option Pbuf) (s : Glue Pbuf Pcb W)
        → Ring s
        → Ring (deliver p s) × (cost (deliver p s) ≤ cost s)
    unfolding deliver waiting
    deliver_lem p s r =
        let t = (l.ip4_input p s).1 in
        let (xs, q) = Calls-Ring s t (input.calls p s) r in
        elim (Bool-cases (eq_ℤ (l.ip4_input p s).0 l.err_ok)) [
          | inl e ↦ rw e ((xs, q), input.settles p s)
          | inr e ↦ rw e (
            (xs, moved-IsQueue t (l.pbuf_free p t.lwip) xs q),
            omega (arith, input.settles p s, input.frees p t.lwip),
          )
        ]

    drain_turn-Advances-lists :
        (s : Glue Pbuf Pcb W) (xs : List Pbuf)
        → IsQueue s xs
        → Advances Ring (λ (u : Void) t. IsQueue t []) cost (cost s) (drain_turn s)
    drain_turn-Advances-lists s [] q = rw (drain_turn-IsQueue s [] q) q
    drain_turn-Advances-lists s (x ∷ xs) q =
        let (e, q') = drain_turn-IsQueue s (x ∷ xs) q in
        let (r, c) = deliver_lem (some x) _ (xs, q') in
        rw e (r, omega (arith, c, waiting-IsQueue s (x ∷ xs) q, waiting-IsQueue _ xs q'))

    drain_turn-Advances :
        (s : Glue Pbuf Pcb W)
        → Ring s
        → Advances Ring (λ (u : Void) t. IsQueue t []) cost (cost s) (drain_turn s)
    drain_turn-Advances s r = drain_turn-Advances-lists s r.0 r.1

    drained-Ends :
        (r : Option (Void × Glue Pbuf Pcb W))
        → Ends (λ (u : Void) t. IsQueue t []) r
        → Ends Emptied (drained r)
    drained-Ends none h = h
    drained-Ends (some (u, t)) h =
        (record { head = h.head; tail = h.tail; room = h.room; slots = h.slots }, refl)

    -- `aknet_hairpin_drain` returns, with the queue empty and the guard off, however much delivering a
    -- packet sends to the machine's own address again, within a budget of lwIP's: more rounds than the
    -- packets waiting and that budget are enough. The guard is taken to be off, and the ring to hold
    -- a queue, as `aknet_output` keeps it.
    pub aknet_hairpin_drain-Ends :
        (fuel : ℕ) (s : Glue Pbuf Pcb W) (xs : List Pbuf)
        → IsQueue s xs
        → s.aknet_hq_draining ≡ false
        → length xs + budget s.lwip < fuel
        → Ends Emptied (aknet_hairpin_drain fuel s)
    unfolding aknet_hairpin_drain
    aknet_hairpin_drain-Ends fuel s xs q g h =
        let s' = record s { aknet_hq_draining = true } in
        let q' : IsQueue s' xs = record {
          head = q.head;
          tail = q.tail;
          room = q.room;
          slots = q.slots;
        } in
        rw g (
          drained-Ends (loop fuel drain_turn s') (
            loop-Ends Ring (λ (u : Void) t. IsQueue t []) cost drain_turn drain_turn-Advances fuel
              s' (omega (arith, h, waiting-IsQueue s' xs q')) (xs, q')))
