-- ===== src/Kernel/Scheduler/Preempting.antt =====
-- `Should_Preempt`, and what `Yield` then does.
use aegir.Prelude.{
  ℕ, suc, ◌<◌, Bool, true, false, Option, none, some, List, [], ◌∷◌, ◌++◌, length, ltb, ◌≡◌, ◌≢◌,
  refl, sym, ap, ◌∙◌, arith, Bool-cases, inl, inr,
}
use aegir.Kernel.Tasks.{Tcb, running, dead, is_state}
use aegir.Kernel.PhysicalMemory.Chain.{has}
use aegir.Kernel.PhysicalMemory.Skip.{Yields}
use aegir.Kernel.Scheduler.{Sched, Status, my_current}
use aegir.Kernel.Scheduler.Calls.{should_preempt, yield}
use aegir.Kernel.Scheduler.ReadyQueue.{IsReady}
use aegir.Kernel.Scheduler.Choosing.{live, Leads}
use aegir.Kernel.Scheduler.Waking.{state_of}
use aegir.Kernel.Scheduler.Requeuing.{contenders}
use aegir.Kernel.Scheduler.Yielding.{Turns, yield-Turns}
use aegir.Kernel.Scheduler.Passing.{any, some_ready_lem, any-best}

-- The thread that asks adds nothing.
any-snoc :
    (m : ℕ → Tcb) (c : ℕ) (xs : List ℕ)
    → any (λ t. ltb (m c).priority t.priority) m (live m (xs ++ c ∷ []))
      ≡ any (λ t. ltb (m c).priority t.priority) m (live m xs)
any-snoc m c [] = elim (Bool-cases (is_state (m c).state dead)) [
  | inl d ↦ rw d refl
  | inr d ↦ rw d (ground arith)
]
any-snoc m c (x ∷ xs) = elim (Bool-cases (is_state (m x).state dead)) [
  | inl d ↦ rw d (any-snoc m c xs)
  | inr d ↦ rw (d, any-snoc m c xs) refl
]

live-snoc :
    (m : ℕ → Tcb) (c : ℕ) (xs : List ℕ)
    → is_state (m c).state dead ≡ false
    → live m (xs ++ c ∷ []) ≡ live m xs ++ c ∷ []
live-snoc m c [] h = rw h refl
live-snoc m c (x ∷ xs) h = elim (Bool-cases (is_state (m x).state dead)) [
  | inl d ↦ rw d (live-snoc m c xs h)
  | inr d ↦ rw (d, live-snoc m c xs h) refl
]

snoc_not_empty : (xs : List ℕ) (c : ℕ) → xs ++ c ∷ [] ≢ []
snoc_not_empty [] c h = ground (arith, h)
snoc_not_empty (x ∷ xs) c h = ground (arith, h)

-- Whether the thread that runs after `Yield` outranks the one before.
abbrev pub Outranks : Sched → ℕ → Option Bool → Status × Sched → Type 0
Outranks s c answer (st, u) =
    (b : ℕ) × ((my_current u ≡ some b)
      × (answer ≡ some (ltb (s.tcb c).priority (s.tcb b).priority)))

should_preempt-any :
    (fuel : ℕ) (s : Sched) (xs : List ℕ) (c : ℕ)
    → IsReady s xs
    → my_current s ≡ some c
    → is_state (state_of s c) running ≡ true
    → length xs < fuel
    → should_preempt fuel s
      ≡ some (any (λ b. ltb (s.tcb c).priority b.priority) s.tcb (live s.tcb xs))
unfolding should_preempt
should_preempt-any fuel s xs c o e r l =
    rw (e, r)
      (some_ready_lem fuel (λ b. ltb (s.tcb c).priority b.priority) s xs none s.ready_head
        s.ready_tail l o.links)

-- Where this hart runs a thread that is not queued, `Should_Preempt` answers yes exactly if the thread
-- that `Yield` would then run has a higher priority. The queue is taken to be well linked, and the fuel
-- to be at least its length and two.
pub should_preempt-yield :
    (fuel : ℕ) (s : Sched) (xs : List ℕ) (c : ℕ)
    → IsReady s xs
    → my_current s ≡ some c
    → is_state (state_of s c) running ≡ true
    → has c xs ≡ false
    → suc (length xs) < fuel
    → Yields (Outranks s c (should_preempt fuel s)) (yield fuel s)
should_preempt-yield fuel s xs c o e r f l =
    turned (yield fuel s) (yield-Turns fuel s xs o (λ d q. free d (sym e ∙ q)) l)
  where
    free : (d : ℕ) → some c ≡ some d → has d xs ≡ false
    free d q = let w : c ≡ d = ap (λ p. elim p [ none ↦ c | some b ↦ b ]) q in rw w at (f)

    all : contenders s xs ≡ xs ++ c ∷ []
    all = rw (e, r) refl

    alive : is_state (state_of s c) dead ≡ false
    alive = ground (arith, r)

    answered :
        (b : ℕ) (ls rs : List ℕ)
        → live s.tcb (xs ++ c ∷ []) ≡ ls ++ b ∷ rs
        → Leads s.tcb ls b rs
        → some (any (λ b. ltb (s.tcb c).priority b.priority) s.tcb (live s.tcb xs))
          ≡ some (ltb (s.tcb c).priority (s.tcb b).priority)
    answered b ls rs q best =
        rw (sym (any-snoc s.tcb c xs), q, any-best (s.tcb c).priority s.tcb ls rs b best) refl

    turned :
        (w : Option (Status × Sched))
        → Yields (Turns s xs) w
        → Yields (Outranks s c (should_preempt fuel s)) w
    turned none y = y
    turned (some (st, u)) y = elim y [
      | inl a ↦
          absurd
            (snoc_not_empty (live s.tcb xs) c (sym (live-snoc s.tcb c xs alive) ∙ rw all at (a.0)))
      | inr (b, (ls, (rs, (q, z, cur, w, boost, best, k)))) ↦ (
        b,
        (
          cur,
          should_preempt-any fuel s xs c o e r (omega arith)
              ∙ answered b ls rs (rw all at (q)) best,
        ),
      )
    ]
