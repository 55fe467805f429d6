-- ===== src/Kernel/Scheduler/Yielding.antt =====
-- `Yield`: the running thread goes to the end of the queue, and the best one runs.
use aegir.Prelude.{
  ℕ, suc, ◌≤◌, ◌<◌, true, false, Option, none, some, List, [], ◌∷◌, ◌++◌, length, ◌≡◌, ◌⊎◌, refl,
  sym, ◌∙◌, arith, ◌==◌, Bool-cases, inl, inr,
}
use native.Mathlib.Decide.{ℕ_discrete}
use mathlib.Core.List.{append-nil}
use aegir.Kernel.Tasks.{ready, running, dead, is_state}
use aegir.Kernel.PhysicalMemory.Chain.{has}
use aegir.Kernel.PhysicalMemory.Skip.{Yields}
use aegir.Kernel.Scheduler.{
  Sched, Status, ok, queue_empty, my_current, set_state, enqueue, push, pop,
}
use aegir.Kernel.Scheduler.Calls.{run, is_running, requeue, switch_to, yield}
use aegir.Kernel.Scheduler.Beside.{Same, Beside}
use aegir.Kernel.Scheduler.ReadyQueue.{IsReady, other}
use aegir.Kernel.Scheduler.Pushing.{enqueue-IsReady}
use aegir.Kernel.Scheduler.Choosing.{live, IsBest-Leads, Leads}
use aegir.Kernel.Scheduler.Popping.{Pops, pop-Pops}
use aegir.Kernel.Scheduler.Waking.{state_of, IsReady-kept, enqueue-Beside}
use aegir.Kernel.Scheduler.Requeuing.{again, contenders, Alike, live_ext, IsBest-ext}

-- No thread is live, and the hart is idle; or the best one, the oldest among equals, runs, its boost
-- spent, and the other live threads are queued in their order.
abbrev pub Turns : Sched → List ℕ → Status × Sched → Type 0
Turns s xs (st, u) =
    ((live s.tcb (contenders s xs) ≡ [])
      × (st ≡ queue_empty)
      × (my_current u ≡ none)
      × IsReady u [])
    ⊎ ((b : ℕ) × ((ls : List ℕ) × ((rs : List ℕ) × ((live s.tcb (contenders s xs) ≡ ls ++ b ∷ rs)
              × (st ≡ ok)
              × (my_current u ≡ some b)
              × (state_of u b ≡ running)
              × ((u.tcb b).boosted ≡ false)
              × Leads s.tcb ls b rs
              × IsReady u (ls ++ rs)))))

-- The queue before `Pop`, and what has changed.
record Queued (s : Sched) (xs : List ℕ) (v : Sched) : Type 0 where
  pub queue : IsReady v (contenders s xs)
  pub alike : (t : ℕ) → Alike (v.tcb t) (s.tcb t)
  pub current : v.current ≡ s.current
  pub hart : v.hart ≡ s.hart
  pub stopped : is_running (my_current v) v ≡ false

still-Queued :
    (s : Sched) (xs : List ℕ)
    → IsReady s xs
    → again (my_current s) s ≡ []
    → is_running (my_current s) s ≡ false
    → Queued s xs s
still-Queued s xs o e f = record {
  queue = rw (e, append-nil) o;
  alike = λ t. record { gone = refl; priority = refl; boosted = refl };
  current = refl;
  hart = refl;
  stopped = f;
}

module _ (s : Sched) (xs : List ℕ) (c : ℕ) (o : IsReady s xs) (e : my_current s ≡ some c)
    (r : is_state (state_of s c) running ≡ true) (f : has c xs ≡ false) where
  abbrev set_back : Sched
  set_back = set_state c ready s

  abbrev behind : Sched
  behind = enqueue c false false set_back

  self : (c == c) ≡ true
  self = ground arith

  push-behind : push (some c) false false set_back ≡ (ok, behind)
  unfolding push
  push-behind = let q : (s.tcb c).queued ≡ false = o.queued c ∙ f in rw (self, q) refl

  behind_kept : (t : ℕ) → Same (behind.tcb t) (set_back.tcb t)
  behind_kept t = (enqueue-Beside c false false set_back).same t

  behind_state : state_of behind c ≡ ready
  behind_state = (behind_kept c).state ∙ rw self refl

  behind_gone : (t : ℕ) → is_state (state_of behind t) dead ≡ is_state (state_of s t) dead
  behind_gone t = elim (ℕ_discrete t c) [
    | yes q ↦ rw (q, behind_state) (ground (arith, r))
    | no n ↦
        let k : state_of behind t ≡ state_of s t = (behind_kept t).state ∙ rw (other t c n) refl in
        rw k refl
  ]

  behind-Alike : (t : ℕ) → Alike (behind.tcb t) (s.tcb t)
  behind-Alike t = record {
    gone = behind_gone t;
    priority = (behind_kept t).priority ∙ ground arith;
    boosted = (behind_kept t).boosted ∙ ground arith;
  }

  behind-Queued : Queued s xs behind
  behind-Queued =
      let k = enqueue-Beside c false false set_back in
      record {
        queue =
            rw (e, r)
              (enqueue-IsReady set_back c xs false false
                (IsReady-kept s set_back xs refl refl refl
                  (λ v. (ground arith, ground arith, ground arith)) o)
                f);
        alike = behind-Alike;
        current = k.current;
        hart = k.hart;
        stopped = rw (k.current, k.hart, e, behind_state) refl;
      }

-- The running thread, if there is one, is not queued.
requeue-Queued :
    (s : Sched) (xs : List ℕ)
    → IsReady s xs
    → ((c : ℕ) → my_current s ≡ some c → has c xs ≡ false)
    → (v : Sched) × ((requeue (my_current s) s ≡ (ok, v)) × Queued s xs v)
unfolding requeue
requeue-Queued s xs o f =
    elim (my_current s)
        as (λ w. my_current s ≡ w → (v : Sched) × ((requeue w s ≡ (ok, v)) × Queued s xs v)) [
          | none ↦ λ e. (s, (refl, still-Queued s xs o (rw e refl) (rw e refl)))
          | some c ↦ λ e. elim (Bool-cases (is_state (state_of s c) running)) [
            | inl r ↦ (
              behind s xs c o e r (f c e),
              (rw r (push-behind s xs c o e r (f c e)), behind-Queued s xs c o e r (f c e)),
            )
            | inr r ↦ (s, (rw r refl, still-Queued s xs o (rw (e, r) refl) (rw (e, r) refl)))
          ]
        ]
      refl

run-IsReady :
    (b : ℕ) (t : Sched) (ys : List ℕ)
    → IsReady t ys
    → (t.tcb b).queued ≡ false
    → IsReady (run b t) ys
run-IsReady b t ys o q =
    IsReady-kept t (run b t) ys refl refl refl
      (λ v. (
        ground arith,
        ground arith,
        elim (ℕ_discrete v b) [
          | yes e ↦ let self : (b == b) ≡ true = ground arith in rw (e, self) (sym q)
          | no n ↦ rw (other v b n) refl
        ],
      ))
      o

run_state : (b : ℕ) (t : Sched) → state_of (run b t) b ≡ running
run_state b t = ground arith

run_boosted : (b : ℕ) (t : Sched) → ((run b t).tcb b).boosted ≡ (t.tcb b).boosted
run_boosted b t = ground arith

is_running_kept : (v t : Sched) (o : Option ℕ) → Beside v t → is_running o t ≡ is_running o v
is_running_kept v t none k = refl
is_running_kept v t (some c) k = rw ((k.same c).state) refl

switch_to-Turns :
    (s v : Sched) (xs : List ℕ) (r : Option ℕ × Status × Sched)
    → Queued s xs v
    → Pops v (contenders s xs) r
    → Turns s xs (switch_to r)
unfolding switch_to
switch_to-Turns s v xs (p, st, t) k y = elim y [
  | inl a ↦
      let (e, p0, q, ready_none, keeps) = a in
      let none_runs : is_running (my_current t) t ≡ false =
        let who : my_current t ≡ my_current v = rw (keeps.current, keeps.hart) refl in
        simp who (is_running_kept v t (my_current v) keeps ∙ k.stopped) in
      rw (p0, q, none_runs)
        (inl (
          sym (live_ext v.tcb s.tcb (contenders s xs) k.alike) ∙ e,
          refl,
          ground arith,
          record { links = ready_none.links; count = ready_none.count; queued = ready_none.queued },
        ))
  | inr a ↦
      let (b, (ls, (rs, (e, p0, q, best, w, boost, mark, cur, at_hart, rest)))) = a in
      rw (p0, q)
        (inr (
          b,
          (
            ls,
            (
              rs,
              (
                sym (live_ext v.tcb s.tcb (contenders s xs) k.alike) ∙ e,
                refl,
                ground arith,
                run_state b t,
                run_boosted b t ∙ boost,
                IsBest-Leads s.tcb ls rs b (IsBest-ext v.tcb s.tcb ls rs b k.alike best),
                run-IsReady b t (ls ++ rs) w mark,
              ),
            ),
          ),
        ))
]

length-again : (s : Sched) (xs : List ℕ) → length (contenders s xs) ≤ suc (length xs)
length-again s xs = short xs (my_current s)
  where
    short : (ys : List ℕ) (o : Option ℕ) → length (ys ++ again o s) ≤ suc (length ys)
    short (y ∷ ys) o = omega (arith, short ys o)
    short [] none = omega arith
    short [] (some c) = elim (Bool-cases (is_state (state_of s c) running)) [
      | inl r ↦ rw r (omega arith)
      | inr r ↦ rw r (omega arith)
    ]

-- `Yield` chooses among the queued threads and, at their end, the one that ran, without those that are
-- dead. If there is none, the answer is Queue_Empty and the hart is idle, with the queue empty.
-- Otherwise the answer is Ok: the thread that runs is the best, of the highest priority, a boosted one
-- before others of that priority and the first in the queue among equals; its boost is spent, and the
-- others stay queued in their order. The queue is taken to be well linked, the thread of this hart, if
-- it has one, not to be in it, and the fuel to be at least its length and two.
pub yield-Turns :
    (fuel : ℕ) (s : Sched) (xs : List ℕ)
    → IsReady s xs
    → ((c : ℕ) → my_current s ≡ some c → has c xs ≡ false)
    → suc (length xs) < fuel
    → Yields (Turns s xs) (yield fuel s)
unfolding yield
yield-Turns fuel s xs o f l =
    let (v, (e, k)) = requeue-Queued s xs o f in
    rw e (
      switched v k (pop fuel v)
        (pop-Pops fuel v (contenders s xs) k.queue (omega (arith, l, length-again s xs))))
  where
    switched :
        (v : Sched)
        → Queued s xs v
        → (r : Option (Option ℕ × Status × Sched)) → Yields (Pops v (contenders s xs)) r
        → Yields (Turns s xs) (elim r [ none ↦ none | some r ↦ some (switch_to r) ])
    switched v k none y = y
    switched v k (some r) y = switch_to-Turns s v xs r k y
