-- ===== src/Kernel/Scheduler/Waking.antt =====
-- Both queues together, and `Wake`.
use aegir.Prelude.{
  ℕ, ◌+◌, Bool, true, false, Option, none, ◌||◌, none, List, ◌∷◌, ◌≡◌, ◌≢◌, refl, ◌∙◌, arith, ◌==◌,
  if◌then◌else◌,
}
use native.Mathlib.Decide.{ℕ_discrete}
use aegir.Kernel.Tasks.{ThreadState, ready, blocked_sleeping, dead, is_state}
use aegir.Kernel.PhysicalMemory.Chain.{has}
use aegir.Kernel.Scheduler.{
  Sched, is, ok, set_state, set_boosted, set_queued, push_head, push_tail, enqueue, notify_work,
  push,
}
use aegir.Kernel.Scheduler.Calls.{rouse}
use aegir.Kernel.Scheduler.Links.{Linked-ext}
use aegir.Kernel.Scheduler.Beside.{
  Beside, Beside-trans, put-Beside, linked-Same, push_head-Beside, push_tail-Beside,
}
use aegir.Kernel.Scheduler.ReadyQueue.{IsReady, next_of, prev_of, other}
use aegir.Kernel.Scheduler.Pushing.{enqueue-IsReady}
use aegir.Kernel.Scheduler.Undisturbed.{sleep_next_of, sleep_prev_of}
use aegir.Kernel.Scheduler.Sleeping.{IsSleeping, IsSorted-ext, deadline_of}

abbrev pub state_of : Sched → ℕ → ThreadState
state_of s t = (s.tcb t).state

-- The two queues: those that are ready, some of which may have died, and those that sleep, but for one
-- that is about to.
pub record IsWellBut (spare : Option ℕ) (s : Sched) (xs zs : List ℕ) : Type 0 where
  pub queue : IsReady s xs
  pub sleeping : IsSleeping s zs
  pub runnable :
      (t : ℕ)
      → has t xs ≡ true
      → (is_state (state_of s t) ready || is_state (state_of s t) dead) ≡ true
  pub asleep :
      (t : ℕ)
      → has t zs ≡ true
      → is spare t ≡ false
      → is_state (state_of s t) blocked_sleeping ≡ true

abbrev pub IsWell : Sched → List ℕ → List ℕ → Type 0
IsWell s xs zs = IsWellBut none s xs zs

-- Nothing is changed that the sleepers' queue is made of.
pub IsSleeping-kept :
    (s u : Sched) (zs : List ℕ)
    → u.sleep_head ≡ s.sleep_head
    → ((t : ℕ)
        → ((u.tcb t).sleep_next ≡ (s.tcb t).sleep_next)
          × ((u.tcb t).sleep_prev ≡ (s.tcb t).sleep_prev)
          × (deadline_of u t ≡ deadline_of s t))
    → IsSleeping s zs
    → IsSleeping u zs
IsSleeping-kept s u zs h k o = record {
  links = rw h (
      Linked-ext (sleep_next_of s) (sleep_prev_of s) _ _ none zs s.sleep_head _
        (λ t w. let e = k t in (e.0, e.1)) o.links);
  sorted = IsSorted-ext (deadline_of s) _ zs (λ t. (k t).2) o.sorted;
}

-- Nothing is changed that the queue of ready threads is made of.
pub IsReady-kept :
    (s u : Sched) (xs : List ℕ)
    → u.ready_head ≡ s.ready_head
    → u.ready_tail ≡ s.ready_tail
    → u.ready_n ≡ s.ready_n
    → ((t : ℕ)
        → ((u.tcb t).ready_next ≡ (s.tcb t).ready_next)
          × ((u.tcb t).ready_prev ≡ (s.tcb t).ready_prev)
          × ((u.tcb t).queued ≡ (s.tcb t).queued))
    → IsReady s xs
    → IsReady u xs
IsReady-kept s u xs h l n k o = record {
  links =
      rw (h, l)
        (Linked-ext (next_of s) (prev_of s) _ _ none xs s.ready_head s.ready_tail
          (λ t w. let e = k t in (e.0, e.1)) o.links);
  count = n ∙ o.count;
  queued = λ t. (k t).2 ∙ o.queued t;
}

called-Beside : (b : Bool) (s v : Sched) → Beside s v → Beside s (if b then notify_work v else v)
called-Beside true s v o = record {
  same = o.same;
  sleep_head = o.sleep_head;
  current = o.current;
  hart = o.hart;
}
called-Beside false s v o = o

marked-Beside :
    (x : ℕ) (s u : Sched)
    → Beside s u
    → Beside s (record (set_queued x true u) { ready_n = u.ready_n + 1 })
marked-Beside x s u o =
    let k =
      Beside-trans s u _ o
        (put-Beside x _ u (linked-Same (u.tcb x).ready_next (u.tcb x).ready_prev true (u.tcb x))) in
    record { same = k.same; sleep_head = k.sleep_head; current = k.current; hart = k.hart }

pub enqueue-Beside : (x : ℕ) (notify boost : Bool) (s : Sched) → Beside s (enqueue x notify boost s)
unfolding enqueue
enqueue-Beside x notify true s =
    called-Beside _ s _ (marked-Beside x s (push_head x s) (push_head-Beside x s))
enqueue-Beside x notify false s =
    called-Beside _ s _ (marked-Beside x s (push_tail x s) (push_tail-Beside x s))

-- The states and the boosts of the others, every priority and every deadline are as they were.
pub record Leaves (t : ℕ) (s u : Sched) : Type 0 where
  pub states : (v : ℕ) → v ≢ t → state_of u v ≡ state_of s v
  pub priorities : (v : ℕ) → (u.tcb v).priority ≡ (s.tcb v).priority
  pub deadlines : (v : ℕ) → deadline_of u v ≡ deadline_of s v
  pub boosts : (v : ℕ) → v ≢ t → (u.tcb v).boosted ≡ (s.tcb v).boosted
  pub current : u.current ≡ s.current
  pub hart : u.hart ≡ s.hart

module _ (spare : Option ℕ) where
  -- A thread has become ready, at the head of its queue.
  abbrev pub Roused : Sched → ℕ → List ℕ → List ℕ → Sched → Type 0
  Roused s t xs zs u =
      IsWellBut spare u (t ∷ xs) zs
      × (state_of u t ≡ ready)
      × ((u.tcb t).boosted ≡ true)
      × Leaves t s u

  -- `rouse` of a thread that neither sleeps nor is queued.
  module _ (s : Sched) (t : ℕ) (xs zs : List ℕ) (o : IsWellBut spare s xs zs) (f : has t xs ≡ false)
      (g : has t zs ≡ false) where
    abbrev pub risen : Sched
    risen = set_boosted t true (set_state t ready s)

    abbrev pub up : Sched
    up = enqueue t true true risen

    up-Beside : Beside risen up
    up-Beside = enqueue-Beside t true true risen

    self : (t == t) ≡ true
    self = ground arith

    pub push-rouse : rouse t s ≡ (ok, up)
    unfolding push
    push-rouse = let q : (s.tcb t).queued ≡ false = o.queue.queued t ∙ f in rw (self, q) refl

    up_states : (v : ℕ) → v ≢ t → state_of up v ≡ state_of s v
    up_states v n = (up-Beside.same v).state ∙ rw (other v t n) refl

    up_deadline : (v : ℕ) → deadline_of up v ≡ deadline_of s v
    up_deadline v = (up-Beside.same v).sleep_deadline ∙ ground arith

    up_ready : state_of up t ≡ ready
    up_ready = (up-Beside.same t).state ∙ rw self refl

    up-IsReady : IsReady up (t ∷ xs)
    up-IsReady =
        enqueue-IsReady risen t xs true true
          (IsReady-kept s risen xs refl refl refl (λ v. (ground arith, ground arith, ground arith))
            o.queue)
          f

    up-IsSleeping : IsSleeping up zs
    up-IsSleeping =
        IsSleeping-kept s up zs (up-Beside.sleep_head)
          (λ v. (
            (up-Beside.same v).sleep_next ∙ ground arith,
            (up-Beside.same v).sleep_prev ∙ ground arith,
            up_deadline v,
          ))
          o.sleeping

    pub rouse-Roused : Roused s t xs zs up
    rouse-Roused = (
      record {
        queue = up-IsReady;
        sleeping = up-IsSleeping;
        runnable = λ v h. elim (ℕ_discrete v t) [
          | yes q ↦ rw (q, up_ready) refl
          | no n ↦ rw (up_states v n) (o.runnable v (ground (arith, h, n)))
        ];
        asleep = λ v h i. rw (up_states v (λ q. ground (arith, rw q at (h), g))) (o.asleep v h i);
      },
      up_ready,
      (up-Beside.same t).boosted ∙ rw self refl,
      record {
        states = up_states;
        priorities = λ v. (up-Beside.same v).priority ∙ ground arith;
        deadlines = up_deadline;
        boosts = λ v n. (up-Beside.same v).boosted ∙ rw (other v t n) refl;
        current = up-Beside.current;
        hart = up-Beside.hart;
      },
    )
