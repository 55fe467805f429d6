-- ===== src/Kernel/Scheduler/Undisturbed.antt =====
-- What the operations on the sleepers leave alone.
use aegir.Prelude.{ℕ, true, Option, none, some, ◌≡◌, refl, ◌∙◌, arith, ◌==◌}
use native.Mathlib.Decide.{ℕ_discrete}
use aegir.Kernel.Tasks.{Tcb}
use aegir.Kernel.Scheduler.{
  Sched, put, link_sleep_next, link_sleep_prev, link_sleeper, unlink_sleeper,
}
use aegir.Kernel.Scheduler.ReadyQueue.{other}

abbrev pub sleep_next_of : Sched → ℕ → Option ℕ
sleep_next_of s t = (s.tcb t).sleep_next

abbrev pub sleep_prev_of : Sched → ℕ → Option ℕ
sleep_prev_of s t = (s.tcb t).sleep_prev

-- Two control blocks that differ in their place among the sleepers only.
pub record Awake (a b : Tcb) : Type 0 where
  pub state : a.state ≡ b.state
  pub priority : a.priority ≡ b.priority
  pub boosted : a.boosted ≡ b.boosted
  pub queued : a.queued ≡ b.queued
  pub ready_next : a.ready_next ≡ b.ready_next
  pub ready_prev : a.ready_prev ≡ b.ready_prev
  pub sleep_deadline : a.sleep_deadline ≡ b.sleep_deadline

pub relinked-Awake :
    (n p : Option ℕ) (b : Tcb) → Awake (record b { sleep_next = n; sleep_prev = p }) b
relinked-Awake n p b = record {
  state = refl;
  priority = refl;
  boosted = refl;
  queued = refl;
  ready_next = refl;
  ready_prev = refl;
  sleep_deadline = refl;
}

-- The queue of ready threads and the harts are as they were.
pub record Undisturbed (s u : Sched) : Type 0 where
  pub awake : (t : ℕ) → Awake (u.tcb t) (s.tcb t)
  pub head : u.ready_head ≡ s.ready_head
  pub tail : u.ready_tail ≡ s.ready_tail
  pub count : u.ready_n ≡ s.ready_n
  pub current : u.current ≡ s.current
  pub hart : u.hart ≡ s.hart

pub Undisturbed-refl : (s : Sched) → Undisturbed s s
Undisturbed-refl s = record {
  awake = λ t. relinked-Awake (s.tcb t).sleep_next (s.tcb t).sleep_prev (s.tcb t);
  head = refl;
  tail = refl;
  count = refl;
  current = refl;
  hart = refl;
}

pub Undisturbed-trans : (s u v : Sched) → Undisturbed s u → Undisturbed u v → Undisturbed s v
Undisturbed-trans s u v a b = record {
  awake = λ t. record {
    state = (b.awake t).state ∙ (a.awake t).state;
    priority = (b.awake t).priority ∙ (a.awake t).priority;
    boosted = (b.awake t).boosted ∙ (a.awake t).boosted;
    queued = (b.awake t).queued ∙ (a.awake t).queued;
    ready_next = (b.awake t).ready_next ∙ (a.awake t).ready_next;
    ready_prev = (b.awake t).ready_prev ∙ (a.awake t).ready_prev;
    sleep_deadline = (b.awake t).sleep_deadline ∙ (a.awake t).sleep_deadline;
  };
  head = b.head ∙ a.head;
  tail = b.tail ∙ a.tail;
  count = b.count ∙ a.count;
  current = b.current ∙ a.current;
  hart = b.hart ∙ a.hart;
}

put-Undisturbed : (t : ℕ) (b : Tcb) (s : Sched) → Awake b (s.tcb t) → Undisturbed s (put t b s)
put-Undisturbed t b s h = record {
  awake = λ u. elim (ℕ_discrete u t) [
    | yes q ↦ let self : (t == t) ≡ true = ground arith in rw (q, self) h
    | no n ↦ let out = other u t n in rw out ((Undisturbed-refl s).awake u)
  ];
  head = refl;
  tail = refl;
  count = refl;
  current = refl;
  hart = refl;
}

link_sleep_next-Undisturbed : (p n : Option ℕ) (s : Sched) → Undisturbed s (link_sleep_next p n s)
link_sleep_next-Undisturbed none n s = record {
  awake = (Undisturbed-refl s).awake;
  head = refl;
  tail = refl;
  count = refl;
  current = refl;
  hart = refl;
}
link_sleep_next-Undisturbed (some p) n s =
    put-Undisturbed p _ s (relinked-Awake n (s.tcb p).sleep_prev (s.tcb p))

link_sleep_prev-Undisturbed : (n p : Option ℕ) (s : Sched) → Undisturbed s (link_sleep_prev n p s)
link_sleep_prev-Undisturbed none p s = Undisturbed-refl s
link_sleep_prev-Undisturbed (some n) p s =
    put-Undisturbed n _ s (relinked-Awake (s.tcb n).sleep_next p (s.tcb n))

pub unlink_sleeper-Undisturbed :
    (c : ℕ) (prev : Option ℕ) (s : Sched) → Undisturbed s (unlink_sleeper c prev s)
unfolding unlink_sleeper
unlink_sleeper-Undisturbed c prev s =
    let n = (s.tcb c).sleep_next in
    let u = link_sleep_next prev n s in
    let v = link_sleep_prev n prev u in
    Undisturbed-trans s v _
      (Undisturbed-trans s u v (link_sleep_next-Undisturbed prev n s)
        (link_sleep_prev-Undisturbed n prev u))
      (put-Undisturbed c _ v (relinked-Awake none none (v.tcb c)))

pub link_sleeper-Undisturbed :
    (t : ℕ) (prev cur : Option ℕ) (s : Sched) → Undisturbed s (link_sleeper t prev cur s)
link_sleeper-Undisturbed t prev cur s =
    let u = put t (record (s.tcb t) { sleep_prev = prev; sleep_next = cur }) s in
    let v = link_sleep_next prev (some t) u in
    Undisturbed-trans s v _
      (Undisturbed-trans s u v (put-Undisturbed t _ s (relinked-Awake cur prev (s.tcb t)))
        (link_sleep_next-Undisturbed prev (some t) u))
      (link_sleep_prev-Undisturbed cur (some t) v)
