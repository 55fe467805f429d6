-- ===== src/Kernel/Scheduler/Beside.antt =====
-- What the operations on the queue of ready threads leave alone.
use aegir.Prelude.{ℕ, Bool, true, false, Option, none, some, ◌≡◌, refl, ◌∙◌, arith, ◌==◌}
use native.Mathlib.Decide.{ℕ_discrete}
use aegir.Kernel.Tasks.{Tcb}
use aegir.Kernel.Scheduler.{Sched, put, link_next, link_prev, unlink_ready, push_head, push_tail}

-- Two control blocks that differ in their place in the queue only.
pub record Same (a b : Tcb) : Type 0 where
  pub state : a.state ≡ b.state
  pub priority : a.priority ≡ b.priority
  pub boosted : a.boosted ≡ b.boosted
  pub sleep_next : a.sleep_next ≡ b.sleep_next
  pub sleep_prev : a.sleep_prev ≡ b.sleep_prev
  pub sleep_deadline : a.sleep_deadline ≡ b.sleep_deadline

Same-refl : (b : Tcb) → Same b b
Same-refl b = record {
  state = refl;
  priority = refl;
  boosted = refl;
  sleep_next = refl;
  sleep_prev = refl;
  sleep_deadline = refl;
}

-- The threads' other fields, the sleepers and the harts are as they were.
pub record Beside (s u : Sched) : Type 0 where
  pub same : (t : ℕ) → Same (u.tcb t) (s.tcb t)
  pub sleep_head : u.sleep_head ≡ s.sleep_head
  pub current : u.current ≡ s.current
  pub hart : u.hart ≡ s.hart

pub Beside-refl : (s : Sched) → Beside s s
Beside-refl s = record {
  same = λ t. Same-refl (s.tcb t);
  sleep_head = refl;
  current = refl;
  hart = refl;
}

pub Beside-trans : (s u v : Sched) → Beside s u → Beside u v → Beside s v
Beside-trans s u v a b = record {
  same = λ t. record {
    state = (b.same t).state ∙ (a.same t).state;
    priority = (b.same t).priority ∙ (a.same t).priority;
    boosted = (b.same t).boosted ∙ (a.same t).boosted;
    sleep_next = (b.same t).sleep_next ∙ (a.same t).sleep_next;
    sleep_prev = (b.same t).sleep_prev ∙ (a.same t).sleep_prev;
    sleep_deadline = (b.same t).sleep_deadline ∙ (a.same t).sleep_deadline;
  };
  sleep_head = b.sleep_head ∙ a.sleep_head;
  current = b.current ∙ a.current;
  hart = b.hart ∙ a.hart;
}

pub put-Beside : (t : ℕ) (b : Tcb) (s : Sched) → Same b (s.tcb t) → Beside s (put t b s)
put-Beside t b s h = record {
  same = λ u. elim (ℕ_discrete u t) [
    | yes q ↦ let self : (t == t) ≡ true = ground arith in rw (q, self) h
    | no n ↦ let other : (u == t) ≡ false = ground (arith, n) in rw other (Same-refl (s.tcb u))
  ];
  sleep_head = refl;
  current = refl;
  hart = refl;
}

pub linked-Same :
    (n p : Option ℕ) (q : Bool) (b : Tcb)
    → Same (record b { ready_next = n; ready_prev = p; queued = q }) b
linked-Same n p q b = record {
  state = refl;
  priority = refl;
  boosted = refl;
  sleep_next = refl;
  sleep_prev = refl;
  sleep_deadline = refl;
}

link_next-Beside : (p n : Option ℕ) (s : Sched) → Beside s (link_next p n s)
link_next-Beside none n s = record {
  same = λ t. Same-refl (s.tcb t);
  sleep_head = refl;
  current = refl;
  hart = refl;
}
link_next-Beside (some p) n s =
    put-Beside p _ s (linked-Same n (s.tcb p).ready_prev (s.tcb p).queued (s.tcb p))

link_prev-Beside : (n p : Option ℕ) (s : Sched) → Beside s (link_prev n p s)
link_prev-Beside none p s = record {
  same = λ t. Same-refl (s.tcb t);
  sleep_head = refl;
  current = refl;
  hart = refl;
}
link_prev-Beside (some n) p s =
    put-Beside n _ s (linked-Same (s.tcb n).ready_next p (s.tcb n).queued (s.tcb n))

pub unlink_ready-Beside : (t : ℕ) (s : Sched) → Beside s (unlink_ready t s)
unfolding unlink_ready
unlink_ready-Beside t s =
    let p = (s.tcb t).ready_prev in
    let n = (s.tcb t).ready_next in
    let a = link_next-Beside p n s in
    let u = link_next p n s in
    let b = link_prev-Beside n p u in
    let v = link_prev n p u in
    let c = put-Beside t _ v (linked-Same none none false (v.tcb t)) in
    let d = Beside-trans s v _ (Beside-trans s u v a b) c in
    record { same = d.same; sleep_head = d.sleep_head; current = d.current; hart = d.hart }

pub push_head-Beside : (t : ℕ) (s : Sched) → Beside s (push_head t s)
unfolding push_head
push_head-Beside t s =
    let u = put t (record (s.tcb t) { ready_prev = none; ready_next = s.ready_head }) s in
    let a = put-Beside t _ s (linked-Same s.ready_head none (s.tcb t).queued (s.tcb t)) in
    let d = Beside-trans s u _ a (link_prev-Beside s.ready_head (some t) u) in
    record { same = d.same; sleep_head = d.sleep_head; current = d.current; hart = d.hart }

pub push_tail-Beside : (t : ℕ) (s : Sched) → Beside s (push_tail t s)
unfolding push_tail
push_tail-Beside t s =
    let u = put t (record (s.tcb t) { ready_next = none; ready_prev = s.ready_tail }) s in
    let a = put-Beside t _ s (linked-Same none s.ready_tail (s.tcb t).queued (s.tcb t)) in
    let d = Beside-trans s u _ a (link_next-Beside s.ready_tail (some t) u) in
    record { same = d.same; sleep_head = d.sleep_head; current = d.current; hart = d.hart }
