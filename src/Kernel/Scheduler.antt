-- ===== src/Kernel/Scheduler.antt =====
-- src/kernel/kernel-scheduler.adb: the queue of the threads that are ready and the queue of those that
-- sleep, both linked through the control blocks, and the thread that each hart runs. A thread is a
-- number, null is `none`. The walks along a queue take the number of their rounds as fuel.
pub mod Calls
pub mod Links
pub mod Putting
pub mod Beside
pub mod ReadyQueue
pub mod Pushing
pub mod Choosing
pub mod Popping
pub mod Undisturbed
pub mod SleepLinks
pub mod Sleeping
pub mod Inserting
pub mod Waking
pub mod Timing
pub mod Due
pub mod Requeuing
pub mod Yielding
pub mod Passing
pub mod Preempting
pub mod Removing
pub mod Resting
pub mod Bedtime
use aegir.Prelude.{
  ℕ, zero, suc, ◌+◌, ◌-◌, ◌%◌, ◌^◌, min, Bool, true, false, not, ◌&&◌, ◌||◌, Option, none, some,
  leb, ltb, ◌==◌, if◌then◌else◌,
}
use aegir.Kernel.Tasks.{ThreadState, ready, running, blocked_sleeping, dead, is_state, Tcb}

pub data Status : Type 0 where
  ok queue_empty invalid_task no_current_task : Status

abbrev pub quantum_interval : ℕ
quantum_interval = 500000

abbrev pub max_cpus : ℕ
max_cpus = 64

-- The package's variables, the control blocks, the hart that runs this code, the time, the timer that
-- was set last, and how often Notify_Work was called.
pub record Sched : Type 0 where
  pub ready_head : Option ℕ
  pub ready_tail : Option ℕ
  pub ready_n : ℕ
  pub sleep_head : Option ℕ
  pub current : ℕ → Option ℕ
  pub tcb : ℕ → Tcb
  pub hart : ℕ
  pub now : ℕ
  pub timer : ℕ
  pub notices : ℕ

abbrev pub is : Option ℕ → ℕ → Bool
is none t = false
is (some u) t = t == u

abbrev pub put : ℕ → Tcb → Sched → Sched
put t b s = record s { tcb = λ u. if u == t then b else s.tcb u }

abbrev pub my_current : Sched → Option ℕ
my_current s = s.current s.hart

abbrev pub set_my_current : Option ℕ → Sched → Sched
set_my_current t s = record s { current = λ c. if c == s.hart then t else s.current c }

abbrev pub set_state : ℕ → ThreadState → Sched → Sched
set_state t a s = put t (record (s.tcb t) { state = a }) s

abbrev pub set_boosted : ℕ → Bool → Sched → Sched
set_boosted t b s = put t (record (s.tcb t) { boosted = b }) s

abbrev pub set_queued : ℕ → Bool → Sched → Sched
set_queued t b s = put t (record (s.tcb t) { queued = b }) s

-- `Set_Ready_Next (P.all, N)`, or the head of the queue when P is null; and the other three.
abbrev pub link_next : Option ℕ → Option ℕ → Sched → Sched
link_next none n s = record s { ready_head = n }
link_next (some p) n s = put p (record (s.tcb p) { ready_next = n }) s

abbrev pub link_prev : Option ℕ → Option ℕ → Sched → Sched
link_prev none p s = record s { ready_tail = p }
link_prev (some n) p s = put n (record (s.tcb n) { ready_prev = p }) s

abbrev pub link_sleep_next : Option ℕ → Option ℕ → Sched → Sched
link_sleep_next none n s = record s { sleep_head = n }
link_sleep_next (some p) n s = put p (record (s.tcb p) { sleep_next = n }) s

abbrev pub link_sleep_prev : Option ℕ → Option ℕ → Sched → Sched
link_sleep_prev none p s = s
link_sleep_prev (some n) p s = put n (record (s.tcb n) { sleep_prev = p }) s

unfoldable pub better : Tcb → Tcb → Bool
better cand best =
    ltb best.priority cand.priority
    || (cand.priority == best.priority) && cand.boosted && not best.boosted

abbrev pub outranked : Option ℕ → ℕ → Sched → Bool
outranked none t s = false
outranked (some c) t s =
    is_state (s.tcb c).state running && ltb (s.tcb c).priority (s.tcb t).priority

-- The first `n` harts.
unfoldable pub outranks_running : ℕ → ℕ → Sched → Bool
outranks_running zero t s = false
outranks_running (suc n) t s = outranked (s.current n) t s || outranks_running n t s

unfoldable pub unlink_ready : ℕ → Sched → Sched
unlink_ready t s =
    let p = (s.tcb t).ready_prev in
    let n = (s.tcb t).ready_next in
    let u = link_prev n p (link_next p n s) in
    record (put t (record (u.tcb t) { ready_next = none; ready_prev = none; queued = false }) u) {
      ready_n = u.ready_n - 1;
    }

-- The thread goes before the head of the queue, or after its tail.
unfoldable pub push_head : ℕ → Sched → Sched
push_head t s =
    let u = put t (record (s.tcb t) { ready_prev = none; ready_next = s.ready_head }) s in
    record (link_prev s.ready_head (some t) u) { ready_head = some t }

unfoldable pub push_tail : ℕ → Sched → Sched
push_tail t s =
    let u = put t (record (s.tcb t) { ready_next = none; ready_prev = s.ready_tail }) s in
    record (link_next s.ready_tail (some t) u) { ready_tail = some t }

abbrev pub is_none : Option ℕ → Bool
is_none none = true
is_none (some t) = false

abbrev pub notify_work : Sched → Sched
notify_work s = record s { notices = s.notices + 1 }

-- `Push` of a thread that is not queued.
unfoldable pub enqueue : ℕ → Bool → Bool → Sched → Sched
enqueue t notify boost s =
    let u = if boost then push_head t s else push_tail t s in
    let v = record (set_queued t true u) { ready_n = u.ready_n + 1 } in
    if notify && (is_none s.ready_head || outranks_running max_cpus t v) then notify_work v else v

unfoldable pub push : Option ℕ → Bool → Bool → Sched → Status × Sched
push none notify boost s = (invalid_task, s)
push (some t) notify boost s =
    if is_state (s.tcb t).state dead
    then (invalid_task, s)
    else if (s.tcb t).queued
    then (ok, s)
    else (ok, enqueue t notify boost s)

-- The walk of `Insert_Sleeper`: the last thread that stays before, and the first one after.
unfoldable pub sleep_place : ℕ → ℕ → Option ℕ → Option ℕ → Sched → Option (Option ℕ × Option ℕ)
sleep_place zero deadline prev cur s = none
sleep_place (suc fuel) deadline prev none s = some (prev, none)
sleep_place (suc fuel) deadline prev (some c) s =
    let rest = sleep_place fuel deadline (some c) (s.tcb c).sleep_next s in
    if leb (s.tcb c).sleep_deadline deadline then rest else some (prev, some c)

abbrev pub link_sleeper : ℕ → Option ℕ → Option ℕ → Sched → Sched
link_sleeper t prev cur s =
    let u = put t (record (s.tcb t) { sleep_prev = prev; sleep_next = cur }) s in
    link_sleep_prev cur (some t) (link_sleep_next prev (some t) u)

unfoldable pub insert_sleeper : ℕ → ℕ → Sched → Option Sched
insert_sleeper fuel t s = elim (sleep_place fuel (s.tcb t).sleep_deadline none s.sleep_head s) [
  | none ↦ none
  | some (prev, cur) ↦ some (link_sleeper t prev cur s)
]

-- A sleeper is taken out, behind the one that the walk saw before it.
unfoldable pub unlink_sleeper : ℕ → Option ℕ → Sched → Sched
unlink_sleeper c prev s =
    let n = (s.tcb c).sleep_next in
    let u = link_sleep_prev n prev (link_sleep_next prev n s) in
    put c (record (u.tcb c) { sleep_next = none; sleep_prev = none }) u

-- The walk of `Remove_Sleeper`.
unfoldable pub remove_from : ℕ → ℕ → Option ℕ → Option ℕ → Sched → Option Sched
remove_from zero t prev cur s = none
remove_from (suc fuel) t prev none s = some s
remove_from (suc fuel) t prev (some c) s =
    let rest = remove_from fuel t (some c) (s.tcb c).sleep_next s in
    if c == t then some (unlink_sleeper c prev s) else rest

unfoldable pub remove_sleeper : ℕ → ℕ → Sched → Option Sched
remove_sleeper fuel t s = remove_from fuel t none s.sleep_head s

abbrev pub best_of : ℕ → Option ℕ → Sched → Option ℕ
best_of c none s = some c
best_of c (some b) s = if better (s.tcb c) (s.tcb b) then some c else some b

-- The pass of `Pop`: dead threads leave the queue, and the best of the others is found.
unfoldable pub scan : ℕ → Option ℕ → Option ℕ → Sched → Option (Option ℕ × Sched)
scan zero best cand s = none
scan (suc fuel) best none s = some (best, s)
scan (suc fuel) best (some c) s =
    let gone = is_state (s.tcb c).state dead in
    scan fuel (if gone then best else best_of c best s) (s.tcb c).ready_next
      (if gone then unlink_ready c s else s)

-- The boost is spent.
unfoldable pub take_best : Option ℕ → Sched → Option ℕ × Status × Sched
take_best none s = (none, queue_empty, s)
take_best (some b) s = (some b, ok, set_boosted b false (unlink_ready b s))

unfoldable pub pop : ℕ → Sched → Option (Option ℕ × Status × Sched)
pop fuel s = elim (scan fuel none s.ready_head s) [
  | none ↦ none
  | some (best, u) ↦ some (take_best best u)
]
