-- ===== src/Kernel/Scheduler/Calls.antt =====
-- src/kernel/kernel-scheduler.adb: what the kernel calls of the scheduler.
use aegir.Prelude.{
  ℕ, zero, suc, ◌+◌, ◌-◌, ◌%◌, ◌^◌, min, Bool, true, false, not, ◌&&◌, ◌||◌, Option, none, some,
  leb, ltb, if◌then◌else◌,
}
use aegir.Kernel.Tasks.{ThreadState, ready, running, blocked_sleeping, dead, is_state, Tcb}
use aegir.Kernel.Scheduler.{
  Status, ok, queue_empty, invalid_task, no_current_task, Sched, quantum_interval, max_cpus, is,
  put, my_current, set_my_current, set_state, set_boosted, set_queued, push, pop, insert_sleeper,
  remove_sleeper, unlink_ready,
}

unfoldable pub initialize : Sched → Sched
initialize s = record s {
  ready_head = none;
  ready_tail = none;
  ready_n = 0;
  sleep_head = none;
  current = λ c. none;
}

unfoldable pub add_task : Option ℕ → Sched → Status × Sched
add_task none s = (invalid_task, s)
add_task (some t) s = push (some t) true false (set_state t ready s)

-- The thread runs on this hart.
abbrev pub run : ℕ → Sched → Sched
run t s = set_state t running (set_queued t false (set_my_current (some t) s))

unfoldable pub set_current : Option ℕ → Sched → Status × Sched
set_current none s = (invalid_task, s)
set_current (some t) s = (ok, run t s)

-- The harts from `c` on, `n` of them.
unfoldable pub find_cpu : ℕ → ℕ → ℕ → Sched → Option ℕ
find_cpu zero c t s = none
find_cpu (suc n) c t s =
    let rest = find_cpu n (suc c) t s in if is (s.current c) t then some c else rest

unfoldable pub current_cpu_of : ℕ → Sched → Option ℕ
current_cpu_of t s = find_cpu max_cpus 0 t s

-- Whether a thread of the queue from `cand` on passes a test.
unfoldable pub some_ready : ℕ → (Tcb → Bool) → Option ℕ → Sched → Option Bool
some_ready zero test cand s = none
some_ready (suc fuel) test none s = some false
some_ready (suc fuel) test (some c) s =
    let rest = some_ready fuel test (s.tcb c).ready_next s in
    if not (is_state (s.tcb c).state dead) && test (s.tcb c) then some true else rest

abbrev preempted_by : ℕ → Option ℕ → Sched → Option Bool
preempted_by fuel none s = some false
preempted_by fuel (some c) s =
    if not (is_state (s.tcb c).state running)
    then some false
    else some_ready fuel (λ b. ltb (s.tcb c).priority b.priority) s.ready_head s

unfoldable pub should_preempt : ℕ → Sched → Option Bool
should_preempt fuel s = preempted_by fuel (my_current s) s

abbrev boosted_past : ℕ → Option ℕ → Sched → Option Bool
boosted_past fuel none s = some false
boosted_past fuel (some c) s =
    if not (is_state (s.tcb c).state running) || (s.tcb c).boosted
    then some false
    else some_ready fuel (λ b. b.boosted && leb (s.tcb c).priority b.priority) s.ready_head s

unfoldable pub should_boost_preempt : ℕ → Sched → Option Bool
should_boost_preempt fuel s = boosted_past fuel (my_current s) s

abbrev pub is_running : Option ℕ → Sched → Bool
is_running none s = false
is_running (some c) s = is_state (s.tcb c).state running

-- The running thread is queued again.
unfoldable pub requeue : Option ℕ → Sched → Status × Sched
requeue none s = (ok, s)
requeue (some c) s =
    if is_state (s.tcb c).state running
    then push (some c) false false (set_state c ready s)
    else (ok, s)

-- What `Yield` does with the thread that it has popped.
unfoldable pub switch_to : Option ℕ × Status × Sched → Status × Sched
switch_to (some t, ok, s) = (ok, run t s)
switch_to (none, ok, s) = (ok, s)
switch_to (t, queue_empty, s) =
    if is_running (my_current s) s then (ok, s) else (queue_empty, set_my_current none s)
switch_to (t, st, s) = (st, s)

abbrev pub after_requeue : ℕ → Status × Sched → Option (Status × Sched)
after_requeue fuel (ok, s) = elim (pop fuel s) [ none ↦ none | some r ↦ some (switch_to r) ]
after_requeue fuel (st, s) = some (st, s)

unfoldable pub yield : ℕ → Sched → Option (Status × Sched)
yield fuel s = after_requeue fuel (requeue (my_current s) s)

abbrev pub block_on : ThreadState → Option ℕ → Sched → Status × Sched
block_on a none s = (no_current_task, s)
block_on a (some c) s = (ok, set_my_current none (set_boosted c false (set_state c a s)))

unfoldable pub block_current : ThreadState → Sched → Status × Sched
block_current a s = block_on a (my_current s) s

abbrev pub exit_of : ℕ → Option ℕ → Sched → Option (Status × Sched)
exit_of fuel none s = some (no_current_task, s)
exit_of fuel (some c) s = elim (remove_sleeper fuel c s) [
  | none ↦ none
  | some u ↦ some (ok, set_my_current none (set_queued c false (set_state c dead u)))
]

unfoldable pub exit_current : ℕ → Sched → Option (Status × Sched)
exit_current fuel s = exit_of fuel (my_current s) s

-- The thread becomes ready, ahead of its class.
abbrev pub rouse : ℕ → Sched → Status × Sched
rouse t s = push (some t) true true (set_boosted t true (set_state t ready s))

unfoldable pub wake : ℕ → Option ℕ → Sched → Option (Status × Sched)
wake fuel none s = some (invalid_task, s)
wake fuel (some t) s =
    if is_state (s.tcb t).state dead
    then some (invalid_task, s)
    else if is_state (s.tcb t).state running || is_state (s.tcb t).state ready
    then some (ok, s)
    else if is_state (s.tcb t).state blocked_sleeping
    then elim (remove_sleeper fuel t s) [ none ↦ none | some u ↦ some (rouse t u) ]
    else some (rouse t s)

-- The thread at the head of the sleepers leaves them and is woken.
unfoldable pub wake_first : ℕ → ℕ → Sched → Option Sched
wake_first fuel t s = elim (remove_sleeper fuel t s) [
  | none ↦ none
  | some u ↦ elim (wake fuel (some t) u) [ none ↦ none | some (st, v) ↦ some v ]
]

-- The loop of `Check_Sleepers`, in `rounds`, and the deadline that is next.
unfoldable pub wake_due : ℕ → ℕ → ℕ → Option ℕ → Sched → Option (ℕ × Sched)
wake_due zero fuel now head s = none
wake_due (suc rounds) fuel now none s = some (2 ^ 64 - 1, s)
wake_due (suc rounds) fuel now (some h) s = elim (leb (s.tcb h).sleep_deadline now) [
  | false ↦ some ((s.tcb h).sleep_deadline, s)
  | true ↦ elim (wake_first fuel h s) [
    | none ↦ none
    | some u ↦ wake_due rounds fuel now u.sleep_head u
  ]
]

unfoldable pub check_sleepers : ℕ → ℕ → Sched → Option (ℕ × Sched)
check_sleepers fuel now s = wake_due fuel fuel now s.sleep_head s

unfoldable pub next_timer_deadline : ℕ → ℕ → Sched → Option (ℕ × Sched)
next_timer_deadline fuel now s = elim (check_sleepers fuel now s) [
  | none ↦ none
  | some (next, u) ↦ some (min ((now + quantum_interval) % 2 ^ 64) next, u)
]

abbrev pub sleep_of : ℕ → ℕ → Option ℕ → Sched → Option (Status × Sched)
sleep_of fuel deadline none s = some (no_current_task, s)
sleep_of fuel deadline (some c) s =
    if leb deadline s.now
    then some (ok, s)
    else elim (insert_sleeper fuel c (put c (record (s.tcb c) { sleep_deadline = deadline }) s)) [
      | none ↦ none
      | some u ↦ elim (next_timer_deadline fuel s.now u) [
        | none ↦ none
        | some (at, v) ↦ some (block_current blocked_sleeping (record v { timer = at }))
      ]
    ]

unfoldable pub sleep_until : ℕ → ℕ → Sched → Option (Status × Sched)
sleep_until fuel deadline s = sleep_of fuel deadline (my_current s) s

unfoldable pub remove_thread : ℕ → Option ℕ → Sched → Option (Status × Sched)
remove_thread fuel none s = some (invalid_task, s)
remove_thread fuel (some t) s =
    let cut : Sched = record s {
      current = λ c. if is (s.current c) t then none else s.current c;
    } in
    elim (remove_sleeper fuel t cut) [
      | none ↦ none
      | some u ↦ some (ok, if (u.tcb t).queued then unlink_ready t u else u)
    ]

-- What src/kernel/kernel-processes.adb does with a thread that dies: Mark_Exited with the threads of the
-- process but for the one that runs, and Thread_Exit with its own.
unfoldable pub retire : ℕ → ℕ → Sched → Option (Status × Sched)
retire fuel t s = remove_thread fuel (some t) (set_queued t false (set_state t dead s))

unfoldable pub ready_count : Sched → ℕ
ready_count s = s.ready_n
