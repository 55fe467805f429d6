-- ===== src/Kernel/Scheduler/Removing.antt =====
-- `Remove_Thread`, as Mark_Exited and Thread_Exit of src/kernel/kernel-processes.adb call it: the thread is
-- dead, and not marked as queued, even where it is linked.
use aegir.Prelude.{ℕ, ◌==◌, false, none, List, length, ◌≡◌, ◌≢◌, if◌then◌else◌}
use aegir.Kernel.Tasks.{dead}
use aegir.Kernel.PhysicalMemory.Chain.{has, without}
use aegir.Kernel.Scheduler.{Sched, Status, ok, is, set_state, set_queued}
use aegir.Kernel.Scheduler.Links.{Linked}
use aegir.Kernel.Scheduler.ReadyQueue.{next_of, prev_of}
use aegir.Kernel.Scheduler.Undisturbed.{Undisturbed}
use aegir.Kernel.Scheduler.Sleeping.{IsSleeping}
use aegir.Kernel.Scheduler.Waking.{state_of}

-- The thread is dead, it does not sleep, and no hart runs it. The links of the ready queue lead through
-- the threads `xs` as before. The states of the other threads, and what the other harts run, are as
-- they were.
pub record Retired (s : Sched) (t : ℕ) (xs zs : List ℕ) (r : Status × Sched) : Type 0 where
  pub answer : r.0 ≡ ok
  pub sleeping : IsSleeping r.1 (without t zs)
  pub links : Linked (next_of r.1) (prev_of r.1) none xs r.1.ready_head r.1.ready_tail
  pub count : r.1.ready_n ≡ length xs
  pub queued : (u : ℕ) → (r.1.tcb u).queued ≡ (if u == t then false else has u xs)
  pub current : (c : ℕ) → r.1.current c ≡ (if is (s.current c) t then none else s.current c)
  pub died : state_of r.1 t ≡ dead
  pub others : (u : ℕ) → u ≢ t → state_of r.1 u ≡ state_of s u

-- The harts are cut off first.
abbrev marked : ℕ → Sched → Sched
marked t s =
    let m = set_queued t false (set_state t dead s) in
    record m { current = λ c. if is (m.current c) t then none else m.current c }
