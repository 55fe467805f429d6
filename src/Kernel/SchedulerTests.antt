-- ===== src/Kernel/SchedulerTests.antt =====
-- A hart with one thread running, two ready and two asleep, and instances at it.
use aegir.Prelude.{ℕ, true, false, none, some, [], ◌∷◌, ◌≡◌, refl, ap, arith, ◌==◌, if◌then◌else◌}
use aegir.Kernel.Tasks.{Tcb, ready, running, blocked_receive, blocked_sleeping}
use aegir.Kernel.PhysicalMemory.Skip.{Yields}
use aegir.Kernel.Scheduler.{Sched}
use aegir.Kernel.Scheduler.Calls.{wake, check_sleepers, sleep_until, yield, should_preempt}
use aegir.Kernel.Scheduler.ReadyQueue.{IsReady}
use aegir.Kernel.Scheduler.Waking.{IsWell}
use aegir.Kernel.Scheduler.Timing.{Wakes, wake-Wakes}
use aegir.Kernel.Scheduler.Due.{WakesDue, check_sleepers-WakesDue}
use aegir.Kernel.Scheduler.Yielding.{Turns, yield-Turns}
use aegir.Kernel.Scheduler.Preempting.{Outranks, should_preempt-yield}
use aegir.Kernel.Scheduler.Bedtime.{Sleeps, sleep_until-Sleeps}

abbrev waiting : Tcb
waiting = record {
  state = blocked_receive;
  priority = 128;
  queued = false;
  boosted = false;
  ready_next = none;
  ready_prev = none;
  sleep_next = none;
  sleep_prev = none;
  sleep_deadline = 0;
}

abbrev threads : ℕ → Tcb
threads t =
    if t == 0
    then record waiting { state = running }
    else if t == 1
    then record waiting { state = ready; queued = true; ready_next = some 2 }
    else if t == 2
    then record waiting { state = ready; queued = true; ready_prev = some 1; priority = 140 }
    else if t == 3
    then record waiting { state = blocked_sleeping; sleep_next = some 4; sleep_deadline = 50 }
    else if t == 4
    then record waiting { state = blocked_sleeping; sleep_prev = some 3; sleep_deadline = 90 }
    else waiting

abbrev busy : Sched
busy = record {
  ready_head = some 1;
  ready_tail = some 2;
  ready_n = 2;
  sleep_head = some 3;
  current = λ c. if c == 0 then some 0 else none;
  tcb = threads;
  hart = 0;
  now = 60;
  timer = 90;
  notices = 0;
}

busy-IsReady : IsReady busy (1 ∷ 2 ∷ [])
busy-IsReady = record {
  links = (refl, refl, refl, (refl, refl, refl, (refl, refl)));
  count = refl;
  queued = λ t. ground arith;
}

busy-IsWell : IsWell busy (1 ∷ 2 ∷ []) (3 ∷ 4 ∷ [])
busy-IsWell = record {
  queue = busy-IsReady;
  sleeping = record {
    links = (refl, refl, refl, (refl, refl, refl, (refl, refl)));
    sorted = ((λ t h. ground (arith, h)), ((λ t h. ground (arith, h)), tt));
  };
  runnable = λ t h. ground (arith, h);
  asleep = λ t h i. ground (arith, h);
}

-- A thread that waits for a message is woken.
wake-Wakes_example : Yields (Wakes none busy 7 (1 ∷ 2 ∷ []) (3 ∷ 4 ∷ [])) (wake 3 (some 7) busy)
wake-Wakes_example = wake-Wakes 3 busy 7 (1 ∷ 2 ∷ []) (3 ∷ 4 ∷ []) busy-IsWell (omega arith)

check_sleepers-WakesDue_example :
    Yields (WakesDue none 60 busy (1 ∷ 2 ∷ []) (3 ∷ 4 ∷ [])) (check_sleepers 3 60 busy)
check_sleepers-WakesDue_example =
    check_sleepers-WakesDue 3 60 busy (1 ∷ 2 ∷ []) (3 ∷ 4 ∷ []) busy-IsWell (omega arith)

yield-Turns_example : Yields (Turns busy (1 ∷ 2 ∷ [])) (yield 4 busy)
yield-Turns_example =
    yield-Turns 4 busy (1 ∷ 2 ∷ []) busy-IsReady
      (λ c q. let w : 0 ≡ c = ap (λ p. elim p [ none ↦ 0 | some b ↦ b ]) q in rw⁻¹ w refl)
      (omega arith)

should_preempt-yield_example : Yields (Outranks busy 0 (should_preempt 4 busy)) (yield 4 busy)
should_preempt-yield_example =
    should_preempt-yield 4 busy (1 ∷ 2 ∷ []) 0 busy-IsReady refl refl refl (omega arith)

sleep_until-Sleeps_example :
    Yields (Sleeps 0 70 busy (1 ∷ 2 ∷ []) (3 ∷ 4 ∷ [])) (sleep_until 4 70 busy)
sleep_until-Sleeps_example =
    sleep_until-Sleeps 4 70 busy 0 (1 ∷ 2 ∷ []) (3 ∷ 4 ∷ []) busy-IsWell refl refl (omega arith)
