-- ===== src/Kernel/Tasks.antt =====
-- src/kernel/kernel-tasks.ads: the state of a thread, and the part of its control block that the
-- scheduler keeps.
use aegir.Prelude.{ℕ, Bool, Option, ◌==◌}

pub data ThreadState : Type 0 where
  ready running blocked_send blocked_receive blocked_irq blocked_notification : ThreadState
  blocked_sleeping blocked_thread_wait dead : ThreadState

-- The position of a state in its type.
abbrev pub state_no : ThreadState → ℕ
state_no ready = 0
state_no running = 1
state_no blocked_send = 2
state_no blocked_receive = 3
state_no blocked_irq = 4
state_no blocked_notification = 5
state_no blocked_sleeping = 6
state_no blocked_thread_wait = 7
state_no dead = 8

abbrev pub is_state : ThreadState → ThreadState → Bool
is_state a b = state_no a == state_no b

-- A priority is a number from -128 to 127, counted from -128 here.
pub record Tcb : Type 0 where
  pub state : ThreadState
  pub priority : ℕ
  pub queued : Bool
  pub boosted : Bool
  pub ready_next : Option ℕ
  pub ready_prev : Option ℕ
  pub sleep_next : Option ℕ
  pub sleep_prev : Option ℕ
  pub sleep_deadline : ℕ
