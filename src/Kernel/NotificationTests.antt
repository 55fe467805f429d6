-- ===== src/Kernel/NotificationTests.antt =====
-- A pool of one frame, and an instance at it.
use aegir.Prelude.{ℕ, true, none, inl, refl, arith}
use aegir.Kernel.Tasks.{ready}
use aegir.Kernel.Notifications.{Threads, Notification, Pool, inside}
use aegir.Kernel.Notifications.Binding.{IsTasks, Rebinds, bind_thread-Rebinds}

-- The state is the binding of the last thread that was bound.
instance abbrev toy : Threads ℕ
toy = record {
  slot_bytes = 48;
  allocate = λ w. (none, w);
  state = λ t w. ready;
  bound_ntfn = λ t w. w;
  set_bound_ntfn = λ t object w. object;
  set_saved_result = λ t v w. w;
  wake = λ t w. w;
  cancel_receive = λ t w. w;
  write_notification_message = λ t v w. w;
  result_ok = 0;
}

toy-IsTasks : IsTasks ℕ
toy-IsTasks = record { remembers = λ t object w. refl }

-- Every object has one reference.
abbrev one : Notification
one = record {
  count = 1;
  bits = 0;
  bound_thread = none;
  waiting = none;
  in_use = true;
  next_free = 0;
}

abbrev pool : Pool ℕ
pool = record { frame_head = 8192; free_head = 0; slot = λ a. one; world = 0 }

bind_thread-Rebinds_example : Rebinds 1 8288 7 4 pool
unfolding inside
bind_thread-Rebinds_example =
    bind_thread-Rebinds 1 8288 7 4 pool toy-IsTasks ((λ q. omega (arith, q)), inl refl)
      (λ q. omega (arith, q)) refl refl refl refl (omega arith)
