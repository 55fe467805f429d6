-- ===== src/Nanosleep/Tests.antt =====
-- Instances at concrete inputs.
use aegir.Prelude.{ℕ, ◌+◌, ◌%◌, ◌^◌, some, refl, arith}
use aegir.Prelude.Loop.{Ends}
use aegir.Nanosleep.{Machine, Timespec, nanosleep}
use aegir.Nanosleep.Elapsed.{IsTimebase, Slept, nanosleep-Slept}

-- The state is the time; a yield takes three ticks.
instance abbrev ticking : Machine ℕ
ticking = record { aegir_rdtime = λ t. t % 2 ^ 64; aegir_sys_yield = λ t. t + 3 }

ticking-IsTimebase : IsTimebase ℕ (λ t. t) 5
ticking-IsTimebase = record {
  shows = λ w. refl;
  passes = λ w. omega arith;
  returns = λ w. omega arith;
}

abbrev ten_ticks : Timespec
ten_ticks = record { tv_sec = 0; tv_nsec = 1000 }

-- The counter wraps around during the sleep.
nanosleep-Slept_example :
    Ends
      (Slept (λ (t : ℕ). t) 5 18446744073709551610 1000)
      (nanosleep 20 (some ten_ticks) 18446744073709551610)
nanosleep-Slept_example =
    nanosleep-Slept (λ (t : ℕ). t) 5 ticking-IsTimebase 20 ten_ticks 18446744073709551610
      (omega arith) (omega arith)
