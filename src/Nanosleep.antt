-- ===== src/Nanosleep.antt =====
-- userspace/gnat-rts/gnat_user/aegir_nanosleep.c, on which Ada's `delay` stands, and the clock of
-- userspace/lwip/port/sys_arch.c. Both read the 10 MHz counter; `rdtime` and `aegir_sys_yield` are
-- parameters.
pub mod Elapsed
mod Tests
use aegir.Prelude.{
  ℕ, ◌+◌, ◌-◌, ◌*◌, ◌/◌, ◌%◌, ◌^◌, ℤ, pos, Bool, ◌&&◌, Option, none, some, leb, ◌==◌, if◌then◌else◌,
}
use aegir.Prelude.Loop.{Turn, done, again, loop}

pub record Machine (W : Type 0) : Type 0 where
  pub aegir_rdtime : W → ℕ
  pub aegir_sys_yield : W → W

-- `struct timespec`, each field as the unsigned 64-bit word that it is cast to.
pub record Timespec : Type 0 where
  pub tv_sec : ℕ
  pub tv_nsec : ℕ

unfoldable pub ticks_of : Timespec → ℕ
ticks_of req = (req.tv_sec * 10000000 + req.tv_nsec / 100) % 2 ^ 64

module _ {W : Type 0} ⦃c : Machine W⦄ where
  -- One round of the wait that began at the time `start`.
  unfoldable pub sleep_turn : ℕ → ℕ → W → Turn ℤ W
  sleep_turn start ticks w =
      if leb ticks ((c.aegir_rdtime w + (2 ^ 64 - start)) % 2 ^ 64)
      then done (pos 0) w
      else again (c.aegir_sys_yield w)

  -- A null request is `none`; `fuel` is for the rounds.
  unfoldable pub nanosleep : ℕ → Option Timespec → W → Option (ℤ × W)
  unfolding ticks_of
  nanosleep fuel none w = some (pos 0, w)
  nanosleep fuel (some req) w =
      if req.tv_sec == 0 && req.tv_nsec == 0
      then some (pos 0, w)
      else loop fuel (sleep_turn (c.aegir_rdtime w) (ticks_of req)) w

  unfoldable pub sys_now : W → ℕ
  sys_now w = c.aegir_rdtime w / 10000 % 2 ^ 32
