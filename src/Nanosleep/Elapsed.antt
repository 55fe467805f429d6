-- ===== src/Nanosleep/Elapsed.antt =====
-- How long `nanosleep` sleeps.
use aegir.Prelude.{
  ℕ, ◌+◌, ◌-◌, ◌*◌, ◌/◌, ◌%◌, ◌^◌, ◌≤◌, ◌<◌, ℤ, pos, true, ◌&&◌, Option, none, some, ◌≡◌, inl, inr,
  arith, ◌==◌, Bool-cases,
}
use aegir.Prelude.Loop.{Ends, Advances, loop-Ends}
use aegir.Nanosleep.{Machine, Timespec, ticks_of, sleep_turn, nanosleep}

-- The counter shows the low 64 bits of the time that has passed; a yield takes at least one tick and
-- at most `quantum`.
pub record IsTimebase (W : Type 0) ⦃c : Machine W⦄ (time : W → ℕ) (quantum : ℕ) : Type 0 where
  pub shows : (w : W) → c.aegir_rdtime w ≡ time w % 2 ^ 64
  pub passes : (w : W) → time w < time (c.aegir_sys_yield w)
  pub returns : (w : W) → time (c.aegir_sys_yield w) ≤ time w + quantum

elapsed :
    (from now q : ℕ)
    → from ≤ now
    → now < from + q
    → q ≤ 2 ^ 64
    → (now % 2 ^ 64 + (2 ^ 64 - from % 2 ^ 64)) % 2 ^ 64 ≡ now - from
elapsed from now q lo hi h = omega arith

module _ {W : Type 0} (time : W → ℕ) (quantum : ℕ) where
  -- The wait from the time `from` for `ticks` has not overrun by more than a yield.
  abbrev Waiting : ℕ → ℕ → W → Type 0
  Waiting from ticks w = (from ≤ time w) × (time w ≤ from + ticks + quantum)

  -- The sleep took at least `ticks`, and at most a yield more.
  abbrev Ran : ℕ → ℕ → ℤ → W → Type 0
  Ran from ticks r w = (r ≡ pos 0) × (from + ticks ≤ time w) × (time w ≤ from + ticks + quantum)

  -- The sleep, in ticks of 100 ns, took more than the `nanos` asked for less one tick, and at most one
  -- yield more than them.
  abbrev pub Slept : ℕ → ℕ → ℤ → W → Type 0
  Slept from nanos r w =
      (r ≡ pos 0)
      × (nanos < (time w - from + 1) * 100)
      × ((time w - from) * 100 ≤ nanos + quantum * 100)
      × (from ≤ time w)

module _ {W : Type 0} ⦃c : Machine W⦄ (time : W → ℕ) (quantum : ℕ)
    (b : IsTimebase W time quantum) where
  sleep_turn-Advances :
      (from ticks : ℕ) (w : W)
      → ticks + quantum < 2 ^ 64
      → Waiting time quantum from ticks w
      → Advances
          (Waiting time quantum from ticks)
          (Ran time quantum from ticks)
          (λ v. from + ticks - time v)
          (from + ticks - time w)
          (sleep_turn (from % 2 ^ 64) ticks w)
  unfolding sleep_turn
  sleep_turn-Advances from ticks w h (lo, hi) = ground (
    arith,
    b.shows w,
    b.passes w,
    b.returns w,
    elapsed from (time w) (ticks + quantum + 1) lo (omega arith) (omega arith),
  )

  -- A request for no time at all is over at once.
  zero-Ran :
      (req : Timespec) (w : W)
      → (req.tv_sec == 0 && req.tv_nsec == 0) ≡ true
      → Ran time quantum (time w) (ticks_of req) (pos 0) w
  unfolding ticks_of
  zero-Ran req w z = ground arith

  nanosleep-Ran :
      (fuel : ℕ) (req : Timespec) (w : W)
      → ticks_of req + quantum < 2 ^ 64
      → ticks_of req < fuel
      → Ends (Ran time quantum (time w) (ticks_of req)) (nanosleep fuel (some req) w)
  unfolding nanosleep
  nanosleep-Ran fuel req w h f = elim (Bool-cases (req.tv_sec == 0 && req.tv_nsec == 0)) [
    | inl z ↦ rw z (zero-Ran req w z)
    | inr z ↦
        rw (z, b.shows w)
          (loop-Ends (Waiting time quantum (time w) (ticks_of req))
            (Ran time quantum (time w) (ticks_of req)) (λ v. time w + ticks_of req - time v)
            (sleep_turn (time w % 2 ^ 64) (ticks_of req))
            (λ v. sleep_turn-Advances (time w) (ticks_of req) v h) fuel w (omega arith)
            (omega arith, omega arith))
  ]

  -- The nanoseconds that are asked for.
  abbrev pub nanos_of : Timespec → ℕ
  nanos_of req = req.tv_sec * 1000000000 + req.tv_nsec

  Ran-Slept :
      (req : Timespec) (w : W)
      → nanos_of req + quantum * 100 < 2 ^ 64 * 100
      → (r : Option (ℤ × W)) → Ends (Ran time quantum (time w) (ticks_of req)) r
      → Ends (Slept time quantum (time w) (nanos_of req)) r
  unfolding ticks_of
  Ran-Slept req w h none y = y
  Ran-Slept req w h (some (r, v)) (e, lo, hi) = (e, omega arith, omega arith, omega arith)

  -- `nanosleep` returns 0. It has slept for longer than the time asked for less one tick of 100 ns, however
  -- often the 64-bit counter wraps around, since a part of a tick is dropped; and for no longer than the
  -- time asked for and one yield. The time and a yield are taken to fit the counter in ticks, each
  -- yield to take between one tick and `quantum`, the fuel to exceed the ticks, and the request not to
  -- be null.
  pub nanosleep-Slept :
      (fuel : ℕ) (req : Timespec) (w : W)
      → nanos_of req + quantum * 100 < 2 ^ 64 * 100
      → nanos_of req / 100 < fuel
      → Ends (Slept time quantum (time w) (nanos_of req)) (nanosleep fuel (some req) w)
  unfolding ticks_of
  nanosleep-Slept fuel req w h f =
      let e : ticks_of req ≡ nanos_of req / 100 = ticks_lem req h in
      Ran-Slept req w h (nanosleep fuel (some req) w)
        (nanosleep-Ran fuel req w (rw e (omega arith)) (rw e f))
    where
      ticks_lem :
          (q : Timespec) → nanos_of q + quantum * 100 < 2 ^ 64 * 100 → ticks_of q ≡ nanos_of q / 100
      ticks_lem q h = omega arith
