-- ===== src/Kernel/Scheduler/Bedtime.antt =====
-- `Sleep_Until`: a thread that goes to sleep is woken by the first check at or after its deadline.
use aegir.Prelude.{
  ℕ, suc, ◌+◌, ◌%◌, ◌^◌, ◌≤◌, ◌<◌, min, true, false, ◌||◌, Option, none, some, List, ◌∷◌, ◌++◌,
  length, leb, ◌≡◌, refl, sym, ◌∙◌, arith, ◌==◌, if◌then◌else◌, Bool-cases, inl, inr,
}
use aegir.Kernel.Tasks.{ready, running, blocked_sleeping, is_state}
use aegir.Kernel.PhysicalMemory.Chain.{has}
use aegir.Kernel.PhysicalMemory.Skip.{Yields}
use aegir.Kernel.Scheduler.{Sched, Status, ok, is, my_current, quantum_interval, insert_sleeper}
use aegir.Kernel.Scheduler.Calls.{block_current, next_timer_deadline, check_sleepers, sleep_until}
use aegir.Kernel.Scheduler.Links.{has-append}
use aegir.Kernel.Scheduler.ReadyQueue.{length-insert}
use aegir.Kernel.Scheduler.Sleeping.{IsSorted-ext, deadline_of}
use aegir.Kernel.Scheduler.Inserting.{Inserts, insert_sleeper-Inserts}
use aegir.Kernel.Scheduler.Waking.{state_of, IsWell}
use aegir.Kernel.Scheduler.Due.{onto, Woken, WakesDue, check_but, check_sleepers-WakesDue}
use aegir.Kernel.Scheduler.Resting.{
  first_deadline-least, timed, timed-IsSleeping, timed_deadline, inserted-IsWellBut, rested,
  rested_own, rested-IsWell,
}

-- What a check at the time `at` does to a thread that sleeps until `deadline`.
abbrev pub Ends : ℕ → ℕ → ℕ → ℕ × Sched → Type 0
Ends c deadline at (next, v) =
    if leb deadline at
    then (state_of v c ≡ ready) × ((v.tcb c).boosted ≡ true)
    else state_of v c ≡ blocked_sleeping

check_sleepers-Ends :
    (n at c : ℕ) (u : Sched) (ys later : List ℕ)
    → IsWell u ys later
    → has c later ≡ true
    → state_of u c ≡ blocked_sleeping
    → length later < n
    → Yields (Ends c (deadline_of u c) at) (check_sleepers n at u)
check_sleepers-Ends n at c u ys later o h e l =
    ended (check_sleepers n at u) (check_sleepers-WakesDue n at u ys later o l)
  where
    ended :
        (r : Option (ℕ × Sched))
        → Yields (WakesDue none at u ys later) r
        → Yields (Ends c (deadline_of u c) at) r
    ended none y = y
    ended (some (next, v)) (ws, (still, (q, w))) =
        let a = has-append c ws still in
        let k = rw q at (h) in
        elim (Bool-cases (has c ws)) [
          | inl i ↦
              let d = w.due c i in
              let b : leb (deadline_of u c) at ≡ true = ground (arith, d) in rw b (w.awake c i)
          | inr i ↦
              let d = w.early c (ground (arith, a, i, k)) in
              let b : leb (deadline_of u c) at ≡ false = ground (arith, d) in
              rw b (w.states c i ∙ e)
        ]

-- The thread sleeps until its deadline, and the timer is set no later.
abbrev pub Rests : ℕ → ℕ → List ℕ → List ℕ → Sched → Type 0
Rests c deadline ys later u =
    IsWell u ys later
    × (state_of u c ≡ blocked_sleeping)
    × (my_current u ≡ none)
    × (u.timer ≤ deadline)
    × ((n at : ℕ) → length later < n → Yields (Ends c deadline at) (check_sleepers n at u))

abbrev pub Sleeps : ℕ → ℕ → Sched → List ℕ → List ℕ → Status × Sched → Type 0
Sleeps c deadline s xs zs (st, u) =
    (st ≡ ok)
    × (if leb deadline s.now
        then u ≡ s
        else (ws : List ℕ) × ((later : List ℕ) × (((t : ℕ)
                → (has t ws || has t later) ≡ ((t == c) || has t zs))
              × Rests c deadline (onto ws xs) later u)))

Woken-Rests :
    (s u v : Sched) (c deadline at next : ℕ) (xs ws later : List ℕ)
    → Woken (some c) s.now u xs ws later next v
    → has c (ws ++ later) ≡ true
    → deadline_of u c ≡ deadline
    → s.now < deadline
    → is_state (state_of u c) running ≡ true
    → at ≤ next
    → Rests c deadline (onto ws xs) later (rested c at v)
Woken-Rests s u v c deadline at next xs ws later w h d l r m = (
  well,
  rested_own c at v,
  idle,
  timer,
  λ n t k. rw own at (
      check_sleepers-Ends n t c (rested c at v) (onto ws xs) later well stays (rested_own c at v)
        k),
)
  where
    awake : has c ws ≡ false
    awake = elim (Bool-cases (has c ws)) [
      | inl i ↦ let k = w.due c i in absurd (omega (arith, k, d, l))
      | inr i ↦ i
    ]

    stays : has c later ≡ true
    stays = let a = has-append c ws later in ground (arith, a, h, awake)

    runs : state_of v c ≡ state_of u c
    runs = w.states c awake

    free : has c (onto ws xs) ≡ false
    free = elim (Bool-cases (has c (onto ws xs))) [
      | inl i ↦ let k = w.well.runnable c i in ground (arith, rw runs at (k), r)
      | inr i ↦ i
    ]

    well : IsWell (rested c at v) (onto ws xs) later
    well = rested-IsWell c at v (onto ws xs) later w.well free

    idle : my_current (rested c at v) ≡ none
    idle = ground arith

    own : deadline_of (rested c at v) c ≡ deadline
    own =
        let k : deadline_of (rested c at v) c ≡ deadline_of v c = ground arith in
        k ∙ w.deadlines c ∙ d

    timer : at ≤ deadline
    timer =
        let k =
          first_deadline-least u later c
            (IsSorted-ext (deadline_of v) (deadline_of u) later (λ t. sym (w.deadlines t))
              w.well.sleeping.sorted)
            stays in
        omega (arith, k, m, d, w.next_deadline)

min_least : (a b : ℕ) → min a b ≤ b
min_least a b = omega arith

block-rested :
    (c at : ℕ) (v : Sched)
    → my_current v ≡ some c
    → block_current blocked_sleeping (record v { timer = at }) ≡ (ok, rested c at v)
unfolding block_current
block-rested c at v e = rw e refl

-- The timer is set no later than the deadline that the check gives.
abbrev TimerSet : Option ℕ → ℕ → Sched → List ℕ → List ℕ → ℕ × Sched → Type 0
TimerSet spare now s xs zs (at, v) =
    (next : ℕ) × ((at ≤ next) × WakesDue spare now s xs zs (next, v))

next_timer_deadline-TimerSet :
    (spare : Option ℕ) (fuel now : ℕ) (s : Sched) (xs zs : List ℕ)
    → Yields (WakesDue spare now s xs zs) (check_sleepers fuel now s)
    → Yields (TimerSet spare now s xs zs) (next_timer_deadline fuel now s)
unfolding next_timer_deadline
next_timer_deadline-TimerSet spare fuel now s xs zs y = earlier (check_sleepers fuel now s) y
  where
    earlier :
        (r : Option (ℕ × Sched))
        → Yields (WakesDue spare now s xs zs) r
        → Yields (TimerSet spare now s xs zs) (elim r [
          | none ↦ none
          | some (next, u) ↦ some (min ((now + quantum_interval) % 2 ^ 64) next, u)
        ])
    earlier none y = y
    earlier (some (next, u)) y = (next, (min_least _ next, y))

module _ (fuel deadline : ℕ) (s : Sched) (c : ℕ) (xs zs : List ℕ) (o : IsWell s xs zs)
    (e : my_current s ≡ some c) (r : is_state (state_of s c) running ≡ true)
    (l : suc (length zs) < fuel) where
  awake_zs : has c zs ≡ false
  awake_zs = elim (Bool-cases (has c zs)) [
    | inl i ↦ let k = o.asleep c i refl in ground (arith, k, r)
    | inr i ↦ i
  ]

  abbrev asked : Sched
  asked = timed s c deadline xs zs o awake_zs

  -- The hart stops.
  stopped :
      (u : Sched)
      → Inserts asked c zs u
      → s.now < deadline
      → (ys : List ℕ) → ((t : ℕ) → has t ys ≡ ((t == c) || has t zs))
      → (at : ℕ) (v : Sched) → TimerSet (some c) s.now u xs ys (at, v)
      → Sleeps c deadline s xs zs (block_current blocked_sleeping (record v { timer = at }))
  stopped u (ls, (rs, (q, i, a, b, d))) late ys h at v (next, (m, (ws, (later, (p, w))))) =
      let who : my_current v ≡ some c = rw (w.current, w.hart, d.current, d.hart) e in
      let waits : leb deadline s.now ≡ false = ground (arith, late) in
      let own : deadline_of u c ≡ deadline =
        (d.awake c).sleep_deadline ∙ timed_deadline s c deadline xs zs o awake_zs in
      let st : state_of u c ≡ state_of s c = (d.awake c).state ∙ ground arith in
      let all = λ (t : ℕ). (let k = h t in rw p at (k)) in
      let inside : has c (ws ++ later) ≡ true = all c ∙ ground arith in
      rw (block-rested c at v who, waits)
        (
          refl,
          (
            ws,
            (
              later,
              (
                (λ t. sym (has-append t ws later) ∙ all t),
                Woken-Rests s u v c deadline at next xs ws later w inside own late (rw st r) m,
              ),
            ),
          ),
        )

  placed :
      (u : Sched)
      → Inserts asked c zs u
      → s.now < deadline
      → Yields (Sleeps c deadline s xs zs) (elim (next_timer_deadline fuel s.now u) [
        | none ↦ none
        | some (at, v) ↦ some (block_current blocked_sleeping (record v { timer = at }))
      ])
  placed u i late =
      let (ls, (rs, (q, k, a, b, d))) = i in
      let well = inserted-IsWellBut s c deadline xs zs o awake_zs u ls rs q k d in
      let n = length-insert c ls rs in
      let at_c : deadline_of u c ≡ deadline =
        (d.awake c).sleep_deadline ∙ timed_deadline s c deadline xs zs o awake_zs in
      let own = λ (t : ℕ) (h : is (some c) t ≡ true).
        (let x : t ≡ c = ground (arith, h) in
          let y : s.now < deadline_of u c = rw at_c late in
          let z : s.now < deadline_of u t = rw x y in z) in
      let members = λ (t : ℕ).
        (let x = has-append t ls (c ∷ rs) in
          let y = has-append t ls rs in
          let z : has t (ls ++ c ∷ rs) ≡ ((t == c) || has t (ls ++ rs)) = ground (arith, x, y) in
          rw (sym q) at (z)) in
      let g : length (ls ++ rs) ≡ length zs = rw⁻¹ q refl in
      let y = check_but (some c) fuel s.now u xs (ls ++ c ∷ rs) well own (omega (arith, n, g, l)) in
      timer_set (ls ++ c ∷ rs) members (next_timer_deadline fuel s.now u)
        (next_timer_deadline-TimerSet (some c) fuel s.now u xs (ls ++ c ∷ rs) y)
    where
      timer_set :
          (ys : List ℕ)
          → ((t : ℕ) → has t ys ≡ ((t == c) || has t zs))
          → (w : Option (ℕ × Sched)) → Yields (TimerSet (some c) s.now u xs ys) w
          → Yields (Sleeps c deadline s xs zs) (elim w [
            | none ↦ none
            | some (at, v) ↦ some (block_current blocked_sleeping (record v { timer = at }))
          ])
      timer_set ys h none y = y
      timer_set ys h (some (at, v)) y = stopped u i late ys h at v y

  pub slept : Yields (Sleeps c deadline s xs zs) (sleep_until fuel deadline s)
  unfolding sleep_until
  slept = elim (Bool-cases (leb deadline s.now)) [
    | inl d ↦ rw (e, d) (refl, rw d refl)
    | inr d ↦
        rw (e, d)
          (inserted (ground (arith, d)) (insert_sleeper fuel c asked) (
            insert_sleeper-Inserts fuel asked c zs (timed-IsSleeping s c deadline xs zs o awake_zs)
              awake_zs (omega (arith, l))))
  ]
    where
      inserted :
          s.now < deadline
          → (w : Option Sched) → Yields (Inserts asked c zs) w
          → Yields (Sleeps c deadline s xs zs) (elim w [
            | none ↦ none
            | some u ↦ elim (next_timer_deadline fuel s.now u) [
              | none ↦ none
              | some (at, v) ↦ some (block_current blocked_sleeping (record v { timer = at }))
            ]
          ])
      inserted late none y = y
      inserted late (some u) y = placed u y late

-- `Sleep_Until` of the thread that this hart runs answers Ok. If the deadline has passed, nothing
-- changes. Otherwise the thread is put to sleep and the hart is idle, with the timer set no later than
-- the deadline; the other sleepers are woken or sleep on; and `Check_Sleepers`, the next time that it is
-- called, leaves the thread asleep if it is called before the deadline, and makes it ready, with a
-- boost, at or after it. Both queues are taken to be well linked as for `Check_Sleepers`, the thread to
-- be in the state Running, and the fuel of each call to exceed the sleepers that it meets.
pub sleep_until-Sleeps :
    (fuel deadline : ℕ) (s : Sched) (c : ℕ) (xs zs : List ℕ)
    → IsWell s xs zs
    → my_current s ≡ some c
    → is_state (state_of s c) running ≡ true
    → suc (length zs) < fuel
    → Yields (Sleeps c deadline s xs zs) (sleep_until fuel deadline s)
sleep_until-Sleeps fuel deadline s c xs zs o e r l = slept fuel deadline s c xs zs o e r l
