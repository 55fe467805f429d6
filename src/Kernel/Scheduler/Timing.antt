-- ===== src/Kernel/Scheduler/Timing.antt =====
-- `Wake` of any thread.
use aegir.Prelude.{
  ℕ, ◌<◌, Bool, true, false, ◌||◌, Option, none, some, List, length, ◌≡◌, ◌⊎◌, refl, ◌∙◌, arith,
  Bool-cases, inl, inr,
}
use aegir.Kernel.Tasks.{ThreadState, ready, running, blocked_sleeping, dead, is_state}
use aegir.Kernel.PhysicalMemory.Chain.{has, without, has-without}
use aegir.Kernel.PhysicalMemory.Skip.{Yields}
use aegir.Kernel.Scheduler.{Sched, Status, ok, invalid_task, is, remove_sleeper}
use aegir.Kernel.Scheduler.Calls.{rouse, wake}
use aegir.Kernel.Scheduler.Undisturbed.{Undisturbed, Undisturbed-refl}
use aegir.Kernel.Scheduler.Sleeping.{remove_sleeper-Removes, Removes, without_out}
use aegir.Kernel.Scheduler.Waking.{
  state_of, IsWellBut, IsWell, IsReady-kept, Roused, push-rouse, rouse-Roused,
}

-- The state of a thread that `Wake` leaves as it is.
abbrev pub runs : ThreadState → Bool
runs a = is_state a running || is_state a ready

module _ (spare : Option ℕ) where
  -- Of a dead thread nothing comes, one that runs or is ready stays as it is, and any other is ready
  -- and at the head of the queue.
  abbrev pub Wakes : Sched → ℕ → List ℕ → List ℕ → Status × Sched → Type 0
  Wakes s t xs zs (st, u) =
      ((is_state (state_of s t) dead ≡ true) × (st ≡ invalid_task) × (u ≡ s))
      ⊎ (((runs (state_of s t) ≡ true) × (st ≡ ok) × (u ≡ s))
          ⊎ ((st ≡ ok) × Roused spare s t xs (without t zs) u))

  pub Removes-IsWell :
      (s u : Sched) (t : ℕ) (xs zs : List ℕ)
      → IsWellBut spare s xs zs
      → Removes s t zs u
      → IsWellBut spare u xs (without t zs)
  Removes-IsWell s u t xs zs o (k, d) = record {
    queue =
        IsReady-kept s u xs d.head d.tail d.count
          (λ v. ((d.awake v).ready_next, (d.awake v).ready_prev, (d.awake v).queued)) o.queue;
    sleeping = k;
    runnable = λ v h. rw ((d.awake v).state) (o.runnable v h);
    asleep = λ v h e.
        rw ((d.awake v).state) (o.asleep v (let w = has-without t v zs in ground (arith, h, w)) e);
  }

  pub Roused-from :
      (s u v : Sched) (t : ℕ) (xs zs : List ℕ)
      → Undisturbed s u
      → Roused spare u t xs zs v
      → Roused spare s t xs zs v
  Roused-from s u v t xs zs d (o, a, b, l) = (
    o,
    a,
    b,
    record {
      states = λ w n. l.states w n ∙ (d.awake w).state;
      priorities = λ w. l.priorities w ∙ (d.awake w).priority;
      deadlines = λ w. l.deadlines w ∙ (d.awake w).sleep_deadline;
      boosts = λ w n. l.boosts w n ∙ (d.awake w).boosted;
      current = l.current ∙ d.current;
      hart = l.hart ∙ d.hart;
    },
  )

  not_asleep :
      (s : Sched) (t : ℕ) (xs zs : List ℕ)
      → IsWellBut spare s xs zs
      → is spare t ≡ false
      → is_state (state_of s t) blocked_sleeping ≡ false
      → has t zs ≡ false
  not_asleep s t xs zs o e h = elim (Bool-cases (has t zs)) [
    | inl k ↦ let w = o.asleep t k e in ground (arith, w, h)
    | inr k ↦ k
  ]

  pub not_queued :
      (s : Sched) (t : ℕ) (xs zs : List ℕ)
      → IsWellBut spare s xs zs
      → is_state (state_of s t) ready ≡ false
      → is_state (state_of s t) dead ≡ false
      → has t xs ≡ false
  not_queued s t xs zs o h i = elim (Bool-cases (has t xs)) [
    | inl k ↦ let w = o.runnable t k in ground (arith, w, h, i)
    | inr k ↦ k
  ]

  has-without_self : (t : ℕ) (zs : List ℕ) → has t (without t zs) ≡ false
  has-without_self t zs = has-without t t zs ∙ ground arith

  -- `rouse` after a sleeper was taken out, if it was one.
  rouse-Removes :
      (s u : Sched) (t : ℕ) (xs zs : List ℕ)
      → IsWellBut spare s xs zs
      → has t xs ≡ false
      → Removes s t zs u
      → Wakes s t xs zs (rouse t u)
  rouse-Removes s u t xs zs o f r =
      let w = Removes-IsWell s u t xs zs o r in
      let g = has-without_self t zs in
      rw (push-rouse spare u t xs (without t zs) w f g) (
        inr (
          inr (
            refl,
            Roused-from s u _ t xs (without t zs) r.1
                (rouse-Roused spare u t xs (without t zs) w f g),
          )))

  rouse-awake :
      (s : Sched) (t : ℕ) (xs zs : List ℕ)
      → IsWellBut spare s xs zs
      → has t xs ≡ false
      → has t zs ≡ false
      → Wakes s t xs zs (rouse t s)
  rouse-awake s t xs zs o f g =
      rouse-Removes s s t xs zs o f (rw (without_out t zs g) o.sleeping, Undisturbed-refl s)

  pub wake_but :
      (fuel : ℕ) (s : Sched) (t : ℕ) (xs zs : List ℕ)
      → IsWellBut spare s xs zs
      → is spare t ≡ false
      → length zs < fuel
      → Yields (Wakes s t xs zs) (wake fuel (some t) s)
  unfolding wake
  wake_but fuel s t xs zs o e h =
      let a = Bool-cases (is_state (state_of s t) dead) in
      let b = Bool-cases (is_state (state_of s t) running) in
      let c = Bool-cases (is_state (state_of s t) ready) in
      let d = Bool-cases (is_state (state_of s t) blocked_sleeping) in
      elim a [
        | inl i ↦ rw i (inl (i, refl, refl))
        | inr i ↦ elim b [
          | inl j ↦ rw (i, j) (inr (inl (rw j refl, refl, refl)))
          | inr j ↦ elim c [
            | inl k ↦ rw (i, j, k) (inr (inl (rw (j, k) refl, refl, refl)))
            | inr k ↦ elim d [
              | inl l ↦
                  rw (i, j, k, l)
                    (taken (not_queued s t xs zs o k i) (remove_sleeper fuel t s)
                      (remove_sleeper-Removes fuel s t zs o.sleeping h))
              | inr l ↦
                  rw (i, j, k, l)
                    (rouse-awake s t xs zs o (not_queued s t xs zs o k i)
                      (not_asleep s t xs zs o e l))
            ]
          ]
        ]
      ]
    where
      taken :
          has t xs ≡ false
          → (r : Option Sched) → Yields (Removes s t zs) r
          → Yields (Wakes s t xs zs) (elim r [ none ↦ none | some u ↦ some (rouse t u) ])
      taken f none y = y
      taken f (some u) y = rouse-Removes s u t xs zs o f y

-- `Wake` of a thread, for both queues well linked as for `Check_Sleepers` and fuel for one walk over the
-- sleepers: a dead thread is refused, and one that runs or is ready stays as it is, with nothing
-- changed. Any other thread leaves the sleepers, if it is one, is ready and boosted, and stands at the
-- head of the queue; both queues are well linked again, and no other thread changes its state or boost,
-- none its priority or deadline, and no hart the thread it runs.
pub wake-Wakes :
    (fuel : ℕ) (s : Sched) (t : ℕ) (xs zs : List ℕ)
    → IsWell s xs zs
    → length zs < fuel
    → Yields (Wakes none s t xs zs) (wake fuel (some t) s)
wake-Wakes fuel s t xs zs o h = wake_but none fuel s t xs zs o refl h
