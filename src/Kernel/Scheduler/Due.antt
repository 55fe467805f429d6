-- ===== src/Kernel/Scheduler/Due.antt =====
-- `Check_Sleepers`: which threads the timer wakes, and the deadline that is next.
use aegir.Prelude.{
  ℕ, zero, suc, ◌-◌, ◌^◌, ◌≤◌, ◌<◌, true, false, Option, none, some, List, [], ◌∷◌, ◌++◌, length,
  leb, ◌≡◌, refl, ◌∙◌, arith, ◌==◌, Bool-cases, inl, inr,
}
use native.Mathlib.Decide.{ℕ_discrete}
use aegir.Kernel.Tasks.{ThreadState, ready, running, blocked_sleeping, dead, is_state}
use aegir.Kernel.PhysicalMemory.Chain.{has, without}
use aegir.Kernel.PhysicalMemory.Skip.{Yields}
use aegir.Kernel.Scheduler.{Sched, Status, is, remove_sleeper}
use aegir.Kernel.Scheduler.Calls.{wake, wake_first, wake_due, check_sleepers}
use aegir.Kernel.Scheduler.Links.{first_or, has-append}
use aegir.Kernel.Scheduler.Putting.{Linked-ends}
use aegir.Kernel.Scheduler.Sleeping.{deadline_of, remove_sleeper-Removes, Removes, without_out}
use aegir.Kernel.Scheduler.Waking.{state_of, IsWellBut, IsWell, Roused}
use aegir.Kernel.Scheduler.Timing.{Removes-IsWell, Roused-from, Wakes, wake_but}

asleep_only :
    (a : ThreadState)
    → is_state a blocked_sleeping ≡ true
    → (is_state a dead ≡ false) × (is_state a running ≡ false) × (is_state a ready ≡ false)
asleep_only a h = (ground (arith, h), ground (arith, h), ground (arith, h))

-- The threads in turn, each to the head of the queue.
abbrev pub onto : List ℕ → List ℕ → List ℕ
onto [] xs = xs
onto (w ∷ ws) xs = onto ws (w ∷ xs)

-- The deadline of the first, or the greatest number of 64 bits.
abbrev pub first_deadline : Sched → List ℕ → ℕ
first_deadline s [] = 2 ^ 64 - 1
first_deadline s (z ∷ zs) = deadline_of s z

-- The sleepers whose time has come are ready, boosted and in the queue, and the others sleep on.
pub record Woken (spare : Option ℕ) (now : ℕ) (s : Sched) (xs ws later : List ℕ) (next : ℕ)
    (u : Sched) : Type 0 where
  pub due : (t : ℕ) → has t ws ≡ true → deadline_of s t ≤ now
  pub early : (t : ℕ) → has t later ≡ true → now < deadline_of s t
  pub well : IsWellBut spare u (onto ws xs) later
  pub next_deadline : next ≡ first_deadline s later
  pub awake : (t : ℕ) → has t ws ≡ true → (state_of u t ≡ ready) × ((u.tcb t).boosted ≡ true)
  pub states : (t : ℕ) → has t ws ≡ false → state_of u t ≡ state_of s t
  pub boosts : (t : ℕ) → has t ws ≡ false → (u.tcb t).boosted ≡ (s.tcb t).boosted
  pub priorities : (t : ℕ) → (u.tcb t).priority ≡ (s.tcb t).priority
  pub deadlines : (t : ℕ) → deadline_of u t ≡ deadline_of s t
  pub current : u.current ≡ s.current
  pub hart : u.hart ≡ s.hart

abbrev pub WakesDue : Option ℕ → ℕ → Sched → List ℕ → List ℕ → ℕ × Sched → Type 0
WakesDue spare now s xs zs (next, u) =
    (ws : List ℕ) × ((later : List ℕ) × ((zs ≡ ws ++ later) × Woken spare now s xs ws later next u))

first_deadline_ext :
    (s u : Sched) (zs : List ℕ)
    → ((t : ℕ) → deadline_of u t ≡ deadline_of s t)
    → first_deadline u zs ≡ first_deadline s zs
first_deadline_ext s u [] h = refl
first_deadline_ext s u (z ∷ zs) h = h z

module _ (spare : Option ℕ) where
  wake_first-Roused :
      (fuel : ℕ) (s : Sched) (h : ℕ) (xs rest : List ℕ)
      → IsWellBut spare s xs (h ∷ rest)
      → is spare h ≡ false
      → suc (length rest) < fuel
      → Yields (Roused spare s h xs rest) (wake_first fuel h s)
  unfolding wake_first
  wake_first-Roused fuel s h xs rest o b l =
      taken (remove_sleeper fuel h s) (remove_sleeper-Removes fuel s h (h ∷ rest) o.sleeping l)
    where
      self : (h == h) ≡ true
      self = ground arith

      fresh : has h rest ≡ false
      fresh = o.sleeping.links.2

      cut : without h (h ∷ rest) ≡ rest
      cut = rw self (without_out h rest fresh)

      woken :
          (u : Sched)
          → Removes s h (h ∷ rest) u
          → (w : Option (Status × Sched)) → Yields (Wakes spare u h xs rest) w
          → Yields (Roused spare s h xs rest) (elim w [ none ↦ none | some (st, v) ↦ some v ])
      woken u r none y = y
      woken u r (some (st, v)) y =
          let q : state_of u h ≡ state_of s h = (r.1.awake h).state in
          let k = asleep_only (state_of s h) (o.asleep h (ground (arith, self)) b) in
          elim y [
            | inl a ↦ let d = a.0 in ground (arith, rw q at (d), k.0)
            | inr b ↦ elim b [
              | inl c ↦ let d = c.0 in ground (arith, rw q at (d), k.1, k.2)
              | inr d ↦
                  let w = d.1 in
                  let z = without_out h rest fresh in
                  Roused-from spare s u v h xs rest r.1 (rw z at (w))
            ]
          ]

      taken :
          (w : Option Sched)
          → Yields (Removes s h (h ∷ rest)) w
          → Yields (Roused spare s h xs rest) (elim w [
            | none ↦ none
            | some u ↦ elim (wake fuel (some h) u) [ none ↦ none | some (st, v) ↦ some v ]
          ])
      taken none y = y
      taken (some u) y =
          let k : IsWellBut spare u xs rest =
            rw cut at (Removes-IsWell spare s u h xs (h ∷ rest) o y) in
          woken u y (wake fuel (some h) u) (wake_but spare fuel u h xs rest k b (omega arith))

  none_due :
      (now : ℕ) (s : Sched) (xs zs : List ℕ)
      → IsWellBut spare s xs zs
      → ((t : ℕ) → has t zs ≡ true → now < deadline_of s t)
      → Woken spare now s xs [] zs (first_deadline s zs) s
  none_due now s xs zs o h = record {
    due = λ t w. ground arith;
    early = h;
    well = o;
    next_deadline = refl;
    awake = λ t w. ground arith;
    states = λ t w. refl;
    boosts = λ t w. refl;
    priorities = λ t. refl;
    deadlines = λ t. refl;
    current = refl;
    hart = refl;
  }

  -- One more sleeper was woken before.
  one_due :
      (now : ℕ) (s u v : Sched) (h : ℕ) (xs ws later : List ℕ) (next : ℕ)
      → Roused spare s h xs (ws ++ later) u
      → deadline_of s h ≤ now
      → has h ws ≡ false
      → Woken spare now u (h ∷ xs) ws later next v
      → Woken spare now s xs (h ∷ ws) later next v
  one_due now s u v h xs ws later next (o, a, b, l) d f w = record {
    due = λ t i. elim (ℕ_discrete t h) [
      | yes q ↦ rw q d
      | no n ↦ omega (arith, l.deadlines t, w.due t (ground (arith, i, n)))
    ];
    early = λ t i. omega (arith, l.deadlines t, w.early t i);
    well = w.well;
    next_deadline = w.next_deadline ∙ first_deadline_ext s u later l.deadlines;
    awake = λ t i. elim (ℕ_discrete t h) [
      | yes q ↦ rw q (w.states h f ∙ a, w.boosts h f ∙ b)
      | no n ↦ w.awake t (ground (arith, i, n))
    ];
    states = λ t i. w.states t (ground (arith, i)) ∙ l.states t (λ q. ground (arith, i, q));
    boosts = λ t i. w.boosts t (ground (arith, i)) ∙ l.boosts t (λ q. ground (arith, i, q));
    priorities = λ t. w.priorities t ∙ l.priorities t;
    deadlines = λ t. w.deadlines t ∙ l.deadlines t;
    current = w.current ∙ l.current;
    hart = w.hart ∙ l.hart;
  }

  wake_due_but :
      (rounds fuel now : ℕ) (s : Sched) (xs zs : List ℕ) (head : Option ℕ)
      → IsWellBut spare s xs zs
      → ((t : ℕ) → is spare t ≡ true → now < deadline_of s t)
      → length zs < rounds
      → length zs < fuel
      → head ≡ first_or none zs
      → Yields (WakesDue spare now s xs zs) (wake_due rounds fuel now head s)
  unfolding wake_due
  wake_due_but zero fuel now s xs zs head o b l m e = absurd (omega arith)
  wake_due_but (suc rounds) fuel now s xs [] head o b l m e =
      rw e ([], ([], (refl, none_due now s xs [] o (λ t w. ground arith))))
  wake_due_but (suc rounds) fuel now s xs (h ∷ rest) head o b l m e =
      elim (Bool-cases (leb (deadline_of s h) now)) [
        | inr d ↦
            rw (wake_due, e, d) ([], (h ∷ rest, (refl, none_due now s xs (h ∷ rest) o (early d))))
        | inl d ↦
            let k =
              λ (u : Sched) (o2 : IsWellBut spare u (h ∷ xs) rest)
                  (g : (t : ℕ) → deadline_of u t ≡ deadline_of s t).
                wake_due_but rounds fuel now u (h ∷ xs) rest u.sleep_head o2
                  (λ t i. omega (arith, g t, b t i)) (omega arith) (omega arith)
                  (Linked-ends _ _ rest none u.sleep_head _ o2.sleeping.links).0 in
            rw (wake_due, e, d)
              (after d k (wake_first fuel h s)
                (wake_first-Roused fuel s h xs rest o (not_spare d) m))
      ]
    where
      not_spare : leb (deadline_of s h) now ≡ true → is spare h ≡ false
      not_spare d = elim (Bool-cases (is spare h)) [
        | inl i ↦ let w = b h i in ground (arith, w, d)
        | inr i ↦ i
      ]

      early :
          leb (deadline_of s h) now ≡ false
          → (t : ℕ) → has t (h ∷ rest) ≡ true
          → now < deadline_of s t
      early d t w = elim (ℕ_discrete t h) [
        | yes q ↦ rw q (ground (arith, d))
        | no n ↦ let v = o.sleeping.sorted.0 t (ground (arith, w, n)) in ground (arith, d, v)
      ]

      joined :
          leb (deadline_of s h) now ≡ true
          → (u : Sched) → Roused spare s h xs rest u
          → (r : Option (ℕ × Sched)) → Yields (WakesDue spare now u (h ∷ xs) rest) r
          → Yields (WakesDue spare now s xs (h ∷ rest)) r
      joined d u y none k = k
      joined d u y (some (next, v)) (ws, (later, (q, w))) =
          let f : has h rest ≡ false = o.sleeping.links.2 in
          let g : has h (ws ++ later) ≡ false = rw⁻¹ q f in
          let i = has-append h ws later in
          let p = rw q at (y) in
          (
            h ∷ ws,
            (
              later,
              (
                rw q refl,
                one_due now s u v h xs ws later next p (ground (arith, d)) (ground (arith, g, i)) w,
              ),
            ),
          )

      after :
          leb (deadline_of s h) now ≡ true
          → ((u : Sched)
              → IsWellBut spare u (h ∷ xs) rest
              → ((t : ℕ) → deadline_of u t ≡ deadline_of s t)
              → Yields
                  (WakesDue spare now u (h ∷ xs) rest)
                  (wake_due rounds fuel now u.sleep_head u))
          → (r : Option Sched) → Yields (Roused spare s h xs rest) r
          → Yields
              (WakesDue spare now s xs (h ∷ rest))
              (elim r [ none ↦ none | some u ↦ wake_due rounds fuel now u.sleep_head u ])
      after d k none y = y
      after d k (some u) y =
          joined d u y (wake_due rounds fuel now u.sleep_head u) (k u y.0 y.3.deadlines)

  pub check_but :
      (fuel now : ℕ) (s : Sched) (xs zs : List ℕ)
      → IsWellBut spare s xs zs
      → ((t : ℕ) → is spare t ≡ true → now < deadline_of s t)
      → length zs < fuel
      → Yields (WakesDue spare now s xs zs) (check_sleepers fuel now s)
  unfolding check_sleepers
  check_but fuel now s xs zs o b l =
      wake_due_but fuel fuel now s xs zs s.sleep_head o b l l
        (Linked-ends _ _ zs none s.sleep_head _ o.sleeping.links).0

-- `Check_Sleepers` ends, and wakes exactly the sleepers whose deadline is not after `now`: these are
-- ready, boosted and at the head of the queue, each before those woken earlier, and the others sleep on
-- in their order. The deadline that it gives is that of the first that sleeps on, or the greatest
-- number of 64 bits. No other thread changes its state or its boost, none its priority or deadline. Both
-- queues are taken to be well linked, the sleepers to be in the state Blocked_Sleeping and in the order
-- of their deadlines, the queued threads to be ready or dead, and the fuel to exceed the number of
-- sleepers; the first four hold again afterwards.
pub check_sleepers-WakesDue :
    (fuel now : ℕ) (s : Sched) (xs zs : List ℕ)
    → IsWell s xs zs
    → length zs < fuel
    → Yields (WakesDue none now s xs zs) (check_sleepers fuel now s)
check_sleepers-WakesDue fuel now s xs zs o l =
    check_but none fuel now s xs zs o (λ t i. ground (arith, i)) l
