-- ===== src/Kernel/Scheduler/Resting.antt =====
-- A thread on its way to sleep, in `Sleep_Until`: with a deadline, among the sleepers, and at rest.
use aegir.Prelude.{ℕ, ◌≤◌, true, false, none, some, List, [], ◌∷◌, ◌++◌, ◌≡◌, ◌≢◌, refl, ◌∙◌, arith}
use native.Mathlib.Decide.{ℕ_discrete}
use aegir.Kernel.Tasks.{blocked_sleeping}
use aegir.Kernel.PhysicalMemory.Chain.{has}
use aegir.Kernel.Scheduler.{Sched, put, set_my_current, set_state, set_boosted}
use aegir.Kernel.Scheduler.Links.{Linked-ext, has-append, last_or}
use aegir.Kernel.Scheduler.ReadyQueue.{other}
use aegir.Kernel.Scheduler.Undisturbed.{sleep_next_of, sleep_prev_of, Undisturbed}
use aegir.Kernel.Scheduler.Sleeping.{IsSleeping, IsSorted, deadline_of}
use aegir.Kernel.Scheduler.Waking.{state_of, IsWellBut, IsWell, IsReady-kept, IsSleeping-kept}
use aegir.Kernel.Scheduler.Due.{first_deadline}

IsSorted-members :
    (d e : ℕ → ℕ) (xs : List ℕ)
    → ((t : ℕ) → has t xs ≡ true → e t ≡ d t)
    → IsSorted d xs
    → IsSorted e xs
IsSorted-members d e [] q h = tt
IsSorted-members d e (x ∷ xs) q (a, b) = (
  (λ t k.
      let u = q x (ground arith) in let v = q t (ground (arith, k)) in omega (arith, u, v, a t k)),
  IsSorted-members d e xs (λ t k. q t (ground (arith, k))) b,
)

pub first_deadline-least :
    (s : Sched) (zs : List ℕ) (c : ℕ)
    → IsSorted (deadline_of s) zs
    → has c zs ≡ true
    → first_deadline s zs ≤ deadline_of s c
first_deadline-least s [] c h k = ground (arith, k)
first_deadline-least s (z ∷ zs) c (a, b) k = elim (ℕ_discrete c z) [
  | yes q ↦ rw q (omega arith)
  | no n ↦ a c (ground (arith, k, n))
]

-- A thread that neither sleeps nor is queued is given a deadline.
module _ (s : Sched) (c deadline : ℕ) (xs zs : List ℕ) (o : IsWell s xs zs)
    (f : has c zs ≡ false) where
  abbrev pub timed : Sched
  timed = put c (record (s.tcb c) { sleep_deadline = deadline }) s

  pub timed-IsSleeping : IsSleeping timed zs
  timed-IsSleeping = record {
    links =
        Linked-ext (sleep_next_of s) (sleep_prev_of s) _ _ none zs s.sleep_head (last_or none zs)
          (λ t w. (ground arith, ground arith)) o.sleeping.links;
    sorted =
        IsSorted-members (deadline_of s) (deadline_of timed) zs
          (λ t w. let n = other t c (λ q. ground (arith, rw q at (w), f)) in ground (arith, n))
          o.sleeping.sorted;
  }

  pub timed_deadline : deadline_of timed c ≡ deadline
  timed_deadline = ground arith

  pub inserted-IsWellBut :
      (u : Sched) (ls rs : List ℕ)
      → zs ≡ ls ++ rs
      → IsSleeping u (ls ++ c ∷ rs)
      → Undisturbed timed u
      → IsWellBut (some c) u xs (ls ++ c ∷ rs)
  inserted-IsWellBut u ls rs q k d =
      let states =
        λ (v : ℕ). (let w : state_of u v ≡ state_of s v = (d.awake v).state ∙ ground arith in w) in
      record {
        queue =
            IsReady-kept s u xs d.head d.tail d.count
              (λ v. (
                (d.awake v).ready_next ∙ ground arith,
                (d.awake v).ready_prev ∙ ground arith,
                (d.awake v).queued ∙ ground arith,
              ))
              o.queue;
        sleeping = k;
        runnable = λ v h. rw (states v) (o.runnable v h);
        asleep = λ v h i. rw (states v) (
            o.asleep v
              (let a = has-append v ls (c ∷ rs) in
                let b = has-append v ls rs in rw q (ground (arith, a, b, h, i)))
              refl);
      }

-- The thread stops running, asleep.
abbrev pub rested : ℕ → ℕ → Sched → Sched
rested c at v =
    set_my_current none
      (set_boosted c false (set_state c blocked_sleeping (record v { timer = at })))

rested_states : (c at : ℕ) (v : Sched) (t : ℕ) → t ≢ c → state_of (rested c at v) t ≡ state_of v t
rested_states c at v t n = let q = other t c n in ground (arith, q)

pub rested_own : (c at : ℕ) (v : Sched) → state_of (rested c at v) c ≡ blocked_sleeping
rested_own c at v = ground arith

pub rested-IsWell :
    (c at : ℕ) (v : Sched) (ys zs : List ℕ)
    → IsWellBut (some c) v ys zs
    → has c ys ≡ false
    → IsWell (rested c at v) ys zs
rested-IsWell c at v ys zs o f = record {
  queue =
      IsReady-kept v (rested c at v) ys refl refl refl
        (λ t. (ground arith, ground arith, ground arith)) o.queue;
  sleeping =
      IsSleeping-kept v (rested c at v) zs refl (λ t. (ground arith, ground arith, ground arith))
        o.sleeping;
  runnable =
      λ t h. rw (rested_states c at v t (λ q. ground (arith, rw q at (h), f))) (o.runnable t h);
  asleep = λ t h i. elim (ℕ_discrete t c) [
    | yes q ↦ rw (q, rested_own c at v) refl
    | no n ↦ rw (rested_states c at v t n) (o.asleep t h (other t c n))
  ];
}
