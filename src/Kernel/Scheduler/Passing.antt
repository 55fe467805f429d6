-- ===== src/Kernel/Scheduler/Passing.antt =====
-- Whether a thread of the queue passes a test, and tests of the priority.
use aegir.Prelude.{
  ℕ, zero, suc, ◌≤◌, ◌<◌, Bool, true, false, not, ◌&&◌, ◌||◌, Option, some, List, [], ◌∷◌, ◌++◌,
  length, ltb, ◌≡◌, refl, sym, ◌∙◌, arith, Bool-cases, inl, inr,
}
use native.Mathlib.Decide.{ℕ_discrete, dec_le}
use aegir.Kernel.Tasks.{Tcb, dead, is_state}
use aegir.Kernel.PhysicalMemory.Chain.{has}
use aegir.Kernel.Scheduler.{Sched}
use aegir.Kernel.Scheduler.Calls.{some_ready}
use aegir.Kernel.Scheduler.Links.{Linked, has-append}
use aegir.Kernel.Scheduler.ReadyQueue.{next_of, prev_of}
use aegir.Kernel.Scheduler.Choosing.{live, Leads}

-- Whether a thread of the list passes.
abbrev pub any : (Tcb → Bool) → (ℕ → Tcb) → List ℕ → Bool
any test m [] = false
any test m (x ∷ xs) = test (m x) || any test m xs

any-live_here :
    (test : Tcb → Bool) (m : ℕ → Tcb) (x : ℕ) (xs : List ℕ)
    → not (is_state (m x).state dead) && test (m x) ≡ true
    → any test m (live m (x ∷ xs)) ≡ true
any-live_here test m x xs h =
    let d : is_state (m x).state dead ≡ false = ground (arith, h) in
    let e : test (m x) ≡ true = ground (arith, h) in rw (d, e) refl

any-live_past :
    (test : Tcb → Bool) (m : ℕ → Tcb) (x : ℕ) (xs : List ℕ)
    → not (is_state (m x).state dead) && test (m x) ≡ false
    → any test m (live m (x ∷ xs)) ≡ any test m (live m xs)
any-live_past test m x xs h = elim (Bool-cases (is_state (m x).state dead)) [
  | inl d ↦ rw d refl
  | inr d ↦ let e : test (m x) ≡ false = ground (arith, h, d) in rw (d, e) refl
]

pub some_ready_lem :
    (fuel : ℕ) (test : Tcb → Bool) (s : Sched) (ys : List ℕ) (p cand l : Option ℕ)
    → length ys < fuel
    → Linked (next_of s) (prev_of s) p ys cand l
    → some_ready fuel test cand s ≡ some (any test s.tcb (live s.tcb ys))
unfolding some_ready
some_ready_lem zero test s ys p cand l h o = absurd (omega arith)
some_ready_lem (suc fuel) test s [] p cand l h (a, b) = rw a refl
some_ready_lem (suc fuel) test s (y ∷ ys) p cand l h (a, b, c, d) =
    elim (Bool-cases (not (is_state (s.tcb y).state dead) && test (s.tcb y))) [
      | inl e ↦ rw (a, e) (rw (any-live_here test s.tcb y ys e) refl)
      | inr e ↦
          rw (a, e)
            (some_ready_lem fuel test s ys (some y) (next_of s y) l (omega arith) d
              ∙ rw (any-live_past test s.tcb y ys e) refl)
    ]

-- A test of the priority: the best of some threads passes it if any does.
none_above :
    (c : ℕ) (m : ℕ → Tcb) (ys : List ℕ)
    → ((a : ℕ) → has a ys ≡ true → (m a).priority ≤ c)
    → any (λ b. ltb c b.priority) m ys ≡ false
none_above c m [] h = refl
none_above c m (y ∷ ys) h =
    let k = h y (ground arith) in
    let r = none_above c m ys (λ a w. h a (ground (arith, w))) in
    let e : ltb c (m y).priority ≡ false = ground (arith, k) in rw (e, r) refl

one_above :
    (c b : ℕ) (m : ℕ → Tcb) (ys : List ℕ)
    → has b ys ≡ true
    → ltb c (m b).priority ≡ true
    → any (λ b. ltb c b.priority) m ys ≡ true
one_above c b m [] h k = ground (arith, h)
one_above c b m (y ∷ ys) h k = elim (ℕ_discrete b y) [
  | yes q ↦ let e : ltb c (m y).priority ≡ true = rw⁻¹ q k in rw e refl
  | no n ↦ rw (one_above c b m ys (ground (arith, h, n)) k) (ground arith)
]

best_above :
    (m : ℕ → Tcb) (ls rs : List ℕ) (b : ℕ)
    → Leads m ls b rs
    → (a : ℕ) → has a (ls ++ b ∷ rs) ≡ true
    → (m a).priority ≤ (m b).priority
best_above m ls rs b (f, g) a h =
    let v = has-append a ls (b ∷ rs) in
    elim (Bool-cases (has a ls)) [
      | inl u ↦ elim (f a u) [ inl k ↦ omega (arith, k) | inr k ↦ omega (arith, k.0) ]
      | inr u ↦ elim (ℕ_discrete a b) [
        | yes q ↦ rw q (omega arith)
        | no n ↦ elim (dec_le (m a).priority (m b).priority) [
          | yes k ↦ k
          | no k ↦ absurd (g a (ground (arith, v, h, u, n)) (inl (omega (arith, k))))
        ]
      ]
    ]

pub any-best :
    (c : ℕ) (m : ℕ → Tcb) (ls rs : List ℕ) (b : ℕ)
    → Leads m ls b rs
    → any (λ t. ltb c t.priority) m (ls ++ b ∷ rs) ≡ ltb c (m b).priority
any-best c m ls rs b o = elim (Bool-cases (ltb c (m b).priority)) [
  | inl k ↦
      let v = has-append b ls (b ∷ rs) in
      one_above c b m (ls ++ b ∷ rs) (ground (arith, v)) k ∙ sym k
  | inr k ↦
      none_above c m (ls ++ b ∷ rs)
        (λ a h. let w = best_above m ls rs b o a h in ground (arith, k, w))
      ∙ sym k
]
