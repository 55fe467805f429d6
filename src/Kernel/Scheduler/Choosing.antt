-- ===== src/Kernel/Scheduler/Choosing.antt =====
-- The best of some threads: what `Pop` chooses.
use aegir.Prelude.{
  ℕ, ◌<◌, true, false, Option, none, some, List, [], ◌∷◌, ◌++◌, ◌≡◌, ◌⊎◌, refl, sym, ◌∙◌, arith,
  if◌then◌else◌, Bool-cases, inl, inr,
}
use native.Mathlib.Decide.{ℕ_discrete}
use mathlib.Core.List.{append_assoc}
use aegir.Kernel.Tasks.{Tcb, dead, is_state}
use aegir.Kernel.PhysicalMemory.Chain.{has}
use aegir.Kernel.Scheduler.{Sched, better, best_of}
use aegir.Kernel.Scheduler.Links.{has-append}
use aegir.Kernel.Scheduler.Beside.{Same}

-- The threads that are not dead.
abbrev pub live : (ℕ → Tcb) → List ℕ → List ℕ
live m [] = []
live m (x ∷ xs) = let rest = live m xs in if is_state (m x).state dead then rest else x ∷ rest

-- What comes before the place in the queue.
abbrev pub Outdoes : Tcb → Tcb → Type 0
Outdoes c b =
    (b.priority < c.priority)
    ⊎ ((c.priority ≡ b.priority) × ((c.boosted ≡ true) × (b.boosted ≡ false)))

pub better-Outdoes : (c b : Tcb) → better c b ≡ true → Outdoes c b
unfolding better
better-Outdoes c b h = ground (arith, h)

Outdoes-better : (c b : Tcb) → Outdoes c b → better c b ≡ true
unfolding better
Outdoes-better c b (inl h) = ground (arith, h)
Outdoes-better c b (inr (h, (k, l))) = ground (arith, h, k, l)

-- `b` is better than those before it, and none after it is better.
abbrev pub IsBest : (ℕ → Tcb) → List ℕ → ℕ → List ℕ → Type 0
IsBest m ls b rs =
    ((a : ℕ) → has a ls ≡ true → better (m b) (m a) ≡ true)
    × ((a : ℕ) → has a rs ≡ true → better (m a) (m b) ≡ false)

-- The same, spelled out: `b` outdoes those before it, and none after it outdoes it.
abbrev pub Leads : (ℕ → Tcb) → List ℕ → ℕ → List ℕ → Type 0
Leads m ls b rs =
    ((a : ℕ) → has a ls ≡ true → Outdoes (m b) (m a))
    × ((a : ℕ) → has a rs ≡ true → ¬ Outdoes (m a) (m b))

pub IsBest-Leads : (m : ℕ → Tcb) (ls rs : List ℕ) (b : ℕ) → IsBest m ls b rs → Leads m ls b rs
IsBest-Leads m ls rs b (f, g) = (
  (λ a h. better-Outdoes (m b) (m a) (f a h)),
  λ a h k. let w = Outdoes-better (m a) (m b) k in ground (arith, w, g a h),
)

abbrev pub Chosen : (ℕ → Tcb) → Option ℕ → List ℕ → Type 0
Chosen m none zs = zs ≡ []
Chosen m (some b) zs = (ls : List ℕ) × ((rs : List ℕ) × ((zs ≡ ls ++ b ∷ rs) × IsBest m ls b rs))

better-better : (a b c : Tcb) → better c b ≡ true → better b a ≡ true → better c a ≡ true
unfolding better
better-better a b c h k = ground (arith, h, k)

better_weak : (a b c : Tcb) → better c b ≡ true → better a b ≡ false → better c a ≡ true
unfolding better
better_weak a b c h k = ground (arith, h, k)

better-Same : (a b c d : Tcb) → Same a c → Same b d → better a b ≡ better c d
unfolding better
better-Same a b c d h k = rw (h.priority, h.boosted, k.priority, k.boosted) refl

beats :
    (m : ℕ → Tcb) (b c : ℕ) (ls rs : List ℕ)
    → IsBest m ls b rs
    → better (m c) (m b) ≡ true
    → (a : ℕ) → has a (ls ++ b ∷ rs) ≡ true
    → better (m c) (m a) ≡ true
beats m b c ls rs (f, g) i a h = elim (ℕ_discrete a b) [
  | yes q ↦ rw q i
  | no n ↦
      let v = has-append a ls (b ∷ rs) in
      elim (Bool-cases (has a ls)) [
        | inl u ↦ better-better (m a) (m b) (m c) i (f a u)
        | inr u ↦ better_weak (m a) (m b) (m c) i (g a (ground (arith, v, h, u, n)))
      ]
]

-- One more thread has been looked at.
pub Chosen-next :
    (m : ℕ → Tcb) (s : Sched) (best : Option ℕ) (zs : List ℕ) (c : ℕ)
    → ((t : ℕ) → Same (s.tcb t) (m t))
    → Chosen m best zs
    → Chosen m (best_of c best s) (zs ++ c ∷ [])
Chosen-next m s none zs c e q =
    ([], ([], (rw q refl, ((λ a h. ground arith), λ a h. ground arith))))
Chosen-next m s (some b) zs c e (ls, (rs, (q, (f, g)))) =
    let k = better-Same (s.tcb c) (s.tcb b) (m c) (m b) (e c) (e b) in
    elim (Bool-cases (better (s.tcb c) (s.tcb b))) [
      | inl i ↦
          rw i
            (zs, ([], (refl, (rw q (beats m b c ls rs (f, g) (sym k ∙ i)), λ a h. ground arith))))
      | inr i ↦ rw i (ls, (rs ++ c ∷ [], (rw (q, append_assoc) refl, (f, last (sym k ∙ i)))))
    ]
  where
    last :
        better (m c) (m b) ≡ false
        → (a : ℕ) → has a (rs ++ c ∷ []) ≡ true
        → better (m a) (m b) ≡ false
    last i a h = elim (ℕ_discrete a c) [
      | yes w ↦ rw w i
      | no n ↦ let v = has-append a rs (c ∷ []) in g a (ground (arith, v, h, n))
    ]
