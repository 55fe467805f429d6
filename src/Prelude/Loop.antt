-- ===== src/Prelude/Loop.antt =====
-- Loops that end by a `return` in their body, on fuel, with the rules for them.
use Prim.Native.Nat.{ℕ, zero, suc, ◌<◌}
use mathlib.Core.Option.{Option, none, some}
use native.Mathlib.Omega.{arith}

-- One round: it returns from the function, or it makes another round.
pub data Turn (R S : Type 0) : Type 0 where
  done : R → S → Turn R S
  again : S → Turn R S

module _ {R S : Type 0} where
  abbrev pub resume : (S → Option (R × S)) → Turn R S → Option (R × S)
  resume rest (done r t) = some (r, t)
  resume rest (again t) = rest t

  -- `for (;;) body`; `none` means that the fuel ran out.
  unfoldable pub loop : ℕ → (S → Turn R S) → S → Option (R × S)
  loop zero body s = none
  loop (suc fuel) body s = resume (loop fuel body) (body s)

  -- A result was reached, and it is as `Q` says.
  abbrev pub Ends : (R → S → Type 0) → Option (R × S) → Type 0
  Ends Q none = ⊥
  Ends Q (some (r, t)) = Q r t

  -- If a result was reached, it is as `Q` says.
  abbrev pub Allows : (R → S → Type 0) → Option (R × S) → Type 0
  Allows Q none = Unit
  Allows Q (some (r, t)) = Q r t

  -- A round returns by `Q`, or goes on by `P` with a measure below `m`.
  abbrev pub Advances : (S → Type 0) → (R → S → Type 0) → (S → ℕ) → ℕ → Turn R S → Type 0
  Advances P Q measure m (done r t) = Q r t
  Advances P Q measure m (again t) = P t × (measure t < m)

  abbrev pub Keeps : (S → Type 0) → (R → S → Type 0) → Turn R S → Type 0
  Keeps P Q (done r t) = Q r t
  Keeps P Q (again t) = P t

module _ {R S : Type 0} (P : S → Type 0) (Q : R → S → Type 0) where
  resume-Ends :
      (measure : S → ℕ) (m : ℕ) (rest : S → Option (R × S))
      → ((t : S) → measure t < m → P t → Ends Q (rest t))
      → (t : Turn R S) → Advances P Q measure m t
      → Ends Q (resume rest t)
  resume-Ends measure m rest h (done r t) q = q
  resume-Ends measure m rest h (again t) q = h t q.1 q.0

  resume-Allows :
      (rest : S → Option (R × S))
      → ((t : S) → P t → Allows Q (rest t))
      → (t : Turn R S) → Keeps P Q t
      → Allows Q (resume rest t)
  resume-Allows rest h (done r t) q = q
  resume-Allows rest h (again t) q = h t q

  -- With a measure below the fuel the loop returns.
  pub loop-Ends :
      (measure : S → ℕ) (body : S → Turn R S)
      → ((s : S) → P s → Advances P Q measure (measure s) (body s))
      → (fuel : ℕ) (s : S) → measure s < fuel
      → P s
      → Ends Q (loop fuel body s)
  unfolding loop
  loop-Ends measure body step zero s m h = absurd (omega arith)
  loop-Ends measure body step (suc fuel) s m h =
      resume-Ends measure (measure s) (loop fuel body)
        (λ t lt ht. loop-Ends measure body step fuel t (omega arith) ht) (body s) (step s h)

  pub loop-Allows :
      (body : S → Turn R S)
      → ((s : S) → P s → Keeps P Q (body s))
      → (fuel : ℕ) (s : S) → P s
      → Allows Q (loop fuel body s)
  unfolding loop
  loop-Allows body step zero s h = tt
  loop-Allows body step (suc fuel) s h =
      resume-Allows (loop fuel body) (loop-Allows body step fuel) (body s) (step s h)
