-- ===== src/Kernel/Scheduler/Putting.antt =====
-- A thread is put into a list that is linked both ways.
use aegir.Prelude.{
  ℕ, true, false, Option, none, some, List, [], ◌∷◌, ◌++◌, ◌≡◌, ◌≢◌, refl, ◌∙◌, arith, ◌==◌,
  if◌then◌else◌,
}
use aegir.Kernel.PhysicalMemory.Chain.{has}
use aegir.Kernel.Scheduler.{is}
use aegir.Kernel.Scheduler.Links.{
  Linked, Linked-ext, has-append, first_or, last_or, at_end, is_first, is_last,
}

-- The first link and the last one lead to the ends.
pub Linked-ends :
    (nx pv : ℕ → Option ℕ) (xs : List ℕ) (p h l : Option ℕ)
    → Linked nx pv p xs h l
    → (h ≡ first_or none xs) × (l ≡ last_or p xs)
Linked-ends nx pv [] p h l (a, b) = (a, b)
Linked-ends nx pv (x ∷ xs) p h l (a, b, c, d) = (a, (Linked-ends nx pv xs (some x) (nx x) l d).1)

-- The links after `x` is put between `before` and `after`.
module _ (nx pv nx2 pv2 : ℕ → Option ℕ) (x : ℕ) (before after : Option ℕ)
    (hn : (t : ℕ) → t ≢ x → nx2 t ≡ (if is before t then some x else nx t))
    (hp : (t : ℕ) → t ≢ x → pv2 t ≡ (if is after t then some x else pv t)) (xn : nx2 x ≡ after)
    (xp : pv2 x ≡ before) where
  put_here :
      (rs : List ℕ) (p h l : Option ℕ)
      → before ≡ p
      → after ≡ first_or none rs
      → has x rs ≡ false
      → ((t : ℕ) → has t rs ≡ true → is p t ≡ false)
      → Linked nx pv p rs h l
      → Linked nx2 pv2 p (x ∷ rs) (some x) (at_end rs (some x) l)
  put_here [] p h l b a v o k = (refl, xp ∙ b, refl, (xn ∙ a, refl))
  put_here (y ∷ rs) p h l b a v o (d, e, f, g) =
      let n : y ≢ x = λ q. ground (arith, v, q) in
      let i : is after y ≡ true = rw a (ground arith) in
      let j : is before y ≡ false = rw b (o y (ground arith)) in
      let k : nx2 y ≡ nx y = hn y n ∙ rw j refl in
      let m : pv2 y ≡ some x = hp y n ∙ rw i refl in
      (
        refl,
        xp ∙ b,
        v,
        (
          xn ∙ a,
          m,
          f,
          rw k (
              Linked-ext nx pv nx2 pv2 (some y) rs (nx y) l
                (λ t u. (
                  hn t (λ q. ground (arith, v, u, q)) ∙ rw (b, o t (ground (arith, u))) refl,
                  hp t (λ q. ground (arith, v, u, q)) ∙ rw a (ground (arith, f, u)),
                ))
                g),
        ),
      )

  pub Linked-put :
      (ls rs : List ℕ) (p h l : Option ℕ)
      → before ≡ last_or p ls
      → after ≡ first_or none rs
      → has x (ls ++ rs) ≡ false
      → ((t : ℕ) → has t (ls ++ rs) ≡ true → is p t ≡ false)
      → Linked nx pv p (ls ++ rs) h l
      → Linked nx2 pv2 p (ls ++ x ∷ rs) (at_end ls (some x) h) (at_end rs (some x) l)
  Linked-put [] rs p h l b a v o k = put_here rs p h l b a v o k
  Linked-put (y ∷ ls) rs p h l b a v o (d, e, f, g) =
      let u = has-append y ls rs in
      let n : y ≢ x = λ q. ground (arith, v, q) in
      let j : is after y ≡ false = rw a (is_first y rs (ground (arith, f, u))) in
      let m : pv2 y ≡ pv y = hp y n ∙ rw j refl in
      let w =
        Linked-put ls rs (some y) (nx y) l b a (ground (arith, v)) (λ t z. ground (arith, f, z))
          g in
      let z : has y (ls ++ x ∷ rs) ≡ false = has-append y ls (x ∷ rs) ∙ ground (arith, f, u, n) in
      (d, m ∙ e, z, rw (next ls b (ground (arith, f, u)) n) w)
    where
      next :
          (zs : List ℕ)
          → before ≡ last_or (some y) zs
          → has y zs ≡ false
          → y ≢ x
          → nx2 y ≡ at_end zs (some x) (nx y)
      next [] e v n = hn y n ∙ rw e (let z : (y == y) ≡ true = ground arith in rw z refl)
      next (z ∷ zs) e v n =
          hn y n ∙ rw (e, is_last y (some z) zs (ground (arith, v)) (ground (arith, v))) refl
