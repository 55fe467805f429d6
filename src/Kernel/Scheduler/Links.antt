-- ===== src/Kernel/Scheduler/Links.antt =====
-- A list that is linked both ways, and what taking out and putting in does to it.
use aegir.Prelude.{
  ℕ, true, false, ◌||◌, Option, none, some, List, [], ◌∷◌, ◌++◌, ◌≡◌, ◌≢◌, refl, ◌∙◌, arith, ◌==◌,
  if◌then◌else◌,
}
use aegir.Kernel.PhysicalMemory.Chain.{has}
use aegir.Kernel.Scheduler.{is}

-- From `h` the links `nx` lead through the threads `xs`, none twice, to the last one `l`; the links
-- `pv` lead back to `p`.
abbrev pub Linked : (nx pv : ℕ → Option ℕ) (p : Option ℕ) (xs : List ℕ) (h l : Option ℕ) → Type 0
Linked nx pv p [] h l = (h ≡ none) × (l ≡ p)
Linked nx pv p (x ∷ xs) h l =
    (h ≡ some x) × (pv x ≡ p) × (has x xs ≡ false) × Linked nx pv (some x) xs (nx x) l

-- Links elsewhere do not matter.
pub Linked-ext :
    (nx pv nx2 pv2 : ℕ → Option ℕ) (p : Option ℕ) (xs : List ℕ) (h l : Option ℕ)
    → ((t : ℕ) → has t xs ≡ true → (nx2 t ≡ nx t) × (pv2 t ≡ pv t))
    → Linked nx pv p xs h l
    → Linked nx2 pv2 p xs h l
Linked-ext nx pv nx2 pv2 p [] h l e k = k
Linked-ext nx pv nx2 pv2 p (x ∷ xs) h l e (a, b, c, d) =
    let (n, v) = e x (ground arith) in
    (
      a,
      v ∙ b,
      c,
      rw n (Linked-ext nx pv nx2 pv2 (some x) xs (nx x) l (λ t k. e t (ground (arith, k))) d),
    )

pub has-append : (t : ℕ) (xs ys : List ℕ) → has t (xs ++ ys) ≡ (has t xs || has t ys)
has-append t [] ys = refl
has-append t (x ∷ xs) ys = ground (arith, has-append t xs ys)

-- The first and the last of some threads.
abbrev pub first_or : Option ℕ → List ℕ → Option ℕ
first_or o [] = o
first_or o (x ∷ xs) = some x

abbrev pub last_or : Option ℕ → List ℕ → Option ℕ
last_or o [] = o
last_or o (x ∷ xs) = last_or (some x) xs

pub is_first : (a : ℕ) (xs : List ℕ) → has a xs ≡ false → is (first_or none xs) a ≡ false
is_first a [] h = refl
is_first a (x ∷ xs) h = ground (arith, h)

pub is_last :
    (a : ℕ) (o : Option ℕ) (xs : List ℕ)
    → has a xs ≡ false
    → is o a ≡ false
    → is (last_or o xs) a ≡ false
is_last a o [] h e = e
is_last a o (x ∷ xs) h e = is_last a (some x) xs (ground (arith, h)) (ground (arith, h))

-- `a` for the empty list, `b` otherwise.
abbrev pub at_end : List ℕ → Option ℕ → Option ℕ → Option ℕ
at_end [] a b = a
at_end (x ∷ xs) a b = b

module _ (nx pv : ℕ → Option ℕ) (x : ℕ) where
  -- The neighbours of a thread in the list.
  pub Linked-neighbours :
      (ls rs : List ℕ) (p h l : Option ℕ)
      → Linked nx pv p (ls ++ x ∷ rs) h l
      → (pv x ≡ last_or p ls) × (nx x ≡ first_or none rs)
  Linked-neighbours [] [] p h l (a, b, c, (d, e)) = (b, d)
  Linked-neighbours [] (y ∷ rs) p h l (a, b, c, (d, e, f, g)) = (b, d)
  Linked-neighbours (y ∷ ls) rs p h l (a, b, c, d) = Linked-neighbours ls rs (some y) (nx y) l d

  -- The links after `x` is taken out.
  module _ (nx2 pv2 : ℕ → Option ℕ)
      (hn : (t : ℕ) → t ≢ x → nx2 t ≡ (if is (pv x) t then nx x else nx t))
      (hp : (t : ℕ) → t ≢ x → pv2 t ≡ (if is (nx x) t then pv x else pv t)) where
    stays :
        (t : ℕ)
        → t ≢ x
        → is (pv x) t ≡ false
        → is (nx x) t ≡ false
        → (nx2 t ≡ nx t) × (pv2 t ≡ pv t)
    stays t n a b = (hn t n ∙ rw a refl, hp t n ∙ rw b refl)

    remove_here :
        (rs : List ℕ) (p h l : Option ℕ)
        → ((t : ℕ) → has t rs ≡ true → is p t ≡ false)
        → Linked nx pv p (x ∷ rs) h l
        → Linked nx2 pv2 p rs (nx x) (at_end rs (pv x) l)
    remove_here [] p h l o (a, b, c, (d, e)) = (d, b)
    remove_here (y ∷ rs) p h l o (a, b, c, (d, e, f, g)) =
        let n : y ≢ x = λ q. ground (arith, c, q) in
        let i : is (nx x) y ≡ true = rw d (ground arith) in
        let j : is (pv x) y ≡ false = rw b (o y (ground arith)) in
        let k : nx2 y ≡ nx y = hn y n ∙ rw j refl in
        let m : pv2 y ≡ pv x = hp y n ∙ rw i refl in
        (
          d,
          m ∙ b,
          f,
          rw k (
              Linked-ext nx pv nx2 pv2 (some y) rs (nx y) l
                (λ t u.
                  stays t (λ q. ground (arith, c, u, q)) (rw b (o t (ground (arith, u))))
                    (rw d (ground (arith, f, u))))
                g),
        )

    pub Linked-remove :
        (ls rs : List ℕ) (p h l : Option ℕ)
        → ((t : ℕ) → has t (ls ++ x ∷ rs) ≡ true → is p t ≡ false)
        → Linked nx pv p (ls ++ x ∷ rs) h l
        → Linked nx2 pv2 p (ls ++ rs) (at_end ls (nx x) h) (at_end rs (pv x) l)
    Linked-remove [] rs p h l o k = remove_here rs p h l (λ t u. o t (ground (arith, u))) k
    Linked-remove (y ∷ ls) rs p h l o (a, b, c, d) =
        let e = Linked-neighbours ls rs (some y) (nx y) l d in
        let u = has-append y ls (x ∷ rs) in
        let n : y ≢ x = λ q. ground (arith, c, u, q) in
        let j : is (nx x) y ≡ false = rw (e.1) (is_first y rs (ground (arith, c, u))) in
        let m : pv2 y ≡ pv y = hp y n ∙ rw j refl in
        let g : has y (ls ++ rs) ≡ false = has-append y ls rs ∙ ground (arith, c, u) in
        let w = Linked-remove ls rs (some y) (nx y) l (λ t v. ground (arith, c, v)) d in
        (a, m ∙ b, g, rw (next ls e.0 (ground (arith, c, u)) n) w)
      where
        next :
            (zs : List ℕ)
            → pv x ≡ last_or (some y) zs
            → has y zs ≡ false
            → y ≢ x
            → nx2 y ≡ at_end zs (nx x) (nx y)
        next [] e v n = hn y n ∙ rw e (let z : (y == y) ≡ true = ground arith in rw z refl)
        next (z ∷ zs) e v n =
            hn y n ∙ rw (e, is_last y (some z) zs (ground (arith, v)) (ground (arith, v))) refl
