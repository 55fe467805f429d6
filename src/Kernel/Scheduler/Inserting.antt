-- ===== src/Kernel/Scheduler/Inserting.antt =====
-- `Insert_Sleeper`: a sleeper goes behind those whose deadline is not later.
use aegir.Prelude.{
  ℕ, zero, suc, ◌≤◌, ◌<◌, true, false, Option, none, some, List, [], ◌∷◌, ◌++◌, length, leb, ◌≡◌,
  refl, arith, Bool-cases, inl, inr,
}
use native.Mathlib.Decide.{ℕ_discrete}
use mathlib.Core.List.{append_assoc}
use aegir.Kernel.PhysicalMemory.Chain.{has}
use aegir.Kernel.PhysicalMemory.Skip.{Yields}
use aegir.Kernel.Scheduler.{Sched, is, link_sleeper, sleep_place, insert_sleeper}
use aegir.Kernel.Scheduler.Links.{
  Linked-neighbours, first_or, last_or, is_first, is_last, has-append,
}
use aegir.Kernel.Scheduler.Putting.{Linked-ends, Linked-put}
use aegir.Kernel.Scheduler.Undisturbed.{
  sleep_next_of, sleep_prev_of, Undisturbed, link_sleeper-Undisturbed,
}
use aegir.Kernel.Scheduler.SleepLinks.{
  link_sleeper-next, link_sleeper-prev, link_sleeper-next_own, link_sleeper-prev_own,
  link_sleeper-head,
}
use aegir.Kernel.Scheduler.Sleeping.{IsSorted, deadline_of, IsSleeping, IsSorted-ext, last_snoc}

-- The place of a deadline: after those that are not later.
abbrev Place : Sched → ℕ → List ℕ → Option ℕ × Option ℕ → Type 0
Place s at zs (p, c) =
    (ls : List ℕ) × ((rs : List ℕ) × ((zs ≡ ls ++ rs)
        × (p ≡ last_or none ls)
        × (c ≡ first_or none rs)
        × ((t : ℕ) → has t ls ≡ true → deadline_of s t ≤ at)
        × ((t : ℕ) → has t rs ≡ true → at < deadline_of s t)))

sleep_place-Place :
    (fuel at : ℕ) (s : Sched) (prev cur : Option ℕ) (ls ys : List ℕ)
    → length ys < fuel
    → IsSleeping s (ls ++ ys)
    → IsSorted (deadline_of s) ys
    → prev ≡ last_or none ls
    → cur ≡ first_or none ys
    → ((t : ℕ) → has t ls ≡ true → deadline_of s t ≤ at)
    → Yields (Place s at (ls ++ ys)) (sleep_place fuel at prev cur s)
unfolding sleep_place
sleep_place-Place zero at s prev cur ls ys h o k e c b = absurd (omega arith)
sleep_place-Place (suc fuel) at s prev cur ls [] h o k e c b =
    rw c (ls, ([], (refl, e, refl, b, λ t w. ground arith)))
sleep_place-Place (suc fuel) at s prev cur ls (y ∷ ys) h o (k, l) e c b =
    elim (Bool-cases (leb (deadline_of s y) at)) [
      | inr d ↦ rw (c, d) (ls, (y ∷ ys, (refl, e, refl, b, later k d)))
      | inl d ↦
          let n =
            Linked-neighbours (sleep_next_of s) (sleep_prev_of s) y ls ys none s.sleep_head _
              o.links in
          let w =
            sleep_place-Place fuel at s (some y) (sleep_next_of s y) (ls ++ y ∷ []) ys (omega arith)
              (rw append_assoc o) l (last_snoc none ls y) n.1 (before d) in
          rw (c, d) (rw append_assoc at (w))
    ]
  where
    later :
        ((t : ℕ) → has t ys ≡ true → deadline_of s y ≤ deadline_of s t)
        → leb (deadline_of s y) at ≡ false
        → (t : ℕ) → has t (y ∷ ys) ≡ true
        → at < deadline_of s t
    later k d t w = elim (ℕ_discrete t y) [
      | yes q ↦ rw q (ground (arith, d))
      | no n ↦ let v = k t (ground (arith, w, n)) in ground (arith, d, v)
    ]

    before :
        leb (deadline_of s y) at ≡ true
        → (t : ℕ) → has t (ls ++ y ∷ []) ≡ true
        → deadline_of s t ≤ at
    before d t w = elim (ℕ_discrete t y) [
      | yes q ↦ rw q (ground (arith, d))
      | no n ↦ let v = has-append t ls (y ∷ []) in b t (ground (arith, v, w, n))
    ]

IsSorted-insert :
    (d : ℕ → ℕ) (x : ℕ) (ls rs : List ℕ)
    → IsSorted d (ls ++ rs)
    → ((t : ℕ) → has t ls ≡ true → d t ≤ d x)
    → ((t : ℕ) → has t rs ≡ true → d x < d t)
    → IsSorted d (ls ++ x ∷ rs)
IsSorted-insert d x [] rs h a b = ((λ t w. omega (arith, b t w)), h)
IsSorted-insert d x (y ∷ ls) rs (k, l) a b =
    (first, IsSorted-insert d x ls rs l (λ t w. a t (ground (arith, w))) b)
  where
    first : (t : ℕ) → has t (ls ++ x ∷ rs) ≡ true → d y ≤ d t
    first t w = elim (ℕ_discrete t x) [
      | yes q ↦ rw q (a y (ground arith))
      | no n ↦
          let u = has-append t ls (x ∷ rs) in
          let v = has-append t ls rs in k t (ground (arith, u, v, w, n))
    ]

-- The thread is among the sleepers, after those whose deadline is not later and before the others.
abbrev pub Inserts : Sched → ℕ → List ℕ → Sched → Type 0
Inserts s t zs u =
    (ls : List ℕ) × ((rs : List ℕ) × ((zs ≡ ls ++ rs)
        × IsSleeping u (ls ++ t ∷ rs)
        × ((v : ℕ) → has v ls ≡ true → deadline_of s v ≤ deadline_of s t)
        × ((v : ℕ) → has v rs ≡ true → deadline_of s t < deadline_of s v)
        × Undisturbed s u))

pub insert_sleeper-Inserts :
    (fuel : ℕ) (s : Sched) (t : ℕ) (zs : List ℕ)
    → IsSleeping s zs
    → has t zs ≡ false
    → length zs < fuel
    → Yields (Inserts s t zs) (insert_sleeper fuel t s)
unfolding insert_sleeper
insert_sleeper-Inserts fuel s t zs o f h =
    let e = Linked-ends _ _ zs none s.sleep_head _ o.links in
    linked (sleep_place fuel (deadline_of s t) none s.sleep_head s) (
      sleep_place-Place fuel (deadline_of s t) s none s.sleep_head [] zs h o o.sorted refl e.0
        (λ v w. ground arith))
  where
    put_in :
        (p c : Option ℕ) (ls rs : List ℕ)
        → zs ≡ ls ++ rs
        → p ≡ last_or none ls
        → c ≡ first_or none rs
        → ((v : ℕ) → has v ls ≡ true → deadline_of s v ≤ deadline_of s t)
        → ((v : ℕ) → has v rs ≡ true → deadline_of s t < deadline_of s v)
        → IsSleeping (link_sleeper t p c s) (ls ++ t ∷ rs)
    put_in p c ls rs q a b x y =
        let fresh : has t (ls ++ rs) ≡ false = rw⁻¹ q f in
        let v = has-append t ls rs in
        let links = rw q at (o.links) in
        let i : is p t ≡ false = rw a (is_last t none ls (ground (arith, v, fresh)) refl) in
        let j : is c t ≡ false = rw b (is_first t rs (ground (arith, v, fresh))) in
        let k =
          Linked-put (sleep_next_of s) (sleep_prev_of s) _ _ t p c (link_sleeper-next t p c s)
            (link_sleeper-prev t p c s) (link_sleeper-next_own t p c s i)
            (link_sleeper-prev_own t p c s j) ls rs none s.sleep_head _ a b fresh (λ u w. refl)
            links in
        let l = Linked-ends _ _ (ls ++ t ∷ rs) none _ _ k in
        let u = link_sleeper-Undisturbed t p c s in
        record {
          links = rw (link_sleeper-head t p c s ls a) (rw (l.1) at (k));
          sorted =
              IsSorted-ext (deadline_of s) _ (ls ++ t ∷ rs) (λ w. (u.awake w).sleep_deadline)
                (IsSorted-insert (deadline_of s) t ls rs (rw q at (o.sorted)) x y);
        }

    linked :
        (r : Option (Option ℕ × Option ℕ))
        → Yields (Place s (deadline_of s t) zs) r
        → Yields
            (Inserts s t zs)
            (elim r [ none ↦ none | some (p, c) ↦ some (link_sleeper t p c s) ])
    linked none y = y
    linked (some (p, c)) (ls, (rs, (q, a, b, x, y))) =
        (ls, (rs, (q, put_in p c ls rs q a b x y, x, y, link_sleeper-Undisturbed t p c s)))
