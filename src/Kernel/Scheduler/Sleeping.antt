-- ===== src/Kernel/Scheduler/Sleeping.antt =====
-- The queue of sleepers stands for a list sorted by deadline, the first come first among equals.
use aegir.Prelude.{
  ℕ, zero, suc, ◌≤◌, ◌<◌, true, false, Option, none, some, List, [], ◌∷◌, ◌++◌, length, ◌≡◌, refl,
  sym, ◌∙◌, arith, ◌==◌, Bool-cases, inl, inr,
}
use native.Mathlib.Decide.{ℕ_discrete}
use mathlib.Core.List.{append-nil, append_assoc}
use aegir.Kernel.PhysicalMemory.Chain.{has, without, has-without}
use aegir.Kernel.PhysicalMemory.Skip.{Yields}
use aegir.Kernel.Scheduler.{Sched, unlink_sleeper, remove_from, remove_sleeper}
use aegir.Kernel.Scheduler.Links.{
  Linked, Linked-neighbours, Linked-remove, first_or, last_or, has-append,
}
use aegir.Kernel.Scheduler.Putting.{Linked-ends}
use aegir.Kernel.Scheduler.ReadyQueue.{Linked-fresh}
use aegir.Kernel.Scheduler.Undisturbed.{
  sleep_next_of, sleep_prev_of, Undisturbed, Undisturbed-refl, unlink_sleeper-Undisturbed,
}
use aegir.Kernel.Scheduler.SleepLinks.{
  unlink_sleeper-next, unlink_sleeper-prev, unlink_sleeper-head,
}

abbrev pub IsSorted : (ℕ → ℕ) → List ℕ → Type 0
IsSorted d [] = Unit
IsSorted d (x ∷ xs) = ((t : ℕ) → has t xs ≡ true → d x ≤ d t) × IsSorted d xs

abbrev pub deadline_of : Sched → ℕ → ℕ
deadline_of s t = (s.tcb t).sleep_deadline

-- The links lead through the threads `zs` and back, by rising deadline.
pub record IsSleeping (s : Sched) (zs : List ℕ) : Type 0 where
  pub links : Linked (sleep_next_of s) (sleep_prev_of s) none zs s.sleep_head (last_or none zs)
  pub sorted : IsSorted (deadline_of s) zs

pub IsSorted-ext :
    (d e : ℕ → ℕ) (xs : List ℕ) → ((t : ℕ) → e t ≡ d t) → IsSorted d xs → IsSorted e xs
IsSorted-ext d e [] q h = tt
IsSorted-ext d e (x ∷ xs) q (a, b) =
    ((λ t k. omega (arith, q x, q t, a t k)), IsSorted-ext d e xs q b)

IsSorted-without : (d : ℕ → ℕ) (t : ℕ) (xs : List ℕ) → IsSorted d xs → IsSorted d (without t xs)
IsSorted-without d t [] h = tt
IsSorted-without d t (x ∷ xs) (a, b) = elim (Bool-cases (t == x)) [
  | inl e ↦ rw e (IsSorted-without d t xs b)
  | inr e ↦
      rw e (
        (λ u k. a u (let w = has-without t u xs in ground (arith, k, w))),
        IsSorted-without d t xs b,
      )
]

pub without_out : (t : ℕ) (xs : List ℕ) → has t xs ≡ false → without t xs ≡ xs
without_out t [] h = refl
without_out t (x ∷ xs) h =
    let e : (t == x) ≡ false = ground (arith, h) in
    let r = without_out t xs (ground (arith, h)) in rw (e, r) refl

pub without-append :
    (t : ℕ) (ls rs : List ℕ) → has t (ls ++ rs) ≡ false → without t (ls ++ t ∷ rs) ≡ ls ++ rs
without-append t [] rs h = let e : (t == t) ≡ true = ground arith in rw e (without_out t rs h)
without-append t (x ∷ ls) rs h =
    let e : (t == x) ≡ false = ground (arith, h) in
    rw (e, without-append t ls rs (ground (arith, h))) refl

-- A sleeper that the walk came to is taken out.
unlink_sleeper-IsSleeping :
    (s : Sched) (c : ℕ) (prev : Option ℕ) (ls rs : List ℕ)
    → IsSleeping s (ls ++ c ∷ rs)
    → prev ≡ last_or none ls
    → IsSleeping (unlink_sleeper c prev s) (without c (ls ++ c ∷ rs))
unlink_sleeper-IsSleeping s c prev ls rs o e =
    let n =
      Linked-neighbours (sleep_next_of s) (sleep_prev_of s) c ls rs none s.sleep_head _ o.links in
    let q : sleep_prev_of s c ≡ prev = n.0 ∙ sym e in
    let f = Linked-fresh (sleep_next_of s) (sleep_prev_of s) c ls rs none s.sleep_head _ o.links in
    let w = without-append c ls rs f in
    let k =
      Linked-remove (sleep_next_of s) (sleep_prev_of s) c _ _
        (λ t d. unlink_sleeper-next c prev s t d ∙ rw q refl)
        (λ t d. unlink_sleeper-prev c prev s t d ∙ rw q refl) ls rs none s.sleep_head _
        (λ t v. refl) o.links in
    let l = Linked-ends _ _ (ls ++ rs) none _ _ k in
    let u = unlink_sleeper-Undisturbed c prev s in
    record {
      links = rw (w, unlink_sleeper-head c prev s ls e) (rw (l.1) at (k));
      sorted =
          IsSorted-ext (deadline_of s) _ (without c (ls ++ c ∷ rs))
            (λ t. (u.awake t).sleep_deadline)
            (IsSorted-without (deadline_of s) c (ls ++ c ∷ rs) o.sorted);
    }

pub last_snoc : (o : Option ℕ) (ls : List ℕ) (y : ℕ) → some y ≡ last_or o (ls ++ y ∷ [])
last_snoc o [] y = refl
last_snoc o (x ∷ ls) y = last_snoc (some x) ls y

-- The thread is no sleeper any more, and the rest is as it was.
abbrev pub Removes : Sched → ℕ → List ℕ → Sched → Type 0
Removes s t zs u = IsSleeping u (without t zs) × Undisturbed s u

remove_from-Removes :
    (fuel : ℕ) (s : Sched) (t : ℕ) (prev cur : Option ℕ) (ls ys : List ℕ)
    → length ys < fuel
    → IsSleeping s (ls ++ ys)
    → has t ls ≡ false
    → prev ≡ last_or none ls
    → cur ≡ first_or none ys
    → Yields (Removes s t (ls ++ ys)) (remove_from fuel t prev cur s)
unfolding remove_from
remove_from-Removes zero s t prev cur ls ys h o f e c = absurd (omega arith)
remove_from-Removes (suc fuel) s t prev cur ls [] h o f e c =
    let k : has t (ls ++ []) ≡ false = rw append-nil f in
    rw c (rw (without_out t (ls ++ []) k) o, Undisturbed-refl s)
remove_from-Removes (suc fuel) s t prev cur ls (y ∷ ys) h o f e c = elim (ℕ_discrete y t) [
  | yes q ↦
      let b : (y == t) ≡ true = ground (arith, q) in
      rw (c, b)
        (rw (sym q)
          (unlink_sleeper-IsSleeping s y prev ls ys o e, unlink_sleeper-Undisturbed y prev s))
  | no q ↦
      let b : (y == t) ≡ false = ground (arith, q) in
      rw (c, b)
        (let n =
            Linked-neighbours (sleep_next_of s) (sleep_prev_of s) y ls ys none s.sleep_head _
              o.links in
          let v = has-append t ls (y ∷ []) in
          let w =
            remove_from-Removes fuel s t (some y) (sleep_next_of s y) (ls ++ y ∷ []) ys
              (omega arith) (rw append_assoc o) (ground (arith, v, f, b, q)) (last_snoc none ls y)
              n.1 in
          rw append_assoc at (w))
]

pub remove_sleeper-Removes :
    (fuel : ℕ) (s : Sched) (t : ℕ) (zs : List ℕ)
    → IsSleeping s zs
    → length zs < fuel
    → Yields (Removes s t zs) (remove_sleeper fuel t s)
unfolding remove_sleeper
remove_sleeper-Removes fuel s t zs o h =
    let e = Linked-ends _ _ zs none s.sleep_head _ o.links in
    remove_from-Removes fuel s t none s.sleep_head [] zs h o refl refl e.0
