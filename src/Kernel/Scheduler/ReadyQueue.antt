-- ===== src/Kernel/Scheduler/ReadyQueue.antt =====
-- The queue of ready threads stands for a list, oldest first but for those that were woken.
use aegir.Prelude.{
  ℕ, suc, true, false, Option, none, some, List, [], ◌∷◌, ◌++◌, length, ◌≡◌, ◌≢◌, refl, sym, ◌∙◌,
  arith, ◌==◌, if◌then◌else◌,
}
use native.Mathlib.Decide.{ℕ_discrete}
use aegir.Kernel.PhysicalMemory.Chain.{has}
use aegir.Kernel.Scheduler.{Sched, is, link_next, link_prev, unlink_ready}
use aegir.Kernel.Scheduler.Links.{
  Linked, Linked-neighbours, Linked-remove, has-append, first_or, last_or, at_end,
}

abbrev pub next_of : Sched → ℕ → Option ℕ
next_of s t = (s.tcb t).ready_next

abbrev pub prev_of : Sched → ℕ → Option ℕ
prev_of s t = (s.tcb t).ready_prev

-- The links lead through the threads `xs` and back, the count is theirs, and a thread is marked as
-- queued exactly if it is one of them.
pub record IsReady (s : Sched) (xs : List ℕ) : Type 0 where
  pub links : Linked (next_of s) (prev_of s) none xs s.ready_head s.ready_tail
  pub count : s.ready_n ≡ length xs
  pub queued : (t : ℕ) → (s.tcb t).queued ≡ has t xs

pub link_next-next :
    (p n : Option ℕ) (s : Sched) (t : ℕ)
    → next_of (link_next p n s) t ≡ (if is p t then n else next_of s t)
link_next-next none n s t = refl
link_next-next (some p) n s t = ground arith

pub link_prev-prev :
    (n p : Option ℕ) (s : Sched) (t : ℕ)
    → prev_of (link_prev n p s) t ≡ (if is n t then p else prev_of s t)
link_prev-prev none p s t = refl
link_prev-prev (some n) p s t = ground arith

pub link_next-prev :
    (p n : Option ℕ) (s : Sched) (t : ℕ) → prev_of (link_next p n s) t ≡ prev_of s t
link_next-prev none n s t = refl
link_next-prev (some p) n s t = ground arith

pub link_prev-next :
    (n p : Option ℕ) (s : Sched) (t : ℕ) → next_of (link_prev n p s) t ≡ next_of s t
link_prev-next none p s t = refl
link_prev-next (some n) p s t = ground arith

pub link_next-head :
    (n : Option ℕ) (s : Sched) (p : Option ℕ) (ls : List ℕ)
    → p ≡ last_or none ls
    → (link_next p n s).ready_head ≡ at_end ls n s.ready_head
link_next-head n s p [] e = rw e refl
link_next-head n s p (y ∷ ls) e = rw e (inner y ls)
  where
    inner : (y : ℕ) (ls : List ℕ) → (link_next (last_or (some y) ls) n s).ready_head ≡ s.ready_head
    inner y [] = refl
    inner y (z ∷ ls) = inner z ls

pub link_prev-tail :
    (p : Option ℕ) (s : Sched) (n : Option ℕ) (rs : List ℕ)
    → n ≡ first_or none rs
    → (link_prev n p s).ready_tail ≡ at_end rs p s.ready_tail
link_prev-tail p s n [] e = rw e refl
link_prev-tail p s n (y ∷ rs) e = rw e refl

pub link_next-tail : (p n : Option ℕ) (s : Sched) → (link_next p n s).ready_tail ≡ s.ready_tail
link_next-tail none n s = refl
link_next-tail (some p) n s = refl

pub link_prev-head : (n p : Option ℕ) (s : Sched) → (link_prev n p s).ready_head ≡ s.ready_head
link_prev-head none p s = refl
link_prev-head (some n) p s = refl

pub link_next-count : (p n : Option ℕ) (s : Sched) → (link_next p n s).ready_n ≡ s.ready_n
link_next-count none n s = refl
link_next-count (some p) n s = refl

pub link_prev-count : (n p : Option ℕ) (s : Sched) → (link_prev n p s).ready_n ≡ s.ready_n
link_prev-count none p s = refl
link_prev-count (some n) p s = refl

pub link_next-queued :
    (p n : Option ℕ) (s : Sched) (t : ℕ) → ((link_next p n s).tcb t).queued ≡ (s.tcb t).queued
link_next-queued none n s t = refl
link_next-queued (some p) n s t = ground arith

pub link_prev-queued :
    (n p : Option ℕ) (s : Sched) (t : ℕ) → ((link_prev n p s).tcb t).queued ≡ (s.tcb t).queued
link_prev-queued none p s t = refl
link_prev-queued (some n) p s t = ground arith

-- No thread is twice in the list.
pub Linked-fresh :
    (nx pv : ℕ → Option ℕ) (x : ℕ) (ls rs : List ℕ) (p h l : Option ℕ)
    → Linked nx pv p (ls ++ x ∷ rs) h l
    → has x (ls ++ rs) ≡ false
Linked-fresh nx pv x [] rs p h l (a, b, c, d) = c
Linked-fresh nx pv x (y ∷ ls) rs p h l (a, b, c, d) =
    let u = Linked-fresh nx pv x ls rs (some y) (nx y) l d in
    let v = has-append y ls (x ∷ rs) in ground (arith, c, u, v)

pub length-insert : (x : ℕ) (ls rs : List ℕ) → length (ls ++ x ∷ rs) ≡ suc (length (ls ++ rs))
length-insert x [] rs = refl
length-insert x (y ∷ ls) rs = omega (arith, length-insert x ls rs)

pub other : (t x : ℕ) → t ≢ x → (t == x) ≡ false
other t x d = ground (arith, d)

unlink_ready-next :
    (x : ℕ) (s : Sched) (t : ℕ)
    → t ≢ x
    → next_of (unlink_ready x s) t ≡ (if is (prev_of s x) t then next_of s x else next_of s t)
unfolding unlink_ready
unlink_ready-next x s t d =
    let p = (s.tcb x).ready_prev in
    let n = (s.tcb x).ready_next in
    let out = other t x d in
    rw (next_of, out) (link_prev-next n p (link_next p n s) t ∙ link_next-next p n s t)

unlink_ready-prev :
    (x : ℕ) (s : Sched) (t : ℕ)
    → t ≢ x
    → prev_of (unlink_ready x s) t ≡ (if is (next_of s x) t then prev_of s x else prev_of s t)
unfolding unlink_ready
unlink_ready-prev x s t d =
    let p = (s.tcb x).ready_prev in
    let n = (s.tcb x).ready_next in
    let out = other t x d in
    rw (prev_of, out) (link_prev-prev n p (link_next p n s) t ∙ rw (link_next-prev p n s t) refl)

pub unlink_ready-IsReady :
    (s : Sched) (x : ℕ) (ls rs : List ℕ)
    → IsReady s (ls ++ x ∷ rs)
    → IsReady (unlink_ready x s) (ls ++ rs)
unfolding unlink_ready
unlink_ready-IsReady s x ls rs o =
    let p = (s.tcb x).ready_prev in
    let n = (s.tcb x).ready_next in
    let u = link_next p n s in
    let e =
      Linked-neighbours (next_of s) (prev_of s) x ls rs none s.ready_head s.ready_tail o.links in
    let fresh =
      Linked-fresh (next_of s) (prev_of s) x ls rs none s.ready_head s.ready_tail o.links in
    let hd : (link_prev n p u).ready_head ≡ at_end ls n s.ready_head =
      link_prev-head n p u ∙ link_next-head n s p ls e.0 in
    let tl : (link_prev n p u).ready_tail ≡ at_end rs p s.ready_tail =
      link_prev-tail p u n rs e.1 ∙ rw (link_next-tail p n s) refl in
    record {
      links =
          rw (hd, tl)
            (Linked-remove (next_of s) (prev_of s) x _ _ (unlink_ready-next x s)
              (unlink_ready-prev x s) ls rs none s.ready_head s.ready_tail (λ t w. refl) o.links);
      count =
          omega
            (arith, o.count, length-insert x ls rs, link_prev-count n p u, link_next-count p n s);
      queued = λ t. marked t fresh;
    }
  where
    marked :
        (t : ℕ) → has x (ls ++ rs) ≡ false → ((unlink_ready x s).tcb t).queued ≡ has t (ls ++ rs)
    marked t fresh = elim (ℕ_discrete t x) [
      | yes q ↦ let self : (x == x) ≡ true = ground arith in rw (q, self) (sym fresh)
      | no d ↦
          let p = (s.tcb x).ready_prev in
          let n = (s.tcb x).ready_next in
          let u = link_next p n s in
          let out : (t == x) ≡ false = ground (arith, d) in
          let v = has-append t ls (x ∷ rs) in
          let w = has-append t ls rs in
          let k : has t (ls ++ x ∷ rs) ≡ has t (ls ++ rs) = ground (arith, out, v, w) in
          rw out (link_prev-queued n p u t ∙ link_next-queued p n s t ∙ o.queued t ∙ k)
    ]
