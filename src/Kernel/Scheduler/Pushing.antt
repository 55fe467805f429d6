-- ===== src/Kernel/Scheduler/Pushing.antt =====
-- `Push`: a thread that is not queued goes to the head of the queue if it is boosted, and to the tail
-- otherwise.
use aegir.Prelude.{
  ℕ, suc, ◌+◌, Bool, true, false, ◌||◌, none, some, List, [], ◌∷◌, ◌++◌, length, ◌≡◌, ◌≢◌, refl,
  ◌∙◌, arith, ◌==◌, if◌then◌else◌,
}
use mathlib.Core.List.{append-nil}
use aegir.Kernel.PhysicalMemory.Chain.{has}
use aegir.Kernel.Scheduler.{Sched, is, put, push_head, push_tail, enqueue, set_queued, notify_work}
use aegir.Kernel.Scheduler.Links.{
  Linked, Linked-ext, first_or, last_or, is_first, is_last, has-append,
}
use aegir.Kernel.Scheduler.Putting.{Linked-ends, Linked-put}
use aegir.Kernel.Scheduler.ReadyQueue.{
  IsReady, next_of, prev_of, link_next-next, link_prev-prev, link_next-prev, link_prev-next,
  link_next-head, link_prev-tail, link_next-count, link_prev-count, link_next-queued,
  link_prev-queued, other,
}

same : (x : ℕ) → (x == x) ≡ true
same x = ground arith

module _ (s : Sched) (x : ℕ) (xs : List ℕ) (o : IsReady s xs) (f : has x xs ≡ false) where
  ends : (s.ready_head ≡ first_or none xs) × (s.ready_tail ≡ last_or none xs)
  ends = Linked-ends (next_of s) (prev_of s) xs none s.ready_head s.ready_tail o.links

  abbrev at_head : Sched
  at_head = put x (record (s.tcb x) { ready_prev = none; ready_next = s.ready_head }) s

  head-next : (t : ℕ) → t ≢ x → next_of (push_head x s) t ≡ next_of s t
  unfolding push_head
  head-next t d =
      let out = other t x d in
      link_prev-next s.ready_head (some x) at_head t ∙ rw (next_of, out) refl

  head-prev :
      (t : ℕ)
      → t ≢ x
      → prev_of (push_head x s) t ≡ (if is s.ready_head t then some x else prev_of s t)
  unfolding push_head
  head-prev t d =
      let out = other t x d in
      link_prev-prev s.ready_head (some x) at_head t ∙ rw (prev_of, out) refl

  head-next_own : next_of (push_head x s) x ≡ s.ready_head
  unfolding push_head
  head-next_own = link_prev-next s.ready_head (some x) at_head x ∙ rw (next_of, same x) refl

  head-prev_own : prev_of (push_head x s) x ≡ none
  unfolding push_head
  head-prev_own =
      let i : is s.ready_head x ≡ false = rw (ends.0) (is_first x xs f) in
      link_prev-prev s.ready_head (some x) at_head x ∙ rw (i, prev_of, same x) refl

  push_head-Linked :
      Linked
        (next_of (push_head x s))
        (prev_of (push_head x s))
        none
        (x ∷ xs)
        (push_head x s).ready_head
        (push_head x s).ready_tail
  unfolding push_head
  push_head-Linked = rw (link_prev-tail (some x) at_head s.ready_head xs ends.0) (
      Linked-put (next_of s) (prev_of s) _ _ x none s.ready_head head-next head-prev head-next_own
        head-prev_own [] xs none s.ready_head s.ready_tail refl ends.0 f (λ t w. refl) o.links)

  abbrev at_tail : Sched
  at_tail = put x (record (s.tcb x) { ready_next = none; ready_prev = s.ready_tail }) s

  tail-prev : (t : ℕ) → t ≢ x → prev_of (push_tail x s) t ≡ prev_of s t
  unfolding push_tail
  tail-prev t d =
      let out = other t x d in
      link_next-prev s.ready_tail (some x) at_tail t ∙ rw (prev_of, out) refl

  tail-next :
      (t : ℕ)
      → t ≢ x
      → next_of (push_tail x s) t ≡ (if is s.ready_tail t then some x else next_of s t)
  unfolding push_tail
  tail-next t d =
      let out = other t x d in
      link_next-next s.ready_tail (some x) at_tail t ∙ rw (next_of, out) refl

  tail-prev_own : prev_of (push_tail x s) x ≡ s.ready_tail
  unfolding push_tail
  tail-prev_own = link_next-prev s.ready_tail (some x) at_tail x ∙ rw (prev_of, same x) refl

  tail-next_own : next_of (push_tail x s) x ≡ none
  unfolding push_tail
  tail-next_own =
      let i : is s.ready_tail x ≡ false = rw (ends.1) (is_last x none xs f refl) in
      link_next-next s.ready_tail (some x) at_tail x ∙ rw (i, next_of, same x) refl

  push_tail-Linked :
      Linked
        (next_of (push_tail x s))
        (prev_of (push_tail x s))
        none
        (xs ++ x ∷ [])
        (push_tail x s).ready_head
        (push_tail x s).ready_tail
  unfolding push_tail
  push_tail-Linked =
      let fresh : has x (xs ++ []) ≡ false = rw append-nil f in
      rw (link_next-head (some x) at_tail s.ready_tail xs ends.1) (
        Linked-put (next_of s) (prev_of s) _ _ x s.ready_tail none tail-next (λ t d. tail-prev t d)
          tail-next_own tail-prev_own xs [] none s.ready_head s.ready_tail ends.1 refl fresh
          (λ t w. refl) (rw append-nil o.links))

-- Marking and counting the thread, and calling the other harts, completes the queue.
abbrev marked : ℕ → Sched → Sched
marked x u = record (set_queued x true u) { ready_n = u.ready_n + 1 }

marked-IsReady :
    (s u : Sched) (x : ℕ) (xs ys : List ℕ)
    → IsReady s xs
    → Linked (next_of u) (prev_of u) none ys u.ready_head u.ready_tail
    → u.ready_n ≡ s.ready_n
    → ((t : ℕ) → (u.tcb t).queued ≡ (s.tcb t).queued)
    → length ys ≡ suc (length xs)
    → ((t : ℕ) → has t ys ≡ ((t == x) || has t xs))
    → IsReady (marked x u) ys
marked-IsReady s u x xs ys o k c q n h = record {
  links =
      Linked-ext (next_of u) (prev_of u) _ _ none ys u.ready_head u.ready_tail
        (λ t w. (ground arith, ground arith)) k;
  count = omega (arith, c, n, o.count);
  queued = λ t. ground (arith, q t, h t, o.queued t);
}

called-IsReady :
    (b : Bool) (v : Sched) (ys : List ℕ)
    → IsReady v ys
    → IsReady (if b then notify_work v else v) ys
called-IsReady true v ys o = record { links = o.links; count = o.count; queued = o.queued }
called-IsReady false v ys o = o

length-snoc : (xs : List ℕ) (x : ℕ) → length (xs ++ x ∷ []) ≡ suc (length xs)
length-snoc [] x = refl
length-snoc (y ∷ xs) x = omega (arith, length-snoc xs x)

has-snoc : (t x : ℕ) (xs : List ℕ) → has t (xs ++ x ∷ []) ≡ ((t == x) || has t xs)
has-snoc t x xs = has-append t xs (x ∷ []) ∙ ground arith

push_head-queued : (x : ℕ) (s : Sched) (t : ℕ) → ((push_head x s).tcb t).queued ≡ (s.tcb t).queued
unfolding push_head
push_head-queued x s t =
    let u = put x (record (s.tcb x) { ready_prev = none; ready_next = s.ready_head }) s in
    link_prev-queued s.ready_head (some x) u t ∙ ground arith

push_tail-queued : (x : ℕ) (s : Sched) (t : ℕ) → ((push_tail x s).tcb t).queued ≡ (s.tcb t).queued
unfolding push_tail
push_tail-queued x s t =
    let u = put x (record (s.tcb x) { ready_next = none; ready_prev = s.ready_tail }) s in
    link_next-queued s.ready_tail (some x) u t ∙ ground arith

push_head-count : (x : ℕ) (s : Sched) → (push_head x s).ready_n ≡ s.ready_n
unfolding push_head
push_head-count x s = link_prev-count s.ready_head (some x) _

push_tail-count : (x : ℕ) (s : Sched) → (push_tail x s).ready_n ≡ s.ready_n
unfolding push_tail
push_tail-count x s = link_next-count s.ready_tail (some x) _

-- Where a thread goes.
abbrev pub placed : Bool → ℕ → List ℕ → List ℕ
placed true x xs = x ∷ xs
placed false x xs = xs ++ x ∷ []

pub enqueue-IsReady :
    (s : Sched) (x : ℕ) (xs : List ℕ) (notify boost : Bool)
    → IsReady s xs
    → has x xs ≡ false
    → IsReady (enqueue x notify boost s) (placed boost x xs)
unfolding enqueue
enqueue-IsReady s x xs notify true o f = called-IsReady _ _ (x ∷ xs) (
    marked-IsReady s (push_head x s) x xs (x ∷ xs) o (push_head-Linked s x xs o f)
      (push_head-count x s) (push_head-queued x s) refl (λ t. refl))
enqueue-IsReady s x xs notify false o f = called-IsReady _ _ (xs ++ x ∷ []) (
    marked-IsReady s (push_tail x s) x xs (xs ++ x ∷ []) o (push_tail-Linked s x xs o f)
      (push_tail-count x s) (push_tail-queued x s) (length-snoc xs x) (λ t. has-snoc t x xs))
