-- ===== src/Kernel/Scheduler/Popping.antt =====
-- `Pop`: the dead leave the queue, and the best of the others, the oldest among equals, is taken out.
use aegir.Prelude.{
  ℕ, zero, suc, ◌<◌, Bool, true, false, Option, none, some, List, [], ◌∷◌, ◌++◌, length, ◌≡◌, ◌≢◌,
  ◌⊎◌, refl, arith, ◌==◌, Bool-cases, inl, inr,
}
use mathlib.Core.List.{append-nil, append_assoc}
use aegir.Kernel.Tasks.{dead, is_state}
use aegir.Kernel.PhysicalMemory.Skip.{Yields}
use aegir.Kernel.Scheduler.{
  Sched, Status, ok, queue_empty, best_of, unlink_ready, set_boosted, scan, take_best, pop,
}
use aegir.Kernel.Scheduler.Links.{Linked-ext, Linked-neighbours, first_or}
use aegir.Kernel.Scheduler.Putting.{Linked-ends}
use aegir.Kernel.Scheduler.Beside.{Same, Beside, Beside-refl, Beside-trans, unlink_ready-Beside}
use aegir.Kernel.Scheduler.ReadyQueue.{IsReady, next_of, prev_of, unlink_ready-IsReady, other}
use aegir.Kernel.Scheduler.Choosing.{live, IsBest, Chosen, Chosen-next}

-- What the pass leaves: the live threads in order, and the best of them.
abbrev Scanned : Sched → List ℕ → Option ℕ × Sched → Type 0
Scanned s zs (best, v) = IsReady v zs × Beside s v × Chosen s.tcb best zs

scan-Scanned :
    (fuel : ℕ) (s u : Sched) (best cand : Option ℕ) (kept ys : List ℕ)
    → length ys < fuel
    → IsReady u (kept ++ ys)
    → Beside s u
    → Chosen s.tcb best kept
    → cand ≡ first_or none ys
    → Yields (Scanned s (kept ++ live s.tcb ys)) (scan fuel best cand u)
unfolding scan
scan-Scanned zero s u best cand kept ys l o b c e = absurd (omega arith)
scan-Scanned (suc fuel) s u best cand kept [] l o b c e =
    rw (e, append-nil) (rw append-nil at (o), b, c)
scan-Scanned (suc fuel) s u best cand kept (y ∷ ys) l o b c e =
    let n =
      (Linked-neighbours (next_of u) (prev_of u) y kept ys none u.ready_head u.ready_tail
        o.links).1 in
    let st : is_state (u.tcb y).state dead ≡ is_state (s.tcb y).state dead =
      rw ((b.same y).state) refl in
    elim (Bool-cases (is_state (s.tcb y).state dead)) [
      | inl d ↦
          rw (e, st, d)
            (scan-Scanned fuel s (unlink_ready y u) best (next_of u y) kept ys (omega arith)
              (unlink_ready-IsReady u y kept ys o) (Beside-trans s u _ b (unlink_ready-Beside y u))
              c n)
      | inr d ↦
          rw (e, st, d)
            (let shifted : IsReady u ((kept ++ y ∷ []) ++ ys) = rw append_assoc o in
              let r =
                scan-Scanned fuel s u (best_of y best u) (next_of u y) (kept ++ y ∷ []) ys
                  (omega arith) shifted b (Chosen-next s.tcb u best kept y b.same c) n in
              rw append_assoc at (r))
    ]

set_boosted-IsReady :
    (x : ℕ) (b : Bool) (s : Sched) (xs : List ℕ) → IsReady s xs → IsReady (set_boosted x b s) xs
set_boosted-IsReady x b s xs o = record {
  links =
      Linked-ext (next_of s) (prev_of s) _ _ none xs s.ready_head s.ready_tail
        (λ t w. (ground arith, ground arith)) o.links;
  count = o.count;
  queued = λ t. ground (arith, o.queued t);
}

-- No thread is live and none is left; or the best one, the oldest among equals, is taken out and its
-- boost spent, and the other live threads stay in their order. No other thread changes but for its
-- links.
abbrev pub Pops : Sched → List ℕ → Option ℕ × Status × Sched → Type 0
Pops s xs (o, st, t) =
    ((live s.tcb xs ≡ []) × (o ≡ none) × (st ≡ queue_empty) × IsReady t [] × Beside s t)
    ⊎ ((b : ℕ) × ((ls : List ℕ) × ((rs : List ℕ) × ((live s.tcb xs ≡ ls ++ b ∷ rs)
              × (o ≡ some b)
              × (st ≡ ok)
              × IsBest s.tcb ls b rs
              × IsReady t (ls ++ rs)
              × ((t.tcb b).boosted ≡ false)
              × ((t.tcb b).queued ≡ false)
              × (t.current ≡ s.current)
              × (t.hart ≡ s.hart)
              × ((u : ℕ) → u ≢ b → Same (t.tcb u) (s.tcb u))))))

taken_queued : (w : ℕ) (v : Sched) → ((set_boosted w false (unlink_ready w v)).tcb w).queued ≡ false
unfolding unlink_ready
taken_queued w v = let self : (w == w) ≡ true = ground arith in rw self refl

take_best-Pops :
    (s : Sched) (xs : List ℕ) (best : Option ℕ) (v : Sched)
    → Scanned s (live s.tcb xs) (best, v)
    → Pops s xs (take_best best v)
unfolding take_best
take_best-Pops s xs none v (o, b, c) = inl (c, refl, refl, rw c at (o), b)
take_best-Pops s xs (some w) v (o, b, (ls, (rs, (q, best)))) =
    let p = rw q at (o) in
    let k = unlink_ready-Beside w v in
    let all = Beside-trans s v (unlink_ready w v) b k in
    let self : (w == w) ≡ true = ground arith in
    inr (
      w,
      (
        ls,
        (
          rs,
          (
            q,
            refl,
            refl,
            best,
            set_boosted-IsReady w false (unlink_ready w v) (ls ++ rs)
                (unlink_ready-IsReady v w ls rs p),
            rw self refl,
            taken_queued w v,
            all.current,
            all.hart,
            λ u n. let out = other u w n in rw out (all.same u),
          ),
        ),
      ),
    )

pub pop-Pops :
    (fuel : ℕ) (s : Sched) (xs : List ℕ)
    → IsReady s xs
    → length xs < fuel
    → Yields (Pops s xs) (pop fuel s)
unfolding pop
pop-Pops fuel s xs o l =
    let e = Linked-ends (next_of s) (prev_of s) xs none s.ready_head s.ready_tail o.links in
    chosen (scan fuel none s.ready_head s)
      (scan-Scanned fuel s s none s.ready_head [] xs l o (Beside-refl s) refl e.0)
  where
    chosen :
        (r : Option (Option ℕ × Sched))
        → Yields (Scanned s (live s.tcb xs)) r
        → Yields (Pops s xs) (elim r [ none ↦ none | some (best, u) ↦ some (take_best best u) ])
    chosen none y = y
    chosen (some (best, u)) y = take_best-Pops s xs best u y
