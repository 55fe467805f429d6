-- ===== src/Kernel/Scheduler/SleepLinks.antt =====
-- The links of the sleepers: what setting them changes.
use aegir.Prelude.{
  ℕ, true, false, Option, none, some, List, [], ◌∷◌, ◌≡◌, ◌≢◌, refl, ◌∙◌, arith, ◌==◌,
  if◌then◌else◌,
}
use aegir.Kernel.Scheduler.{
  Sched, is, put, link_sleep_next, link_sleep_prev, link_sleeper, unlink_sleeper,
}
use aegir.Kernel.Scheduler.Links.{last_or, at_end}
use aegir.Kernel.Scheduler.ReadyQueue.{other}
use aegir.Kernel.Scheduler.Undisturbed.{sleep_next_of, sleep_prev_of}

sleep_next-next :
    (p n : Option ℕ) (s : Sched) (t : ℕ)
    → sleep_next_of (link_sleep_next p n s) t ≡ (if is p t then n else sleep_next_of s t)
sleep_next-next none n s t = refl
sleep_next-next (some p) n s t = ground arith

sleep_next-prev :
    (p n : Option ℕ) (s : Sched) (t : ℕ)
    → sleep_prev_of (link_sleep_next p n s) t ≡ sleep_prev_of s t
sleep_next-prev none n s t = refl
sleep_next-prev (some p) n s t = ground arith

sleep_prev-prev :
    (n p : Option ℕ) (s : Sched) (t : ℕ)
    → sleep_prev_of (link_sleep_prev n p s) t ≡ (if is n t then p else sleep_prev_of s t)
sleep_prev-prev none p s t = refl
sleep_prev-prev (some n) p s t = ground arith

sleep_prev-next :
    (n p : Option ℕ) (s : Sched) (t : ℕ)
    → sleep_next_of (link_sleep_prev n p s) t ≡ sleep_next_of s t
sleep_prev-next none p s t = refl
sleep_prev-next (some n) p s t = ground arith

pub unlink_sleeper-next :
    (c : ℕ) (prev : Option ℕ) (s : Sched) (t : ℕ)
    → t ≢ c
    → sleep_next_of (unlink_sleeper c prev s) t
      ≡ (if is prev t then sleep_next_of s c else sleep_next_of s t)
unfolding unlink_sleeper
unlink_sleeper-next c prev s t d =
    let n = (s.tcb c).sleep_next in
    let out = other t c d in
    rw (sleep_next_of, out)
      (sleep_prev-next n prev (link_sleep_next prev n s) t ∙ sleep_next-next prev n s t)

pub unlink_sleeper-prev :
    (c : ℕ) (prev : Option ℕ) (s : Sched) (t : ℕ)
    → t ≢ c
    → sleep_prev_of (unlink_sleeper c prev s) t
      ≡ (if is (sleep_next_of s c) t then prev else sleep_prev_of s t)
unfolding unlink_sleeper
unlink_sleeper-prev c prev s t d =
    let n = (s.tcb c).sleep_next in
    let out = other t c d in
    rw (sleep_prev_of, out)
      (sleep_prev-prev n prev (link_sleep_next prev n s) t ∙ rw (sleep_next-prev prev n s t) refl)

link_sleep_next-head :
    (n : Option ℕ) (s : Sched) (p : Option ℕ) (ls : List ℕ)
    → p ≡ last_or none ls
    → (link_sleep_next p n s).sleep_head ≡ at_end ls n s.sleep_head
link_sleep_next-head n s p [] e = rw e refl
link_sleep_next-head n s p (y ∷ ls) e = rw e (inner y ls)
  where
    inner :
        (y : ℕ) (ls : List ℕ)
        → (link_sleep_next (last_or (some y) ls) n s).sleep_head ≡ s.sleep_head
    inner y [] = refl
    inner y (z ∷ ls) = inner z ls

link_sleep_prev-head :
    (n p : Option ℕ) (s : Sched) → (link_sleep_prev n p s).sleep_head ≡ s.sleep_head
link_sleep_prev-head none p s = refl
link_sleep_prev-head (some n) p s = refl

pub unlink_sleeper-head :
    (c : ℕ) (prev : Option ℕ) (s : Sched) (ls : List ℕ)
    → prev ≡ last_or none ls
    → (unlink_sleeper c prev s).sleep_head ≡ at_end ls (sleep_next_of s c) s.sleep_head
unfolding unlink_sleeper
unlink_sleeper-head c prev s ls e =
    link_sleep_prev-head (s.tcb c).sleep_next prev _
    ∙ link_sleep_next-head (s.tcb c).sleep_next s prev ls e

module _ (t : ℕ) (prev cur : Option ℕ) (s : Sched) where
  abbrev aimed : Sched
  aimed = put t (record (s.tcb t) { sleep_prev = prev; sleep_next = cur }) s

  pub link_sleeper-next :
      (u : ℕ)
      → u ≢ t
      → sleep_next_of (link_sleeper t prev cur s) u
        ≡ (if is prev u then some t else sleep_next_of s u)
  link_sleeper-next u d =
      let out = other u t d in
      sleep_prev-next cur (some t) _ u
      ∙ sleep_next-next prev (some t) aimed u
      ∙ rw (sleep_next_of, out) refl

  pub link_sleeper-prev :
      (u : ℕ)
      → u ≢ t
      → sleep_prev_of (link_sleeper t prev cur s) u
        ≡ (if is cur u then some t else sleep_prev_of s u)
  link_sleeper-prev u d =
      let out = other u t d in
      sleep_prev-prev cur (some t) _ u
      ∙ rw (sleep_next-prev prev (some t) aimed u) (rw (sleep_prev_of, out) refl)

  pub link_sleeper-next_own : is prev t ≡ false → sleep_next_of (link_sleeper t prev cur s) t ≡ cur
  link_sleeper-next_own i =
      let self : (t == t) ≡ true = ground arith in
      sleep_prev-next cur (some t) _ t
      ∙ sleep_next-next prev (some t) aimed t
      ∙ rw (i, sleep_next_of, self) refl

  pub link_sleeper-prev_own : is cur t ≡ false → sleep_prev_of (link_sleeper t prev cur s) t ≡ prev
  link_sleeper-prev_own i =
      let self : (t == t) ≡ true = ground arith in
      sleep_prev-prev cur (some t) _ t
      ∙ rw (i, sleep_next-prev prev (some t) aimed t) (rw (sleep_prev_of, self) refl)

  pub link_sleeper-head :
      (ls : List ℕ)
      → prev ≡ last_or none ls
      → (link_sleeper t prev cur s).sleep_head ≡ at_end ls (some t) s.sleep_head
  link_sleeper-head ls e =
      link_sleep_prev-head cur (some t) _ ∙ link_sleep_next-head (some t) aimed prev ls e
