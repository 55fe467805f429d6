-- ===== src/Kernel/Scheduler/Requeuing.antt =====
-- The start of `Yield`: the running thread goes to the end of the queue.
use aegir.Prelude.{ℕ, Option, none, some, List, [], ◌∷◌, ◌++◌, ◌≡◌, refl, sym, ◌∙◌, if◌then◌else◌}
use aegir.Kernel.Tasks.{Tcb, running, dead, is_state}
use aegir.Kernel.Scheduler.{Sched, better, my_current}
use aegir.Kernel.Scheduler.Choosing.{live, IsBest}

-- The thread that runs is queued again.
abbrev pub again : Option ℕ → Sched → List ℕ
again none s = []
again (some c) s = if is_state (s.tcb c).state running then c ∷ [] else []

-- The threads that `Yield` chooses from.
abbrev pub contenders : Sched → List ℕ → List ℕ
contenders s xs = xs ++ again (my_current s) s

-- As far as choosing goes, two control blocks are the same.
pub record Alike (a b : Tcb) : Type 0 where
  pub gone : is_state a.state dead ≡ is_state b.state dead
  pub priority : a.priority ≡ b.priority
  pub boosted : a.boosted ≡ b.boosted

pub live_ext : (m n : ℕ → Tcb) (xs : List ℕ) → ((t : ℕ) → Alike (m t) (n t)) → live m xs ≡ live n xs
live_ext m n [] h = refl
live_ext m n (x ∷ xs) h = rw ((h x).gone, live_ext m n xs h) refl

better_ext : (a b c d : Tcb) → Alike a c → Alike b d → better a b ≡ better c d
unfolding better
better_ext a b c d h k = rw (h.priority, h.boosted, k.priority, k.boosted) refl

pub IsBest-ext :
    (m n : ℕ → Tcb) (ls rs : List ℕ) (b : ℕ)
    → ((t : ℕ) → Alike (m t) (n t))
    → IsBest m ls b rs
    → IsBest n ls b rs
IsBest-ext m n ls rs b h (f, g) = (
  (λ a w. sym (better_ext (m b) (m a) (n b) (n a) (h b) (h a)) ∙ f a w),
  (λ a w. sym (better_ext (m a) (m b) (n a) (n b) (h a) (h b)) ∙ g a w),
)
