-- ===== src/Kernel/Notifications/Cleanup.antt =====
-- src/kernel/kernel-notifications.adb: the hooks for a thread that ends, Cleanup_Thread_Cap and
-- Cleanup_Thread.
use aegir.Prelude.{
  ℕ, zero, suc, ◌+◌, ◌*◌, ◌/◌, ◌-◌, Bool, true, false, not, ◌&&◌, Option, none, some, ◌≡◌, ◌≢◌,
  refl, sym, ◌∙◌, arith, ◌==◌, if◌then◌else◌, Bool-cases, inl, inr,
}
use aegir.Kernel.PhysicalMemory.Skip.{Yields}
use aegir.Kernel.Tasks.{blocked_notification, is_state}
use aegir.Kernel.Notifications.{
  Threads, Notification, Pool, is_thread, set_slot, slot_access, on_slot,
}
use aegir.Kernel.Notifications.Binding.{IsTasks, IsSlot, slot_access-IsSlot}

-- `Slot.Bound_Thread := null` and `Slot.Waiting := null`, each if the thread is there.
abbrev forget : ℕ → Notification → Notification
forget t n = record n {
  bound_thread = if is_thread n.bound_thread t then none else n.bound_thread;
  waiting = if is_thread n.waiting t then none else n.waiting;
}

not_there : (o : Option ℕ) (t : ℕ) → is_thread (if is_thread o t then none else o) t ≡ false
not_there o t = elim (Bool-cases (is_thread o t)) [ inl e ↦ rw e refl | inr e ↦ rw e e ]

module _ {W : Type 0} ⦃k : Threads W⦄ where
  unfoldable pub unbind_side : ℕ → ℕ → Pool W → Pool W
  unbind_side t object s =
      if k.bound_ntfn t s.world == object
      then record s { world = k.set_bound_ntfn t 0 s.world }
      else s

  -- A null thread is bound to nothing, and its slots have nothing to forget.
  unfoldable pub cleanup_thread_cap : ℕ → Option ℕ → ℕ → Bool → Pool W → Option (Pool W)
  cleanup_thread_cap fuel none object unbind s =
      if not unbind then some s else on_slot (slot_access fuel object s) s s
  cleanup_thread_cap fuel (some t) object unbind s =
      if not unbind
      then some s
      else on_slot (slot_access fuel object s) (unbind_side t object s)
          (unbind_side t object (set_slot object (forget t (s.slot object)) s))

  -- The slots `i` to `i + n - 1` of a frame.
  unfoldable pub clear_slots : ℕ → ℕ → ℕ → ℕ → Pool W → Pool W
  clear_slots zero i t frame s = s
  clear_slots (suc n) i t frame s =
      let object = frame + i * k.slot_bytes in
      let m = s.slot object in
      clear_slots n (suc i) t frame (
        if m.in_use && is_thread m.waiting t
        then set_slot object (record m { waiting = none }) s
        else s)

  unfoldable pub clear_frames : ℕ → ℕ → ℕ → Pool W → Option (Pool W)
  clear_frames zero t frame s = none
  clear_frames (suc fuel) t frame s =
      let u = clear_slots (4096 / k.slot_bytes - 1) 1 t frame s in
      let rest = clear_frames fuel t (u.slot frame).next_free u in
      if frame == 0 then some s else rest

  -- The binding's two sides.
  unfoldable pub unbind : ℕ → ℕ → Pool W → Option (Pool W)
  unbind fuel t s =
      let object = k.bound_ntfn t s.world in
      let n = s.slot object in
      let m : Notification = record n {
        bound_thread = if is_thread n.bound_thread t then none else n.bound_thread;
      } in
      let w = k.set_bound_ntfn t 0 s.world in
      if object == 0
      then some s
      else on_slot (slot_access fuel object s) (record s { world = w })
          (record (set_slot object m s) { world = w })

  unfoldable pub cleanup_thread : ℕ → Option ℕ → Pool W → Option (Pool W)
  cleanup_thread fuel none s = some s
  cleanup_thread fuel (some t) s = elim (unbind fuel t s) [
    | none ↦ none
    | some u ↦
        if is_state (k.state t u.world) blocked_notification
        then clear_frames fuel t u.frame_head u
        else some u
  ]

  -- The thread and the object know nothing of each other.
  abbrev pub Apart : ℕ → ℕ → Pool W → Type 0
  Apart t object s =
      (k.bound_ntfn t s.world ≢ object)
      × (is_thread (s.slot object).bound_thread t ≡ false)
      × (is_thread (s.slot object).waiting t ≡ false)

  -- For the address of a slot and a thread that is ending, the hook clears both sides.
  cleanup_thread_cap-Apart :
      (fuel t object : ℕ) (s : Pool W)
      → IsTasks W
      → IsSlot fuel object s
      → object ≢ 0
      → Yields (Apart t object) (cleanup_thread_cap fuel (some t) object true s)
  unfolding cleanup_thread_cap unbind_side
  cleanup_thread_cap-Apart fuel t object s law r n =
      let self : (object == object) ≡ true = ground arith in
      let n1 = not_there (s.slot object).bound_thread t in
      let n2 = not_there (s.slot object).waiting t in
      elim (Bool-cases (k.bound_ntfn t s.world == object)) [
        | inl e ↦
            rw (slot_access-IsSlot fuel object s r, e)
              ((λ q. n (sym q ∙ law.remembers t 0 s.world)), rw self n1, rw self n2)
        | inr e ↦
            rw (slot_access-IsSlot fuel object s r, e)
              ((λ q. ground (arith, e, q)), rw self n1, rw self n2)
      ]
