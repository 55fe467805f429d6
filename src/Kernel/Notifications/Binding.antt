-- ===== src/Kernel/Notifications/Binding.antt =====
-- A binding outlives its notification: releasing the last reference clears the object's side alone.
use aegir.Prelude.{
  ℕ, zero, suc, ◌<◌, Bool, true, false, none, some, ◌≡◌, ◌≢◌, ◌⊎◌, inl, inr, refl, sym, ◌∙◌, arith,
  ◌==◌, if◌then◌else◌,
}
use Prim.Native.Nat.{bit_or, bit_or-bitwise}
use aegir.Kernel.PhysicalMemory.Skip.{Yields}
use aegir.Kernel.Notifications.{
  Threads, Notification, Pool, Status, ok, inside, find_frame, slot_access, set_slot,
  free_notification, take_slot, create, drop_count, release, take, signal, bind_thread, recv_bound,
}

-- The walk from `p` comes to the frame of the object, which is no frame itself.
abbrev pub Reaches : ℕ → ℕ → (ℕ → Notification) → ℕ → ℕ → Type 0
Reaches size zero m object p = ⊥
Reaches size (suc n) m object p =
    (p ≢ 0)
    × ((inside size p object ≡ true) ⊎ ((p ≢ object) × Reaches size n m object (m p).next_free))

find_frame-Reaches :
    (size n : ℕ) (m : ℕ → Notification) (object p : ℕ)
    → Reaches size n m object p
    → find_frame size n m object p ≡ some true
unfolding find_frame
find_frame-Reaches size zero m object p r = elim r [ ]
find_frame-Reaches size (suc n) m object p (z, inl h) = ground (arith, z, h)
find_frame-Reaches size (suc n) m object p (z, inr (d, r)) =
    let e = find_frame-Reaches size n m object (m p).next_free r in ground (arith, z, e)

-- A write to the object leaves the walk alone.
Reaches-kept :
    (size n : ℕ) (m : ℕ → Notification) (v : Notification) (object p : ℕ)
    → Reaches size n m object p
    → Reaches size n (λ a. if a == object then v else m a) object p
Reaches-kept size zero m v object p r = elim r [ ]
Reaches-kept size (suc n) m v object p (z, inl h) = (z, inl h)
Reaches-kept size (suc n) m v object p (z, inr (d, r)) =
    let out : (p == object) ≡ false = ground (arith, d) in
    (z, inr (d, rw out (Reaches-kept size n m v object (m p).next_free r)))

or_zero : (b : ℕ) → bit_or 0 b ≡ b
or_zero b = bit_or-bitwise 0 b

-- The binding of a thread is what it was last set to.
pub record IsTasks (W : Type 0) ⦃k : Threads W⦄ : Type 0 where
  pub remembers : (t object : ℕ) (w : W) → k.bound_ntfn t (k.set_bound_ntfn t object w) ≡ object

module _ {W : Type 0} ⦃k : Threads W⦄ where
  -- The address names a slot, by a walk of at most `fuel` frames.
  abbrev pub IsSlot : ℕ → ℕ → Pool W → Type 0
  IsSlot fuel object s = Reaches k.slot_bytes fuel s.slot object s.frame_head

  -- The thread binds the object, its last reference goes, the slot is given out again, and the new
  -- object is signalled: the thread's next receive takes the bits.
  abbrev pub Rebinds : ℕ → ℕ → ℕ → ℕ → Pool W → Type 0
  Rebinds fuel object t b s =
      Yields
        (λ (r : Status × Pool W).
          (r.0 ≡ ok)
          × Yields
              (λ (g : Bool × Pool W).
                (g.0 ≡ true)
                × ((create g.1).0 ≡ ok)
                × ((create g.1).1 ≡ object)
                × (((create g.1).2.slot object).bound_thread ≡ none)
                × Yields
                    (λ (u : Pool W).
                      Yields (λ (x : ℕ × Pool W). (x.0 ≡ b) × ((x.1.slot object).bits ≡ 0))
                        (recv_bound fuel t u))
                    (signal fuel object b (create g.1).2))
              (release fuel object r.1))
        (bind_thread fuel object (some t) s)

  abbrev bound : ℕ → ℕ → Pool W → Pool W
  bound object t s = record (set_slot object (record (s.slot object) { bound_thread = some t }) s) {
    world = k.set_bound_ntfn t object s.world;
  }

  pub slot_access-IsSlot :
      (fuel object : ℕ) (s : Pool W) → IsSlot fuel object s → slot_access fuel object s ≡ some true
  unfolding slot_access
  slot_access-IsSlot fuel object s r =
      find_frame-Reaches k.slot_bytes fuel s.slot object s.frame_head r

  set_slot-IsSlot :
      (fuel object : ℕ) (n : Notification) (s : Pool W)
      → IsSlot fuel object s
      → IsSlot fuel object (set_slot object n s)
  set_slot-IsSlot fuel object n s r = Reaches-kept k.slot_bytes fuel s.slot n object s.frame_head r

  bind_thread_lem :
      (fuel object t : ℕ) (s : Pool W)
      → IsSlot fuel object s
      → (s.slot object).bound_thread ≡ none
      → k.bound_ntfn t s.world ≡ 0
      → bind_thread fuel object (some t) s ≡ some (ok, bound object t s)
  unfolding bind_thread
  bind_thread_lem fuel object t s r e z =
      let y : (k.bound_ntfn t s.world == 0) ≡ true = ground (arith, z) in
      rw (slot_access-IsSlot fuel object s r, e, y) refl

  abbrev cleared : ℕ → Pool W → Pool W
  cleared object s =
      free_notification object
        (set_slot object (record (s.slot object) { count = 0; bound_thread = none; bits = 0 }) s)

  release_lem :
      (fuel object : ℕ) (s : Pool W)
      → IsSlot fuel object s
      → (s.slot object).waiting ≡ none
      → (s.slot object).count ≡ 1
      → release fuel object s ≡ some (true, cleared object s)
  unfolding release drop_count
  release_lem fuel object s r e c = rw (slot_access-IsSlot fuel object s r, e, c) refl

  create_lem : (s : Pool W) → s.free_head ≢ 0 → create s ≡ take_slot s
  unfolding create
  create_lem s n = let z : (s.free_head == 0) ≡ false = ground (arith, n) in rw z refl

  signal_lem :
      (fuel object b : ℕ) (s : Pool W)
      → IsSlot fuel object s
      → (s.slot object).waiting ≡ none
      → (s.slot object).bound_thread ≡ none
      → signal fuel object b s
        ≡ some (set_slot object (record (s.slot object) { bits = bit_or (s.slot object).bits b }) s)
  unfolding signal
  signal_lem fuel object b s r e c = rw (slot_access-IsSlot fuel object s r, e, c) refl

  recv_bound_lem :
      (fuel object t : ℕ) (s : Pool W)
      → IsSlot fuel object s
      → k.bound_ntfn t s.world ≡ object
      → object ≢ 0
      → (s.slot object).bits ≢ 0
      → recv_bound fuel t s
        ≡ some (
          (s.slot object).bits,
          record (set_slot object (record (s.slot object) { bits = 0 }) s) {
            world = k.write_notification_message t (s.slot object).bits s.world;
          },
        )
  unfolding recv_bound take
  recv_bound_lem fuel object t s r e n m =
      let y : (object == 0) ≡ false = ground (arith, n) in
      let z : ((s.slot object).bits == 0) ≡ false = ground (arith, m) in
      rw (e, y, slot_access-IsSlot fuel object s r, z) refl

  module _ (fuel object t b : ℕ) (s : Pool W) (law : IsTasks W) (r : IsSlot fuel object s)
      (n : object ≢ 0) (unwaited : (s.slot object).waiting ≡ none)
      (last : (s.slot object).count ≡ 1) where
    self : (object == object) ≡ true
    self = ground arith

    abbrev s1 : Pool W
    s1 = bound object t s

    abbrev spent : Pool W
    spent =
        set_slot object (record (s1.slot object) { count = 0; bound_thread = none; bits = 0 }) s1

    abbrev s2 : Pool W
    s2 = cleared object s1

    abbrev s3 : Pool W
    s3 = (take_slot s2).2

    abbrev s4 : Pool W
    s4 = set_slot object (record (s3.slot object) { bits = bit_or (s3.slot object).bits b }) s3

    member : IsSlot fuel object s1
    member = set_slot-IsSlot fuel object _ s r

    released : release fuel object s1 ≡ some (true, s2)
    released = release_lem fuel object s1 member (rw (self, unwaited) refl) (rw (self, last) refl)

    member_again : IsSlot fuel object s3
    unfolding take_slot free_notification
    member_again =
        set_slot-IsSlot fuel object _ s2
          (set_slot-IsSlot fuel object _ spent (set_slot-IsSlot fuel object _ s1 member))

    created : create s2 ≡ (ok, object, s3)
    unfolding take_slot free_notification
    created = create_lem s2 n

    signalled : signal fuel object b s3 ≡ some s4
    unfolding take_slot free_notification
    signalled = signal_lem fuel object b s3 member_again (rw self refl) (rw self refl)

    full : (s4.slot object).bits ≡ b
    unfolding take_slot free_notification
    full = rw self (or_zero b)

    received :
        0 < b
        → recv_bound fuel t s4
          ≡ some (
            (s4.slot object).bits,
            record (set_slot object (record (s4.slot object) { bits = 0 }) s4) {
              world = k.write_notification_message t (s4.slot object).bits s4.world;
            },
          )
    unfolding take_slot free_notification
    received p =
        recv_bound_lem fuel object t s4 (set_slot-IsSlot fuel object _ s3 member_again)
          (law.remembers t object s.world) n (λ q. absurd (omega (arith, sym full ∙ q, p)))

    rebinds :
        (s.slot object).bound_thread ≡ none
        → k.bound_ntfn t s.world ≡ 0
        → 0 < b
        → Rebinds fuel object t b s
    unfolding take_slot free_notification
    rebinds free unbound p =
        rw
          (bind_thread_lem fuel object t s r free unbound, released, created, signalled, received p)
          (refl, (refl, refl, refl, rw self refl, (full, rw self refl)))

-- For an address that names a slot by a walk of at most `fuel` frames, whose object has one reference
-- and neither a bound thread nor a waiter, and a thread that is bound to nothing: binding the thread
-- answers ok, releasing the reference reports that the object is gone, and `Create` gives the same
-- slot out again as an object that no thread is bound to. Yet when bits are signalled on the new
-- object, the thread's next receive takes them and leaves none pending.
pub bind_thread-Rebinds :
    {W : Type 0} ⦃k : Threads W⦄ (fuel object t b : ℕ) (s : Pool W)
    → IsTasks W
    → IsSlot fuel object s
    → object ≢ 0
    → (s.slot object).bound_thread ≡ none
    → (s.slot object).waiting ≡ none
    → (s.slot object).count ≡ 1
    → k.bound_ntfn t s.world ≡ 0
    → 0 < b
    → Rebinds fuel object t b s
bind_thread-Rebinds fuel object t b s law r n free unwaited last unbound p =
    rebinds fuel object t b s law r n unwaited last free unbound p
