-- ===== src/Kernel/Notifications.antt =====
-- src/kernel/kernel-notifications.adb and .ads: notification objects, in slots carved from page frames,
-- and the use that src/arch/riscv64/arch-traps.adb makes of a bound one. The fuel is for the walk along
-- the frames; `none` is its end. A null access is `none`, a null address 0.
pub mod Binding
pub mod Cleanup
use aegir.Prelude.{
  ℕ, zero, suc, ◌+◌, ◌-◌, ◌*◌, ◌/◌, ◌%◌, ◌^◌, Bool, true, false, not, ◌&&◌, ◌||◌, Option, none,
  some, ltb, ◌==◌, if◌then◌else◌,
}
use Prim.Native.Nat.{bit_or}
use aegir.Kernel.Tasks.{ThreadState, blocked_receive, blocked_notification, is_state}

pub data Status : Type 0 where
  ok no_slot already_bound already_waiting : Status

-- What the package calls of Kernel.Tasks, Kernel.Scheduler, Kernel.IPC and Kernel.Physical_Memory, over
-- their state; `allocate` yields a frame's address in the physical map. `slot_bytes` is Slot_Bytes,
-- which the compiler fixes.
pub record Threads (W : Type 0) : Type 0 where
  pub slot_bytes : ℕ
  pub allocate : W → Option ℕ × W
  pub state : ℕ → W → ThreadState
  pub bound_ntfn : ℕ → W → ℕ
  pub set_bound_ntfn : ℕ → ℕ → W → W
  pub set_saved_result : ℕ → ℕ → W → W
  pub wake : ℕ → W → W
  pub cancel_receive : ℕ → W → W
  pub write_notification_message : ℕ → ℕ → W → W
  pub result_ok : ℕ

pub record Notification : Type 0 where
  pub count : ℕ
  pub bits : ℕ
  pub bound_thread : Option ℕ
  pub waiting : Option ℕ
  pub in_use : Bool
  pub next_free : ℕ

-- The package's variables, the memory read as notifications, and what it calls.
pub record Pool (W : Type 0) : Type 0 where
  pub frame_head : ℕ
  pub free_head : ℕ
  pub slot : ℕ → Notification
  pub world : W

abbrev pub is_thread : Option ℕ → ℕ → Bool
is_thread none t = false
is_thread (some u) t = u == t

-- The object lies in the frame, at a slot but the first. The difference wraps around.
unfoldable pub inside : ℕ → ℕ → ℕ → Bool
inside size frame object =
    let diff = (object + (2 ^ 64 - (frame + size) % 2 ^ 64)) % 2 ^ 64 in
    (diff % size == 0) && ltb diff (4096 - size)

unfoldable pub find_frame : ℕ → ℕ → (ℕ → Notification) → ℕ → ℕ → Option Bool
find_frame size zero m object frame = none
find_frame size (suc fuel) m object frame =
    let rest = find_frame size fuel m object (m frame).next_free in
    if frame == 0 then some false else if inside size frame object then some true else rest

-- A call on a slot, or its answer when the address names none.
abbrev pub on_slot : {A : Type 0} → Option Bool → A → A → Option A
on_slot none absent present = none
on_slot (some b) absent present = some (if b then present else absent)

module _ {W : Type 0} ⦃k : Threads W⦄ where
  -- An assignment to the object at an address.
  abbrev pub set_slot : ℕ → Notification → Pool W → Pool W
  set_slot object n s = record s { slot = λ a. if a == object then n else s.slot a }

  unfoldable pub free_notification : ℕ → Pool W → Pool W
  free_notification object s =
      record (set_slot object
        (record (s.slot object) { in_use = false; waiting = none; next_free = s.free_head }) s) {
          free_head = object;
        }

  -- The slots `1 .. n` of a new frame.
  unfoldable pub free_slots : ℕ → ℕ → ℕ → Pool W → Pool W
  free_slots zero i base s = s
  free_slots (suc n) i base s =
      free_slots n (suc i) base (free_notification (base + i * k.slot_bytes) s)

  unfoldable pub grow_pool : Pool W → Status × Pool W
  grow_pool s =
      let (frame, w) = k.allocate s.world in
      elim frame [
        | none ↦ (no_slot, record s { world = w })
        | some base ↦ (
          ok,
          free_slots (4096 / k.slot_bytes - 1) 1 base
              (record (set_slot base (record (s.slot base) { next_free = s.frame_head }) s) {
                frame_head = base;
                world = w;
              }),
        )
      ]

  -- Whether `Slot_Access` answers the object itself, and not null.
  unfoldable pub slot_access : ℕ → ℕ → Pool W → Option Bool
  slot_access fuel object s = find_frame k.slot_bytes fuel s.slot object s.frame_head

  -- The head of the free list is taken and reset.
  unfoldable pub take_slot : Pool W → Status × ℕ × Pool W
  take_slot s =
      let object = s.free_head in
      (
        ok,
        object,
        record (set_slot object
            (record {
              count = 0;
              bits = 0;
              bound_thread = none;
              waiting = none;
              in_use = true;
              next_free = 0;
            })
            s) { free_head = (s.slot object).next_free },
      )

  abbrev pub grown : Status × Pool W → Status × ℕ × Pool W
  grown (ok, s) = take_slot s
  grown (st, s) = (st, 0, s)

  unfoldable pub create : Pool W → Status × ℕ × Pool W
  create s = if s.free_head == 0 then grown (grow_pool s) else take_slot s

  unfoldable pub discard : ℕ → ℕ → Pool W → Option (Pool W)
  discard fuel object s = on_slot (slot_access fuel object s) s (free_notification object s)

  unfoldable pub retain : ℕ → ℕ → Pool W → Option (Pool W)
  retain fuel object s =
      let n = s.slot object in
      on_slot (slot_access fuel object s) s (set_slot object (record n { count = n.count + 1 }) s)

  -- A waiter of an object that is gone fails.
  abbrev pub fail_waiter : Option ℕ → Pool W → Pool W
  fail_waiter none s = s
  fail_waiter (some t) s = record s { world = k.wake t (k.set_saved_result t (2 ^ 64 - 1) s.world) }

  unfoldable pub drop_count : ℕ → Pool W → Bool × Pool W
  drop_count object s =
      let n = s.slot object in
      let c = n.count - 1 in
      let m : Notification = record n { count = c; bound_thread = none; bits = 0 } in
      if c == 0
      then (true, free_notification object (fail_waiter n.waiting (set_slot object m s)))
      else (false, set_slot object (record n { count = c }) s)

  unfoldable pub release : ℕ → ℕ → Pool W → Option (Bool × Pool W)
  release fuel object s = on_slot (slot_access fuel object s) (false, s) (drop_count object s)

  unfoldable pub take : ℕ → ℕ → Pool W → Option (ℕ × Pool W)
  take fuel object s =
      let n = s.slot object in
      on_slot (slot_access fuel object s) (0, s) (n.bits, set_slot object (record n { bits = 0 }) s)

  -- The pending bits go to a thread as its result.
  abbrev pub hand_over : ℕ → ℕ → Notification → Pool W → Pool W
  hand_over object t n s = record (set_slot object (record n { bits = 0 }) s) {
    world = k.wake t (k.set_saved_result t n.bits s.world);
  }

  -- They go to a thread that waits for a message.
  abbrev pub hand_message : ℕ → ℕ → Notification → Pool W → Pool W
  hand_message object t n s = record (set_slot object (record n { bits = 0 }) s) {
    world = k.wake t (
        k.set_saved_result t k.result_ok
          (k.write_notification_message t n.bits (k.cancel_receive t s.world)));
  }

  abbrev pub signal_bound : ℕ → Option ℕ → Notification → Pool W → Pool W
  signal_bound object none n s = set_slot object n s
  signal_bound object (some t) n s =
      if is_state (k.state t s.world) blocked_notification
      then hand_over object t n s
      else if is_state (k.state t s.world) blocked_receive
      then hand_message object t n s
      else set_slot object n s

  abbrev pub signal_waiting : ℕ → Option ℕ → Notification → Pool W → Pool W
  signal_waiting object none n s = signal_bound object n.bound_thread n s
  signal_waiting object (some t) n s = hand_over object t (record n { waiting = none }) s

  unfoldable pub signal : ℕ → ℕ → ℕ → Pool W → Option (Pool W)
  signal fuel object bits s =
      let n = s.slot object in
      on_slot (slot_access fuel object s) s
        (signal_waiting object n.waiting (record n { bits = bit_or n.bits bits }) s)

  unfoldable pub record_waiter : ℕ → ℕ → Option ℕ → Pool W → Option (Status × Pool W)
  record_waiter fuel object none s = on_slot (slot_access fuel object s) (no_slot, s) (no_slot, s)
  record_waiter fuel object (some t) s =
      let n = s.slot object in
      on_slot (slot_access fuel object s) (no_slot, s)
        (elim n.waiting [
          | none ↦ (ok, set_slot object (record n { waiting = some t }) s)
          | some u ↦ if u == t then (ok, s) else (already_waiting, s)
        ])

  unfoldable pub clear_waiter : ℕ → ℕ → ℕ → Pool W → Option (Pool W)
  clear_waiter fuel object t s =
      let n = s.slot object in
      on_slot (slot_access fuel object s) s
        (if is_thread n.waiting t then set_slot object (record n { waiting = none }) s else s)

  unfoldable pub bind_thread : ℕ → ℕ → Option ℕ → Pool W → Option (Status × Pool W)
  bind_thread fuel object none s = on_slot (slot_access fuel object s) (no_slot, s) (no_slot, s)
  bind_thread fuel object (some t) s =
      let n = s.slot object in
      on_slot (slot_access fuel object s) (no_slot, s)
        (elim n.bound_thread [
          | some u ↦ (already_bound, s)
          | none ↦ if not (k.bound_ntfn t s.world == 0) then (already_bound, s) else (
            ok,
            record (set_slot object (record n { bound_thread = some t }) s) {
              world = k.set_bound_ntfn t object s.world;
            },
          )
        ])

  -- Handle_IPC_Recv of arch-traps.adb, up to its use of the handle: the bits that the bound
  -- notification had for the thread, and 0 when the receive goes on.
  unfoldable pub recv_bound : ℕ → ℕ → Pool W → Option (ℕ × Pool W)
  recv_bound fuel t s =
      if k.bound_ntfn t s.world == 0
      then some (0, s)
      else elim (take fuel (k.bound_ntfn t s.world) s) [
        | none ↦ none
        | some (bits, u) ↦
            if bits == 0
            then some (0, u)
            else some (bits, record u { world = k.write_notification_message t bits u.world })
      ]
