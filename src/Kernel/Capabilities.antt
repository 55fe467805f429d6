-- ===== src/Kernel/Capabilities.antt =====
-- src/kernel/kernel-capabilities.adb and .ads: a process's capabilities, in pages of 128 entries that come
-- from the allocator of page frames and go back to it. The fuel is that of the allocator's loops.
pub mod Counting
pub mod Pages
pub mod Storing
pub mod Growing
pub mod Filling
pub mod Coherent
pub mod Inserting
mod Placing
pub mod Deriving
pub mod Releasing
pub mod Closing
use aegir.Prelude.{
  ℕ, zero, suc, ◌+◌, ◌-◌, ◌*◌, ◌/◌, ◌%◌, ◌≤◌, ◌<◌, ◌≡◌, ◌↔◌, Bool, true, false, not, ◌&&◌, ◌||◌,
  Option, none, some, ◌==◌, if◌then◌else◌,
}
use aegir.Kernel.PhysicalMemory.{Pmm, is_ok, allocate_frame, deallocate_frame, write}
use aegir.Kernel.PhysicalMemory as Pm
use aegir.Kernel.Rights.{Rights, no_rights, has_rights}

abbrev pub max_caps : ℕ
max_caps = 16384

abbrev pub invalid_handle : ℕ
invalid_handle = 0

abbrev pub caps_per_page : ℕ
caps_per_page = 128

abbrev pub page_count : ℕ
page_count = 128

pub data ObjectKind : Type 0 where
  null_object frame_object address_space_object process_object thread_object : ObjectKind
  endpoint_object reply_object irq_object mmio_object dma_object kernel_object : ObjectKind
  boot_file_object memory_object notification_object admin_object : ObjectKind

pub data Status : Type 0 where
  ok invalid_cap invalid_object rights_denied table_full slot_occupied : Status

pub record CapEntry : Type 0 where
  pub object : ℕ
  pub badge : ℕ
  pub rights : Rights
  pub valid : Bool
  pub kind : ObjectKind

abbrev pub null_cap : CapEntry
null_cap = record { object = 0; badge = 0; rights = no_rights; valid = false; kind = null_object }

-- Frame addresses, 0 for a page that is absent, and numbers of entries in use.
pub record CapTable : Type 0 where
  pub root : ℕ → ℕ
  pub count : ℕ → ℕ
  pub total : ℕ

abbrev pub TableCoherent : CapTable → Type 0
TableCoherent t =
    (t.total ≤ max_caps) × ((p : ℕ) → p < page_count → (t.count p ≡ 0) ↔ (t.root p ≡ 0))

-- The memory: the allocator with the first word of each frame, and each frame read as a page of
-- entries. The first word of a frame is the object of its first entry.
pub record Store : Type 0 where
  pub pmm : Pmm
  pub cells : ℕ → ℕ → CapEntry

-- `Page_At (PA) (Slot)`.
abbrev pub entry_at : ℕ → ℕ → Store → CapEntry
entry_at frame slot m =
    if slot == 0
    then record (m.cells frame slot) { object = m.pmm.link frame }
    else m.cells frame slot

-- An assignment to `Page_At (PA) (Slot)`.
abbrev pub set_entry : ℕ → ℕ → CapEntry → Store → Store
set_entry frame slot e m = record {
  pmm = if slot == 0 then record m.pmm { link = write m.pmm.link frame e.object } else m.pmm;
  cells = λ f i. if (f == frame) && (i == slot) then e else m.cells f i;
}

abbrev pub page_no : ℕ → ℕ
page_no cap = cap / caps_per_page

abbrev pub slot_no : ℕ → ℕ
slot_no cap = cap % caps_per_page

unfoldable pub zero_page : ℕ → Store → Store
zero_page frame m = record {
  pmm = record m.pmm { link = write m.pmm.link frame 0 };
  cells = λ f i. if f == frame then null_cap else m.cells f i;
}

unfoldable pub get : CapTable → ℕ → Store → CapEntry
get t cap m =
    if t.root (page_no cap) == 0 then null_cap else entry_at (t.root (page_no cap)) (slot_no cap) m

unfoldable pub put : CapTable → ℕ → CapEntry → Store → Store
put t cap e m = set_entry (t.root (page_no cap)) (slot_no cap) e m

-- What `Ensure_Page` does with the allocator's answer.
abbrev pub new_page : ℕ → CapTable → Store → Pm.Status × ℕ × Pmm → Status × CapTable × Store
new_page page t m (st, frame, pmm) =
    if is_ok st
    then (ok, record t { root = write t.root page frame }, zero_page frame (record m { pmm = pmm }))
    else (table_full, t, record m { pmm = pmm })

unfoldable pub ensure_page : ℕ → ℕ → CapTable → Store → Option (Status × CapTable × Store)
ensure_page fuel page t m =
    if not (t.root page == 0)
    then some (ok, t, m)
    else elim (allocate_frame fuel m.pmm) [ none ↦ none | some r ↦ some (new_page page t m r) ]

unfoldable pub release_page : ℕ → ℕ → CapTable → Store → Option (CapTable × Store)
release_page fuel page t m = elim (deallocate_frame fuel (t.root page) m.pmm) [
  | none ↦ none
  | some (st, pmm) ↦ some (record t { root = write t.root page 0 }, record m { pmm = pmm })
]

unfoldable pub initialize : CapTable
initialize = record { root = λ p. 0; count = λ p. 0; total = 0 }

abbrev pub is_null : ObjectKind → Bool
is_null null_object = true
is_null k = false

-- The entry is stored and counted, once `Ensure_Page` has answered ok.
unfoldable pub fill : ℕ → CapEntry → Status × CapTable × Store → Status × CapTable × Store
fill cap e (ok, t, m) =
    let p = page_no cap in
    (ok, record t { count = write t.count p (t.count p + 1); total = t.total + 1 }, put t cap e m)
fill cap e (st, t, m) = (st, t, m)

-- The first handle of `n` from `candidate` on whose entry is not in use.
unfoldable pub first_free : ℕ → ℕ → CapTable → Store → Option ℕ
first_free zero candidate t m = none
first_free (suc n) candidate t m =
    let rest = first_free n (suc candidate) t m in
    if not (get t candidate m).valid then some candidate else rest

-- The handle is the one found if the entry could be stored.
abbrev pub with_handle : ℕ → Status × CapTable × Store → Status × ℕ × CapTable × Store
with_handle cap (ok, t, m) = (ok, cap, t, m)
with_handle cap (st, t, m) = (st, invalid_handle, t, m)

unfoldable pub insert :
    ℕ → CapTable → ObjectKind → ℕ → Rights → ℕ → Store → Option (Status × ℕ × CapTable × Store)
insert fuel t kind object rights badge m =
    if is_null kind || (object == 0)
    then some (invalid_object, invalid_handle, t, m)
    else elim (first_free (max_caps - 1) (suc invalid_handle) t m) [
      | none ↦ some (table_full, invalid_handle, t, m)
      | some cap ↦ elim (ensure_page fuel (page_no cap) t m) [
        | none ↦ none
        | some r ↦ some (
            with_handle cap (
              fill cap
                (record {
                  object = object;
                  badge = badge;
                  rights = rights;
                  valid = true;
                  kind = kind;
                })
                r))
      ]
    ]

unfoldable pub insert_at :
    ℕ → CapTable → ℕ → ObjectKind → ℕ → Rights → ℕ → Store → Option (Status × CapTable × Store)
insert_at fuel t cap kind object rights badge m =
    if cap == invalid_handle
    then some (invalid_cap, t, m)
    else if is_null kind || (object == 0)
    then some (invalid_object, t, m)
    else if not (t.root (page_no cap) == 0) && (get t cap m).valid
    then some (slot_occupied, t, m)
    else elim (ensure_page fuel (page_no cap) t m) [
      | none ↦ none
      | some r ↦ some (
          fill cap
            (record { object = object; badge = badge; rights = rights; valid = true; kind = kind })
            r)
    ]

unfoldable pub lookup : CapTable → ℕ → Store → Status × CapEntry
lookup t cap m =
    if (cap == invalid_handle) || not (get t cap m).valid
    then (invalid_cap, null_cap)
    else (ok, get t cap m)

-- `Duplicate`, after its lookup.
unfoldable pub derive :
    ℕ → CapTable → Rights → ℕ → Store → Status × CapEntry → Option (Status × ℕ × CapTable × Store)
derive fuel t new_rights new_badge m (ok, source) =
    if not source.rights.transfer || not (has_rights source.rights new_rights)
    then some (rights_denied, invalid_handle, t, m)
    else insert fuel t source.kind source.object new_rights new_badge m
derive fuel t new_rights new_badge m (st, source) = some (st, invalid_handle, t, m)

unfoldable pub duplicate :
    ℕ → CapTable → ℕ → Rights → ℕ → Store → Option (Status × ℕ × CapTable × Store)
duplicate fuel t source new_rights new_badge m =
    derive fuel t new_rights new_badge m (lookup t source m)

unfoldable pub close : ℕ → CapTable → ℕ → Store → Option (Status × CapTable × Store)
close fuel t cap m =
    let p = page_no cap in
    let emptied = put t cap null_cap m in
    let counted : CapTable = record t {
      count = write t.count p (t.count p - 1);
      total = t.total - 1;
    } in
    if (cap == invalid_handle) || not (get t cap m).valid
    then some (invalid_cap, t, m)
    else if counted.count p == 0
    then elim (release_page fuel p counted emptied) [
      | none ↦ none
      | some (t2, m2) ↦ some (ok, t2, m2)
    ]
    else some (ok, counted, emptied)

-- The pages of `Reset` from `page` on, `n` of them.
unfoldable pub release_all : ℕ → ℕ → ℕ → CapTable → Store → Option (CapTable × Store)
release_all fuel zero page t m = some (t, m)
release_all fuel (suc n) page t m = elim (t.root page == 0) [
  | true ↦ release_all fuel n (suc page) t m
  | false ↦ elim (release_page fuel page t m) [
    | none ↦ none
    | some (t2, m2) ↦ release_all fuel n (suc page) t2 m2
  ]
]

unfoldable pub reset : ℕ → CapTable → Store → Option (CapTable × Store)
reset fuel t m = elim (release_all fuel page_count 0 t m) [
  | none ↦ none
  | some (t2, m2) ↦ some (record t2 { count = λ p. 0; total = 0 }, m2)
]

unfoldable pub used_count : CapTable → ℕ
used_count t = t.total
