-- ===== src/Kernel/PhysicalMemory.antt =====
-- src/kernel/kernel-physical_memory.adb: the allocator of page frames, a bump pointer that skips
-- reserved ranges, with a list of freed frames whose links lie in the frames themselves. The two loops
-- that follow links or restart a scan take their number of rounds as fuel; `none` is its end.
pub mod Chain
pub mod Skip
pub mod Owned
pub mod Allocating
pub mod Freeing
pub mod Starting
use aegir.Prelude.{
  ℕ, zero, suc, ◌+◌, ◌-◌, ◌*◌, ◌/◌, ◌%◌, ◌^◌, Bool, true, false, not, ◌&&◌, ◌||◌, Option, none,
  some, List, [], ◌∷◌, ◌++◌, length, leb, ltb, ◌==◌, if◌then◌else◌,
}
use aegir.Prelude.Loop.{Turn, done, again, loop}

pub data Status : Type 0 where
  ok out_of_memory invalid_range not_initialized too_many_ranges : Status

-- `PMM_Result /= Ok` of a caller.
abbrev pub is_ok : Status → Bool
is_ok ok = true
is_ok out_of_memory = false
is_ok invalid_range = false
is_ok not_initialized = false
is_ok too_many_ranges = false

abbrev pub page_size : ℕ
page_size = 4096

abbrev pub max_reserved : ℕ
max_reserved = 8

-- Addition of U64.
abbrev pub add64 : ℕ → ℕ → ℕ
add64 a b = (a + b) % 2 ^ 64

-- `last` is exclusive.
pub record ReservedRange : Type 0 where
  pub base : ℕ
  pub last : ℕ

-- The package's variables; `reserved` is the array up to `Reserved_Count`. `link` is the memory: the
-- first word of each frame, through the physical map.
pub record Pmm : Type 0 where
  pub base_frame : ℕ
  pub next_frame : ℕ
  pub limit : ℕ
  pub free_list_head : ℕ
  pub free_list_count : ℕ
  pub is_ready : Bool
  pub reserved : List ReservedRange
  pub link : ℕ → ℕ

-- A write to the first word of a frame.
abbrev pub write : (ℕ → ℕ) → ℕ → ℕ → ℕ → ℕ
write m a v b = if b == a then v else m b

unfoldable pub align_up : ℕ → ℕ → ℕ
align_up value alignment = (value + alignment - 1) % 2 ^ 64 / alignment * alignment

unfoldable pub valid_frame : ℕ → Pmm → Bool
valid_frame frame s = leb s.base_frame frame && ltb frame s.next_frame && frame % page_size == 0

-- The walk of `Is_In_Free_List` from `current` on.
unfoldable pub walk : ℕ → (ℕ → ℕ) → ℕ → ℕ → Option Bool
walk zero m frame current = none
walk (suc fuel) m frame current =
    let rest = walk fuel m frame (m current) in
    if current == 0 then some false else if current == frame then some true else rest

unfoldable pub is_in_free_list : ℕ → ℕ → Pmm → Option Bool
unfolding walk
is_in_free_list fuel frame s = walk fuel s.link frame s.free_list_head

unfoldable pub initialize : ℕ → ℕ → Pmm → Status × Pmm
unfolding align_up
initialize first_free last_byte s =
    let base = align_up first_free page_size in
    let t = record s {
      base_frame = base;
      next_frame = base;
      limit = last_byte - last_byte % page_size;
      free_list_head = 0;
      free_list_count = 0;
    } in
    if leb t.limit t.next_frame
    then (invalid_range, record t { is_ready = false })
    else (ok, record t { is_ready = true })

unfoldable pub reserve : ℕ → ℕ → Pmm → Status × Pmm
unfolding align_up
reserve base len s =
    let first_page = base - base % page_size in
    let last_page = align_up (add64 base len) page_size in
    if len == 0
    then (ok, s)
    else if length s.reserved == max_reserved
    then (too_many_ranges, s)
    else (
      ok,
      record s { reserved = s.reserved ++ record { base = first_page; last = last_page } ∷ [] },
    )

-- The end of the first reserved range that overlaps the run from `candidate` to `run_last`.
unfoldable pub overlap : ℕ → ℕ → List ReservedRange → Option ℕ
overlap candidate run_last [] = none
overlap candidate run_last (r ∷ rs) =
    if ltb candidate r.last && ltb r.base run_last
    then some r.last
    else overlap candidate run_last rs

abbrev pub skip_turn : List ReservedRange → ℕ → ℕ → Turn ℕ ℕ
skip_turn reserved pages candidate =
    elim (overlap candidate (add64 candidate (pages * page_size)) reserved) [
      | none ↦ done candidate candidate
      | some last ↦ again last
    ]

unfoldable pub skip_reserved : ℕ → ℕ → ℕ → Pmm → Option ℕ
skip_reserved fuel candidate pages s = elim (loop fuel (skip_turn s.reserved pages) candidate) [
  | none ↦ none
  | some (c, _) ↦ some c
]

-- A run of `pages` from the bump pointer, which has skipped the reserved ranges.
unfoldable pub bump : ℕ → Pmm → Status × ℕ × Pmm
bump pages s =
    let next = add64 s.next_frame (pages * page_size) in
    if ltb s.limit next
    then (out_of_memory, 0, s)
    else (ok, s.next_frame, record s { next_frame = next })

-- `Link_At (Frame).all := 0` on the frame that is taken from the list.
unfoldable pub take_free : Pmm → Status × ℕ × Pmm
take_free s =
    let frame = s.free_list_head in
    (
      ok,
      frame,
      record s {
        free_list_head = s.link frame;
        free_list_count = (s.free_list_count + (2 ^ 64 - 1)) % 2 ^ 64;
        link = write s.link frame 0;
      },
    )

unfoldable pub allocate_contiguous : ℕ → ℕ → Pmm → Option (Status × ℕ × Pmm)
allocate_contiguous fuel pages s =
    if not s.is_ready
    then some (not_initialized, 0, s)
    else elim (skip_reserved fuel s.next_frame pages s) [
      | none ↦ none
      | some next ↦ some (bump pages (record s { next_frame = next }))
    ]

unfoldable pub allocate_frame : ℕ → Pmm → Option (Status × ℕ × Pmm)
allocate_frame fuel s =
    if not s.is_ready
    then some (not_initialized, 0, s)
    else if not (s.free_list_head == 0)
    then some (take_free s)
    else elim (skip_reserved fuel s.next_frame 1 s) [
      | none ↦ none
      | some next ↦ some (bump 1 (record s { next_frame = next }))
    ]

-- The frame goes back: the newest one by lowering the bump pointer, any other onto the list.
unfoldable pub give_back : ℕ → Pmm → Pmm
give_back frame s =
    if add64 frame page_size == s.next_frame then record s { next_frame = frame } else record s {
      link = write s.link frame s.free_list_head;
      free_list_head = frame;
      free_list_count = (s.free_list_count + 1) % 2 ^ 64;
    }

unfoldable pub deallocate_frame : ℕ → ℕ → Pmm → Option (Status × Pmm)
unfolding valid_frame give_back
deallocate_frame fuel frame s =
    if not s.is_ready
    then some (not_initialized, s)
    else if not (valid_frame frame s)
    then some (invalid_range, s)
    else elim (is_in_free_list fuel frame s) [
      | none ↦ none
      | some true ↦ some (invalid_range, s)
      | some false ↦ some (ok, give_back frame s)
    ]

unfoldable pub mark : Pmm → ℕ
mark s = s.next_frame

-- The list rebuilt so far by `Rewind`: its head, its length and the memory.
pub record Kept : Type 0 where
  pub head : ℕ
  pub count : ℕ
  pub link : ℕ → ℕ

-- The walk of `Rewind` over the old list.
unfoldable pub keep_below : ℕ → ℕ → ℕ → Kept → Option Kept
keep_below zero limit old k = none
keep_below (suc fuel) limit old k =
    let below : Kept = record {
      head = old;
      count = (k.count + 1) % 2 ^ 64;
      link = write k.link old k.head;
    } in
    let rest =
      keep_below fuel limit (k.link old)
        (if ltb old limit then below else record k { link = write k.link old 0 }) in
    if old == 0 then some k else rest

unfoldable pub rewind : ℕ → ℕ → Pmm → Option (Status × Pmm)
unfolding keep_below
rewind fuel limit s =
    if not s.is_ready
    then some (not_initialized, s)
    else if ltb s.next_frame limit || not (limit % page_size == 0)
    then some (invalid_range, s)
    else elim (keep_below fuel limit s.free_list_head
        (record { head = 0; count = 0; link = s.link })) [
          | none ↦ none
          | some k ↦ some (
            ok,
            record s {
              free_list_head = k.head;
              free_list_count = k.count;
              next_frame = limit;
              link = k.link;
            },
          )
        ]

unfoldable pub free_bytes : Pmm → ℕ
free_bytes s =
    if not s.is_ready
    then 0
    else add64 (if ltb s.next_frame s.limit then s.limit - s.next_frame else 0)
        (s.free_list_count * page_size)

unfoldable pub free_frame_count : Pmm → ℕ
unfolding free_bytes
free_frame_count s = if not s.is_ready then 0 else free_bytes s / page_size

unfoldable pub next_free_frame : Pmm → ℕ
next_free_frame s = if s.free_list_head == 0 then s.next_frame else s.free_list_head
