-- ===== src/Kernel/Tests.antt =====
-- Runs and instances at concrete inputs.
use aegir.Prelude.{
  ℕ, ◌+◌, ◌-◌, ◌*◌, ◌%◌, ◌<◌, true, false, Option, none, some, List, [], ◌∷◌, ◌≡◌, ◌⊎◌, inl, inr,
  refl, arith, length, if◌then◌else◌, ◌==◌, Bool,
}
use aegir.Kernel.PhysicalMemory.{
  Pmm, Status, invalid_range, allocate_frame, allocate_contiguous, deallocate_frame, rewind,
  free_bytes, keep_below, skip_reserved, overlap, bump,
}
use aegir.Kernel.PhysicalMemory.Skip.{Yields}
use aegir.Kernel.PhysicalMemory.Owned.{IsFrame, Owned}
use aegir.Kernel.PhysicalMemory.Allocating.{Allocates, allocate_frame-Allocates}
use aegir.Kernel.PhysicalMemory.Freeing.{
  Returns, deallocate_frame-Returns, deallocate_frame-Refused,
}

-- Sixteen pages, the third reserved; the first is on the list, the second and the fourth are held.
abbrev pub pmm : Pmm
pmm = record {
  base_frame = 4096;
  next_frame = 20480;
  limit = 69632;
  free_list_head = 4096;
  free_list_count = 1;
  is_ready = true;
  reserved = record { base = 12288; last = 16384 } ∷ [];
  link = λ a. 0;
}

abbrev pub held : ℕ → Bool
held f = if f == 8192 then true else if f == 16384 then true else false

pmm_page : (f : ℕ) → (f ≡ 4096) ⊎ ((f ≡ 8192) ⊎ (f ≡ 16384)) → IsFrame pmm f
pmm_page f h = record {
  lower = ground (arith, h);
  upper = ground (arith, h);
  paged = ground (arith, h);
  inside = ground (arith, h);
  clear = ground (arith, h);
}

pub pmm-Owned : Owned pmm (4096 ∷ []) held
pmm-Owned = record {
  ready = refl;
  chain = (refl, (λ q. omega (arith, q)), refl, refl);
  count = refl;
  not_null = omega arith;
  paged = refl;
  bound = omega arith;
  order = omega arith;
  limit = omega arith;
  ranges = (refl, omega arith, tt);
  free_frame = λ f h. pmm_page f (ground (arith, h));
  used_frame = λ f h. pmm_page f (ground (arith, h));
  apart = λ f h. ground (arith, h);
}

allocate_frame-Allocates_example : Yields (Allocates pmm (4096 ∷ []) held) (allocate_frame 2 pmm)
allocate_frame-Allocates_example =
    allocate_frame-Allocates 2 pmm (4096 ∷ []) held pmm-Owned (omega arith)

deallocate_frame-Returns_example :
    Yields (Returns 16384 pmm (4096 ∷ []) held) (deallocate_frame 2 16384 pmm)
deallocate_frame-Returns_example =
    deallocate_frame-Returns 2 16384 pmm (4096 ∷ []) held pmm-Owned refl (omega arith)

deallocate_frame-Refused_example : deallocate_frame 2 4096 pmm ≡ some (invalid_range, pmm)
deallocate_frame-Refused_example =
    deallocate_frame-Refused 2 4096 pmm (4096 ∷ []) held pmm-Owned (inl refl) (omega arith)

abbrev frame_of : Option (Status × ℕ × Pmm) → ℕ
frame_of none = 0
frame_of (some (st, f, t)) = f

abbrev bytes_of : Option (Status × Pmm) → ℕ
bytes_of none = 0
bytes_of (some (st, t)) = free_bytes t

-- Runs of pages before and after the reserved one, and the memory cut back to its start.
runs :
    (frame_of (allocate_contiguous 2 2 pmm) ≡ 20480)
    × (frame_of (allocate_contiguous 2 3 (record pmm { next_frame = 4096 })) ≡ 16384)
    × (bytes_of (rewind 2 8192 pmm) ≡ 65536)
unfolding allocate_contiguous skip_reserved overlap bump rewind keep_below free_bytes
    aegir.Prelude.Loop.loop
runs = (refl, refl, refl)
