-- ===== src/Kernel/PhysicalMemory/Owned.antt =====
-- Who owns a frame: the invariant of the allocator between its calls.
use aegir.Prelude.{
  ℕ, ◌+◌, ◌%◌, ◌^◌, ◌≤◌, ◌<◌, Bool, true, false, List, length, ◌≡◌, refl, arith, ◌==◌,
  if◌then◌else◌, Bool-cases, inl, inr,
}
use native.Mathlib.Decide.{ℕ_discrete}
use aegir.Kernel.PhysicalMemory.{Pmm, write}
use aegir.Kernel.PhysicalMemory.Chain.{has, IsChain, IsChain-write}
use aegir.Kernel.PhysicalMemory.Skip.{top, AllPaged, IsClear}

-- A page of the managed memory below the bump pointer that meets no reserved range.
pub record IsFrame (s : Pmm) (f : ℕ) : Type 0 where
  pub lower : s.base_frame ≤ f
  pub upper : f < s.next_frame
  pub paged : f % 4096 ≡ 0
  pub inside : f + 4096 ≤ s.limit
  pub clear : IsClear f 4096 s.reserved

-- The list holds the frames `free`, and `used` tells the frames that callers hold: both are pages of
-- the managed memory, and no frame is both. Addresses are at most 2^62, and reserved ranges end at a
-- page boundary.
pub record Owned (s : Pmm) (free : List ℕ) (used : ℕ → Bool) : Type 0 where
  pub ready : s.is_ready ≡ true
  pub chain : IsChain s.link s.free_list_head free
  pub count : s.free_list_count ≡ length free % 2 ^ 64
  pub not_null : 0 < s.base_frame
  pub paged : s.next_frame % 4096 ≡ 0
  pub bound : s.next_frame ≤ top
  pub order : s.base_frame ≤ s.next_frame
  pub limit : s.limit ≤ top
  pub ranges : AllPaged s.reserved
  pub free_frame : (f : ℕ) → has f free ≡ true → IsFrame s f
  pub used_frame : (f : ℕ) → used f ≡ true → IsFrame s f
  pub apart : (f : ℕ) → has f free ≡ true → used f ≡ false

-- A set with one frame more, or less.
abbrev pub with_frame : ℕ → (ℕ → Bool) → ℕ → Bool
with_frame f used g = if g == f then true else used g

abbrev pub without_frame : ℕ → (ℕ → Bool) → ℕ → Bool
without_frame f used g = if g == f then false else used g

-- A frame stays one while the bump pointer does not fall below it.
pub IsFrame-kept :
    (s t : Pmm) (f : ℕ)
    → t.base_frame ≡ s.base_frame
    → t.limit ≡ s.limit
    → t.reserved ≡ s.reserved
    → f < t.next_frame
    → IsFrame s f
    → IsFrame t f
IsFrame-kept s t f b l r h i = record {
  lower = rw b i.lower;
  upper = h;
  paged = i.paged;
  inside = rw l i.inside;
  clear = rw r i.clear;
}

pub IsFrame-with_frame :
    (t : Pmm) (used : ℕ → Bool) (x : ℕ)
    → IsFrame t x
    → ((f : ℕ) → used f ≡ true → IsFrame t f)
    → (f : ℕ) → with_frame x used f ≡ true
    → IsFrame t f
IsFrame-with_frame t used x i h f e = elim (ℕ_discrete f x) [
  | yes q ↦ rw q i
  | no n ↦ h f (ground (arith, e, n))
]

-- The words of held frames are what they were.
abbrev pub KeepsWords : (ℕ → Bool) → Pmm → Pmm → Type 0
KeepsWords held s t = (g : ℕ) → held g ≡ true → t.link g ≡ s.link g

-- A caller writes to the first word of a frame it holds.
pub Owned-write :
    (s : Pmm) (f v : ℕ) (free : List ℕ) (used : ℕ → Bool)
    → used f ≡ true
    → Owned s free used
    → Owned (record s { link = write s.link f v }) free used
Owned-write s f v free used u o =
    let t : Pmm = record s { link = write s.link f v } in
    let kept = λ (g : ℕ) (i : IsFrame s g). IsFrame-kept s t g refl refl refl i.upper i in
    let out : has f free ≡ false = elim (Bool-cases (has f free)) [
      | inl e ↦ let a : used f ≡ false = o.apart f e in ground (arith, a, u)
      | inr e ↦ e
    ] in
    record {
      ready = o.ready;
      chain = IsChain-write s.link s.free_list_head f v free out o.chain;
      count = o.count;
      not_null = o.not_null;
      paged = o.paged;
      bound = o.bound;
      order = o.order;
      limit = o.limit;
      ranges = o.ranges;
      free_frame = λ g h. kept g (o.free_frame g h);
      used_frame = λ g h. kept g (o.used_frame g h);
      apart = o.apart;
    }
