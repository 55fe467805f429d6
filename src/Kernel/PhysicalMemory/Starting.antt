-- ===== src/Kernel/PhysicalMemory/Starting.antt =====
-- `Initialize`: the allocator starts out with no frame handed out and none on the list.
use aegir.Prelude.{
  ℕ, ◌+◌, ◌-◌, ◌%◌, ◌^◌, ◌≤◌, ◌<◌, false, [], leb, ◌≡◌, refl, arith, Bool-cases, ◌⊎◌, inl, inr,
}
use aegir.Kernel.PhysicalMemory.{Pmm, Status, ok, invalid_range, align_up, initialize}
use aegir.Kernel.PhysicalMemory.Skip.{top, AllPaged}
use aegir.Kernel.PhysicalMemory.Owned.{Owned}

-- The least multiple of the page size that is not below the value.
pub align_up_lem :
    (value : ℕ)
    → value ≤ top
    → (align_up value 4096 % 4096 ≡ 0)
      × (value ≤ align_up value 4096)
      × (align_up value 4096 < value + 4096)
unfolding align_up
align_up_lem value h = (omega (arith, h), omega (arith, h), omega (arith, h))

-- The answer is ok exactly when a page fits between the two bounds, and then the allocator owns its
-- memory with no frame handed out; otherwise it is not ready.
abbrev pub Starts : ℕ → ℕ → Status × Pmm → Type 0
Starts first_free last_byte (st, t) =
    ((st ≡ ok) × (align_up first_free 4096 + 4096 ≤ last_byte) × Owned t [] (λ f. false))
    ⊎ ((st ≡ invalid_range) × (last_byte < align_up first_free 4096 + 4096) × (t.is_ready ≡ false))

pub initialize-Starts :
    (first_free last_byte : ℕ) (s : Pmm)
    → 0 < first_free
    → first_free ≤ 2 ^ 61
    → last_byte ≤ top
    → AllPaged s.reserved
    → Starts first_free last_byte (initialize first_free last_byte s)
unfolding initialize
initialize-Starts first_free last_byte s z h l r =
    let (p, lo, hi) = align_up_lem first_free (omega (arith, h)) in
    elim (Bool-cases (leb (last_byte - last_byte % 4096) (align_up first_free 4096))) [
      | inl b ↦ rw b (inr (refl, ground (arith, b, p), refl))
      | inr b ↦ rw b (
          inl (
            refl,
            ground (arith, b, p),
            record {
              ready = refl;
              chain = refl;
              count = refl;
              not_null = omega (arith, lo);
              paged = p;
              bound = omega (arith, hi, h);
              order = omega arith;
              limit = omega (arith, l);
              ranges = r;
              free_frame = λ f e. ground arith;
              used_frame = λ f e. ground arith;
              apart = λ f e. refl;
            },
          ))
    ]
