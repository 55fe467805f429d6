-- ===== src/Kernel/Rights/Masks.antt =====
-- The mask of some rights is an encoding of them, and its bits are the rights.
use aegir.Prelude.{zero, suc, ℕ, ◌<◌, Bool, true, false, not, ◌||◌, ◌≡◌, ◌↔◌, refl, arith, ◌==◌}
use aegir.Prelude.Bits.{passes, test-passes}
use aegir.Kernel.Rights.{Rights, bit, has_rights, to_rights, to_mask}

same : (a b : ℕ) → (a == b) ≡ true → a ≡ b
same a b h = ground (arith, h)

-- A mask without unknown bits decodes to rights that encode to it.
pub to_mask-to_rights : (mask : ℕ) → mask < 1024 → to_mask (to_rights mask) ≡ mask
unfolding to_mask to_rights bit passes
to_mask-to_rights mask h =
    same (to_mask (to_rights mask)) mask (test-passes (λ m. to_mask (to_rights m) == m) 1024 h refl)

bit_read : (r : Rights) → bit 0 (to_mask r) ≡ r.read
unfolding bit to_mask
bit_read r = ground arith

bit_write : (r : Rights) → bit 1 (to_mask r) ≡ r.write
unfolding bit to_mask
bit_write r = ground arith

bit_execute : (r : Rights) → bit 2 (to_mask r) ≡ r.execute
unfolding bit to_mask
bit_execute r = ground arith

bit_map : (r : Rights) → bit 3 (to_mask r) ≡ r.map
unfolding bit to_mask
bit_map r = ground arith

bit_send : (r : Rights) → bit 4 (to_mask r) ≡ r.send
unfolding bit to_mask
bit_send r = ground arith

bit_receive : (r : Rights) → bit 5 (to_mask r) ≡ r.receive
unfolding bit to_mask
bit_receive r = ground arith

bit_wait : (r : Rights) → bit 6 (to_mask r) ≡ r.wait
unfolding bit to_mask
bit_wait r = ground arith

bit_ack : (r : Rights) → bit 7 (to_mask r) ≡ r.ack
unfolding bit to_mask
bit_ack r = ground arith

bit_transfer : (r : Rights) → bit 8 (to_mask r) ≡ r.transfer
unfolding bit to_mask
bit_transfer r = ground arith

bit_manage : (r : Rights) → bit 9 (to_mask r) ≡ r.manage
unfolding bit to_mask
bit_manage r = ground arith

pub to_rights-to_mask : (r : Rights) → to_rights (to_mask r) ≡ r
unfolding to_rights
to_rights-to_mask r =
    rw
      (
        bit_read r,
        bit_write r,
        bit_execute r,
        bit_map r,
        bit_send r,
        bit_receive r,
        bit_wait r,
        bit_ack r,
        bit_transfer r,
        bit_manage r,
      )
      refl

included : (a b : Bool) → (a ≡ true → b ≡ true) → (not a || b) ≡ true
included true b h = h refl
included false b h = refl

-- One mask's rights include another's exactly if its bits do.
pub has_rights-to_rights :
    (have need : ℕ)
    → (has_rights (to_rights have) (to_rights need) ≡ true)
      ↔ ((i : ℕ) → i < 10 → bit i need ≡ true → bit i have ≡ true)
unfolding has_rights to_rights
has_rights-to_rights have need = (
  each,
  λ h.
      rw
        (
          included (bit 0 need) (bit 0 have) (h 0 (omega arith)),
          included (bit 1 need) (bit 1 have) (h 1 (omega arith)),
          included (bit 2 need) (bit 2 have) (h 2 (omega arith)),
          included (bit 3 need) (bit 3 have) (h 3 (omega arith)),
          included (bit 4 need) (bit 4 have) (h 4 (omega arith)),
          included (bit 5 need) (bit 5 have) (h 5 (omega arith)),
          included (bit 6 need) (bit 6 have) (h 6 (omega arith)),
          included (bit 7 need) (bit 7 have) (h 7 (omega arith)),
          included (bit 8 need) (bit 8 have) (h 8 (omega arith)),
          included (bit 9 need) (bit 9 have) (h 9 (omega arith)),
        )
        refl,
)
  where
    each :
        has_rights (to_rights have) (to_rights need) ≡ true
        → (i : ℕ) → i < 10
        → bit i need ≡ true
        → bit i have ≡ true
    each h zero b n = ground (arith, h, n)
    each h (suc zero) b n = ground (arith, h, n)
    each h (suc (suc zero)) b n = ground (arith, h, n)
    each h (suc (suc (suc zero))) b n = ground (arith, h, n)
    each h (suc (suc (suc (suc zero)))) b n = ground (arith, h, n)
    each h (suc (suc (suc (suc (suc zero))))) b n = ground (arith, h, n)
    each h (suc (suc (suc (suc (suc (suc zero)))))) b n = ground (arith, h, n)
    each h (suc (suc (suc (suc (suc (suc (suc zero))))))) b n = ground (arith, h, n)
    each h (suc (suc (suc (suc (suc (suc (suc (suc zero)))))))) b n = ground (arith, h, n)
    each h (suc (suc (suc (suc (suc (suc (suc (suc (suc zero))))))))) b n = ground (arith, h, n)
    each h (suc (suc (suc (suc (suc (suc (suc (suc (suc (suc i)))))))))) b n = absurd (omega arith)

-- For a mask below 1024, which has no unknown bits: the rights it decodes to encode to the mask again,
-- and any rights include them exactly if the encoding of those rights has every bit of the mask.
pub to_rights_lem :
    (mask : ℕ) (have : Rights)
    → mask < 1024
    → (to_mask (to_rights mask) ≡ mask)
      × ((has_rights have (to_rights mask) ≡ true)
          ↔ ((i : ℕ) → i < 10 → bit i mask ≡ true → bit i (to_mask have) ≡ true))
to_rights_lem mask have h = (
  to_mask-to_rights mask h,
  rw (to_rights-to_mask have) at (has_rights-to_rights (to_mask have) mask),
)
