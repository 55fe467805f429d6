-- ===== src/Kernel/Rights.antt =====
-- src/kernel/kernel-capabilities.adb and .ads: the rights of a capability and their encoding as a mask.
pub mod Masks
use aegir.Prelude.{ℕ, ◌+◌, ◌/◌, ◌%◌, ◌^◌, Bool, true, false, not, ◌&&◌, ◌||◌, ◌==◌, if◌then◌else◌}

pub record Rights : Type 0 where
  pub read : Bool
  pub write : Bool
  pub execute : Bool
  pub map : Bool
  pub send : Bool
  pub receive : Bool
  pub wait : Bool
  pub ack : Bool
  pub transfer : Bool
  pub manage : Bool

abbrev pub no_rights : Rights
no_rights = record {
  read = false;
  write = false;
  execute = false;
  map = false;
  send = false;
  receive = false;
  wait = false;
  ack = false;
  transfer = false;
  manage = false;
}

-- `(Mask and 2 ** i) /= 0`.
unfoldable pub bit : ℕ → ℕ → Bool
bit i mask = (mask / 2 ^ i) % 2 == 1

unfoldable pub has_rights : Rights → Rights → Bool
has_rights have need =
    (not need.read || have.read)
    && (not need.write || have.write)
    && (not need.execute || have.execute)
    && (not need.map || have.map)
    && (not need.send || have.send)
    && (not need.receive || have.receive)
    && (not need.wait || have.wait)
    && (not need.ack || have.ack)
    && (not need.transfer || have.transfer)
    && (not need.manage || have.manage)

unfoldable pub to_rights : ℕ → Rights
to_rights mask = record {
  read = bit 0 mask;
  write = bit 1 mask;
  execute = bit 2 mask;
  map = bit 3 mask;
  send = bit 4 mask;
  receive = bit 5 mask;
  wait = bit 6 mask;
  ack = bit 7 mask;
  transfer = bit 8 mask;
  manage = bit 9 mask;
}

-- `Mask := Mask or 2 ** i` for a right, to the mask of the rights before it, which has no bit from `i` on.
abbrev pub or_bit : Bool → ℕ → ℕ → ℕ
or_bit r value mask = if r then mask + value else mask

unfoldable pub to_mask : Rights → ℕ
to_mask r = or_bit r.manage 512 (
    or_bit r.transfer 256 (
      or_bit r.ack 128 (
        or_bit r.wait 64 (
          or_bit r.receive 32 (
            or_bit r.send 16
              (or_bit r.map 8 (or_bit r.execute 4 (or_bit r.write 2 (or_bit r.read 1 0)))))))))
