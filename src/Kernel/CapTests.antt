-- ===== src/Kernel/CapTests.antt =====
-- A table with one capability, and instances at it.
use aegir.Prelude.{
  ℕ, ◌%◌, ◌/◌, ◌<◌, true, [], ◌∷◌, ◌≡◌, ◌≢◌, ◌↔◌, inl, inr, refl, arith, if◌then◌else◌, ◌==◌,
  Bool-cases, ◌&&◌,
}
use native.Mathlib.Decide.{ℕ_discrete}
use aegir.Kernel.PhysicalMemory.Skip.{Yields}
use aegir.Kernel.Rights.{no_rights, bit, has_rights, to_rights, to_mask}
use aegir.Kernel.Rights.Masks.{to_rights_lem}
use aegir.Kernel.Capabilities.{
  endpoint_object, CapEntry, CapTable, Store, null_cap, get, duplicate, close,
}
use aegir.Kernel.Capabilities.Counting.{sum, flag}
use aegir.Kernel.Capabilities.Pages.{Holds, IsTight}
use aegir.Kernel.Capabilities.Growing.{IsProper}
use aegir.Kernel.Capabilities.Filling.{flag-get}
use aegir.Kernel.Capabilities.Deriving.{Duplicates, duplicate-Duplicates}
use aegir.Kernel.Capabilities.Closing.{Closes, close-Closes}
use aegir.Kernel.Tests.{pmm, held, pmm-Owned}

-- Handle 1: an endpoint, with the rights to send and to pass on.
abbrev endpoint : CapEntry
endpoint = record {
  object = 4096;
  badge = 7;
  rights = record no_rights { send = true; transfer = true };
  valid = true;
  kind = endpoint_object;
}

abbrev table : CapTable
table = record {
  root = λ p. if p == 0 then 8192 else 0;
  count = λ p. if p == 0 then 1 else 0;
  total = 1;
}

abbrev store : Store
store = record { pmm = pmm; cells = λ f i. if (f == 8192) && (i == 1) then endpoint else null_cap }

table_page : (p : ℕ) → table.root p ≢ 0 → p ≡ 0
table_page p n = ground (arith, n)

table_counted :
    (p : ℕ) → table.root p ≢ 0 → table.count p ≡ sum (λ i. flag (store.cells (table.root p) i)) 128
unfolding sum
table_counted p n = rw (table_page p n) refl

table-Holds : Holds table store (4096 ∷ []) held
unfolding sum
table-Holds = record {
  owned = pmm-Owned;
  paged = λ p n. rw (table_page p n) refl;
  apart = λ p q n e. ground (arith, n, e);
  counted = table_counted;
  empty = λ p e. ground (arith, e);
  sums = refl;
}

table-IsTight : IsTight table
table-IsTight p e = ground (arith, e)

-- No other slot is in use.
unused : (h : ℕ) → h % 128 ≢ 1 → (get table h store).valid ≡ true → ⊥
unfolding get
unused h x v = elim (Bool-cases (table.root (h / 128) == 0)) [
  | inl z ↦ let w = rw z at (v) in ground arith
  | inr z ↦
      let one : flag (get table h store) ≡ 1 = rw v refl in
      let none_at : flag (store.cells (table.root (h / 128)) (h % 128)) ≡ 0 = ground (arith, x) in
      absurd (omega (arith, one, none_at, flag-get table h store (λ q. ground (arith, z, q))))
]

table-IsProper : IsProper table store
unfolding get
table-IsProper h v = elim (ℕ_discrete (h / 128) 0) [
  | yes y ↦ elim (ℕ_discrete (h % 128) 1) [
    | yes x ↦ rw (y, x) (refl, λ q. omega (arith, q))
    | no x ↦ absurd (unused h x v)
  ]
  | no y ↦
      let z : (table.root (h / 128) == 0) ≡ true = ground (arith, y) in
      let w = rw z at (v) in ground arith
]

duplicate-Duplicates_example :
    Yields
      (Duplicates table store 1 (record no_rights { send = true }) 9)
      (duplicate 2 table 1 (record no_rights { send = true }) 9 store)
duplicate-Duplicates_example =
    duplicate-Duplicates 2 1 9 (record no_rights { send = true }) table store
      ((4096 ∷ [], (held, table-Holds)), table-IsTight, table-IsProper) (omega arith)

close-Closes_example : Yields (Closes table store (4096 ∷ []) held 1) (close 2 table 1 store)
close-Closes_example =
    close-Closes 2 1 table store (4096 ∷ []) held table-Holds table-IsTight table-IsProper
      (omega arith) (omega arith)

to_rights_lem_example :
    (to_mask (to_rights 272) ≡ 272)
    × ((has_rights endpoint.rights (to_rights 272) ≡ true)
        ↔ ((i : ℕ) → i < 10 → bit i 272 ≡ true → bit i (to_mask endpoint.rights) ≡ true))
to_rights_lem_example = to_rights_lem 272 endpoint.rights (omega arith)
