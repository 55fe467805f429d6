-- ===== src/Kernel/Capabilities/Placing.antt =====
-- `Insert_At`: the entry goes to the handle that is named, if nothing is there.
use aegir.Prelude.{
  ℕ, ◌/◌, ◌<◌, true, false, not, ◌&&◌, Option, none, some, length, ◌≡◌, ◌≢◌, ◌⊎◌, refl, arith, ◌==◌,
  Bool-cases, inl, inr,
}
use aegir.Kernel.PhysicalMemory.Skip.{Yields}
use aegir.Kernel.Rights.{Rights}
use aegir.Kernel.Capabilities.{
  ObjectKind, Status, slot_occupied, CapTable, Store, is_null, get, ensure_page, fill, insert_at,
}
use aegir.Kernel.Capabilities.Growing.{IsWell, Ensures, ensure_page-Ensures}
use aegir.Kernel.Capabilities.Filling.{Fills, fill-Fills}
use aegir.Kernel.Capabilities.Inserting.{entry_of}

occupied :
    (t : CapTable) (cap : ℕ) (m : Store)
    → (not (t.root (cap / 128) == 0) && (get t cap m).valid) ≡ (get t cap m).valid
unfolding get
occupied t cap m = elim (Bool-cases (t.root (cap / 128) == 0)) [
  | inl z ↦ rw z refl
  | inr z ↦ rw z refl
]

-- For a handle but 0 and an object to name: the entry is stored if the handle is not in use, and
-- nothing changes if it is.
insert_at-Fills :
    (fuel cap object badge : ℕ) (kind : ObjectKind) (rights : Rights) (t : CapTable) (m : Store)
    → IsWell t m
    → length m.pmm.reserved < fuel
    → 0 < cap
    → cap < 16384
    → is_null kind ≡ false
    → object ≢ 0
    → Yields
        (λ (r : Status × CapTable × Store).
          (((get t cap m).valid ≡ false) × Fills cap (entry_of kind object rights badge) t m r)
          ⊎ (((get t cap m).valid ≡ true) × (r ≡ (slot_occupied, t, m))))
        (insert_at fuel t cap kind object rights badge m)
unfolding insert_at
insert_at-Fills fuel cap object badge kind rights t m w h p c k o =
    let y : (cap == 0) ≡ false = ground (arith, p) in
    let z : (object == 0) ≡ false = ground (arith, o) in
    let (free, (used, b)) = w.0 in
    simp (y, k, z, occupied t cap m)
      (elim (Bool-cases (get t cap m).valid) [
        | inl v ↦ rw v (inr (refl, refl))
        | inr v ↦ rw v (
            placed v (ensure_page fuel (cap / 128) t m)
              (ensure_page-Ensures fuel (cap / 128) t m free used b h))
      ])
  where
    placed :
        (get t cap m).valid ≡ false
        → (r : Option (Status × CapTable × Store)) → Yields (Ensures (cap / 128) t m) r
        → Yields
            (λ (a : Status × CapTable × Store).
              ((false ≡ false) × Fills cap (entry_of kind object rights badge) t m a)
              ⊎ ((false ≡ true) × (a ≡ (slot_occupied, t, m))))
            (elim r [
              | none ↦ none
              | some a ↦ some (fill cap (entry_of kind object rights badge) a)
            ])
    placed v none y = y
    placed v (some a) y =
        inl (refl, fill-Fills cap (entry_of kind object rights badge) t m a c refl v w.1 y)
