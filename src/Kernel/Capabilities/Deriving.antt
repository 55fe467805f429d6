-- ===== src/Kernel/Capabilities/Deriving.antt =====
-- `Duplicate`: a capability is derived from one that may be passed on, with no right that it lacks.
use aegir.Prelude.{
  ℕ, ◌<◌, Bool, true, false, not, ◌&&◌, ◌||◌, Option, none, some, length, ◌≡◌, ◌⊎◌, refl, arith,
  ◌==◌, if◌then◌else◌, Bool-cases, inl, inr,
}
use aegir.Kernel.PhysicalMemory.Skip.{Yields}
use aegir.Kernel.Rights.{Rights, has_rights}
use aegir.Kernel.Capabilities.{
  Status, invalid_cap, rights_denied, CapEntry, CapTable, Store, get, lookup, derive, duplicate,
}
use aegir.Kernel.Capabilities.Growing.{IsWell}
use aegir.Kernel.Capabilities.Inserting.{entry_of, Inserts, insert-Inserts}

-- Handle 0 and handles that are not in use name nothing.
abbrev pub names : CapTable → ℕ → Store → Bool
names t cap m = if cap == 0 then false else (get t cap m).valid

-- The source may be passed on and has every right that is asked for.
abbrev pub grants : CapEntry → Rights → Bool
grants e new = e.rights.transfer && has_rights e.rights new

-- The copy names the same object; or the source names nothing, or does not grant that, and nothing
-- has changed.
abbrev pub Duplicates : CapTable → Store → ℕ → Rights → ℕ → Status × ℕ × CapTable × Store → Type 0
Duplicates t m source new badge (st, cap, u, n) =
    ((names t source m ≡ true)
      × (grants (get t source m) new ≡ true)
      × Inserts (entry_of (get t source m).kind (get t source m).object new badge) t m
          (st, cap, u, n))
    ⊎ (((names t source m ≡ false) × (st ≡ invalid_cap)
          ⊎ ((names t source m ≡ true)
              × (grants (get t source m) new ≡ false)
              × (st ≡ rights_denied)))
        × (cap ≡ 0)
        × (u ≡ t)
        × (n ≡ m))

granted-Duplicates :
    (t : CapTable) (m : Store) (source badge : ℕ) (new : Rights)
    (r : Option (Status × ℕ × CapTable × Store))
    → names t source m ≡ true
    → grants (get t source m) new ≡ true
    → Yields (Inserts (entry_of (get t source m).kind (get t source m).object new badge) t m) r
    → Yields (Duplicates t m source new badge) r
granted-Duplicates t m source badge new none a g y = y
granted-Duplicates t m source badge new (some r) a g y = inl (a, g, y)

-- Over a well-formed table and with fuel for the reserved ranges, `Duplicate` returns. When the source
-- handle names a capability with the right to transfer and with every right asked for, the copy is
-- stored, under the lowest handle that named nothing, with the source's object and kind and the rights
-- and badge asked for, or the answer is Table_Full; every other handle keeps its entry, and the table
-- is well-formed and coherent. When the source names nothing the answer is Invalid_Cap, when it lacks
-- a right it is Rights_Denied, and table and memory are unchanged.
pub duplicate-Duplicates :
    (fuel source badge : ℕ) (new : Rights) (t : CapTable) (m : Store)
    → IsWell t m
    → length m.pmm.reserved < fuel
    → Yields (Duplicates t m source new badge) (duplicate fuel t source new badge m)
unfolding duplicate lookup derive
duplicate-Duplicates fuel source badge new t m w h = elim (Bool-cases (names t source m)) [
  | inr a ↦
      let b : ((source == 0) || not (get t source m).valid) ≡ true = ground (arith, a) in
      rw b (inr (inl (a, refl), refl, refl, refl))
  | inl a ↦
      let b : ((source == 0) || not (get t source m).valid) ≡ false = ground (arith, a) in
      let v : (get t source m).valid ≡ true = ground (arith, a) in
      elim (Bool-cases (grants (get t source m) new)) [
        | inr g ↦
            let c : (not (get t source m).rights.transfer
                  || not (has_rights (get t source m).rights new))
                ≡ true =
              ground (arith, g) in
            rw (b, c) (inr (inr (a, g, refl), refl, refl, refl))
        | inl g ↦
            let c : (not (get t source m).rights.transfer
                  || not (has_rights (get t source m).rights new))
                ≡ false =
              ground (arith, g) in
            let (k, o) = w.2 source v in
            rw (b, c)
              (granted-Duplicates t m source badge new _ a g (
                insert-Inserts fuel (get t source m).object badge (get t source m).kind new t m w h
                  k o))
      ]
]
