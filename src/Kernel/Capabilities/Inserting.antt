-- ===== src/Kernel/Capabilities/Inserting.antt =====
-- `Insert` takes the lowest free handle; `Duplicate` derives a capability with no more rights.
use aegir.Prelude.{
  ℕ, zero, suc, ◌+◌, ◌/◌, ◌≤◌, ◌<◌, true, false, Option, none, some, length, ◌≡◌, ◌≢◌, ◌⊎◌, refl,
  arith, ◌==◌, Bool-cases, Option-cases, inl, inr,
}
use native.Mathlib.Decide.{ℕ_discrete}
use aegir.Kernel.PhysicalMemory.Skip.{Yields}
use aegir.Kernel.Rights.{Rights}
use aegir.Kernel.Capabilities.{
  ObjectKind, Status, ok, table_full, CapEntry, CapTable, Store, TableCoherent, is_null, get,
  ensure_page, fill, first_free, with_handle, insert,
}
use aegir.Kernel.Capabilities.Growing.{IsWell, IsProper, Ensures, ensure_page-Ensures}
use aegir.Kernel.Capabilities.Coherent.{IsWell-TableCoherent}
use aegir.Kernel.Capabilities.Filling.{Fills, fill-Fills}

-- The entry that `Insert` stores.
abbrev pub entry_of : ObjectKind → ℕ → Rights → ℕ → CapEntry
entry_of kind object rights badge = record {
  object = object;
  badge = badge;
  rights = rights;
  valid = true;
  kind = kind;
}

-- The lowest handle that is not in use has become the entry's, or there is none, or no memory for it.
abbrev pub Inserts : CapEntry → CapTable → Store → Status × ℕ × CapTable × Store → Type 0
Inserts e t m (st, cap, u, n) =
    IsWell u n
    × TableCoherent u
    × (((st ≡ ok)
          × (0 < cap)
          × (cap < 16384)
          × ((get t cap m).valid ≡ false)
          × ((h : ℕ) → 0 < h → h < cap → (get t h m).valid ≡ true)
          × (get u cap n ≡ e)
          × ((h : ℕ) → h ≢ cap → get u h n ≡ get t h m)
          × (u.total ≡ t.total + 1))
        ⊎ ((st ≡ table_full) × (cap ≡ 0) × ((h : ℕ) → get u h n ≡ get t h m) × (u.total ≡ t.total)))

abbrev Lowest : ℕ → ℕ → CapTable → Store → ℕ → Type 0
Lowest n from t m cap =
    (from ≤ cap)
    × (cap < from + n)
    × ((get t cap m).valid ≡ false)
    × ((h : ℕ) → from ≤ h → h < cap → (get t h m).valid ≡ true)

first_free-Lowest :
    (n from cap : ℕ) (t : CapTable) (m : Store)
    → first_free n from t m ≡ some cap
    → Lowest n from t m cap
unfolding first_free
first_free-Lowest zero from cap t m e = ground arith
first_free-Lowest (suc n) from cap t m e = elim (Bool-cases (get t from m).valid) [
  | inl v ↦
      let r = first_free-Lowest n (suc from) cap t m (ground (arith, e, v)) in
      (
        omega (arith, r.0),
        omega (arith, r.1),
        r.2,
        λ h lo hi. elim (ℕ_discrete h from) [
          | yes y ↦ rw y v
          | no y ↦ r.3 h (omega (arith, lo, y)) hi
        ],
      )
  | inr v ↦
      let q : cap ≡ from = ground (arith, e, v) in
      (omega (arith, q), omega (arith, q), rw q v, λ h lo hi. absurd (omega (arith, q)))
]

with_handle-Inserts :
    (cap : ℕ) (e : CapEntry) (t : CapTable) (m : Store) (r : Status × CapTable × Store)
    → is_null e.kind ≡ false
    → e.object ≢ 0
    → IsProper t m
    → Lowest 16383 1 t m cap
    → Fills cap e t m r
    → Inserts e t m (with_handle cap r)
with_handle-Inserts cap e t m (st, u, n) k o p l (s, tight, inl (q, new, others, total)) = rw q (
  (s, tight, proper),
  IsWell-TableCoherent u n (s, tight, proper),
  inl (
    refl,
    omega (arith, l.0),
    omega (arith, l.1),
    l.2,
    (λ h lo hi. l.3 h (omega (arith, lo)) hi),
    new,
    others,
    total,
  ),
)
  where
    proper : IsProper u n
    proper h v = elim (ℕ_discrete h cap) [
      | yes y ↦ rw (y, new) (k, o)
      | no y ↦ let w = rw (others h y) at (v) in rw (others h y) (p h w)
    ]
with_handle-Inserts cap e t m (st, u, n) k o p l (s, tight, inr (q, same, total)) =
    rw q (
      (s, tight, proper),
      IsWell-TableCoherent u n (s, tight, proper),
      inr (refl, refl, same, total),
    )
  where
    proper : IsProper u n
    proper h v = let w = rw (same h) at (v) in rw (same h) (p h w)

-- With an object to name, `Insert` answers, and the table is as it should be.
pub insert-Inserts :
    (fuel object badge : ℕ) (kind : ObjectKind) (rights : Rights) (t : CapTable) (m : Store)
    → IsWell t m
    → length m.pmm.reserved < fuel
    → is_null kind ≡ false
    → object ≢ 0
    → Yields
        (Inserts (entry_of kind object rights badge) t m)
        (insert fuel t kind object rights badge m)
unfolding insert
insert-Inserts fuel object badge kind rights t m w h k o =
    let z : (object == 0) ≡ false = ground (arith, o) in
    simp (k, z)
      (elim (Option-cases (first_free 16383 1 t m)) [
        | inl q ↦ rw q (w, IsWell-TableCoherent t m w, inr (refl, refl, (λ h. refl), refl))
        | inr (cap, q) ↦
            let l = first_free-Lowest 16383 1 cap t m q in
            let (free, (used, b)) = w.0 in
            rw q (
              placed cap l (ensure_page fuel (cap / 128) t m)
                (ensure_page-Ensures fuel (cap / 128) t m free used b h))
      ])
  where
    placed :
        (cap : ℕ)
        → Lowest 16383 1 t m cap
        → (r : Option (Status × CapTable × Store)) → Yields (Ensures (cap / 128) t m) r
        → Yields (Inserts (entry_of kind object rights badge) t m) (elim r [
          | none ↦ none
          | some a ↦ some (with_handle cap (fill cap (entry_of kind object rights badge) a))
        ])
    placed cap l none y = y
    placed cap l (some a) y =
        let e = entry_of kind object rights badge in
        with_handle-Inserts cap e t m (fill cap e a) k o w.2 l
          (fill-Fills cap e t m a (omega (arith, l.1)) refl l.2 w.1 y)
