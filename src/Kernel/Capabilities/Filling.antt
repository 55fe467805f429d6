-- ===== src/Kernel/Capabilities/Filling.antt =====
-- An entry is added: its handle means it, every other handle means what it meant, and the table is as
-- tight as before.
use aegir.Prelude.{
  ℕ, ◌+◌, ◌/◌, ◌%◌, ◌<◌, true, false, ◌≡◌, ◌≢◌, ◌⊎◌, refl, ◌∙◌, arith, ◌==◌, Bool-cases, inl, inr,
}
use native.Mathlib.Decide.{ℕ_discrete}
use aegir.Kernel.PhysicalMemory.{write}
use aegir.Kernel.Capabilities.{Status, ok, table_full, CapEntry, CapTable, Store, get, fill}
use aegir.Kernel.Capabilities.Counting.{flag}
use aegir.Kernel.Capabilities.Pages.{IsTight, get-put, get-set_entry_other}
use aegir.Kernel.Capabilities.Storing.{put-Holds}
use aegir.Kernel.Capabilities.Growing.{IsSound, Ensures}

abbrev pub Fills : ℕ → CapEntry → CapTable → Store → Status × CapTable × Store → Type 0
Fills cap e t m (st, u, n) =
    IsSound u n
    × IsTight u
    × (((st ≡ ok)
          × (get u cap n ≡ e)
          × ((h : ℕ) → h ≢ cap → get u h n ≡ get t h m)
          × (u.total ≡ t.total + 1))
        ⊎ ((st ≡ table_full) × ((h : ℕ) → get u h n ≡ get t h m) × (u.total ≡ t.total)))

-- An entry that reads as unused does not count.
pub flag-get :
    (t : CapTable) (cap : ℕ) (m : Store)
    → t.root (cap / 128) ≢ 0
    → flag (m.cells (t.root (cap / 128)) (cap % 128)) ≡ flag (get t cap m)
unfolding get
flag-get t cap m n =
    let z : (t.root (cap / 128) == 0) ≡ false = ground (arith, n) in
    elim (Bool-cases (cap % 128 == 0)) [ inl w ↦ rw (z, w) refl | inr w ↦ rw (z, w) refl ]

pub fill-Fills :
    (cap : ℕ) (e : CapEntry) (t : CapTable) (m : Store) (r : Status × CapTable × Store)
    → cap < 16384
    → e.valid ≡ true
    → (get t cap m).valid ≡ false
    → IsTight t
    → Ensures (cap / 128) t m r
    → Fills cap e t m (fill cap e r)
unfolding fill
fill-Fills cap e t m (st, u, n) c v w tight (g, inl (q, nz)) =
    let (free, (used, o)) = g.sound in
    let old : flag (get u cap n) ≡ 0 = rw (g.same cap, w) refl in
    let was : flag (n.cells (u.root (cap / 128)) (cap % 128)) ≡ 0 = flag-get u cap n nz ∙ old in
    let now : flag e ≡ 1 = rw v refl in
    rw q (
      (
        free,
        (
          used,
          put-Holds u cap (u.count (cap / 128) + 1) (u.total + 1) e n free used o c nz
              (omega (arith, was, now)) (omega arith),
        ),
      ),
      tight_after,
      inl (
        refl,
        get-put u _ cap e n (λ p. refl) nz,
        (λ h k. get-set_entry_other u _ cap h e n (λ p. refl) o.apart k ∙ g.same h),
        omega (arith, g.total),
      ),
    )
  where
    tight_after : (p : ℕ) → write u.count (cap / 128) (u.count (cap / 128) + 1) p ≡ 0 → u.root p ≡ 0
    tight_after p k = elim (ℕ_discrete p (cap / 128)) [
      | yes y ↦ absurd (ground (arith, k, y))
      | no y ↦
          let a : u.count p ≡ 0 = ground (arith, k, y) in
          let b : t.count p ≡ 0 = rw g.count at (a) in g.root p y ∙ tight p b
    ]
fill-Fills cap e t m (st, u, n) c v w tight (g, inr (q, z)) =
    rw q (g.sound, tight_after, inr (refl, g.same, g.total))
  where
    tight_after : IsTight u
    tight_after p k = elim (ℕ_discrete p (cap / 128)) [
      | yes y ↦ rw y z
      | no y ↦ let b : t.count p ≡ 0 = rw g.count at (k) in g.root p y ∙ tight p b
    ]
