-- ===== src/FaceShim/Glyphs.antt =====
-- What `aegir_ft_glyph` reports.
use aegir.Prelude.{
  ℕ, ℤ, pos, eq_ℤ, true, false, Option, none, some, ◌≡◌, ◌⊎◌, inl, inr, refl, arith, ◌==◌,
  Bool-cases,
}
use aegir.FaceShim.{FreeType, Slot, Shim, GlyphOut, no_glyph, glyph_of, aegir_ft_glyph}

-- What the caller's variables hold: the fields of a slot, and the address of its bitmap.
pub record Holds (out : GlyphOut) (g : Slot) : Type 0 where
  pub left : out.left ≡ g.bitmap_left
  pub top : out.top ≡ g.bitmap_top
  pub w : out.w ≡ pos g.width
  pub h : out.h ≡ pos g.rows
  pub pitch : out.pitch ≡ g.pitch
  pub bits : out.bits ≡ some g.buffer

pub record Blank (out : GlyphOut) : Type 0 where
  pub left : out.left ≡ pos 0
  pub top : out.top ≡ pos 0
  pub w : out.w ≡ pos 0
  pub h : out.h ≡ pos 0
  pub pitch : out.pitch ≡ pos 0
  pub bits : out.bits ≡ none

no_glyph-Blank : Blank no_glyph
no_glyph-Blank = record { left = refl; top = refl; w = refl; h = refl; pitch = refl; bits = refl }

glyph_of-Holds : (g : Slot) → Holds (glyph_of g) g
glyph_of-Holds g = record { left = refl; top = refl; w = refl; h = refl; pitch = refl; bits = refl }

module _ {Face W : Type 0} ⦃f : FreeType Face W⦄ where
  -- The four steps on a face, with what they left: the glyph of the character, loading it, rendering
  -- it, and the kind of its bitmap.
  abbrev index : Face → ℕ → Shim Face W → ℕ
  index face cp s = f.char_index face cp s.ft

  abbrev load : Face → ℕ → Shim Face W → ℤ × W
  load face cp s = f.load_glyph face (index face cp s) s.ft

  abbrev render : Face → ℕ → Shim Face W → ℤ × W
  render face cp s = f.render_glyph face (load face cp s).1

  abbrev slot_after : Face → ℕ → Shim Face W → Slot
  slot_after face cp s = f.slot face (render face cp s).1

  abbrev pub Fails : Option Face → ℕ → Shim Face W → Type 0
  Fails none cp s = Unit
  Fails (some face) cp s =
      (index face cp s ≡ 0)
      ⊎ ((eq_ℤ (load face cp s).0 (pos 0) ≡ false)
          ⊎ ((eq_ℤ (render face cp s).0 (pos 0) ≡ false) ⊎ ((slot_after face cp s).gray ≡ false)))

  abbrev pub Works : Option Face → ℕ → Shim Face W → GlyphOut → Type 0
  Works none cp s out = ⊥
  Works (some face) cp s out =
      ((index face cp s ≡ 0) → ⊥)
      × (eq_ℤ (load face cp s).0 (pos 0) ≡ true)
      × (eq_ℤ (render face cp s).0 (pos 0) ≡ true)
      × ((slot_after face cp s).gray ≡ true)
      × Holds out (slot_after face cp s)

  abbrev pub Reports : Option Face → ℕ → Shim Face W → ℤ × GlyphOut × Shim Face W → Type 0
  Reports v cp s (rc, out, t) =
      ((rc ≡ pos 1) × Fails v cp s × Blank out) ⊎ ((rc ≡ pos 0) × Works v cp s out)

  -- `aegir_ft_glyph` returns 0 exactly if there is a face, it has a glyph for the character, loading and
  -- rendering answer no error, and the bitmap is gray; then the left and top, the width, height, pitch
  -- and address are those of the rendered bitmap. It returns 1 exactly if one of these steps failed, and
  -- then stores zeros and a null address.
  pub aegir_ft_glyph-Reports :
      (v : Option Face) (cp : ℕ) (s : Shim Face W) → Reports v cp s (aegir_ft_glyph v cp s)
  unfolding aegir_ft_glyph
  aegir_ft_glyph-Reports none cp s = inl (refl, tt, no_glyph-Blank)
  aegir_ft_glyph-Reports (some face) cp s =
      let a = Bool-cases (index face cp s == 0) in
      let b = Bool-cases (eq_ℤ (load face cp s).0 (pos 0)) in
      let c = Bool-cases (eq_ℤ (render face cp s).0 (pos 0)) in
      let d = Bool-cases (slot_after face cp s).gray in
      elim a [
        | inl i ↦ rw i (inl (refl, inl (ground (arith, i)), no_glyph-Blank))
        | inr i ↦ elim b [
          | inr j ↦ rw (i, j) (inl (refl, inr (inl refl), no_glyph-Blank))
          | inl j ↦ elim c [
            | inr k ↦ rw (i, j, k) (inl (refl, inr (inr (inl refl)), no_glyph-Blank))
            | inl k ↦ elim d [
              | inr l ↦ rw (i, j, k, l) (inl (refl, inr (inr (inr refl)), no_glyph-Blank))
              | inl l ↦
                  rw (i, j, k, l)
                    (inr (
                      refl,
                      (
                        (λ q. ground (arith, i, q)),
                        refl,
                        refl,
                        refl,
                        glyph_of-Holds (slot_after face cp s),
                      ),
                    ))
            ]
          ]
        ]
      ]
