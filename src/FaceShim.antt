-- ===== src/FaceShim.antt =====
-- userspace/freetype/port/ftaegir.c: the shim between Trinket.Fonts and FreeType, which is no part of
-- this repository.
pub mod Faces
pub mod Glyphs
mod Tests
use aegir.Prelude.{
  ℕ, ◌+◌, ◌-◌, ◌/◌, ℤ, pos, negsuc, minus_one, eq_ℤ, Bool, true, false, not, Option, none, some,
  List, [], ltb, ◌==◌, if◌then◌else◌,
}

-- What the shim reads of a glyph slot after rendering. `buffer` is a pointer.
pub record Slot : Type 0 where
  pub gray : Bool
  pub bitmap_left : ℤ
  pub bitmap_top : ℤ
  pub width : ℕ
  pub rows : ℕ
  pub pitch : ℤ
  pub buffer : ℕ

-- What the shim calls: FreeType, whose state is `W`, and the C library's `malloc` and `free`. The error
-- code comes first in a result. `FT_Init_FreeType` tells whether the library handle is set afterwards.
pub record FreeType (Face W : Type 0) : Type 0 where
  pub init_freetype : W → ℤ × Bool × W
  pub new_memory_face : List ℕ → W → ℤ × Face × W
  pub set_pixel_sizes : Face → ℕ → W → ℤ × W
  pub done_face : Face → W → W
  pub malloc : W → Bool × W
  pub free : W → W
  pub postscript_name : Face → W → Option (List ℕ)
  pub ascender : Face → W → ℤ
  pub descender : Face → W → ℤ
  pub char_index : Face → ℕ → W → ℕ
  pub load_glyph : Face → ℕ → W → ℤ × W
  pub render_glyph : Face → W → ℤ × W
  pub advance_x : Face → W → ℤ
  pub slot : Face → W → Slot
  pub kerning : Face → ℕ → ℕ → W → ℤ × ℤ × W

-- `g_lib` tells whether the library handle is set. A face handle of the caller is a pointer to a block
-- that holds a `Face`; NULL is `none`.
pub record Shim (Face W : Type 0) : Type 0 where
  pub g_lib : Bool
  pub ft : W

-- `-a` and `a + n` in 64 bits, where they do not overflow.
abbrev pub neg : ℤ → ℤ
neg (pos ℕ.zero) = pos 0
neg (pos (ℕ.suc n)) = negsuc n
neg (negsuc n) = pos (n + 1)

abbrev pub plus : ℤ → ℕ → ℤ
plus (pos m) n = pos (m + n)
plus (negsuc m) n = if ltb m n then pos (n - m - 1) else negsuc (m - n)

-- `a >> 6`
abbrev pub shift6 : ℤ → ℤ
shift6 (pos n) = pos (n / 64)
shift6 (negsuc n) = negsuc (n / 64)

-- `(x + 32) >> 6`: a length in 64ths of a pixel as pixels.
unfoldable pub pixels : ℤ → ℤ
pixels x = shift6 (plus x 32)

-- What the pointers of `aegir_ft_glyph` hold afterwards.
pub record GlyphOut : Type 0 where
  pub left : ℤ
  pub top : ℤ
  pub w : ℤ
  pub h : ℤ
  pub pitch : ℤ
  pub bits : Option ℕ

abbrev pub no_glyph : GlyphOut
no_glyph = record { left = pos 0; top = pos 0; w = pos 0; h = pos 0; pitch = pos 0; bits = none }

-- A width and a height fit an `int`.
abbrev pub glyph_of : Slot → GlyphOut
glyph_of g = record {
  left = g.bitmap_left;
  top = g.bitmap_top;
  w = pos g.width;
  h = pos g.rows;
  pitch = g.pitch;
  bits = some g.buffer;
}

abbrev pub failed : ℤ → Bool
failed e = not (eq_ℤ e (pos 0))

module _ {Face W : Type 0} ⦃f : FreeType Face W⦄ where
  unfoldable pub aegir_ft_lib : Shim Face W → ℤ × Shim Face W
  aegir_ft_lib s =
      if s.g_lib
      then (pos 0, s)
      else (let (e, set, w) = f.init_freetype s.ft in (e, record s { g_lib = set; ft = w }))

  -- The steps of `aegir_ft_open` on a face that FreeType made, and on a block that was granted.
  unfoldable pub sized : Face → ℕ → Shim Face W → Option Face × Shim Face W
  sized face px s =
      let (e, w) = f.set_pixel_sizes face px s.ft in
      if failed e
      then (none, record s { ft = f.free (f.done_face face w) })
      else (some face, record s { ft = w })

  unfoldable pub opened : List ℕ → ℕ → Shim Face W → Option Face × Shim Face W
  unfolding sized
  opened bytes px s =
      let (e, face, w) = f.new_memory_face bytes s.ft in
      if failed e then (none, record s { ft = f.free w }) else sized face px (record s { ft = w })

  -- A null pointer, or a length of 0, is the empty list.
  unfoldable pub aegir_ft_open : List ℕ → ℕ → Shim Face W → Option Face × Shim Face W
  unfolding aegir_ft_lib opened
  aegir_ft_open [] px s = (none, s)
  aegir_ft_open bytes px s =
      let (e, s1) = aegir_ft_lib s in
      let (ok, w) = f.malloc s1.ft in
      let s2 = record s1 { ft = w } in
      if failed e then (none, s1) else if ok then opened bytes px s2 else (none, s2)

  unfoldable pub aegir_ft_close : Option Face → Shim Face W → Shim Face W
  aegir_ft_close none s = s
  aegir_ft_close (some face) s = record s { ft = f.free (f.done_face face s.ft) }

  unfoldable pub aegir_ft_family : Option Face → Shim Face W → List ℕ
  aegir_ft_family none s = []
  aegir_ft_family (some face) s = elim (f.postscript_name face s.ft) [ none ↦ [] | some n ↦ n ]

  unfoldable pub aegir_ft_ascent : Option Face → Shim Face W → ℤ
  aegir_ft_ascent none s = pos 0
  aegir_ft_ascent (some face) s = pixels (f.ascender face s.ft)

  unfoldable pub aegir_ft_descent : Option Face → Shim Face W → ℤ
  aegir_ft_descent none s = pos 0
  aegir_ft_descent (some face) s = pixels (neg (f.descender face s.ft))

  unfoldable pub aegir_ft_advance_x : Option Face → ℕ → Shim Face W → ℤ × Shim Face W
  aegir_ft_advance_x none cp s = (pos 0, s)
  aegir_ft_advance_x (some face) cp s =
      let idx = f.char_index face cp s.ft in
      let (e, w) = f.load_glyph face idx s.ft in
      let s1 = record s { ft = w } in
      if idx == 0
      then (pos 0, s)
      else if failed e
      then (pos 0, s1)
      else (pixels (f.advance_x face w), s1)

  unfoldable pub aegir_ft_glyph : Option Face → ℕ → Shim Face W → ℤ × GlyphOut × Shim Face W
  aegir_ft_glyph none cp s = (pos 1, no_glyph, s)
  aegir_ft_glyph (some face) cp s =
      let idx = f.char_index face cp s.ft in
      let (e, w) = f.load_glyph face idx s.ft in
      let (e', w') = f.render_glyph face w in
      let s2 = record s { ft = w' } in
      if idx == 0
      then (pos 1, no_glyph, s)
      else if failed e
      then (pos 1, no_glyph, record s { ft = w })
      else if failed e'
      then (pos 1, no_glyph, s2)
      else if (f.slot face w').gray
      then (pos 0, glyph_of (f.slot face w'), s2)
      else (pos 1, no_glyph, s2)

  unfoldable pub aegir_ft_has : Option Face → ℕ → Shim Face W → Bool
  aegir_ft_has none cp s = false
  aegir_ft_has (some face) cp s = not (f.char_index face cp s.ft == 0)

  unfoldable pub aegir_ft_kerning : Option Face → ℕ → ℕ → Shim Face W → ℤ × Shim Face W
  aegir_ft_kerning none cl cr s = (pos 0, s)
  aegir_ft_kerning (some face) cl cr s =
      let (e, x, w) = f.kerning face cl cr s.ft in
      (if failed e then pos 0 else pixels x, record s { ft = w })
