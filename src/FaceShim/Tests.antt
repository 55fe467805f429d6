-- ===== src/FaceShim/Tests.antt =====
-- Instances at concrete inputs.
use aegir.Prelude.{
  ℕ, ◌+◌, ◌-◌, pos, true, false, none, some, [], ◌∷◌, ◌≡◌, refl, ◌==◌, if◌then◌else◌,
}
use aegir.FaceShim.{FreeType, Shim, aegir_ft_open, aegir_ft_close, aegir_ft_glyph}
use aegir.FaceShim.Faces.{IsLibrary, Held, aegir_ft_close-aegir_ft_open}
use aegir.FaceShim.Glyphs.{Reports, aegir_ft_glyph-Reports}

-- The state counts the blocks and the faces; there are no glyphs but that of the letter A.
instance abbrev toy : FreeType ℕ (ℕ × ℕ)
toy = record {
  init_freetype = λ w. (pos 0, true, w);
  new_memory_face = λ bytes w. (pos 0, 1, (w.0, w.1 + 1));
  set_pixel_sizes = λ face px w. (if px == 0 then pos 23 else pos 0, w);
  done_face = λ face w. (w.0, w.1 - 1);
  malloc = λ w. (true, (w.0 + 1, w.1));
  free = λ w. (w.0 - 1, w.1);
  postscript_name = λ face w. none;
  ascender = λ face w. pos 800;
  descender = λ face w. pos 0;
  char_index = λ face cp w. if cp == 65 then 7 else 0;
  load_glyph = λ face idx w. (pos 0, w);
  render_glyph = λ face w. (pos 0, w);
  advance_x = λ face w. pos 640;
  slot = λ face w. record {
    gray = true;
    bitmap_left = pos 1;
    bitmap_top = pos 12;
    width = 9;
    rows = 12;
    pitch = pos 9;
    buffer = 4096;
  };
  kerning = λ face cl cr w. (pos 0, pos 0, w);
}

toy-IsLibrary : IsLibrary ℕ (ℕ × ℕ) (λ w. w.0) (λ w. w.1)
toy-IsLibrary = record {
  inits = λ w. (refl, refl);
  makes = λ bytes w. (refl, refl);
  sizes = λ face px w. (refl, refl);
  dones = λ face w. (refl, refl);
  grants = λ w. (refl, refl);
  frees = λ w. (refl, refl);
}

abbrev fresh : Shim ℕ (ℕ × ℕ)
fresh = record { g_lib = false; ft = (0, 0) }

-- The size 0 is refused.
aegir_ft_close-aegir_ft_open_example :
    let out = aegir_ft_open (1 ∷ []) 0 fresh in
    let t = aegir_ft_close out.0 out.1 in
    Held (λ (w : ℕ × ℕ). w.0) (λ (w : ℕ × ℕ). w.1) 0 0 out × (t.ft.0 ≡ 0) × (t.ft.1 ≡ 0)
aegir_ft_close-aegir_ft_open_example =
    aegir_ft_close-aegir_ft_open (λ w. w.0) (λ w. w.1) toy-IsLibrary (1 ∷ []) 0 fresh

aegir_ft_glyph-Reports_example : Reports (some 1) 65 fresh (aegir_ft_glyph (some 1) 65 fresh)
aegir_ft_glyph-Reports_example = aegir_ft_glyph-Reports (some 1) 65 fresh
