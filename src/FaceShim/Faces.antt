-- ===== src/FaceShim/Faces.antt =====
-- The blocks and faces that `aegir_ft_open` takes and `aegir_ft_close` gives back.
use aegir.Prelude.{ℕ, ◌+◌, ◌-◌, Option, none, some, List, [], ◌∷◌, ◌≡◌, refl, arith, if◌then◌else◌}
use aegir.FaceShim.{
  FreeType, Shim, failed, aegir_ft_lib, sized, opened, aegir_ft_open, aegir_ft_close,
}

-- `blocks` and `faces` count what is in use: a face exists once FreeType has made it without an error,
-- and what else the shim calls leaves both counts.
pub record IsLibrary (Face W : Type 0) ⦃f : FreeType Face W⦄ (blocks faces : W → ℕ) : Type 0 where
  pub inits :
      (w : W) → (blocks (f.init_freetype w).2 ≡ blocks w) × (faces (f.init_freetype w).2 ≡ faces w)
  pub makes :
      (bytes : List ℕ) (w : W)
      → let (e, face, w') = f.new_memory_face bytes w in
        (blocks w' ≡ blocks w) × (faces w' ≡ faces w + (if failed e then 0 else 1))
  pub sizes :
      (face : Face) (px : ℕ) (w : W)
      → let (e, w') = f.set_pixel_sizes face px w in (blocks w' ≡ blocks w) × (faces w' ≡ faces w)
  pub dones :
      (face : Face) (w : W)
      → (blocks (f.done_face face w) ≡ blocks w) × (faces (f.done_face face w) ≡ faces w - 1)
  pub grants :
      (w : W)
      → let (ok, w') = f.malloc w in
        (blocks w' ≡ blocks w + (if ok then 1 else 0)) × (faces w' ≡ faces w)
  pub frees : (w : W) → (blocks (f.free w) ≡ blocks w - 1) × (faces (f.free w) ≡ faces w)

module _ {Face W : Type 0} (blocks faces : W → ℕ) where
  -- A face handed out accounts for one block and one face, none for nothing.
  abbrev pub Held : ℕ → ℕ → Option Face × Shim Face W → Type 0
  Held m n (none, s) = (blocks s.ft ≡ m) × (faces s.ft ≡ n)
  Held m n (some face, s) = (blocks s.ft ≡ m + 1) × (faces s.ft ≡ n + 1)

module _ {Face W : Type 0} ⦃f : FreeType Face W⦄ (blocks faces : W → ℕ)
    (c : IsLibrary Face W blocks faces) where
  sized-Held :
      (m n px : ℕ) (face : Face) (s : Shim Face W)
      → blocks s.ft ≡ m + 1
      → faces s.ft ≡ n + 1
      → Held blocks faces m n (sized face px s)
  unfolding sized
  sized-Held m n px face s h k =
      let w = (f.set_pixel_sizes face px s.ft).1 in
      ground (arith, c.sizes face px s.ft, c.dones face w, c.frees (f.done_face face w))

  opened-Held :
      (m n px : ℕ) (bytes : List ℕ) (s : Shim Face W)
      → blocks s.ft ≡ m + 1
      → faces s.ft ≡ n
      → Held blocks faces m n (opened bytes px s)
  unfolding opened
  opened-Held m n px bytes s h k =
      let r = f.new_memory_face bytes s.ft in
      ground (arith, c.makes bytes s.ft, c.frees r.2, sized-Held m n px r.1 (record s { ft = r.2 }))

  lib_lem :
      (s : Shim Face W)
      → let t = (aegir_ft_lib s).1 in (blocks t.ft ≡ blocks s.ft) × (faces t.ft ≡ faces s.ft)
  unfolding aegir_ft_lib
  lib_lem s = ground (arith, c.inits s.ft)

  open-Held :
      (bytes : List ℕ) (px : ℕ) (s : Shim Face W)
      → Held blocks faces (blocks s.ft) (faces s.ft) (aegir_ft_open bytes px s)
  unfolding aegir_ft_open
  open-Held [] px s = (refl, refl)
  open-Held (b ∷ bytes) px s =
      let t = (aegir_ft_lib s).1 in
      let w = (f.malloc t.ft).1 in
      ground (
        arith,
        lib_lem s,
        c.grants t.ft,
        opened-Held (blocks s.ft) (faces s.ft) px (b ∷ bytes) (record t { ft = w }),
      )

  -- On every path of `aegir_ft_open`, a face handed out accounts for one block and one face of FreeType
  -- and a failure leaves none behind; closing what was handed out leaves as many of both as before.
  pub aegir_ft_close-aegir_ft_open :
      (bytes : List ℕ) (px : ℕ) (s : Shim Face W)
      → let out = aegir_ft_open bytes px s in
        let t = aegir_ft_close out.0 out.1 in
        Held blocks faces (blocks s.ft) (faces s.ft) out
        × (blocks t.ft ≡ blocks s.ft)
        × (faces t.ft ≡ faces s.ft)
  unfolding aegir_ft_close
  aegir_ft_close-aegir_ft_open bytes px s =
      let h = open-Held bytes px s in
      let k = close_lem (aegir_ft_open bytes px s) (blocks s.ft) (faces s.ft) h in (h, k.0, k.1)
    where
      close_lem :
          (out : Option Face × Shim Face W) (m n : ℕ)
          → Held blocks faces m n out
          → let t = aegir_ft_close out.0 out.1 in (blocks t.ft ≡ m) × (faces t.ft ≡ n)
      close_lem (none, s) m n h = h
      close_lem (some face, s) m n h =
          omega (arith, c.dones face s.ft, c.frees (f.done_face face s.ft), h)
