-- ===== src/Gsocket/Ready/Scan.antt =====
-- One round of `select` over the descriptors.
use native.Mathlib.Decide.{ℕ_discrete}
use aegir.Prelude.{
  ℕ, zero, suc, ◌+◌, ◌≤◌, ◌<◌, ℤ, pos, negsuc, Bool, ◌&&◌, ◌||◌, Option, none, some, ◌==◌,
  if◌then◌else◌, ◌≡◌, refl, ◌∙◌, arith, ◌⊎◌,
}
use aegir.Gsocket.Types.{State, Bridge}
use aegir.Gsocket.FdSet.{FdSet}
use aegir.Gsocket.FdSet.Laws.{IsFdSet, isset-clrbit, ak_clrbit-IsFdSet}
use aegir.Gsocket.Ready.{
  FdSets, requested, settle, bit_1, bit_2, bit_4, ak_ready, select_fd, select_scan, nfds_of,
}

-- The three sets of a `select`.
pub data Which : Type 0 where
  rd wr ex : Which

abbrev pub set_of : Which → FdSets → Option FdSet
set_of rd f = f.readfds
set_of wr f = f.writefds
set_of ex f = f.exceptfds

abbrev pub bit_of : Which → ℕ → Bool
bit_of rd m = bit_1 m
bit_of wr m = bit_2 m
bit_of ex m = bit_4 m

abbrev pub IsSome : Option FdSet → Type 0
IsSome none = Unit {0}
IsSome (some s) = IsFdSet s

-- Every set that is given has 32 bytes.
abbrev pub IsFdSets : FdSets → Type 0
IsFdSets f = IsSome f.readfds × IsSome f.writefds × IsSome f.exceptfds

abbrev pub hit : Bool → ℕ
hit b = if b then 1 else 0

requested-settle :
    (ready : Bool) (o : Option FdSet) (fd j : ℕ)
    → IsSome o
    → fd < 256
    → requested (settle ready o fd).0 j
      ≡ (if j == fd then requested o fd && ready else requested o j)
unfolding requested settle
requested-settle ready none fd j h lt = ground arith
requested-settle ready (some s) fd j h lt = elim (ℕ_discrete j fd) [
  | yes q ↦ rw q (ground (arith, isset-clrbit s fd fd h lt))
  | no q ↦ ground (arith, isset-clrbit s fd j h lt)
]

settle-hit :
    (ready : Bool) (o : Option FdSet) (fd : ℕ)
    → (settle ready o fd).1 ≡ hit (requested o fd && ready)
unfolding requested settle
settle-hit ready none fd = refl
settle-hit ready (some s) fd = ground arith

settle-IsSome : (ready : Bool) (o : Option FdSet) (fd : ℕ) → IsSome o → IsSome (settle ready o fd).0
unfolding settle
settle-IsSome ready none fd h = tt
settle-IsSome ready (some s) fd h = ground (arith, ak_clrbit-IsFdSet s fd h)

-- The sets in which a descriptor with the mask `m` is reported.
abbrev pub hits : ℕ → FdSets → ℕ → ℕ
hits fd f m =
    hit (requested f.readfds fd && bit_1 m)
    + hit (requested f.writefds fd && bit_2 m)
    + hit (requested f.exceptfds fd && bit_4 m)

pub nfds_of-le : (nfds : ℤ) → nfds_of nfds ≤ 256
nfds_of-le (pos n) = omega arith
nfds_of-le (negsuc n) = omega arith

module _ {W : Type 0} ⦃b : Bridge W⦄ where
  -- The mask that a round sees for a descriptor, and the state after.
  unfoldable pub look : ℕ → FdSets → State W → ℕ × State W
  look fd f s =
      if requested f.readfds fd || requested f.writefds fd || requested f.exceptfds fd
      then ak_ready (pos fd) s
      else (0, s)

  pub select_fd-sets :
      (k : Which) (fd n j : ℕ) (f : FdSets) (s : State W)
      → IsFdSets f
      → fd < 256
      → requested (set_of k (select_fd fd (n, f, s)).1) j ≡ (
          if j == fd
          then requested (set_of k f) fd && bit_of k (look fd f s).0
          else requested (set_of k f) j)
  unfolding select_fd look
  select_fd-sets rd fd n j f s h lt = requested-settle _ f.readfds fd j h.0 lt
  select_fd-sets wr fd n j f s h lt = requested-settle _ f.writefds fd j h.1 lt
  select_fd-sets ex fd n j f s h lt = requested-settle _ f.exceptfds fd j h.2 lt

  pub select_fd-count :
      (fd n : ℕ) (f : FdSets) (s : State W)
      → (select_fd fd (n, f, s)).0 ≡ n + hits fd f (look fd f s).0
  unfolding select_fd look
  select_fd-count fd n f s = omega (
    arith,
    settle-hit (bit_1 (look fd f s).0) f.readfds fd,
    settle-hit (bit_2 (look fd f s).0) f.writefds fd,
    settle-hit (bit_4 (look fd f s).0) f.exceptfds fd,
  )

  pub select_fd-IsFdSets :
      (fd n : ℕ) (f : FdSets) (s : State W) → IsFdSets f → IsFdSets (select_fd fd (n, f, s)).1
  unfolding select_fd
  select_fd-IsFdSets fd n f s h =
      (settle-IsSome _ _ fd h.0, settle-IsSome _ _ fd h.1, settle-IsSome _ _ fd h.2)

  pub select_fd-state :
      (fd n : ℕ) (f : FdSets) (s : State W) → (select_fd fd (n, f, s)).2 ≡ (look fd f s).1
  unfolding select_fd look
  select_fd-state fd n f s = refl

  -- Descriptors below `fd` and from `fd + rounds` on are left alone, with no assumption.
  pub select_scan-outside :
      (k : Which) (rounds fd n j : ℕ) (f : FdSets) (s : State W)
      → IsFdSets f
      → fd + rounds ≤ 256
      → (j < fd) ⊎ (fd + rounds ≤ j)
      → requested (set_of k (select_scan rounds fd (n, f, s)).1) j ≡ requested (set_of k f) j
  unfolding select_scan
  select_scan-outside k zero fd n j f s h le out = refl
  select_scan-outside k (suc rounds) fd n j f s h le out =
      select_scan-outside k rounds (fd + 1) n1 j f1 s1 (select_fd-IsFdSets fd n f s h) (omega arith)
        (omega arith)
      ∙ ground (arith, select_fd-sets k fd n j f s h (omega arith))
    where
      n1 : ℕ
      n1 = (select_fd fd (n, f, s)).0

      f1 : FdSets
      f1 = (select_fd fd (n, f, s)).1

      s1 : State W
      s1 = (select_fd fd (n, f, s)).2

  pub select_scan-IsFdSets :
      (rounds fd n : ℕ) (f : FdSets) (s : State W)
      → IsFdSets f
      → IsFdSets (select_scan rounds fd (n, f, s)).1
  unfolding select_scan
  select_scan-IsFdSets zero fd n f s h = h
  select_scan-IsFdSets (suc rounds) fd n f s h =
      let p = select_fd fd (n, f, s) in
      select_scan-IsFdSets rounds (fd + 1) p.0 p.1 p.2 (select_fd-IsFdSets fd n f s h)

  pub le-select_scan :
      (rounds fd n : ℕ) (f : FdSets) (s : State W) → n ≤ (select_scan rounds fd (n, f, s)).0
  unfolding select_scan
  le-select_scan zero fd n f s = omega arith
  le-select_scan (suc rounds) fd n f s =
      let p = select_fd fd (n, f, s) in
      omega (arith, select_fd-count fd n f s, le-select_scan rounds (fd + 1) p.0 p.1 p.2)
