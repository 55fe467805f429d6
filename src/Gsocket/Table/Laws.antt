-- ===== src/Gsocket/Table/Laws.antt =====
-- Laws of the fd table.
use aegir.Prelude.{
  ℕ, zero, suc, ◌+◌, ◌≤◌, ◌<◌, ℤ, pos, negsuc, true, false, Option, none, some, ◌≡◌, refl, arith,
  Option-cases, Bool-cases, inl, inr,
}
use native.Mathlib.Decide.{ℕ_discrete}
use aegir.Gsocket.Errno.{emfile}
use aegir.Gsocket.Types.{State, put, sock}
use aegir.Gsocket.Table.{ak_get, get_sock, find_free, ak_alloc, fresh_sock}

module _ {W : Type 0} where
  -- What `ak_get` finds lies in the table and is in use.
  pub ak_get_sound :
      (s : State W) (fd : ℤ) {i : ℕ}
      → ak_get s fd ≡ some i
      → (fd ≡ pos i) × (3 ≤ i) × (i < 256) × ((s.ak_fds i).used ≡ true)
  unfolding ak_get
  ak_get_sound s (negsuc n) e = ground arith
  ak_get_sound s (pos n) e = ground arith

  pub ak_get_complete :
      (s : State W) (i : ℕ) → 3 ≤ i → i < 256 → (s.ak_fds i).used ≡ true → ak_get s (pos i) ≡ some i
  unfolding ak_get
  ak_get_complete s i lo hi u = ground arith

  pub get_sock_sound :
      (s : State W) (fd : ℤ) {i : ℕ}
      → get_sock s fd ≡ some i
      → (ak_get s fd ≡ some i) × ((s.ak_fds i).kind ≡ sock)
  unfolding get_sock
  get_sock_sound s (negsuc n) e = ground arith
  get_sock_sound s (pos n) e = ground arith

  -- A socket that is in use.
  pub record IsOpen (s : State W) (i : ℕ) : Type 0 where
    pub lower : 3 ≤ i
    pub upper : i < 256
    pub used : (s.ak_fds i).used ≡ true
    pub kind : (s.ak_fds i).kind ≡ sock

  pub get_sock-IsOpen :
      (s : State W) (fd : ℤ) (i : ℕ) → get_sock s fd ≡ some i → (fd ≡ pos i) × IsOpen s i
  get_sock-IsOpen s fd i e =
      let (g, k) = get_sock_sound s fd {i = i} e in
      let (p, lo, hi, u) = ak_get_sound s fd {i = i} g in
      (p, record { lower = lo; upper = hi; used = u; kind = k })

  pub IsOpen-get_sock : (s : State W) (i : ℕ) → IsOpen s i → get_sock s (pos i) ≡ some i
  unfolding get_sock
  IsOpen-get_sock s i o = ground (arith, ak_get_complete s i o.lower o.upper o.used, o.kind)

  -- The search stops at the first free entry.
  record Free (s : State W) (from to i : ℕ) : Type 0 where
    lower : from ≤ i
    upper : i < to
    unused : (s.ak_fds i).used ≡ false
    first : (j : ℕ) → from ≤ j → j < i → (s.ak_fds j).used ≡ true

  find_free-Free :
      (s : State W) (rounds fd i : ℕ) → find_free s rounds fd ≡ some i → Free s fd (fd + rounds) i
  unfolding find_free
  find_free-Free s zero fd i e = cc
  find_free-Free s (suc rounds) fd i e = elim (Bool-cases (s.ak_fds fd).used) [
    | inl u ↦
        let f = find_free-Free s rounds (fd + 1) i (rw u at e) in
        record {
          lower = omega arith;
          upper = omega arith;
          unused = f.unused;
          first = λ j lo hi. elim (ℕ_discrete j fd) [
            | yes q ↦ rw q u
            | no q ↦ f.first j (omega arith) hi
          ];
        }
    | inr u ↦
        let q : fd ≡ i = ground arith in
        record {
          lower = omega arith;
          upper = omega arith;
          unused = rw (← q) u;
          first = λ j lo hi. absurd (omega arith);
        }
  ]

  find_free-none :
      (s : State W) (rounds fd j : ℕ)
      → find_free s rounds fd ≡ none
      → fd ≤ j
      → j < fd + rounds
      → (s.ak_fds j).used ≡ true
  unfolding find_free
  find_free-none s zero fd j e lo hi = absurd (omega arith)
  find_free-none s (suc rounds) fd j e lo hi = elim (ℕ_discrete j fd) [
    | yes q ↦ rw q (ground arith)
    | no q ↦ find_free-none s rounds (fd + 1) j (ground arith) (omega arith) (omega arith)
  ]

  -- What a call of `ak_alloc` at `s` has done, by what it returns.
  abbrev pub Allocated : State W → Option ℕ × State W → Type 0
  Allocated s (some i, s') =
      (3 ≤ i)
      × (i < 256)
      × ((s.ak_fds i).used ≡ false)
      × ((j : ℕ) → 3 ≤ j → j < i → (s.ak_fds j).used ≡ true)
      × (s' ≡ put i fresh_sock s)
  Allocated s (none, s') =
      ((j : ℕ) → 3 ≤ j → j < 256 → (s.ak_fds j).used ≡ true) × (s' ≡ record s { errno = emfile })

  -- `ak_alloc` takes the lowest free descriptor of the table, resets its entry and marks it used,
  -- and changes nothing else; where it returns none, every descriptor is in use and it has only set
  -- errno to EMFILE.
  pub ak_alloc-Allocated : (s : State W) → Allocated s (ak_alloc s)
  unfolding ak_alloc
  ak_alloc-Allocated s = elim (Option-cases (find_free s 253 3)) [
    | inl q ↦ rw (q, ak_alloc) (λ j lo hi. find_free-none s 253 3 j q lo (omega arith), refl)
    | inr (k, q) ↦
        let f = find_free-Free s 253 3 k q in
        rw (q, ak_alloc) (f.lower, f.upper, f.unused, f.first, refl)
  ]
