-- ===== src/Gsocket/Options/RoundTrip.antt =====
-- What `setsockopt` stores is what `getsockopt` gives.
use aegir.Prelude.{
  ℕ, ℤ, pos, negsuc, eq_ℤ, Bool, true, false, ◌&&◌, none, some, List, [], ◌∷◌, ◌++◌, length, ◌≡◌,
  ◌≢◌, refl, sym, ◌∙◌, arith, Option-cases, Bool-cases, inl, inr, if◌then◌else◌,
}
use aegir.Gsocket.Types.{Opt, State, Bridge, put}
use aegir.Gsocket.Table.{get_sock}
use aegir.Gsocket.Table.Laws.{IsOpen, get_sock-IsOpen, IsOpen-get_sock}
use aegir.Gsocket.Options.{is_opt, is_so_error, find_opt, replace_opt, setsockopt, getsockopt}

eq_ℤ_sound : (a b : ℤ) → eq_ℤ a b ≡ true → a ≡ b
eq_ℤ_sound (pos m) (pos n) e = ground arith
eq_ℤ_sound (pos m) (negsuc n) e = ground arith
eq_ℤ_sound (negsuc m) (pos n) e = ground arith
eq_ℤ_sound (negsuc m) (negsuc n) e = ground arith

eq_ℤ_refl : (a : ℤ) → eq_ℤ a a ≡ true
eq_ℤ_refl (pos m) = ground arith
eq_ℤ_refl (negsuc m) = ground arith

both : (a b : Bool) → a && b ≡ true → (a ≡ true) × (b ≡ true)
both a b e = ground arith

contradictory : true ≢ false
contradictory e = ground arith

-- Whether `(l, n)` is the key `(level, optname)`.
abbrev pub same_key : ℤ → ℤ → ℤ → ℤ → Bool
same_key level optname l n = eq_ℤ level l && eq_ℤ optname n

is_opt-hit :
    (level optname l n : ℤ) (o : Opt)
    → is_opt level optname o ≡ true
    → is_opt l n o ≡ same_key level optname l n
is_opt-hit level optname l n o h =
    let (e, f) = both (eq_ℤ o.level level) (eq_ℤ o.name optname) h in
    rw (eq_ℤ_sound o.level level e, eq_ℤ_sound o.name optname f) refl

is_opt-miss :
    (level optname l n : ℤ) (o : Opt)
    → is_opt level optname o ≡ false
    → is_opt l n o ≡ true
    → same_key level optname l n ≡ false
is_opt-miss level optname l n o h t = elim (Bool-cases (same_key level optname l n)) [
  | inr e ↦ e
  | inl e ↦
      let (e0, e1) = both (eq_ℤ level l) (eq_ℤ optname n) e in
      absurd
        (contradictory (sym t ∙ rw (sym (eq_ℤ_sound level l e0), sym (eq_ℤ_sound optname n e1)) h))
]

find_opt-replace_opt :
    (level optname val l n : ℤ) (opts os : List Opt)
    → replace_opt level optname val opts ≡ some os
    → (find_opt l n os ≡ (if same_key level optname l n then val else find_opt l n opts))
      × (length os ≡ length opts)
unfolding find_opt replace_opt
find_opt-replace_opt level optname val l n [] os e = ground arith
find_opt-replace_opt level optname val l n (o ∷ opts) os e =
    elim (Option-cases (replace_opt level optname val opts)) [
      | inl q ↦
          ground (arith, q, e, is_opt-hit level optname l n o, is_opt-miss level optname l n o)
      | inr (rest, q) ↦ ground (
        arith,
        q,
        e,
        is_opt-hit level optname l n o,
        is_opt-miss level optname l n o,
        find_opt-replace_opt level optname val l n opts rest q,
      )
    ]

find_opt-snoc :
    (level optname val l n : ℤ) (opts : List Opt)
    → replace_opt level optname val opts ≡ none
    → find_opt l n (opts ++ record { level = level; name = optname; val = val } ∷ [])
      ≡ (if same_key level optname l n then val else find_opt l n opts)
unfolding find_opt replace_opt
find_opt-snoc level optname val l n [] e = ground arith
find_opt-snoc level optname val l n (o ∷ opts) e =
    ground (arith, e, is_opt-miss level optname l n o, find_opt-snoc level optname val l n opts)

module _ {W : Type 0} ⦃b : Bridge W⦄ where
  getsockopt_lem :
      (s : State W) (i : ℕ) (l n : ℤ)
      → IsOpen s i
      → is_so_error l n ≡ false
      → getsockopt (pos i) l n s ≡ (pos 0, some (find_opt l n (s.ak_fds i).opts), s)
  unfolding getsockopt
  getsockopt_lem s i l n o h = ground (arith, IsOpen-get_sock s i o)

  abbrev with_opts : ℕ → List Opt → State W → State W
  with_opts i os s = put i (record (s.ak_fds i) { opts = os }) s

  with_opts-IsOpen :
      (i : ℕ) (os : List Opt) (s : State W) → IsOpen s i → IsOpen (with_opts i os s) i
  with_opts-IsOpen i os s o = record {
    lower = o.lower;
    upper = o.upper;
    used = ground (arith, o.used);
    kind = ground (arith, o.kind);
  }

  -- The options of an open socket after a successful call.
  Stored : (i : ℕ) (level optname val : ℤ) (s t : State W) → Type 0
  Stored i level optname val s t =
      (os : List Opt) × (t ≡ with_opts i os s)
      × ((l n : ℤ)
          → find_opt l n os
            ≡ (if same_key level optname l n then val else find_opt l n (s.ak_fds i).opts))

  setsockopt-Stored :
      (i : ℕ) (level optname val : ℤ) (s : State W)
      → IsOpen s i
      → (setsockopt (pos i) level optname val s).0 ≡ pos 0
      → Stored i level optname val s (setsockopt (pos i) level optname val s).1
  unfolding Stored setsockopt
  setsockopt-Stored i level optname val s o e =
      elim (Option-cases (replace_opt level optname val (s.ak_fds i).opts)) [
        | inl q ↦ (
          _,
          ground (arith, IsOpen-get_sock s i o, q, e),
          λ l n. find_opt-snoc level optname val l n (s.ak_fds i).opts q,
        )
        | inr (os, q) ↦ (
          os,
          ground (arith, IsOpen-get_sock s i o, q, e),
          λ l n. (find_opt-replace_opt level optname val l n (s.ak_fds i).opts os q).0,
        )
      ]

  setsockopt_closed :
      (fd level optname val : ℤ) (s : State W)
      → get_sock s fd ≡ none
      → (setsockopt fd level optname val s).0 ≢ pos 0
  unfolding setsockopt
  setsockopt_closed fd level optname val s q e = ground arith

  getsockopt-Stored :
      (i : ℕ) (level optname val l n : ℤ) (s t : State W)
      → IsOpen s i
      → is_so_error l n ≡ false
      → Stored i level optname val s t
      → getsockopt (pos i) l n t
        ≡ (pos 0, if same_key level optname l n then some val else (getsockopt (pos i) l n s).1, t)
  unfolding Stored
  getsockopt-Stored i level optname val l n s t o h (os, q, f) = ground (
    arith,
    q,
    f l n,
    getsockopt_lem s i l n o h,
    getsockopt_lem (with_opts i os s) i l n (with_opts-IsOpen i os s o) h,
  )

  -- After a `setsockopt` that returned 0, `getsockopt` gives the value that was set for that option,
  -- and for every other option but SO_ERROR what it gave before.
  pub getsockopt-setsockopt :
      (fd level optname val l n : ℤ) (s : State W)
      → (setsockopt fd level optname val s).0 ≡ pos 0
      → is_so_error l n ≡ false
      → let t = (setsockopt fd level optname val s).1 in
        getsockopt fd l n t
        ≡ (pos 0, if same_key level optname l n then some val else (getsockopt fd l n s).1, t)
  getsockopt-setsockopt fd level optname val l n s e h = elim (Option-cases (get_sock s fd)) [
    | inl q ↦ absurd (setsockopt_closed fd level optname val s q e)
    | inr (i, q) ↦
        let (p, o) = get_sock-IsOpen s fd i q in
        rw p (
          getsockopt-Stored i level optname val l n s _ o h
            (setsockopt-Stored i level optname val s o (rw p at e)))
  ]
