-- ===== src/Gsocket/Addrinfo/Heap.antt =====
-- The heap blocks of the getaddrinfo family: none is lost on any path.
use aegir.Prelude.{
  ℕ, ◌+◌, ◌-◌, ◌*◌, ℤ, pos, true, Option, none, some, List, [], ◌∷◌, ◌++◌, length, length-append,
  ◌≡◌, ◌≢◌, refl, arith, Option-cases, inl, inr, ◌⊎◌,
}
use aegir.Gsocket.Types.{State, Bridge, ak_ensure_net}
use aegir.Gsocket.Netdb.{ak_dns_query}
use aegir.Gsocket.Addrinfo.{
  Addrinfo, ak_mk_addrinfo, freeaddrinfo, add_infos, node_address, getaddrinfo, infos_at, port_of,
  wanted_types, free_if,
}

module _ {W : Type 0} ⦃b : Bridge W⦄ where
  -- Two blocks for an entry, none without.
  abbrev pub Made : ℕ → Option Addrinfo × State W → Type 0
  Made live (none, s) = s.live ≡ live
  Made live (some ai, s) = s.live ≡ live + 2

  ak_mk_addrinfo-Made :
      (ip port socktype protocol flags : ℕ) (s : State W)
      → Made s.live (ak_mk_addrinfo ip port socktype protocol flags s)
  unfolding ak_mk_addrinfo
  ak_mk_addrinfo-Made ip port socktype protocol flags s = ground arith

  live-freeaddrinfo :
      (l : List Addrinfo) (s : State W) → (freeaddrinfo l s).live ≡ s.live - 2 * length l
  unfolding freeaddrinfo
  live-freeaddrinfo [] s = omega arith
  live-freeaddrinfo (ai ∷ l) s = omega (arith, live-freeaddrinfo l (free_if true (free_if true s)))

  live-node_address :
      (node : Option (List ℕ)) (flags : ℕ) (s : State W)
      → (node_address node flags s).1.live ≡ s.live
  unfolding node_address ak_dns_query ak_ensure_net
  live-node_address none flags s = refl
  live-node_address (some []) flags s = refl
  live-node_address (some (c ∷ t)) flags s = ground arith

  -- What a call that began with `live` blocks has done: the list that it hands out accounts for every
  -- block taken, and there is none on failure.
  abbrev pub Accounts : ℕ → ℤ × List Addrinfo × State W → Type 0
  Accounts live (code, res, s) = (s.live ≡ live + 2 * length res) × (code ≢ pos 0 → res ≡ [])

  add_infos-Accounts :
      (wanted : List (ℕ × ℕ)) (ip port flags live : ℕ) (head : List Addrinfo) (s : State W)
      → s.live ≡ live + 2 * length head
      → Accounts live (add_infos wanted ip port flags head s)
  unfolding add_infos
  add_infos-Accounts [] ip port flags live head s e = (e, λ h. absurd (h refl))
  add_infos-Accounts ((t, p) ∷ wanted) ip port flags live head s e = elim (Option-cases made) [
    | inl q ↦
        let m : made_state.live ≡ s.live = rw q at (made_lem) in
        rw (q, add_infos) (omega (arith, live-freeaddrinfo head made_state, m), λ _. refl)
    | inr (ai, q) ↦
        let m : made_state.live ≡ s.live + 2 = rw q at (made_lem) in
        rw (q, add_infos)
          (add_infos-Accounts wanted ip port flags live (head ++ ai ∷ []) made_state
            (omega (arith, m, e, length-append head (ai ∷ []))))
  ]
    where
      made : Option Addrinfo
      made = (ak_mk_addrinfo ip port t p flags s).0

      made_state : State W
      made_state = (ak_mk_addrinfo ip port t p flags s).1

      made_lem : Made s.live (made, made_state)
      made_lem = ak_mk_addrinfo-Made ip port t p flags s

  infos_at-Accounts :
      (address : ℕ ⊎ ℤ) (port : Option ℕ) (socktype flags live : ℕ) (s : State W)
      → s.live ≡ live
      → Accounts live (infos_at address port socktype flags s)
  unfolding infos_at
  infos_at-Accounts (inr e) port socktype flags live s h = (omega arith, λ _. refl)
  infos_at-Accounts (inl ip) none socktype flags live s h = (omega arith, λ _. refl)
  infos_at-Accounts (inl ip) (some port) socktype flags live s h =
      add_infos-Accounts (wanted_types socktype) ip port flags live [] s (omega arith)

  getaddrinfo-Accounts :
      (node service : Option (List ℕ)) (family socktype flags : ℕ) (s : State W)
      → Accounts s.live (getaddrinfo node service family socktype flags s)
  unfolding getaddrinfo
  getaddrinfo-Accounts node service family socktype flags s =
      let p = node_address node flags s in
      ground (
        arith,
        infos_at-Accounts p.0 (port_of service) socktype flags s.live p.1
            (live-node_address node flags s),
      )

  -- On every path of `getaddrinfo`, whatever blocks the heap refuses, the blocks in use grow by two
  -- for each entry of the list handed out, a failure hands out no entry, and `freeaddrinfo` of the
  -- list leaves as many blocks in use as there were before the call.
  pub freeaddrinfo-getaddrinfo :
      (node service : Option (List ℕ)) (family socktype flags : ℕ) (s : State W)
      → let out = getaddrinfo node service family socktype flags s in
        Accounts s.live out × ((freeaddrinfo out.1 out.2).live ≡ s.live)
  freeaddrinfo-getaddrinfo node service family socktype flags s =
      let out = getaddrinfo node service family socktype flags s in
      let h : Accounts s.live out = getaddrinfo-Accounts node service family socktype flags s in
      (h, omega (arith, live-freeaddrinfo out.1 out.2, h.0))
