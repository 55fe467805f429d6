-- ===== src/Glue/Listen/Laws.antt =====
-- The list of listening pcbs, `aknet_listen_find`, `_add` and `_del`, is a finite map.
use aegir.Prelude.{
  ℕ, ◌&&◌, Bool-cases, inl, inr, none, some, List, [], ◌∷◌, ◌≡◌, refl, arith, ◌==◌, if◌then◌else◌,
}
use aegir.Glue.Types.{ListenEnt, Glue, Lwip}
use aegir.Glue.Listen.{aknet_listen_find, aknet_listen_del, aknet_listen_add}

module _ {Pcb : Type 0} where
  -- No two entries have the same id.
  unfoldable pub IsMap : List (ListenEnt Pcb) → Type 0
  IsMap [] = Unit
  IsMap (e ∷ l) = (aknet_listen_find e.id l ≡ none) × IsMap l

  find-del :
      (id j : ℕ) (l : List (ListenEnt Pcb))
      → IsMap l
      → aknet_listen_find j (aknet_listen_del id l)
        ≡ (if j == id then none else aknet_listen_find j l)
  unfolding IsMap aknet_listen_find aknet_listen_del
  find-del id j [] m = ground arith
  find-del id j (e ∷ l) m = ground (arith, find-del id j l m.1)

  IsMap-del : (id : ℕ) (l : List (ListenEnt Pcb)) → IsMap l → IsMap (aknet_listen_del id l)
  unfolding IsMap aknet_listen_del
  IsMap-del id [] m = m
  IsMap-del id (e ∷ l) m = ground (arith, find-del id e.id l m.1, IsMap-del id l m.1)

  -- What a lookup finds after deleting `id`.
  abbrev pub Deletes : ℕ → ℕ → List (ListenEnt Pcb) → Type 0
  Deletes id j xs =
      (aknet_listen_find j (aknet_listen_del id xs)
        ≡ (if j == id then none else aknet_listen_find j xs))
      × IsMap (aknet_listen_del id xs)

module _ {Pbuf Pcb W : Type 0} ⦃l : Lwip Pbuf Pcb W⦄ where
  -- What a lookup finds after adding a listener `new`.
  abbrev pub Adds : ℕ → ℕ → Pcb → Glue Pbuf Pcb W → Type 0
  Adds new j pcb s =
      let ok = (l.malloc s.lwip).0 in
      let after = (aknet_listen_add new pcb s).aknet_listen_pcbs in
      (aknet_listen_find j after
        ≡ (if ok && j == new then some pcb else aknet_listen_find j s.aknet_listen_pcbs))
      × IsMap after

  listen-Adds :
      (new j : ℕ) (pcb : Pcb) (s : Glue Pbuf Pcb W)
      → IsMap s.aknet_listen_pcbs
      → aknet_listen_find new s.aknet_listen_pcbs ≡ none
      → Adds new j pcb s
  unfolding IsMap aknet_listen_find aknet_listen_add
  listen-Adds new j pcb s m h = elim (Bool-cases (l.malloc s.lwip).0) [
    | inl e ↦ rw e (ground arith, (h, m))
    | inr e ↦ rw e (refl, m)
  ]

  -- Where no two listeners have the same id: deleting an id makes that id unknown and no other; adding a
  -- listener under an id that is not known makes that id find its pcb, if there was memory for the
  -- entry, and changes no other; and the ids are distinct after either.
  pub aknet_listen_find_after :
      (id new j : ℕ) (pcb : Pcb) (s : Glue Pbuf Pcb W)
      → IsMap s.aknet_listen_pcbs
      → aknet_listen_find new s.aknet_listen_pcbs ≡ none
      → Deletes id j s.aknet_listen_pcbs × Adds new j pcb s
  aknet_listen_find_after id new j pcb s m h = (
    (find-del id j s.aknet_listen_pcbs m, IsMap-del id s.aknet_listen_pcbs m),
    listen-Adds new j pcb s m h,
  )
