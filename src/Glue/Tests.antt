-- ===== src/Glue/Tests.antt =====
-- Instances of the theorems at concrete inputs.
use aegir.Prelude.{
  ◌≤◌, ◌<◌, ◌%◌, get_elem?, ℕ, zero, suc, ◌+◌, false, none, some, [], ◌∷◌, ◌≡◌, refl, arith, ◌==◌,
  if◌then◌else◌,
}
use aegir.Prelude.Loop.{Ends}
use aegir.Glue.Types.{Glue}
use aegir.Glue.Toy.{answer, talking, addressed}
use aegir.Glue.Hairpin.{aknet_output, aknet_hairpin_drain, drain_turn, waiting}
use aegir.Glue.Hairpin.Queue.{IsQueue, Answers, Rounds, hairpin-IsQueue}
use aegir.Glue.Hairpin.Drain.{
  Calls, nothing, output, inside, IsInput, Emptied, aknet_hairpin_drain-Ends,
}
use aegir.Glue.Services.{aknet_set_addr, aknet_get_addr}
use aegir.Glue.Services.Laws.{IsNetif, aknet_get_addr-aknet_set_addr}
use aegir.Glue.Listen.{aknet_listen_find}
use aegir.Glue.Listen.Laws.{IsMap, Deletes, Adds, aknet_listen_find_after}

answer-Calls : (n : ℕ) (s : Glue ℕ ℕ ℕ) → Calls s (answer n s)
unfolding aknet_output
answer-Calls zero s = nothing
answer-Calls (suc n) s = output 7 0x0A00020F (record s { lwip = n }) (inside n s nothing)

answer_settles :
    (n : ℕ) (s : Glue ℕ ℕ ℕ)
    → s.lwip ≡ n
    → waiting (answer n s) + (answer n s).lwip ≤ waiting s + s.lwip
unfolding aknet_output waiting
answer_settles zero s e = omega arith
answer_settles (suc n) s e = ground (arith, e)

talking-IsInput : IsInput ℕ ℕ (λ w. w)
talking-IsInput = record {
  calls = λ p s. answer-Calls s.lwip s;
  settles = λ p s. answer_settles s.lwip s refl;
  frees = λ p w. refl;
}

-- One packet waits, just before the counters wrap around, and five answers will follow.
abbrev one_waiting : Glue ℕ ℕ ℕ
one_waiting = record {
  aknet_hq = λ i. if i == 15 then some 7 else none;
  aknet_hq_head = 4294967295;
  aknet_hq_tail = 0;
  aknet_hq_draining = false;
  aknet_listen_pcbs = (record { id = 4; pcb = 104 }) ∷ [];
  lwip = 5;
}

first_slot : (i : ℕ) → i < 1 → one_waiting.aknet_hq ((4294967295 + i) % 16) ≡ get_elem? (7 ∷ []) i
first_slot zero lt = refl
first_slot (suc i) lt = absurd (omega arith)

one_waiting-IsQueue : IsQueue one_waiting (7 ∷ [])
one_waiting-IsQueue = record {
  head = omega arith;
  tail = refl;
  room = omega arith;
  slots = λ i lt. first_slot i lt;
}

hairpin-IsQueue_example :
    Answers 9 0x0A00020F one_waiting (7 ∷ []) (aknet_output 9 0x0A00020F one_waiting)
    × Rounds (7 ∷ []) one_waiting (drain_turn one_waiting)
hairpin-IsQueue_example = hairpin-IsQueue 9 0x0A00020F one_waiting (7 ∷ []) one_waiting-IsQueue

aknet_hairpin_drain-Ends_example : Ends Emptied (aknet_hairpin_drain 20 one_waiting)
aknet_hairpin_drain-Ends_example =
    aknet_hairpin_drain-Ends (λ w. w) talking-IsInput 20 one_waiting (7 ∷ []) one_waiting-IsQueue
      refl (omega arith)

distinct : IsMap one_waiting.aknet_listen_pcbs
unfolding IsMap aknet_listen_find
distinct = (refl, tt)

aknet_listen_find_after_example :
    Deletes 4 6 one_waiting.aknet_listen_pcbs × Adds 6 6 106 one_waiting
unfolding aknet_listen_find
aknet_listen_find_after_example = aknet_listen_find_after 4 6 6 106 one_waiting distinct refl

addressed-IsNetif : IsNetif ℕ ℕ (ℕ × ℕ) ⦃l = addressed⦄
addressed-IsNetif = record { order = λ a h. refl; address = λ a g w. refl; gateway = λ a g w. refl }

abbrev unset_address : Glue ℕ ℕ (ℕ × ℕ)
unset_address = record {
  aknet_hq = λ i. none;
  aknet_hq_head = 0;
  aknet_hq_tail = 0;
  aknet_hq_draining = false;
  aknet_listen_pcbs = [];
  lwip = (0, 0);
}

aknet_get_addr-aknet_set_addr_example :
    aknet_get_addr ⦃l = addressed⦄
      (aknet_set_addr ⦃l = addressed⦄ 0x0A00020F 0x0A000202 unset_address)
    ≡ (0x0A00020F, 0x0A000202)
aknet_get_addr-aknet_set_addr_example =
    aknet_get_addr-aknet_set_addr ⦃l = addressed⦄ addressed-IsNetif 0x0A00020F 0x0A000202
      unset_address (omega arith) (omega arith)
