-- ===== src/Prelude/Bits.antt =====
-- Lists of bytes, and facts about all bytes by evaluation.
use Prim.Native.Nat.{ℕ, zero, suc, ◌<◌}
use mathlib.Core.Path.{◌≡◌}
use mathlib.Core.Bool.{Bool, true, ◌&&◌}
use mathlib.Core.List.{List, [], ◌∷◌}
use native.Mathlib.Decide.{ℕ_discrete}
use native.Mathlib.Omega.{arith}

-- A test that is passed by each of the first `k` numbers.
unfoldable pub passes : (ℕ → Bool) → ℕ → Bool
passes test zero = true
passes test (suc k) = passes test k && test k

pub test-passes : (test : ℕ → Bool) (k : ℕ) {x : ℕ} → x < k → passes test k ≡ true → test x ≡ true
unfolding passes
test-passes test zero lt e = elim lt [ ]
test-passes test (suc k) {x} lt e = elim (ℕ_discrete x k) [
  | yes q ↦ rw q (ground arith)
  | no q ↦ test-passes test k (omega arith) (ground arith)
]

abbrev pub AllBytes : List ℕ → Type 0
AllBytes [] = Unit {0}
AllBytes (x ∷ xs) = (x < 256) × AllBytes xs
