-- ===== src/Prelude/Int.antt =====
-- Whole numbers, and the reading of a word in two's complement.
use Prim.Native.Nat.{ℕ, ◌-◌, ◌<◌}
use mathlib.Core.Path.{◌≡◌}
use psycopg.Prelude.Tests.{ltb, lt→ltb, if◌then◌else◌}

-- `negsuc n` is -(n + 1).
pub data ℤ : Type 0 where
  pos : ℕ → ℤ
  negsuc : ℕ → ℤ

-- The word `v` of the numbers below `modulus`, signed, where `half` is half the modulus.
unfoldable pub signed : ℕ → ℕ → ℕ → ℤ
signed half modulus v = if ltb v half then pos v else negsuc (modulus - v - 1)

pub signed-pos : (half modulus v : ℕ) → v < half → signed half modulus v ≡ pos v
unfolding signed
signed-pos half modulus v h = rw (lt→ltb v half h)
