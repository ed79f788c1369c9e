-- ===== src/Prelude/Decimal.antt =====
-- Python's `%d` and `str` of a natural number, as bytes, and its inverse.
use Prim.Native.Nat.{ℕ, zero, suc, ◌+◌, ◌-◌, ◌*◌, ◌/◌, ◌%◌, ◌≤◌}
use mathlib.Core.Path.{◌≡◌, refl, ap, sym, ◌∙◌}
use mathlib.Core.Logic.{inl, inr}
use mathlib.Core.List.{[], ◌∷◌, ◌++◌}
use native.Mathlib.Omega.{arith}
use psycopg.Prelude.Tests.{ltb, if◌then◌else◌, Bool-cases}
use psycopg.Prelude.Lists.{Bytes, codes}

-- The digits of `n`, on fuel: `n` itself is always enough.
decimal_fuel : ℕ → ℕ → Bytes
decimal_fuel zero n = (48 + n % 10) ∷ []
decimal_fuel (suc f) n =
    let rest = decimal_fuel f (n / 10) in
    if ltb n 10 then (48 + n) ∷ [] else rest ++ (48 + n % 10) ∷ []

unfoldable pub decimal : ℕ → Bytes
unfolding decimal_fuel
decimal n = decimal_fuel n n

-- The number that a text of digits stands for, read from the left.
pub number_from : ℕ → Bytes → ℕ
number_from acc [] = acc
number_from acc (c ∷ s) = number_from (acc * 10 + (c - 48)) s

number_from-append :
    (acc : ℕ) (s t : Bytes) → number_from acc (s ++ t) ≡ number_from (number_from acc s) t
unfolding number_from
number_from-append acc [] t = refl
number_from-append acc (c ∷ s) t = number_from-append (acc * 10 + (c - 48)) s t

number_from-decimal_fuel : (f n : ℕ) → n ≤ f → number_from 0 (decimal_fuel f n) ≡ n
unfolding decimal_fuel number_from
number_from-decimal_fuel zero n h = omega arith
number_from-decimal_fuel (suc f) n h = elim (Bool-cases (ltb n 10)) [
  | inl small ↦ rw small (omega arith)
  | inr large ↦ rw large (
      number_from-append 0 (decimal_fuel f (n / 10)) ((48 + n % 10) ∷ [])
      ∙ ground (arith, number_from-decimal_fuel f (n / 10)))
]

pub number_from-decimal : (n : ℕ) → number_from 0 (decimal n) ≡ n
unfolding decimal
number_from-decimal n = number_from-decimal_fuel n n (omega arith)

pub decimal-injective : (m n : ℕ) → decimal m ≡ decimal n → m ≡ n
decimal-injective m n h = sym (number_from-decimal m) ∙ ap (number_from 0) h ∙ number_from-decimal n

decimal_of_1205 : decimal 1205 ≡ codes "1205"
unfolding decimal
decimal_of_1205 = refl
