-- ===== src/Queries/Defs.antt =====
-- The data of psycopg3/psycopg3/_queries.py, its errors and its instances of equality.
use psycopg.Prelude.{ℕ, Bytes, Bool, true, false}
use psycopg.Prelude.Equality.{Eq, nat_eq, list_eq}

-- The formats that a placeholder asks for (psycopg3/psycopg3/_enums.py).
pub data Format : Type 0 where
  auto text binary : Format

-- Union[int, str]
pub data Item : Type 0 where
  index : ℕ → Item
  name : Bytes → Item

pub record QueryPart : Type 0 where
  pub pre : Bytes
  pub item : Item
  pub format : Format

-- What an exception says; the class of the exception is the constructor of `Error`.
pub data Reason : Type 0 where
  incomplete_placeholder percent_as_operator bad_placeholder mixed_placeholders : Reason
  different_formats missing_parameter : Reason
  wrong_count : ℕ → ℕ → Reason
  needs_mapping needs_sequence bad_params : Reason

pub data Error : Type 0 where
  programming_error type_error : Reason → Error
  assertion_error : Error

pub data Result {ℓ} (A : Type ℓ) : Type ℓ where
  ok : A → Result A
  err : Error → Result A

infixl 5 ◌>>=◌
abbrev pub ◌>>=◌ {ℓ κ} : {A : Type ℓ} {B : Type κ} → Result A → (A → Result B) → Result B
ok a >>= f = f a
err e >>= f = err e

instance unfoldable pub bytes_eq : Eq Bytes
bytes_eq = list_eq

abbrev pub format_beq : Format → Format → Bool
format_beq auto auto = true
format_beq text text = true
format_beq binary binary = true
format_beq _ _ = false
