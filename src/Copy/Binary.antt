-- ===== src/Copy/Binary.antt =====
-- `_format_row_binary` and `_parse_row_binary` of psycopg3/psycopg3/copy.py.
pub mod RoundTrip
use psycopg.Prelude.{
  ℕ, zero, suc, ◌+◌, ◌-◌, ◌*◌, ◌/◌, ◌%◌, ◌<◌, Bool, true, false, Option, none, some, List, [], ◌∷◌,
  ◌++◌, Bytes, length, take, drop, ltb, if◌then◌else◌,
}
use psycopg.Prelude.Int.{ℤ, pos, negsuc, signed}
use psycopg.Copy.Text.{Row}

-- struct.Struct("!h").pack and struct.Struct("!i").pack of a length; `none` is struct.error.
unfoldable pub pack_int2 : ℕ → Option Bytes
pack_int2 n = if ltb n 32768 then some (n / 256 ∷ n % 256 ∷ []) else none

unfoldable pub pack_int4 : ℕ → Option Bytes
pack_int4 n =
    if ltb n 2147483648
    then some (n / 16777216 ∷ n / 65536 % 256 ∷ n / 256 % 256 ∷ n % 256 ∷ [])
    else none

-- struct.Struct("!h").unpack_from and struct.Struct("!i").unpack_from, at the start of the bytes.
unfoldable pub unpack_int2 : Bytes → Option ℤ
unfolding signed
unpack_int2 (a ∷ b ∷ _) = some (signed 32768 65536 (a * 256 + b))
unpack_int2 _ = none

unfoldable pub unpack_int4 : Bytes → Option ℤ
unfolding signed
unpack_int4 (a ∷ b ∷ c ∷ d ∷ _) =
    some (signed 2147483648 4294967296 (a * 16777216 + b * 65536 + c * 256 + d))
unpack_int4 _ = none

abbrev pub binary_null : Bytes
binary_null = 255 ∷ 255 ∷ 255 ∷ 255 ∷ []

-- What is left in the buffer, and whether struct.error was raised on the way.
pub record Written : Type 0 where
  pub out : Bytes
  pub raised : Bool

unfoldable pub write_packed : Bytes → Option Bytes → Bytes → (Bytes → Written) → Written
write_packed out none b next = record { out = out; raised = true }
write_packed out (some p) b next = next (out ++ (p ++ b))

unfoldable pub format_items_binary : Row → Bytes → Written
unfolding write_packed pack_int4
format_items_binary [] out = record { out = out; raised = false }
format_items_binary (none ∷ row) out = format_items_binary row (out ++ binary_null)
format_items_binary (some b ∷ row) out =
    write_packed out (pack_int4 (length b)) b (format_items_binary row)

unfoldable pub format_row_binary : Row → Bytes → Written
unfolding write_packed pack_int2 format_items_binary
format_row_binary row out = write_packed out (pack_int2 (length row)) [] (format_items_binary row)

abbrev pub cons_row : Option Bytes → Option Row → Option Row
cons_row item none = none
cons_row item (some row) = some (item ∷ row)

-- The loop over the fields, on the bytes from `pos` on; `none` is struct.error.
unfoldable pub parse_fields : ℕ → Bytes → Option Row
unfolding unpack_int4
parse_fields zero rest = some []
parse_fields (suc n) rest = elim (unpack_int4 rest) [
  | none ↦ none
  | some (negsuc k) ↦ cons_row none (parse_fields n (drop 4 rest))
  | some (pos k) ↦ cons_row (some (take k (drop 4 rest))) (parse_fields n (drop k (drop 4 rest)))
]

unfoldable pub parse_row_binary : Bytes → Option Row
unfolding unpack_int2 parse_fields
parse_row_binary s = elim (unpack_int2 s) [
  | none ↦ none
  | some (negsuc k) ↦ some []
  | some (pos n) ↦ parse_fields n (drop 2 s)
]
