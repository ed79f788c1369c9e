-- ===== src/Copy/Accelerated/Binary.antt =====
-- `format_row_binary` and `parse_row_binary` of psycopg3_c/psycopg3_c/_psycopg3/copy.pyx. Both kinds of
-- dumper leave the bytes of an item in the buffer, so an item is its bytes.
pub mod Same
use psycopg.Prelude.{
  ℕ, zero, suc, ◌+◌, ◌*◌, ◌/◌, ◌%◌, Bool, true, false, Option, none, some, List, [], ◌∷◌, ◌++◌,
  Bytes, length, take, drop, ltb, if◌then◌else◌,
}
use psycopg.Prelude.Equality.{◌===◌, nat_eq, list_eq}
use psycopg.Copy.Text.{Row}

-- endian.htobe16 and endian.htobe32 of a Py_ssize_t, which their uint16_t and uint32_t cut off.
unfoldable pub htobe16 : ℕ → Bytes
htobe16 n = let u = n % 65536 in u / 256 ∷ u % 256 ∷ []

unfoldable pub htobe32 : ℕ → Bytes
htobe32 n = let u = n % 4294967296 in u / 16777216 ∷ u / 65536 % 256 ∷ u / 256 % 256 ∷ u % 256 ∷ []

-- The bytes of the int32_t -1.
abbrev pub binary_null : Bytes
binary_null = 255 ∷ 255 ∷ 255 ∷ 255 ∷ []

unfoldable pub format_items : Row → Bytes → Bytes
unfolding htobe32
format_items [] out = out
format_items (none ∷ row) out = format_items row (out ++ binary_null)
format_items (some b ∷ row) out = format_items row (out ++ (htobe32 (length b) ++ b))

unfoldable pub format_row_binary : Row → Bytes → Bytes
unfolding htobe16 format_items
format_row_binary row out = format_items row (out ++ htobe16 (length row))

-- A row; the error of the one check; or a read behind the data, which is not checked for.
pub data Parsed : Type 0 where
  row : Row → Parsed
  length_exceeding_data : Parsed
  read_behind : Parsed

abbrev pub cons_item : Option Bytes → Parsed → Parsed
cons_item item (row items) = row (item ∷ items)
cons_item item e = e

-- endian.be16toh and endian.be32toh of what stands at the pointer.
unfoldable pub be16toh : Bytes → Option ℕ
be16toh (a ∷ b ∷ _) = some (a * 256 + b)
be16toh _ = none

unfoldable pub be32toh : Bytes → Option ℕ
be32toh (a ∷ b ∷ c ∷ d ∷ _) = some (a * 16777216 + b * 65536 + c * 256 + d)
be32toh _ = none

-- The loop over the fields, on what the data holds from `ptr` on.
unfoldable pub parse_fields : ℕ → Bytes → Parsed
unfolding be32toh
parse_fields zero s = row []
parse_fields (suc n) s = elim (be32toh s) [
  | none ↦ read_behind
  | some k ↦
      let null = cons_item none (parse_fields n (drop 4 s)) in
      let field = cons_item (some (take k (drop 4 s))) (parse_fields n (drop k (drop 4 s))) in
      if take 4 s === binary_null
      then null
      else if ltb (length (drop 4 s)) k
      then length_exceeding_data
      else field
]

unfoldable pub parse_row_binary : Bytes → Parsed
unfolding be16toh parse_fields
parse_row_binary s = elim (be16toh s) [ none ↦ read_behind | some n ↦ parse_fields n (drop 2 s) ]
