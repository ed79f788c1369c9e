-- ===== src/Copy/Accelerated/Parse.antt =====
-- `parse_row_text` of psycopg3_c/psycopg3_c/_psycopg3/copy.pyx. A pointer into the data is what the
-- data holds from there on.
pub mod Steps
pub mod Bounds
pub mod RoundTrip
use psycopg.Prelude.{
  ℕ, zero, suc, Bool, true, false, ◌&&◌, ◌||◌, not, Option, none, some, List, [], ◌∷◌, Bytes, ◌==◌,
  if◌then◌else◌,
}
use psycopg.Prelude.Equality.{◌===◌, nat_eq, list_eq}
use psycopg.Copy.Text.{Row}

-- What an escaped byte stands for.
unfoldable pub copy_unescape_lut : ℕ → ℕ
copy_unescape_lut l =
    if l == b'b'
    then 8
    else if l == b't'
    then 9
    else if l == b'n'
    then 10
    else if l == b'v'
    then 11
    else if l == b'f'
    then 12
    else if l == b'r'
    then 13
    else l

-- The loop that looks for the end of a field: the bytes from `fstart` to `fend`, `num_bs`, and what
-- stands at `fend`, which is nothing where the loop has come to `rowend` or one byte past it.
pub record Scanned : Type 0 where
  pub field : Bytes
  pub num_bs : ℕ
  pub at_end : Bytes

abbrev pub push : ℕ → Scanned → Scanned
push c r = record r { field = c ∷ r.field }

abbrev pub push_escaped : ℕ → ℕ → Scanned → Scanned
push_escaped c d r = record r { field = c ∷ d ∷ r.field; num_bs = suc r.num_bs }

unfoldable pub scan : Bytes → Scanned
scan [] = record { field = []; num_bs = 0; at_end = [] }
scan (c ∷ []) =
    if c == 9 || c == 10
    then record { field = []; num_bs = 0; at_end = c ∷ [] }
    else if c == 92
    then record { field = c ∷ []; num_bs = 1; at_end = [] }
    else record { field = c ∷ []; num_bs = 0; at_end = [] }
scan (c ∷ d ∷ s) =
    let plain = push c (scan (d ∷ s)) in
    let escaped = push_escaped c d (scan s) in
    if c == 9 || c == 10
    then record { field = []; num_bs = 0; at_end = c ∷ d ∷ s }
    else if c == 92
    then escaped
    else plain

-- The loop that copies a field without its backslashes. No field that is read ends in a backslash
-- with nothing behind it.
unfoldable pub unescape : Bytes → Bytes
unfolding copy_unescape_lut
unescape [] = []
unescape (c ∷ []) = c ∷ []
unescape (c ∷ d ∷ s) =
    let plain = c ∷ unescape (d ∷ s) in
    let escaped = copy_unescape_lut d ∷ unescape s in if not (c == 92) then plain else escaped

unfoldable pub load_field : Scanned → Option Bytes
unfolding unescape
load_field r =
    if r.field === (92 ∷ b'N' ∷ [])
    then none
    else if r.num_bs == 0
    then some r.field
    else some (unescape r.field)

-- A row, or one of the three errors.
pub data Parsed : Type 0 where
  row : Row → Parsed
  delimiter_not_found : Parsed
  tab_at_end : Parsed
  newline_before_end : Parsed

abbrev pub cons_item : Option Bytes → Parsed → Parsed
cons_item item (row items) = row (item ∷ items)
cons_item item e = e

-- The checks on why the loop stopped. `left` is how many fields come after this one.
unfoldable pub check_end : Bytes → ℕ → (Bytes → Parsed) → Parsed
check_end [] left next = delimiter_not_found
check_end (c ∷ s) left next =
    if c == 9 && left == 0
    then tab_at_end
    else if c == 10 && not (left == 0)
    then newline_before_end
    else next s

unfoldable pub parse_fields : ℕ → Bytes → Parsed
unfolding scan load_field check_end
parse_fields zero s = row []
parse_fields (suc left) s =
    let r = scan s in
    check_end r.at_end left (λ rest. cons_item (load_field r) (parse_fields left rest))

-- `nfields` is what the result says that a row has.
unfoldable pub parse_row_text : ℕ → Bytes → Parsed
unfolding parse_fields
parse_row_text nfields s = parse_fields nfields s
