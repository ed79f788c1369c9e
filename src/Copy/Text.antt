-- ===== src/Copy/Text.antt =====
-- `_format_row_text` and `_parse_row_text` of psycopg3/psycopg3/copy.py.
pub mod RoundTrip
pub mod Framing
use psycopg.Prelude.{
  ℕ, suc, ◌+◌, Bool, true, false, ◌||◌, Option, none, some, List, [], ◌∷◌, ◌++◌, Bytes, codes, ◌==◌,
  if◌then◌else◌, map,
}
use psycopg.Prelude.Equality.{◌===◌, nat_eq, list_eq}

abbrev pub Row : Type 0
Row = List (Option Bytes)

-- `_dump_repl`, by byte: the letter behind the backslash.
unfoldable pub dump_repl : ℕ → Option ℕ
dump_repl c =
    if c == 8
    then some b'b'
    else if c == 9
    then some b't'
    else if c == 10
    then some b'n'
    else if c == 11
    then some b'v'
    else if c == 12
    then some b'f'
    else if c == 13
    then some b'r'
    else if c == 92
    then some 92
    else none

-- _dump_re.sub(_dump_sub, b)
unfoldable pub dump_sub : Bytes → Bytes
dump_sub [] = []
dump_sub (c ∷ b) =
    let rest = dump_sub b in elim (dump_repl c) [ none ↦ c ∷ rest | some l ↦ 92 ∷ l ∷ rest ]

-- `_load_repl`, by the letter behind the backslash.
unfoldable pub load_repl : ℕ → Option ℕ
load_repl l =
    if l == b'b'
    then some 8
    else if l == b't'
    then some 9
    else if l == b'n'
    then some 10
    else if l == b'v'
    then some 11
    else if l == b'f'
    then some 12
    else if l == b'r'
    then some 13
    else if l == 92
    then some 92
    else none

-- _load_re.sub(_load_sub, f): from the left; a backslash before any other byte is kept.
unfoldable pub load_sub : Bytes → Bytes
load_sub [] = []
load_sub (c ∷ []) = c ∷ []
load_sub (c ∷ l ∷ b) =
    let kept = load_sub (l ∷ b) in
    let replaced = load_sub b in
    if c == 92 then elim (load_repl l) [ none ↦ c ∷ kept | some d ↦ d ∷ replaced ] else c ∷ kept

-- One item, without the tab behind it.
unfoldable pub format_item : Option Bytes → Bytes
unfolding dump_sub
format_item none = 92 ∷ b'N' ∷ []
format_item (some b) = dump_sub b

-- The loop over the items: each is followed by a tab.
unfoldable pub format_items : Row → Bytes
unfolding format_item
format_items [] = []
format_items (item ∷ row) = format_item item ++ (9 ∷ format_items row)

-- out[-1:] = b"\n"
unfoldable pub replace_last : ℕ → Bytes → Bytes
replace_last d [] = d ∷ []
replace_last d (c ∷ []) = d ∷ []
replace_last d (c ∷ e ∷ s) = c ∷ replace_last d (e ∷ s)

-- What is added to `out`.
unfoldable pub format_row_text : Row → Bytes → Bytes
unfolding format_items replace_last
format_row_text [] out = out ++ 10 ∷ []
format_row_text (item ∷ row) out = replace_last 10 (out ++ format_items (item ∷ row))

-- One byte before the fields behind it; a tab opens a field.
unfoldable pub cons_field : Bool → ℕ → List Bytes → List Bytes
cons_field true c fields = [] ∷ fields
cons_field false c [] = (c ∷ []) ∷ []
cons_field false c (f ∷ fields) = (c ∷ f) ∷ fields

-- data.split(b"\t")
unfoldable pub split_tabs : Bytes → List Bytes
unfolding cons_field
split_tabs [] = [] ∷ []
split_tabs (c ∷ s) = cons_field (c == 9) c (split_tabs s)

-- f[:-1]
unfoldable pub drop_last : Bytes → Bytes
drop_last [] = []
drop_last (c ∷ []) = []
drop_last (c ∷ d ∷ s) = c ∷ drop_last (d ∷ s)

-- fields[-1] = fields[-1][:-1]
unfoldable pub trim_last_field : List Bytes → List Bytes
unfolding drop_last
trim_last_field [] = []
trim_last_field (f ∷ []) = drop_last f ∷ []
trim_last_field (f ∷ g ∷ fields) = f ∷ trim_last_field (g ∷ fields)

unfoldable pub parse_item : Bytes → Option Bytes
unfolding load_sub
parse_item f = if f === (92 ∷ b'N' ∷ []) then none else some (load_sub f)

unfoldable pub parse_row_text : Bytes → Row
unfolding split_tabs trim_last_field parse_item
parse_row_text s = map parse_item (trim_last_field (split_tabs s))
