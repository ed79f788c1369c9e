-- ===== src/Composites.antt =====
-- psycopg3/psycopg3/types/composite.py: tuples as records of the database, in text. An item is the
-- bytes that its dumper makes of it, and that the loader of its type is given.
mod Print
mod Tokens
pub mod RoundTrip
mod Tests
use psycopg.Prelude.{
  ℕ, zero, suc, Bool, true, false, ◌||◌, not, Option, none, some, List, [], ◌∷◌, ◌++◌, Bytes, codes,
  join, length, ◌==◌, if◌then◌else◌,
}
use psycopg.Prelude.Equality.{◌===◌, nat_eq, list_eq}
use psycopg.Copy.Text.{drop_last}
use psycopg.Arrays.Dump.{is_space, replace_last}
use psycopg.Arrays.Load.{drop_first}

-- `_re_needs_quotes`
unfoldable pub is_special : ℕ → Bool
unfolding is_space
is_special c = c == b'"' || c == b',' || c == 92 || is_space c || c == b'(' || c == b')'

unfoldable pub has_special : Bytes → Bool
unfolding is_special
has_special [] = false
has_special (c ∷ b) = is_special c || has_special b

-- _re_esc.sub(br"\1\1", ad)
unfoldable pub double : Bytes → Bytes
double [] = []
double (c ∷ b) = let rest = double b in if c == 92 || c == b'"' then c ∷ c ∷ rest else c ∷ rest

abbrev pub quoted : Bytes → Bytes
quoted b = b'"' ∷ (double b ++ b'"' ∷ [])

unfoldable pub dump_item : Bytes → Bytes
unfolding has_special double
dump_item [] = codes "\"\""
dump_item (c ∷ b) = if has_special (c ∷ b) then quoted (c ∷ b) else c ∷ b

-- The rounds of the loop over the items.
unfoldable pub add_parts : Bytes → List (Option Bytes) → List Bytes → List Bytes
unfolding dump_item
add_parts sep [] parts = parts
add_parts sep (none ∷ xs) parts = add_parts sep xs (parts ++ sep ∷ [])
add_parts sep (some b ∷ xs) parts = add_parts sep xs ((parts ++ dump_item b ∷ []) ++ sep ∷ [])

-- `_dump_sequence`, with `replace_last` for parts[-1] = end.
unfoldable pub dump_sequence : List (Option Bytes) → Bytes → Bytes → Bytes → Bytes
unfolding add_parts replace_last
dump_sequence [] start end sep = codes "()"
dump_sequence (x ∷ xs) start end sep = join (replace_last end (add_parts sep (x ∷ xs) (start ∷ [])))

unfoldable pub dump : List (Option Bytes) → Bytes
unfolding dump_sequence
dump xs = dump_sequence xs (codes "(") (codes ")") (codes ",")

-- _re_undouble.sub(br"\1", t)
unfoldable pub undouble : Bytes → Bytes
undouble [] = []
undouble (c ∷ []) = c ∷ []
undouble (c ∷ d ∷ t) =
    let one = c ∷ undouble t in
    let kept = c ∷ undouble (d ∷ t) in
    if c == 92 || c == b'"' then if d == c then one else kept else kept

-- `_re_tokenize`. What is behind an opening quote: the string up to the closing one, and the rest. A
-- quote is the closing one if with the one behind it there is no match.
abbrev pub prepend : Bytes → Option (Bytes × Bytes) → Option (Bytes × Bytes)
prepend p none = none
prepend p (some (t, rest)) = some (p ++ t, rest)

abbrev pub or_closed : Bytes → Option (Bytes × Bytes) → Option (Bytes × Bytes)
or_closed s none = some ([], s)
or_closed s (some m) = some m

unfoldable pub match_quoted : Bytes → Option (Bytes × Bytes)
match_quoted [] = none
match_quoted (c ∷ []) = if c == b'"' then some ([], []) else none
match_quoted (c ∷ d ∷ s) =
    let plain = prepend (c ∷ []) (match_quoted (d ∷ s)) in
    let pair = or_closed (d ∷ s) (prepend (c ∷ d ∷ []) (match_quoted s)) in
    if c == b'"' then if d == b'"' then pair else some ([], d ∷ s) else plain

unfoldable pub is_plain : ℕ → Bool
is_plain c = not (c == b'"' || c == b',' || c == b')')

unfoldable pub match_plain : Bytes → Bytes × Bytes
unfolding is_plain
match_plain [] = ([], [])
match_plain (c ∷ s) =
    let (t, rest) = match_plain s in if is_plain c then (c ∷ t, rest) else ([], c ∷ s)

-- What is yielded for a match, and whether m.group() ends in a comma.
pub record FieldMatch : Type 0 where
  pub value : Option Bytes
  pub comma : Bool

-- ,?
unfoldable pub with_comma : Bytes → Bytes → FieldMatch × Bytes
with_comma t [] = (record { value = some t; comma = false }, [])
with_comma t (c ∷ s) =
    if c == b','
    then (record { value = some t; comma = true }, s)
    else (record { value = some t; comma = false }, c ∷ s)

abbrev pub quoted_field : Option (Bytes × Bytes) → Option (FieldMatch × Bytes)
quoted_field none = none
quoted_field (some (t, rest)) = some (with_comma (undouble t) rest)

-- The match at the first byte.
unfoldable pub match_token : ℕ → Bytes → Option (FieldMatch × Bytes)
unfolding match_quoted match_plain undouble with_comma
match_token c s =
    if c == b','
    then some (record { value = none; comma = true }, s)
    else if c == b'"'
    then quoted_field (match_quoted s)
    else let (t, rest) = match_plain (c ∷ s) in
      if is_plain c then some (with_comma t rest) else none

-- _re_tokenize.finditer(data); every round takes a byte at least.
unfoldable pub find_tokens : ℕ → Bytes → List FieldMatch
unfolding match_token
find_tokens zero s = []
find_tokens (suc fuel) [] = []
find_tokens (suc fuel) (c ∷ s) = elim (match_token c s) [
  | none ↦ find_tokens fuel s
  | some (m, rest) ↦ m ∷ find_tokens fuel rest
]

-- What is yielded for a match and those behind it, and at the end.
unfoldable pub fields : FieldMatch → List FieldMatch → List (Option Bytes)
fields m [] = m.value ∷ (if m.comma then none ∷ [] else [])
fields m (m' ∷ ms) = m.value ∷ fields m' ms

-- The fields, or the error that `m` is read with no match before.
pub data Loaded : Type 0 where
  loaded : List (Option Bytes) → Loaded
  unbound_local : Loaded

unfoldable pub parse_record : Bytes → Loaded
unfolding find_tokens fields
parse_record data' = elim (find_tokens (length data') data') [
  | [] ↦ unbound_local
  | m ∷ ms ↦ loaded (fields m ms)
]

-- `RecordLoader.load`
unfoldable pub load : Bytes → Loaded
unfolding parse_record drop_last drop_first
load b = if b === codes "()" then loaded [] else parse_record (drop_last (drop_first b))
