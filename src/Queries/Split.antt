-- ===== src/Queries/Split.antt =====
-- `_split_query` of psycopg3/psycopg3/_queries.py.
pub mod RoundTrip
use psycopg.Prelude.{
  ℕ, zero, suc, ◌+◌, ◌-◌, Bool, true, false, not, ◌&&◌, Option, none, some, List, [], ◌∷◌, ◌++◌,
  Bytes, codes, length, ◌==◌, if◌then◌else◌,
}
use psycopg.Prelude.Equality.{◌===◌}
use psycopg.Queries.Defs.{
  Format, auto, text, binary, Item, index, name, QueryPart, Result, ok, err, programming_error,
  incomplete_placeholder, percent_as_operator, bad_placeholder, mixed_placeholders, ◌>>=◌, bytes_eq,
}

-- A match of `_re_placeholder`: its whole text, and the name where there is one.
pub record Match : Type 0 where
  pub group0 : Bytes
  pub group1 : Option Bytes

-- `[^)]+`, all that it can take, and what follows.
unfoldable pub span_name : Bytes → Bytes × Bytes
span_name [] = ([], [])
span_name (c ∷ s) = let (n, rest) = span_name s in if c == b')' then ([], c ∷ s) else (c ∷ n, rest)

-- The bracket and the format behind a name; a `.` matches all but a newline.
unfoldable pub close_name : Bytes × Bytes → Option Match
close_name ([], rest) = none
close_name (n ∷ ns, bracket ∷ c ∷ rest) =
    if c == 10
    then none
    else some (record { group0 = codes "%(" ++ (n ∷ ns) ++ b')' ∷ c ∷ []; group1 = some (n ∷ ns) })
close_name (n ∷ ns, _) = none

unfoldable pub match_named : ℕ → Bytes → Option Match
unfolding span_name close_name
match_named c s = if c == b'(' then close_name (span_name s) else none

unfoldable pub match_any : ℕ → Option Match
match_any c = if c == 10 then none else some (record { group0 = b'%' ∷ c ∷ []; group1 = none })

abbrev pub or_else : Option Match → Option Match → Option Match
or_else (some m) o = some m
or_else none o = o

-- The match of the pattern at a `%`, by the text behind it.
unfoldable pub match_placeholder : Bytes → Option Match
unfolding match_named match_any
match_placeholder [] = none
match_placeholder (c ∷ s) = or_else (match_named c s) (match_any c)

unfoldable pub match_at : ℕ → Bytes → Option Match
unfolding match_placeholder
match_at c s = if c == b'%' then match_placeholder s else none

-- The pairs (fragment, match) of `finditer`, the last with no match: `skip` counts the bytes that
-- still belong to the last match, `pre` is the fragment so far.
unfoldable pub find_all : ℕ → Bytes → Bytes → List (Bytes × Option Match)
unfolding match_at
find_all skip pre [] = (pre, none) ∷ []
find_all (suc skip) pre (c ∷ s) = find_all skip pre s
find_all zero pre (c ∷ s) = elim (match_at c s) [
  | none ↦ find_all zero (pre ++ c ∷ []) s
  | some m ↦ (pre, some m) ∷ find_all (length m.group0 - 1) [] s
]

-- The type of the first item: int or str.
pub data PhType : Type 0 where
  int_type str_type : PhType

-- ph[-1:]
abbrev pub last_byte : Bytes → Bytes
last_byte [] = []
last_byte (c ∷ []) = c ∷ []
last_byte (c ∷ d ∷ s) = last_byte (d ∷ s)

-- _ph_to_fmt
unfoldable pub ph_to_fmt : Bytes → Option Format
ph_to_fmt b =
    if b === codes "s"
    then some auto
    else if b === codes "t"
    then some text
    else if b === codes "b"
    then some binary
    else none

unfoldable pub item_of : ℕ → Option Bytes → Item × PhType
item_of i none = (index i, int_type)
item_of i (some n) = (name n, str_type)

-- The first placeholder decides the type of all.
unfoldable pub check_type : Option PhType → PhType → Bool
check_type none t = true
check_type (some int_type) int_type = true
check_type (some str_type) str_type = true
check_type (some _) _ = false

unfoldable pub typed_item :
    Option PhType → Bytes → Format → Item × PhType → Result (QueryPart × PhType)
unfolding check_type
typed_item ty pre fmt (it, t) =
    if check_type ty t
    then ok (record { pre = pre; item = it; format = fmt }, t)
    else err (programming_error mixed_placeholders)

unfoldable pub with_format :
    ℕ → Option PhType → Bytes → Match → Option Format → Result (QueryPart × PhType)
unfolding typed_item item_of
with_format i ty pre m none = err (programming_error bad_placeholder)
with_format i ty pre m (some fmt) = typed_item ty pre fmt (item_of i m.group1)

-- The tests on one match that is no `%%`.
unfoldable pub validate : ℕ → Option PhType → Bytes → Match → Result (QueryPart × PhType)
unfolding with_format ph_to_fmt
validate i ty pre m =
    if m.group0 === codes "%("
    then err (programming_error incomplete_placeholder)
    else if m.group0 === codes "% "
    then err (programming_error percent_as_operator)
    else with_format i ty pre m (ph_to_fmt (last_byte m.group0))

-- The second loop: `acc` is what dropped `%%` have left for the fragment to come.
unfoldable pub build :
    ℕ → Option PhType → Bytes → List (Bytes × Option Match) → Result (List QueryPart)
unfolding validate
build i ty acc [] = ok []
build i ty acc ((pre, none) ∷ parts) =
    ok (record { pre = acc ++ pre; item = index 0; format = auto } ∷ [])
build i ty acc ((pre, some m) ∷ parts) = elim (m.group0 === codes "%%") [
  | true ↦ build i ty (acc ++ (pre ++ b'%' ∷ [])) parts
  | false ↦ do
    (part, t) ← validate i ty (acc ++ pre) m
    rest ← build (i + 1) (some t) [] parts
    ok (part ∷ rest)
]

unfoldable pub split_query : Bytes → Result (List QueryPart)
unfolding find_all build
split_query query = build 0 none [] (find_all 0 [] query)
