-- ===== src/Arrays/Load.antt =====
-- `ArrayLoader.load` of psycopg3/psycopg3/types/array.py.
pub mod Tokens
use psycopg.Prelude.{
  ℕ, zero, suc, Bool, true, false, ◌&&◌, ◌||◌, not, Option, none, some, List, [], ◌∷◌, ◌++◌, Bytes,
  codes, length, ◌==◌, if◌then◌else◌,
}
use psycopg.Prelude.Equality.{◌===◌, nat_eq, list_eq}
use psycopg.Copy.Text.{drop_last}
use psycopg.Arrays.{Elem, Elems, null, item, sub, nil, cons, append}

-- `_re_parse`. What is behind an opening quote: the string with the closing one, and the rest.
abbrev pub prepend : Bytes → Option (Bytes × Bytes) → Option (Bytes × Bytes)
prepend p none = none
prepend p (some (t, rest)) = some (p ++ t, rest)

unfoldable pub match_quoted : Bytes → Option (Bytes × Bytes)
match_quoted [] = none
match_quoted (c ∷ []) = if c == b'"' then some (b'"' ∷ [], []) else none
match_quoted (c ∷ d ∷ s) =
    let plain = prepend (c ∷ []) (match_quoted (d ∷ s)) in
    let escaped = prepend (c ∷ d ∷ []) (match_quoted s) in
    if c == b'"'
    then some (b'"' ∷ [], d ∷ s)
    else if c == 92
    then if d == 10 then none else escaped
    else plain

-- A byte of [^"{},\\].
unfoldable pub is_plain : ℕ → Bool
is_plain c = not (c == b'"' || c == b'{' || c == b'}' || c == b',' || c == 92)

unfoldable pub match_plain : Bytes → Bytes × Bytes
unfolding is_plain
match_plain [] = ([], [])
match_plain (c ∷ s) =
    let (t, rest) = match_plain s in if is_plain c then (c ∷ t, rest) else ([], c ∷ s)

-- ,?
unfoldable pub skip_comma : Bytes → Bytes
skip_comma [] = []
skip_comma (c ∷ s) = if c == b',' then s else c ∷ s

-- What a match at the first byte gives: group 1 and the rest of the data, if there is a match.
unfoldable pub match_token : ℕ → Bytes → Option (Bytes × Bytes)
unfolding match_quoted match_plain
match_token c s =
    if c == b'{' || c == b'}'
    then some (c ∷ [], s)
    else if c == b'"'
    then prepend (c ∷ []) (match_quoted s)
    else if is_plain c
    then some (match_plain (c ∷ s))
    else none

-- _re_parse.finditer(data); every round takes a byte at least.
unfoldable pub find_tokens : ℕ → Bytes → List Bytes
unfolding match_token skip_comma
find_tokens zero s = []
find_tokens (suc fuel) [] = []
find_tokens (suc fuel) (c ∷ s) = elim (match_token c s) [
  | none ↦ find_tokens fuel s
  | some (t, rest) ↦ t ∷ find_tokens fuel (skip_comma rest)
]

unfoldable pub tokens : Bytes → List Bytes
unfolding find_tokens
tokens s = find_tokens (length s) s

-- _re_unescape.sub(br"\1", t)
unfoldable pub unescape : Bytes → Bytes
unescape [] = []
unescape (c ∷ []) = c ∷ []
unescape (c ∷ d ∷ s) =
    let kept = c ∷ unescape (d ∷ s) in
    let taken = d ∷ unescape s in if c == 92 && not (d == 10) then taken else kept

unfoldable pub starts_quoted : Bytes → Bool
starts_quoted [] = false
starts_quoted (c ∷ t) = c == b'"'

-- t[1:]
unfoldable pub drop_first : Bytes → Bytes
drop_first [] = []
drop_first (c ∷ t) = t

unfoldable pub load_item : Bytes → Elem
unfolding unescape starts_quoted drop_first drop_last
load_item t =
    if t === codes "NULL"
    then null
    else if starts_quoted t
    then item (unescape (drop_last (drop_first t)))
    else item t

pub data Loaded : Type 0 where
  loaded : Elems → Loaded
  unexpected_close : Loaded
  unexpected_item : Bytes → Loaded
  -- assert rv is not None
  no_list : Loaded

-- The lists of `stack`, the last one first. In the program a list is in the one below it from the
-- start; here it is added to it when it is closed, or at the end. None of the others is changed before.
unfoldable pub add_to_last : Elem → List Elems → List Elems
unfolding append
add_to_last x [] = []
add_to_last x (top ∷ stack) = append top (cons x nil) ∷ stack

-- The first list of the stack, with what is in the lists that are still open.
unfoldable pub first_list : Elems → List Elems → Elems
unfolding append
first_list top [] = top
first_list top (below ∷ stack) = first_list (append below (cons (sub top) nil)) stack

-- `rv`: nothing or the first list, as long as no list has been closed; then the one closed last.
unfoldable pub result : List Elems → Option Elems → Loaded
unfolding first_list
result stack (some rv) = loaded rv
result [] none = no_list
result (top ∷ stack) none = loaded (first_list top stack)

unfoldable pub close : List Elems → (Elems → List Elems → Loaded) → Loaded
close [] next = unexpected_close
close (top ∷ stack) next = next top stack

unfoldable pub add_item : Bytes → List Elems → (List Elems → Loaded) → Loaded
unfolding load_item add_to_last
add_item t [] next = unexpected_item t
add_item t (top ∷ stack) next = next (add_to_last (load_item t) (top ∷ stack))

-- The loop over the tokens.
unfoldable pub load_tokens : List Bytes → List Elems → Option Elems → Loaded
unfolding result close add_item
load_tokens [] stack rv = result stack rv
load_tokens (t ∷ ts) stack rv =
    let opened = load_tokens ts (nil ∷ stack) rv in
    let closed =
      close stack (λ top below. load_tokens ts (add_to_last (sub top) below) (some top)) in
    let added = add_item t stack (λ stack'. load_tokens ts stack' rv) in
    if t === codes "{" then opened else if t === codes "}" then closed else added

unfoldable pub load : Bytes → Loaded
unfolding tokens load_tokens
load s = load_tokens (tokens s) [] none
