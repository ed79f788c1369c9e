-- ===== src/Arrays/Dump.antt =====
-- `ListDumper.dump` of psycopg3/psycopg3/types/array.py.
use psycopg.Prelude.{
  ℕ, ◌+◌, Bool, true, false, ◌&&◌, ◌||◌, List, [], ◌∷◌, ◌++◌, Bytes, codes, join, map, leb, ◌==◌,
  if◌then◌else◌,
}
use psycopg.Prelude.Equality.{◌===◌, nat_eq, list_eq}
use psycopg.Arrays.{Elem, Elems, null, item, sub, nil, cons}

-- `_re_needs_quotes`: the empty string; a byte of "{},\ or white space; or NULL in any case.
unfoldable pub is_space : ℕ → Bool
is_space c = c == 32 || leb 9 c && leb c 13

unfoldable pub is_special : ℕ → Bool
unfolding is_space
is_special c = c == b'"' || c == b'{' || c == b'}' || c == b',' || c == 92 || is_space c

unfoldable pub lower : ℕ → ℕ
lower c = if leb 65 c && leb c 90 then c + 32 else c

unfoldable pub has_special : Bytes → Bool
unfolding is_special
has_special [] = false
has_special (c ∷ b) = is_special c || has_special b

unfoldable pub is_empty : Bytes → Bool
is_empty [] = true
is_empty (c ∷ b) = false

unfoldable pub needs_quotes : Bytes → Bool
unfolding has_special is_empty lower
needs_quotes b = is_empty b || has_special b || map lower b === codes "null"

-- _re_esc.sub(br"\\\1", b)
unfoldable pub escape : Bytes → Bytes
escape [] = []
escape (c ∷ b) = let rest = escape b in if c == b'"' || c == 92 then 92 ∷ c ∷ rest else c ∷ rest

-- The token of an item that is not None.
unfoldable pub quote : Bytes → Bytes
unfolding needs_quotes escape
quote b = if needs_quotes b then b'"' ∷ (escape b ++ b'"' ∷ []) else b

-- tokens[-1] = t
unfoldable pub replace_last : Bytes → List Bytes → List Bytes
replace_last t [] = []
replace_last t (u ∷ []) = t ∷ []
replace_last t (u ∷ v ∷ ts) = u ∷ replace_last t (v ∷ ts)

-- What `dump_list` makes of `tokens`.
unfoldable mutual
  unfolding quote replace_last

  pub dump_list : Elems → List Bytes → List Bytes
  dump_list nil tokens = tokens ++ codes "{}" ∷ []
  dump_list (cons x xs) tokens =
      replace_last (codes "}") (dump_items xs (dump_item x (tokens ++ codes "{" ∷ [])))

  pub dump_items : Elems → List Bytes → List Bytes
  dump_items nil tokens = tokens
  dump_items (cons x xs) tokens = dump_items xs (dump_item x tokens)

  -- One round of the loop over the list.
  pub dump_item : Elem → List Bytes → List Bytes
  dump_item null tokens = (tokens ++ codes "NULL" ∷ []) ++ codes "," ∷ []
  dump_item (item b) tokens = (tokens ++ quote b ∷ []) ++ codes "," ∷ []
  dump_item (sub xs) tokens = dump_list xs tokens ++ codes "," ∷ []

unfoldable pub dump : Elems → Bytes
unfolding dump_list
dump xs = join (dump_list xs [])
