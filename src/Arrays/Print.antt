-- ===== src/Arrays/Print.antt =====
-- What `ListDumper` of psycopg3/psycopg3/types/array.py writes, and the tokens in which it is read.
use psycopg.Prelude.{
  ◌≡◌, refl, sym, ap, ◌∙◌, Bool, true, false, ◌||◌, List, [], ◌∷◌, ◌++◌, Bytes, codes, join, map,
  arith, All, append_assoc, append-nil,
}
use psycopg.Prelude.Equality.{◌===◌, nat_eq, list_eq}
use psycopg.Arrays.{Elem, Elems, null, item, sub, nil, cons}
use psycopg.Arrays.Dump.{
  quote, needs_quotes, has_special, is_empty, lower, replace_last, dump_list, dump_items, dump_item,
  dump,
}
use psycopg.Arrays.Load.{is_plain}

-- The text of a list, and of its items behind the first.
unfoldable mutual
  pub text_elem : Elem → Bytes
  text_elem null = codes "NULL"
  text_elem (item b) = quote b
  text_elem (sub xs) = text_list xs

  pub text_list : Elems → Bytes
  text_list nil = codes "{}"
  text_list (cons x xs) = b'{' ∷ (text_elem x ++ text_rest xs)

  pub text_rest : Elems → Bytes
  text_rest nil = b'}' ∷ []
  text_rest (cons x xs) = b',' ∷ (text_elem x ++ text_rest xs)

-- The tokens before the comma that is put behind an item.
item_tokens : Elem → List Bytes → List Bytes
item_tokens null ts = ts ++ codes "NULL" ∷ []
item_tokens (item b) ts = ts ++ quote b ∷ []
item_tokens (sub xs) ts = dump_list xs ts

dump_item-comma : (x : Elem) (ts : List Bytes) → dump_item x ts ≡ item_tokens x ts ++ codes "," ∷ []
unfolding item_tokens dump_list
dump_item-comma null ts = refl
dump_item-comma (item b) ts = refl
dump_item-comma (sub xs) ts = refl

pub replace_last-append :
    (t u : Bytes) (ts : List Bytes) → replace_last t (ts ++ u ∷ []) ≡ ts ++ t ∷ []
unfolding replace_last
replace_last-append t u [] = refl
replace_last-append t u (v ∷ []) = refl
replace_last-append t u (v ∷ w ∷ ts) = ap (λ l. v ∷ l) (replace_last-append t u (w ∷ ts))

join-append : (ts us : List Bytes) → join (ts ++ us) ≡ join ts ++ join us
join-append [] us = refl
join-append (t ∷ ts) us =
    ap (λ s. t ++ s) (join-append ts us) ∙ sym (append_assoc t (join ts) (join us))

pub join-snoc : (ts : List Bytes) (t : Bytes) → join (ts ++ t ∷ []) ≡ join ts ++ t
join-snoc ts t = join-append ts (t ∷ []) ∙ ap (λ s. join ts ++ s) (append-nil t)

dump_list-nil : (ts : List Bytes) → dump_list nil ts ≡ ts ++ codes "{}" ∷ []
unfolding dump_list
dump_list-nil ts = refl

dump_list-cons :
    (x : Elem) (xs : Elems) (ts : List Bytes)
    → dump_list (cons x xs) ts
      ≡ replace_last
          (codes "}")
          (dump_items xs (item_tokens x (ts ++ codes "{" ∷ []) ++ codes "," ∷ []))
unfolding dump_list
dump_list-cons x xs ts =
    ap (λ us. replace_last (codes "}") (dump_items xs us))
      (dump_item-comma x (ts ++ codes "{" ∷ []))

dump_items-cons :
    (x : Elem) (xs : Elems) (ts : List Bytes)
    → dump_items (cons x xs) ts ≡ dump_items xs (item_tokens x ts ++ codes "," ∷ [])
unfolding dump_list
dump_items-cons x xs ts = ap (dump_items xs) (dump_item-comma x ts)

dump_items-nil : (ts : List Bytes) → dump_items nil ts ≡ ts
unfolding dump_list
dump_items-nil ts = refl

mutual
  unfolding text_elem item_tokens

  join-item_tokens : (x : Elem) (ts : List Bytes) → join (item_tokens x ts) ≡ join ts ++ text_elem x
  join-item_tokens null ts = join-snoc ts (codes "NULL")
  join-item_tokens (item b) ts = join-snoc ts (quote b)
  join-item_tokens (sub xs) ts = join-dump_list xs ts

  join-dump_list : (xs : Elems) (ts : List Bytes) → join (dump_list xs ts) ≡ join ts ++ text_list xs
  join-dump_list nil ts = ap join (dump_list-nil ts) ∙ join-snoc ts (codes "{}")
  join-dump_list (cons x xs) ts =
      ap join (dump_list-cons x xs ts)
      ∙ join-dump_rest xs (item_tokens x (ts ++ codes "{" ∷ []))
      ∙ ap (λ s. s ++ text_rest xs)
          (join-item_tokens x (ts ++ codes "{" ∷ [])
            ∙ ap (λ s. s ++ text_elem x) (join-snoc ts (codes "{")))
      ∙ append_assoc (join ts ++ codes "{") (text_elem x) (text_rest xs)
      ∙ append_assoc (join ts) (codes "{") (text_elem x ++ text_rest xs)

  join-dump_rest :
      (xs : Elems) (ts : List Bytes)
      → join (replace_last (codes "}") (dump_items xs (ts ++ codes "," ∷ [])))
        ≡ join ts ++ text_rest xs
  join-dump_rest nil ts =
      ap (λ us. join (replace_last (codes "}") us)) (dump_items-nil (ts ++ codes "," ∷ []))
      ∙ ap join (replace_last-append (codes "}") (codes ",") ts)
      ∙ join-snoc ts (codes "}")
  join-dump_rest (cons x xs) ts =
      ap (λ us. join (replace_last (codes "}") us)) (dump_items-cons x xs (ts ++ codes "," ∷ []))
      ∙ join-dump_rest xs (item_tokens x (ts ++ codes "," ∷ []))
      ∙ ap (λ s. s ++ text_rest xs)
          (join-item_tokens x (ts ++ codes "," ∷ [])
            ∙ ap (λ s. s ++ text_elem x) (join-snoc ts (codes ",")))
      ∙ append_assoc (join ts ++ codes ",") (text_elem x) (text_rest xs)
      ∙ append_assoc (join ts) (codes ",") (text_elem x ++ text_rest xs)

pub dump-text_list : (xs : Elems) → dump xs ≡ text_list xs
unfolding dump
dump-text_list xs = join-dump_list xs []

-- An item that is written with no quotes.
pub plain_bytes : (b : Bytes) → has_special b ≡ false → All (λ c. is_plain c ≡ true) b
unfolding has_special is_plain
plain_bytes [] h = tt
plain_bytes (c ∷ b) h = (ground (arith, h), plain_bytes b (ground (arith, h)))

pub or_false : (a b : Bool) → (a || b) ≡ false → (a ≡ false) × (b ≡ false)
or_false true b h = cc h
or_false false b h = (refl, h)

abbrev pub NeedsNoQuotes : Bytes → Type 0
NeedsNoQuotes b =
    (is_empty b ≡ false) × (has_special b ≡ false) × ((map lower b === codes "null") ≡ false)

pub unquoted : (b : Bytes) → needs_quotes b ≡ false → NeedsNoQuotes b
unfolding needs_quotes
unquoted b h =
    let last_test = or_false (is_empty b || has_special b) (map lower b === codes "null") h in
    let tests = or_false (is_empty b) (has_special b) last_test.0 in (tests.0, tests.1, last_test.1)
