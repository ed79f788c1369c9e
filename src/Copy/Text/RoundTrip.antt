-- ===== src/Copy/Text/RoundTrip.antt =====
-- `_parse_row_text` of psycopg3/psycopg3/copy.py reads back what `_format_row_text` writes.
use psycopg.Prelude.{
  ℕ, ◌≡◌, refl, sym, ap, ◌∙◌, false, Option, none, some, List, [], ◌∷◌, ◌++◌, Bytes, ◌==◌, map,
  arith, All, Option-cases, inl, inr, append_assoc,
}
use psycopg.Prelude.Equality.{◌===◌, nat_eq, list_eq}
use psycopg.Copy.Text.{
  Row, dump_repl, dump_sub, load_repl, load_sub, format_item, format_items, replace_last,
  format_row_text, split_tabs, drop_last, trim_last_field, parse_item, parse_row_text,
}

-- A byte that ends neither a field nor a row.
abbrev pub IsInner : ℕ → Type 0
IsInner c = ((c == 9) ≡ false) × ((c == 10) ≡ false)

load_repl-dump_repl : (c l : ℕ) → dump_repl c ≡ some l → load_repl l ≡ some c
unfolding dump_repl load_repl
load_repl-dump_repl c l h = ground arith

dump_repl-plain : (c : ℕ) → dump_repl c ≡ none → ((c == 92) ≡ false) × IsInner c
unfolding dump_repl
dump_repl-plain c h = ground arith

dump_repl-letter : (c l : ℕ) → dump_repl c ≡ some l → ((l == b'N') ≡ false) × IsInner l
unfolding dump_repl
dump_repl-letter c l h = ground arith

load_sub-plain : (c : ℕ) (s : Bytes) → (c == 92) ≡ false → load_sub (c ∷ s) ≡ c ∷ load_sub s
unfolding load_sub
load_sub-plain c [] h = refl
load_sub-plain c (l ∷ s) h = rw h

load_sub-escape :
    (c l : ℕ) (s : Bytes) → load_repl l ≡ some c → load_sub (92 ∷ l ∷ s) ≡ c ∷ load_sub s
unfolding load_sub
load_sub-escape c l s h = rw h

dump_sub-plain : (c : ℕ) (b : Bytes) → dump_repl c ≡ none → dump_sub (c ∷ b) ≡ c ∷ dump_sub b
unfolding dump_sub
dump_sub-plain c b h = rw (h, dump_sub)

dump_sub-escape :
    (c l : ℕ) (b : Bytes) → dump_repl c ≡ some l → dump_sub (c ∷ b) ≡ 92 ∷ l ∷ dump_sub b
unfolding dump_sub
dump_sub-escape c l b h = rw (h, dump_sub)

-- Unescaping undoes escaping, on any bytes.
pub load_sub-dump_sub : (b : Bytes) → load_sub (dump_sub b) ≡ b
load_sub-dump_sub [] = unfold load_sub dump_sub in refl
load_sub-dump_sub (c ∷ b) = elim (Option-cases (dump_repl c)) [
  | inl plain ↦ rw (dump_sub-plain c b plain) (
      load_sub-plain c (dump_sub b) (dump_repl-plain c plain).0
      ∙ ap (λ s. c ∷ s) (load_sub-dump_sub b))
  | inr (l, escaped) ↦ rw (dump_sub-escape c l b escaped) (
      load_sub-escape c l (dump_sub b) (load_repl-dump_repl c l escaped)
      ∙ ap (λ s. c ∷ s) (load_sub-dump_sub b))
]

dump_sub-IsInner : (b : Bytes) → All IsInner (dump_sub b)
dump_sub-IsInner [] = unfold dump_sub in tt
dump_sub-IsInner (c ∷ b) = elim (Option-cases (dump_repl c)) [
  | inl plain ↦ rw (dump_sub-plain c b plain) ((dump_repl-plain c plain).1, dump_sub-IsInner b)
  | inr (l, escaped) ↦
      rw (dump_sub-escape c l b escaped)
        ((refl, refl), ((dump_repl-letter c l escaped).1, dump_sub-IsInner b))
]

pub format_item-IsInner : (item : Option Bytes) → All IsInner (format_item item)
unfolding format_item
format_item-IsInner none = ((refl, refl), ((refl, refl), tt))
format_item-IsInner (some b) = dump_sub-IsInner b

-- No escaped item is the mark of NULL.
dump_sub-ne-null : (b : Bytes) → (dump_sub b === (92 ∷ b'N' ∷ [])) ≡ false
dump_sub-ne-null [] = unfold dump_sub in refl
dump_sub-ne-null (c ∷ b) = elim (Option-cases (dump_repl c)) [
  | inl plain ↦ rw (dump_sub-plain c b plain) (ground (arith, (dump_repl-plain c plain).0))
  | inr (l, escaped) ↦
      rw (dump_sub-escape c l b escaped) (ground (arith, (dump_repl-letter c l escaped).0))
]

parse_item-format_item : (item : Option Bytes) → parse_item (format_item item) ≡ item
unfolding parse_item format_item
parse_item-format_item none = refl
parse_item-format_item (some b) = rw (dump_sub-ne-null b) (ap some (load_sub-dump_sub b))

-- A row as its fields with tabs between them and the newline behind them.
unfoldable pub line : Option Bytes → Row → Bytes
line item [] = format_item item ++ 10 ∷ []
line item (i ∷ row) = format_item item ++ (9 ∷ line i row)

replace_last-append :
    (d : ℕ) (x : Bytes) (c : ℕ) (s : Bytes)
    → replace_last d (x ++ c ∷ s) ≡ x ++ replace_last d (c ∷ s)
unfolding replace_last
replace_last-append d [] c s = refl
replace_last-append d (a ∷ []) c s = refl
replace_last-append d (a ∷ b ∷ x) c s = ap (λ t. a ∷ t) (replace_last-append d (b ∷ x) c s)

replace_last-format_items :
    (item : Option Bytes) (row : Row) → replace_last 10 (format_items (item ∷ row)) ≡ line item row
unfolding format_items line replace_last
replace_last-format_items item [] = replace_last-append 10 (format_item item) 9 []
replace_last-format_items item (i ∷ row) =
    replace_last-append 10 (format_item item) 9 (format_items (i ∷ row))
    ∙ ap (λ s. format_item item ++ s)
        (replace_last-append 10 (9 ∷ format_item i) 9 (format_items row)
          ∙ ap (λ s. 9 ∷ s)
              (sym (replace_last-append 10 (format_item i) 9 (format_items row))
                ∙ replace_last-format_items i row))

-- The row is added to what the buffer holds.
pub format_row_text-line :
    (item : Option Bytes) (row : Row) (out : Bytes)
    → format_row_text (item ∷ row) out ≡ out ++ line item row
unfolding format_row_text format_items replace_last
format_row_text-line item row out =
    ap (replace_last 10) (sym (append_assoc out (format_item item) (9 ∷ format_items row)))
    ∙ replace_last-append 10 (out ++ format_item item) 9 (format_items row)
    ∙ append_assoc out (format_item item) (replace_last 10 (9 ∷ format_items row))
    ∙ ap (λ s. out ++ s)
        (sym (replace_last-append 10 (format_item item) 9 (format_items row))
          ∙ replace_last-format_items item row)

split_tabs-field : (x s : Bytes) → All IsInner x → split_tabs (x ++ 9 ∷ s) ≡ x ∷ split_tabs s
unfolding split_tabs
split_tabs-field [] s h = refl
split_tabs-field (c ∷ x) s h = rw (h.0.0, split_tabs-field x s h.1)

split_tabs-last : (x : Bytes) → All IsInner x → split_tabs (x ++ 10 ∷ []) ≡ (x ++ 10 ∷ []) ∷ []
unfolding split_tabs
split_tabs-last [] h = refl
split_tabs-last (c ∷ x) h = rw (h.0.0, split_tabs-last x h.1)

pub drop_last-append : (x : Bytes) (c : ℕ) → drop_last (x ++ c ∷ []) ≡ x
unfolding drop_last
drop_last-append [] c = refl
drop_last-append (a ∷ []) c = refl
drop_last-append (a ∷ b ∷ x) c = ap (λ t. a ∷ t) (drop_last-append (b ∷ x) c)

line-ne-nil :
    (item : Option Bytes) (row : Row)
    → (f : Bytes) × (fs : List Bytes) × (split_tabs (line item row) ≡ f ∷ fs)
unfolding line
line-ne-nil item [] = (_, [], split_tabs-last (format_item item) (format_item-IsInner item))
line-ne-nil item (i ∷ row) =
    (_, _, split_tabs-field (format_item item) (line i row) (format_item-IsInner item))

trim-more :
    (f : Bytes) (l : List Bytes) {g : Bytes} {gs : List Bytes}
    → l ≡ g ∷ gs
    → trim_last_field (f ∷ l) ≡ f ∷ trim_last_field l
unfolding trim_last_field
trim-more f [] h = cc
trim-more f (g ∷ gs) h = refl

fields-line :
    (item : Option Bytes) (row : Row)
    → trim_last_field (split_tabs (line item row)) ≡ map format_item (item ∷ row)
unfolding line trim_last_field
fields-line item [] =
    rw (split_tabs-last (format_item item) (format_item-IsInner item))
      (rw (drop_last-append (format_item item) 10))
fields-line item (i ∷ row) =
    rw (split_tabs-field (format_item item) (line i row) (format_item-IsInner item)) (
      trim-more (format_item item) (split_tabs (line i row)) (line-ne-nil i row).2
      ∙ ap (λ l. format_item item ∷ l) (fields-line i row))

map-parse-format : (row : Row) → map parse_item (map format_item row) ≡ row
map-parse-format [] = refl
map-parse-format (item ∷ row) =
    rw (parse_item-format_item item) (ap (λ l. item ∷ l) (map-parse-format row))

-- A row of at least one item comes back from the text format as it was, NULLs and all bytes
-- included.
pub parse_row_text-format_row_text :
    (item : Option Bytes) (row : Row)
    → parse_row_text (format_row_text (item ∷ row) []) ≡ item ∷ row
unfolding parse_row_text
parse_row_text-format_row_text item row =
    ap (λ s. map parse_item (trim_last_field (split_tabs s))) (format_row_text-line item row [])
    ∙ ap (map parse_item) (fields-line item row)
    ∙ map-parse-format (item ∷ row)
