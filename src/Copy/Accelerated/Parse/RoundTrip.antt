-- ===== src/Copy/Accelerated/Parse/RoundTrip.antt =====
-- `parse_row_text` of psycopg3_c/psycopg3_c/_psycopg3/copy.pyx reads what both implementations write.
use psycopg.Prelude.{
  ℕ, suc, ◌≡◌, refl, sym, ap, ◌∙◌, false, true, Option, none, some, [], ◌∷◌, ◌++◌, Bytes, length,
  ◌==◌, ◌||◌, arith, Option-cases, Bool-cases, inl, inr, append_assoc, append-nil, ==_iff,
}
use psycopg.Prelude.Equality.{◌===◌, nat_eq, list_eq}
use psycopg.Copy.Text.{Row, dump_repl, format_row_text as python_format_row_text}
use psycopg.Copy.Text.RoundTrip.{format_row_text-line}
use psycopg.Copy.Accelerated.Format.{format_row_text, copy_escape_lut}
use psycopg.Copy.Accelerated.Format.Same.{itself, IsSized, format_row_text-line_with}
use psycopg.Copy.Escaping.{
  escape_with, item_with, line_with, line-line_with, escape_with-plain, escape_with-escape,
}
use psycopg.Copy.Accelerated.Parse.{
  Scanned, Parsed, row, scan, unescape, push, push_escaped, copy_unescape_lut, load_field,
  check_end, parse_fields, parse_row_text, cons_item,
}
use psycopg.Copy.Accelerated.Parse.Steps.{
  scan-delimiter, scan-plain, scan-escape, unescape-plain, unescape-escape,
}

-- What a choice of the byte behind the backslash must meet to be read back.
pub record IsEscaper (e : ℕ → Option ℕ) : Type 0 where
  pub kept : (c : ℕ) → e c ≡ none → ((c == 9 || c == 10) ≡ false) × ((c == 92) ≡ false)
  pub read : (c l : ℕ) → e c ≡ some l → (copy_unescape_lut l ≡ c) × ((l == b'N') ≡ false)

parse_fields-round :
    (left : ℕ) (s rest : Bytes) (item : Option Bytes) (d : ℕ)
    → load_field (scan s) ≡ item
    → (scan s).at_end ≡ d ∷ rest
    → ((next : Bytes → Parsed) → check_end (d ∷ rest) left next ≡ next rest)
    → parse_fields (suc left) s ≡ cons_item item (parse_fields left rest)
unfolding parse_fields
parse_fields-round left s rest item d loaded stopped passed =
    rw (stopped, loaded) (passed (λ behind. cons_item item (parse_fields left behind)))

check_end-newline : (s : Bytes) (next : Bytes → Parsed) → check_end (10 ∷ s) 0 next ≡ next s
unfolding check_end
check_end-newline s next = refl

check_end-tab :
    (left : ℕ) (s : Bytes) (next : Bytes → Parsed) → check_end (9 ∷ s) (suc left) next ≡ next s
unfolding check_end
check_end-tab left s next = rw (more left) refl
  where
    more : (n : ℕ) → (suc n == 0) ≡ false
    more n = ground arith

module _ (e : ℕ → Option ℕ) (escaper : IsEscaper e) where
  -- The backslashes put before bytes of an item.
  backslashes : Bytes → ℕ
  backslashes [] = 0
  backslashes (c ∷ b) = elim (e c) [ none ↦ backslashes b | some l ↦ suc (backslashes b) ]

  written : Bytes → Bytes → Scanned
  written b s = record { field = escape_with e b; num_bs = backslashes b; at_end = s }

  scan-escape_with :
      (b : Bytes) (d : ℕ) (s : Bytes)
      → (d == 9 || d == 10) ≡ true
      → scan (escape_with e b ++ d ∷ s) ≡ written b (d ∷ s)
  unfolding written backslashes
  scan-escape_with [] d s h = unfold escape_with in scan-delimiter d s h
  scan-escape_with (c ∷ b) d s h = elim (Option-cases (e c)) [
    | inl plain ↦
        rw (plain, escape_with-plain e c b plain, backslashes)
          (scan-plain c (escape_with e b ++ d ∷ s) (escaper.kept c plain).0 (escaper.kept c plain).1
            ∙ ap (push c) (scan-escape_with b d s h))
    | inr (l, escaped) ↦
        rw (escaped, escape_with-escape e c l b escaped, backslashes)
          (scan-escape l (escape_with e b ++ d ∷ s)
            ∙ ap (push_escaped 92 l) (scan-escape_with b d s h))
  ]

  unescape-escape_with : (b : Bytes) → unescape (escape_with e b) ≡ b
  unescape-escape_with [] = unfold unescape escape_with in refl
  unescape-escape_with (c ∷ b) = elim (Option-cases (e c)) [
    | inl plain ↦ rw (escape_with-plain e c b plain) (
        unescape-plain c (escape_with e b) (escaper.kept c plain).1
        ∙ ap (λ s. c ∷ s) (unescape-escape_with b))
    | inr (l, escaped) ↦ rw (escape_with-escape e c l b escaped) (
        unescape-escape l (escape_with e b)
        ∙ rw ((escaper.read c l escaped).0) (ap (λ s. c ∷ s) (unescape-escape_with b)))
  ]

  backslashes-plain : (c : ℕ) (b : Bytes) → e c ≡ none → backslashes (c ∷ b) ≡ backslashes b
  unfolding backslashes
  backslashes-plain c b h = rw (h, backslashes)

  backslashes-escape :
      (c l : ℕ) (b : Bytes) → e c ≡ some l → backslashes (c ∷ b) ≡ suc (backslashes b)
  unfolding backslashes
  backslashes-escape c l b h = rw (h, backslashes)

  -- With no backslash the field is the item.
  escape_with-none : (b : Bytes) → backslashes b ≡ 0 → escape_with e b ≡ b
  escape_with-none [] h = unfold escape_with in refl
  escape_with-none (c ∷ b) h = elim (Option-cases (e c)) [
    | inl plain ↦
        escape_with-plain e c b plain
        ∙ ap (λ s. c ∷ s) (escape_with-none b (sym (backslashes-plain c b plain) ∙ h))
    | inr (l, escaped) ↦ absurd (omega (arith, h, backslashes-escape c l b escaped))
  ]

  escape_with-ne-null : (b : Bytes) → (escape_with e b === (92 ∷ b'N' ∷ [])) ≡ false
  escape_with-ne-null [] = unfold escape_with in refl
  escape_with-ne-null (c ∷ b) = elim (Option-cases (e c)) [
    | inl plain ↦ rw (escape_with-plain e c b plain) (ground (arith, (escaper.kept c plain).1))
    | inr (l, escaped) ↦
        rw (escape_with-escape e c l b escaped) (ground (arith, (escaper.read c l escaped).1))
  ]

  load_field-written : (b s : Bytes) → load_field (written b s) ≡ some b
  unfolding load_field written
  load_field-written b s = rw (escape_with-ne-null b) (elim (Bool-cases (backslashes b == 0)) [
    | inl zero_left ↦
        rw zero_left (ap some (escape_with-none b ((==_iff (backslashes b) 0).0 zero_left)))
    | inr left ↦ rw left (ap some (unescape-escape_with b))
  ])

  -- A field with its delimiter is read as its item, whatever comes behind.
  load_field-item_with :
      (item : Option Bytes) (d : ℕ) (s : Bytes)
      → (d == 9 || d == 10) ≡ true
      → (load_field (scan (item_with e item ++ d ∷ s)) ≡ item)
        × ((scan (item_with e item ++ d ∷ s)).at_end ≡ d ∷ s)
  unfolding written
  load_field-item_with none d s h =
      let found : scan (92 ∷ b'N' ∷ d ∷ s)
          ≡ record { field = 92 ∷ b'N' ∷ []; num_bs = 1; at_end = d ∷ s } =
        scan-escape b'N' (d ∷ s) ∙ ap (push_escaped 92 b'N') (scan-delimiter d s h) in
      unfold item_with load_field in rw found (refl, refl)
  load_field-item_with (some b) d s h =
      unfold item_with in rw (scan-escape_with b d s h) (load_field-written b (d ∷ s), refl)

  parse_fields-line_with :
      (item : Option Bytes) (items : Row) (s : Bytes)
      → parse_fields (length (item ∷ items)) (line_with e item items ++ s) ≡ row (item ∷ items)
  parse_fields-line_with item [] s =
      let here = load_field-item_with item 10 s refl in
      let nothing_left : parse_fields 0 s ≡ row [] = unfold parse_fields in refl in
      let text : line_with e item [] ++ s ≡ item_with e item ++ 10 ∷ s =
        unfold line_with in append_assoc (item_with e item) (10 ∷ []) s in
      ap (parse_fields 1) text
      ∙ parse_fields-round 0 (item_with e item ++ 10 ∷ s) s item 10 here.0 here.1
          (check_end-newline s)
      ∙ ap (cons_item item) nothing_left
  parse_fields-line_with item (i ∷ items) s =
      let behind = line_with e i items ++ s in
      let here = load_field-item_with item 9 behind refl in
      let text : line_with e item (i ∷ items) ++ s ≡ item_with e item ++ 9 ∷ behind =
        unfold line_with in append_assoc (item_with e item) (9 ∷ line_with e i items) s in
      ap (parse_fields (suc (suc (length items)))) text
      ∙ parse_fields-round (suc (length items)) (item_with e item ++ 9 ∷ behind) behind item 9
          here.0 here.1 (check_end-tab (length items) behind)
      ∙ ap (cons_item item) (parse_fields-line_with i items s)

  pub parse_row_text-line_with :
      (item : Option Bytes) (items : Row)
      → parse_row_text (length (item ∷ items)) (line_with e item items) ≡ row (item ∷ items)
  unfolding parse_row_text
  parse_row_text-line_with item items =
      ap (parse_fields (length (item ∷ items))) (sym (append-nil (line_with e item items)))
      ∙ parse_fields-line_with item items []

dump_repl-IsEscaper : IsEscaper dump_repl
unfolding dump_repl copy_unescape_lut
dump_repl-IsEscaper = record {
  kept = λ c h. (ground arith, ground arith);
  read = λ c l h. (ground arith, ground arith);
}

itself-IsEscaper : IsEscaper itself
unfolding itself copy_escape_lut copy_unescape_lut
itself-IsEscaper = record {
  kept = λ c h. (ground arith, ground arith);
  read = λ c l h. (ground arith, ground arith);
}

-- A row of at least one item, whatever its bytes, is read back as it was by the implementation in C,
-- told the number of its fields, from what either implementation writes.
pub parse_row_text-format_row_text_both :
    (room : ℕ → Bytes) (item : Option Bytes) (items : Row)
    → IsSized room
    → (parse_row_text (length (item ∷ items)) (format_row_text room (item ∷ items) [])
        ≡ row (item ∷ items))
      × (parse_row_text (length (item ∷ items)) (python_format_row_text (item ∷ items) [])
          ≡ row (item ∷ items))
parse_row_text-format_row_text_both room item items sized = (
  ap (parse_row_text (length (item ∷ items))) (format_row_text-line_with room sized item items [])
      ∙ parse_row_text-line_with itself itself-IsEscaper item items,
  ap (parse_row_text (length (item ∷ items)))
        (format_row_text-line item items [] ∙ line-line_with item items)
      ∙ parse_row_text-line_with dump_repl dump_repl-IsEscaper item items,
)
