-- ===== src/Copy/Accelerated/Format/Same.antt =====
-- `format_row_text` of psycopg3_c/psycopg3_c/_psycopg3/copy.pyx beside that of
-- psycopg3/psycopg3/copy.py.
use psycopg.Prelude.{
  ℕ, ◌<◌, ◌⊎◌, inl, inr, ◌≡◌, refl, sym, ap, ◌∙◌, Option, none, some, [], ◌∷◌, ◌++◌, Bytes, ◌==◌,
  if◌then◌else◌, All, length, append_assoc, arith,
}
use psycopg.Copy.Text.{Row, dump_repl, format_row_text as python_format_row_text}
use psycopg.Copy.Text.RoundTrip.{format_row_text-line}
use psycopg.Copy.Escaping.{escape_with, item_with, line_with, line-line_with, line_with_ext, ItemOf}
use psycopg.Copy.Accelerated.Format.{copy_escape_lut, format_item, format_rest, format_row_text}
use psycopg.Copy.Accelerated.Format.InPlace.{escaped, escape_item-escaped}

-- Behind the backslash stands the byte itself.
unfoldable pub itself : ℕ → Option ℕ
itself c = if copy_escape_lut c == 0 then none else some c

escaped-escape_with : (b : Bytes) → escaped b ≡ escape_with itself b
unfolding escaped escape_with itself
escaped-escape_with [] = refl
escaped-escape_with (c ∷ b) = ground (arith, escaped-escape_with b)

-- The buffer holds as many bytes behind the item as it has been enlarged by.
abbrev pub IsSized : (ℕ → Bytes) → Type 0
IsSized room = (n : ℕ) → length (room n) ≡ n

module _ (room : ℕ → Bytes) (sized : IsSized room) where
  format_item-item_with :
      (out : Bytes) (item : Option Bytes)
      → format_item room out 0 item ≡ (0, out ++ item_with itself item)
  unfolding format_item item_with
  format_item-item_with out none = refl
  format_item-item_with out (some b) =
      rw (escape_item-escaped room b sized) (ap (λ s. (0, out ++ s)) (escaped-escape_with b))

  format_rest-line_with :
      (out : Bytes) (item : Option Bytes) (row : Row)
      → format_rest room (out ++ item_with itself item) 0 row ++ 10 ∷ []
        ≡ out ++ line_with itself item row
  unfolding format_rest line_with
  format_rest-line_with out item [] = append_assoc out (item_with itself item) (10 ∷ [])
  format_rest-line_with out item (i ∷ row) =
      let before = (out ++ item_with itself item) ++ 9 ∷ [] in
      rw (format_item-item_with before i) (
        format_rest-line_with before i row
        ∙ append_assoc (out ++ item_with itself item) (9 ∷ []) (line_with itself i row)
        ∙ append_assoc out (item_with itself item) (9 ∷ line_with itself i row))

  pub format_row_text-line_with :
      (item : Option Bytes) (row : Row) (out : Bytes)
      → format_row_text room (item ∷ row) out ≡ out ++ line_with itself item row
  unfolding format_row_text
  format_row_text-line_with item row out =
      rw (format_item-item_with out item) (format_rest-line_with out item row)

-- Not one of the bytes 8 to 13: backspace, tab, newline, vertical tab, form feed, carriage return.
abbrev pub IsNoControl : ℕ → Type 0
IsNoControl c = (c < 8) ⊎ (13 < c)

itself-dump_repl : (c : ℕ) → IsNoControl c → itself c ≡ dump_repl c
unfolding itself copy_escape_lut dump_repl
itself-dump_repl c (inl h) = ground arith
itself-dump_repl c (inr h) = ground arith

-- On a row whose items hold none of the bytes 8 to 13 the implementation in C adds to the buffer what
-- the one in Python adds, backslashes and NULLs included, whatever the enlarged buffer held.
pub format_row_text_same :
    (room : ℕ → Bytes) (row : Row) (out : Bytes)
    → IsSized room
    → All (ItemOf IsNoControl) row
    → format_row_text room row out ≡ python_format_row_text row out
unfolding format_row_text python_format_row_text
format_row_text_same room [] out sized plain = refl
format_row_text_same room (item ∷ row) out sized plain =
    format_row_text-line_with room sized item row out
    ∙ ap (λ s. out ++ s)
        (line_with_ext itself dump_repl IsNoControl itself-dump_repl item row plain.0 plain.1
          ∙ sym (line-line_with item row))
    ∙ sym (format_row_text-line item row out)
