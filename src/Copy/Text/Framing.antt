-- ===== src/Copy/Text/Framing.antt =====
-- How rows of psycopg3/psycopg3/copy.py in text format are kept apart.
use psycopg.Prelude.{
  ◌≡◌, refl, sym, ap, ◌∙◌, false, Option, [], ◌∷◌, ◌++◌, Bytes, ◌==◌, All, append_assoc,
}
use psycopg.Copy.Text.{Row, format_item, format_row_text}
use psycopg.Copy.Text.RoundTrip.{IsInner, format_item-IsInner, line, format_row_text-line}

-- No byte is a newline.
abbrev pub HasNoNewline : Bytes → Type 0
HasNoNewline s = All (λ c. (c == 10) ≡ false) s

HasNoNewline-append : (x y : Bytes) → All IsInner x → HasNoNewline y → HasNoNewline (x ++ y)
HasNoNewline-append [] y hx hy = hy
HasNoNewline-append (c ∷ x) y hx hy = (hx.0.1, HasNoNewline-append x y hx.1 hy)

HasNoNewline-inner : (x : Bytes) → All IsInner x → HasNoNewline x
HasNoNewline-inner [] h = tt
HasNoNewline-inner (c ∷ x) h = (h.0.1, HasNoNewline-inner x h.1)

-- The line without its newline.
pub body : Option Bytes → Row → Bytes
body item [] = format_item item
body item (i ∷ row) = format_item item ++ (9 ∷ body i row)

body-HasNoNewline : (item : Option Bytes) (row : Row) → HasNoNewline (body item row)
unfolding body
body-HasNoNewline item [] = HasNoNewline-inner (format_item item) (format_item-IsInner item)
body-HasNoNewline item (i ∷ row) =
    HasNoNewline-append (format_item item) (9 ∷ body i row) (format_item-IsInner item)
      (refl, body-HasNoNewline i row)

line-body : (item : Option Bytes) (row : Row) → line item row ≡ body item row ++ 10 ∷ []
unfolding line body
line-body item [] = refl
line-body item (i ∷ row) =
    ap (λ s. format_item item ++ (9 ∷ s)) (line-body i row)
    ∙ sym (append_assoc (format_item item) (9 ∷ body i row) (10 ∷ []))

-- Whatever the items hold, a row adds one newline to the buffer, at the end, and changes nothing of
-- what the buffer held.
pub format_row_text_frame :
    (row : Row) (out : Bytes)
    → (text : Bytes) × HasNoNewline text × (format_row_text row out ≡ out ++ (text ++ 10 ∷ []))
unfolding format_row_text
format_row_text_frame [] out = ([], tt, refl)
format_row_text_frame (item ∷ row) out = (
  body item row,
  body-HasNoNewline item row,
  format_row_text-line item row out ∙ ap (λ s. out ++ s) (line-body item row),
)
