-- ===== src/Copy/Formatter/Stream.antt =====
-- All that a copy of rows sends, by psycopg3/psycopg3/copy.py, whatever the size of its buffer.
use psycopg.Prelude.{
  ℕ, ◌/◌, ◌<◌, ◌≡◌, refl, sym, ap, ◌∙◌, true, false, Option, none, some, List, [], ◌∷◌, ◌++◌, Bytes,
  length, ltb, if◌then◌else◌, arith, All, join, map, append_assoc, append-nil, Bool-cases, inl, inr,
  ◌==◌,
}
use psycopg.Prelude.Equality.{◌===◌, nat_eq, list_eq}
use psycopg.Copy.Text.{Row, format_row_text}
use psycopg.Copy.Text.RoundTrip.{format_row_text-line}
use psycopg.Copy.Binary.{format_row_binary}
use psycopg.Copy.Binary.RoundTrip.{
  FitsItem, row_text, format_row_binary-row_text, parse_row_binary-row_text,
}
use psycopg.Copy.Formatter.{
  Formatter, fresh, signature, trailer, flush, hand_out, text_write_row, text_end, sign, after_row,
  binary_write_row, binary_end, Parsed, parsed_row, end_of_data, bad_signature, bad_data, as_row,
  binary_parse_row,
}

-- What is handed out for the rows one after the other, and at the end.
pub text_send : ℕ → List Row → Formatter → Bytes
text_send limit [] w = (text_end w).0
text_send limit (row ∷ rows) w =
    (text_write_row limit row w).0 ++ text_send limit rows (text_write_row limit row w).1

-- A flush moves bytes from the buffer to the output, and loses none.
flush_lossless :
    (limit : ℕ) (w : Formatter)
    → (flush limit w).0 ++ (flush limit w).1.write_buffer ≡ w.write_buffer
unfolding flush
flush_lossless limit w = elim (Bool-cases (ltb limit (length w.write_buffer))) [
  | inl full ↦ rw full (append-nil w.write_buffer)
  | inr room ↦ rw room
]

format_row_text-append :
    (row : Row) (out : Bytes) → format_row_text row out ≡ out ++ format_row_text row []
format_row_text-append [] out = unfold format_row_text in refl
format_row_text-append (item ∷ row) out =
    format_row_text-line item row out ∙ ap (λ s. out ++ s) (sym (format_row_text-line item row []))

text_send-from :
    (limit : ℕ) (rows : List Row) (w : Formatter)
    → text_send limit rows w ≡ w.write_buffer ++ join (map (λ row. format_row_text row []) rows)
unfolding text_send text_end hand_out text_write_row
text_send-from limit [] w = sym (append-nil w.write_buffer)
text_send-from limit (row ∷ rows) w =
    ap (λ s. (flush limit written).0 ++ s) (text_send-from limit rows (flush limit written).1)
    ∙ sym (append_assoc (flush limit written).0 (flush limit written).1.write_buffer others)
    ∙ ap (λ s. s ++ others)
        (flush_lossless limit written ∙ format_row_text-append row w.write_buffer)
    ∙ append_assoc w.write_buffer (format_row_text row []) others
  where
    written : Formatter
    written = record w { row_mode = true; write_buffer = format_row_text row w.write_buffer }

    others : Bytes
    others = join (map (λ row. format_row_text row []) rows)

-- In text format the data sent for some rows is the rows' own data, one after the other: the size
-- of the buffer decides only how it is cut.
pub text_send_lem :
    (limit : ℕ) (rows : List Row)
    → text_send limit rows fresh ≡ join (map (λ row. format_row_text row []) rows)
text_send_lem limit rows = text_send-from limit rows fresh

-- In binary format, `none` where a row raises an error.
abbrev or_raise : Option Bytes → Option Bytes → Option Bytes
or_raise (some b) (some rest) = some (b ++ rest)
or_raise _ _ = none

pub binary_send : ℕ → List Row → Formatter → Option Bytes
binary_send limit [] w = some (binary_end w).0
binary_send limit (row ∷ rows) w =
    or_raise (binary_write_row limit row w).0
      (binary_send limit rows (binary_write_row limit row w).1)

-- A row that the binary format can hold.
abbrev pub Fits : Row → Type 0
Fits row = (length row < 32768) × All FitsItem row

-- The buffer with the signature in it, if it was not sent yet.
abbrev opened : Formatter → Bytes
opened w = if w.signature_sent then w.write_buffer else w.write_buffer ++ signature

abbrev with_row : Row → Formatter → Formatter
with_row row w = record {
  write_buffer = opened w ++ row_text row;
  row_mode = true;
  signature_sent = true;
}

sign_lem :
    (w : Formatter)
    → sign (record w { row_mode = true })
      ≡ record { write_buffer = opened w; row_mode = true; signature_sent = true }
unfolding sign
sign_lem w = ground arith

binary_write_row-packed :
    (limit : ℕ) (row : Row) (w : Formatter)
    → Fits row
    → binary_write_row limit row w
      ≡ (some (flush limit (with_row row w)).0, (flush limit (with_row row w)).1)
unfolding binary_write_row after_row
binary_write_row-packed limit row w f =
    ap (λ v. after_row limit v (format_row_binary row v.write_buffer)) (sign_lem w)
    ∙ ap
        (after_row limit
          (record { write_buffer = opened w; row_mode = true; signature_sent = true }))
        (format_row_binary-row_text row (opened w) f.0 f.1)

flush_keeps :
    (limit : ℕ) (w : Formatter)
    → ((flush limit w).1.row_mode ≡ w.row_mode)
      × ((flush limit w).1.signature_sent ≡ w.signature_sent)
unfolding flush
flush_keeps limit w = ground arith

-- A flush and what follows from it.
flush_then :
    (limit : ℕ) (w : Formatter) (x y z : Bytes)
    → w.write_buffer ≡ x ++ y
    → (flush limit w).0 ++ ((flush limit w).1.write_buffer ++ z) ≡ x ++ (y ++ z)
flush_then limit w x y z h =
    sym (append_assoc (flush limit w).0 (flush limit w).1.write_buffer z)
    ∙ ap (λ s. s ++ z) (flush_lossless limit w ∙ h)
    ∙ append_assoc x y z

-- One row more, where the rest is known to be sent.
binary_send-more :
    (limit : ℕ) (row : Row) (rows : List Row) (w : Formatter) (rest : Bytes)
    → Fits row
    → binary_send limit rows (flush limit (with_row row w)).1
      ≡ some ((flush limit (with_row row w)).1.write_buffer ++ rest)
    → binary_send limit (row ∷ rows) w ≡ some (opened w ++ (row_text row ++ rest))
unfolding binary_send
binary_send-more limit row rows w rest f h =
    rw (binary_write_row-packed limit row w f)
      (rw h (ap some (flush_then limit (with_row row w) (opened w) (row_text row) rest refl)))

binary_send-signed :
    (limit : ℕ) (rows : List Row) (w : Formatter)
    → All Fits rows
    → w.signature_sent ≡ true
    → w.row_mode ≡ true
    → binary_send limit rows w ≡ some (w.write_buffer ++ (join (map row_text rows) ++ trailer))
unfolding binary_send binary_end hand_out
binary_send-signed limit [] w f s r = rw (s, r)
binary_send-signed limit (row ∷ rows) w f s r =
    binary_send-more limit row rows w (join (map row_text rows) ++ trailer) f.0 (
      binary_send-signed limit rows (flush limit (with_row row w)).1 f.1
        (flush_keeps limit (with_row row w)).1 (flush_keeps limit (with_row row w)).0)
    ∙ rw s (
        ap (λ t. some (w.write_buffer ++ t))
          (sym (append_assoc (row_text row) (join (map row_text rows)) trailer)))

-- In binary format the data sent for rows that the format can hold, none included, is the signature,
-- the rows' own data one after the other, and the trailer, whatever the size of the buffer.
pub binary_send_lem :
    (limit : ℕ) (rows : List Row)
    → All Fits rows
    → binary_send limit rows fresh ≡ some (signature ++ (join (map row_text rows) ++ trailer))
unfolding binary_send binary_end hand_out
binary_send_lem limit [] f = refl
binary_send_lem limit (row ∷ rows) f =
    binary_send-more limit row rows fresh (join (map row_text rows) ++ trailer) f.0 (
      binary_send-signed limit rows (flush limit (with_row row fresh)).1 f.1
        (flush_keeps limit (with_row row fresh)).1 (flush_keeps limit (with_row row fresh)).0)
    ∙ ap (λ t. some (signature ++ t))
        (sym (append_assoc (row_text row) (join (map row_text rows)) trailer))

-- What a piece adds to the rows of the pieces behind it.
more : Parsed → Option (List Row) → Option (List Row)
more (parsed_row row) (some rows) = some (row ∷ rows)
more (parsed_row row) none = none
more end_of_data rest = some []
more bad_signature rest = none
more bad_data rest = none

-- Reading: the pieces of data one after the other, up to the end of the data.
pub read_rows : List Bytes → Formatter → Option (List Row)
read_rows [] w = none
read_rows (s ∷ pieces) w =
    let rest = read_rows pieces (binary_parse_row s w).1 in more (binary_parse_row s w).0 rest

-- The pieces in which the server sends rows: the signature comes with the first, the trailer alone.
pub pieces : List Row → List Bytes
pieces [] = trailer ∷ []
pieces (row ∷ rows) = row_text row ∷ pieces rows

-- A row is never taken for the trailer.
row_text-ne-trailer : (row : Row) → length row < 32768 → (row_text row === trailer) ≡ false
unfolding row_text
row_text-ne-trailer row h =
    let small : length row / 256 < 255 = omega arith in
    let differs : (length row / 256 == 255) ≡ false = ground arith in rw differs

binary_parse_row-row :
    (row : Row) (w : Formatter)
    → Fits row
    → w.signature_sent ≡ true
    → binary_parse_row (row_text row) w ≡ (parsed_row row, w)
unfolding binary_parse_row as_row
binary_parse_row-row row w f s = rw s (
    rw (row_text-ne-trailer row f.0) (
      ap {B = Parsed × Formatter} (λ r. (as_row r, record w { signature_sent = true }))
        (parse_row_binary-row_text row f.0 f.1)))

binary_parse_row-trailer :
    (w : Formatter) → w.signature_sent ≡ true → binary_parse_row trailer w ≡ (end_of_data, w)
unfolding binary_parse_row as_row
binary_parse_row-trailer w s = rw s

binary_parse_row-first :
    (row : Row)
    → Fits row
    → binary_parse_row (signature ++ row_text row) fresh
      ≡ (parsed_row row, record fresh { signature_sent = true })
unfolding binary_parse_row as_row
binary_parse_row-first row f =
    ap {B = Parsed × Formatter} (λ r. (as_row r, record fresh { signature_sent = true }))
      (parse_row_binary-row_text row f.0 f.1)

read_rows-pieces :
    (rows : List Row) (w : Formatter)
    → All Fits rows
    → w.signature_sent ≡ true
    → read_rows (pieces rows) w ≡ some rows
unfolding read_rows pieces more
read_rows-pieces [] w f s = rw (binary_parse_row-trailer w s)
read_rows-pieces (row ∷ rows) w f s =
    rw (binary_parse_row-row row w f.0 s) (rw (read_rows-pieces rows w f.1 s))

-- Rows that the binary format can hold, at least one, are read back from the pieces that carry
-- them, the signature in front of the first and the trailer last.
pub read_rows_lem :
    (row : Row) (rows : List Row)
    → All Fits (row ∷ rows)
    → read_rows ((signature ++ row_text row) ∷ pieces rows) fresh ≡ some (row ∷ rows)
unfolding read_rows more
read_rows_lem row rows f =
    rw (binary_parse_row-first row f.0)
      (rw (read_rows-pieces rows (record fresh { signature_sent = true }) f.1 refl))
