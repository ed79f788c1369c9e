-- ===== src/Copy/Formatter/Tests.antt =====
-- Runs of the model of psycopg3/psycopg3/copy.py, and its theorems at concrete inputs.
use psycopg.Prelude.{
  ◌≡◌, refl, true, false, none, some, [], ◌∷◌, ◌++◌, Bytes, codes, arith, join, map,
}
use psycopg.Prelude.Equality.{nat_eq, list_eq}
use psycopg.Copy.Text.{
  Row, format_row_text, parse_row_text, dump_sub, dump_repl, load_sub, format_items, replace_last,
  parse_item, split_tabs, trim_last_field, format_item,
}
use psycopg.Copy.Text.RoundTrip.{parse_row_text-format_row_text}
use psycopg.Copy.Text.Framing.{format_row_text_frame, HasNoNewline}
use psycopg.Copy.Binary.{format_row_binary, parse_row_binary}
use psycopg.Copy.Binary.RoundTrip.{row_text, parse_row_binary-format_row_binary}
use psycopg.Copy.Formatter.{fresh, signature, trailer, binary_parse_row, parsed_row}
use psycopg.Copy.Formatter.Stream.{
  binary_send, binary_send_lem, Fits, read_rows, read_rows_lem, pieces,
}

-- A row with a NULL and with bytes that are escaped: a tab and a backslash.
abbrev items : Row
items = none ∷ some (97 ∷ 9 ∷ 92 ∷ []) ∷ []

abbrev one : Row
one = some (codes "1") ∷ []

formatted : format_row_text items [] ≡ codes "\\N" ++ (9 ∷ 97 ∷ 92 ∷ 116 ∷ 92 ∷ 92 ∷ 10 ∷ [])
unfolding format_row_text format_items replace_last dump_sub dump_repl format_item
formatted = refl

-- A row of no items is read back as a row of one empty item.
empty_row : parse_row_text (format_row_text [] []) ≡ some [] ∷ []
unfolding format_row_text parse_row_text split_tabs trim_last_field parse_item load_sub replace_last
empty_row = refl

-- The data of a binary copy of no rows, in one piece, is read as a row of no items.
empty_data :
    binary_parse_row (signature ++ trailer) fresh
    ≡ (parsed_row [], record fresh { signature_sent = true })
unfolding binary_parse_row parse_row_binary
empty_data = refl

items-Fits : Fits items
items-Fits = (omega arith, (tt, (omega arith, tt)))

one-Fits : Fits one
one-Fits = (omega arith, (omega arith, tt))

parse_row_text-format_row_text_example : parse_row_text (format_row_text items []) ≡ items
parse_row_text-format_row_text_example =
    parse_row_text-format_row_text none (some (97 ∷ 9 ∷ 92 ∷ []) ∷ [])

binary_send_lem_example :
    binary_send 3 (items ∷ one ∷ []) fresh
    ≡ some (signature ++ (join (map row_text (items ∷ one ∷ [])) ++ trailer))
binary_send_lem_example = binary_send_lem 3 (items ∷ one ∷ []) (items-Fits, (one-Fits, tt))

read_rows_lem_example :
    read_rows ((signature ++ row_text items) ∷ pieces (one ∷ [])) fresh ≡ some (items ∷ one ∷ [])
read_rows_lem_example = read_rows_lem items (one ∷ []) (items-Fits, (one-Fits, tt))

format_row_text_frame_example :
    (text : Bytes) × HasNoNewline text
    × (format_row_text items (codes "1") ≡ codes "1" ++ (text ++ 10 ∷ []))
format_row_text_frame_example = format_row_text_frame items (codes "1")

parse_row_binary-format_row_binary_example :
    ((format_row_binary items []).raised ≡ false)
    × (parse_row_binary (format_row_binary items []).out ≡ some items)
parse_row_binary-format_row_binary_example =
    parse_row_binary-format_row_binary items items-Fits.0 items-Fits.1
