-- ===== src/Copy/Formatter.antt =====
-- The `Formatter` classes of psycopg3/psycopg3/copy.py: what a writer is given to send, and when.
-- `limit` is BUFFER_SIZE; a `str` that is written in text mode is the bytes of its encoding.
pub mod Stream
pub mod Tests
use psycopg.Prelude.{
  ℕ, zero, suc, ◌+◌, Bool, true, false, Option, none, some, List, [], ◌∷◌, ◌++◌, Bytes, codes,
  length, take, drop, ltb, if◌then◌else◌, map,
}
use psycopg.Prelude.Equality.{◌===◌, nat_eq, list_eq}
use psycopg.Copy.Text.{Row, format_row_text, parse_row_text}
use psycopg.Copy.Binary.{Written, format_row_binary, parse_row_binary}

-- The state of either formatter; the text formatter sets the flag of the signature and never reads
-- it.
pub record Formatter : Type 0 where
  pub write_buffer : Bytes
  pub row_mode : Bool
  pub signature_sent : Bool

abbrev pub fresh : Formatter
fresh = record { write_buffer = []; row_mode = false; signature_sent = false }

-- What `write` is given.
pub data Buffer : Type 0 where
  bytes str : Bytes → Buffer

abbrev pub signature : Bytes
signature = codes "PGCOPY" ++ (10 ∷ 255 ∷ 13 ∷ 10 ∷ 0 ∷ 0 ∷ 0 ∷ 0 ∷ 0 ∷ 0 ∷ 0 ∷ 0 ∷ 0 ∷ [])

abbrev pub trailer : Bytes
trailer = 255 ∷ 255 ∷ []

-- The end of `write_row`: a buffer past the limit is handed out.
unfoldable pub flush : ℕ → Formatter → Bytes × Formatter
flush limit w =
    if ltb limit (length w.write_buffer)
    then (w.write_buffer, record w { write_buffer = [] })
    else ([], w)

-- The end of `end`.
unfoldable pub hand_out : Formatter → Bytes × Formatter
hand_out w = (w.write_buffer, record w { write_buffer = [] })

-- TextFormatter
unfoldable pub text_write : Buffer → Formatter → Bytes × Formatter
text_write (bytes b) w = (b, record w { signature_sent = true })
text_write (str b) w = (b, record w { signature_sent = true })

unfoldable pub text_write_row : ℕ → Row → Formatter → Bytes × Formatter
unfolding flush
text_write_row limit row w =
    flush limit (record w { row_mode = true; write_buffer = format_row_text row w.write_buffer })

unfoldable pub text_end : Formatter → Bytes × Formatter
unfolding hand_out
text_end w = hand_out w

unfoldable pub text_parse_row : Bytes → Option Row
text_parse_row [] = none
text_parse_row (c ∷ s) = some (parse_row_text (c ∷ s))

-- BinaryFormatter: `none` is the TypeError on a `str`.
unfoldable pub binary_write : Buffer → Formatter → Option Bytes × Formatter
binary_write (bytes b) w = (some b, record w { signature_sent = true })
binary_write (str b) w = (none, w)

unfoldable pub sign : Formatter → Formatter
sign w =
    if w.signature_sent
    then w
    else record w { write_buffer = w.write_buffer ++ signature; signature_sent = true }

-- `none` is struct.error; what was written before it stays in the buffer.
unfoldable pub after_row : ℕ → Formatter → Written → Option Bytes × Formatter
unfolding flush
after_row limit w r =
    let w' = record w { write_buffer = r.out } in
    if r.raised then (none, w') else (some (flush limit w').0, (flush limit w').1)

unfoldable pub binary_write_row : ℕ → Row → Formatter → Option Bytes × Formatter
unfolding sign after_row
binary_write_row limit row w =
    let w' = sign (record w { row_mode = true }) in
    after_row limit w' (format_row_binary row w'.write_buffer)

unfoldable pub binary_end : Formatter → Bytes × Formatter
unfolding hand_out
binary_end w =
    if w.signature_sent
    then (if w.row_mode
        then hand_out (record w { write_buffer = w.write_buffer ++ trailer })
        else hand_out w)
    else hand_out (record w { write_buffer = (w.write_buffer ++ signature) ++ trailer })

-- What `parse_row` makes of a piece of data: a row, the end of the data, or an error (the DataError
-- on the signature, or struct.error).
pub data Parsed : Type 0 where
  parsed_row : Row → Parsed
  end_of_data : Parsed
  bad_signature : Parsed
  bad_data : Parsed

unfoldable pub as_row : Option Row → Parsed
as_row none = bad_data
as_row (some row) = parsed_row row

unfoldable pub binary_parse_row : Bytes → Formatter → Parsed × Formatter
unfolding as_row
binary_parse_row s w =
    if w.signature_sent
    then (if s === trailer then (end_of_data, w) else (as_row (parse_row_binary s), w))
    else if take 19 s === signature
    then (as_row (parse_row_binary (drop 19 s)), record w { signature_sent = true })
    else (bad_signature, w)
