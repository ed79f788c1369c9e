-- ===== src/Copy/Binary/RoundTrip.antt =====
-- `_parse_row_binary` of psycopg3/psycopg3/copy.py reads back what `_format_row_binary` writes.
use psycopg.Prelude.{
  ℕ, suc, ◌+◌, ◌*◌, ◌/◌, ◌%◌, ◌<◌, ◌≡◌, refl, sym, ap, ◌∙◌, true, false, Option, none, some, [],
  ◌∷◌, ◌++◌, Bytes, length, take, drop, ltb, lt→ltb, arith, All, append_assoc, append-nil,
  Bool-cases, inl, inr, ltb→lt, take-append_length, drop-append_length,
}
use psycopg.Prelude.Int.{pos, signed-pos}
use psycopg.Copy.Text.{Row}
use psycopg.Copy.Binary.{
  pack_int2, pack_int4, unpack_int2, unpack_int4, binary_null, format_items_binary,
  format_row_binary, cons_row, parse_fields, parse_row_binary,
}

-- The four bytes of a length.
abbrev pub int4 : ℕ → Bytes
int4 n = n / 16777216 ∷ n / 65536 % 256 ∷ n / 256 % 256 ∷ n % 256 ∷ []

pub unpack_int4-pack :
    (n : ℕ) (s : Bytes) → n < 2147483648 → unpack_int4 (int4 n ++ s) ≡ some (pos n)
unfolding unpack_int4
unpack_int4-pack n s h =
    let value : n / 16777216 * 16777216 + n / 65536 % 256 * 65536 + n / 256 % 256 * 256 + n % 256
        ≡ n =
      omega arith in
    rw value (ap some (signed-pos 2147483648 4294967296 n h))

pub pack_int4-fits : (n : ℕ) → n < 2147483648 → pack_int4 n ≡ some (int4 n)
unfolding pack_int4
pack_int4-fits n h = rw (lt→ltb n 2147483648 h)

-- The size of each item fits in four bytes.
abbrev pub FitsItem : Option Bytes → Type 0
FitsItem none = Unit
FitsItem (some b) = length b < 2147483648

-- The bytes of the items.
unfoldable pub items_text : Row → Bytes
items_text [] = []
items_text (none ∷ row) = binary_null ++ items_text row
items_text (some b ∷ row) = int4 (length b) ++ (b ++ items_text row)

format_items_binary-text :
    (row : Row) (out : Bytes)
    → All FitsItem row
    → format_items_binary row out ≡ record { out = out ++ items_text row; raised = false }
unfolding format_items_binary items_text
format_items_binary-text [] out h = rw (append-nil out)
format_items_binary-text (none ∷ row) out h =
    format_items_binary-text row (out ++ binary_null) h.1
    ∙ rw (append_assoc out binary_null (items_text row))
format_items_binary-text (some b ∷ row) out h = rw (pack_int4-fits (length b) h.0) (
    format_items_binary-text row (out ++ (int4 (length b) ++ b)) h.1
    ∙ rw (append_assoc out (int4 (length b) ++ b) (items_text row)))

pub parse_fields-some :
    (n k : ℕ) (rest : Bytes)
    → unpack_int4 rest ≡ some (pos k)
    → parse_fields (suc n) rest
      ≡ cons_row (some (take k (drop 4 rest))) (parse_fields n (drop k (drop 4 rest)))
unfolding parse_fields
parse_fields-some n k rest h = rw (h, parse_fields)

parse_fields-items_text :
    (row : Row) (s : Bytes)
    → All FitsItem row
    → parse_fields (length row) (items_text row ++ s) ≡ some row
unfolding parse_fields items_text
parse_fields-items_text [] s h = refl
parse_fields-items_text (none ∷ row) s h = rw (parse_fields-items_text row s h.1)
parse_fields-items_text (some b ∷ row) s h =
    parse_fields-some (length row) (length b) (int4 (length b) ++ ((b ++ items_text row) ++ s))
      (unpack_int4-pack (length b) ((b ++ items_text row) ++ s) h.0)
    ∙ rw (append_assoc b (items_text row) s) (
        rw (take-append_length b (items_text row ++ s), drop-append_length b (items_text row ++ s))
          (rw (parse_fields-items_text row s h.1)))

abbrev int2 : ℕ → Bytes
int2 n = n / 256 ∷ n % 256 ∷ []

unpack_int2-pack : (n : ℕ) (s : Bytes) → n < 32768 → unpack_int2 (int2 n ++ s) ≡ some (pos n)
unfolding unpack_int2
unpack_int2-pack n s h =
    let value : n / 256 * 256 + n % 256 ≡ n = omega arith in
    rw value (ap some (signed-pos 32768 65536 n h))

-- The bytes of a row.
unfoldable pub row_text : Row → Bytes
row_text row = int2 (length row) ++ items_text row

-- A row of less than 2^15 items, each of less than 2^31 bytes, is added to the buffer.
pub format_row_binary-row_text :
    (row : Row) (out : Bytes)
    → length row < 32768
    → All FitsItem row
    → format_row_binary row out ≡ record { out = out ++ row_text row; raised = false }
unfolding format_row_binary row_text pack_int2
format_row_binary-row_text row out h f = rw (lt→ltb (length row) 32768 h) (
    format_items_binary-text row (out ++ int2 (length row)) f
    ∙ rw (append_assoc out (int2 (length row)) (items_text row)))

pub parse_row_binary-pos :
    (n : ℕ) (s : Bytes)
    → unpack_int2 s ≡ some (pos n)
    → parse_row_binary s ≡ parse_fields n (drop 2 s)
unfolding parse_row_binary
parse_row_binary-pos n s h = rw (h, parse_row_binary)

pub parse_row_binary-row_text :
    (row : Row) → length row < 32768 → All FitsItem row → parse_row_binary (row_text row) ≡ some row
unfolding row_text
parse_row_binary-row_text row h f =
    parse_row_binary-pos (length row) (row_text row)
      (unpack_int2-pack (length row) (items_text row) h)
    ∙ ap (parse_fields (length row)) (sym (append-nil (items_text row)))
    ∙ parse_fields-items_text row [] f

-- A row of less than 2^15 items, each of less than 2^31 bytes, is written with no error, and comes
-- back from the binary format as it was.
pub parse_row_binary-format_row_binary :
    (row : Row)
    → length row < 32768
    → All FitsItem row
    → ((format_row_binary row []).raised ≡ false)
      × (parse_row_binary (format_row_binary row []).out ≡ some row)
parse_row_binary-format_row_binary row h f =
    rw (format_row_binary-row_text row [] h f) (refl, parse_row_binary-row_text row h f)

written-some :
    (b : Bytes) (row : Row) (out : Bytes)
    → length b < 2147483648
    → format_items_binary (some b ∷ row) out
      ≡ format_items_binary row (out ++ (int4 (length b) ++ b))
unfolding format_items_binary
written-some b row out h = rw (pack_int4-fits (length b) h)

written-none :
    (b : Bytes) (row : Row) (out : Bytes)
    → ltb (length b) 2147483648 ≡ false
    → format_items_binary (some b ∷ row) out ≡ record { out = out; raised = true }
unfolding format_items_binary pack_int4
written-none b row out h = rw h

items_raised :
    (row : Row) (out : Bytes) → (format_items_binary row out).raised ≡ false → All FitsItem row
unfolding format_items_binary pack_int4
items_raised [] out h = tt
items_raised (none ∷ row) out h = (tt, items_raised row (out ++ binary_null) h)
items_raised (some b ∷ row) out h = elim (Bool-cases (ltb (length b) 2147483648)) [
  | inl fits ↦ (
    ltb→lt (length b) 2147483648 fits,
    items_raised row (out ++ (int4 (length b) ++ b))
        (sym (ap (λ w. w.raised) (written-some b row out (ltb→lt (length b) 2147483648 fits))) ∙ h),
  )
  | inr large ↦ cc (ap (λ w. w.raised) (written-none b row out large), h)
]

-- Where no error is raised the row has less than 2^15 items, each of less than 2^31 bytes.
pub format_row_binary_raises :
    (row : Row) (out : Bytes)
    → (format_row_binary row out).raised ≡ false
    → (length row < 32768) × All FitsItem row
unfolding format_row_binary pack_int2
format_row_binary_raises row out h = elim (Bool-cases (ltb (length row) 32768)) [
  | inl fits ↦ (
    ltb→lt (length row) 32768 fits,
    items_raised row (out ++ int2 (length row)) (sym (ap (λ w. w.raised) (started fits)) ∙ h),
  )
  | inr large ↦ cc (ap (λ w. w.raised) (refused large), h)
]
  where
    started :
        ltb (length row) 32768 ≡ true
        → format_row_binary row out ≡ format_items_binary row (out ++ int2 (length row))
    started fits = rw fits

    refused :
        ltb (length row) 32768 ≡ false
        → format_row_binary row out ≡ record { out = out; raised = true }
    refused large = rw large
