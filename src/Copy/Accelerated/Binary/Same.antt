-- ===== src/Copy/Accelerated/Binary/Same.antt =====
-- The binary format of COPY in psycopg3_c/psycopg3_c/_psycopg3/copy.pyx beside that of
-- psycopg3/psycopg3/copy.py.
use psycopg.Prelude.{
  ℕ, zero, suc, ◌+◌, ◌*◌, ◌%◌, ◌<◌, ◌≡◌, refl, sym, ap, subst, ◌∙◌, if◌then◌else◌, Bool, true,
  false, Option, none, some, [], ◌∷◌, ◌++◌, Bytes, length, take, drop, ltb, arith, All,
  append_assoc, append-nil,
}
use psycopg.Prelude.Equality.{◌===◌, nat_eq, list_eq}
use psycopg.Prelude.Int.{negsuc, signed-pos}
use psycopg.Copy.Text.{Row}
use psycopg.Copy.Binary as Python
use psycopg.Copy.Binary.RoundTrip.{
  parse_fields-some, parse_row_binary-pos, FitsItem, row_text, items_text,
  format_row_binary-row_text,
}
use psycopg.Copy.Accelerated.Binary.{
  binary_null, format_items, format_row_binary, Parsed, row, cons_item, parse_fields,
  parse_row_binary,
}

format_items-text :
    (items : Row) (out : Bytes)
    → All FitsItem items
    → format_items items out ≡ out ++ items_text items
unfolding format_items items_text
format_items-text [] out h = sym (append-nil out)
format_items-text (none ∷ items) out h =
    format_items-text items (out ++ binary_null) h.1
    ∙ append_assoc out binary_null (items_text items)
format_items-text (some b ∷ items) out h =
    let size : length b % 4294967296 ≡ length b = omega (arith, h.0) in
    rw size (format_items-text items _ h.1 ∙ append_assoc out _ (items_text items))

-- On a row of less than 2^15 items, each of less than 2^31 bytes, the implementation in C adds to the
-- buffer what the one in Python adds, and Python raises no error there.
pub format_row_binary_same :
    (items : Row) (out : Bytes)
    → length items < 32768
    → All FitsItem items
    → Python.format_row_binary items out
      ≡ record { out = format_row_binary items out; raised = false }
format_row_binary_same items out h f =
    format_row_binary-row_text items out h f
    ∙ ap (λ b. record { out = b; raised = false }) (sym same)
  where
    same : format_row_binary items out ≡ out ++ row_text items
    same =
        let size : length items % 65536 ≡ length items = omega (arith, h) in
        unfold format_row_binary row_text in
        rw size (format_items-text items _ f ∙ append_assoc out _ (items_text items))

cons_item-row :
    (item : Option Bytes) (p : Parsed) {items : Row}
    → cons_item item p ≡ row items
    → (rest : Row) × (p ≡ row rest) × (items ≡ item ∷ rest)
cons_item-row item (row rest) h = (rest, refl, cc h)
cons_item-row item Parsed.length_exceeding_data h = cc
cons_item-row item Parsed.read_behind h = cc

-- The four bytes of -1 are a negative length in Python too.
unpack_int4-null :
    (a b c d : ℕ) (s : Bytes)
    → (a ∷ b ∷ c ∷ d ∷ [] === binary_null) ≡ true
    → Python.unpack_int4 (a ∷ b ∷ c ∷ d ∷ s) ≡ some (negsuc 0)
unfolding Python.unpack_int4
unpack_int4-null a b c d s h =
    let whole : a * 16777216 + b * 65536 + c * 256 + d ≡ 4294967295 = ground (arith, h) in
    rw whole refl

python_null :
    (n k : ℕ) (s : Bytes)
    → Python.unpack_int4 s ≡ some (negsuc k)
    → Python.parse_fields (suc n) s ≡ Python.cons_row none (Python.parse_fields n (drop 4 s))
unfolding Python.parse_fields
python_null n k s h = rw (h, Python.parse_fields)

four : ℕ → ℕ → ℕ → ℕ → ℕ
four a b c d = a * 16777216 + b * 65536 + c * 256 + d

parse_fields-data :
    (n a b c d : ℕ) (t : Bytes)
    → parse_fields (suc n) (a ∷ b ∷ c ∷ d ∷ t) ≡ (
        if a ∷ b ∷ c ∷ d ∷ [] === binary_null
        then cons_item none (parse_fields n t)
        else if ltb (length t) (four a b c d)
        then Parsed.length_exceeding_data
        else cons_item (some (take (four a b c d) t)) (parse_fields n (drop (four a b c d) t)))
unfolding parse_fields four
parse_fields-data n a b c d t = refl

length-take : (k : ℕ) (t : Bytes) → ltb (length t) k ≡ false → length (take k t) ≡ k
length-take zero t h = refl
length-take (suc k) [] h = ground arith
length-take (suc k) (c ∷ t) h = ap suc (length-take k t (ground (arith, h)))

abbrev ReadAlike : ℕ → Bytes → Type 0
ReadAlike n s =
    (items : Row)
    → parse_fields n s ≡ row items
    → All FitsItem items
    → Python.parse_fields n s ≡ some items

null_same :
    (n a b c d : ℕ) (t : Bytes) (items : Row)
    → ReadAlike n t
    → (a ∷ b ∷ c ∷ d ∷ [] === binary_null) ≡ true
    → cons_item none (parse_fields n t) ≡ row items
    → All FitsItem items
    → Python.parse_fields (suc n) (a ∷ b ∷ c ∷ d ∷ t) ≡ some items
null_same n a b c d t items alike null h f =
    let (rest, read, split) = cons_item-row none (parse_fields n t) h in
    python_null n 0 (a ∷ b ∷ c ∷ d ∷ t) (unpack_int4-null a b c d t null)
    ∙ ap (Python.cons_row none) (alike rest read (subst (All FitsItem) split f).1)
    ∙ ap some (sym split)

field_same :
    (n a b c d : ℕ) (t : Bytes) (items : Row)
    → ReadAlike n (drop (four a b c d) t)
    → ltb (length t) (four a b c d) ≡ false
    → cons_item (some (take (four a b c d) t)) (parse_fields n (drop (four a b c d) t)) ≡ row items
    → All FitsItem items
    → Python.parse_fields (suc n) (a ∷ b ∷ c ∷ d ∷ t) ≡ some items
field_same n a b c d t items alike inside h f =
    let k = four a b c d in
    let (rest, read, split) = cons_item-row (some (take k t)) (parse_fields n (drop k t)) h in
    let fits = subst (All FitsItem) split f in
    let small : k < 2147483648 = omega (arith, fits.0, length-take k t inside) in
    parse_fields-some n k (a ∷ b ∷ c ∷ d ∷ t)
      (unfold Python.unpack_int4 four in ap some (signed-pos 2147483648 4294967296 _ small))
    ∙ ap (Python.cons_row (some (take k t))) (alike rest read fits.1)
    ∙ ap some (sym split)

-- What the implementation in C reads, that in Python reads.
parse_fields_same : (n : ℕ) (s : Bytes) → ReadAlike n s
parse_fields_same zero s items h f = unfold parse_fields Python.parse_fields in cc h
parse_fields_same (suc n) [] items h f = unfold parse_fields in cc h
parse_fields_same (suc n) (a ∷ []) items h f = unfold parse_fields in cc h
parse_fields_same (suc n) (a ∷ b ∷ []) items h f = unfold parse_fields in cc h
parse_fields_same (suc n) (a ∷ b ∷ c ∷ []) items h f = unfold parse_fields in cc h
parse_fields_same (suc n) (a ∷ b ∷ c ∷ d ∷ t) items h f =
    by_tests (a ∷ b ∷ c ∷ d ∷ [] === binary_null) (ltb (length t) (four a b c d)) refl refl
      (parse_fields_same n t) (parse_fields_same n (drop (four a b c d) t))
      (sym (parse_fields-data n a b c d t) ∙ h)
  where
    by_tests :
        (null exceeding : Bool)
        → (a ∷ b ∷ c ∷ d ∷ [] === binary_null) ≡ null
        → ltb (length t) (four a b c d) ≡ exceeding
        → ReadAlike n t
        → ReadAlike n (drop (four a b c d) t)
        → (if null
            then cons_item none (parse_fields n t)
            else if exceeding
            then Parsed.length_exceeding_data
            else cons_item (some (take (four a b c d) t)) (parse_fields n (drop (four a b c d) t)))
          ≡ row items
        → Python.parse_fields (suc n) (a ∷ b ∷ c ∷ d ∷ t) ≡ some items
    by_tests true exceeding e1 e2 behind ahead g = null_same n a b c d t items behind e1 g f
    by_tests false true e1 e2 behind ahead g = cc g
    by_tests false false e1 e2 behind ahead g = field_same n a b c d t items ahead e2 g f

-- What a round that succeeds has read: an item, and the rest of the row from further on.
abbrev RoundRead : ℕ → Row → Type 0
RoundRead n items =
    (item : Option Bytes) × (behind : Bytes) × (rest : Row) × (parse_fields n behind ≡ row rest)
    × (items ≡ item ∷ rest)

round_read :
    (n : ℕ) (s : Bytes) (items : Row) → parse_fields (suc n) s ≡ row items → RoundRead n items
round_read n [] items h = unfold parse_fields in cc h
round_read n (a ∷ []) items h = unfold parse_fields in cc h
round_read n (a ∷ b ∷ []) items h = unfold parse_fields in cc h
round_read n (a ∷ b ∷ c ∷ []) items h = unfold parse_fields in cc h
round_read n (a ∷ b ∷ c ∷ d ∷ t) items h =
    by_tests (a ∷ b ∷ c ∷ d ∷ [] === binary_null) (ltb (length t) (four a b c d))
      (sym (parse_fields-data n a b c d t) ∙ h)
  where
    by_tests :
        (null exceeding : Bool)
        → (if null
            then cons_item none (parse_fields n t)
            else if exceeding
            then Parsed.length_exceeding_data
            else cons_item (some (take (four a b c d) t)) (parse_fields n (drop (four a b c d) t)))
          ≡ row items
        → RoundRead n items
    by_tests true exceeding g =
        let (rest, read, split) = cons_item-row none (parse_fields n t) g in
        (none, t, rest, read, split)
    by_tests false true g = cc g
    by_tests false false g =
        let k = four a b c d in
        let (rest, read, split) = cons_item-row (some (take k t)) (parse_fields n (drop k t)) g in
        (some (take k t), drop k t, rest, read, split)

-- A row has the number of fields that the loop is run for.
length-parse_fields :
    (n : ℕ) (s : Bytes) (items : Row) → parse_fields n s ≡ row items → length items ≡ n
length-parse_fields zero s items h = unfold parse_fields in ground (arith, h)
length-parse_fields (suc n) s items h =
    let (item, behind, rest, read, split) = round_read n s items h in
    ap length split ∙ ap suc (length-parse_fields n behind rest read)

-- A row of less than 2^15 items, each of less than 2^31 bytes, that the implementation in C reads from
-- any data, the one in Python reads from them too.
pub parse_row_binary_same :
    (s : Bytes) (items : Row)
    → parse_row_binary s ≡ row items
    → length items < 32768
    → All FitsItem items
    → Python.parse_row_binary s ≡ some items
parse_row_binary_same [] items h l f = unfold parse_row_binary in cc h
parse_row_binary_same (a ∷ []) items h l f = unfold parse_row_binary in cc h
parse_row_binary_same (a ∷ b ∷ t) items h l f =
    let read : parse_fields (a * 256 + b) t ≡ row items = unfold parse_row_binary in h in
    let small : a * 256 + b < 32768 =
      omega (arith, l, length-parse_fields (a * 256 + b) t items read) in
    parse_row_binary-pos (a * 256 + b) (a ∷ b ∷ t)
      (unfold Python.unpack_int2 in ap some (signed-pos 32768 65536 (a * 256 + b) small))
    ∙ parse_fields_same (a * 256 + b) t items read f
