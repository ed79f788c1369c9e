-- ===== src/Copy/Accelerated/Tests.antt =====
-- Runs of the model of psycopg3_c/psycopg3_c/_psycopg3/copy.pyx, and its theorems at concrete inputs.
use psycopg.Prelude.{
  ℕ, zero, suc, ◌≡◌, refl, ap, false, none, some, inr, [], ◌∷◌, ◌++◌, Bytes, codes, arith,
}
use psycopg.Copy.Text.{Row, format_row_text as python_format_row_text}
use psycopg.Copy.Binary as Python
use psycopg.Copy.Accelerated.Format.{format_row_text, copy_escape_lut, push_forward}
use psycopg.Copy.Accelerated.Format.Same.{IsSized, format_row_text_same}
use psycopg.Copy.Accelerated.Parse.{Parsed, parse_row_text, scan}
use psycopg.Copy.Accelerated.Parse.Bounds.{FillsCopy, scan-FillsCopy}
use psycopg.Copy.Accelerated.Parse.RoundTrip.{parse_row_text-format_row_text_both}
use psycopg.Copy.Accelerated.Binary as Binary
use psycopg.Copy.Accelerated.Binary.Same.{format_row_binary_same, parse_row_binary_same}

-- A buffer that holds zeros where it has been enlarged.
zeros : ℕ → Bytes
zeros zero = []
zeros (suc n) = 0 ∷ zeros n

zeros-IsSized : IsSized zeros
unfolding zeros
zeros-IsSized zero = refl
zeros-IsSized (suc n) = ap suc (zeros-IsSized n)

-- A NULL, and bytes with a tab, a newline and a backslash.
abbrev control : Row
control = none ∷ some (97 ∷ 9 ∷ 92 ∷ 10 ∷ []) ∷ []

abbrev plain : Row
plain = some (97 ∷ 92 ∷ 98 ∷ []) ∷ none ∷ []

-- A tab and a newline of an item stay in the line, behind a backslash.
control_kept :
    format_row_text zeros control []
    ≡ codes "\\N" ++ (9 ∷ 97 ∷ 92 ∷ 9 ∷ 92 ∷ 92 ∷ 92 ∷ 10 ∷ 10 ∷ [])
unfolding format_row_text copy_escape_lut push_forward zeros
control_kept = refl

tab_at_end : parse_row_text 1 (codes "a" ++ (9 ∷ 98 ∷ 10 ∷ [])) ≡ Parsed.tab_at_end
unfolding parse_row_text
tab_at_end = refl

newline_before_end : parse_row_text 2 (codes "a" ++ 10 ∷ []) ≡ Parsed.newline_before_end
unfolding parse_row_text
newline_before_end = refl

delimiter_not_found : parse_row_text 1 (codes "a\\") ≡ Parsed.delimiter_not_found
unfolding parse_row_text
delimiter_not_found = refl

-- A length behind the data is an error in C, and a shorter item in Python.
length_exceeding :
    Binary.parse_row_binary (0 ∷ 1 ∷ 0 ∷ 0 ∷ 0 ∷ 9 ∷ 97 ∷ []) ≡ Binary.Parsed.length_exceeding_data
unfolding Binary.parse_row_binary
length_exceeding = refl

format_row_text_same_example :
    format_row_text zeros plain (codes "x") ≡ python_format_row_text plain (codes "x")
format_row_text_same_example =
    format_row_text_same zeros plain (codes "x") zeros-IsSized
      ((inr (omega arith), (inr (omega arith), (inr (omega arith), tt))), (tt, tt))

parse_row_text-format_row_text_both_example :
    (parse_row_text 2 (format_row_text zeros control []) ≡ Parsed.row control)
    × (parse_row_text 2 (python_format_row_text control []) ≡ Parsed.row control)
parse_row_text-format_row_text_both_example =
    parse_row_text-format_row_text_both zeros none (some (97 ∷ 9 ∷ 92 ∷ 10 ∷ []) ∷ []) zeros-IsSized

scan-FillsCopy_example : FillsCopy (scan (97 ∷ 92 ∷ 116 ∷ 9 ∷ []))
scan-FillsCopy_example = scan-FillsCopy (97 ∷ 92 ∷ 116 ∷ 9 ∷ []) (λ e. ends e)
  where
    ends : (scan (97 ∷ 92 ∷ 116 ∷ 9 ∷ [])).at_end ≡ [] → ⊥
    ends e = unfold scan in cc e

format_row_binary_same_example :
    Python.format_row_binary control (codes "x")
    ≡ record { out = Binary.format_row_binary control (codes "x"); raised = false }
format_row_binary_same_example =
    format_row_binary_same control (codes "x") (omega arith) (tt, (omega arith, tt))

parse_row_binary_same_example :
    Python.parse_row_binary (0 ∷ 1 ∷ 0 ∷ 0 ∷ 0 ∷ 1 ∷ 97 ∷ []) ≡ some (some (97 ∷ []) ∷ [])
parse_row_binary_same_example =
    parse_row_binary_same (0 ∷ 1 ∷ 0 ∷ 0 ∷ 0 ∷ 1 ∷ 97 ∷ []) (some (97 ∷ []) ∷ []) read (omega arith)
      (omega arith, tt)
  where
    read :
        Binary.parse_row_binary (0 ∷ 1 ∷ 0 ∷ 0 ∷ 0 ∷ 1 ∷ 97 ∷ [])
        ≡ Binary.Parsed.row (some (97 ∷ []) ∷ [])
    read = unfold Binary.parse_row_binary in refl
