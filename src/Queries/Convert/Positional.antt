-- ===== src/Queries/Convert/Positional.antt =====
-- `_query2pg` and `_validate_and_reorder_params` of psycopg3/psycopg3/_queries.py for `%s` and its
-- kin.
use psycopg.Prelude.{
  ℕ, ◌+◌, ◌-◌, ◌≡◌, refl, Bool, true, false, not, ◌&&◌, none, List, [], ◌∷◌, ◌++◌, Bytes, length,
  if◌then◌else◌, arith, map, ◌==◌,
}
use psycopg.Queries.Defs.{
  Format, ok, err, programming_error, type_error, needs_mapping, wrong_count, bytes_eq,
}
use psycopg.Queries.Split.RoundTrip.{
  write_positional, positional_parts, split_query-write_positional,
}
use psycopg.Queries.Convert.{
  sequence, dollar, positional, convert_parts, query2pg, validate_and_reorder_params, is_empty,
  first_is_index,
}

-- The query with `$k` for the k-th placeholder, from 1.
unfoldable pub positional_text : ℕ → List (Bytes × Format) → Bytes → Bytes
positional_text k [] last = last
positional_text k ((pre, f) ∷ ps) last = pre ++ (dollar (k + 1) ++ positional_text (k + 1) ps last)

positional-parts :
    (k : ℕ) (ps : List (Bytes × Format)) (last : Bytes)
    → positional (positional_parts k ps last) ≡ ok (positional_text k ps last, map (λ p. p.1) ps)
unfolding positional positional_parts positional_text
positional-parts k [] last = refl
positional-parts k ((pre, f) ∷ []) last = refl
positional-parts k ((pre, f) ∷ p ∷ ps) last = rw (positional-parts (k + 1) (p ∷ ps) last)

length-positional_parts :
    (k : ℕ) (ps : List (Bytes × Format)) (last : Bytes)
    → length (positional_parts k ps last) ≡ length ps + 1
unfolding positional_parts
length-positional_parts k [] last = omega arith
length-positional_parts k ((pre, f) ∷ ps) last =
    omega (arith, length-positional_parts (k + 1) ps last)

-- A query that is written from fragments, their `%` doubled, with positional placeholders between
-- them becomes the fragments themselves with $1, $2, … between them; the formats are those of the
-- placeholders in turn, and there is no order of names.
pub query2pg-write_positional :
    (ps : List (Bytes × Format)) (last : Bytes)
    → query2pg (write_positional ps last)
      ≡ ok (record {
        query = positional_text 0 ps last;
        formats = map (λ p. p.1) ps;
        order = none;
        parts = positional_parts 0 ps last;
      })
unfolding query2pg convert_parts positional_parts positional_text positional
query2pg-write_positional ps last = rw (split_query-write_positional ps last) (converted ps)
  where
    converted :
        (ps : List (Bytes × Format))
        → convert_parts (positional_parts 0 ps last)
          ≡ ok (record {
            query = positional_text 0 ps last;
            formats = map (λ p. p.1) ps;
            order = none;
            parts = positional_parts 0 ps last;
          })
    converted [] = refl
    converted (p ∷ ps) = rw (positional-parts 0 (p ∷ ps) last)

-- For a query that is written from fragments with positional placeholders between them a sequence of
-- parameters is taken, as it is, if it has as many values as there are placeholders; any other is
-- refused with both numbers.
sequence_outcome {ℓ} :
    {V : Type ℓ} (ps : List (Bytes × Format)) (last : Bytes) (vars : List V)
    → validate_and_reorder_params (positional_parts 0 ps last) (sequence vars) none ≡ (
        if length vars == length ps
        then ok vars
        else err (programming_error (wrong_count (length ps) (length vars))))
unfolding validate_and_reorder_params positional_parts
sequence_outcome ps last vars =
    let size : length (positional_parts 0 ps last) - 1 ≡ length ps =
      omega (arith, length-positional_parts 0 ps last) in
    rw size (go ps (length vars == length ps))
  where
    go :
        (qs : List (Bytes × Format)) (b : Bool)
        → (if not b
            then err (programming_error (wrong_count (length ps) (length vars)))
            else if not (is_empty vars) && not (first_is_index (positional_parts 0 qs last))
            then err (type_error needs_mapping)
            else ok vars)
          ≡ (if b then ok vars else err (programming_error (wrong_count (length ps) (length vars))))
    go qs false = refl
    go [] true = ground arith
    go (q ∷ qs) true = ground arith
