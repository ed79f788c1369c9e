-- ===== src/Queries/Convert/Tests.antt =====
-- Runs of the model of psycopg3/psycopg3/_queries.py, and its theorems at concrete inputs.
use psycopg.Prelude.{
  ℕ, ◌≡◌, refl, true, false, none, some, ◌⊎◌, List, [], ◌∷◌, Bytes, codes, length, get_elem?, map,
  All,
}
use psycopg.Prelude.OrderedDict.{OrderedDict, lookup, contains, set}
use psycopg.Queries.Defs.{
  Format, auto, text, binary, index, name, QueryPart, ok, err, programming_error,
  incomplete_placeholder, percent_as_operator, mixed_placeholders, different_formats,
  bad_placeholder, missing_parameter, bytes_eq,
}
use psycopg.Queries.Split.{split_query}
use psycopg.Queries.Split.RoundTrip.{
  write_positional, write_named, positional_parts, named_parts, split_query-write_named,
}
use psycopg.Queries.Convert.{query2pg, named, mapping, validate_and_reorder_params}
use psycopg.Queries.Convert.Numbering.{Numbered, named_numbering}
use psycopg.Queries.Convert.Table.{pair_up}
use psycopg.Queries.Convert.Order as Order
use psycopg.Queries.Convert.Order.{first_occurrences}
use psycopg.Queries.Convert.Reorder.{mapping_outcome, Binds, named_binding}
use psycopg.Queries.Convert.Positional.{positional_text, query2pg-write_positional}

named_query :
    query2pg (codes "select %(b)s, %(a)t, %(b)s")
    ≡ ok (record {
      query = codes "select $1, $2, $1";
      formats = auto ∷ text ∷ [];
      order = some (codes "b" ∷ codes "a" ∷ []);
      parts =
          record { pre = codes "select "; item = name (codes "b"); format = auto }
          ∷ record { pre = codes ", "; item = name (codes "a"); format = text }
          ∷ record { pre = codes ", "; item = name (codes "b"); format = auto }
          ∷ record { pre = []; item = index 0; format = auto }
          ∷ [];
    })
unfolding query2pg split_query bytes_eq lookup set
named_query = refl

errors :
    (query2pg (codes "select %(") ≡ err (programming_error incomplete_placeholder))
    × (query2pg (codes "select 1 % 2") ≡ err (programming_error percent_as_operator))
    × (query2pg (codes "%s %(a)s") ≡ err (programming_error mixed_placeholders))
    × (query2pg (codes "%(a)s %(a)b") ≡ err (programming_error different_formats))
    × (query2pg (codes "%d") ≡ err (programming_error bad_placeholder))
unfolding query2pg split_query bytes_eq lookup set
errors = (refl, refl, refl, refl, refl)

-- A `%` before a newline or at the end is no placeholder.
lone_percent :
    split_query (37 ∷ 10 ∷ 37 ∷ [])
    ≡ ok (record { pre = 37 ∷ 10 ∷ 37 ∷ []; item = index 0; format = auto } ∷ [])
unfolding split_query
lone_percent = refl

abbrev rate : List (Bytes × Format)
rate = (codes "select 100%, ", auto) ∷ (codes " % ", binary) ∷ []

abbrev user : List (Bytes × Bytes × Format)
user = (codes "where u = ", codes "user", auto) ∷ []

split_query-write_named_example : split_query (write_named user []) ≡ ok (named_parts user [])
split_query-write_named_example =
    split_query-write_named user [] (((λ h. cc), (refl, (refl, (refl, (refl, tt))))), tt)

query2pg-write_positional_example :
    query2pg (write_positional rate (codes " rows"))
    ≡ ok (record {
      query = positional_text 0 rate (codes " rows");
      formats = map (λ p. p.1) rate;
      order = none;
      parts = positional_parts 0 rate (codes " rows");
    })
query2pg-write_positional_example = query2pg-write_positional rate (codes " rows")

abbrev twice : List QueryPart
twice =
    record { pre = codes "b"; item = name (codes "y"); format = auto }
    ∷ record { pre = codes "a"; item = name (codes "x"); format = text }
    ∷ record { pre = codes "c"; item = name (codes "y"); format = auto }
    ∷ record { pre = []; item = index 0; format = auto }
    ∷ []

abbrev names : List Bytes
names = codes "y" ∷ codes "x" ∷ []

named_numbering_example :
    Numbered (pair_up names (auto ∷ text ∷ [])) (codes "b$1a$2c$1") twice
    × (length names ≡ length {A = Format} (auto ∷ text ∷ []))
    × (names ≡ first_occurrences (Order.names twice))
unfolding named lookup set bytes_eq
named_numbering_example = named_numbering twice (codes "b$1a$2c$1") (auto ∷ text ∷ []) names refl

abbrev vars : OrderedDict Bytes ℕ
vars = (codes "x", 1) ∷ (codes "y", 2) ∷ []

mapping_outcome_example :
    (All (λ n. contains n vars ≡ true) names
      × ((vs : List ℕ) × (validate_and_reorder_params twice (mapping vars) (some names) ≡ ok vs)
          × (map some vs ≡ map (λ n. lookup n vars) names)))
    ⊎ (((i : ℕ) × (n : Bytes) × (get_elem? names i ≡ some n) × (contains n vars ≡ false))
        × (validate_and_reorder_params twice (mapping vars) (some names)
            ≡ err (programming_error missing_parameter)))
mapping_outcome_example = mapping_outcome vars twice names refl

named_binding_example : Binds vars (2 ∷ 1 ∷ []) twice (codes "b$1a$2c$1")
unfolding named lookup set bytes_eq validate_and_reorder_params
named_binding_example =
    named_binding vars twice (codes "b$1a$2c$1") (auto ∷ text ∷ []) names (2 ∷ 1 ∷ []) refl refl
      refl
