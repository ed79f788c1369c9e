-- ===== src/Queries/Convert.antt =====
-- `_query2pg` and `_validate_and_reorder_params` of psycopg3/psycopg3/_queries.py.
pub mod Numbering
pub mod Order
pub mod Table
pub mod Reorder
pub mod Positional
pub mod Tests
use psycopg.Prelude.{
  ℕ, suc, ◌+◌, ◌-◌, Bool, true, false, not, ◌&&◌, Option, none, some, List, [], ◌∷◌, ◌++◌, Bytes,
  codes, length, ◌==◌, if◌then◌else◌,
}
use psycopg.Prelude.Decimal.{decimal}
use psycopg.Prelude.OrderedDict.{OrderedDict, lookup, set}
use psycopg.Queries.Defs.{
  Format, Item, index, name, QueryPart, Result, ok, err, programming_error, type_error,
  assertion_error, different_formats, missing_parameter, wrong_count, needs_mapping, needs_sequence,
  bad_params, ◌>>=◌, bytes_eq, format_beq,
}
use psycopg.Queries.Split.{split_query}

-- b"$%d" % n
unfoldable pub dollar : ℕ → Bytes
unfolding decimal
dollar n = b'$' ∷ decimal n

-- What `_query2pg` returns.
pub record Converted : Type 0 where
  pub query : Bytes
  pub formats : List Format
  pub order : Option (List Bytes)
  pub parts : List QueryPart

-- The loop over positional parts: the chunks, joined, and the formats.
unfoldable pub positional : List QueryPart → Result (Bytes × List Format)
unfolding dollar
positional [] = ok ([], [])
positional (p ∷ []) = ok (p.pre, [])
positional (p ∷ q ∷ parts) = elim p.item [
  | index i ↦ do
    (chunks, formats) ← positional (q ∷ parts)
    ok (p.pre ++ (dollar (i + 1) ++ chunks), p.format ∷ formats)
  | name n ↦ err assertion_error
]

abbrev pub Seen : Type 0
Seen = OrderedDict Bytes (Bytes × Format)

-- The loop over named parts: the chunks, the formats and the order.
unfoldable pub named : Seen → List QueryPart → Result (Bytes × List Format × List Bytes)
unfolding dollar
named seen [] = ok ([], [], [])
named seen (p ∷ []) = ok (p.pre, [], [])
named seen (p ∷ q ∷ parts) = elim p.item [
  | index i ↦ err assertion_error
  | name n ↦ elim (lookup n seen) [
    | none ↦ do
      (chunks, formats, order) ← named (set n (dollar (length seen + 1), p.format) seen) (q ∷ parts)
      ok (p.pre ++ (dollar (length seen + 1) ++ chunks), p.format ∷ formats, n ∷ order)
    | some (ph, fmt) ↦ elim (format_beq fmt p.format) [
      | true ↦ do
        (chunks, formats, order) ← named seen (q ∷ parts)
        ok (p.pre ++ (ph ++ chunks), formats, order)
      | false ↦ err (programming_error different_formats)
    ]
  ]
]

unfoldable pub convert_parts : List QueryPart → Result Converted
unfolding positional named
convert_parts [] = err assertion_error
convert_parts (p ∷ parts) = elim p.item [
  | index i ↦ do
    (query, formats) ← positional (p ∷ parts)
    ok (record { query = query; formats = formats; order = none; parts = p ∷ parts })
  | name n ↦ do
    (query, formats, order) ← named [] (p ∷ parts)
    ok (record { query = query; formats = formats; order = some order; parts = p ∷ parts })
]

unfoldable pub query2pg : Bytes → Result Converted
unfolding convert_parts
query2pg query = do parts ← split_query query; convert_parts parts

-- The parameters: a sequence, a mapping, or something else.
pub data Params {ℓ} (V : Type ℓ) : Type ℓ where
  sequence : List V → Params V
  mapping : OrderedDict Bytes V → Params V
  other_params : Params V

abbrev pub or_empty : Option (List Bytes) → List Bytes
or_empty none = []
or_empty (some order) = order

abbrev pub is_empty {ℓ} : {A : Type ℓ} → List A → Bool
is_empty [] = true
is_empty (_ ∷ _) = false

abbrev pub first_is_index : List QueryPart → Bool
first_is_index [] = false
first_is_index (p ∷ _) = elim p.item [ index i ↦ true | name n ↦ false ]

-- [vars[item] for item in order]
unfoldable pub pick {ℓ} : {V : Type ℓ} → OrderedDict Bytes V → List Bytes → Result (List V)
pick vars [] = ok []
pick vars (n ∷ order) = elim (lookup n vars) [
  | none ↦ err (programming_error missing_parameter)
  | some v ↦ do rest ← pick vars order; ok (v ∷ rest)
]

unfoldable pub validate_and_reorder_params {ℓ} :
    {V : Type ℓ} → List QueryPart → Params V → Option (List Bytes) → Result (List V)
unfolding pick
validate_and_reorder_params parts (sequence vars) order =
    if not (length vars == length parts - 1)
    then err (programming_error (wrong_count (length parts - 1) (length vars)))
    else if not (is_empty vars) && not (first_is_index parts)
    then err (type_error needs_mapping)
    else ok vars
validate_and_reorder_params parts (mapping vars) order =
    if not (is_empty vars)
      && (not (length parts == 0) && not (length parts == 1))
      && first_is_index parts
    then err (type_error needs_sequence)
    else pick vars (or_empty order)
validate_and_reorder_params parts other_params order = err (type_error bad_params)
