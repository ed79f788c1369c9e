-- ===== src/Errors/Lookup.antt =====
-- The table of psycopg3/psycopg3/errors.py is consistent with the classes of codes.
use psycopg.Prelude.{
  ℕ, ◌+◌, ◌*◌, ◌≤◌, ◌<◌, ◌≡◌, refl, sym, ap, ◌∙◌, Bool, true, false, ◌&&◌, Option, none, some,
  some-injective, List, [], ◌∷◌, ◌++◌, Bytes, All, ltb, ltb→lt, arith, if◌then◌else◌, Bool-cases,
  Option-cases, inl, inr,
}
use psycopg.Prelude.Equality.{◌===◌, nat_eq, list_eq, list_beq→eq, list_beq_self}
use psycopg.Errors.{
  Base, database_error, data_error, operational_error, integrity_error, internal_error,
  programming_error, not_supported_error, Row, code, ErrorClass, dbapi, class_of, base_of, lookup,
  get_base_exception, choose, class_for_state,
}
use psycopg.Errors.Lower.{from_02000, from_22000, from_2201b, from_2203d, from_25000}
use psycopg.Errors.Upper.{from_38000, from_42000, from_42p08, from_55000, from_hv000, from_p0000}

-- Every class declared, in order.
unfoldable pub sqlcodes : List Row
unfolding from_02000 from_22000 from_2201b from_2203d from_25000 from_38000 from_42000 from_42p08
    from_55000 from_hv000 from_p0000
sqlcodes =
    from_02000
    ++ (from_22000
        ++ (from_2201b
            ++ (from_2203d
                ++ (from_25000
                    ++ (from_38000
                        ++ (from_42000
                            ++ (from_42p08 ++ (from_55000 ++ (from_hv000 ++ (from_p0000))))))))))

abbrev base_beq : Base → Base → Bool
base_beq database_error database_error = true
base_beq data_error data_error = true
base_beq operational_error operational_error = true
base_beq integrity_error integrity_error = true
base_beq internal_error internal_error = true
base_beq programming_error programming_error = true
base_beq not_supported_error not_supported_error = true
base_beq _ _ = false

base_beq→eq : (a b : Base) → base_beq a b ≡ true → a ≡ b
base_beq→eq database_error b h = ground arith
base_beq→eq data_error b h = ground arith
base_beq→eq operational_error b h = ground arith
base_beq→eq integrity_error b h = ground arith
base_beq→eq internal_error b h = ground arith
base_beq→eq programming_error b h = ground arith
base_beq→eq not_supported_error b h = ground arith

-- The base that a row is declared with is that of its code.
abbrev is_base : Option Base → Base → Bool
is_base none b = false
is_base (some a) b = base_beq a b

all_consistent : List Row → Bool
all_consistent [] = true
all_consistent (r ∷ rows) =
    is_base (get_base_exception (code r)) (base_of (class_of r)) && all_consistent rows

-- A code as a number, to see that the codes go up.
number : ℕ → Bytes → ℕ
number n [] = n
number n (c ∷ s) = number (n * 256 + c) s

ascending : ℕ → List Row → Bool
ascending n [] = true
ascending n (r ∷ rows) = ltb n (number 0 (code r)) && ascending (number 0 (code r)) rows

sqlcodes_consistent : all_consistent sqlcodes ≡ true
unfolding all_consistent sqlcodes get_base_exception
sqlcodes_consistent = refl

sqlcodes-ascending : ascending 0 sqlcodes ≡ true
unfolding ascending sqlcodes number
sqlcodes-ascending = refl

and_true : (a b : Bool) → (a && b) ≡ true → (a ≡ true) × (b ≡ true)
and_true true b h = (refl, h)
and_true false b h = cc h

lookup-later :
    (s : Bytes) (r q : Row) (rows : List Row)
    → lookup s rows ≡ some q
    → lookup s (r ∷ rows) ≡ some q
unfolding lookup
lookup-later s r q rows h = rw (h, lookup)

lookup-here :
    (s : Bytes) (r : Row) (rows : List Row)
    → lookup s rows ≡ none
    → lookup s (r ∷ rows) ≡ (if s === code r then some r else none)
unfolding lookup
lookup-here s r rows h = rw (h, lookup)

-- A code below all of them is not there.
lookup-below :
    (n : ℕ) (s : Bytes) (rows : List Row)
    → ascending n rows ≡ true
    → number 0 s ≤ n
    → lookup s rows ≡ none
lookup-below n s [] h below = unfold lookup in refl
lookup-below n s (r ∷ rows) h below =
    let up =
      and_true (ltb n (number 0 (code r))) (ascending (number 0 (code r)) rows)
        (unfold ascending in h) in
    let higher : n < number 0 (code r) = ltb→lt n (number 0 (code r)) up.0 in
    lookup-here s r rows
      (lookup-below (number 0 (code r)) s rows up.1 (omega (arith, below, higher)))
    ∙ elim (Bool-cases (s === code r)) [
      | inl same ↦
          let e : number 0 s ≡ number 0 (code r) = ap (number 0) (list_beq→eq s (code r) same) in
          absurd (omega (arith, e, below, higher))
      | inr other ↦ rw other refl
    ]

-- The row of its own code is found.
abbrev IsFound : List Row → Row → Type 0
IsFound rows r = lookup (code r) rows ≡ some r

All-later : (r : Row) (rows qs : List Row) → All (IsFound rows) qs → All (IsFound (r ∷ rows)) qs
All-later r rows [] h = tt
All-later r rows (q ∷ qs) h = (lookup-later (code q) r q rows h.0, All-later r rows qs h.1)

ascending-IsFound : (n : ℕ) (rows : List Row) → ascending n rows ≡ true → All (IsFound rows) rows
ascending-IsFound n [] h = tt
ascending-IsFound n (r ∷ rows) h =
    let up =
      and_true (ltb n (number 0 (code r))) (ascending (number 0 (code r)) rows)
        (unfold ascending in h) in
    (
      lookup-here (code r) r rows
            (lookup-below (number 0 (code r)) (code r) rows up.1 (omega arith))
          ∙ rw (list_beq_self (code r)) refl,
      All-later r rows rows (ascending-IsFound (number 0 (code r)) rows up.1),
    )

-- What is found has the code that was looked for, and the base of that code.
lookup-base :
    (s : Bytes) (rows : List Row) (r : Row)
    → all_consistent rows ≡ true
    → lookup s rows ≡ some r
    → get_base_exception s ≡ some (base_of (class_of r))
lookup-base s [] r h e = unfold lookup in cc e
lookup-base s (q ∷ rows) r h e =
    let parts =
      and_true (is_base (get_base_exception (code q)) (base_of (class_of q))) (all_consistent rows)
        (unfold all_consistent in h) in
    elim (Option-cases (lookup s rows)) [
      | inl absent ↦ here (lookup-here s q rows absent) parts.0
      | inr (p, found) ↦
          lookup-base s rows r parts.1 (found ∙ sym (lookup-later s q p rows found) ∙ e)
    ]
  where
    of_base : (o : Option Base) (b : Base) → is_base o b ≡ true → o ≡ some b
    of_base none b k = cc k
    of_base (some a) b k = ap some (base_beq→eq a b k)

    tested :
        (same : Bool)
        → (s === code q) ≡ same
        → (if same then some q else none) ≡ some r
        → is_base (get_base_exception (code q)) (base_of (class_of q)) ≡ true
        → get_base_exception s ≡ some (base_of (class_of r))
    tested true same k b =
        ap get_base_exception (list_beq→eq s (code q) same)
        ∙ of_base (get_base_exception (code q)) (base_of (class_of q)) b
        ∙ ap (λ p. some (base_of (class_of p))) (some-injective k)
    tested false same k b = cc k

    here :
        lookup s (q ∷ rows) ≡ (if s === code q then some q else none)
        → is_base (get_base_exception (code q)) (base_of (class_of q)) ≡ true
        → get_base_exception s ≡ some (base_of (class_of r))
    here step b = tested (s === code q) refl (sym step ∙ e) b

-- A class chosen for a state that is not empty derives from the class of the DB API for its code.
abbrev pub IsChosen : Option ErrorClass → Option Base → Type 0
IsChosen chosen base = (k : ErrorClass) × (chosen ≡ some k) × (base ≡ some (base_of k))

chosen_class :
    (rows : List Row) (s : Bytes)
    → class_for_state rows s ≡ choose (lookup s rows) (get_base_exception s)
unfolding class_for_state
chosen_class rows s = refl

base_total : (c : ℕ) (s : Bytes) → (b : Base) × (get_base_exception (c ∷ s) ≡ some b)
unfolding get_base_exception
base_total c s = (_, refl)

class-IsChosen :
    (rows : List Row) (c : ℕ) (s : Bytes)
    → all_consistent rows ≡ true
    → IsChosen (class_for_state rows (c ∷ s)) (get_base_exception (c ∷ s))
class-IsChosen rows c s h = elim (Option-cases (lookup (c ∷ s) rows)) [
  | inl absent ↦
      let (b, e) = base_total c s in
      (
        dbapi b,
        chosen_class rows (c ∷ s)
            ∙ ap (λ o. choose o (get_base_exception (c ∷ s))) absent
            ∙ ap (choose none) e,
        e,
      )
  | inr (r, found) ↦ (
    class_of r,
    chosen_class rows (c ∷ s) ∙ ap (λ o. choose o (get_base_exception (c ∷ s))) found,
    lookup-base (c ∷ s) rows r h found,
  )
]

All-class :
    (rows qs : List Row)
    → All (IsFound rows) qs
    → All (λ r. class_for_state rows (code r) ≡ some (class_of r)) qs
All-class rows [] h = tt
All-class rows (r ∷ qs) h = (
  chosen_class rows (code r) ∙ ap (λ o. choose o (get_base_exception (code r))) h.0,
  All-class rows qs h.1,
)

-- For each SQLSTATE that is not empty an exception class is chosen, and it derives from the class of the
-- DB API that the first two characters of the SQLSTATE stand for, or else the first one, or else from
-- DatabaseError; and each class declared is the one chosen for its own code.
pub class_for_state_lem :
    ((c : ℕ) (s : Bytes) → IsChosen (class_for_state sqlcodes (c ∷ s)) (get_base_exception (c ∷ s)))
    × All (λ r. class_for_state sqlcodes (code r) ≡ some (class_of r)) sqlcodes
class_for_state_lem = (
  λ c s. class-IsChosen sqlcodes c s sqlcodes_consistent,
  All-class sqlcodes sqlcodes (ascending-IsFound 0 sqlcodes sqlcodes-ascending),
)
