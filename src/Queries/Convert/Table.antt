-- ===== src/Queries/Convert/Table.antt =====
-- The table of names, formats and numbers that `_query2pg` of psycopg3/psycopg3/_queries.py fills.
use psycopg.Prelude.{
  ℕ, suc, ◌+◌, ◌≡◌, refl, ap, ◌∙◌, Option, none, some, List, [], ◌∷◌, ◌++◌, Bytes, length,
  if◌then◌else◌, arith, Bool-cases, inl, inr,
}
use psycopg.Prelude.Equality.{◌===◌, ===_refl}
use psycopg.Prelude.OrderedDict.{OrderedDict, lookup}
use psycopg.Queries.Defs.{Format, index, name, QueryPart, bytes_eq}
use psycopg.Queries.Convert.{Seen, dollar}

-- The names that have a number, in its order, with their formats.
abbrev pub Table : Type 0
Table = OrderedDict Bytes Format

unfoldable pub pair_up : List Bytes → List Format → Table
pair_up (n ∷ ns) (f ∷ fs) = (n, f) ∷ pair_up ns fs
pair_up _ _ = []

-- Where a name stands in the table, from 0.
unfoldable pub position : Bytes → Table → ℕ
position n [] = 0
position n ((m, f) ∷ t) = if m === n then 0 else suc (position n t)

-- The query with each placeholder replaced by the number of its name.
unfoldable pub render : Table → List QueryPart → Bytes
render t [] = []
render t (p ∷ []) = p.pre
render t (p ∷ q ∷ parts) = elim p.item [
  | index i ↦ []
  | name n ↦ p.pre ++ (dollar (position n t + 1) ++ render t (q ∷ parts))
]

-- Every placeholder asks for the format that the table has for its name.
abbrev pub Agree : Table → List QueryPart → Type 0
Agree t [] = Unit
Agree t (p ∷ []) = Unit
Agree t (p ∷ q ∷ parts) =
    elim p.item [ index i ↦ ⊥ | name n ↦ lookup n t ≡ some p.format ] × Agree t (q ∷ parts)

unfoldable pub numbered : ℕ → Table → Seen
unfolding dollar
numbered k [] = []
numbered k ((n, f) ∷ t) = (n, (dollar (k + 1), f)) ∷ numbered (k + 1) t

pub same_number :
    (i j : ℕ) (f : Format)
    → i ≡ j
    → ◌≡◌ {A = Option (Bytes × Format)} (some (dollar i, f)) (some (dollar j, f))
same_number i j f e = rw e

pub same_entry :
    (i j : ℕ) (n : Bytes) (f : Format)
    → i ≡ j
    → ◌≡◌ {A = Seen} ((n, (dollar i, f)) ∷ []) ((n, (dollar j, f)) ∷ [])
same_entry i j n f e = rw e

pub length-numbered : (k : ℕ) (t : Table) → length (numbered k t) ≡ length t
unfolding numbered
length-numbered k [] = refl
length-numbered k ((n, f) ∷ t) = ap suc (length-numbered (k + 1) t)

pub lookup-numbered_new :
    (k : ℕ) (t : Table) (n : Bytes) → lookup n t ≡ none → lookup n (numbered k t) ≡ none
unfolding numbered lookup
lookup-numbered_new k [] n h = refl
lookup-numbered_new k ((m, f) ∷ t) n h = ground (arith, lookup-numbered_new (k + 1) t n)

pub lookup-numbered_known :
    (k : ℕ) (t : Table) (n : Bytes) (f : Format)
    → lookup n t ≡ some f
    → lookup n (numbered k t) ≡ some (dollar (k + position n t + 1), f)
unfolding numbered lookup position
lookup-numbered_known k [] n f h = cc
lookup-numbered_known k ((m, g) ∷ t) n f h = elim (Bool-cases (m === n)) [
  | inl same ↦
      let e : g ≡ f = ground (arith, same) in
      rw (same, e, same_number (k + 0 + 1) (k + 1) f (omega arith))
  | inr other ↦ rw other (
      lookup-numbered_known (k + 1) t n f (rw other at h)
      ∙ same_number (k + 1 + position n t + 1) (k + suc (position n t) + 1) f (omega arith))
]

pub numbered-append_last :
    (k : ℕ) (t : Table) (n : Bytes) (f : Format)
    → numbered k (t ++ (n, f) ∷ []) ≡ numbered k t ++ (n, (dollar (k + length t + 1), f)) ∷ []
unfolding numbered
numbered-append_last k [] n f = same_entry (k + 1) (k + 0 + 1) n f (omega arith)
numbered-append_last k ((m, g) ∷ t) n f =
    ap (λ l. (m, (dollar (k + 1), g)) ∷ l)
      (numbered-append_last (k + 1) t n f
        ∙ ap (λ e. numbered (k + 1) t ++ e)
            (same_entry (k + 1 + length t + 1) (k + suc (length t) + 1) n f (omega arith)))

pub position-append_known :
    (t u : Table) (n : Bytes) (f : Format)
    → lookup n t ≡ some f
    → (position n (t ++ u) ≡ position n t) × (lookup n (t ++ u) ≡ some f)
unfolding position lookup
position-append_known [] u n f h = (cc, cc)
position-append_known ((m, g) ∷ t) u n f h = ground (arith, position-append_known t u n f)

pub position-append_new :
    (t u : Table) (n : Bytes) (f : Format)
    → lookup n t ≡ none
    → (position n (t ++ (n, f) ∷ u) ≡ length t) × (lookup n (t ++ (n, f) ∷ u) ≡ some f)
unfolding position lookup
position-append_new [] u n f h = rw (===_refl n) (refl, refl)
position-append_new ((m, g) ∷ t) u n f h = ground (arith, position-append_new t u n f)
