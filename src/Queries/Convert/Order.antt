-- ===== src/Queries/Convert/Order.antt =====
-- The names of the placeholders of psycopg3/psycopg3/_queries.py, in the order in which they occur first.
use psycopg.Prelude.{
  ◌≡◌, refl, sym, ap, ◌∙◌, true, false, none, some, List, [], ◌∷◌, ◌++◌, Bytes, if◌then◌else◌,
  arith, Bool-cases, inl, inr,
}
use psycopg.Prelude.Equality.{◌===◌}
use psycopg.Prelude.OrderedDict.{OrderedDict, lookup, contains}
use psycopg.Queries.Defs.{Format, QueryPart, index, name, bytes_eq}

-- The names, one for each placeholder; the last part has none.
unfoldable pub names : List QueryPart → List Bytes
names [] = []
names (p ∷ []) = []
names (p ∷ q ∷ parts) = elim p.item [ index i ↦ names (q ∷ parts) | name n ↦ n ∷ names (q ∷ parts) ]

unfoldable pub drop_name : Bytes → List Bytes → List Bytes
drop_name n [] = []
drop_name n (m ∷ ns) = if n === m then drop_name n ns else m ∷ drop_name n ns

-- Each name once, where it occurs first.
unfoldable pub first_occurrences : List Bytes → List Bytes
unfolding drop_name
first_occurrences [] = []
first_occurrences (n ∷ ns) = n ∷ drop_name n (first_occurrences ns)

-- The names that are not in the table.
unfoldable pub not_in : OrderedDict Bytes Format → List Bytes → List Bytes
not_in t [] = []
not_in t (n ∷ ns) = if contains n t then not_in t ns else n ∷ not_in t ns

pub not_in-nothing : (ns : List Bytes) → not_in [] ns ≡ ns
unfolding not_in contains lookup
not_in-nothing [] = refl
not_in-nothing (n ∷ ns) = ap (λ l. n ∷ l) (not_in-nothing ns)

not_in-known :
    (t : OrderedDict Bytes Format) (n : Bytes) (ns : List Bytes)
    → contains n t ≡ true
    → not_in t (n ∷ ns) ≡ not_in t ns
unfolding not_in
not_in-known t n ns h = rw h refl

not_in-unknown :
    (t : OrderedDict Bytes Format) (n : Bytes) (ns : List Bytes)
    → contains n t ≡ false
    → not_in t (n ∷ ns) ≡ n ∷ not_in t ns
unfolding not_in
not_in-unknown t n ns h = rw h refl

drop_name-same :
    (n m : Bytes) (ns : List Bytes) → (n === m) ≡ true → drop_name n (m ∷ ns) ≡ drop_name n ns
unfolding drop_name
drop_name-same n m ns h = rw h refl

drop_name-other :
    (n m : Bytes) (ns : List Bytes) → (n === m) ≡ false → drop_name n (m ∷ ns) ≡ m ∷ drop_name n ns
unfolding drop_name
drop_name-other n m ns h = rw h refl

-- A name of the table may be dropped before.
not_in-drop_name :
    (t : OrderedDict Bytes Format) (n : Bytes) (ns : List Bytes)
    → contains n t ≡ true
    → not_in t (drop_name n ns) ≡ not_in t ns
unfolding not_in drop_name
not_in-drop_name t n [] h = refl
not_in-drop_name t n (m ∷ ns) h = elim (Bool-cases (n === m)) [
  | inl same ↦
      ap (not_in t) (drop_name-same n m ns same)
      ∙ not_in-drop_name t n ns h
      ∙ sym (not_in-known t m ns (ap (λ k. contains k t) (sym ((bytes_eq.beq_iff n m).0 same)) ∙ h))
  | inr other ↦ ap (not_in t) (drop_name-other n m ns other) ∙ elim (Bool-cases (contains m t)) [
    | inl known ↦
        not_in-known t m (drop_name n ns) known
        ∙ not_in-drop_name t n ns h
        ∙ sym (not_in-known t m ns known)
    | inr unknown ↦
        not_in-unknown t m (drop_name n ns) unknown
        ∙ ap (λ l. m ∷ l) (not_in-drop_name t n ns h)
        ∙ sym (not_in-unknown t m ns unknown)
  ]
]

contains-append_same :
    (t : OrderedDict Bytes Format) (n m : Bytes) (f : Format)
    → (n === m) ≡ true
    → contains m (t ++ (n, f) ∷ []) ≡ true
unfolding contains lookup
contains-append_same [] n m f h = rw h refl
contains-append_same ((k, g) ∷ t) n m f h = ground (arith, contains-append_same t n m f h)

contains-append_other :
    (t : OrderedDict Bytes Format) (n m : Bytes) (f : Format)
    → (n === m) ≡ false
    → contains m (t ++ (n, f) ∷ []) ≡ contains m t
unfolding contains lookup
contains-append_other [] n m f h = rw h refl
contains-append_other ((k, g) ∷ t) n m f h = ground (arith, contains-append_other t n m f h)

not_in-append :
    (t : OrderedDict Bytes Format) (n : Bytes) (f : Format) (ns : List Bytes)
    → not_in (t ++ (n, f) ∷ []) ns ≡ not_in t (drop_name n ns)
unfolding not_in drop_name
not_in-append t n f [] = refl
not_in-append t n f (m ∷ ns) = elim (Bool-cases (n === m)) [
  | inl same ↦
      not_in-known (t ++ (n, f) ∷ []) m ns (contains-append_same t n m f same)
      ∙ not_in-append t n f ns
      ∙ ap (not_in t) (sym (drop_name-same n m ns same))
  | inr other ↦
      let kept = contains-append_other t n m f other in
      elim (Bool-cases (contains m t)) [
        | inl known ↦
            not_in-known (t ++ (n, f) ∷ []) m ns (kept ∙ known)
            ∙ not_in-append t n f ns
            ∙ sym (not_in-known t m (drop_name n ns) known)
        | inr unknown ↦
            not_in-unknown (t ++ (n, f) ∷ []) m ns (kept ∙ unknown)
            ∙ ap (λ l. m ∷ l) (not_in-append t n f ns)
            ∙ sym (not_in-unknown t m (drop_name n ns) unknown)
      ]
      ∙ ap (not_in t) (sym (drop_name-other n m ns other))
]

lookup-contains :
    (t : OrderedDict Bytes Format) (n : Bytes) (f : Format)
    → lookup n t ≡ some f
    → contains n t ≡ true
unfolding contains
lookup-contains t n f h = rw h refl

lookup-contains_not :
    (t : OrderedDict Bytes Format) (n : Bytes) → lookup n t ≡ none → contains n t ≡ false
unfolding contains
lookup-contains_not t n h = rw h refl

-- The two cases of a placeholder.
pub order-known :
    (t : OrderedDict Bytes Format) (n : Bytes) (f : Format) (ns : List Bytes)
    → lookup n t ≡ some f
    → not_in t (first_occurrences (n ∷ ns)) ≡ not_in t (first_occurrences ns)
unfolding first_occurrences
order-known t n f ns h =
    let known = lookup-contains t n f h in
    not_in-known t n (drop_name n (first_occurrences ns)) known
    ∙ not_in-drop_name t n (first_occurrences ns) known

pub order-new :
    (t : OrderedDict Bytes Format) (n : Bytes) (f : Format) (ns : List Bytes)
    → lookup n t ≡ none
    → not_in t (first_occurrences (n ∷ ns)) ≡ n ∷ not_in (t ++ (n, f) ∷ []) (first_occurrences ns)
unfolding first_occurrences
order-new t n f ns h =
    not_in-unknown t n (drop_name n (first_occurrences ns)) (lookup-contains_not t n h)
    ∙ ap (λ l. n ∷ l) (sym (not_in-append t n f (first_occurrences ns)))
