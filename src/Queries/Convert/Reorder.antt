-- ===== src/Queries/Convert/Reorder.antt =====
-- `_validate_and_reorder_params` of psycopg3/psycopg3/_queries.py for named placeholders.
use psycopg.Prelude.{
  subst, ℕ, suc, ◌+◌, ◌++◌, map, ◌≡◌, refl, sym, ap, ◌∙◌, true, false, Option, none, some, List, [],
  ◌∷◌, Bytes, length, get_elem?, if◌then◌else◌, arith, Bool-cases, Option-cases, inl, inr, All, ◌⊎◌,
}
use psycopg.Prelude.Equality.{◌===◌}
use psycopg.Prelude.OrderedDict.{OrderedDict, lookup, contains}
use psycopg.Queries.Defs.{
  Format, Item, index, name, QueryPart, Result, ok, err, programming_error, missing_parameter,
  ◌>>=◌, bytes_eq,
}
use psycopg.Queries.Convert.{
  mapping, named, dollar, pick, validate_and_reorder_params, first_is_index, or_empty,
}
use psycopg.Queries.Convert.Table.{Table, Agree, render, pair_up, position}
use psycopg.Queries.Convert.Numbering.{named_numbering}

suc-injective : {m n : ℕ} → suc m ≡ suc n → m ≡ n
suc-injective h = omega arith

bind_pick {ℓ} :
    {V : Type ℓ} (v : V) (m : Result (List V)) {vs : List V}
    → (m >>= λ rest. ok (v ∷ rest)) ≡ ok vs
    → (rest : List V) × (m ≡ ok rest) × (v ∷ rest ≡ vs)
bind_pick v (ok rest) h = (rest, refl, cc)
bind_pick v (err e) h = cc

module _ {ℓ} {V : Type ℓ} (vars : OrderedDict Bytes V) where
  pick-some :
      (m : Bytes) (order : List Bytes) (v : V)
      → lookup m vars ≡ some v
      → pick vars (m ∷ order) ≡ (pick vars order >>= λ rest. ok (v ∷ rest))
  unfolding pick
  pick-some m order v h = rw (h, pick)

  pick-none :
      (m : Bytes) (order : List Bytes)
      → lookup m vars ≡ none
      → pick vars (m ∷ order) ≡ err (programming_error missing_parameter)
  unfolding pick
  pick-none m order h = rw (h, pick)

  -- Each value stands where its name does.
  pick-position :
      (order : List Bytes) (formats : List Format) (vs : List V) (n : Bytes) (f : Format)
      → length order ≡ length formats
      → pick vars order ≡ ok vs
      → lookup n (pair_up order formats) ≡ some f
      → (v : V) × (get_elem? vs (position n (pair_up order formats)) ≡ some v)
        × (lookup n vars ≡ some v)
  unfolding pair_up position lookup
  pick-position [] formats vs n f s h l = cc
  pick-position (m ∷ order) [] vs n f s h l = cc
  pick-position (m ∷ order) (g ∷ formats) vs n f s h l = elim (Option-cases (lookup m vars)) [
    | inl absent ↦ cc (pick-none m order absent, h)
    | inr (v, present) ↦
        let (rest, picked, whole) =
          bind_pick v (pick vars order) (sym (pick-some m order v present) ∙ h) in
        subst
          (λ l.
            (u : V) × (get_elem? l (if m === n then 0 else suc (position n (pair_up order formats)))
              ≡ some u)
            × (lookup n vars ≡ some u))
          whole
          (elim (Bool-cases (m === n)) [
            | inl same ↦ (
              v,
              rw same refl,
              sym (ap (λ k. lookup k vars) ((bytes_eq.beq_iff m n).0 same)) ∙ present,
            )
            | inr other ↦
                rw other
                  (pick-position order formats rest n f (suc-injective s) picked (rw other at l))
          ])
  ]

  -- Each name has a value, and the values are theirs; or a name of the order has none.
  pick_outcome :
      (order : List Bytes)
      → (All (λ n. contains n vars ≡ true) order
          × ((vs : List V) × (pick vars order ≡ ok vs)
              × (map some vs ≡ map (λ n. lookup n vars) order)))
        ⊎ (((i : ℕ) × (n : Bytes) × (get_elem? order i ≡ some n) × (contains n vars ≡ false))
            × (pick vars order ≡ err (programming_error missing_parameter)))
  unfolding pick contains
  pick_outcome [] = inl (tt, ([], refl, refl))
  pick_outcome (n ∷ order) = elim (Option-cases (lookup n vars)) [
    | inl absent ↦ inr ((0, n, refl, rw absent), pick-none n order absent)
    | inr (v, present) ↦ elim (pick_outcome order) [
      | inl (there, (vs, picked, same)) ↦ inl (
        (rw present, there),
        (v ∷ vs, pick-some n order v present ∙ rw picked, λ k. sym present k ∷ same k),
      )
      | inr ((i, m, here, lost), failed) ↦
          inr ((suc i, m, here, lost), pick-some n order v present ∙ rw failed)
    ]
  ]

  reorder-mapping :
      (parts : List QueryPart) (order : Option (List Bytes))
      → first_is_index parts ≡ false
      → validate_and_reorder_params parts (mapping vars) order ≡ pick vars (or_empty order)
  unfolding validate_and_reorder_params
  reorder-mapping parts order h = ground (arith, h)

  -- With a mapping, a query with named placeholders gets its parameters if the mapping has all the
  -- names of the order: they are the values of the names, in that order. Otherwise, where the mapping
  -- lacks one of those names, the error says that a parameter is missing; nothing else is possible.
  pub mapping_outcome :
      (parts : List QueryPart) (order : List Bytes)
      → first_is_index parts ≡ false
      → (All (λ n. contains n vars ≡ true) order
          × ((vs : List V) × (validate_and_reorder_params parts (mapping vars) (some order) ≡ ok vs)
              × (map some vs ≡ map (λ n. lookup n vars) order)))
        ⊎ (((i : ℕ) × (n : Bytes) × (get_elem? order i ≡ some n) × (contains n vars ≡ false))
            × (validate_and_reorder_params parts (mapping vars) (some order)
                ≡ err (programming_error missing_parameter)))
  mapping_outcome parts order h = rw (reorder-mapping parts (some order) h) (pick_outcome order)

  -- A query with `$k` for each placeholder, where the k-th value, from 1, is the one that the mapping
  -- has for the name of the placeholder.
  pub data Binds (vs : List V) : List QueryPart → Bytes → Type ℓ where
    no_part : Binds vs [] []
    last_part : (p : QueryPart) → Binds vs (p ∷ []) p.pre
    placeholder :
        (pre n : Bytes) (f : Format) (q : QueryPart) (parts : List QueryPart) (rest : Bytes) (k : ℕ)
        (v : V)
        → get_elem? vs k ≡ some v
        → lookup n vars ≡ some v
        → Binds vs (q ∷ parts) rest
        → Binds vs
            (record { pre = pre; item = name n; format = f } ∷ q ∷ parts)
            (pre ++ (dollar (k + 1) ++ rest))

  module _ (vs : List V) (t : Table)
      (valued : (n : Bytes) (f : Format)
        → lookup n t ≡ some f
        → (v : V) × (get_elem? vs (position n t) ≡ some v) × (lookup n vars ≡ some v)) where
    binds_item :
        (pre : Bytes) (it : Item) (f : Format) (q : QueryPart) (parts : List QueryPart)
        → Agree t (record { pre = pre; item = it; format = f } ∷ q ∷ parts)
        → Binds vs (q ∷ parts) (render t (q ∷ parts))
        → Binds vs
            (record { pre = pre; item = it; format = f } ∷ q ∷ parts)
            (render t (record { pre = pre; item = it; format = f } ∷ q ∷ parts))
    unfolding render
    binds_item pre (index i) f q parts agrees later = absurd agrees.0
    binds_item pre (name n) f q parts agrees later =
        let (v, here, there) = valued n f agrees.0 in
        placeholder pre n f q parts (render t (q ∷ parts)) (position n t) v here there later

    render-Binds : (parts : List QueryPart) → Agree t parts → Binds vs parts (render t parts)
    unfolding render
    render-Binds [] agrees = no_part
    render-Binds (p ∷ []) agrees = last_part p
    render-Binds (p ∷ q ∷ parts) agrees =
        binds_item p.pre p.item p.format q parts agrees (render-Binds (q ∷ parts) agrees.1)

  -- Where a query with named placeholders was converted, and the mapping was accepted, the converted
  -- query has `$k` for each placeholder, and the k-th of the values that are sent is the one that the
  -- mapping has for the name of that placeholder.
  pub named_binding :
      (parts : List QueryPart) (query : Bytes) (formats : List Format) (order : List Bytes)
      (vs : List V)
      → named [] parts ≡ ok (query, formats, order)
      → first_is_index parts ≡ false
      → validate_and_reorder_params parts (mapping vars) (some order) ≡ ok vs
      → Binds vs parts query
  named_binding parts query formats order vs e first h =
      let (done, sizes, _) = named_numbering parts query formats order e in
      let picked = sym (reorder-mapping parts (some order) first) ∙ h in
      subst (Binds vs parts) (sym done.rendered) (
        render-Binds vs (pair_up order formats)
          (λ n f l. pick-position order formats vs n f sizes picked l) parts done.agrees)
