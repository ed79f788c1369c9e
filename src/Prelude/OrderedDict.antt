-- ===== src/Prelude/OrderedDict.antt =====
-- Python's `OrderedDict` (and `dict`, which keeps insertion order too): the entries, oldest first.
use Prim.Native.Nat.{◌+◌, ◌≤◌}
use mathlib.Core.Path.{◌≡◌, refl}
use mathlib.Core.Bool.{Bool}
use mathlib.Core.Option.{Option, none, some}
use mathlib.Core.List.{List, [], ◌∷◌, ◌++◌}
use native.Mathlib.Omega.{arith}
use psycopg.Prelude.Tests.{if◌then◌else◌, is_some}
use psycopg.Prelude.Lists.{length}
use psycopg.Prelude.Equality.{Eq, ◌===◌}

abbrev pub OrderedDict {ℓ κ} : Type ℓ → Type κ → Type (ℓ ⊔ κ)
OrderedDict K V = List (K × V)

module _ {ℓ κ} {K : Type ℓ} {V : Type κ} ⦃e : Eq K⦄ where
  -- d.get(k)
  unfoldable pub lookup : K → OrderedDict K V → Option V
  lookup k [] = none
  lookup k ((j, v) ∷ d) = if j === k then some v else lookup k d

  -- k in d
  unfoldable pub contains : K → OrderedDict K V → Bool
  contains k d = is_some (lookup k d)

  -- d[k] = v: in place where the key is there, else at the end.
  unfoldable pub set : K → V → OrderedDict K V → OrderedDict K V
  set k v [] = (k, v) ∷ []
  set k v ((j, w) ∷ d) = if j === k then (k, v) ∷ d else (j, w) ∷ set k v d

  unfoldable pub erase : K → OrderedDict K V → OrderedDict K V
  erase k [] = []
  erase k ((j, v) ∷ d) = let rest = erase k d in if j === k then rest else (j, v) ∷ rest

  -- d.move_to_end(k), of a key that is there.
  unfoldable pub move_to_end : K → OrderedDict K V → OrderedDict K V
  move_to_end k d = elim (lookup k d) [ none ↦ d | some v ↦ erase k d ++ (k, v) ∷ [] ]

  -- No key twice.
  abbrev pub Distinct : OrderedDict K V → Type κ
  Distinct [] = Unit
  Distinct ((k, v) ∷ d) = (lookup k d ≡ none) × Distinct d

  pub lookup-set :
      (k j : K) (v : V) (d : OrderedDict K V)
      → lookup j (set k v d) ≡ (if k === j then some v else lookup j d)
  unfolding lookup set
  lookup-set k j v [] = refl
  lookup-set k j v ((i, w) ∷ d) =
      ground (arith, e.beq_iff k j, e.beq_iff i k, e.beq_iff i j, lookup-set k j v d)

  pub lookup-erase :
      (k j : K) (d : OrderedDict K V)
      → lookup j (erase k d) ≡ (if k === j then none else lookup j d)
  unfolding lookup erase
  lookup-erase k j [] = ground arith
  lookup-erase k j ((i, w) ∷ d) =
      ground (arith, e.beq_iff k j, e.beq_iff i k, e.beq_iff i j, lookup-erase k j d)

  pub lookup-append_last :
      (k j : K) (v : V) (d : OrderedDict K V)
      → lookup k d ≡ none
      → lookup j (d ++ (k, v) ∷ []) ≡ (if k === j then some v else lookup j d)
  unfolding lookup
  lookup-append_last k j v [] h = refl
  lookup-append_last k j v ((i, w) ∷ d) h =
      ground (arith, e.beq_iff k j, e.beq_iff i k, e.beq_iff i j, lookup-append_last k j v d)

  pub erase-absent : (k : K) (d : OrderedDict K V) → lookup k d ≡ none → erase k d ≡ d
  unfolding lookup erase
  erase-absent k [] h = refl
  erase-absent k ((i, w) ∷ d) h = ground (arith, erase-absent k d)

  pub set-absent :
      (k : K) (v : V) (d : OrderedDict K V) → lookup k d ≡ none → set k v d ≡ d ++ (k, v) ∷ []
  unfolding lookup set
  set-absent k v [] h = refl
  set-absent k v ((i, w) ∷ d) h = ground (arith, set-absent k v d)

  -- Assignment and a move make one write at the end.
  pub erase-set : (k : K) (v : V) (d : OrderedDict K V) → erase k (set k v d) ≡ erase k d
  unfolding erase set
  erase-set k v [] = ground (arith, (e.beq_iff k k).1 refl)
  erase-set k v ((i, w) ∷ d) = ground (arith, (e.beq_iff k k).1 refl, erase-set k v d)

  pub Distinct-erase : (k : K) (d : OrderedDict K V) → Distinct d → Distinct (erase k d)
  unfolding erase
  Distinct-erase k [] h = tt
  Distinct-erase k ((i, w) ∷ d) h =
      ground (arith, lookup-erase k i d, e.beq_iff k i, e.beq_iff i k, Distinct-erase k d h.1)

  pub Distinct-set : (k : K) (v : V) (d : OrderedDict K V) → Distinct d → Distinct (set k v d)
  unfolding set lookup
  Distinct-set k v [] h = (refl, tt)
  Distinct-set k v ((i, w) ∷ d) h =
      ground (arith, lookup-set k i v d, e.beq_iff k i, e.beq_iff i k, Distinct-set k v d h.1)

  pub Distinct-append_last :
      (k : K) (v : V) (d : OrderedDict K V)
      → lookup k d ≡ none
      → Distinct d
      → Distinct (d ++ (k, v) ∷ [])
  unfolding lookup
  Distinct-append_last k v [] a h = (refl, tt)
  Distinct-append_last k v ((i, w) ∷ d) a h =
      ground (
        arith,
        lookup-append_last k i v d,
        e.beq_iff k i,
        e.beq_iff i k,
        Distinct-append_last k v d,
      )

  pub length-set :
      (k : K) (v : V) (d : OrderedDict K V)
      → length (set k v d) ≡ (if contains k d then length d else length d + 1)
  unfolding set contains lookup
  length-set k v [] = omega arith
  length-set k v ((i, w) ∷ d) = ground (arith, length-set k v d)

  pub length-erase-le : (k : K) (d : OrderedDict K V) → length (erase k d) ≤ length d
  unfolding erase
  length-erase-le k [] = omega arith
  length-erase-le k ((i, w) ∷ d) = ground (arith, length-erase-le k d)

  pub length-erase_present :
      (k : K) (d : OrderedDict K V) {v : V}
      → lookup k d ≡ some v
      → length (erase k d) + 1 ≤ length d
  unfolding erase lookup
  length-erase_present k [] h = cc
  length-erase_present k ((i, w) ∷ d) {v} h =
      ground (arith, length-erase-le k d, length-erase_present k d {v = v})

  -- An assignment followed by a move to the end writes the entry there.
  pub move_to_end-set :
      (k : K) (v : V) (d : OrderedDict K V) → move_to_end k (set k v d) ≡ erase k d ++ (k, v) ∷ []
  unfolding move_to_end
  move_to_end-set k v d =
      rw (lookup-set k k v d, (e.beq_iff k k).1 refl, move_to_end) (rw (erase-set k v d))

  pub lookup-erase_self : (k : K) (d : OrderedDict K V) → lookup k (erase k d) ≡ none
  lookup-erase_self k d = ground (arith, lookup-erase k k d, (e.beq_iff k k).1 refl)

  -- The entry at the end of what is left without its key.
  pub lookup-write_last :
      (k j : K) (v : V) (d : OrderedDict K V)
      → lookup j (erase k d ++ (k, v) ∷ []) ≡ (if k === j then some v else lookup j d)
  lookup-write_last k j v d =
      ground
        (arith, lookup-append_last k j v (erase k d) (lookup-erase_self k d), lookup-erase k j d)

  pub Distinct-write_last :
      (k : K) (v : V) (d : OrderedDict K V) → Distinct d → Distinct (erase k d ++ (k, v) ∷ [])
  Distinct-write_last k v d h =
      Distinct-append_last k v (erase k d) (lookup-erase_self k d) (Distinct-erase k d h)
