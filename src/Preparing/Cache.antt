-- ===== src/Preparing/Cache.antt =====
-- The cache of psycopg3/psycopg3/_preparing.py as a bounded list in order of last use.
use Prim.Native.Nat.{max}
use native.Mathlib.Nat.{le_trans}
use psycopg.Prelude.{
  ℕ, ◌+◌, ◌-◌, ◌≤◌, ◌≡◌, ◌≢◌, refl, Bool, true, false, Option, none, some, List, [], ◌∷◌, ◌++◌,
  Bytes, length, drop, leb, if◌then◌else◌, arith, length-append, inl, inr, sym, ◌⊎◌, ◌∙◌, ap,
  leb→le,
}
use psycopg.Prelude.OrderedDict.{
  OrderedDict, lookup, contains, set, erase, move_to_end, Distinct, length-set,
  length-erase_present, move_to_end-set, erase-absent, set-absent, Distinct-set,
  Distinct-write_last,
}
use psycopg.Preparing.{
  PrepareManager, Key, Entry, Prepare, ExecStatus, bump, first_entry, is_cacheable, evict, add_new,
  maintain, maintain_cases, key_eq,
}

evict-Distinct :
    (m : PrepareManager) (d : OrderedDict Key Entry) → Distinct d → Distinct (evict m d).1.prepared
unfolding evict
evict-Distinct m [] h = tt
evict-Distinct m (e ∷ d) h = h.1

add_new-Distinct :
    (m : PrepareManager) (key : Key) (prep : Prepare) (name : Bytes)
    → Distinct m.prepared
    → Distinct (add_new m key prep name).1.prepared
unfolding add_new
add_new-Distinct m key prep name h = go (leb (length grown) m.prepared_max)
  where
    grown : OrderedDict Key Entry
    grown = set key (first_entry prep name) m.prepared

    distinct : Distinct grown
    distinct = Distinct-set key (first_entry prep name) m.prepared h

    go :
        (b : Bool)
        → Distinct (if b then (none, record m { prepared = grown }) else evict m grown).1.prepared
    go true = distinct
    go false = evict-Distinct m grown distinct

-- `maintain` keeps it so that no statement stands twice in the cache.
pub maintain-Distinct :
    (m : PrepareManager) (key : Key) (results : List ExecStatus) (prep : Prepare) (name : Bytes)
    → Distinct m.prepared
    → Distinct (maintain m key results prep name).1.prepared
maintain-Distinct m key results prep name h =
    maintain_cases (λ r. Distinct r.1.prepared) m key results prep name (λ _. h)
      (λ v _.
        rw (move_to_end-set key (bump prep name v) m.prepared)
          (Distinct-write_last key (bump prep name v) m.prepared h))
      (λ _ _. add_new-Distinct m key prep name h)

length-write_last :
    (key : Key) (v w : Entry) (d : OrderedDict Key Entry)
    → lookup key d ≡ some v
    → length (erase key d ++ (key, w) ∷ []) ≤ length d
length-write_last key v w d h =
    omega (arith, length-append {0} (erase key d) ((key, w) ∷ []), length-erase_present key d h)

add_new-bounded :
    (m : PrepareManager) (key : Key) (prep : Prepare) (name : Bytes)
    → lookup key m.prepared ≡ none
    → length (add_new m key prep name).1.prepared ≤ max m.prepared_max (length m.prepared)
unfolding add_new evict contains
add_new-bounded m key prep name h =
    ground (arith, length-set key (first_entry prep name) m.prepared)

-- `maintain` never makes the cache larger than its limit or, where it is past it already, than it
-- is.
pub maintain_bounded :
    (m : PrepareManager) (key : Key) (results : List ExecStatus) (prep : Prepare) (name : Bytes)
    → length (maintain m key results prep name).1.prepared ≤ max m.prepared_max (length m.prepared)
maintain_bounded m key results prep name =
    maintain_cases (λ r. length r.1.prepared ≤ max m.prepared_max (length m.prepared)) m key results
      prep name (λ _. omega arith)
      (λ v h.
        rw (move_to_end-set key (bump prep name v) m.prepared)
          (omega (arith, length-write_last key v (bump prep name v) m.prepared h)))
      (λ h _. add_new-bounded m key prep name h)

-- The entry that a statement has after it ran.
unfoldable pub next_entry : Prepare → Bytes → Option Entry → Entry
next_entry prep name none = first_entry prep name
next_entry prep name (some v) = bump prep name v

-- The last `n` items.
unfoldable pub take_last {ℓ} : {A : Type ℓ} → ℕ → List A → List A
take_last n l = drop (length l - n) l

take_last_all {ℓ} : {A : Type ℓ} (n : ℕ) (l : List A) → length l ≤ n → take_last n l ≡ l
unfolding take_last
take_last_all n l h = let e : length l - n ≡ 0 = omega arith in rw e

evict-drop : (m : PrepareManager) (d : OrderedDict Key Entry) → (evict m d).1.prepared ≡ drop 1 d
unfolding evict
evict-drop m [] = refl
evict-drop m (e ∷ d) = refl

add_new-lru :
    (m : PrepareManager) (key : Key) (prep : Prepare) (name : Bytes)
    → lookup key m.prepared ≡ none
    → length m.prepared ≤ m.prepared_max
    → (add_new m key prep name).1.prepared
      ≡ take_last m.prepared_max (m.prepared ++ (key, first_entry prep name) ∷ [])
unfolding add_new take_last
add_new-lru m key prep name h small =
    rw (set-absent key (first_entry prep name) m.prepared h)
      (go (leb (length grown) m.prepared_max) refl)
  where
    grown : OrderedDict Key Entry
    grown = m.prepared ++ (key, first_entry prep name) ∷ []

    one_more : length grown ≡ length m.prepared + 1
    one_more = length-append {0} m.prepared ((key, first_entry prep name) ∷ [])

    go :
        (b : Bool)
        → leb (length grown) m.prepared_max ≡ b
        → (if b then (none, record m { prepared = grown }) else evict m grown).1.prepared
          ≡ take_last m.prepared_max grown
    go true fits = sym (take_last_all m.prepared_max grown (leb→le _ _ fits))
    go false over =
        let one : length grown - m.prepared_max ≡ 1 = ground (arith, one_more) in
        evict-drop m grown ∙ ap (λ n. drop n grown) (sym one)

-- Where preparing is on and the cache within its limit, then after a statement ran with one good
-- result, the cache is what a list in order of last use is: the statement comes last with its
-- next entry, the others keep their order, and the oldest go if there would be too many.
pub maintain_lru :
    (m : PrepareManager) (key : Key) (results : List ExecStatus) (prep : Prepare) (name : Bytes)
    → m.prepare_threshold ≢ none
    → is_cacheable results ≡ true
    → length m.prepared ≤ m.prepared_max
    → (maintain m key results prep name).1.prepared
      ≡ take_last m.prepared_max
          (erase key m.prepared ++ (key, next_entry prep name (lookup key m.prepared)) ∷ [])
unfolding next_entry
maintain_lru m key results prep name on good small =
    maintain_cases
      (λ r.
        r.1.prepared
        ≡ take_last m.prepared_max
            (erase key m.prepared ++ (key, next_entry prep name (lookup key m.prepared)) ∷ []))
      m key results prep name (λ h. absurd (refused h)) (λ v h. known v h)
      (λ h _. rw (h, erase-absent key m.prepared h) (add_new-lru m key prep name h small))
  where
    refused : (m.prepare_threshold ≡ none) ⊎ (is_cacheable results ≡ false) → ⊥
    refused (inl off) = on off
    refused (inr bad) = cc

    known :
        (v : Entry)
        → lookup key m.prepared ≡ some v
        → move_to_end key (set key (bump prep name v) m.prepared)
          ≡ take_last m.prepared_max
              (erase key m.prepared ++ (key, next_entry prep name (lookup key m.prepared)) ∷ [])
    known v h =
        rw (h, move_to_end-set key (bump prep name v) m.prepared)
          (sym (
            take_last_all m.prepared_max _
              (le_trans (length-write_last key v (bump prep name v) m.prepared h) small)))
