-- ===== src/Preparing.antt =====
-- psycopg3/psycopg3/_preparing.py: which queries are prepared, and under which names.
-- A key is the query text with the oids of its parameters; a result is its status. The limits are
-- natural numbers: a negative one acts as zero does.
mod Keys
pub mod Cache
pub mod Threshold
pub mod Tests
pub mod Session
unfoldable pub use Keys.{Key, key_eq, bytes_eq}
use psycopg.Prelude.{
  ℕ, suc, ◌+◌, ◌≡◌, refl, Bool, true, false, ◌||◌, Option, none, some, ◌⊎◌, inl, inr, List, [], ◌∷◌,
  ◌++◌, Bytes, codes, length, leb, if◌then◌else◌,
}
use psycopg.Prelude.Decimal.{decimal}
use psycopg.Prelude.OrderedDict.{OrderedDict, lookup, contains, set, move_to_end}

pub data Prepare : Type 0 where
  prepare_no prepare_yes prepare_should : Prepare

-- The statuses of a result (pq.ExecStatus).
pub data ExecStatus : Type 0 where
  empty_query command_ok tuples_ok copy_out copy_in bad_response : ExecStatus
  nonfatal_error fatal_error copy_both single_tuple : ExecStatus

-- Union[int, bytes]: the times that a query was seen, or the name that it is prepared under.
pub data Entry : Type 0 where
  seen : ℕ → Entry
  prepared_as : Bytes → Entry

pub record PrepareManager : Type 0 where
  pub prepare_threshold : Option ℕ
  pub prepared_max : ℕ
  pub prepared : OrderedDict Key Entry
  pub prepared_idx : ℕ

-- f"_pg3_{self._prepared_idx}"
pub statement_name : ℕ → Bytes
statement_name i = codes "_pg3_" ++ decimal i

-- `prepare` is None, True or False.
abbrev pub is_false : Option Bool → Bool
is_false (some false) = true
is_false _ = false

abbrev pub is_true : Option Bool → Bool
is_true (some true) = true
is_true _ = false

-- self._prepared.get(key, 0)
abbrev pub or_unseen : Option Entry → Entry
or_unseen none = seen 0
or_unseen (some v) = v

get_value : PrepareManager → ℕ → Option Bool → Entry → (Prepare × Bytes) × PrepareManager
get_value m threshold prepare (prepared_as name) = ((prepare_yes, name), m)
get_value m threshold prepare (seen n) =
    if leb threshold n || is_true prepare
    then (
      (prepare_should, statement_name m.prepared_idx),
      record m { prepared_idx = m.prepared_idx + 1 },
    )
    else ((prepare_no, []), m)

get_enabled : PrepareManager → Key → Option Bool → Option ℕ → (Prepare × Bytes) × PrepareManager
unfolding get_value
get_enabled m key prepare none = ((prepare_no, []), m)
get_enabled m key prepare (some threshold) =
    if is_false prepare
    then ((prepare_no, []), m)
    else get_value m threshold prepare (or_unseen (lookup key m.prepared))

pub get : PrepareManager → Key → Option Bool → (Prepare × Bytes) × PrepareManager
unfolding get_enabled
get m key prepare = get_enabled m key prepare m.prepare_threshold

-- The entry of a query that is in the cache, after it was run once more.
pub bump : Prepare → Bytes → Entry → Entry
bump prep name (prepared_as old) = prepared_as old
bump prepare_should name (seen n) = prepared_as name
bump _ name (seen n) = seen (n + 1)

pub first_entry : Prepare → Bytes → Entry
first_entry prepare_should name = prepared_as name
first_entry _ name = seen 1

-- TUPLES_OK or COMMAND_OK, of one result.
pub is_cacheable : List ExecStatus → Bool
is_cacheable (tuples_ok ∷ []) = true
is_cacheable (command_ok ∷ []) = true
is_cacheable _ = false

deallocate : Entry → Option Bytes
deallocate (prepared_as old) = some (codes "DEALLOCATE " ++ old)
deallocate (seen n) = none

-- self._prepared.popitem(last=False)
evict : PrepareManager → OrderedDict Key Entry → Option Bytes × PrepareManager
unfolding deallocate
evict m [] = (none, record m { prepared = [] })
evict m ((k, old) ∷ rest) = (deallocate old, record m { prepared = rest })

pub add_new : PrepareManager → Key → Prepare → Bytes → Option Bytes × PrepareManager
unfolding evict first_entry
add_new m key prep name =
    let grown = set key (first_entry prep name) m.prepared in
    if leb (length grown) m.prepared_max
    then (none, record m { prepared = grown })
    else evict m grown

maintain_found :
    PrepareManager
    → Key
    → List ExecStatus
    → Prepare
    → Bytes
    → Option Entry
    → Option Bytes × PrepareManager
unfolding bump is_cacheable add_new
maintain_found m key results prep name (some v) =
    (none, record m { prepared = move_to_end key (set key (bump prep name v) m.prepared) })
maintain_found m key results prep name none =
    if is_cacheable results then add_new m key prep name else (none, m)

maintain_enabled :
    PrepareManager
    → Key
    → List ExecStatus
    → Prepare
    → Bytes
    → Option ℕ
    → Option Bytes × PrepareManager
unfolding maintain_found
maintain_enabled m key results prep name none = (none, m)
maintain_enabled m key results prep name (some threshold) =
    maintain_found m key results prep name (lookup key m.prepared)

pub maintain :
    PrepareManager → Key → List ExecStatus → Prepare → Bytes → Option Bytes × PrepareManager
unfolding maintain_enabled
maintain m key results prep name = maintain_enabled m key results prep name m.prepare_threshold

-- PrepareManager(), with the class's defaults.
pub fresh : PrepareManager
fresh = record { prepare_threshold = some 5; prepared_max = 100; prepared = []; prepared_idx = 0 }

-- What `maintain` can do: nothing, record a use of a known query, or add a query.
pub maintain_cases {ℓ} :
    (P : Option Bytes × PrepareManager → Type ℓ) (m : PrepareManager) (key : Key)
    (results : List ExecStatus) (prep : Prepare) (name : Bytes)
    → ((m.prepare_threshold ≡ none) ⊎ (is_cacheable results ≡ false) → P (none, m))
    → ((v : Entry)
        → lookup key m.prepared ≡ some v
        → P (none, record m { prepared = move_to_end key (set key (bump prep name v) m.prepared) }))
    → (lookup key m.prepared ≡ none → is_cacheable results ≡ true → P (add_new m key prep name))
    → P (maintain m key results prep name)
unfolding maintain
maintain_cases P m key results prep name skip known new = enabled m.prepare_threshold refl
  where
    added :
        lookup key m.prepared ≡ none
        → (b : Bool) → is_cacheable results ≡ b
        → P (if b then add_new m key prep name else (none, m))
    added a true c = new a c
    added a false c = skip (inr c)

    found :
        (o : Option Entry)
        → lookup key m.prepared ≡ o
        → P (maintain_found m key results prep name o)
    found (some v) h = known v h
    found none h = added h (is_cacheable results) refl

    enabled :
        (t : Option ℕ) → m.prepare_threshold ≡ t → P (maintain_enabled m key results prep name t)
    enabled none off = skip (inl off)
    enabled (some t) on = found (lookup key m.prepared) refl
