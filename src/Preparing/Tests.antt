-- ===== src/Preparing/Tests.antt =====
-- Runs of the model of psycopg3/psycopg3/_preparing.py, and its theorems at concrete inputs.
use psycopg.Prelude.{
  ℕ, ◌≡◌, ◌≢◌, refl, true, Option, none, some, List, [], ◌∷◌, ◌++◌, Bytes, codes, take, drop,
  if◌then◌else◌, arith,
}
use psycopg.Prelude.Equality.{◌===◌}
use psycopg.Prelude.Decimal.{decimal}
use psycopg.Prelude.OrderedDict.{lookup, erase, set}
use psycopg.Preparing.{
  PrepareManager, Key, seen, prepared_as, prepare_no, prepare_yes, prepare_should, tuples_ok,
  fatal_error, fresh, get, maintain, statement_name, key_eq, bytes_eq, is_cacheable,
}
use psycopg.Preparing.Cache.{maintain_lru, next_entry, take_last}
use psycopg.Preparing.Threshold.{execute_times, threshold_exact}
use psycopg.Preparing.Session.{
  Server, Session, Request, Execution, sent_prepared, send, run_all, maybe_prepare,
}
use psycopg.Preparing.Session.Agreement.{SessionAgrees}
use psycopg.Preparing.Session.Sound.{sent_name_is_prepared}

abbrev select : Key
select = (codes "select $1", 23 ∷ [])

abbrev insert : Key
insert = (codes "insert", [])

-- A cache of one place, which holds a prepared statement.
abbrev full : PrepareManager
full = record {
  prepare_threshold = some 5;
  prepared_max = 1;
  prepared = (select, prepared_as (statement_name 0)) ∷ [];
  prepared_idx = 1;
}

-- The oldest statement goes, and is deallocated.
evicted : maintain full insert (tuples_ok ∷ []) prepare_no [] ≡ (
  some (codes "DEALLOCATE " ++ codes "_pg3_0"),
  record full { prepared = (insert, seen 1) ∷ [] },
)
unfolding maintain set key_eq lookup statement_name decimal
evicted = refl

failed_is_not_cached : maintain fresh insert (fatal_error ∷ []) prepare_no [] ≡ (none, fresh)
unfolding maintain lookup fresh
failed_is_not_cached = refl

maintain_lru_example :
    (maintain full insert (tuples_ok ∷ []) prepare_no []).1.prepared
    ≡ take_last 1 (
        erase insert full.prepared
        ++ (insert, next_entry prepare_no [] (lookup insert full.prepared)) ∷ [])
unfolding is_cacheable
maintain_lru_example =
    maintain_lru full insert (tuples_ok ∷ []) prepare_no [] some_limit refl (omega arith)
  where
    some_limit : ◌≢◌ {A = Option ℕ} (some 5) none
    some_limit h = cc

threshold_exact_example : (get (execute_times 5 fresh select) select none).0.0 ≡ prepare_should
unfolding fresh lookup
threshold_exact_example = threshold_exact select 5 5 fresh refl refl (omega arith)

-- A server that keeps a function from names to statements.
abbrev update : (Bytes → Option Key) → Bytes → Option Key → Bytes → Option Key
update s n o j = if n === j then o else s j

abbrev obey : (Bytes → Option Key) → Bytes → Bytes → Option Key
obey s cmd = if take 11 cmd === codes "DEALLOCATE " then update s (drop 11 cmd) none else s

memory : Server
unfolding bytes_eq
memory = record {
  State = Bytes → Option Key;
  statement = λ s n. s n;
  prepare = λ s n k. update s n (some k);
  exec_command = obey;
  run = λ s. s;
  statement-prepare = λ s n k j. refl;
  statement-deallocate = λ s n j. refl;
  statement-run = λ s j. refl;
}

idle : Session memory
unfolding memory fresh
idle = record { manager = fresh; state = λ n. none }

idle-agrees : SessionAgrees memory idle
unfolding idle lookup
idle-agrees = record { distinct = tt; named = λ k n h. cc }

-- The query was executed with `prepare=True` before, and is now sent by its name.
abbrev history : List Execution
history =
    record { key = select; prepare_arg = some true; accepted = true; results = tuples_ok ∷ [] } ∷ []

abbrev by_name : Request memory
by_name = record {
  sent = sent_prepared (codes "_pg3_0");
  prep = prepare_yes;
  name = codes "_pg3_0";
}

sent_name_is_prepared_example :
    memory.statement
      (send memory (run_all memory idle history) select none true).1.state
      (codes "_pg3_0")
    ≡ some select
unfolding idle run_all maybe_prepare send get maintain lookup set key_eq statement_name decimal
sent_name_is_prepared_example =
    sent_name_is_prepared memory idle history select none true by_name (codes "_pg3_0") idle-agrees
      refl refl
