-- ===== src/Cursor/Tests.antt =====
-- Runs of the model of psycopg3/psycopg3/cursor.py, and its theorems at concrete inputs.
use psycopg.Prelude.{
  ℕ, ◌+◌, ◌≤◌, ◌≡◌, refl, false, none, some, [], ◌∷◌, ◌++◌, length, get_elem?, map, arith, ◌⊎◌,
}
use psycopg.Prelude.Int.{negsuc}
use psycopg.Preparing.{tuples_ok, command_ok}
use psycopg.Cursor.{
  returned, failed, position_out_of_bound, relative, PgResult, Cursor, execute_results, executemany,
  scroll, fetchone,
}
use psycopg.Cursor.Fetch.{Loaded, one, many, all, fetch_each}
use psycopg.Cursor.Fetch.Order.{fetch_lem}
use psycopg.Cursor.Results.{IsAt, scroll_lem, results_lem, show_each}
use psycopg.Cursor.Results.Count.{answer, sum_counts, rowcount_lem}

abbrev rows : PgResult ℕ
rows = record { status = tuples_ok; rows = 10 ∷ 11 ∷ 12 ∷ 13 ∷ []; command_tuples = some 4 }

abbrev inserted : PgResult ℕ
inserted = record { status = command_ok; rows = []; command_tuples = some 3 }

abbrev cursor : Cursor ℕ
cursor = record {
  arraysize = 1;
  closed = false;
  last_query = none;
  results = rows ∷ [];
  pgresult = some rows;
  tx_result = some rows;
  pos = 1;
  iresult = 0;
  rowcount = none;
}

cursor-Loaded : Loaded ℕ rows cursor
cursor-Loaded = (refl, refl, refl, omega arith)

fetch_lem_example :
    fetch_each ℕ ((one ∷ many 0 ∷ []) ++ all ∷ []) cursor ≡ returned (11 ∷ 12 ∷ 13 ∷ [])
fetch_lem_example = fetch_lem ℕ (one ∷ many 0 ∷ []) rows cursor cursor-Loaded

scroll_lem_example :
    ((scroll ℕ relative (negsuc 0) cursor ≡ (failed position_out_of_bound, cursor))
      × ((p : ℕ) → IsAt relative (negsuc 0) 1 p → length rows.rows ≤ p))
    ⊎ ((p : ℕ) × (row : ℕ) × IsAt relative (negsuc 0) 1 p
        × (scroll ℕ relative (negsuc 0) cursor ≡ (returned tt, record cursor { pos = p }))
        × (get_elem? rows.rows p ≡ some row)
        × (fetchone ℕ (record cursor { pos = p })
            ≡ (returned (some row), record cursor { pos = p + 1 })))
scroll_lem_example = scroll_lem ℕ relative (negsuc 0) rows cursor cursor-Loaded

results_lem_example :
    ((execute_results ℕ (rows ∷ inserted ∷ []) cursor).1.pgresult ≡ some rows)
    × (show_each ℕ 1 (execute_results ℕ (rows ∷ inserted ∷ []) cursor).1 ≡ some inserted ∷ [])
results_lem_example = results_lem ℕ rows (inserted ∷ []) cursor refl refl

rowcount_lem_example :
    ((executemany ℕ 7 (map (answer ℕ) ((inserted, []) ∷ (inserted, []) ∷ [])) cursor).0
      ≡ returned tt)
    × ((executemany ℕ 7 (map (answer ℕ) ((inserted, []) ∷ (inserted, []) ∷ [])) cursor).1.rowcount
        ≡ sum_counts ℕ ((inserted, []) ∷ (inserted, []) ∷ []))
rowcount_lem_example =
    rowcount_lem ℕ 7 ((inserted, []) ∷ (inserted, []) ∷ []) cursor refl (refl, (refl, tt))
