-- ===== src/Cursor.antt =====
-- The results of a cursor: psycopg3/psycopg3/cursor.py, with the loading of rows of
-- psycopg3/psycopg3/_transform.py.  A row is what the row factory makes of it.
pub mod Fetch
pub mod Results
pub mod Tests
use psycopg.Prelude.{
  ℕ, zero, suc, ◌+◌, ◌-◌, Bool, true, false, Option, none, some, is_some, List, [], ◌∷◌, ◌++◌,
  length, take, drop, get_elem?, leb, ltb, ◌==◌, if◌then◌else◌, ◌&&◌, ◌||◌, not, map,
}
use Prim.Native.Nat.{min}
use psycopg.Prelude.Int.{ℤ, pos, negsuc}
use psycopg.Preparing.{
  ExecStatus, empty_query, command_ok, tuples_ok, copy_out, copy_in, bad_response, nonfatal_error,
  fatal_error, copy_both, single_tuple,
}

-- The exceptions, by what they tell.
pub data CursorError : Type 0 where
  cursor_closed : CursorError
  no_result : CursorError
  not_tuples : CursorError
  result_not_set : CursorError
  rows_out_of_bound : CursorError
  position_out_of_bound : CursorError
  empty_results : CursorError
  server_error : CursorError
  copy_misused : CursorError
  unexpected_status : CursorError
  query_failed : CursorError

pub data Outcome {ℓ} (A : Type ℓ) : Type ℓ where
  returned : A → Outcome A
  failed : CursorError → Outcome A

pub data ScrollMode : Type 0 where
  relative : ScrollMode
  absolute : ScrollMode

module _ (Row : Type 0) where
  pub record PgResult : Type 0 where
    pub status : ExecStatus
    pub rows : List Row
    pub command_tuples : Option ℕ

  -- `tx_result` is the result of the cursor's Transformer, which loads the rows.  A rowcount of -1 is
  -- `none`.  A query is a number, the same for the same object.
  pub record Cursor : Type 0 where
    pub arraysize : ℕ
    pub closed : Bool
    pub last_query : Option ℕ
    pub results : List PgResult
    pub pgresult : Option PgResult
    pub tx_result : Option PgResult
    pub pos : ℕ
    pub iresult : ℕ
    pub rowcount : Option ℕ

  -- `_reset`
  unfoldable pub reset : Cursor → Cursor
  reset c = record c { results = []; pgresult = none; pos = 0; iresult = 0; rowcount = none }

  -- `_close`
  unfoldable pub close_cursor : Cursor → Cursor
  unfolding reset
  close_cursor c = reset (record c { closed = true })

  -- not self._last_query or (self._last_query is not query), negated: 0 is any query that is empty, which
  -- counts as false; other queries are numbered by the identity of the object.
  abbrev pub same_query : Option ℕ → Option ℕ → Bool
  same_query (some i) (some j) = ltb 0 i && i == j
  same_query _ _ = false

  -- `_start_query`; the connection's part is not in it.  Another query gets a new Transformer.
  unfoldable pub start_query : Option ℕ → Cursor → Outcome (Unit {0}) × Cursor
  unfolding reset
  start_query query c =
      if c.closed
      then (failed cursor_closed, c)
      else if same_query c.last_query query
      then (returned tt, reset c)
      else (returned tt, record (reset c) { last_query = none; tx_result = none })

  -- `_status_ok` and `_status_copy`
  abbrev pub is_ok : ExecStatus → Bool
  is_ok tuples_ok = true
  is_ok command_ok = true
  is_ok empty_query = true
  is_ok _ = false

  abbrev pub is_copy : ExecStatus → Bool
  is_copy copy_in = true
  is_copy copy_out = true
  is_copy copy_both = true
  is_copy _ = false

  abbrev pub is_fatal : ExecStatus → Bool
  is_fatal fatal_error = true
  is_fatal _ = false

  abbrev pub any_status : (ExecStatus → Bool) → List PgResult → Bool
  any_status f [] = false
  any_status f (r ∷ rs) = f r.status || any_status f rs

  abbrev pub last_fatal : List PgResult → Bool
  last_fatal [] = false
  last_fatal (r ∷ []) = is_fatal r.status
  last_fatal (r ∷ q ∷ rs) = last_fatal (q ∷ rs)

  -- `_raise_from_results`
  unfoldable pub error_from_results : List PgResult → CursorError
  error_from_results rs =
      if last_fatal rs
      then server_error
      else if any_status is_copy rs
      then copy_misused
      else unexpected_status

  abbrev pub add_count : Option ℕ → Option ℕ → Option ℕ
  add_count count none = count
  add_count none (some n) = some n
  add_count (some m) (some n) = some (m + n)

  -- `_execute_results`
  unfoldable pub execute_results : List PgResult → Cursor → Outcome (Unit {0}) × Cursor
  unfolding error_from_results
  execute_results [] c = (failed empty_results, c)
  execute_results (r ∷ rs) c =
      if any_status (λ st. not (is_ok st)) (r ∷ rs)
      then (failed (error_from_results (r ∷ rs)), c)
      else (
        returned tt,
        record c {
          results = r ∷ rs;
          pgresult = some r;
          tx_result = some r;
          rowcount = add_count c.rowcount r.command_tuples;
        },
      )

  -- What the server answers to one query: results, or an exception on the way.
  unfoldable pub take_results : Option (List PgResult) → Cursor → Outcome (Unit {0}) × Cursor
  unfolding execute_results
  take_results none c = (failed query_failed, c)
  take_results (some rs) c = execute_results rs c

  -- The loop of `_executemany_gen`, by the answers to its queries.
  unfoldable pub execute_each :
      List (Option (List PgResult)) → Outcome (Unit {0}) × Cursor → Outcome (Unit {0}) × Cursor
  unfolding take_results
  execute_each answers (failed e, c) = (failed e, c)
  execute_each [] (returned u, c) = (returned u, c)
  execute_each (a ∷ answers) (returned u, c) = execute_each answers (take_results a c)

  -- The end: the query is remembered.
  unfoldable pub remember : ℕ → Outcome (Unit {0}) × Cursor → Outcome (Unit {0}) × Cursor
  remember query (failed e, c) = (failed e, c)
  remember query (returned u, c) = (returned u, record c { last_query = some query })

  -- `_executemany_gen`, and `_execute_gen`, which is the same with one answer.
  unfoldable pub executemany :
      ℕ → List (Option (List PgResult)) → Cursor → Outcome (Unit {0}) × Cursor
  unfolding remember execute_each start_query
  executemany query answers c = remember query (execute_each answers (start_query (some query) c))

  unfoldable pub execute : ℕ → Option (List PgResult) → Cursor → Outcome (Unit {0}) × Cursor
  unfolding executemany
  execute query answer c = executemany query (answer ∷ []) c

  move_to : Option PgResult → Cursor → Option Bool × Cursor
  move_to none c = (none, c)
  move_to (some r) c = (
    some true,
    record c { pgresult = some r; tx_result = some r; pos = 0; rowcount = r.command_tuples },
  )

  -- `nextset`
  unfoldable pub nextset : Cursor → Option Bool × Cursor
  unfolding move_to
  nextset c = move_to (get_elem? c.results (c.iresult + 1)) (record c { iresult = c.iresult + 1 })

  abbrev pub is_tuples : ExecStatus → Bool
  is_tuples tuples_ok = true
  is_tuples _ = false

  -- `_check_result`, before what is done with the result.
  unfoldable pub check_result {ℓ} :
      {A : Type ℓ} → Option PgResult → Cursor → (PgResult → Outcome A × Cursor) → Outcome A × Cursor
  check_result none c next = (failed no_result, c)
  check_result (some r) c next = if is_tuples r.status then next r else (failed not_tuples, c)

  -- Transformer.load_row and Transformer.load_rows
  unfoldable pub load_row : ℕ → Option PgResult → Option Row
  load_row i none = none
  load_row i (some r) = get_elem? r.rows i

  unfoldable pub load_rows : ℕ → ℕ → Option PgResult → Outcome (List Row)
  load_rows i j none = failed result_not_set
  load_rows i j (some r) =
      if leb i (length r.rows) && leb j (length r.rows)
      then returned (take (j - i) (drop i r.rows))
      else failed rows_out_of_bound

  pub advance_one : Cursor → Option Row → Outcome (Option Row) × Cursor
  advance_one c none = (returned none, c)
  advance_one c (some row) = (returned (some row), record c { pos = c.pos + 1 })

  unfoldable pub fetchone : Cursor → Outcome (Option Row) × Cursor
  unfolding check_result load_row advance_one
  fetchone c = check_result c.pgresult c (λ r. advance_one c (load_row c.pos c.tx_result))

  advance : (List Row → ℕ) → Cursor → Outcome (List Row) → Outcome (List Row) × Cursor
  advance to c (failed e) = (failed e, c)
  advance to c (returned records) = (returned records, record c { pos = to records })

  -- A size of 0 is `arraysize`.
  unfoldable pub fetchmany : ℕ → Cursor → Outcome (List Row) × Cursor
  unfolding check_result load_rows advance
  fetchmany size c =
      let size' = if size == 0 then c.arraysize else size in
      check_result c.pgresult c (λ r.
        advance (λ records. c.pos + length records) c
          (load_rows c.pos (min (c.pos + size') (length r.rows)) c.tx_result))

  unfoldable pub fetchall : Cursor → Outcome (List Row) × Cursor
  unfolding check_result load_rows advance
  fetchall c =
      check_result c.pgresult c
        (λ r. advance (λ records. length r.rows) c (load_rows c.pos (length r.rows) c.tx_result))

  -- The new position of `_scroll`, where it is not below 0.
  abbrev pub new_position : ScrollMode → ℤ → ℕ → Option ℕ
  new_position relative (pos n) p = some (p + n)
  new_position relative (negsuc n) p = if ltb n p then some (p - (n + 1)) else none
  new_position absolute (pos n) p = some n
  new_position absolute (negsuc n) p = none

  pub scroll_to : PgResult → Cursor → Option ℕ → Outcome (Unit {0}) × Cursor
  scroll_to r c none = (failed position_out_of_bound, c)
  scroll_to r c (some p) =
      if ltb p (length r.rows)
      then (returned tt, record c { pos = p })
      else (failed position_out_of_bound, c)

  unfoldable pub scroll : ScrollMode → ℤ → Cursor → Outcome (Unit {0}) × Cursor
  unfolding check_result scroll_to
  scroll mode value c =
      check_result c.pgresult c (λ r. scroll_to r c (new_position mode value c.pos))
