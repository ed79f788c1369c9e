-- ===== src/Pool/Maintain.antt =====
-- How the pool keeps its connections: the methods of psycopg3/psycopg3/pool/pool.py that add, reset,
-- take back, check and drop them.
use psycopg.Prelude.{
  ℕ, ◌+◌, ◌-◌, Bool, true, false, Option, none, some, List, [], ◌∷◌, length, leb, ltb, ◌==◌,
  if◌then◌else◌, ◌&&◌, not,
}
use psycopg.Pool.Client.{Conn, TransactionStatus, idle, active, intrans, inerror, unknown}
use psycopg.Pool.Attempt.{ConnectionAttempt, new_attempt, update_delay, time_to_give_up}
use psycopg.Pool.State.{add_connection, return_connection, Pool, run_task, schedule_task}
use psycopg.Pool.Requests.{add_to_pool}

-- What a callback, `configure` or `reset`, does: it is not there, it raises, or it leaves the
-- connection in a status.
pub data Callback : Type 0 where
  no_callback : Callback
  callback_raises : Callback
  callback_leaves : TransactionStatus → Callback

abbrev pub is_idle : TransactionStatus → Bool
is_idle idle = true
is_idle _ = false

-- libpq reports the status UNKNOWN if the connection is closed.
abbrev pub is_closed : TransactionStatus → Bool
is_closed unknown = true
is_closed _ = false

abbrev pub close_conn : Conn → Conn
close_conn c = record c { status = unknown }

-- What a new connection is like, with the callback's doing and the expiry date; `none` where the
-- server refuses.
abbrev pub Answer : Type 0
Answer = Option (ℕ × Callback × ℕ)

configured : ℕ → ℕ → Callback → Option Conn
configured i expire no_callback =
    some (record { ident = i; status = idle; expire_at = expire; pooled = true })
configured i expire callback_raises = none
configured i expire (callback_leaves st) =
    if is_idle st
    then some (record { ident = i; status = st; expire_at = expire; pooled = true })
    else none

-- `_connect`; `none` is an exception.
unfoldable pub connect : Answer → Pool → Option Conn × Pool
unfolding configured
connect none s = (
  none,
  record s {
    connections_num = s.connections_num + 1;
    connections_errors = s.connections_errors + 1;
  },
)
connect (some (i, done, expire)) s =
    (configured i expire done, record s { connections_num = s.connections_num + 1 })

abbrev pub attempt_or_new : Option ConnectionAttempt → Pool → ConnectionAttempt
attempt_or_new none s = new_attempt s.reconnect_timeout
attempt_or_new (some a) s = a

-- The end of `_add_connection` where it grows the pool.
unfoldable pub grow_more : Bool → Pool → Pool
unfolding run_task
grow_more false s = s
grow_more true s =
    if ltb s.nconns s.max_size && not (length s.waiting == 0)
    then run_task (add_connection none true) (record s { nconns = s.nconns + 1 })
    else record s { growing = false }

-- After a failure: give up (the user's `reconnect_failed` is called), or try again later.
unfoldable pub connect_failed : ℕ → ℕ → ConnectionAttempt → Bool → Pool → Pool
unfolding schedule_task
connect_failed initial now a growing s =
    if time_to_give_up now a
    then record s { nconns = s.nconns - 1 }
    else schedule_task (add_connection (some (update_delay initial now a)) growing)
        (update_delay initial now a).delay s

unfoldable pub connected : ℕ → ℕ → ConnectionAttempt → Bool → Option Conn × Pool → Pool
unfolding connect_failed grow_more
connected initial now a growing (none, s) = connect_failed initial now a growing s
connected initial now a growing (some c, s) = grow_more growing (add_to_pool c s)

-- `_add_connection`; `initial` is the first delay, with its jitter.
unfoldable pub add_connection_run : ℕ → ℕ → Answer → Option ConnectionAttempt → Bool → Pool → Pool
unfolding connected
add_connection_run initial now answer attempt growing s =
    connected initial now (attempt_or_new attempt s) growing (connect answer s)

-- The rollback of an active transaction: the status after it, or an exception.
abbrev pub Rollback : Type 0
Rollback = Option TransactionStatus

rolled_back : Rollback → Conn → Conn
rolled_back none c = close_conn c
rolled_back (some st) c = record c { status = st }

after_status : TransactionStatus → Rollback → Conn → Conn
unfolding rolled_back
after_status idle r c = c
after_status intrans r c = rolled_back r c
after_status inerror r c = rolled_back r c
after_status active r c = close_conn c
after_status unknown r c = c

called_reset : Callback → Conn → Conn
called_reset no_callback c = c
called_reset callback_raises c = close_conn c
called_reset (callback_leaves st) c = if is_idle st then record c { status = st } else close_conn c

-- `_reset_connection`
unfoldable pub reset_connection : Rollback → Callback → Conn → Conn
unfolding after_status called_reset
reset_connection r callback c =
    let c' = after_status c.status r c in
    if is_closed c'.status then c' else called_reset callback c'

-- `_return_connection`, after the reset.
unfoldable pub keep_or_replace : ℕ → Conn → Pool → Pool
unfolding run_task
keep_or_replace now c s =
    if is_closed c.status
    then run_task (add_connection none false) (record s { returns_bad = s.returns_bad + 1 })
    else if leb c.expire_at now
    then run_task (add_connection none false) s
    else add_to_pool c s

unfoldable pub return_connection_run : ℕ → Rollback → Callback → Conn → Pool → Pool
unfolding keep_or_replace
return_connection_run now r callback c s = keep_or_replace now (reset_connection r callback c) s

-- `putconn`: `none` is the ValueError on a connection of another pool.  A closed pool closes the
-- connection.
unfoldable pub putconn : ℕ → Rollback → Conn → Pool → Option Pool
unfolding return_connection_run run_task
putconn now r c s =
    if not c.pooled
    then none
    else if s.closed
    then some s
    else if s.has_reset
    then some (run_task (return_connection c) s)
    else some (return_connection_run now r no_callback c s)

-- `_shrink_pool`: the pool, and what its `popleft` gives; `none` is its IndexError.
unfoldable pub drop_first : List Conn → Pool → Option (Option Conn) × Pool
drop_first [] s = (none, s)
drop_first (c ∷ rest) s =
    (some (some c), record s { pool = rest; nconns = s.nconns - 1; nconns_min = s.nconns_min - 1 })

unfoldable pub shrink : Pool → Option (Option Conn) × Pool
unfolding drop_first
shrink s =
    let s' = record s { nconns_min = length s.pool } in
    if ltb s.min_size s.nconns && ltb 0 s.nconns_min then drop_first s.pool s' else (some none, s')

-- `check`: the connections are taken out, and each is tried, from the last on.
unfoldable pub check_take : Pool → List Conn × Pool
check_take s = (s.pool, record s { pool = [] })

unfoldable pub check_one : Bool → Conn → Pool → Pool
unfolding run_task
check_one true c s = add_to_pool c s
check_one false c s =
    run_task (add_connection none false) (record s { connections_lost = s.connections_lost + 1 })
