-- ===== src/Pool/Requests.antt =====
-- What clients ask of the pool: `getconn` and `_add_to_pool` of psycopg3/psycopg3/pool/pool.py.
use psycopg.Prelude.{
  ℕ, ◌+◌, Bool, true, false, Option, none, some, is_some, List, [], ◌∷◌, ◌++◌, length, leb, ltb,
  ◌==◌, if◌then◌else◌, ◌&&◌, not, map,
}
use psycopg.Pool.Client.{
  Conn, WaitingClient, PoolError, pool_closed, too_many_requests, new_client, set_conn,
  wait_timed_out, Waited, returns, raises, assertion_fails,
}
use psycopg.Pool.State.{add_connection, Pool, run_task}

-- What the critical section of `getconn` decides.
pub data Got : Type 0 where
  given : Conn → Got
  queued : ℕ → Got
  raised : PoolError → Got

-- One more connection, if there is space and no other is being added to grow.
unfoldable pub grow : Pool → Pool
unfolding run_task
grow s =
    if ltb s.nconns s.max_size && not s.growing
    then run_task (add_connection none true) (record s { nconns = s.nconns + 1; growing = true })
    else s

unfoldable pub enqueue : Pool → Pool
enqueue s = record s {
  waiting = s.waiting ++ new_client s.next_client ∷ [];
  next_client = s.next_client + 1;
  requests_queued = s.requests_queued + 1;
}

-- Where no connection is ready.
unfoldable pub queue_client : Pool → Got × Pool
unfolding grow enqueue
queue_client s =
    if not (s.max_waiting == 0) && leb s.max_waiting (length s.waiting)
    then (raised too_many_requests, record s { requests_errors = s.requests_errors + 1 })
    else (queued s.next_client, grow (enqueue s))

unfoldable pub take_ready : Pool → List Conn → Got × Pool
unfolding queue_client
take_ready s [] = queue_client s
take_ready s (c ∷ pool) = (
  given (record c { pooled = true }),
  record s {
    pool = pool;
    nconns_min = if ltb (length pool) s.nconns_min then length pool else s.nconns_min;
  },
)

-- `getconn` up to the end of its critical section.
unfoldable pub getconn : Pool → Got × Pool
unfolding take_ready
getconn s =
    let s' = record s { requests_num = s.requests_num + 1 } in
    if s.closed then (raised pool_closed, s') else take_ready s' s'.pool

-- The rest of `getconn` for a client that was queued, once it is not blocked any more.
unfoldable pub getconn_waited : Waited → Pool → Option Got × Pool
getconn_waited (returns c) s = (some (given (record c { pooled = true })), s)
getconn_waited (raises e) s =
    (some (raised e), record s { requests_errors = s.requests_errors + 1 })
getconn_waited assertion_fails s = (none, record s { requests_errors = s.requests_errors + 1 })

-- The timeout of one client, in the queue or out of it.
unfoldable pub time_out : ℕ → WaitingClient → WaitingClient
unfolding wait_timed_out
time_out i w = if w.ident == i then wait_timed_out w else w

unfoldable pub client_timed_out : ℕ → Pool → Pool
unfolding time_out
client_timed_out i s = record s {
  waiting = map (time_out i) s.waiting;
  served = map (time_out i) s.served;
}

-- The loop of `_add_to_pool` over the clients: whether one took the connection, the clients that
-- still wait, and those that do not.
pub record Offered : Type 0 where
  pub accepted : Bool
  pub waiting : List WaitingClient
  pub served : List WaitingClient

unfoldable pub offer : Conn → List WaitingClient → List WaitingClient → Offered
unfolding set_conn
offer c [] served = record { accepted = false; waiting = []; served = served }
offer c (w ∷ ws) served =
    let rest = offer c ws (served ++ (set_conn c w).1 ∷ []) in
    if (set_conn c w).0
    then record { accepted = true; waiting = ws; served = served ++ (set_conn c w).1 ∷ [] }
    else rest

-- The event of `wait`, which is told that the pool is full.
unfoldable pub notify_full : Pool → Pool
notify_full s =
    if is_some s.full_event && leb s.nconns (length s.pool)
    then record s { full_event = some true }
    else s

unfoldable pub store : Conn → Offered → Pool → Pool
unfolding notify_full
store c o s =
    let s' = record s { waiting = o.waiting; served = o.served } in
    if o.accepted then s' else notify_full (record s' { pool = s'.pool ++ c ∷ [] })

unfoldable pub add_to_pool : Conn → Pool → Pool
unfolding store offer
add_to_pool c s = let c' = record c { pooled = false } in store c' (offer c' s.waiting s.served) s
