-- ===== src/Pool/Client.antt =====
-- `WaitingClient` of psycopg3/psycopg3/pool/pool.py: a place in the queue for a connection.
pub mod Events
use psycopg.Prelude.{ℕ, Bool, true, false, Option, none, some, is_some, ◌||◌, if◌then◌else◌}

-- The status of a transaction, of pq.TransactionStatus; libpq reports `unknown` on a connection that
-- is closed or broken.
pub data TransactionStatus : Type 0 where
  idle : TransactionStatus
  active : TransactionStatus
  intrans : TransactionStatus
  inerror : TransactionStatus
  unknown : TransactionStatus

-- A connection as the pool knows it; `pooled` says whether its `_pool` is this pool.
pub record Conn : Type 0 where
  pub ident : ℕ
  pub status : TransactionStatus
  pub expire_at : ℕ
  pub pooled : Bool

pub data PoolError : Type 0 where
  pool_closed : PoolError
  pool_timeout : PoolError
  too_many_requests : PoolError

pub record WaitingClient : Type 0 where
  pub ident : ℕ
  pub conn : Option Conn
  pub error : Option PoolError

abbrev pub new_client : ℕ → WaitingClient
new_client i = record { ident = i; conn = none; error = none }

-- self.conn or self.error
abbrev pub is_served : WaitingClient → Bool
is_served w = is_some w.conn || is_some w.error

-- `set`, with what it returns.
unfoldable pub set_conn : Conn → WaitingClient → Bool × WaitingClient
set_conn c w = if is_served w then (false, w) else (true, record w { conn = some c })

-- `fail`, with what it returns.
unfoldable pub fail : PoolError → WaitingClient → Bool × WaitingClient
fail e w = if is_served w then (false, w) else (true, record w { error = some e })

-- The end of the blocking in `wait` by the timeout. The client may have been served since the time
-- was up, as the lock has to be taken again first.
unfoldable pub wait_timed_out : WaitingClient → WaitingClient
wait_timed_out w = record w { error = some pool_timeout }

-- What `wait` returns or raises.
pub data Waited : Type 0 where
  returns : Conn → Waited
  raises : PoolError → Waited
  assertion_fails : Waited

unfoldable pub error_of : Option PoolError → Waited
error_of none = assertion_fails
error_of (some e) = raises e

unfoldable pub conn_or : Option Conn → Option PoolError → Waited
unfolding error_of
conn_or (some c) error = returns c
conn_or none error = error_of error

unfoldable pub wait_result : WaitingClient → Waited
unfolding conn_or
wait_result w = conn_or w.conn w.error
