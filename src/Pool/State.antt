-- ===== src/Pool/State.antt =====
-- The state of the pool: psycopg3/psycopg3/pool/base.py and psycopg3/psycopg3/pool/pool.py.
use psycopg.Prelude.{ℕ, zero, suc, Bool, Option, List, [], ◌∷◌, ◌++◌}
use psycopg.Pool.Client.{Conn, WaitingClient}
use psycopg.Pool.Attempt.{ConnectionAttempt}

-- The maintenance tasks, and `None`, which stops the scheduler.
pub data Task : Type 0 where
  add_connection : Option ConnectionAttempt → Bool → Task
  return_connection : Conn → Task
  shrink_pool : Task
  stop_worker : Task
  stop_scheduler : Task

-- `waiting` is the deque of clients; `served` keeps the clients that were taken from it, which their
-- threads still look at.  `tasks` is the queue of the workers, `scheduled` holds tasks with their
-- delays.  The last seven fields are counters of `_stats`.
pub record Pool : Type 0 where
  pub min_size : ℕ
  pub max_size : ℕ
  pub max_waiting : ℕ
  pub max_idle : ℕ
  pub reconnect_timeout : ℕ
  pub num_workers : ℕ
  pub has_reset : Bool
  pub nconns : ℕ
  pub nconns_min : ℕ
  pub growing : Bool
  pub closed : Bool
  pub pool : List Conn
  pub waiting : List WaitingClient
  pub served : List WaitingClient
  pub next_client : ℕ
  pub full_event : Option Bool
  pub tasks : List Task
  pub scheduled : List (ℕ × Task)
  pub requests_num : ℕ
  pub requests_queued : ℕ
  pub requests_errors : ℕ
  pub returns_bad : ℕ
  pub connections_num : ℕ
  pub connections_errors : ℕ
  pub connections_lost : ℕ

unfoldable pub run_task : Task → Pool → Pool
run_task t s = record s { tasks = s.tasks ++ t ∷ [] }

unfoldable pub schedule_task : Task → ℕ → Pool → Pool
schedule_task t delay s = record s { scheduled = s.scheduled ++ (delay, t) ∷ [] }

-- One task, as many times as a loop over a range runs it.
unfoldable pub run_task_times : ℕ → Task → Pool → Pool
run_task_times zero t s = s
run_task_times (suc n) t s = run_task_times n t (run_task t s)
