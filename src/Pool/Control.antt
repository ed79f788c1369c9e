-- ===== src/Pool/Control.antt =====
-- The life of the pool in psycopg3/psycopg3/pool/pool.py: creation, tasks, `resize` and `close`.
pub mod Accepted
use psycopg.Prelude.{
  ℕ, ◌+◌, ◌-◌, Bool, true, false, Option, none, some, [], ◌++◌, length, leb, ltb, if◌then◌else◌,
  map, is_some, ◌||◌,
}
use psycopg.Pool.Client.{pool_closed, fail}
use psycopg.Pool.State.{
  Task, add_connection, return_connection, shrink_pool, stop_worker, stop_scheduler, Pool, run_task,
  schedule_task, run_task_times,
}
use psycopg.Pool.Maintain.{
  Answer, Rollback, Callback, add_connection_run, return_connection_run, shrink,
}

-- What the caller of the constructor chooses; `max_size` is given or is `min_size`.
pub record Options : Type 0 where
  pub min_size : ℕ
  pub max_size : Option ℕ
  pub max_waiting : ℕ
  pub max_idle : ℕ
  pub reconnect_timeout : ℕ
  pub num_workers : ℕ
  pub has_reset : Bool

abbrev pub or_min : ℕ → Option ℕ → ℕ
or_min min_size none = min_size
or_min min_size (some max_size) = max_size

-- The state before any task is put in the queue.
abbrev pub initial : Options → Pool
initial o = record {
  min_size = o.min_size;
  max_size = or_min o.min_size o.max_size;
  max_waiting = o.max_waiting;
  max_idle = o.max_idle;
  reconnect_timeout = o.reconnect_timeout;
  num_workers = o.num_workers;
  has_reset = o.has_reset;
  nconns = o.min_size;
  nconns_min = o.min_size;
  growing = false;
  closed = false;
  pool = [];
  waiting = [];
  served = [];
  next_client = 0;
  full_event = none;
  tasks = [];
  scheduled = [];
  requests_num = 0;
  requests_queued = 0;
  requests_errors = 0;
  returns_bad = 0;
  connections_num = 0;
  connections_errors = 0;
  connections_lost = 0;
}

-- The constructor; `none` is its ValueError.
unfoldable pub new_pool : Options → Option Pool
unfolding run_task_times schedule_task
new_pool o =
    if ltb (or_min o.min_size o.max_size) o.min_size
    then none
    else if ltb o.num_workers 1
    then none
    else some (
        schedule_task shrink_pool o.max_idle
          (run_task_times o.min_size (add_connection none false) (initial o)))

-- `resize`; `none` is its ValueError.
unfoldable pub resize : ℕ → Option ℕ → Pool → Option Pool
unfolding run_task_times
resize min_size max_size s =
    let ngrow = min_size - s.min_size in
    if ltb (or_min min_size max_size) min_size
    then none
    else some (
        run_task_times ngrow (add_connection none false) (record s {
          min_size = min_size;
          max_size = or_min min_size max_size;
          nconns = s.nconns + ngrow;
        }))

-- `close`: the clients that wait get the error, and the connections in the pool are closed.
unfoldable pub close : Pool → Pool
unfolding run_task_times schedule_task fail
close s =
    if s.closed
    then s
    else run_task_times s.num_workers stop_worker (
        schedule_task stop_scheduler 0 (record s {
          closed = true;
          pool = [];
          waiting = [];
          served = s.served ++ map (λ w. (fail pool_closed w).1) s.waiting;
        }))

-- `wait`, up to its blocking: nothing if the pool is full, or else an event to be waited for. If there is
-- an event already, an assertion fails, and nothing is changed either.
unfoldable pub wait_begin : Pool → Pool
wait_begin s =
    if leb s.nconns (length s.pool) || is_some s.full_event
    then s
    else record s { full_event = some false }

-- The end of `wait`; where there is no event any more, an assertion fails and there is none.
unfoldable pub wait_end : Pool → Pool
wait_end s = record s { full_event = none }

-- What the outside gives to the run of a task.
pub record Outside : Type 0 where
  pub now : ℕ
  pub first_delay : ℕ
  pub answer : Answer
  pub rollback : Rollback
  pub callback : Callback

-- The `_run` of each task.
unfoldable pub run_open : Outside → Task → Pool → Pool
unfolding add_connection_run return_connection_run shrink schedule_task
run_open x (add_connection attempt growing) s =
    add_connection_run x.first_delay x.now x.answer attempt growing s
run_open x (return_connection c) s = return_connection_run x.now x.rollback x.callback c s
run_open x shrink_pool s = (shrink (schedule_task shrink_pool s.max_idle s)).1
run_open x stop_worker s = s
run_open x stop_scheduler s = s

-- `run` of a task that a worker took from the queue: nothing if the pool is closed.
unfoldable pub run : Outside → Task → Pool → Pool
unfolding run_open
run x t s = if s.closed then s else run_open x t s

-- `tick` of a task that the scheduler took: on to the workers' queue, if the pool is open.
unfoldable pub tick : Task → Pool → Pool
unfolding run_task
tick t s = if s.closed then s else run_task t s
