-- ===== src/Pool/Tests.antt =====
-- Runs of the model of psycopg3/psycopg3/pool, and its theorems at concrete inputs.
use Prim.Native.Nat.{max}
use psycopg.Prelude.{
  ◌⊎◌, ◌+◌, ◌-◌, ◌≤◌, ◌≡◌, refl, true, false, none, some, [], ◌∷◌, ◌++◌, length, arith, map,
}
use psycopg.Pool.Client.{
  Conn, WaitingClient, new_client, idle, pool_closed, pool_timeout, fail, wait_result, returns,
}
use psycopg.Pool.Client.Events.{event_set, event_timed_out, play_all, accepted, wait_result_lem}
use psycopg.Pool.Attempt.{ConnectionAttempt, update_delay, time_to_give_up}
use psycopg.Pool.Attempt.Ends.{retry, retry_lem}
use psycopg.Pool.State.{Task, add_connection, shrink_pool, Pool, run_task}
use psycopg.Pool.Requests.{given, raised, getconn, add_to_pool, grow}
use psycopg.Pool.Maintain.{no_callback, shrink, connect}
use psycopg.Pool.Control.{Options, new_pool, close, run, run_open, tick, Outside, initial}
use psycopg.Pool.World.{
  World, start, step_get, step_worker_gets, step_worker_runs, step_scheduler, Steps, no_step,
  one_more, out, handed,
}
use psycopg.Pool.Balance.{weigh, weigh_delayed}
use psycopg.Pool.Balance.Count.{nconns_lem}
use psycopg.Pool.Handover.{add_to_pool_fifo}
use psycopg.Pool.Shut.{close_lem, at_once, by_late_task}
use psycopg.Pool.Growth.Bound.{all_growers, nconns_bound}
use psycopg.Pool.Idle.Always.{fair_lem}
use psycopg.Pool.Growth.One.{one_grower, stuck_lem}

abbrev one_conn : Options
one_conn = record {
  min_size = 1;
  max_size = some 2;
  max_waiting = 0;
  max_idle = 600;
  reconnect_timeout = 300;
  num_workers = 3;
  has_reset = false;
}

abbrev conn : Conn
conn = record { ident = 7; status = idle; expire_at = 3600; pooled = true }

abbrev stored : Conn
stored = record { ident = 7; status = idle; expire_at = 3600; pooled = false }

-- The pool of these options as it starts.
abbrev started : Pool
started = record (initial one_conn) {
  tasks = add_connection none false ∷ [];
  scheduled = (600, shrink_pool) ∷ [];
}

starts : new_pool one_conn ≡ some started
unfolding new_pool run_task
starts = refl

abbrev answers : Outside
answers = record {
  now = 1;
  first_delay = 1;
  answer = some (7, no_callback, 3600);
  rollback = none;
  callback = no_callback;
}

-- The worker makes the first connection, and a client takes it.
abbrev fetched : World
fetched = record (start (record started { tasks = [] })) {
  running = add_connection none false ∷ [];
}

abbrev filled : World
filled = record fetched {
  state = record started { tasks = []; pool = stored ∷ []; connections_num = 1 };
  running = [];
}

fills : run answers (add_connection none false) fetched.state ≡ filled.state
unfolding run connect add_to_pool
fills = refl

used : World
used = record filled { state = (getconn filled.state).1; taken = 1 }

filled-Steps : Steps (start started) filled
unfolding run connect add_to_pool
filled-Steps =
    one_more
      (one_more no_step (step_worker_gets (start started) (add_connection none false) [] refl))
      (step_worker_runs fetched answers [] [] (add_connection none false) refl)

gives : (getconn filled.state).0 ≡ given conn
unfolding getconn
gives = refl

-- The pool is shrunk while every connection is used: `popleft` raises IndexError.
shrink_fails : (shrink (record started { nconns = 2 })).0 ≡ none
unfolding shrink
shrink_fails = refl

nconns_lem_example : 1 ≡ length (stored ∷ []) + 0 + 0 + 0 + 0 + out filled
unfolding weigh weigh_delayed
nconns_lem_example = nconns_lem one_conn started filled starts filled-Steps refl

wait_result_lem_example :
    (wait_result (play_all (event_set conn ∷ event_timed_out ∷ []) (new_client 0)) ≡ returns conn)
    × (accepted (event_set conn ∷ event_timed_out ∷ []) (new_client 0) ≡ conn ∷ [])
wait_result_lem_example = wait_result_lem 0 (event_set conn ∷ event_timed_out ∷ [])

retry_lem_example :
    (v : Pool) × (retry (λ k. 0) 1 10 5 none true started ≡ some v)
    × (v.nconns ≡ 0)
    × (v.pool ≡ [])
    × (v.waiting ≡ [])
retry_lem_example = retry_lem (λ k. 0) 1 9 5 true started (omega arith) (omega arith) (omega arith)

-- A client that gave up, and one that still waits.
abbrev gone : WaitingClient
gone = record (new_client 0) { error = some pool_timeout }

abbrev queue : Pool
queue = record started { waiting = gone ∷ new_client 1 ∷ [] }

add_to_pool_fifo_example : add_to_pool conn queue ≡ record queue {
  waiting = [];
  served = gone ∷ record (new_client 1) { conn = some stored } ∷ [];
}
add_to_pool_fifo_example =
    add_to_pool_fifo conn queue (gone ∷ []) [] (new_client 1) refl (refl, tt) refl

-- The pool is closed while a worker connects, and the connection comes after that.
abbrev connecting : World
connecting = record (start queue) { running = add_connection none false ∷ [] }

abbrev too_late : World
too_late = record connecting {
  state = run_open answers (add_connection none false) (close queue);
  running = [];
}

-- That connection stays in the closed pool.
left_in_closed_pool : too_late.state.pool ≡ stored ∷ []
unfolding connect add_to_pool fail run_open close
left_in_closed_pool = refl

close_lem_example :
    ((close queue).served ≡ queue.served ++ map (λ w. (fail pool_closed w).1) queue.waiting)
    × (too_late.state.closed ≡ true)
    × (too_late.state.waiting ≡ [])
    × (handed too_late.state.served ≡ handed (close queue).served)
    × ((getconn too_late.state).0 ≡ raised pool_closed)
close_lem_example =
    close_lem connecting too_late refl
      (by_late_task answers [] [] (add_connection none false) at_once refl)

nconns_bound_example :
    (getconn started).1.nconns
    ≤ max started.nconns (getconn started).1.max_size
      + ((getconn started).1.min_size - started.min_size)
unfolding getconn
nconns_bound_example =
    nconns_bound (start started) (record (start started) { state = (getconn started).1; taken = 0 })
      (step_get (start started))

one_grower_example : all_growers filled ≤ 0
one_grower_example = one_grower one_conn started filled starts filled-Steps

-- A client has to wait, so the pool grows; the server refuses the connection, and the attempt is made
-- again by a worker.
abbrev asked : World
asked = record (start started) { state = (getconn started).1; taken = 0 }

abbrev first_task : Task
first_task = add_connection none false

abbrev growing_task : Task
growing_task = add_connection none true

abbrev working : World
working = record asked {
  state = record asked.state { tasks = [] };
  running = growing_task ∷ first_task ∷ [];
}

abbrev refusal : Outside
refusal = record answers { answer = none }

abbrev refused : World
refused = record working {
  state = run refusal growing_task working.state;
  running = first_task ∷ [];
}

abbrev attempt : ConnectionAttempt
attempt = record { reconnect_timeout = 300; delay = 1; give_up_at = 301 }

abbrev again_task : Task
again_task = add_connection (some attempt) true

abbrev due : World
due = record refused {
  state = tick again_task (record refused.state { scheduled = (600, shrink_pool) ∷ [] });
}

abbrev last_attempt : World
last_attempt = record due {
  state = record due.state { tasks = [] };
  running = again_task ∷ first_task ∷ [];
}

last_attempt-Steps : Steps (start started) last_attempt
unfolding getconn run tick connect update_delay time_to_give_up
last_attempt-Steps =
    one_more
      (one_more
        (one_more
          (one_more
            (one_more (one_more no_step (step_get (start started)))
              (step_worker_gets asked first_task (growing_task ∷ []) refl))
            (step_worker_gets
              (record asked {
                state = record asked.state { tasks = growing_task ∷ [] };
                running = first_task ∷ [];
              })
              growing_task [] refl))
          (step_worker_runs working refusal [] (first_task ∷ []) growing_task refl))
        (step_scheduler refused ((600, shrink_pool) ∷ []) [] 1 again_task refl))
      (step_worker_gets due again_task [] refl)

-- The last attempt is given up.
abbrev gave_up : World
gave_up = record last_attempt {
  state = run (record refusal { now = 301 }) again_task last_attempt.state;
  running = first_task ∷ [];
}

stuck_lem_example :
    (gave_up.state.growing ≡ true)
    × (all_growers gave_up ≡ 0)
    × (grow gave_up.state ≡ gave_up.state)
unfolding getconn run tick connect time_to_give_up
stuck_lem_example =
    stuck_lem one_conn started last_attempt gave_up (record refusal { now = 301 }) attempt []
      (first_task ∷ []) starts last_attempt-Steps refl refl refl refl no_step

fair_lem_example : (filled.state.waiting ≡ []) ⊎ (filled.state.pool ≡ [])
fair_lem_example = fair_lem one_conn started filled starts filled-Steps
