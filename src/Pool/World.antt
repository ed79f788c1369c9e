-- ===== src/Pool/World.antt =====
-- The steps that the threads of a program take on one pool, in any order: clients, the workers and
-- the scheduler of psycopg3/psycopg3/pool/pool.py.
use psycopg.Prelude.{
  ℕ, ◌+◌, ◌-◌, ◌<◌, ◌≡◌, Bool, Option, some, List, [], ◌∷◌, ◌++◌, if◌then◌else◌, is_some,
}
use psycopg.Pool.Client.{Conn, WaitingClient}
use psycopg.Pool.State.{Task, Pool}
use psycopg.Pool.Requests.{Got, given, queued, raised, getconn, client_timed_out}
use psycopg.Pool.Maintain.{Rollback, putconn, check_take, check_one}
use psycopg.Pool.Control.{resize, close, wait_begin, wait_end, Outside, run, tick}

-- Beside the pool: the tasks that workers are running, the connections that calls of `check` hold,
-- and how many connections `getconn` gave at once and `putconn` took back.
pub record World : Type 0 where
  pub state : Pool
  pub running : List Task
  pub checking : List Conn
  pub taken : ℕ
  pub returned : ℕ

-- The clients that were served with a connection.
abbrev pub holds : WaitingClient → ℕ
holds w = if is_some w.conn then 1 else 0

unfoldable pub handed : List WaitingClient → ℕ
handed [] = 0
handed (w ∷ ws) = holds w + handed ws

abbrev pub gives : Got → ℕ
gives (given c) = 1
gives (queued i) = 0
gives (raised e) = 0

abbrev pub start : Pool → World
start s = record { state = s; running = []; checking = []; taken = 0; returned = 0 }

-- The connections that programs have and may still return.
abbrev pub out : World → ℕ
out w = w.taken + handed w.state.served - w.returned

pub data Step : World → World → Type 0 where
  step_get :
      (w : World)
      → Step w
          (record w { state = (getconn w.state).1; taken = w.taken + gives (getconn w.state).0 })
  step_timed_out : (w : World) (i : ℕ) → Step w (record w { state = client_timed_out i w.state })
  step_put :
      (w : World) (now : ℕ) (r : Rollback) (c : Conn) (s : Pool)
      → w.returned < w.taken + handed w.state.served
      → putconn now r c w.state ≡ some s
      → Step w (record w { state = s; returned = w.returned + 1 })
  step_worker_gets :
      (w : World) (t : Task) (rest : List Task)
      → w.state.tasks ≡ t ∷ rest
      → Step w (record w { state = record w.state { tasks = rest }; running = t ∷ w.running })
  step_worker_runs :
      (w : World) (x : Outside) (before after : List Task) (t : Task)
      → w.running ≡ before ++ t ∷ after
      → Step w (record w { state = run x t w.state; running = before ++ after })
  step_scheduler :
      (w : World) (before after : List (ℕ × Task)) (delay : ℕ) (t : Task)
      → w.state.scheduled ≡ before ++ (delay, t) ∷ after
      → Step w (record w { state = tick t (record w.state { scheduled = before ++ after }) })
  step_check_take :
      (w : World)
      → Step w (record w {
        state = (check_take w.state).1;
        checking = w.checking ++ (check_take w.state).0;
      })
  step_check_one :
      (w : World) (works : Bool) (before after : List Conn) (c : Conn)
      → w.checking ≡ before ++ c ∷ after
      → Step w (record w { state = check_one works c w.state; checking = before ++ after })
  step_resize :
      (w : World) (min_size : ℕ) (max_size : Option ℕ) (s : Pool)
      → resize min_size max_size w.state ≡ some s
      → Step w (record w { state = s })
  step_wait : (w : World) → Step w (record w { state = wait_begin w.state })
  step_wait_end : (w : World) → Step w (record w { state = wait_end w.state })
  step_close : (w : World) → Step w (record w { state = close w.state })

-- Any number of steps.
pub data Steps (w : World) : World → Type 0 where
  no_step : Steps w w
  one_more : {v u : World} → Steps w v → Step v u → Steps w u
