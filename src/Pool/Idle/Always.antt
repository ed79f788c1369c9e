-- ===== src/Pool/Idle/Always.antt =====
-- In no state of a pool of psycopg3/psycopg3/pool/pool.py that is reached a client waits while a
-- connection is ready.
use psycopg.Prelude.{
  ℕ, ◌-◌, ◌≡◌, refl, subst, Bool, true, false, Option, none, some, [], ◌++◌, if◌then◌else◌, map,
  ◌⊎◌, inl, inr, arith,
}
use psycopg.Pool.Client.{pool_closed}
use psycopg.Pool.State.{
  Task, add_connection, stop_worker, stop_scheduler, Pool, run_task, schedule_task,
}
use psycopg.Pool.Maintain.{check_take}
use psycopg.Pool.State.{run_task_times}
use psycopg.Pool.Control.{Options, initial, new_pool, resize, close, wait_begin, wait_end, tick}
use psycopg.Pool.Control.Accepted.{sized, resize-some, new_pool-some}
use psycopg.Pool.World.{
  World, start, Step, step_get, step_timed_out, step_put, step_worker_gets, step_worker_runs,
  step_scheduler, step_check_take, step_check_one, step_resize, step_wait, step_wait_end,
  step_close, Steps, no_step, one_more,
}
use psycopg.Pool.Balance.Count.{run_task_times-rest}
use psycopg.Pool.Idle.{IsFair, SameLists, same-IsFair, getconn-IsFair, client_timed_out-IsFair}
use psycopg.Pool.Client.{fail}
use psycopg.Pool.Idle.Steps.{run-IsFair, check_one-IsFair, putconn-IsFair}

times-IsFair : (n : ℕ) (t : Task) (s : Pool) → IsFair s → IsFair (run_task_times n t s)
times-IsFair n t s =
    let rest = run_task_times-rest n t s in same-IsFair s (run_task_times n t s) (rest.3, rest.1)

resize-IsFair :
    (min_size : ℕ) (max_size : Option ℕ) (s t : Pool)
    → resize min_size max_size s ≡ some t
    → IsFair s
    → IsFair t
resize-IsFair min_size max_size s t e f =
    subst IsFair (resize-some min_size max_size s t e) (
      times-IsFair (min_size - s.min_size) (add_connection none false) (sized min_size max_size s)
        f)

close-IsFair : (s : Pool) → IsFair s → IsFair (close s)
unfolding close schedule_task
close-IsFair s f = go s.closed
  where
    shut : Pool
    shut = record s {
      closed = true;
      pool = [];
      waiting = [];
      served = s.served ++ map (λ c. (fail pool_closed c).1) s.waiting;
    }

    go :
        (q : Bool)
        → IsFair (
            if q
            then s
            else run_task_times s.num_workers stop_worker (schedule_task stop_scheduler 0 shut))
    go true = f
    go false =
        times-IsFair s.num_workers stop_worker (schedule_task stop_scheduler 0 shut) (inr refl)

tick-IsFair : (t : Task) (s : Pool) → IsFair s → IsFair (tick t s)
unfolding tick run_task
tick-IsFair t s f = go s.closed
  where
    go : (q : Bool) → IsFair (if q then s else run_task t s)
    go true = f
    go false = f

wait_begin-SameLists : (s : Pool) → SameLists s (wait_begin s)
unfolding wait_begin
wait_begin-SameLists s = (ground arith, ground arith)

Step-IsFair : {w v : World} → Step w v → IsFair w.state → IsFair v.state
unfolding check_take wait_end
Step-IsFair (step_get w) f = getconn-IsFair w.state f
Step-IsFair (step_timed_out w i) f = client_timed_out-IsFair i w.state f
Step-IsFair (step_put w now r c s owes e) f = putconn-IsFair now r c w.state s e f
Step-IsFair (step_worker_gets w t rest e) f = f
Step-IsFair (step_worker_runs w x before after t e) f = run-IsFair x t w.state f
Step-IsFair (step_scheduler w before after delay t e) f =
    tick-IsFair t (record w.state { scheduled = before ++ after }) f
Step-IsFair (step_check_take w) f = inr refl
Step-IsFair (step_check_one w works before after c e) f = check_one-IsFair works c w.state f
Step-IsFair (step_resize w min_size max_size s e) f = resize-IsFair min_size max_size w.state s e f
Step-IsFair (step_wait w) f =
    same-IsFair w.state (wait_begin w.state) (wait_begin-SameLists w.state) f
Step-IsFair (step_wait_end w) f = f
Step-IsFair (step_close w) f = close-IsFair w.state f

Steps-IsFair : {w v : World} → Steps w v → IsFair w.state → IsFair v.state
Steps-IsFair no_step f = f
Steps-IsFair (one_more before step) f = Step-IsFair step (Steps-IsFair before f)

new_pool-IsFair : (o : Options) (s : Pool) → new_pool o ≡ some s → IsFair s
unfolding schedule_task
new_pool-IsFair o s e =
    subst IsFair (new_pool-some o s e)
      (times-IsFair o.min_size (add_connection none false) (initial o) (inl refl))

-- In every state that a new pool can reach, open or closed, either no client is in the queue or no
-- connection is in the pool.
pub fair_lem :
    (o : Options) (s : Pool) (w : World)
    → new_pool o ≡ some s
    → Steps (start s) w
    → (w.state.waiting ≡ []) ⊎ (w.state.pool ≡ [])
fair_lem o s w e steps = Steps-IsFair steps (new_pool-IsFair o s e)
