-- ===== src/Pool/Balance/Count.antt =====
-- `_nconns` of psycopg3/psycopg3/pool/base.py counts the connections, in every state that a pool of
-- psycopg3/psycopg3/pool/pool.py can reach.
use psycopg.Prelude.{
  ℕ, zero, suc, ◌+◌, ◌-◌, ◌≡◌, refl, ap, Bool, true, false, Option, some, [], ◌∷◌, ◌++◌, length,
  if◌then◌else◌, map, arith, length-append, subst,
}
use psycopg.Pool.Client.{fail, pool_closed}
use psycopg.Pool.State.{
  Task, shrink_pool, stop_worker, stop_scheduler, Pool, run_task, schedule_task, run_task_times,
}
use psycopg.Pool.Requests.{getconn, client_timed_out}
use psycopg.Pool.Maintain.{check_take, check_one}
use psycopg.Pool.Control.{Options, initial, new_pool, resize, close, wait_begin, wait_end}
use psycopg.Pool.Control.Accepted.{sized, resize-some, filled, new_pool-some}
use psycopg.Pool.World.{
  World, handed, gives, start, Step, step_get, step_timed_out, step_put, step_worker_gets,
  step_worker_runs, step_scheduler, step_check_take, step_check_one, step_resize, step_wait,
  step_wait_end, step_close, Steps, no_step, one_more,
}
use psycopg.Pool.Balance.{weigh, weigh_delayed, handed-append, Change, getconn-Change}
use psycopg.Pool.Balance.Maintain.{
  client_timed_out-Change, schedule_task-Change, check_take-Change, check_one-Change,
  run_task_times-Change,
}
use psycopg.Pool.Balance.Steps.{Balanced, moved}
use psycopg.Pool.Balance.Reachable.{put-Balanced, worker_runs-Balanced, scheduler-Balanced}
use psycopg.Pool.World.{out}

resize-Change :
    (min_size : ℕ) (max_size : Option ℕ) (s t : Pool)
    → handed s.waiting ≡ 0
    → resize min_size max_size s ≡ some t
    → Change 0 0 s t
resize-Change min_size max_size s t h e =
    let c = run_task_times-Change (min_size - s.min_size) (sized min_size max_size s) h in
    subst (Change 0 0 s) (resize-some min_size max_size s t e) (omega (arith, c.0), c.1, c.2, c.3)

-- Putting tasks into the queue leaves the rest of the pool.
pub run_task_times-rest :
    (n : ℕ) (t : Task) (s : Pool)
    → ((run_task_times n t s).closed ≡ s.closed)
      × ((run_task_times n t s).waiting ≡ s.waiting)
      × ((run_task_times n t s).served ≡ s.served)
      × ((run_task_times n t s).pool ≡ s.pool)
unfolding run_task_times run_task
run_task_times-rest zero t s = (refl, refl, refl, refl)
run_task_times-rest (suc n) t s = run_task_times-rest n t (run_task t s)

close-Balanced : (w : World) → Balanced w → Balanced (record w { state = close w.state })
unfolding close schedule_task handed
close-Balanced w b = go w.state.closed refl
  where
    shut : Pool
    shut = record w.state {
      closed = true;
      pool = [];
      waiting = [];
      served = w.state.served ++ map (λ c. (fail pool_closed c).1) w.state.waiting;
    }

    after : Pool
    after = run_task_times shut.num_workers stop_worker (schedule_task stop_scheduler 0 shut)

    go :
        (q : Bool)
        → w.state.closed ≡ q
        → Balanced (record w { state = if q then w.state else after })
    go true e = b
    go false e =
        let rest =
          run_task_times-rest shut.num_workers stop_worker (schedule_task stop_scheduler 0 shut) in
        let failed = map (λ c. (fail pool_closed c).1) w.state.waiting in
        record {
          count = λ working. cc (rest.0, working);
          queue = ap handed rest.1;
          owed = omega (arith, ap handed rest.2, handed-append w.state.served failed, b.owed);
        }

wait_begin-Change : (s : Pool) → handed s.waiting ≡ 0 → Change 0 0 s (wait_begin s)
unfolding wait_begin
wait_begin-Change s h = (ground arith, ground (arith, h), ground arith, ground arith)

Step-Balanced : {w v : World} → Step w v → Balanced w → Balanced v
unfolding weigh wait_end
Step-Balanced (step_get w) b =
    let c = getconn-Change w.state b.queue in
    moved w 0 (gives (getconn w.state).0) (getconn w.state).1 w.running w.checking
      (w.taken + gives (getconn w.state).0) w.returned b c (λ _. omega arith)
      (omega (arith, c.2, b.owed))
Step-Balanced (step_timed_out w i) b =
    let c = client_timed_out-Change i w.state b.queue in
    moved w 0 0 (client_timed_out i w.state) w.running w.checking w.taken w.returned b c
      (λ _. omega arith) (omega (arith, c.2, b.owed))
Step-Balanced (step_put w now r c s owes e) b = put-Balanced w now r c s b owes e
Step-Balanced (step_worker_gets w t rest e) b = record {
  count = λ working. omega (arith, ap weigh e, b.count working);
  queue = b.queue;
  owed = b.owed;
}
Step-Balanced (step_worker_runs w x before after t e) b =
    worker_runs-Balanced w x before after t b e
Step-Balanced (step_scheduler w before after delay t e) b =
    scheduler-Balanced w before after delay t b e
Step-Balanced (step_check_take w) b =
    let c = check_take-Change w.state b.queue in
    let all = length-append w.checking (check_take w.state).0 in
    moved w 0 (length w.state.pool) (check_take w.state).1 w.running
      (w.checking ++ (check_take w.state).0) w.taken w.returned b c
      (λ _. unfold check_take in omega (arith, all)) (omega (arith, c.2, b.owed))
Step-Balanced (step_check_one w works before after c e) b =
    let change = check_one-Change works c w.state b.queue in
    let all = length-append before (c ∷ after) in
    moved w 1 0 (check_one works c w.state) w.running (before ++ after) w.taken w.returned b change
      (λ _. omega (arith, all, ap length e, length-append before after))
      (omega (arith, change.2, b.owed))
Step-Balanced (step_resize w min_size max_size s e) b =
    let c = resize-Change min_size max_size w.state s b.queue e in
    moved w 0 0 s w.running w.checking w.taken w.returned b c (λ _. omega arith)
      (omega (arith, c.2, b.owed))
Step-Balanced (step_wait w) b =
    let c = wait_begin-Change w.state b.queue in
    moved w 0 0 (wait_begin w.state) w.running w.checking w.taken w.returned b c (λ _. omega arith)
      (omega (arith, c.2, b.owed))
Step-Balanced (step_wait_end w) b = record { count = b.count; queue = b.queue; owed = b.owed }
Step-Balanced (step_close w) b = close-Balanced w b

Steps-Balanced : {w v : World} → Steps w v → Balanced w → Balanced v
Steps-Balanced no_step b = b
Steps-Balanced (one_more before step) b = Step-Balanced step (Steps-Balanced before b)

start-Balanced : (o : Options) (s : Pool) → new_pool o ≡ some s → Balanced (start s)
unfolding handed weigh weigh_delayed
start-Balanced o s e =
    let filling = run_task_times-Change o.min_size (initial o) refl in
    let later = schedule_task-Change shrink_pool o.max_idle (filled o) filling.1 in
    subst (λ t. Balanced (start t)) (new_pool-some o s e)
      (record {
        count = λ _. omega (arith, filling.0, later.0);
        queue = later.1;
        owed = omega arith;
      })

-- In every state that a new pool can reach while it is open, by any steps of clients, workers,
-- scheduler, `check` and `resize`, `_nconns` is the number of connections in the pool, of those in
-- tasks that will make or return one, of those being checked, and of those that clients have.
pub nconns_lem :
    (o : Options) (s : Pool) (w : World)
    → new_pool o ≡ some s
    → Steps (start s) w
    → w.state.closed ≡ false
    → w.state.nconns
      ≡ length w.state.pool
        + weigh w.state.tasks
        + weigh_delayed w.state.scheduled
        + weigh w.running
        + length w.checking
        + out w
nconns_lem o s w e steps working =
    let b = Steps-Balanced steps (start-Balanced o s e) in omega (arith, b.count working, b.owed)
