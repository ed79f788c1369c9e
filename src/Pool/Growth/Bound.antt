-- ===== src/Pool/Growth/Bound.antt =====
-- How large a pool of psycopg3/psycopg3/pool/pool.py grows, and by how many tasks at a time.
use Prim.Native.Nat.{max}
use psycopg.Prelude.{
  ℕ, zero, suc, ◌+◌, ◌-◌, ◌≤◌, ◌≡◌, refl, ap, Bool, true, false, Option, none, some, [], ◌∷◌, ◌++◌,
  if◌then◌else◌, map, arith, subst,
}
use psycopg.Pool.Client.{fail, pool_closed}
use psycopg.Pool.State.{
  Task, add_connection, stop_worker, stop_scheduler, Pool, run_task, schedule_task, run_task_times,
}
use psycopg.Pool.Requests.{getconn, client_timed_out}
use psycopg.Pool.Maintain.{check_take}
use psycopg.Pool.Control.{resize, close, wait_begin, wait_end, tick}
use psycopg.Pool.Control.Accepted.{sized, resize-some}
use psycopg.Pool.World.{
  World, Step, step_get, step_timed_out, step_put, step_worker_gets, step_worker_runs,
  step_scheduler, step_check_take, step_check_one, step_resize, step_wait, step_wait_end,
  step_close,
}
use psycopg.Pool.Growth.{
  count_if, grower, growers, growers_delayed, growers-append, growers_delayed-append, pending,
  Grows, Grows-then, run_task-Grows, schedule_task-Grows, getconn-Grows,
}
use psycopg.Pool.Growth.Steps.{client_timed_out-Grows, run-Grows, check_one-Grows, putconn-Grows}

-- The tasks that grow the pool, wherever they are.
abbrev pub all_growers : World → ℕ
all_growers w = pending w.state + growers w.running

abbrev pub StepGrows : World → World → Type 0
StepGrows w v =
    (all_growers v + count_if w.state.growing ≤ all_growers w + count_if v.state.growing)
    × (count_if w.state.growing ≤ count_if v.state.growing + all_growers w)
    × (v.state.nconns ≤ max w.state.nconns v.state.max_size + (v.state.min_size - w.state.min_size))

pub run_task_times-Grows :
    (n : ℕ) (t : Task) (s : Pool) → grower t ≡ 0 → Grows 0 s (run_task_times n t s)
unfolding run_task_times
run_task_times-Grows zero t s h = (omega arith, omega arith, omega arith, refl, refl)
run_task_times-Grows (suc n) t s h =
    let all =
      Grows-then (grower t) 0 s (run_task t s) (run_task_times n t (run_task t s))
        (run_task-Grows t s) (run_task_times-Grows n t (run_task t s) h) in
    (omega (arith, all.0, h), omega (arith, all.1, h), all.2, all.3, all.4)

resize-grows :
    (w : World) (min_size : ℕ) (max_size : Option ℕ) (s : Pool)
    → resize min_size max_size w.state ≡ some s
    → StepGrows w (record w { state = s })
resize-grows w min_size max_size s e =
    let g =
      run_task_times-Grows (min_size - w.state.min_size) (add_connection none false)
        (sized min_size max_size w.state) refl in
    subst (λ t. StepGrows w (record w { state = t })) (resize-some min_size max_size w.state s e)
      (omega (arith, g.0), omega (arith, g.1), omega (arith, g.2, g.3, g.4))

close-Grows : (s : Pool) → Grows 0 s (close s)
unfolding close
close-Grows s = go s.closed
  where
    shut : Pool
    shut = record s {
      closed = true;
      pool = [];
      waiting = [];
      served = s.served ++ map (λ c. (fail pool_closed c).1) s.waiting;
    }

    stopped : Pool
    stopped = schedule_task stop_scheduler 0 shut

    go : (q : Bool) → Grows 0 s (if q then s else run_task_times s.num_workers stop_worker stopped)
    go true = (omega arith, omega arith, omega arith, refl, refl)
    go false =
        Grows-then 0 0 s stopped (run_task_times s.num_workers stop_worker stopped)
          (schedule_task-Grows stop_scheduler 0 shut)
          (run_task_times-Grows s.num_workers stop_worker stopped refl)

tick-Grows : (t : Task) (s : Pool) → Grows (grower t) s (tick t s)
unfolding tick
tick-Grows t s = go s.closed
  where
    go : (q : Bool) → Grows (grower t) s (if q then s else run_task t s)
    go true = (omega arith, omega arith, omega arith, refl, refl)
    go false = run_task-Grows t s

-- A change of the pool alone.
alone : (w : World) (s : Pool) → Grows 0 w.state s → StepGrows w (record w { state = s })
alone w s g = (omega (arith, g.0), omega (arith, g.1), omega (arith, g.2))

wait_begin-Grows : (s : Pool) → Grows 0 s (wait_begin s)
unfolding wait_begin
wait_begin-Grows s = (ground arith, ground arith, ground arith, ground arith, ground arith)

pub Step-grows : {w v : World} → Step w v → StepGrows w v
unfolding growers growers_delayed check_take wait_end
Step-grows (step_get w) = alone w (getconn w.state).1 (getconn-Grows w.state)
Step-grows (step_timed_out w i) =
    alone w (client_timed_out i w.state) (client_timed_out-Grows i w.state)
Step-grows (step_put w now r c s owes e) = alone w s (putconn-Grows now r c w.state s e)
Step-grows (step_worker_gets w t rest e) = (omega (arith, ap growers e), omega arith, omega arith)
Step-grows (step_worker_runs w x before after t e) =
    let g = run-Grows x t w.state in
    let all = growers-append before (t ∷ after) in
    let left = growers-append before after in
    let is_part = ap growers e in
    (omega (arith, g.0, all, left, is_part), omega (arith, g.1, all, is_part), omega (arith, g.2))
Step-grows (step_scheduler w before after delay t e) =
    let g = tick-Grows t (record w.state { scheduled = before ++ after }) in
    let all = growers_delayed-append before ((delay, t) ∷ after) in
    let left = growers_delayed-append before after in
    let is_part = ap growers_delayed e in
    (omega (arith, g.0, all, left, is_part), omega (arith, g.1, all, is_part), omega (arith, g.2))
Step-grows (step_check_take w) = (omega arith, omega arith, omega arith)
Step-grows (step_check_one w works before after c e) =
    let g = check_one-Grows works c w.state in
    (omega (arith, g.0), omega (arith, g.1), omega (arith, g.2))
Step-grows (step_resize w min_size max_size s e) = resize-grows w min_size max_size s e
Step-grows (step_wait w) = alone w (wait_begin w.state) (wait_begin-Grows w.state)
Step-grows (step_wait_end w) = (omega arith, omega arith, omega arith)
Step-grows (step_close w) = alone w (close w.state) (close-Grows w.state)

-- No step counts more connections than the greater of `max_size` and what was counted before; only
-- `resize` may add to that, the number by which it raises `min_size`.
pub nconns_bound :
    (w v : World)
    → Step w v
    → v.state.nconns ≤ max w.state.nconns v.state.max_size + (v.state.min_size - w.state.min_size)
nconns_bound w v step = (Step-grows step).2
