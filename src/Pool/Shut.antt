-- ===== src/Pool/Shut.antt =====
-- What the clients of a pool of psycopg3/psycopg3/pool/pool.py can have of it once it was closed.
use psycopg.Prelude.{
  ℕ, ◌+◌, ◌-◌, ◌≡◌, refl, ap, ◌∙◌, Bool, true, false, not, Option, none, some, List, [], ◌∷◌, map,
  ◌++◌, arith, if◌then◌else◌, subst, ltb, leb, length, ◌&&◌, some-injective,
}
use psycopg.Pool.Client.{Conn, WaitingClient, pool_closed, fail, wait_timed_out}
use psycopg.Pool.Attempt.{ConnectionAttempt, time_to_give_up}
use psycopg.Pool.State.{
  Task, add_connection, return_connection, shrink_pool, run_task, Pool, schedule_task, stop_worker,
  stop_scheduler,
}
use psycopg.Pool.Requests.{
  raised, take_ready, getconn, add_to_pool, offer, store, notify_full, client_timed_out, time_out,
}
use psycopg.Pool.Maintain.{
  Rollback, putconn, check_take, check_one, add_connection_run, connected, connect, connect_failed,
  grow_more, Answer, attempt_or_new, reset_connection, is_closed, return_connection_run,
  keep_or_replace, shrink, drop_first,
}
use psycopg.Pool.Control.{Outside, run_open, close, run, tick, resize, wait_begin, wait_end}
use psycopg.Pool.Control.Accepted.{sized, resize-some}
use psycopg.Pool.Balance.Count.{run_task_times-rest}
use psycopg.Pool.World.{
  World, holds, handed, Step, step_get, step_timed_out, step_put, step_worker_gets,
  step_worker_runs, step_scheduler, step_check_take, step_check_one, step_resize, step_wait,
  step_wait_end, step_close,
}

-- The pool is closed, nobody waits, and `given` connections were handed to clients that waited.
abbrev pub IsShut : ℕ → Pool → Type 0
IsShut given s = (s.closed ≡ true) × (s.waiting ≡ []) × (handed s.served ≡ given)

handed-time_out : (i : ℕ) (ws : List WaitingClient) → handed (map (time_out i) ws) ≡ handed ws
unfolding handed
handed-time_out i [] = refl
handed-time_out i (w ∷ ws) =
    let same : holds (time_out i w) ≡ holds w = unfold time_out wait_timed_out in ground arith in
    omega (arith, same, handed-time_out i ws)

-- A connection that comes to a pool where nobody waits goes to its end.
add_to_pool-IsShut : (n : ℕ) (c : Conn) (s : Pool) → IsShut n s → IsShut n (add_to_pool c s)
unfolding add_to_pool store notify_full offer
add_to_pool-IsShut n c s (shut, empty, same) =
    rw empty (ground (arith, shut), ground arith, ground (arith, same))

getconn-IsShut : (n : ℕ) (s : Pool) → IsShut n s → IsShut n (getconn s).1
unfolding getconn
getconn-IsShut n s h = by_closed s.closed h.0
  where
    counted : Pool
    counted = record s { requests_num = s.requests_num + 1 }

    by_closed :
        (q : Bool)
        → q ≡ true
        → IsShut n (if q then (raised pool_closed, counted) else take_ready counted counted.pool).1
    by_closed true e = h
    by_closed false e = cc e

putconn-IsShut :
    (n now : ℕ) (r : Rollback) (c : Conn) (s t : Pool)
    → IsShut n s
    → putconn now r c s ≡ some t
    → IsShut n t
unfolding putconn
putconn-IsShut n now r c s t h e = by_pool c.pooled s.closed _ h.0 e
  where
    by_pool :
        (p q : Bool) (o : Option Pool)
        → q ≡ true
        → (if not p then none else if q then some s else o) ≡ some t
        → IsShut n t
    by_pool false q o shut e' = cc e'
    by_pool true true o shut e' = subst (IsShut n) (some-injective e') h
    by_pool true false o shut e' = cc shut

run-IsShut : (n : ℕ) (x : Outside) (t : Task) (s : Pool) → IsShut n s → IsShut n (run x t s)
unfolding run
run-IsShut n x t s h = by_closed s.closed h.0
  where
    by_closed : (q : Bool) → q ≡ true → IsShut n (if q then s else run_open x t s)
    by_closed true e = h
    by_closed false e = cc e

tick-IsShut : (n : ℕ) (t : Task) (s : Pool) → IsShut n s → IsShut n (tick t s)
unfolding tick run_task
tick-IsShut n t s h = by_closed s.closed h.0
  where
    by_closed : (q : Bool) → q ≡ true → IsShut n (if q then s else run_task t s)
    by_closed true e = h
    by_closed false e = cc e

check_one-IsShut :
    (n : ℕ) (works : Bool) (c : Conn) (s : Pool) → IsShut n s → IsShut n (check_one works c s)
unfolding check_one
check_one-IsShut n true c s h = add_to_pool-IsShut n c s h
check_one-IsShut n false c s h = unfold run_task in h

resize-IsShut :
    (n min_size : ℕ) (max_size : Option ℕ) (s t : Pool)
    → IsShut n s
    → resize min_size max_size s ≡ some t
    → IsShut n t
resize-IsShut n min_size max_size s t h e =
    let rest =
      run_task_times-rest (min_size - s.min_size) (add_connection none false)
        (sized min_size max_size s) in
    subst (IsShut n) (resize-some min_size max_size s t e)
      (rest.0 ∙ h.0, rest.1 ∙ h.1, ap handed rest.2 ∙ h.2)

close-IsShut : (n : ℕ) (s : Pool) → IsShut n s → IsShut n (close s)
unfolding close
close-IsShut n s h = by_closed s.closed _ h.0
  where
    by_closed : (q : Bool) (t : Pool) → q ≡ true → IsShut n (if q then s else t)
    by_closed true t e = h
    by_closed false t e = cc e

either-IsShut :
    (n : ℕ) (b : Bool) (s t : Pool) → IsShut n s → IsShut n t → IsShut n (if b then s else t)
either-IsShut n true s t h k = h
either-IsShut n false s t h k = k

connected-IsShut :
    (n initial now : ℕ) (a : ConnectionAttempt) (growing : Bool) (o : Option Conn) (s : Pool)
    → IsShut n s
    → IsShut n (connected initial now a growing (o, s))
unfolding connected connect_failed grow_more schedule_task run_task
connected-IsShut n initial now a growing none s h = either-IsShut n (time_to_give_up now a) _ _ h h
connected-IsShut n initial now a false (some c) s h = add_to_pool-IsShut n c s h
connected-IsShut n initial now a true (some c) s h =
    let k = add_to_pool-IsShut n c s h in either-IsShut n _ _ _ k k

keep_or_replace-IsShut :
    (n now : ℕ) (c : Conn) (s : Pool) → IsShut n s → IsShut n (keep_or_replace now c s)
unfolding keep_or_replace run_task
keep_or_replace-IsShut n now c s h =
    either-IsShut n (is_closed c.status) _ _ h
      (either-IsShut n (leb c.expire_at now) _ _ h (add_to_pool-IsShut n c s h))

shrink-IsShut : (n : ℕ) (s : Pool) → IsShut n s → IsShut n (shrink s).1
unfolding shrink drop_first
shrink-IsShut n s h = by_size (ltb s.min_size s.nconns && ltb 0 s.nconns_min) s.pool
  where
    low : Pool
    low = record s { nconns_min = length s.pool }

    by_size :
        (b : Bool) (cs : List Conn) → IsShut n (if b then drop_first cs low else (some none, low)).1
    by_size true [] = h
    by_size true (c ∷ cs) = h
    by_size false cs = h

-- The rest of a task that was begun before the pool was closed.
run_open-IsShut :
    (n : ℕ) (x : Outside) (t : Task) (s : Pool) → IsShut n s → IsShut n (run_open x t s)
unfolding run_open add_connection_run return_connection_run connect schedule_task
run_open-IsShut n x (add_connection attempt growing) s h = by_outcome x.answer
  where
    by_outcome :
        (answer : Answer)
        → IsShut n
            (connected x.first_delay x.now (attempt_or_new attempt s) growing (connect answer s))
    by_outcome none =
        connected-IsShut n x.first_delay x.now (attempt_or_new attempt s) growing none _ h
    by_outcome (some a) =
        connected-IsShut n x.first_delay x.now (attempt_or_new attempt s) growing _ _ h
run_open-IsShut n x (return_connection c) s h =
    keep_or_replace-IsShut n x.now (reset_connection x.rollback x.callback c) s h
run_open-IsShut n x shrink_pool s h = shrink-IsShut n (schedule_task shrink_pool s.max_idle s) h
run_open-IsShut n x stop_worker s h = h
run_open-IsShut n x stop_scheduler s h = h

Step-IsShut : (n : ℕ) {w v : World} → Step w v → IsShut n w.state → IsShut n v.state
unfolding check_take wait_begin wait_end
Step-IsShut n (step_get w) h = getconn-IsShut n w.state h
Step-IsShut n (step_timed_out w i) h =
    unfold client_timed_out in
    (h.0, ap (map (time_out i)) h.1, handed-time_out i w.state.served ∙ h.2)
Step-IsShut n (step_put w now r c s owes e) h = putconn-IsShut n now r c w.state s h e
Step-IsShut n (step_worker_gets w t rest e) h = h
Step-IsShut n (step_worker_runs w x before after t e) h = run-IsShut n x t w.state h
Step-IsShut n (step_scheduler w before after delay t e) h =
    tick-IsShut n t (record w.state { scheduled = before ++ after }) h
Step-IsShut n (step_check_take w) h = h
Step-IsShut n (step_check_one w works before after c e) h = check_one-IsShut n works c w.state h
Step-IsShut n (step_resize w min_size max_size s e) h =
    resize-IsShut n min_size max_size w.state s h e
Step-IsShut n (step_wait w) h = (ground (arith, h.0), ground (arith, h.1), ground (arith, h.2))
Step-IsShut n (step_wait_end w) h = h
Step-IsShut n (step_close w) h = close-IsShut n w.state h

close-shuts :
    (s : Pool)
    → s.closed ≡ false
    → ((close s).closed ≡ true)
      × ((close s).waiting ≡ [])
      × ((close s).served ≡ s.served ++ map (λ w. (fail pool_closed w).1) s.waiting)
unfolding close schedule_task
close-shuts s h =
    let rest =
      run_task_times-rest s.num_workers stop_worker (schedule_task stop_scheduler 0 shut) in
    rw h (rest.0, rest.1, rest.2)
  where
    shut : Pool
    shut = record s {
      closed = true;
      pool = [];
      waiting = [];
      served = s.served ++ map (λ w. (fail pool_closed w).1) s.waiting;
    }

-- What may happen after a pool was closed: any steps, and tasks that were begun before go on to their end.
pub data Later (w : World) : World → Type 0 where
  at_once : Later w w
  by_step : {v u : World} → Later w v → Step v u → Later w u
  by_late_task :
      {v : World} (x : Outside) (before after : List Task) (t : Task)
      → Later w v
      → v.running ≡ before ++ t ∷ after
      → Later w (record v { state = run_open x t v.state; running = before ++ after })

Later-IsShut : (n : ℕ) {w v : World} → Later w v → IsShut n w.state → IsShut n v.state
Later-IsShut n at_once h = h
Later-IsShut n (by_step before step) h = Step-IsShut n step (Later-IsShut n before h)
Later-IsShut n (by_late_task {v = v} x before after t later e) h =
    run_open-IsShut n x t v.state (Later-IsShut n later h)

getconn-shut : (s : Pool) → s.closed ≡ true → (getconn s).0 ≡ raised pool_closed
unfolding getconn
getconn-shut s h = rw h refl

-- `close` on an open pool takes all clients from the queue, and those that were not served and did not
-- give up get PoolClosed. In every state after it, tasks that were begun before included, the pool is
-- closed, nobody waits, as many clients that waited have a connection as at `close`, and `getconn`
-- raises PoolClosed: no client gets a connection any more.
pub close_lem :
    (w v : World)
    → w.state.closed ≡ false
    → Later (record w { state = close w.state }) v
    → ((close w.state).served ≡ w.state.served ++ map (λ c. (fail pool_closed c).1) w.state.waiting)
      × (v.state.closed ≡ true)
      × (v.state.waiting ≡ [])
      × (handed v.state.served ≡ handed (close w.state).served)
      × ((getconn v.state).0 ≡ raised pool_closed)
close_lem w v h later =
    let (shut, empty, served) = close-shuts w.state h in
    let after = Later-IsShut (handed (close w.state).served) later (shut, empty, refl) in
    (served, after.0, after.1, after.2, getconn-shut v.state after.0)
