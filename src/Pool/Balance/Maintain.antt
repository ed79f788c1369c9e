-- ===== src/Pool/Balance/Maintain.antt =====
-- The count of connections under the methods of psycopg3/psycopg3/pool/pool.py that add, take back,
-- check and drop connections.
use psycopg.Prelude.{
  ℕ, zero, suc, ◌+◌, ◌<◌, ◌≤◌, ◌≡◌, refl, ap, ◌∙◌, Bool, true, false, Option, none, some, List, [],
  ◌∷◌, length, leb, ltb, if◌then◌else◌, ◌&&◌, map, arith, Bool-cases, inl, inr,
}
use psycopg.Pool.Client.{Conn, WaitingClient, wait_timed_out}
use psycopg.Pool.Attempt.{ConnectionAttempt, time_to_give_up, update_delay}
use psycopg.Pool.State.{Task, add_connection, Pool, run_task, schedule_task, run_task_times}
use psycopg.Pool.Requests.{client_timed_out, time_out, add_to_pool}
use psycopg.Pool.Maintain.{
  Answer, connect, attempt_or_new, grow_more, connect_failed, connected, add_connection_run,
  Rollback, Callback, reset_connection, keep_or_replace, return_connection_run, drop_first, shrink,
  check_take, check_one, is_closed,
}
use psycopg.Pool.World.{holds, handed}
use psycopg.Pool.Balance.{
  weight, weigh, weigh_delayed, weigh-append, weigh_delayed-append, Change, Change-then,
  run_task-Change, add_to_pool-Change,
}

handed-time_out : (i : ℕ) (ws : List WaitingClient) → handed (map (time_out i) ws) ≡ handed ws
unfolding handed
handed-time_out i [] = refl
handed-time_out i (w ∷ ws) =
    let same : holds (time_out i w) ≡ holds w = unfold time_out wait_timed_out in ground arith in
    omega (arith, same, handed-time_out i ws)

pub client_timed_out-Change :
    (i : ℕ) (s : Pool) → handed s.waiting ≡ 0 → Change 0 0 s (client_timed_out i s)
unfolding client_timed_out
client_timed_out-Change i s h = (
  omega (arith, handed-time_out i s.served),
  handed-time_out i s.waiting ∙ h,
  omega (arith, handed-time_out i s.served),
  refl,
)

pub schedule_task-Change :
    (t : Task) (delay : ℕ) (s : Pool)
    → handed s.waiting ≡ 0
    → Change (weight t) 0 s (schedule_task t delay s)
unfolding schedule_task weigh_delayed
schedule_task-Change t delay s h =
    (omega (arith, weigh_delayed-append s.scheduled ((delay, t) ∷ [])), h, omega arith, refl)

connect-Change :
    (answer : Answer) (s : Pool) → handed s.waiting ≡ 0 → Change 0 0 s (connect answer s).1
unfolding connect
connect-Change none s h = (refl, h, omega arith, refl)
connect-Change (some (i, done, expire)) s h = (refl, h, omega arith, refl)

connect_failed-Change :
    (initial now : ℕ) (a : ConnectionAttempt) (growing : Bool) (s : Pool)
    → handed s.waiting ≡ 0
    → 1 ≤ s.nconns
    → Change 1 0 s (connect_failed initial now a growing s)
unfolding connect_failed
connect_failed-Change initial now a growing s h n = elim (Bool-cases (time_to_give_up now a)) [
  | inl tired ↦ rw tired (omega arith, h, omega arith, refl)
  | inr not_yet ↦ rw not_yet (
      schedule_task-Change (add_connection (some (update_delay initial now a)) growing)
        (update_delay initial now a).delay s h)
]

grow_more-Change :
    (growing : Bool) (s : Pool) → handed s.waiting ≡ 0 → Change 0 0 s (grow_more growing s)
unfolding grow_more run_task weigh
grow_more-Change false s h = (refl, h, omega arith, refl)
grow_more-Change true s h =
    let added = weigh-append s.tasks (add_connection none true ∷ []) in
    (ground (arith, added), ground (arith, h), ground arith, ground arith)

connected-Change :
    (initial now : ℕ) (a : ConnectionAttempt) (growing : Bool) (c : Option Conn) (s : Pool)
    → handed s.waiting ≡ 0
    → 1 ≤ s.nconns
    → Change 1 0 s (connected initial now a growing (c, s))
unfolding connected
connected-Change initial now a growing none s h n =
    connect_failed-Change initial now a growing s h n
connected-Change initial now a growing (some c) s h n =
    let added = add_to_pool-Change c s h in
    Change-then 1 0 0 0 s (add_to_pool c s) (grow_more growing (add_to_pool c s)) added
      (grow_more-Change growing (add_to_pool c s) added.1)

pub add_connection_run-Change :
    (initial now : ℕ) (answer : Answer) (attempt : Option ConnectionAttempt) (growing : Bool)
    (s : Pool)
    → handed s.waiting ≡ 0
    → 1 ≤ s.nconns
    → Change 1 0 s (add_connection_run initial now answer attempt growing s)
unfolding add_connection_run connect
add_connection_run-Change initial now none attempt growing s h n =
    connected-Change initial now (attempt_or_new attempt s) growing none (connect none s).1 h n
add_connection_run-Change initial now (some (i, done, expire)) attempt growing s h n =
    connected-Change initial now (attempt_or_new attempt s) growing
      (connect (some (i, done, expire)) s).0 (connect (some (i, done, expire)) s).1 h n

keep_or_replace-Change :
    (now : ℕ) (c : Conn) (s : Pool) → handed s.waiting ≡ 0 → Change 1 0 s (keep_or_replace now c s)
unfolding keep_or_replace
keep_or_replace-Change now c s h = go (is_closed c.status) (leb c.expire_at now)
  where
    go :
        (b d : Bool)
        → Change 1 0 s (
            if b
            then run_task (add_connection none false) (record s { returns_bad = s.returns_bad + 1 })
            else if d
            then run_task (add_connection none false) s
            else add_to_pool c s)
    go true d =
        run_task-Change (add_connection none false) (record s { returns_bad = s.returns_bad + 1 }) h
    go false true = run_task-Change (add_connection none false) s h
    go false false = add_to_pool-Change c s h

pub return_connection_run-Change :
    (now : ℕ) (r : Rollback) (callback : Callback) (c : Conn) (s : Pool)
    → handed s.waiting ≡ 0
    → Change 1 0 s (return_connection_run now r callback c s)
unfolding return_connection_run
return_connection_run-Change now r callback c s h =
    keep_or_replace-Change now (reset_connection r callback c) s h

pub shrink-Change : (s : Pool) → handed s.waiting ≡ 0 → Change 0 0 s (shrink s).1
unfolding shrink
shrink-Change s h = elim (Bool-cases (ltb s.min_size s.nconns && ltb 0 s.nconns_min)) [
  | inl large ↦
      let some_conns : 0 < s.nconns = ground (arith, large) in
      rw large (dropped s.pool refl some_conns)
  | inr small ↦ rw small (refl, h, omega arith, refl)
]
  where
    dropped :
        (l : List Conn)
        → s.pool ≡ l
        → 0 < s.nconns
        → Change 0 0 s (drop_first l (record s { nconns_min = length s.pool })).1
    dropped [] e n = unfold drop_first in (refl, h, omega arith, refl)
    dropped (c ∷ rest) e n = unfold drop_first in (omega (arith, ap length e), h, omega arith, refl)

pub check_take-Change :
    (s : Pool) → handed s.waiting ≡ 0 → Change 0 (length s.pool) s (check_take s).1
unfolding check_take
check_take-Change s h = (omega arith, h, omega arith, refl)

pub check_one-Change :
    (works : Bool) (c : Conn) (s : Pool) → handed s.waiting ≡ 0 → Change 1 0 s (check_one works c s)
unfolding check_one
check_one-Change true c s h = add_to_pool-Change c s h
check_one-Change false c s h =
    run_task-Change (add_connection none false)
      (record s { connections_lost = s.connections_lost + 1 }) h

pub run_task_times-Change :
    (n : ℕ) (s : Pool)
    → handed s.waiting ≡ 0
    → Change n 0 s (run_task_times n (add_connection none false) s)
unfolding run_task_times
run_task_times-Change zero s h = (refl, h, omega arith, refl)
run_task_times-Change (suc n) s h =
    let one = run_task-Change (add_connection none false) s h in
    let all =
      Change-then 1 0 n 0 s (run_task (add_connection none false) s)
        (run_task_times n (add_connection none false) (run_task (add_connection none false) s)) one
        (run_task_times-Change n (run_task (add_connection none false) s) one.1) in
    (omega (arith, all.0), all.1, all.2, all.3)
