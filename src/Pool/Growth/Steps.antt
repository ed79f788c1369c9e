-- ===== src/Pool/Growth/Steps.antt =====
-- What the steps of psycopg3/psycopg3/pool/pool.py do to the growth of the pool.
use psycopg.Prelude.{
  inl, inr, ℕ, ◌+◌, ◌-◌, ◌≡◌, refl, Bool, true, false, Option, none, some, List, [], ◌∷◌, length,
  leb, ltb, if◌then◌else◌, ◌&&◌, arith, subst,
}
use psycopg.Pool.Client.{Conn}
use psycopg.Pool.Attempt.{ConnectionAttempt, time_to_give_up, update_delay}
use psycopg.Pool.State.{
  Task, add_connection, return_connection, shrink_pool, stop_worker, stop_scheduler, Pool, run_task,
  schedule_task,
}
use psycopg.Pool.Requests.{add_to_pool}
use psycopg.Pool.Maintain.{
  Answer, connect, attempt_or_new, grow_more, connect_failed, connected, add_connection_run,
  Rollback, reset_connection, keep_or_replace, return_connection_run, drop_first, shrink, check_one,
  is_closed,
}
use psycopg.Pool.Control.Accepted.{putconn-some}
use psycopg.Pool.Control.{Outside, run_open, run}
use psycopg.Pool.Requests.{client_timed_out}
use psycopg.Pool.Maintain.{putconn, no_callback, check_one}
use psycopg.Pool.Growth.{
  count_if, grower, growers, growers-append, Grows, Grows-then, run_task-Grows, schedule_task-Grows,
  add_to_pool-Grows,
}

pub client_timed_out-Grows : (i : ℕ) (s : Pool) → Grows 0 s (client_timed_out i s)
unfolding client_timed_out
client_timed_out-Grows i s = (omega arith, omega arith, omega arith, refl, refl)

connect_failed-Grows :
    (initial now : ℕ) (a : ConnectionAttempt) (growing : Bool) (s : Pool)
    → Grows (count_if growing) s (connect_failed initial now a growing s)
unfolding connect_failed
connect_failed-Grows initial now a growing s = go (time_to_give_up now a)
  where
    go :
        (b : Bool)
        → Grows (count_if growing) s (
            if b
            then record s { nconns = s.nconns - 1 }
            else schedule_task
                (add_connection (some (update_delay initial now a)) growing)
                (update_delay initial now a).delay
                s)
    go true = (omega arith, omega arith, omega arith, refl, refl)
    go false =
        schedule_task-Grows (add_connection (some (update_delay initial now a)) growing)
          (update_delay initial now a).delay s

grow_more-Grows : (growing : Bool) (s : Pool) → Grows (count_if growing) s (grow_more growing s)
unfolding grow_more run_task growers
grow_more-Grows false s = (omega arith, omega arith, omega arith, refl, refl)
grow_more-Grows true s =
    let added = growers-append s.tasks (add_connection none true ∷ []) in
    (ground (arith, added), ground arith, ground arith, ground arith, ground arith)

connected-Grows :
    (initial now : ℕ) (a : ConnectionAttempt) (growing : Bool) (c : Option Conn) (s : Pool)
    → Grows (count_if growing) s (connected initial now a growing (c, s))
unfolding connected
connected-Grows initial now a growing none s = connect_failed-Grows initial now a growing s
connected-Grows initial now a growing (some c) s =
    let all =
      Grows-then 0 (count_if growing) s (add_to_pool c s) (grow_more growing (add_to_pool c s))
        (add_to_pool-Grows c s) (grow_more-Grows growing (add_to_pool c s)) in
    (omega (arith, all.0), omega (arith, all.1), all.2, all.3, all.4)

add_connection_run-Grows :
    (initial now : ℕ) (answer : Answer) (attempt : Option ConnectionAttempt) (growing : Bool)
    (s : Pool)
    → Grows (count_if growing) s (add_connection_run initial now answer attempt growing s)
unfolding add_connection_run connect
add_connection_run-Grows initial now none attempt growing s =
    connected-Grows initial now (attempt_or_new attempt s) growing none (connect none s).1
add_connection_run-Grows initial now (some (i, done, expire)) attempt growing s =
    connected-Grows initial now (attempt_or_new attempt s) growing
      (connect (some (i, done, expire)) s).0 (connect (some (i, done, expire)) s).1

keep_or_replace-Grows : (now : ℕ) (c : Conn) (s : Pool) → Grows 0 s (keep_or_replace now c s)
unfolding keep_or_replace
keep_or_replace-Grows now c s = go (is_closed c.status) (leb c.expire_at now)
  where
    go :
        (b d : Bool)
        → Grows 0 s (
            if b
            then run_task (add_connection none false) (record s { returns_bad = s.returns_bad + 1 })
            else if d
            then run_task (add_connection none false) s
            else add_to_pool c s)
    go true d =
        run_task-Grows (add_connection none false) (record s { returns_bad = s.returns_bad + 1 })
    go false true = run_task-Grows (add_connection none false) s
    go false false = add_to_pool-Grows c s

shrink-Grows : (s : Pool) → Grows 0 s (shrink s).1
unfolding shrink
shrink-Grows s = go (ltb s.min_size s.nconns && ltb 0 s.nconns_min)
  where
    dropped : (l : List Conn) → Grows 0 s (drop_first l (record s { nconns_min = length s.pool })).1
    dropped [] = unfold drop_first in (omega arith, omega arith, omega arith, refl, refl)
    dropped (c ∷ rest) = unfold drop_first in (omega arith, omega arith, omega arith, refl, refl)

    decided : Bool → Option (Option Conn) × Pool
    decided b =
        if b
        then drop_first s.pool (record s { nconns_min = length s.pool })
        else (some none, record s { nconns_min = length s.pool })

    go : (b : Bool) → Grows 0 s (decided b).1
    go true = dropped s.pool
    go false = (omega arith, omega arith, omega arith, refl, refl)

pub run_open-Grows : (x : Outside) (t : Task) (s : Pool) → Grows (grower t) s (run_open x t s)
unfolding run_open return_connection_run
run_open-Grows x (add_connection attempt growing) s =
    add_connection_run-Grows x.first_delay x.now x.answer attempt growing s
run_open-Grows x (return_connection c) s =
    keep_or_replace-Grows x.now (reset_connection x.rollback x.callback c) s
run_open-Grows x shrink_pool s =
    Grows-then 0 0 s (schedule_task shrink_pool s.max_idle s)
      (shrink (schedule_task shrink_pool s.max_idle s)).1
      (schedule_task-Grows shrink_pool s.max_idle s)
      (shrink-Grows (schedule_task shrink_pool s.max_idle s))
run_open-Grows x stop_worker s = (omega arith, omega arith, omega arith, refl, refl)
run_open-Grows x stop_scheduler s = (omega arith, omega arith, omega arith, refl, refl)

-- In a closed pool a task is used up and does nothing.
pub run-Grows : (x : Outside) (t : Task) (s : Pool) → Grows (grower t) s (run x t s)
unfolding run
run-Grows x t s = go s.closed
  where
    go : (q : Bool) → Grows (grower t) s (if q then s else run_open x t s)
    go true = (omega arith, omega arith, omega arith, refl, refl)
    go false = run_open-Grows x t s

pub check_one-Grows : (works : Bool) (c : Conn) (s : Pool) → Grows 0 s (check_one works c s)
unfolding check_one
check_one-Grows true c s = add_to_pool-Grows c s
check_one-Grows false c s =
    run_task-Grows (add_connection none false)
      (record s { connections_lost = s.connections_lost + 1 })

pub putconn-Grows :
    (now : ℕ) (r : Rollback) (c : Conn) (s t : Pool) → putconn now r c s ≡ some t → Grows 0 s t
unfolding putconn return_connection_run
putconn-Grows now r c s t e = elim (putconn-some now r c s t e) [
  | inl (_, same) ↦ subst (Grows 0 s) same (omega arith, omega arith, omega arith, refl, refl)
  | inr (_, inl later) ↦ subst (Grows 0 s) later (run_task-Grows (return_connection c) s)
  | inr (_, inr at_once) ↦
      subst (Grows 0 s) at_once (keep_or_replace-Grows now (reset_connection r no_callback c) s)
]
