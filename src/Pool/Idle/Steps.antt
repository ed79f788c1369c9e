-- ===== src/Pool/Idle/Steps.antt =====
-- In no state of a pool of psycopg3/psycopg3/pool/pool.py a client waits while a connection is ready.
use psycopg.Prelude.{
  ℕ, ◌+◌, ◌-◌, ◌≡◌, refl, subst, Bool, true, false, Option, none, some, List, [], ◌∷◌, length, leb,
  ltb, if◌then◌else◌, ◌&&◌, ◌⊎◌, inl, inr, arith,
}
use psycopg.Pool.Client.{Conn}
use psycopg.Pool.Attempt.{ConnectionAttempt, time_to_give_up, update_delay}
use psycopg.Pool.State.{
  Task, add_connection, return_connection, shrink_pool, stop_worker, stop_scheduler, Pool, run_task,
  schedule_task,
}
use psycopg.Pool.Requests.{add_to_pool}
use psycopg.Pool.Maintain.{
  Answer, connect, attempt_or_new, grow_more, connect_failed, connected, add_connection_run,
  Rollback, reset_connection, keep_or_replace, return_connection_run, drop_first, shrink, check_one,
  is_closed,
}
use psycopg.Pool.Control.Accepted.{putconn-some}
use psycopg.Pool.Control.{Outside, run_open, run}
use psycopg.Pool.Maintain.{putconn, no_callback}
use psycopg.Pool.Control.{initial}
use psycopg.Pool.Idle.{IsFair, SameLists, same-IsFair, run_task-SameLists, add_to_pool-IsFair}

connect_failed-SameLists :
    (initial now : ℕ) (a : ConnectionAttempt) (growing : Bool) (s : Pool)
    → SameLists s (connect_failed initial now a growing s)
unfolding connect_failed schedule_task
connect_failed-SameLists initial now a growing s = go (time_to_give_up now a)
  where
    go :
        (b : Bool)
        → SameLists s (
            if b
            then record s { nconns = s.nconns - 1 }
            else schedule_task
                (add_connection (some (update_delay initial now a)) growing)
                (update_delay initial now a).delay
                s)
    go true = (refl, refl)
    go false = (refl, refl)

grow_more-SameLists : (growing : Bool) (s : Pool) → SameLists s (grow_more growing s)
unfolding grow_more run_task
grow_more-SameLists false s = (refl, refl)
grow_more-SameLists true s = (ground arith, ground arith)

connected-IsFair :
    (initial now : ℕ) (a : ConnectionAttempt) (growing : Bool) (c : Option Conn) (s : Pool)
    → IsFair s
    → IsFair (connected initial now a growing (c, s))
unfolding connected
connected-IsFair initial now a growing none s f =
    same-IsFair s (connect_failed initial now a growing s)
      (connect_failed-SameLists initial now a growing s) f
connected-IsFair initial now a growing (some c) s f =
    same-IsFair (add_to_pool c s) (grow_more growing (add_to_pool c s))
      (grow_more-SameLists growing (add_to_pool c s)) (add_to_pool-IsFair c s f)

add_connection_run-IsFair :
    (initial now : ℕ) (answer : Answer) (attempt : Option ConnectionAttempt) (growing : Bool)
    (s : Pool)
    → IsFair s
    → IsFair (add_connection_run initial now answer attempt growing s)
unfolding add_connection_run connect
add_connection_run-IsFair initial now none attempt growing s f =
    connected-IsFair initial now (attempt_or_new attempt s) growing none (connect none s).1 f
add_connection_run-IsFair initial now (some (i, done, expire)) attempt growing s f =
    connected-IsFair initial now (attempt_or_new attempt s) growing
      (connect (some (i, done, expire)) s).0 (connect (some (i, done, expire)) s).1 f

keep_or_replace-IsFair :
    (now : ℕ) (c : Conn) (s : Pool) → IsFair s → IsFair (keep_or_replace now c s)
unfolding keep_or_replace run_task
keep_or_replace-IsFair now c s f = go (is_closed c.status) (leb c.expire_at now)
  where
    go :
        (b d : Bool)
        → IsFair (
            if b
            then run_task (add_connection none false) (record s { returns_bad = s.returns_bad + 1 })
            else if d
            then run_task (add_connection none false) s
            else add_to_pool c s)
    go true d = f
    go false true = f
    go false false = add_to_pool-IsFair c s f

shrink-IsFair : (s : Pool) → IsFair s → IsFair (shrink s).1
unfolding shrink
shrink-IsFair s f = go (ltb s.min_size s.nconns && ltb 0 s.nconns_min)
  where
    dropped :
        (l : List Conn)
        → s.pool ≡ l
        → IsFair (drop_first l (record s { nconns_min = length s.pool })).1
    dropped [] e = unfold drop_first in f
    dropped (c ∷ rest) e = unfold drop_first in fewer f
      where
        fewer : IsFair s → (s.waiting ≡ []) ⊎ (rest ≡ [])
        fewer (inl w) = inl w
        fewer (inr p) = cc (e, p)

    decided : Bool → Option (Option Conn) × Pool
    decided b =
        if b
        then drop_first s.pool (record s { nconns_min = length s.pool })
        else (some none, record s { nconns_min = length s.pool })

    go : (b : Bool) → IsFair (decided b).1
    go true = dropped s.pool refl
    go false = f

pub run-IsFair : (x : Outside) (t : Task) (s : Pool) → IsFair s → IsFair (run x t s)
unfolding run run_open return_connection_run schedule_task
run-IsFair x t s f = go t s.closed
  where
    go : (t : Task) (q : Bool) → IsFair (if q then s else run_open x t s)
    go t true = f
    go (add_connection attempt growing) false =
        add_connection_run-IsFair x.first_delay x.now x.answer attempt growing s f
    go (return_connection c) false =
        keep_or_replace-IsFair x.now (reset_connection x.rollback x.callback c) s f
    go shrink_pool false = shrink-IsFair (schedule_task shrink_pool s.max_idle s) f
    go stop_worker false = f
    go stop_scheduler false = f

pub check_one-IsFair :
    (works : Bool) (c : Conn) (s : Pool) → IsFair s → IsFair (check_one works c s)
unfolding check_one run_task
check_one-IsFair true c s f = add_to_pool-IsFair c s f
check_one-IsFair false c s f = f

pub putconn-IsFair :
    (now : ℕ) (r : Rollback) (c : Conn) (s t : Pool)
    → putconn now r c s ≡ some t
    → IsFair s
    → IsFair t
unfolding putconn return_connection_run run_task
putconn-IsFair now r c s t e f = elim (putconn-some now r c s t e) [
  | inl (_, same) ↦ subst IsFair same f
  | inr (_, inl later) ↦ subst IsFair later (
      same-IsFair s (run_task (return_connection c) s) (run_task-SameLists (return_connection c) s)
        f)
  | inr (_, inr at_once) ↦
      subst IsFair at_once (keep_or_replace-IsFair now (reset_connection r no_callback c) s f)
]
