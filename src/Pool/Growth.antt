-- ===== src/Pool/Growth.antt =====
-- How psycopg3/psycopg3/pool/pool.py grows the pool: `_growing`, and the size that it keeps to.
pub mod Steps
pub mod Bound
pub mod One
use Prim.Native.Nat.{max}
use psycopg.Prelude.{
  ℕ, zero, suc, ◌+◌, ◌-◌, ◌<◌, ◌≤◌, ◌≡◌, refl, sym, ap, ◌∙◌, Bool, true, false, Option, none, some,
  is_some, ◌||◌, List, [], ◌∷◌, ◌++◌, length, leb, ltb, ◌==◌, if◌then◌else◌, ◌&&◌, not, map, arith,
  Bool-cases, inl, inr,
}
use psycopg.Pool.Client.{Conn, pool_closed, too_many_requests}
use psycopg.Pool.Attempt.{ConnectionAttempt, time_to_give_up, update_delay}
use psycopg.Pool.State.{
  Task, add_connection, return_connection, shrink_pool, stop_worker, stop_scheduler, Pool, run_task,
  schedule_task, run_task_times,
}
use psycopg.Pool.Requests.{
  Got, raised, queued, getconn, take_ready, queue_client, grow, enqueue, Offered, offer, store,
  notify_full, add_to_pool,
}
use psycopg.Pool.Maintain.{
  Answer, connect, attempt_or_new, grow_more, connect_failed, connected, add_connection_run,
  Rollback, Callback, reset_connection, keep_or_replace, return_connection_run, drop_first, shrink,
  check_take, check_one, is_closed,
}

abbrev pub count_if : Bool → ℕ
count_if b = if b then 1 else 0

-- The tasks that add a connection to grow the pool.
abbrev pub grower : Task → ℕ
grower (add_connection a growing) = count_if growing
grower (return_connection c) = 0
grower shrink_pool = 0
grower stop_worker = 0
grower stop_scheduler = 0

unfoldable pub growers : List Task → ℕ
growers [] = 0
growers (t ∷ ts) = grower t + growers ts

unfoldable pub growers_delayed : List (ℕ × Task) → ℕ
growers_delayed [] = 0
growers_delayed ((d, t) ∷ ts) = grower t + growers_delayed ts

pub growers-append : (a b : List Task) → growers (a ++ b) ≡ growers a + growers b
unfolding growers
growers-append [] b = omega arith
growers-append (t ∷ a) b = omega (arith, growers-append a b)

pub growers_delayed-append :
    (a b : List (ℕ × Task)) → growers_delayed (a ++ b) ≡ growers_delayed a + growers_delayed b
unfolding growers_delayed
growers_delayed-append [] b = omega arith
growers_delayed-append ((d, t) ∷ a) b = omega (arith, growers_delayed-append a b)

abbrev pub pending : Pool → ℕ
pending s = growers s.tasks + growers_delayed s.scheduled

-- An operation that takes up `used` tasks of that kind: what it may do to their number and to the
-- flag, and that it counts no connection past the limit.
abbrev pub Grows : ℕ → Pool → Pool → Type 0
Grows used s t =
    (pending t + count_if s.growing ≤ pending s + count_if t.growing + used)
    × (count_if s.growing ≤ count_if t.growing + used)
    × (t.nconns ≤ max s.nconns t.max_size)
    × (t.max_size ≡ s.max_size)
    × (t.min_size ≡ s.min_size)

pub Grows-then : (a b : ℕ) (s t u : Pool) → Grows a s t → Grows b t u → Grows (a + b) s u
Grows-then a b s t u p q = (
  omega (arith, p.0, q.0),
  omega (arith, p.1, q.1),
  omega (arith, p.2, q.2, q.3),
  q.3 ∙ p.3,
  q.4 ∙ p.4,
)

pub run_task-Grows : (t : Task) (s : Pool) → Grows (grower t) s (run_task t s)
unfolding run_task growers
run_task-Grows t s =
    (omega (arith, growers-append s.tasks (t ∷ [])), omega arith, omega arith, refl, refl)

pub schedule_task-Grows :
    (t : Task) (delay : ℕ) (s : Pool) → Grows (grower t) s (schedule_task t delay s)
unfolding schedule_task growers_delayed
schedule_task-Grows t delay s = (
  omega (arith, growers_delayed-append s.scheduled ((delay, t) ∷ [])),
  omega arith,
  omega arith,
  refl,
  refl,
)

grow-Grows : (s : Pool) → Grows 0 s (grow s)
unfolding grow run_task growers
grow-Grows s =
    let added = growers-append s.tasks (add_connection none true ∷ []) in
    (ground (arith, added), ground arith, ground arith, ground arith, ground arith)

take_ready-Grows : (s : Pool) (ready : List Conn) → Grows 0 s (take_ready s ready).1
unfolding take_ready queue_client enqueue
take_ready-Grows s (c ∷ ready) = (omega arith, omega arith, omega arith, refl, refl)
take_ready-Grows s [] = go (not (s.max_waiting == 0) && leb s.max_waiting (length s.waiting))
  where
    decided : Bool → Got × Pool
    decided b =
        if b
        then (raised too_many_requests, record s { requests_errors = s.requests_errors + 1 })
        else (queued s.next_client, grow (enqueue s))

    go : (b : Bool) → Grows 0 s (decided b).1
    go true = (omega arith, omega arith, omega arith, refl, refl)
    go false = grow-Grows (enqueue s)

pub getconn-Grows : (s : Pool) → Grows 0 s (getconn s).1
unfolding getconn
getconn-Grows s = go s.closed
  where
    counted : Pool
    counted = record s { requests_num = s.requests_num + 1 }

    go :
        (b : Bool)
        → Grows 0 s (if b then (raised pool_closed, counted) else take_ready counted s.pool).1
    go true = (omega arith, omega arith, omega arith, refl, refl)
    go false = take_ready-Grows counted s.pool

pub add_to_pool-Grows : (c : Conn) (s : Pool) → Grows 0 s (add_to_pool c s)
unfolding add_to_pool store notify_full
add_to_pool-Grows c s = (ground arith, ground arith, ground arith, ground arith, ground arith)
