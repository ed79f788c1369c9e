-- ===== src/Pool/Control/Accepted.antt =====
-- What the constructor, `resize` and `putconn` of psycopg3/psycopg3/pool/pool.py make where they
-- accept their arguments.
use psycopg.Prelude.{
  ℕ, ◌+◌, ◌-◌, ◌≡◌, Bool, true, false, Option, none, some, ltb, if◌then◌else◌, some-injective, not,
  refl, ◌⊎◌, inl, inr,
}
use psycopg.Pool.State.{add_connection, shrink_pool, Pool, schedule_task, run_task_times}
use psycopg.Pool.Client.{Conn}
use psycopg.Pool.State.{return_connection, run_task}
use psycopg.Pool.Maintain.{Rollback, no_callback, return_connection_run, putconn}
use psycopg.Pool.Control.{Options, or_min, initial, new_pool, resize}

-- The pool with its new sizes, before the tasks are put into the queue.
abbrev pub sized : ℕ → Option ℕ → Pool → Pool
sized min_size max_size s = record s {
  min_size = min_size;
  max_size = or_min min_size max_size;
  nconns = s.nconns + (min_size - s.min_size);
}

pub resize-some :
    (min_size : ℕ) (max_size : Option ℕ) (s t : Pool)
    → resize min_size max_size s ≡ some t
    → run_task_times (min_size - s.min_size) (add_connection none false) (sized min_size max_size s)
      ≡ t
unfolding resize
resize-some min_size max_size s t = go (ltb (or_min min_size max_size) min_size)
  where
    go : (b : Bool) {u : Pool} → (if b then none else some u) ≡ some t → u ≡ t
    go true e = cc e
    go false e = some-injective e

-- The pool with its first connections to be made.
abbrev pub filled : Options → Pool
filled o = run_task_times o.min_size (add_connection none false) (initial o)

pub new_pool-some :
    (o : Options) (s : Pool)
    → new_pool o ≡ some s
    → schedule_task shrink_pool o.max_idle (filled o) ≡ s
unfolding new_pool
new_pool-some o s = go (ltb (or_min o.min_size o.max_size) o.min_size) (ltb o.num_workers 1)
  where
    go : (a b : Bool) {u : Pool} → (if a then none else if b then none else some u) ≡ some s → u ≡ s
    go true b e = cc e
    go false true e = cc e
    go false false e = some-injective e

-- The pool is closed and stays as it is, or the connection comes back, now or by a task.
pub putconn-some :
    (now : ℕ) (r : Rollback) (c : Conn) (s t : Pool)
    → putconn now r c s ≡ some t
    → ((s.closed ≡ true) × (s ≡ t))
      ⊎ ((s.closed ≡ false)
          × ((run_task (return_connection c) s ≡ t)
              ⊎ (return_connection_run now r no_callback c s ≡ t)))
unfolding putconn
putconn-some now r c s t = go c.pooled s.closed s.has_reset
  where
    go :
        (p q b : Bool)
        → (if not p
            then none
            else if q
            then some s
            else if b
            then some (run_task (return_connection c) s)
            else some (return_connection_run now r no_callback c s))
          ≡ some t
        → ((q ≡ true) × (s ≡ t))
          ⊎ ((q ≡ false)
              × ((run_task (return_connection c) s ≡ t)
                  ⊎ (return_connection_run now r no_callback c s ≡ t)))
    go false q b e = cc e
    go true true b e = inl (refl, some-injective e)
    go true false true e = inr (refl, inl (some-injective e))
    go true false false e = inr (refl, inr (some-injective e))
