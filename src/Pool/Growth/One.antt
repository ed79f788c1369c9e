-- ===== src/Pool/Growth/One.antt =====
-- One connection at a time is added to grow a pool of psycopg3/psycopg3/pool/pool.py; and what
-- becomes of it when that connection is given up.
use psycopg.Prelude.{
  ◌+◌, ◌≤◌, ◌≡◌, refl, ap, ◌∙◌, Bool, true, false, none, some, List, ◌∷◌, ◌++◌, ◌&&◌, not, ltb,
  if◌then◌else◌, arith, subst,
}
use psycopg.Pool.State.{Task, add_connection, shrink_pool, Pool, run_task}
use psycopg.Pool.Requests.{grow}
use psycopg.Pool.Attempt.{ConnectionAttempt, time_to_give_up}
use psycopg.Pool.Maintain.{add_connection_run, connected, connect_failed, connect}
use psycopg.Pool.Control.{Options, initial, new_pool, Outside, run, run_open}
use psycopg.Pool.Control.Accepted.{filled, new_pool-some}
use psycopg.Pool.World.{World, start, Steps, no_step, one_more}
use psycopg.Pool.Growth.{
  count_if, growers, growers_delayed, pending, growers-append, schedule_task-Grows,
}
use psycopg.Pool.Growth.Bound.{all_growers, Step-grows, run_task_times-Grows}

Steps-grow :
    {w v : World}
    → Steps w v
    → all_growers w ≤ count_if w.state.growing
    → all_growers v ≤ count_if v.state.growing
Steps-grow no_step h = h
Steps-grow (one_more before step) h = omega (arith, Steps-grow before h, (Step-grows step).0)

start-grows : (o : Options) (s : Pool) → new_pool o ≡ some s → pending s ≤ count_if s.growing
unfolding growers growers_delayed
start-grows o s e =
    let g = run_task_times-Grows o.min_size (add_connection none false) (initial o) refl in
    let h = schedule_task-Grows shrink_pool o.max_idle (filled o) in
    subst (λ t. pending t ≤ count_if t.growing) (new_pool-some o s e) (omega (arith, g.0, h.0))

-- In every state that a new pool can reach there is at most one task that adds a connection to grow
-- it, and there is none if `_growing` is false.
pub one_grower :
    (o : Options) (s : Pool) (w : World)
    → new_pool o ≡ some s
    → Steps (start s) w
    → all_growers w ≤ count_if w.state.growing
unfolding growers
one_grower o s w e steps = Steps-grow steps (omega (arith, start-grows o s e))

stuck-Steps :
    {w v : World}
    → Steps w v
    → w.state.growing ≡ true
    → all_growers w ≡ 0
    → (v.state.growing ≡ true) × (all_growers v ≡ 0)
stuck-Steps no_step g n = (g, n)
stuck-Steps (one_more {v = u} {u = v} before step) g n =
    let b = stuck-Steps before g n in
    let s = Step-grows step in
    let up = ap count_if b.0 in
    let stays : v.state.growing ≡ true = flag v.state.growing (omega (arith, s.1, b.1, up)) in
    (stays, omega (arith, s.0, b.1, up, ap count_if stays))
  where
    flag : (b : Bool) → 1 ≤ count_if b → b ≡ true
    flag true h = refl
    flag false h = absurd (let no : 1 ≤ 0 = h in omega arith)

stuck-refused : (v : Pool) → v.growing ≡ true → grow v ≡ v
unfolding grow
stuck-refused v = refused (ltb v.nconns v.max_size) v.growing
  where
    grown : Pool
    grown = run_task (add_connection none true) (record v { nconns = v.nconns + 1; growing = true })

    refused : (a b : Bool) → b ≡ true → (if a && not b then grown else v) ≡ v
    refused true true h = refl
    refused false b h = refl
    refused true false h = cc h

-- The last attempt of a task that grows the pool: `_growing` stays as it is, and there is no new task.
gives_up :
    (x : Outside) (a : ConnectionAttempt) (s : Pool)
    → s.closed ≡ false
    → x.answer ≡ none
    → time_to_give_up x.now a ≡ true
    → ((run x (add_connection (some a) true) s).growing ≡ s.growing)
      × (pending (run x (add_connection (some a) true) s) ≡ pending s)
unfolding run run_open add_connection_run connected connect_failed connect
gives_up x a s is_open refused due = rw (is_open, refused) (rw due (refl, refl))

-- Where the task that grows an open pool gives up, in a state that a new pool can reach, `_growing` stays
-- true in every later state, and no task is left that would reset it: whatever the program does, a
-- request that has to wait does not make the pool grow any more.
pub stuck_lem :
    (o : Options) (s : Pool) (w v : World) (x : Outside) (a : ConnectionAttempt)
    (before after : List Task)
    → new_pool o ≡ some s
    → Steps (start s) w
    → w.running ≡ before ++ add_connection (some a) true ∷ after
    → w.state.closed ≡ false
    → x.answer ≡ none
    → time_to_give_up x.now a ≡ true
    → Steps
        (record w {
          state = run x (add_connection (some a) true) w.state;
          running = before ++ after;
        })
        v
    → (v.state.growing ≡ true) × (all_growers v ≡ 0) × (grow v.state ≡ v.state)
unfolding growers
stuck_lem o s w v x a before after made steps is_run is_open refused due later =
    let one = one_grower o s w made steps in
    let (kept, no_more) = gives_up x a w.state is_open refused due in
    let all = growers-append before (add_connection (some a) true ∷ after) in
    let left = growers-append before after in
    let is_part = ap growers is_run in
    let flagged : w.state.growing ≡ true =
      is_one w.state.growing (omega (arith, one, all, is_part)) in
    let most : all_growers w ≤ 1 = omega (arith, one, ap count_if flagged) in
    let stuck =
      stuck-Steps later (kept ∙ flagged) (omega (arith, most, no_more, all, left, is_part)) in
    (stuck.0, stuck.1, stuck-refused v.state stuck.0)
  where
    is_one : (b : Bool) → 1 ≤ count_if b → b ≡ true
    is_one true h = refl
    is_one false h = absurd (let no : 1 ≤ 0 = h in omega arith)
