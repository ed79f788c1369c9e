-- ===== src/Pool/Balance/Reachable.antt =====
-- The count of connections in every state that a pool of psycopg3/psycopg3/pool/pool.py can reach.
use psycopg.Prelude.{
  ℕ, ◌+◌, ◌<◌, ◌≤◌, ◌≡◌, refl, ap, Bool, true, false, some, List, ◌∷◌, ◌++◌, if◌then◌else◌, arith,
  inl, inr, subst,
}
use psycopg.Pool.Client.{Conn}
use psycopg.Pool.State.{Task, Pool, run_task}
use psycopg.Pool.Maintain.{Rollback, putconn}
use psycopg.Pool.Control.{Outside, run_open, run, tick}
use psycopg.Pool.World.{World, handed}
use psycopg.Pool.Balance.{
  weight, weigh, weigh_delayed, weigh-append, weigh_delayed-append, run_task-Change,
}
use psycopg.Pool.Balance.Steps.{Balanced, run-Change, moved, idle_step, putconn-Change}

pub put-Balanced :
    (w : World) (now : ℕ) (r : Rollback) (c : Conn) (s : Pool)
    → Balanced w
    → w.returned < w.taken + handed w.state.served
    → putconn now r c w.state ≡ some s
    → Balanced (record w { state = s; returned = w.returned + 1 })
put-Balanced w now r c s b owes e = elim (putconn-Change now r c w.state s b.queue e) [
  | inl (shut, same) ↦
      subst (λ t. Balanced (record w { state = t; returned = w.returned + 1 })) same
        (idle_step w w.running w.checking (w.returned + 1) b shut (omega (arith, owes)))
  | inr change ↦
      moved w 1 0 s w.running w.checking w.taken (w.returned + 1) b change (λ _. omega arith)
        (omega (arith, change.2, owes))
]

pub worker_runs-Balanced :
    (w : World) (x : Outside) (before after : List Task) (t : Task)
    → Balanced w
    → w.running ≡ before ++ t ∷ after
    → Balanced (record w { state = run x t w.state; running = before ++ after })
unfolding run weigh
worker_runs-Balanced w x before after t b e = go w.state.closed refl
  where
    weighed : weigh w.running ≡ weigh (before ++ after) + weight t
    weighed = omega (arith, ap weigh e, weigh-append before (t ∷ after), weigh-append before after)

    go :
        (q : Bool)
        → w.state.closed ≡ q
        → Balanced (record w {
          state = if q then w.state else run_open x t w.state;
          running = before ++ after;
        })
    go true shut = idle_step w (before ++ after) w.checking w.returned b shut b.owed
    go false working =
        let enough : weight t ≤ w.state.nconns = omega (arith, weighed, b.count working, b.owed) in
        let change = run-Change x t w.state b.queue enough in
        moved w (weight t) 0 (run_open x t w.state) (before ++ after) w.checking w.taken w.returned
          b change (λ _. omega (arith, weighed)) (omega (arith, change.2, b.owed))

pub scheduler-Balanced :
    (w : World) (before after : List (ℕ × Task)) (delay : ℕ) (t : Task)
    → Balanced w
    → w.state.scheduled ≡ before ++ (delay, t) ∷ after
    → Balanced (record w { state = tick t (record w.state { scheduled = before ++ after }) })
unfolding tick weigh_delayed
scheduler-Balanced w before after delay t b e = go w.state.closed refl
  where
    left : Pool
    left = record w.state { scheduled = before ++ after }

    weighed : weigh_delayed w.state.scheduled ≡ weigh_delayed (before ++ after) + weight t
    weighed = omega (
      arith,
      ap weigh_delayed e,
      weigh_delayed-append before ((delay, t) ∷ after),
      weigh_delayed-append before after,
    )

    go :
        (q : Bool)
        → w.state.closed ≡ q
        → Balanced (record w { state = if q then left else run_task t left })
    go true shut = record { count = λ working. cc (shut, working); queue = b.queue; owed = b.owed }
    go false working =
        let change = run_task-Change t left b.queue in
        moved w 0 0 (run_task t left) w.running w.checking w.taken w.returned b
          (omega (arith, change.0, weighed), change.1, change.2, change.3) (λ _. omega arith) b.owed
