-- ===== src/Pool/Balance/Steps.antt =====
-- No connection is lost or counted twice, whatever the threads of a program do to a pool of
-- psycopg3/psycopg3/pool/pool.py.
use psycopg.Prelude.{
  ◌⊎◌, inl, inr, ℕ, ◌+◌, ◌≤◌, ◌≡◌, refl, sym, ◌∙◌, true, false, some, List, length, arith, subst,
}
use psycopg.Pool.Client.{Conn}
use psycopg.Pool.State.{
  Task, add_connection, return_connection, shrink_pool, stop_worker, stop_scheduler, Pool,
  schedule_task,
}
use psycopg.Pool.Maintain.{Rollback, putconn, no_callback, shrink}
use psycopg.Pool.Control.Accepted.{putconn-some}
use psycopg.Pool.Control.{Outside, run_open}
use psycopg.Pool.World.{World, handed}
use psycopg.Pool.Balance.{weight, weigh, held, Change, Change-then, run_task-Change}
use psycopg.Pool.Balance.Maintain.{
  schedule_task-Change, add_connection_run-Change, return_connection_run-Change, shrink-Change,
}

-- Every connection that the pool counts is in it, is to be made, was handed to a client, is being
-- checked or reset, or is out.
pub record Balanced (w : World) : Type 0 where
  pub count :
      w.state.closed ≡ false
      → w.state.nconns + w.returned ≡ held w.state + weigh w.running + length w.checking + w.taken
  pub queue : handed w.state.waiting ≡ 0
  pub owed : w.returned ≤ w.taken + handed w.state.served

pub run-Change :
    (x : Outside) (t : Task) (s : Pool)
    → handed s.waiting ≡ 0
    → weight t ≤ s.nconns
    → Change (weight t) 0 s (run_open x t s)
unfolding run_open
run-Change x (add_connection attempt growing) s h n =
    add_connection_run-Change x.first_delay x.now x.answer attempt growing s h n
run-Change x (return_connection c) s h n =
    return_connection_run-Change x.now x.rollback x.callback c s h
run-Change x shrink_pool s h n =
    let later = schedule_task-Change shrink_pool s.max_idle s h in
    Change-then 0 0 0 0 s (schedule_task shrink_pool s.max_idle s)
      (shrink (schedule_task shrink_pool s.max_idle s)).1 later
      (shrink-Change (schedule_task shrink_pool s.max_idle s) later.1)
run-Change x stop_worker s h n = (refl, h, omega arith, refl)
run-Change x stop_scheduler s h n = (refl, h, omega arith, refl)

-- A change of the pool, together with what moves beside it.
pub moved :
    (w : World) (came left : ℕ) (t : Pool) (running : List Task) (checking : List Conn)
    (taken returned : ℕ)
    → Balanced w
    → Change came left w.state t
    → (w.state.closed ≡ false
        → weigh running + length checking + taken + came + w.returned
          ≡ weigh w.running + length w.checking + w.taken + left + returned)
    → returned ≤ taken + handed t.served
    → Balanced (record {
      state = t;
      running = running;
      checking = checking;
      taken = taken;
      returned = returned;
    })
moved w came left t running checking taken returned b c m o = record {
  count = λ working.
      let before : w.state.closed ≡ false = sym c.3 ∙ working in
      omega (arith, b.count before, m before, c.0);
  queue = c.1;
  owed = o;
}

-- In a closed pool nothing is counted.
pub idle_step :
    (w : World) (running : List Task) (checking : List Conn) (returned : ℕ)
    → Balanced w
    → w.state.closed ≡ true
    → returned ≤ w.taken + handed w.state.served
    → Balanced (record w { running = running; checking = checking; returned = returned })
idle_step w running checking returned b shut o = record {
  count = λ working. cc (shut, working);
  queue = b.queue;
  owed = o;
}

pub putconn-Change :
    (now : ℕ) (r : Rollback) (c : Conn) (s t : Pool)
    → handed s.waiting ≡ 0
    → putconn now r c s ≡ some t
    → ((s.closed ≡ true) × (s ≡ t)) ⊎ Change 1 0 s t
putconn-Change now r c s t h e = elim (putconn-some now r c s t e) [
  | inl shut ↦ inl shut
  | inr (_, inl later) ↦
      inr (subst (Change 1 0 s) later (run_task-Change (return_connection c) s h))
  | inr (_, inr at_once) ↦
      inr (subst (Change 1 0 s) at_once (return_connection_run-Change now r no_callback c s h))
]
