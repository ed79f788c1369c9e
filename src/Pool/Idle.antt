-- ===== src/Pool/Idle.antt =====
-- No connection is idle in the pool of psycopg3/psycopg3/pool/pool.py while a client waits: what each
-- operation does to that.
pub mod Steps
pub mod Always
use psycopg.Prelude.{
  ℕ, zero, suc, ◌+◌, ◌-◌, ◌≡◌, refl, sym, ap, ◌∙◌, subst, Bool, true, false, Option, none, some,
  List, [], ◌∷◌, ◌++◌, length, leb, ltb, ◌==◌, if◌then◌else◌, ◌&&◌, not, map, ◌⊎◌, inl, inr, arith,
  Bool-cases, is_some,
}
use psycopg.Pool.Client.{Conn, WaitingClient, pool_closed, too_many_requests, is_served}
use psycopg.Pool.Attempt.{ConnectionAttempt, time_to_give_up, update_delay}
use psycopg.Pool.State.{
  Task, add_connection, return_connection, shrink_pool, stop_worker, stop_scheduler, Pool, run_task,
  schedule_task,
}
use psycopg.Pool.Requests.{
  Got, given, queued, raised, getconn, take_ready, queue_client, grow, enqueue, client_timed_out,
  time_out, Offered, offer, store, notify_full, add_to_pool,
}
use psycopg.Pool.Maintain.{
  Answer, connect, attempt_or_new, grow_more, connect_failed, connected, add_connection_run,
  Rollback, Callback, reset_connection, keep_or_replace, return_connection_run, drop_first, shrink,
  check_take, check_one, is_closed,
}
use psycopg.Pool.Control.{Outside, run_open, run}
use psycopg.Pool.Balance.{offer-served, offer-free}

-- Nobody waits, or nothing is there.
abbrev pub IsFair : Pool → Type 0
IsFair s = (s.waiting ≡ []) ⊎ (s.pool ≡ [])

-- What leaves both the pool and the queue as they are.
abbrev pub SameLists : Pool → Pool → Type 0
SameLists s t = (t.pool ≡ s.pool) × (t.waiting ≡ s.waiting)

pub same-IsFair : (s t : Pool) → SameLists s t → IsFair s → IsFair t
same-IsFair s t e (inl w) = inl (e.1 ∙ w)
same-IsFair s t e (inr p) = inr (e.0 ∙ p)

pub run_task-SameLists : (t : Task) (s : Pool) → SameLists s (run_task t s)
unfolding run_task
run_task-SameLists t s = (refl, refl)

grow-SameLists : (s : Pool) → SameLists s (grow s)
unfolding grow run_task
grow-SameLists s = (ground arith, ground arith)

offer-refused :
    (c : Conn) (ws served : List WaitingClient)
    → (offer c ws served).accepted ≡ false
    → (offer c ws served).waiting ≡ []
offer-refused c [] served h = unfold offer in refl
offer-refused c (w ∷ ws) served h = elim (Bool-cases (is_served w)) [
  | inl gone ↦
      let e = offer-served c w ws served gone in
      ap (λ o. o.waiting) e
      ∙ offer-refused c ws (served ++ w ∷ []) (sym (ap (λ o. o.accepted) e) ∙ h)
  | inr free ↦ cc (sym (ap (λ o. o.accepted) (offer-free c w ws served free)) ∙ h)
]

notify_full-SameLists : (s : Pool) → SameLists s (notify_full s)
unfolding notify_full
notify_full-SameLists s = (ground arith, ground arith)

store-IsFair :
    (c : Conn) (o : Offered) (s : Pool)
    → (o.accepted ≡ false → o.waiting ≡ [])
    → (o.accepted ≡ true → s.pool ≡ [])
    → IsFair (store c o s)
unfolding store
store-IsFair c o s refused taken = go o.accepted refused taken
  where
    kept : Pool
    kept = record s { waiting = o.waiting; served = o.served }

    longer : Pool
    longer = record kept { pool = s.pool ++ c ∷ [] }

    go :
        (b : Bool)
        → (b ≡ false → o.waiting ≡ [])
        → (b ≡ true → s.pool ≡ [])
        → IsFair (if b then kept else notify_full longer)
    go true r t = inr (t refl)
    go false r t =
        same-IsFair longer (notify_full longer) (notify_full-SameLists longer) (inl (r refl))

pub add_to_pool-IsFair : (c : Conn) (s : Pool) → IsFair s → IsFair (add_to_pool c s)
unfolding add_to_pool
add_to_pool-IsFair c s (inl w) =
    store-IsFair (record c { pooled = false })
      (offer (record c { pooled = false }) s.waiting s.served) s
      (offer-refused (record c { pooled = false }) s.waiting s.served)
      (λ h.
        cc
          (sym (ap (λ l. (offer (record c { pooled = false }) l s.served).accepted) w) ∙ h, nobody))
  where
    nobody : (offer (record c { pooled = false }) [] s.served).accepted ≡ false
    nobody = unfold offer in refl
add_to_pool-IsFair c s (inr p) =
    store-IsFair (record c { pooled = false })
      (offer (record c { pooled = false }) s.waiting s.served) s
      (offer-refused (record c { pooled = false }) s.waiting s.served) (λ _. p)

take_ready-IsFair :
    (s : Pool) (ready : List Conn) → s.pool ≡ ready → IsFair s → IsFair (take_ready s ready).1
unfolding take_ready queue_client enqueue
take_ready-IsFair s (c ∷ ready) e (inl w) = inl w
take_ready-IsFair s (c ∷ ready) e (inr p) = cc (e, p)
take_ready-IsFair s [] e f = go (not (s.max_waiting == 0) && leb s.max_waiting (length s.waiting))
  where
    decided : Bool → Got × Pool
    decided b =
        if b
        then (raised too_many_requests, record s { requests_errors = s.requests_errors + 1 })
        else (queued s.next_client, grow (enqueue s))

    go : (b : Bool) → IsFair (decided b).1
    go true = inr e
    go false = inr ((grow-SameLists (enqueue s)).0 ∙ e)

pub getconn-IsFair : (s : Pool) → IsFair s → IsFair (getconn s).1
unfolding getconn
getconn-IsFair s f = go s.closed
  where
    counted : Pool
    counted = record s { requests_num = s.requests_num + 1 }

    decided : Bool → Got × Pool
    decided b = if b then (raised pool_closed, counted) else take_ready counted s.pool

    go : (b : Bool) → IsFair (decided b).1
    go true = f
    go false = take_ready-IsFair counted s.pool refl f

pub client_timed_out-IsFair : (i : ℕ) (s : Pool) → IsFair s → IsFair (client_timed_out i s)
unfolding client_timed_out
client_timed_out-IsFair i s (inl w) = inl (ap (map (time_out i)) w)
client_timed_out-IsFair i s (inr p) = inr p
