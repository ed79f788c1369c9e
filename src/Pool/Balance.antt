-- ===== src/Pool/Balance.antt =====
-- The count of connections, `_nconns` of psycopg3/psycopg3/pool/base.py: what each operation of
-- psycopg3/psycopg3/pool/pool.py does to it.
pub mod Maintain
pub mod Steps
pub mod Reachable
pub mod Count
use psycopg.Prelude.{
  ℕ, zero, suc, ◌+◌, ◌-◌, ◌<◌, ◌≤◌, ◌≡◌, refl, sym, ap, ◌∙◌, Bool, true, false, Option, none, some,
  is_some, ◌||◌, List, [], ◌∷◌, ◌++◌, length, leb, ltb, ◌==◌, if◌then◌else◌, ◌&&◌, not, map, arith,
  length-append, Bool-cases, inl, inr,
}
use psycopg.Pool.Client.{
  Conn, WaitingClient, new_client, is_served, set_conn, wait_timed_out, pool_closed,
}
use psycopg.Pool.State.{
  Task, add_connection, return_connection, shrink_pool, stop_worker, stop_scheduler, Pool, run_task,
  schedule_task, run_task_times,
}
use psycopg.Pool.Requests.{
  Got, given, queued, raised, getconn, take_ready, queue_client, grow, enqueue, client_timed_out,
  time_out, Offered, offer, store, notify_full, add_to_pool,
}
use psycopg.Pool.World.{holds, handed, gives}

-- A task that brings a connection, or that stands for one that is to be made.
abbrev pub weight : Task → ℕ
weight (add_connection a g) = 1
weight (return_connection c) = 1
weight shrink_pool = 0
weight stop_worker = 0
weight stop_scheduler = 0

unfoldable pub weigh : List Task → ℕ
weigh [] = 0
weigh (t ∷ ts) = weight t + weigh ts

unfoldable pub weigh_delayed : List (ℕ × Task) → ℕ
weigh_delayed [] = 0
weigh_delayed ((d, t) ∷ ts) = weight t + weigh_delayed ts

pub weigh-append : (a b : List Task) → weigh (a ++ b) ≡ weigh a + weigh b
unfolding weigh
weigh-append [] b = omega arith
weigh-append (t ∷ a) b = omega (arith, weigh-append a b)

pub weigh_delayed-append :
    (a b : List (ℕ × Task)) → weigh_delayed (a ++ b) ≡ weigh_delayed a + weigh_delayed b
unfolding weigh_delayed
weigh_delayed-append [] b = omega arith
weigh_delayed-append ((d, t) ∷ a) b = omega (arith, weigh_delayed-append a b)

pub handed-append : (a b : List WaitingClient) → handed (a ++ b) ≡ handed a + handed b
unfolding handed
handed-append [] b = omega arith
handed-append (w ∷ a) b = omega (arith, handed-append a b)

-- What the pool answers for: the connections it has or is to have, and those it handed to clients.
abbrev pub held : Pool → ℕ
held s = length s.pool + weigh s.tasks + weigh_delayed s.scheduled + handed s.served

-- An operation in which `came` connections come to the pool, and `left` leave it for a client that
-- is not kept in the queue.
abbrev pub Change : ℕ → ℕ → Pool → Pool → Type 0
Change came left s t =
    (t.nconns + held s + came ≡ s.nconns + held t + left)
    × (handed t.waiting ≡ 0)
    × (handed s.served ≤ handed t.served)
    × (t.closed ≡ s.closed)

pub Change-then :
    (a b c d : ℕ) (s t u : Pool) → Change a b s t → Change c d t u → Change (a + c) (b + d) s u
Change-then a b c d s t u p q = (omega (arith, p.0, q.0), q.1, omega (arith, p.2, q.2), q.3 ∙ p.3)

pub run_task-Change :
    (t : Task) (s : Pool) → handed s.waiting ≡ 0 → Change (weight t) 0 s (run_task t s)
unfolding run_task weigh
run_task-Change t s h = (omega (arith, weigh-append s.tasks (t ∷ [])), h, omega arith, refl)

pub offer-served :
    (c : Conn) (w : WaitingClient) (ws served : List WaitingClient)
    → is_served w ≡ true
    → offer c (w ∷ ws) served ≡ offer c ws (served ++ w ∷ [])
unfolding offer set_conn
offer-served c w ws served h = rw h

pub offer-free :
    (c : Conn) (w : WaitingClient) (ws served : List WaitingClient)
    → is_served w ≡ false
    → offer c (w ∷ ws) served
      ≡ record { accepted = true; waiting = ws; served = served ++ record w { conn = some c } ∷ [] }
unfolding offer set_conn
offer-free c w ws served h = rw h

abbrev count_if : Bool → ℕ
count_if b = if b then 1 else 0

-- The loop over the clients hands the connection to one at most.
pub offer_lem :
    (c : Conn) (ws served : List WaitingClient)
    → handed ws ≡ 0
    → (handed (offer c ws served).waiting ≡ 0)
      × (handed (offer c ws served).served ≡ handed served + count_if (offer c ws served).accepted)
unfolding handed
offer_lem c [] served h = unfold offer in (refl, omega arith)
offer_lem c (w ∷ ws) served h = elim (Bool-cases (is_served w)) [
  | inl taken ↦ rw (offer-served c w ws served taken) (
      let rest = offer_lem c ws (served ++ w ∷ []) (omega arith) in
      (rest.0, omega (arith, rest.1, handed-append served (w ∷ []), h)))
  | inr free ↦
      rw (offer-free c w ws served free)
        (omega arith, omega (arith, handed-append served (record w { conn = some c } ∷ [])))
]

pub add_to_pool-Change :
    (c : Conn) (s : Pool) → handed s.waiting ≡ 0 → Change 1 0 s (add_to_pool c s)
unfolding add_to_pool store notify_full
add_to_pool-Change c s h =
    let o = offer (record c { pooled = false }) s.waiting s.served in
    let e = offer_lem (record c { pooled = false }) s.waiting s.served h in
    let kept = length-append s.pool (record c { pooled = false } ∷ []) in
    elim (Bool-cases o.accepted) [
      | inl some_one ↦
          rw some_one (omega (arith, e.1, ap count_if some_one), e.0, omega (arith, e.1), refl)
      | inr no_one ↦ rw no_one (
        ground (arith, e.1, ap count_if no_one, kept),
        ground (arith, e.0),
        ground (arith, e.1),
        ground arith,
      )
    ]

grow-Change : (s : Pool) → handed s.waiting ≡ 0 → Change 0 0 s (grow s)
unfolding grow run_task weigh
grow-Change s h =
    let added = weigh-append s.tasks (add_connection none true ∷ []) in
    (ground (arith, added), ground (arith, h), ground arith, ground arith)

enqueue-Change : (s : Pool) → handed s.waiting ≡ 0 → Change 0 0 s (enqueue s)
unfolding enqueue handed
enqueue-Change s h = (
  refl,
  omega (arith, handed-append s.waiting (new_client s.next_client ∷ []), h),
  omega arith,
  refl,
)

queue_client-Change :
    (s : Pool) → handed s.waiting ≡ 0 → Change 0 (gives (queue_client s).0) s (queue_client s).1
unfolding queue_client
queue_client-Change s h =
    let c = enqueue-Change s h in
    let g = Change-then 0 0 0 0 s (enqueue s) (grow (enqueue s)) c (grow-Change (enqueue s) c.1) in
    elim (Bool-cases (not (s.max_waiting == 0) && leb s.max_waiting (length s.waiting))) [
      | inl many ↦ rw many (refl, h, omega arith, refl)
      | inr few ↦ rw few g
    ]

take_ready-Change :
    (s : Pool) (ready : List Conn)
    → s.pool ≡ ready
    → handed s.waiting ≡ 0
    → Change 0 (gives (take_ready s ready).0) s (take_ready s ready).1
unfolding take_ready
take_ready-Change s [] e h = queue_client-Change s h
take_ready-Change s (c ∷ ready) e h = (omega (arith, ap length e), h, omega arith, refl)

pub getconn-Change :
    (s : Pool) → handed s.waiting ≡ 0 → Change 0 (gives (getconn s).0) s (getconn s).1
unfolding getconn
getconn-Change s h = go s.closed
  where
    counted : Pool
    counted = record s { requests_num = s.requests_num + 1 }

    go :
        (b : Bool)
        → Change 0
            (gives (if b then (raised pool_closed, counted) else take_ready counted s.pool).0)
            s
            (if b then (raised pool_closed, counted) else take_ready counted s.pool).1
    go true = (refl, h, omega arith, refl)
    go false = take_ready-Change counted s.pool refl h
