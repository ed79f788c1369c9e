-- ===== src/Pool/Attempt/Ends.antt =====
-- The attempts to connect of psycopg3/psycopg3/pool/base.py, made again and again by `_add_connection` of
-- psycopg3/psycopg3/pool/pool.py, come to an end.
use psycopg.Prelude.{
  ℕ, zero, suc, ◌+◌, ◌-◌, ◌*◌, ◌<◌, ◌≤◌, ◌≡◌, refl, ap, ◌∙◌, Bool, true, false, Option, none, some,
  List, [], ◌∷◌, ltb, arith, Bool-cases, inl, inr, ◌⊎◌,
}
use psycopg.Pool.Attempt.{
  ConnectionAttempt, new_attempt, next_delay, clip_delay, update_delay, time_to_give_up,
}
use psycopg.Pool.State.{Task, add_connection, Pool}
use psycopg.Pool.Maintain.{add_connection_run, attempt_or_new, connect, connected, connect_failed}

-- What is done with the one task that may be scheduled: it is run again, after its delay.
abbrev follow :
    (ℕ → Option ConnectionAttempt → Bool → Pool → Option Pool)
    → List (ℕ × Task)
    → Pool
    → Option Pool
follow again [] v = some v
follow again ((delay, add_connection a growing) ∷ rest) v = again delay a growing v
follow again (_ ∷ rest) v = none

-- `_add_connection` with a server that never answers, and again with each task that it schedules, after
-- its delay and `late k`, the time that the scheduler and the workers need then, where k attempts are
-- left; other tasks are set aside. The result is the pool when no task is scheduled any more, if
-- `fuel` attempts are enough.
unfoldable pub retry : (ℕ → ℕ) → ℕ → ℕ → ℕ → Option ConnectionAttempt → Bool → Pool → Option Pool
unfolding add_connection_run
retry late initial zero now a growing s = none
retry late initial (suc fuel) now a growing s =
    let tried = add_connection_run initial now none a growing (record s { scheduled = [] }) in
    follow (λ delay b g v. retry late initial fuel (now + delay + late fuel) b g v) tried.scheduled
      tried

-- The first delay, doubled a number of times.
abbrev pub doubled : ℕ → ℕ → ℕ
doubled zero d = d
doubled (suc n) d = doubled n (d * 2)

-- The delays that follow a delay of d, together.
abbrev reach : ℕ → ℕ → ℕ
reach zero d = 0
reach (suc n) d = d * 2 + reach n (d * 2)

reach-doubled : (n d : ℕ) → reach n d + d * 2 ≡ doubled (suc n) d
reach-doubled zero d = omega arith
reach-doubled (suc n) d = omega (arith, reach-doubled n (d * 2))

abbrev failed_once : Pool → Pool
failed_once s = record s {
  scheduled = [];
  connections_num = s.connections_num + 1;
  connections_errors = s.connections_errors + 1;
}

module _ (late : ℕ → ℕ) (initial : ℕ) where
  retry-gives_up :
      (fuel now : ℕ) (a : ConnectionAttempt) (growing : Bool) (s : Pool)
      → time_to_give_up now a ≡ true
      → retry late initial (suc fuel) now (some a) growing s
        ≡ some (record (failed_once s) { nconns = s.nconns - 1 })
  unfolding retry connected connect_failed connect
  retry-gives_up fuel now a growing s h = rw h refl

  abbrev rescheduled : ℕ → ConnectionAttempt → Bool → Pool → Pool
  rescheduled now a growing s =
      let b = update_delay initial now a in
      record (failed_once s) { scheduled = (b.delay, add_connection (some b) growing) ∷ [] }

  retry-again :
      (fuel now : ℕ) (o : Option ConnectionAttempt) (a : ConnectionAttempt) (growing : Bool)
      (s : Pool)
      → attempt_or_new o s ≡ a
      → time_to_give_up now a ≡ false
      → retry late initial (suc fuel) now o growing s
        ≡ retry late initial fuel
            (now + (update_delay initial now a).delay + late fuel)
            (some (update_delay initial now a))
            growing
            (rescheduled now a growing s)
  unfolding retry connected connect_failed connect
  retry-again fuel now none a growing s e h = rw (e, h) refl
  retry-again fuel now (some b) a growing s e h = rw (e, h) refl

  -- Once attempts were made, the limit of time stays, and a delay is the double of the last, or ends
  -- at the limit.
  update_delay_grows :
      (now : ℕ) (a : ConnectionAttempt)
      → 0 < a.delay
      → now < a.give_up_at
      → ((update_delay initial now a).give_up_at ≡ a.give_up_at)
        × (0 < (update_delay initial now a).delay)
        × (((update_delay initial now a).delay ≡ a.delay * 2)
            ⊎ (now + (update_delay initial now a).delay ≡ a.give_up_at))
  unfolding update_delay next_delay clip_delay
  update_delay_grows now a d n = elim (Bool-cases (ltb a.give_up_at (a.delay * 2 + now))) [
    | inl clipped ↦ (ground arith, ground arith, inr (ground arith))
    | inr whole ↦ (ground arith, ground arith, inl (ground arith))
  ]

  -- The task gives up: there is one connection less to come, and the pool is as it was.
  abbrev Ends : ℕ → ℕ → Option ConnectionAttempt → Bool → Pool → Type 0
  Ends fuel now o growing s =
      (v : Pool) × (retry late initial fuel now o growing s ≡ some v)
      × (v.nconns ≡ s.nconns - 1)
      × (v.pool ≡ s.pool)
      × (v.waiting ≡ s.waiting)

  not_due :
      (now : ℕ) (a : ConnectionAttempt)
      → 0 < a.give_up_at
      → time_to_give_up now a ≡ false
      → now < a.give_up_at
  unfolding time_to_give_up
  not_due now a g h = ground arith

  Ends-now :
      (fuel now : ℕ) (a : ConnectionAttempt) (growing : Bool) (s : Pool)
      → time_to_give_up now a ≡ true
      → Ends (suc fuel) now (some a) growing s
  Ends-now fuel now a growing s due = (
    record (failed_once s) { nconns = s.nconns - 1 },
    retry-gives_up fuel now a growing s due,
    refl,
    refl,
    refl,
  )

  Ends-later :
      (fuel now : ℕ) (o : Option ConnectionAttempt) (a : ConnectionAttempt) (growing : Bool)
      (s : Pool)
      → attempt_or_new o s ≡ a
      → time_to_give_up now a ≡ false
      → Ends fuel
          (now + (update_delay initial now a).delay + late fuel)
          (some (update_delay initial now a))
          growing
          (rescheduled now a growing s)
      → Ends (suc fuel) now o growing s
  Ends-later fuel now o a growing s e early later =
      let (v, given, nconns, pool, waiting) = later in
      (v, retry-again fuel now o a growing s e early ∙ given, nconns, pool, waiting)

  retry-due :
      (fuel now : ℕ) (a : ConnectionAttempt) (growing : Bool) (s : Pool)
      → 0 < a.delay
      → 0 < a.give_up_at
      → a.give_up_at ≤ now + reach fuel a.delay
      → Ends (suc fuel) now (some a) growing s
  retry-due zero now a growing s d g h = elim (Bool-cases (time_to_give_up now a)) [
    | inl due ↦ Ends-now 0 now a growing s due
    | inr early ↦ absurd (omega (arith, h, not_due now a g early))
  ]
  retry-due (suc fuel) now a growing s d g h = elim (Bool-cases (time_to_give_up now a)) [
    | inl due ↦ Ends-now (suc fuel) now a growing s due
    | inr early ↦
        let b = update_delay initial now a in
        let (limit, delayed, grown) = update_delay_grows now a d (not_due now a g early) in
        let in_reach : b.give_up_at ≤ now + b.delay + late (suc fuel) + reach fuel b.delay =
          elim grown [
            | inl double ↦ let r = ap (reach fuel) double in omega (arith, h, limit, double, r)
            | inr clipped ↦ omega (arith, limit, clipped)
          ] in
        Ends-later (suc fuel) now (some a) a growing s refl early (
          retry-due fuel (now + b.delay + late (suc fuel)) b growing (rescheduled now a growing s)
            delayed (omega (arith, g, limit)) in_reach)
  ]

  first_delay :
      (now timeout : ℕ)
      → 0 < initial
      → 0 < timeout
      → ((update_delay initial now (new_attempt timeout)).give_up_at ≡ now + timeout)
        × (0 < (update_delay initial now (new_attempt timeout)).delay)
        × (((update_delay initial now (new_attempt timeout)).delay ≡ initial)
            ⊎ (now + (update_delay initial now (new_attempt timeout)).delay ≡ now + timeout))
  unfolding update_delay next_delay clip_delay
  first_delay now timeout i t = elim (Bool-cases (ltb (now + timeout) (initial + now))) [
    | inl clipped ↦ (ground arith, ground arith, inr (ground arith))
    | inr whole ↦ (ground arith, ground arith, inl (ground arith))
  ]

-- A task that connects to a server that never answers gives up, after n + 1 attempts at most, where
-- the first delay, doubled n times, is `reconnect_timeout` with the first delay or more, however late
-- each of the attempts is made. The first delay and `reconnect_timeout` are above 0. In the end one
-- connection less is counted, and the connections and the clients of the pool are the same.
pub retry_lem :
    (late : ℕ → ℕ) (initial n now : ℕ) (growing : Bool) (s : Pool)
    → 0 < initial
    → 0 < s.reconnect_timeout
    → s.reconnect_timeout + initial ≤ doubled n initial
    → (v : Pool) × (retry late initial (suc n) now none growing s ≡ some v)
      × (v.nconns ≡ s.nconns - 1)
      × (v.pool ≡ s.pool)
      × (v.waiting ≡ s.waiting)
unfolding time_to_give_up
retry_lem late initial zero now growing s i t h = absurd (omega (arith, h))
retry_lem late initial (suc n) now growing s i t h =
    let a = new_attempt s.reconnect_timeout in
    let b = update_delay initial now a in
    let (limit, delayed, grown) = first_delay late initial now s.reconnect_timeout i t in
    let sum = reach-doubled n initial in
    let in_reach : b.give_up_at ≤ now + b.delay + late (suc n) + reach n b.delay = elim grown [
      | inl first ↦ let r = ap (reach n) first in omega (arith, h, limit, first, r, sum)
      | inr clipped ↦ omega (arith, limit, clipped)
    ] in
    Ends-later late initial (suc n) now none a growing s refl refl (
      retry-due late initial n (now + b.delay + late (suc n)) b growing
        (rescheduled late initial now a growing s) delayed (omega (arith, limit, t)) in_reach)
