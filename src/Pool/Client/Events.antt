-- ===== src/Pool/Client/Events.antt =====
-- A `WaitingClient` of psycopg3/psycopg3/pool/pool.py under any events.
use psycopg.Prelude.{
  ℕ, ◌≡◌, refl, ◌∙◌, Bool, true, false, none, some, if◌then◌else◌, List, [], ◌∷◌, ap,
}
use psycopg.Pool.Client.{
  Conn, PoolError, pool_timeout, WaitingClient, new_client, set_conn, fail, wait_timed_out,
  wait_result, conn_or, Waited, returns, raises, assertion_fails,
}

-- What other threads, or the time, do to the client.
pub data Event : Type 0 where
  event_set : Conn → Event
  event_fail : PoolError → Event
  event_timed_out : Event

unfoldable pub play : Event → WaitingClient → WaitingClient
unfolding set_conn fail wait_timed_out
play (event_set c) w = (set_conn c w).1
play (event_fail e) w = (fail e w).1
play event_timed_out w = wait_timed_out w

unfoldable pub play_all : List Event → WaitingClient → WaitingClient
play_all [] w = w
play_all (x ∷ xs) w = play_all xs (play x w)

-- The connections that the client accepted, in turn: `set` returned true.
unfoldable pub accepted : List Event → WaitingClient → List Conn
unfolding set_conn
accepted [] w = []
accepted (event_set c ∷ xs) w =
    let rest = accepted xs (play (event_set c) w) in if (set_conn c w).0 then c ∷ rest else rest
accepted (event_fail e ∷ xs) w = accepted xs (play (event_fail e) w)
accepted (event_timed_out ∷ xs) w = accepted xs (play event_timed_out w)

-- A client that has a connection keeps it and accepts no other.
keeps :
    (xs : List Event) (w : WaitingClient) (c : Conn)
    → w.conn ≡ some c
    → ((play_all xs w).conn ≡ some c) × (accepted xs w ≡ [])
unfolding play_all accepted play set_conn fail
keeps [] w c h = (h, refl)
keeps (event_set d ∷ xs) w c h = rw h (keeps xs (record w { conn = some c }) c refl)
keeps (event_fail e ∷ xs) w c h = rw h (keeps xs (record w { conn = some c }) c refl)
keeps (event_timed_out ∷ xs) w c h = keeps xs (wait_timed_out w) c (unfold wait_timed_out in h)

abbrev unserved : ℕ → PoolError → WaitingClient
unserved i e = record { ident = i; conn = none; error = some e }

-- Whether the time is up in one of the events.
abbrev pub times_out : List Event → Bool
times_out [] = false
times_out (event_timed_out ∷ xs) = true
times_out (event_set c ∷ xs) = times_out xs
times_out (event_fail e ∷ xs) = times_out xs

-- A client with an error accepts no connection; its error stays, or is that of the time.
stays_unserved :
    (xs : List Event) (i : ℕ) (e : PoolError)
    → (play_all xs (unserved i e) ≡ unserved i (if times_out xs then pool_timeout else e))
      × (accepted xs (unserved i e) ≡ [])
unfolding play_all accepted play set_conn fail wait_timed_out
stays_unserved [] i e = (refl, refl)
stays_unserved (event_set c ∷ xs) i e = stays_unserved xs i e
stays_unserved (event_fail f ∷ xs) i e = stays_unserved xs i e
stays_unserved (event_timed_out ∷ xs) i e =
    let (same, nothing) = stays_unserved xs i pool_timeout in
    (same ∙ ap (unserved i) (either (times_out xs)), nothing)
  where
    either : (b : Bool) → (if b then pool_timeout else pool_timeout) ≡ pool_timeout
    either true = refl
    either false = refl

-- What the first event decides: whether the client gets a connection, and what `wait` does.
abbrev pub expected : List Event → Waited
expected [] = assertion_fails
expected (event_set c ∷ xs) = returns c
expected (event_fail e ∷ xs) = raises (if times_out xs then pool_timeout else e)
expected (event_timed_out ∷ xs) = raises pool_timeout

abbrev pub expected_conns : List Event → List Conn
expected_conns (event_set c ∷ xs) = c ∷ []
expected_conns _ = []

-- What happens first to a client decides. If it is given a connection, `wait` returns that one, even
-- if the time is up afterwards, and `set` accepts no other. If it is made to fail, or its time is up,
-- `set` accepts no connection, and `wait` raises the timeout if the time is up at all, and else the
-- first error. If nothing has happened, the assertion in `wait` fails.
pub wait_result_lem :
    (i : ℕ) (xs : List Event)
    → (wait_result (play_all xs (new_client i)) ≡ expected xs)
      × (accepted xs (new_client i) ≡ expected_conns xs)
unfolding play_all accepted play set_conn fail wait_timed_out wait_result
wait_result_lem i [] = (refl, refl)
wait_result_lem i (event_set c ∷ xs) =
    let (kept, no_other) = keeps xs (record { ident = i; conn = some c; error = none }) c refl in
    (ap (λ d. conn_or d (play_all xs (given i c)).error) kept, ap (λ l. c ∷ l) no_other)
  where
    given : ℕ → Conn → WaitingClient
    given i c = record { ident = i; conn = some c; error = none }
wait_result_lem i (event_fail e ∷ xs) =
    let (same, nothing) = stays_unserved xs i e in (ap wait_result same, nothing)
wait_result_lem i (event_timed_out ∷ xs) =
    let (same, nothing) = stays_unserved (event_timed_out ∷ xs) i pool_timeout in
    (ap wait_result same, nothing)
