-- ===== src/Protocol.antt =====
-- psycopg3/psycopg3/generators.py: the loops that send a query and read what comes back, over calls of
-- libpq that do not block. A generator that yields is resumed by `wait`, which says what is ready and
-- what has become of the connection in the meantime. The loops run on fuel; `none` is no fuel left.
pub mod Behaviour
pub mod Execute
pub mod Loops
mod Tests
use psycopg.Prelude.{
  ℕ, zero, suc, Bool, true, false, Option, none, some, List, [], ◌∷◌, ◌++◌, ◌==◌, if◌then◌else◌,
}
use psycopg.Preparing.{ExecStatus, copy_in, copy_out, copy_both}

-- What a generator waits for, and whether there is something to read when it is resumed.
pub data Wait : Type 0 where
  wait_r wait_w wait_rw : Wait

-- The calls of libpq, on a connection, with results and notifies by number.
pub record Libpq : Type 1 where
  pub Conn : Type 0
  pub flush : Conn → ℕ × Conn
  pub consume_input : Conn → Conn
  pub is_busy : Conn → Bool
  pub notifies : Conn → Option ℕ × Conn
  pub get_result : Conn → Option ℕ × Conn
  pub status : ℕ → ExecStatus
  pub wait : Wait → Conn → Bool × Conn

unfoldable pub is_copy_status : ExecStatus → Bool
is_copy_status copy_in = true
is_copy_status copy_out = true
is_copy_status copy_both = true
is_copy_status _ = false

-- if not n: break
abbrev pub by_answer : {C B : Type 0} → Option ℕ × C → (C → B) → (ℕ → C → B) → B
by_answer (none, c) stop next = stop c
by_answer (some n, c) stop next = next n c

abbrev pub add_first : {C : Type 0} → ℕ → Option (List ℕ × C) → Option (List ℕ × C)
add_first n none = none
add_first n (some (ns, c)) = some (n ∷ ns, c)

module _ (l : Libpq) where
  open l use {Conn, flush, consume_input, is_busy, notifies, get_result, status, wait}

  unfoldable pub after_wait : Bool × Conn → Conn
  after_wait (true, c) = consume_input c
  after_wait (false, c) = c

  unfoldable pub send : ℕ → Conn → Option Conn
  unfolding after_wait
  send zero c = none
  send (suc fuel) c =
      let (f, sent) = flush c in
      let again = send fuel (after_wait (wait wait_rw sent)) in if f == 0 then some sent else again

  -- The first loop of `fetch`.
  unfoldable pub until_ready : ℕ → Conn → Option Conn
  until_ready zero c = none
  until_ready (suc fuel) c =
      let read = consume_input c in
      let again = until_ready fuel (wait wait_r read).1 in if is_busy read then again else some read

  -- The second one, with the notifies that the handler is given.
  unfoldable pub take_notifies : ℕ → Conn → Option (List ℕ × Conn)
  take_notifies zero c = none
  take_notifies (suc fuel) c =
      by_answer (notifies c) (λ c'. some ([], c')) (λ n c'. add_first n (take_notifies fuel c'))

  unfoldable pub fetch : ℕ → Conn → Option (Option ℕ × Conn)
  unfolding until_ready take_notifies
  fetch fuel c = elim (until_ready fuel c) [
    | none ↦ none
    | some read ↦ elim (take_notifies fuel read) [
      | none ↦ none
      | some (ns, c') ↦ some (get_result c')
    ]
  ]

  -- The loop of `fetch_many`, each round with the same fuel for its own loops.
  unfoldable pub fetch_many : ℕ → ℕ → Conn → Option (List ℕ × Conn)
  unfolding fetch is_copy_status
  fetch_many inner zero c = none
  fetch_many inner (suc fuel) c = elim (fetch inner c) [
    | none ↦ none
    | some answer ↦
        by_answer answer (λ c'. some ([], c'))
          (λ r c'.
            let more = add_first r (fetch_many inner fuel c') in
            if is_copy_status (status r) then some (r ∷ [], c') else more)
  ]

  unfoldable pub execute : ℕ → Conn → Option (List ℕ × Conn)
  unfolding send fetch_many
  execute fuel c = elim (send fuel c) [ none ↦ none | some sent ↦ fetch_many fuel fuel sent ]
