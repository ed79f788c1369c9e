-- ===== src/Preparing/Session.antt =====
-- How a cursor uses the cache: `_maybe_prepare_gen` of psycopg3/psycopg3/cursor.py, against the
-- prepared statements that the server keeps.
pub mod Agreement
pub mod Sound
use psycopg.Prelude.{
  ℕ, suc, ◌+◌, ◌<◌, ◌≡◌, refl, Bool, true, false, Option, none, some, ◌⊎◌, inl, inr, List, [], ◌∷◌,
  ◌++◌, Bytes, codes, if◌then◌else◌,
}
use psycopg.Prelude.Equality.{◌===◌}
use psycopg.Prelude.OrderedDict.{lookup}
use psycopg.Preparing.{
  PrepareManager, Key, Prepare, prepare_yes, prepare_no, prepare_should, ExecStatus, is_false, get,
  maintain, key_eq, bytes_eq,
}

-- The server, as far as prepared statements go: `statement s n` is what `n` is prepared for. PREPARE
-- and DEALLOCATE change one name, and running a query changes none (the program's own queries are
-- supposed not to DEALLOCATE or DISCARD).
pub record Server : Type 1 where
  pub State : Type 0
  pub statement : State → Bytes → Option Key
  pub prepare : State → Bytes → Key → State
  pub exec_command : State → Bytes → State
  pub run : State → State
  pub statement-prepare :
      (s : State) (n : Bytes) (k : Key) (j : Bytes)
      → statement (prepare s n k) j ≡ (if n === j then some k else statement s j)
  pub statement-deallocate :
      (s : State) (n j : Bytes)
      → statement (exec_command s (codes "DEALLOCATE " ++ n)) j
        ≡ (if n === j then none else statement s j)
  pub statement-run : (s : State) (j : Bytes) → statement (run s) j ≡ statement s j

-- What goes to the server in the end.
pub data Sent : Type 0 where
  sent_prepared : Bytes → Sent
  sent_query : Sent

-- One execution: the statement, the argument `prepare`, and what the server answers.
pub record Execution : Type 0 where
  pub key : Key
  pub prepare_arg : Option Bool
  pub accepted : Bool
  pub results : List ExecStatus

module _ (srv : Server) where
  open srv use {State, statement, prepare, exec_command, run}

  pub record Session : Type 0 where
    pub manager : PrepareManager
    pub state : State

  -- What `send` has decided, with the values that `maintain` is given later.
  pub record Request : Type 0 where
    pub sent : Sent
    pub prep : Prepare
    pub name : Bytes

  -- PREPARE, and then the query by its name; `none` is the exception where the PREPARE fails.
  send_prepare : PrepareManager → State → Key → Bool → Bytes → Option Request × Session
  send_prepare m s key true name = (
    some (record { sent = sent_prepared name; prep = prepare_should; name = name }),
    record { manager = m; state = prepare s name key },
  )
  send_prepare m s key false name = (none, record { manager = m; state = s })

  send_as : State → Key → Bool → (Prepare × Bytes) × PrepareManager → Option Request × Session
  unfolding send_prepare
  send_as s key accepted ((prepare_yes, name), m) = (
    some (record { sent = sent_prepared name; prep = prepare_yes; name = name }),
    record { manager = m; state = s },
  )
  send_as s key accepted ((prepare_no, name), m) = (
    some (record { sent = sent_query; prep = prepare_no; name = name }),
    record { manager = m; state = s },
  )
  send_as s key accepted ((prepare_should, name), m) = send_prepare m s key accepted name

  -- Up to the sending of the query; `accepted` says whether the server takes a PREPARE.
  unfoldable pub send : Session → Key → Option Bool → Bool → Option Request × Session
  unfolding send_as
  send w key prepare_arg accepted = send_as w.state key accepted (get w.manager key prepare_arg)

  pub command : State → Option Bytes × PrepareManager → Session
  command s (none, m) = record { manager = m; state = s }
  command s (some cmd, m) = record { manager = m; state = exec_command s cmd }

  -- The query runs, and the cache is brought up to date.
  unfoldable pub complete : Session → Key → Option Bool → List ExecStatus → Request → Session
  unfolding command
  complete w key prepare_arg results r =
      if is_false prepare_arg
      then record { manager = w.manager; state = run w.state }
      else command (run w.state) (maintain w.manager key results r.prep r.name)

  complete_sent : Key → Option Bool → List ExecStatus → Option Request × Session → Session
  unfolding complete
  complete_sent key prepare_arg results (none, w) = w
  complete_sent key prepare_arg results (some r, w) = complete w key prepare_arg results r

  -- The whole of `_maybe_prepare_gen`.
  unfoldable pub maybe_prepare : Session → Key → Option Bool → Bool → List ExecStatus → Session
  unfolding complete_sent
  maybe_prepare w key prepare_arg accepted results =
      complete_sent key prepare_arg results (send w key prepare_arg accepted)

  unfoldable pub run_all : Session → List Execution → Session
  run_all w [] = w
  run_all w (x ∷ xs) = run_all (maybe_prepare w x.key x.prepare_arg x.accepted x.results) xs
