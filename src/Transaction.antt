-- ===== src/Transaction.antt =====
-- Transaction blocks: `BaseTransaction` of psycopg3/psycopg3/transaction.py, and the explicit commit
-- and rollback of psycopg3/psycopg3/connection.py.  A command that is sent is a value; its name of a
-- savepoint is quoted by psycopg3/psycopg3/sql.py.
pub mod Backend
pub mod Block
pub mod Atomic
pub mod Tests
use psycopg.Prelude.{
  ℕ, ◌+◌, Bool, true, false, Option, none, some, List, [], ◌∷◌, ◌++◌, Bytes, codes, length, ◌==◌,
  if◌then◌else◌, ◌&&◌, ◌||◌, not,
}
use psycopg.Prelude.Equality.{◌===◌, nat_eq, list_eq}
use psycopg.Prelude.Decimal.{decimal}
use psycopg.Pool.Client.{TransactionStatus, idle}
use psycopg.Pool.Maintain.{is_idle}
use psycopg.Transaction.Backend.{
  Command, begin, savepoint, release, rollback_to, commit, rollback, Server,
}

-- `ident` tells transactions apart, as `is` does; no name is the empty name; `outer` is
-- `_outer_transaction`, which is set on entering.
pub record Transaction : Type 0 where
  pub ident : ℕ
  pub savepoint_name : Bytes
  pub force_rollback : Bool
  pub entered : Bool
  pub exited : Bool
  pub outer : Bool

-- What a block is left with: nothing, an error, or `Rollback`, with its transaction if it has one.
pub data Exc : Type 0 where
  no_exc : Exc
  other_exc : Exc
  rollback_exc : Option ℕ → Exc

-- How a method ends: with a Boolean (`enter` returns nothing, here true), or an exception: the
-- TypeError on a second use, an AssertionError or IndexError, the server's error, or the
-- ProgrammingError on an explicit commit or rollback.
pub data Ending : Type 0 where
  done : Bool → Ending
  used_twice : Ending
  assertion_failed : Ending
  index_error : Ending
  command_failed : Ending
  forbidden : Ending

abbrev pub is_nil : Bytes → Bool
is_nil [] = true
is_nil (c ∷ s) = false

abbrev pub only_if : Bool → Command → List Command
only_if b c = if b then c ∷ [] else []

-- f"_pg3_{len(self._conn._savepoints) + 1}"
unfoldable pub automatic_name : ℕ → Bytes
unfolding decimal
automatic_name n = codes "_pg3_" ++ decimal (n + 1)

-- The commands that enter and leave a block.
unfoldable pub enter_commands : Bool → Bytes → List Command
enter_commands outer name = only_if outer begin ++ only_if (not (is_nil name)) (savepoint name)

unfoldable pub commit_commands : Bool → Bytes → List Command
commit_commands outer name =
    only_if (not (is_nil name) && not outer) (release name) ++ only_if outer commit

unfoldable pub rollback_commands : Bool → Bytes → List Command
rollback_commands outer name =
    (if not (is_nil name) && not outer then rollback_to name ∷ release name ∷ [] else [])
    ++ only_if outer rollback

-- Whether `Rollback` stops here.
unfoldable pub swallows : Exc → Transaction → Bool
swallows no_exc tx = false
swallows other_exc tx = false
swallows (rollback_exc none) tx = true
swallows (rollback_exc (some i)) tx = i == tx.ident

abbrev pub is_no_exc : Exc → Bool
is_no_exc no_exc = true
is_no_exc _ = false

module _ (srv : Server) where
  open srv use {State, status, exec}

  -- A connection: `_savepoints`, the last first, and the server.
  pub record Conn : Type 0 where
    pub savepoints : List Bytes
    pub state : State

  -- The commands in turn, up to the first that fails.
  unfoldable pub exec_commands : List Command → State → Bool × State
  exec_commands [] s = (true, s)
  exec_commands (c ∷ cs) s =
      let rest = exec_commands cs (exec c s).1 in
      if (exec c s).0 then rest else (false, (exec c s).1)

  -- `b` is what the method returns if the commands are accepted.
  finish : Bool → List Bytes → Bool × State → Ending × Conn
  finish b savepoints (true, s) = (done b, record { savepoints = savepoints; state = s })
  finish b savepoints (false, s) = (command_failed, record { savepoints = savepoints; state = s })

  enter_named : Conn → Transaction → Ending × Conn × Transaction
  unfolding enter_commands exec_commands finish
  enter_named c tx =
      let r =
        finish true (tx.savepoint_name ∷ c.savepoints)
          (exec_commands (enter_commands tx.outer tx.savepoint_name) c.state) in
      (r.0, r.1, tx)

  -- An outer block may have no name, an inner block gets one.
  enter_outer : Bool → Conn → Transaction → Ending × Conn × Transaction
  unfolding enter_named automatic_name
  enter_outer true c tx =
      if length c.savepoints == 0
      then enter_named c (record tx { outer = true })
      else (assertion_failed, c, record tx { outer = true })
  enter_outer false c tx = enter_named c (record tx {
    outer = false;
    savepoint_name =
        if is_nil tx.savepoint_name
        then automatic_name (length c.savepoints)
        else tx.savepoint_name;
  })

  -- `_enter_gen`
  unfoldable pub enter : Conn → Transaction → Ending × Conn × Transaction
  unfolding enter_outer
  enter c tx =
      if tx.entered
      then (used_twice, c, tx)
      else enter_outer (is_idle (status c.state)) c (record tx { entered = true })

  -- An outer block leaves an empty list; the list without the block's name is what is left of it.
  leave_commands :
      Bool → List Command → Conn → Transaction → List Bytes → Ending × Conn × Transaction
  unfolding finish exec_commands
  leave_commands b cmds c tx rest =
      if tx.outer && not (length rest == 0)
      then (assertion_failed, record c { savepoints = rest }, tx)
      else let r = finish b rest (exec_commands cmds c.state) in (r.0, r.1, tx)

  leave_top :
      Bool
      → List Command
      → Conn
      → Transaction
      → Transaction
      → List Bytes
      → Ending × Conn × Transaction
  unfolding leave_commands
  leave_top b cmds c tx left [] = (index_error, c, tx)
  leave_top b cmds c tx left (top ∷ rest) =
      if top === tx.savepoint_name
      then leave_commands b cmds c left rest
      else (assertion_failed, c, tx)

  -- `_commit_gen` and `_rollback_gen`: only the first sets `_exited`.
  unfoldable pub commit_block : Conn → Transaction → Ending × Conn × Transaction
  unfolding leave_top commit_commands
  commit_block c tx =
      leave_top false (commit_commands tx.outer tx.savepoint_name) c tx
        (record tx { exited = true }) c.savepoints

  unfoldable pub rollback_block : Exc → Conn → Transaction → Ending × Conn × Transaction
  unfolding leave_top rollback_commands swallows
  rollback_block e c tx =
      leave_top (swallows e tx) (rollback_commands tx.outer tx.savepoint_name) c tx tx c.savepoints

  -- `_exit_gen`
  unfoldable pub exit : Exc → Conn → Transaction → Ending × Conn × Transaction
  unfolding commit_block rollback_block
  exit e c tx =
      if is_no_exc e && not tx.force_rollback then commit_block c tx else rollback_block e c tx

  -- `Connection.commit` and `Connection.rollback`
  unfoldable pub explicit : Command → Conn → Ending × Conn
  unfolding finish exec_commands
  explicit cmd c =
      if not (length c.savepoints == 0)
      then (forbidden, c)
      else if is_idle (status c.state)
      then (done true, c)
      else finish true c.savepoints (exec_commands (cmd ∷ []) c.state)
