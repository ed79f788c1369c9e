-- ===== src/Transaction/Backend.antt =====
-- What psycopg3/psycopg3/transaction.py relies on of the server.
use psycopg.Prelude.{◌≡◌, ◌≢◌, Bool, true, Option, none, some, List, [], ◌∷◌, Bytes}
use psycopg.Pool.Client.{TransactionStatus, idle, intrans}

pub data Command : Type 0 where
  begin : Command
  savepoint : Bytes → Command
  release : Bytes → Command
  rollback_to : Bytes → Command
  commit : Command
  rollback : Command

-- `view` is the data as the session sees it; `frames` are the savepoints, the last first, with the
-- data that they would restore; `base` is the data at the begin of the transaction.  The laws are
-- what PostgreSQL documents of these commands, for the last savepoint.
pub record Server : Type 1 where
  pub State : Type 0
  pub Data : Type 0
  pub status : State → TransactionStatus
  pub view : State → Data
  pub frames : State → List (Bytes × Data)
  pub base : State → Option Data
  pub exec : Command → State → Bool × State
  pub begin_law :
      (s : State)
      → status s ≡ idle
      → ((exec begin s).0 ≡ true)
        × (status (exec begin s).1 ≡ intrans)
        × (view (exec begin s).1 ≡ view s)
        × (frames (exec begin s).1 ≡ [])
        × (base (exec begin s).1 ≡ some (view s))
  pub savepoint_law :
      (s : State) (n : Bytes)
      → status s ≡ intrans
      → ((exec (savepoint n) s).0 ≡ true)
        × (status (exec (savepoint n) s).1 ≡ intrans)
        × (view (exec (savepoint n) s).1 ≡ view s)
        × (frames (exec (savepoint n) s).1 ≡ (n, view s) ∷ frames s)
        × (base (exec (savepoint n) s).1 ≡ base s)
  pub release_law :
      (s : State) (n : Bytes) (d : Data) (rest : List (Bytes × Data))
      → status s ≡ intrans
      → frames s ≡ (n, d) ∷ rest
      → ((exec (release n) s).0 ≡ true)
        × (status (exec (release n) s).1 ≡ intrans)
        × (view (exec (release n) s).1 ≡ view s)
        × (frames (exec (release n) s).1 ≡ rest)
        × (base (exec (release n) s).1 ≡ base s)
  pub rollback_to_law :
      (s : State) (n : Bytes) (d : Data) (rest : List (Bytes × Data))
      → status s ≢ idle
      → frames s ≡ (n, d) ∷ rest
      → ((exec (rollback_to n) s).0 ≡ true)
        × (status (exec (rollback_to n) s).1 ≡ intrans)
        × (view (exec (rollback_to n) s).1 ≡ d)
        × (frames (exec (rollback_to n) s).1 ≡ frames s)
        × (base (exec (rollback_to n) s).1 ≡ base s)
  pub commit_law :
      (s : State)
      → status s ≡ intrans
      → ((exec commit s).0 ≡ true)
        × (status (exec commit s).1 ≡ idle)
        × (view (exec commit s).1 ≡ view s)
        × (frames (exec commit s).1 ≡ [])
        × (base (exec commit s).1 ≡ none)
  pub rollback_law :
      (s : State) (d : Data)
      → status s ≢ idle
      → base s ≡ some d
      → ((exec rollback s).0 ≡ true)
        × (status (exec rollback s).1 ≡ idle)
        × (view (exec rollback s).1 ≡ d)
        × (frames (exec rollback s).1 ≡ [])
        × (base (exec rollback s).1 ≡ none)
