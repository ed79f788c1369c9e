-- ===== src/Transaction/Tests.antt =====
-- Runs of the model of psycopg3/psycopg3/transaction.py, and its theorems at concrete inputs.
use psycopg.Prelude.{
  ℕ, ◌≡◌, ◌≢◌, refl, Bool, true, false, Option, none, some, List, [], ◌∷◌, Bytes, codes, inl,
}
use psycopg.Prelude.Decimal.{decimal}
use psycopg.Pool.Client.{TransactionStatus, idle, intrans, inerror}
use psycopg.Transaction.Backend.{
  Command, begin, savepoint, release, rollback_to, commit, rollback, Server,
}
use psycopg.Transaction.{
  Transaction, no_exc, other_exc, rollback_exc, Ending, command_failed, assertion_failed, Conn,
  enter, exit, automatic_name, swallows,
}
use psycopg.Transaction.Block.{Left, entered_block}
use psycopg.Transaction.Atomic.{block_commits, block_rolls_back}

-- A server whose data is one number.
record Session : Type 0 where
  st : TransactionStatus
  current : ℕ
  saved : List (Bytes × ℕ)
  begun : Option ℕ

save : TransactionStatus → Bytes → Session → Bool × Session
save intrans n s = (true, record s { saved = (n, s.current) ∷ s.saved })
save _ n s = (false, s)

forget : TransactionStatus → List (Bytes × ℕ) → Session → Bool × Session
forget intrans (f ∷ rest) s = (true, record s { saved = rest })
forget _ _ s = (false, s)

restore : List (Bytes × ℕ) → Session → Bool × Session
restore [] s = (false, s)
restore ((n, d) ∷ rest) s = (true, record s { st = intrans; current = d })

abandon : Option ℕ → Session → Bool × Session
abandon none s = (false, s)
abandon (some d) s = (true, record { st = idle; current = d; saved = []; begun = none })

obey : Command → Session → Bool × Session
unfolding save forget restore abandon
obey begin s = (true, record s { st = intrans; saved = []; begun = some s.current })
obey (savepoint n) s = save s.st n s
obey (release n) s = forget s.st s.saved s
obey (rollback_to n) s = restore s.saved s
obey commit s = (true, record s { st = idle; saved = []; begun = none })
obey rollback s = abandon s.begun s

numbers : Server
unfolding obey
numbers = record {
  State = Session;
  Data = ℕ;
  status = λ s. s.st;
  view = λ s. s.current;
  frames = λ s. s.saved;
  base = λ s. s.begun;
  exec = obey;
  begin_law = λ s h. (refl, refl, refl, refl, refl);
  savepoint_law = λ s n h. rw h (refl, refl, refl, refl, refl);
  release_law = λ s n d rest h f. rw (h, f) (refl, refl, refl, refl, refl);
  rollback_to_law = λ s n d rest h f. rw f (refl, refl, refl, refl, refl);
  commit_law = λ s h. (refl, refl, refl, refl, refl);
  rollback_law = λ s d h b. rw b (refl, refl, refl, refl, refl);
}

abbrev tx : Transaction
tx = record {
  ident = 1;
  savepoint_name = [];
  force_rollback = false;
  entered = false;
  exited = false;
  outer = false;
}

calm : Conn numbers
unfolding numbers
calm = record {
  savepoints = [];
  state = record { st = idle; current = 5; saved = []; begun = none };
}

-- The body wrote 6, and after that a query failed.
changed : TransactionStatus → Conn numbers
unfolding numbers
changed st = record {
  savepoints = [] ∷ [];
  state = record { st = st; current = 6; saved = []; begun = some 5 };
}

block_commits_example :
    Left numbers calm.savepoints calm.state
      (numbers.view (changed intrans).state)
      false
      (exit numbers no_exc (changed intrans) (enter numbers calm tx).2)
unfolding numbers calm changed enter swallows
block_commits_example =
    block_commits numbers calm (changed intrans) tx (inl (refl, refl, refl, refl)) refl refl refl
      (refl, refl, refl)

inerror-ne-idle : inerror ≢ idle
inerror-ne-idle e = cc e

block_rolls_back_example :
    Left numbers calm.savepoints calm.state
      (numbers.view calm.state)
      true
      (exit numbers (rollback_exc none) (changed inerror) (enter numbers calm tx).2)
unfolding numbers calm changed enter swallows
block_rolls_back_example =
    block_rolls_back numbers calm (changed inerror) tx (rollback_exc none)
      (inl (refl, refl, refl, refl)) refl refl inerror-ne-idle (refl, refl, refl)

-- In a failed transaction a block inside cannot be entered, but its savepoint stays on the list.
failed : Ending × Conn numbers × Transaction
unfolding changed enter
failed = enter numbers (changed inerror) (record tx { ident = 2 })

failed_enter : (failed.0 ≡ command_failed) × (failed.1.savepoints ≡ codes "_pg3_2" ∷ [] ∷ [])
unfolding failed numbers automatic_name decimal
failed_enter = (refl, refl)

-- The block around it then fails its assertion, and does not roll back.
not_rolled_back : (exit numbers other_exc failed.1 (entered_block tx true [])).0 ≡ assertion_failed
unfolding failed numbers automatic_name decimal exit
not_rolled_back = refl
