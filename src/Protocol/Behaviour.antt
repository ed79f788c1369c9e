-- ===== src/Protocol/Behaviour.antt =====
-- What psycopg3/psycopg3/generators.py relies on in libpq, and in the server behind it.
use psycopg.Prelude.{ℕ, zero, suc, ◌≡◌, ◌≢◌, false, none, some, List, [], ◌∷◌, ◌⊎◌}
use psycopg.Preparing.{ExecStatus, copy_in, copy_out, copy_both}
use psycopg.Protocol.{Libpq, Wait, wait_r, wait_rw, after_wait}

-- What PQgetResult has for a query: results, and then the null pointer, or a result that begins a COPY.
-- Nothing is said of what it gives after that one: libpq makes up a result for every call.
pub data Replies : Type 0 where
  ends : Replies
  copies : ℕ → Replies
  gives : ℕ → Replies → Replies

-- The results in turn; the one that begins a COPY is the last.
abbrev pub all_results : Replies → List ℕ
all_results ends = []
all_results (copies r) = r ∷ []
all_results (gives r rs) = r ∷ all_results rs

-- A status that begins a COPY.
abbrev pub BeginsCopy : ExecStatus → Type 0
BeginsCopy st = (st ≡ copy_in) ⊎ ((st ≡ copy_out) ⊎ (st ≡ copy_both))

abbrev pub IsOther : ExecStatus → Type 0
IsOther st = (st ≢ copy_in) × (st ≢ copy_out) × (st ≢ copy_both)

module _ (l : Libpq) where
  open l use {Conn, flush, consume_input, wait}

  -- One round of the loop of `send`, and of the first loop of `fetch`.
  abbrev pub again : Conn → Conn
  again c = after_wait l (wait wait_rw (flush c).1)

  abbrev pub busy_again : Conn → Conn
  busy_again c = (wait wait_r (consume_input c)).1

-- A number of rounds.
abbrev pub rounds : {C : Type 0} → ℕ → (C → C) → C → C
rounds zero f c = c
rounds (suc n) f c = rounds n f (f c)

-- `replies` are those that the query still gives, and `queue` the notifies that were read and not
-- told. The server takes all of a query after some number of waits, and after some its next result
-- can be read without blocking.
pub record Behaves (l : Libpq) : Type 0 where
  pub replies : l.Conn → Replies
  pub queue : l.Conn → List ℕ
  pub replies_flush : (c : l.Conn) → replies (l.flush c).1 ≡ replies c
  pub replies_wait : (w : Wait) (c : l.Conn) → replies (l.wait w c).1 ≡ replies c
  pub replies_consume : (c : l.Conn) → replies (l.consume_input c) ≡ replies c
  pub replies_notifies : (c : l.Conn) → replies (l.notifies c).1 ≡ replies c
  pub busy_notifies : (c : l.Conn) → l.is_busy (l.notifies c).1 ≡ l.is_busy c
  -- PQnotifies takes the first of the queue, and reads nothing from the server.
  pub told_none : (c : l.Conn) → queue c ≡ [] → (l.notifies c).0 ≡ none
  pub told_some :
      (c : l.Conn) (n : ℕ) (ns : List ℕ)
      → queue c ≡ n ∷ ns
      → ((l.notifies c).0 ≡ some n) × (queue (l.notifies c).1 ≡ ns)
  -- PQgetResult, where it does not block
  pub reply_ends : (c : l.Conn) → l.is_busy c ≡ false → replies c ≡ ends → (l.get_result c).0 ≡ none
  pub reply_copies :
      (c : l.Conn) (r : ℕ)
      → l.is_busy c ≡ false
      → replies c ≡ copies r
      → ((l.get_result c).0 ≡ some r) × BeginsCopy (l.status r)
  pub reply_gives :
      (c : l.Conn) (r : ℕ) (rs : Replies)
      → l.is_busy c ≡ false
      → replies c ≡ gives r rs
      → ((l.get_result c).0 ≡ some r) × IsOther (l.status r) × (replies (l.get_result c).1 ≡ rs)
  pub sent_in_time : (c : l.Conn) → (n : ℕ) × ((l.flush (rounds n (again l) c)).0 ≡ 0)
  pub answers_in_time :
      (c : l.Conn) → (n : ℕ) × (l.is_busy (l.consume_input (rounds n (busy_again l) c)) ≡ false)
