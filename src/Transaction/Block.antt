-- ===== src/Transaction/Block.antt =====
-- A transaction block of psycopg3/psycopg3/transaction.py, from entering to leaving it.
use psycopg.Prelude.{
  ℕ, ◌≡◌, ◌≢◌, refl, sym, ◌∙◌, Bool, true, false, none, some, List, [], ◌∷◌, Bytes, length,
  if◌then◌else◌, ◌&&◌, not, inl, inr, Bool-cases,
}
use psycopg.Prelude.Equality.{nat_eq, list_eq, ===_refl}
use psycopg.Pool.Client.{idle, intrans}
use psycopg.Transaction.Backend.{
  Command, begin, savepoint, release, rollback_to, commit, rollback, Server,
}
use psycopg.Transaction.{
  Transaction, Exc, no_exc, Ending, done, is_nil, automatic_name, enter_commands, commit_commands,
  rollback_commands, swallows, Conn, exec_commands, finish, enter_named, enter_outer, enter,
  leave_commands, leave_top, commit_block, rollback_block, is_no_exc, exit,
}

-- A block that is entered, in full.
abbrev pub entered_block : Transaction → Bool → Bytes → Transaction
entered_block tx outer n = record tx { entered = true; outer = outer; savepoint_name = n }

-- The name of an inner block, where `k` savepoints are open.
abbrev pub inner_name : ℕ → Bytes → Bytes
inner_name k n = if is_nil n then automatic_name k else n

pub inner_name-named : (k : ℕ) (n : Bytes) → is_nil (inner_name k n) ≡ false
unfolding automatic_name
inner_name-named k [] = refl
inner_name-named k (c ∷ n) = refl

module _ (srv : Server) where
  open srv use {
    State, Data, status, view, frames, base, exec, begin_law, savepoint_law, release_law,
    rollback_to_law, commit_law, rollback_law,
  }

  pub exec-first :
      (x : Command) (cs : List Command) (s : State)
      → (exec x s).0 ≡ true
      → exec_commands srv (x ∷ cs) s ≡ exec_commands srv cs (exec x s).1
  unfolding exec_commands
  exec-first x cs s h = rw h

  pub exec-one :
      (x : Command) (s : State)
      → (exec x s).0 ≡ true
      → exec_commands srv (x ∷ []) s ≡ (true, (exec x s).1)
  unfolding exec_commands
  exec-one x s h = exec-first x [] s h

  abbrev pub at : List Bytes → State → Conn srv
  at names s = record { savepoints = names; state = s }

  pub enter-inner :
      (names : List Bytes) (s : State) (tx : Transaction)
      → tx.entered ≡ false
      → status s ≡ intrans
      → enter srv (at names s) tx ≡ (
        done true,
        at
            (inner_name (length names) tx.savepoint_name ∷ names)
            (exec (savepoint (inner_name (length names) tx.savepoint_name)) s).1,
        entered_block tx false (inner_name (length names) tx.savepoint_name),
      )
  unfolding enter enter_outer enter_named enter_commands finish
  enter-inner names s tx fresh working =
      let n = inner_name (length names) tx.savepoint_name in
      let named = inner_name-named (length names) tx.savepoint_name in
      rw fresh
        (rw working (rw named (rw (exec-one (savepoint n) s (savepoint_law s n working).0) refl)))

  abbrev pub Opened : State → Transaction → State → Type 0
  Opened s tx s' =
      (enter srv (at [] s) tx
        ≡ (done true, at (tx.savepoint_name ∷ []) s', entered_block tx true tx.savepoint_name))
      × (status s' ≡ intrans)
      × (view s' ≡ view s)
      × (base s' ≡ some (view s))

  pub enter-outer :
      (s : State) (tx : Transaction)
      → tx.entered ≡ false
      → status s ≡ idle
      → (s' : State) × Opened s tx s'
  unfolding enter enter_outer enter_named enter_commands finish
  enter-outer s tx fresh free =
      let b = begin_law s free in
      elim (Bool-cases (is_nil tx.savepoint_name)) [
        | inl unnamed ↦ (
          (exec begin s).1,
          (rw fresh (rw free (rw unnamed (rw (exec-one begin s b.0) refl))), b.1, b.2, b.4),
        )
        | inr named ↦
            let n = tx.savepoint_name in
            let p = savepoint_law (exec begin s).1 n b.1 in
            (
              (exec (savepoint n) (exec begin s).1).1,
              (
                rw fresh (
                    rw free (
                      rw named (
                        rw
                          (exec-first begin (savepoint n ∷ []) s b.0
                            ∙ exec-one (savepoint n) (exec begin s).1 p.0)
                          refl))),
                p.1,
                p.2 ∙ b.2,
                p.4 ∙ b.4,
              ),
            )
      ]

  -- What is left of a block: the savepoints of the connection and of the server, the data at the
  -- begin, and the status are those of `s`, and the data is `d`.
  pub record Left (names : List Bytes) (s : State) (d : Data) (b : Bool)
      (r : Ending × Conn srv × Transaction) : Type 0 where
    pub ends : r.0 ≡ done b
    pub names_left : r.1.savepoints ≡ names
    pub status_left : status r.1.state ≡ status s
    pub view_left : view r.1.state ≡ d
    pub frames_left : frames r.1.state ≡ frames s
    pub base_left : base r.1.state ≡ base s

  pub leave-inner_commit :
      (names : List Bytes) (s s' : State) (d : Data) (n : Bytes) (tx : Transaction)
      → is_nil n ≡ false
      → tx.force_rollback ≡ false
      → status s ≡ intrans
      → status s' ≡ intrans
      → frames s' ≡ (n, d) ∷ frames s
      → base s' ≡ base s
      → Left names s
          (view s')
          false
          (exit srv no_exc (at (n ∷ names) s') (entered_block tx false n))
  unfolding exit commit_block leave_top leave_commands commit_commands finish
  leave-inner_commit names s s' d n tx named keep was working fr ba =
      let p = release_law s' n d (frames s) working fr in
      rw keep (
        rw (===_refl n) (
          rw named (
            rw (exec-one (release n) s' p.0) (record {
              ends = refl;
              names_left = refl;
              status_left = p.1 ∙ sym was;
              view_left = p.2;
              frames_left = p.3;
              base_left = p.4 ∙ ba;
            }))))

  pub intrans-ne-idle : intrans ≢ idle
  intrans-ne-idle e = cc e

  pub leave-inner_back :
      (names : List Bytes) (s s' : State) (d : Data) (n : Bytes) (e : Exc) (tx : Transaction)
      → is_nil n ≡ false
      → (is_no_exc e && not tx.force_rollback) ≡ false
      → status s ≡ intrans
      → status s' ≢ idle
      → frames s' ≡ (n, d) ∷ frames s
      → base s' ≡ base s
      → Left names s d
          (swallows e (entered_block tx false n))
          (exit srv e (at (n ∷ names) s') (entered_block tx false n))
  unfolding exit rollback_block leave_top leave_commands rollback_commands finish
  leave-inner_back names s s' d n e tx named back was busy fr ba =
      let q = rollback_to_law s' n d (frames s) busy fr in
      let p = release_law (exec (rollback_to n) s').1 n d (frames s) q.1 (q.3 ∙ fr) in
      rw back (
        rw (===_refl n) (
          rw named (
            rw
              (exec-first (rollback_to n) (release n ∷ []) s' q.0
                ∙ exec-one (release n) (exec (rollback_to n) s').1 p.0)
              (record {
                ends = refl;
                names_left = refl;
                status_left = p.1 ∙ sym was;
                view_left = p.2 ∙ q.2;
                frames_left = p.3;
                base_left = p.4 ∙ q.4 ∙ ba;
              }))))

  pub leave-outer_commit :
      (s s' : State) (n : Bytes) (tx : Transaction)
      → tx.force_rollback ≡ false
      → status s ≡ idle
      → frames s ≡ []
      → base s ≡ none
      → status s' ≡ intrans
      → Left [] s (view s') false (exit srv no_exc (at (n ∷ []) s') (entered_block tx true n))
  unfolding exit commit_block leave_top leave_commands commit_commands finish
  leave-outer_commit s s' n tx keep was fr ba working =
      let p = commit_law s' working in
      let no_release : (not (is_nil n) && false) ≡ false = and-false (not (is_nil n)) in
      rw keep (
        rw (===_refl n) (
          rw no_release (
            rw (exec-one commit s' p.0) (record {
              ends = refl;
              names_left = refl;
              status_left = p.1 ∙ sym was;
              view_left = p.2;
              frames_left = p.3 ∙ sym fr;
              base_left = p.4 ∙ sym ba;
            }))))
    where
      and-false : (b : Bool) → (b && false) ≡ false
      and-false true = refl
      and-false false = refl

  pub leave-outer_back :
      (s s' : State) (d : Data) (n : Bytes) (e : Exc) (tx : Transaction)
      → (is_no_exc e && not tx.force_rollback) ≡ false
      → status s ≡ idle
      → frames s ≡ []
      → base s ≡ none
      → status s' ≢ idle
      → base s' ≡ some d
      → Left [] s d
          (swallows e (entered_block tx true n))
          (exit srv e (at (n ∷ []) s') (entered_block tx true n))
  unfolding exit rollback_block leave_top leave_commands rollback_commands finish
  leave-outer_back s s' d n e tx back was fr ba busy begun =
      let p = rollback_law s' d busy begun in
      let no_release : (not (is_nil n) && false) ≡ false = and-false (not (is_nil n)) in
      rw back (
        rw (===_refl n) (
          rw no_release (
            rw (exec-one rollback s' p.0) (record {
              ends = refl;
              names_left = refl;
              status_left = p.1 ∙ sym was;
              view_left = p.2;
              frames_left = p.3 ∙ sym fr;
              base_left = p.4 ∙ sym ba;
            }))))
    where
      and-false : (b : Bool) → (b && false) ≡ false
      and-false true = refl
      and-false false = refl
