-- ===== src/Transaction/Atomic.antt =====
-- A transaction block of psycopg3/psycopg3/transaction.py keeps all that its body did, or nothing.
use psycopg.Prelude.{
  ◌≡◌, ◌≢◌, refl, sym, ap, ◌∙◌, subst, Bool, true, false, none, some, [], ◌∷◌, Bytes, length, ◌&&◌,
  not, ◌⊎◌, inl, inr,
}
use psycopg.Pool.Client.{idle, intrans}
use psycopg.Transaction.Backend.{savepoint, Server}
use psycopg.Transaction.{
  Transaction, Exc, no_exc, other_exc, rollback_exc, Ending, done, swallows, Conn, enter, is_no_exc,
  exit,
}
use psycopg.Transaction.Block.{
  entered_block, inner_name, inner_name-named, at, enter-inner, enter-outer, Left,
  leave-inner_commit, leave-inner_back, leave-outer_commit, leave-outer_back,
}

module _ (srv : Server) where
  open srv use {State, Data, status, view, frames, base, exec, savepoint_law}

  -- Where a block may be entered: in no transaction, with no savepoints, or in one that is in order.
  abbrev pub IsReady : Conn srv → Type 0
  IsReady c =
      ((status c.state ≡ idle)
        × (c.savepoints ≡ [])
        × (frames c.state ≡ [])
        × (base c.state ≡ none))
      ⊎ (status c.state ≡ intrans)

  -- What a body has to keep, between the connection that it finds and the one that it leaves: the
  -- savepoints and the transaction.  A block inside does, by what follows here.
  abbrev pub Keeps : Conn srv → Conn srv → Type 0
  Keeps c c' =
      (c'.savepoints ≡ c.savepoints)
      × (frames c'.state ≡ frames c.state)
      × (base c'.state ≡ base c.state)

  abbrev Outcome :
      Conn srv → (Ending × Conn srv × Transaction) → Conn srv → Exc → Data → Bool → Type 0
  Outcome c r c' e d b = Left srv c.savepoints c.state d b (exit srv e c' r.2)

  -- A block that was entered is left as its parts say.
  closing :
      (c c' : Conn srv) (tx : Transaction) (e : Exc) (d : Data) (b outer : Bool) (n : Bytes)
      (s' : State)
      → enter srv c tx ≡ (done true, at srv (n ∷ c.savepoints) s', entered_block tx outer n)
      → Keeps (enter srv c tx).1 c'
      → Left srv c.savepoints c.state d b
          (exit srv e (at srv (n ∷ c.savepoints) c'.state) (entered_block tx outer n))
      → Outcome c (enter srv c tx) c' e d b
  closing c c' tx e d b outer n s' opened kept left =
      let names : c'.savepoints ≡ n ∷ c.savepoints = kept.0 ∙ ap (λ r. r.1.savepoints) opened in
      subst (λ r. Outcome c r c' e d b) (sym opened)
        (subst
          (λ l.
            Left srv c.savepoints c.state d b
              (exit srv e (at srv l c'.state) (entered_block tx outer n)))
          (sym names) left)

  -- The same for the other parts of what was kept.
  kept_frames :
      (c c' : Conn srv) (tx : Transaction) {r : Ending × Conn srv × Transaction}
      → enter srv c tx ≡ r
      → Keeps (enter srv c tx).1 c'
      → (frames c'.state ≡ frames r.1.state) × (base c'.state ≡ base r.1.state)
  kept_frames c c' tx opened kept =
      (kept.1 ∙ ap (λ r. frames r.1.state) opened, kept.2 ∙ ap (λ r. base r.1.state) opened)

  swallows-entered :
      (e : Exc) (tx : Transaction) (outer : Bool) (n : Bytes)
      → swallows e (entered_block tx outer n) ≡ swallows e tx
  unfolding swallows
  swallows-entered no_exc tx outer n = refl
  swallows-entered other_exc tx outer n = refl
  swallows-entered (rollback_exc none) tx outer n = refl
  swallows-entered (rollback_exc (some i)) tx outer n = refl

  outer_opened :
      (c : Conn srv) (tx : Transaction) (s' : State)
      → c.savepoints ≡ []
      → enter srv (at srv [] c.state) tx
        ≡ (done true, at srv (tx.savepoint_name ∷ []) s', entered_block tx true tx.savepoint_name)
      → enter srv c tx ≡ (
        done true,
        at srv (tx.savepoint_name ∷ c.savepoints) s',
        entered_block tx true tx.savepoint_name,
      )
  outer_opened c tx s' names =
      subst
        (λ l.
          enter srv (at srv l c.state) tx
          ≡ (done true, at srv (tx.savepoint_name ∷ l) s', entered_block tx true tx.savepoint_name))
        (sym names)

  -- Let a new block without `force_rollback` be entered in no transaction, with no savepoints, or in a
  -- transaction that is in order, and let its body keep the savepoints and the transaction and leave
  -- it in order.  Then leaving the block without an exception keeps what the body did: on the
  -- connection and on the server all else is as it was before the block, savepoints, transaction and
  -- status.
  pub block_commits :
      (c c' : Conn srv) (tx : Transaction)
      → IsReady c
      → tx.entered ≡ false
      → tx.force_rollback ≡ false
      → status c'.state ≡ intrans
      → Keeps (enter srv c tx).1 c'
      → Left srv c.savepoints c.state (view c'.state) false (exit srv no_exc c' (enter srv c tx).2)
  block_commits c c' tx (inr was) fresh keep working kept =
      let n = inner_name (length c.savepoints) tx.savepoint_name in
      let p = savepoint_law c.state n was in
      let opened = enter-inner srv c.savepoints c.state tx fresh was in
      let k = kept_frames c c' tx opened kept in
      closing c c' tx no_exc (view c'.state) false false n (exec (savepoint n) c.state).1 opened
        kept
        (leave-inner_commit srv c.savepoints c.state c'.state (view c.state) n tx
          (inner_name-named (length c.savepoints) tx.savepoint_name) keep was working (k.0 ∙ p.3)
          (k.1 ∙ p.4))
  block_commits c c' tx (inl (was, names, fr, ba)) fresh keep working kept =
      let n = tx.savepoint_name in
      let o = enter-outer srv c.state tx fresh was in
      let opened = outer_opened c tx o.0 names o.1.0 in
      closing c c' tx no_exc (view c'.state) false true n o.0 opened kept (
        subst
          (λ l.
            Left srv l c.state (view c'.state) false
              (exit srv no_exc (at srv (n ∷ l) c'.state) (entered_block tx true n)))
          (sym names) (leave-outer_commit srv c.state c'.state n tx keep was fr ba working))

  -- Let a new block be entered in no transaction, with no savepoints, or in a transaction that is in
  -- order, and let its body keep the savepoints and the transaction, which may have failed.  Then
  -- leaving the block with an exception, or with `force_rollback`, undoes what the body did: the
  -- data, and all else on the connection and on the server, is as it was before the block.  Only a
  -- `Rollback` for this block, or for none, is swallowed.
  pub block_rolls_back :
      (c c' : Conn srv) (tx : Transaction) (e : Exc)
      → IsReady c
      → tx.entered ≡ false
      → (is_no_exc e && not tx.force_rollback) ≡ false
      → status c'.state ≢ idle
      → Keeps (enter srv c tx).1 c'
      → Left srv c.savepoints c.state
          (view c.state)
          (swallows e tx)
          (exit srv e c' (enter srv c tx).2)
  block_rolls_back c c' tx e (inr was) fresh back busy kept =
      let n = inner_name (length c.savepoints) tx.savepoint_name in
      let p = savepoint_law c.state n was in
      let opened = enter-inner srv c.savepoints c.state tx fresh was in
      let k = kept_frames c c' tx opened kept in
      closing c c' tx e (view c.state) (swallows e tx) false n (exec (savepoint n) c.state).1 opened
        kept
        (subst
          (λ b.
            Left srv c.savepoints c.state (view c.state) b
              (exit srv e (at srv (n ∷ c.savepoints) c'.state) (entered_block tx false n)))
          (swallows-entered e tx false n)
          (leave-inner_back srv c.savepoints c.state c'.state (view c.state) n e tx
            (inner_name-named (length c.savepoints) tx.savepoint_name) back was busy (k.0 ∙ p.3)
            (k.1 ∙ p.4)))
  block_rolls_back c c' tx e (inl (was, names, fr, ba)) fresh back busy kept =
      let n = tx.savepoint_name in
      let o = enter-outer srv c.state tx fresh was in
      let opened = outer_opened c tx o.0 names o.1.0 in
      let k = kept_frames c c' tx opened kept in
      let left =
        leave-outer_back srv c.state c'.state (view c.state) n e tx back was fr ba busy
          (k.1 ∙ o.1.3) in
      closing c c' tx e (view c.state) (swallows e tx) true n o.0 opened kept (
        subst
          (λ l.
            Left srv l c.state (view c.state) (swallows e tx)
              (exit srv e (at srv (n ∷ l) c'.state) (entered_block tx true n)))
          (sym names)
          (subst
            (λ b.
              Left srv [] c.state (view c.state) b
                (exit srv e (at srv (n ∷ []) c'.state) (entered_block tx true n)))
            (swallows-entered e tx true n) left))
