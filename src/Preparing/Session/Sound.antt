-- ===== src/Preparing/Session/Sound.antt =====
-- A name of the cache is always the name of that very statement on the server.
use psycopg.Prelude.{
  ℕ, ◌+◌, ◌<◌, ◌≡◌, refl, ◌∙◌, Bool, true, false, Option, none, some, inl, inr, List, [], ◌∷◌,
  Bytes, leb, if◌then◌else◌, arith, Bool-cases, subst, ◌||◌,
}
use psycopg.Prelude.Equality.{◌===◌, ===_refl}
use psycopg.Prelude.OrderedDict.{lookup}
use psycopg.Preparing.{
  PrepareManager, Key, Entry, seen, prepared_as, prepare_no, prepare_should, ExecStatus, is_false,
  is_true, or_unseen, statement_name, get, get_value, get_enabled, key_eq, bytes_eq,
}
use psycopg.Preparing.Session.{
  Server, Session, Request, Execution, sent_prepared, send, send_as, send_prepare, complete,
  complete_sent, maybe_prepare, run_all,
}
use psycopg.Preparing.Session.Agreement.{
  statement_name-injective, sent-injective, Named, Agrees, SessionAgrees, FitsRequest,
  maintain-Agrees, Agrees-run,
}

module _ (srv : Server) where
  open srv use {
    State, statement, prepare, exec_command, run, statement-prepare, statement-deallocate,
    statement-run,
  }

  -- What a request carries after it was sent.
  abbrev RequestFits : Key → Option (Request srv) × Session srv → Type 0
  RequestFits key (none, w) = SessionAgrees srv w
  RequestFits key (some r, w) =
      SessionAgrees srv w
      × FitsRequest srv w.manager.prepared_idx w.state key r.prep r.name
      × ((n : Bytes) → r.sent ≡ sent_prepared n → statement w.state n ≡ some key)

  send_prepare-Fits :
      (m : PrepareManager) (s : State) (key : Key) (accepted : Bool)
      → Agrees srv m s
      → RequestFits key (
          send_prepare srv
            (record m { prepared_idx = m.prepared_idx + 1 })
            s
            key
            accepted
            (statement_name m.prepared_idx))
  unfolding send_prepare
  send_prepare-Fits m s key false a = record {
    distinct = a.distinct;
    named = λ k n h. let (e, r) = a.named k n h in (e, (r.0, omega (arith, r.1), r.2));
  }
  send_prepare-Fits m s key true a = (
    record { distinct = a.distinct; named = named },
    λ _. (fresh_name, (m.prepared_idx, omega arith, refl)),
    λ n e. subst (λ j. statement (prepare s new key) j ≡ some key) (sent-injective e) fresh_name,
  )
    where
      new : Bytes
      new = statement_name m.prepared_idx

      fresh_name : statement (prepare s new key) new ≡ some key
      fresh_name = rw (statement-prepare s new key new, ===_refl new)

      unlike :
          (n : Bytes)
          → (i : ℕ) × (i < m.prepared_idx) × (n ≡ statement_name i)
          → (new === n) ≡ false
      unlike n (i, lt, same) = elim (Bool-cases (new === n)) [
        | inl eq ↦
            let index : m.prepared_idx ≡ i =
              statement_name-injective m.prepared_idx i ((bytes_eq.beq_iff new n).0 eq ∙ same) in
            absurd (omega arith)
        | inr ne ↦ ne
      ]

      named :
          (k : Key) (n : Bytes)
          → lookup k m.prepared ≡ some (prepared_as n)
          → Named srv (m.prepared_idx + 1) (prepare s new key) k n
      named k n h =
          let (e, r) = a.named k n h in
          (rw (statement-prepare s new key n, unlike n r) e, (r.0, omega (arith, r.1), r.2))

  unprepared-Fits :
      (m : PrepareManager) (s : State) (key : Key) (threshold : ℕ) (prepare_arg : Option Bool)
      (accepted : Bool) (n : ℕ)
      → Agrees srv m s
      → RequestFits key (send_as srv s key accepted (get_value m threshold prepare_arg (seen n)))
  unfolding send_as get_value
  unprepared-Fits m s key threshold prepare_arg accepted n a =
      go (leb threshold n || is_true prepare_arg)
    where
      go :
          (b : Bool)
          → RequestFits key (
              send_as srv s key accepted (
                if b
                then (
                  (prepare_should, statement_name m.prepared_idx),
                  record m { prepared_idx = m.prepared_idx + 1 },
                )
                else ((prepare_no, []), m)))
      go true = send_prepare-Fits m s key accepted a
      go false = (a, λ e. cc, λ n' e. cc)

  send_value-Fits :
      (m : PrepareManager) (s : State) (key : Key) (threshold : ℕ) (prepare_arg : Option Bool)
      (accepted : Bool) (o : Option Entry)
      → Agrees srv m s
      → lookup key m.prepared ≡ o
      → RequestFits key
          (send_as srv s key accepted (get_value m threshold prepare_arg (or_unseen o)))
  unfolding send_as get_value
  send_value-Fits m s key threshold prepare_arg accepted (some (prepared_as old)) a h = (
    a,
    λ e. cc,
    λ n e. subst (λ j. statement s j ≡ some key) (sent-injective e) (a.named key old h).0,
  )
  send_value-Fits m s key threshold prepare_arg accepted (some (seen n)) a h =
      unprepared-Fits m s key threshold prepare_arg accepted n a
  send_value-Fits m s key threshold prepare_arg accepted none a h =
      unprepared-Fits m s key threshold prepare_arg accepted 0 a

  send-Fits :
      (w : Session srv) (key : Key) (prepare_arg : Option Bool) (accepted : Bool)
      → SessionAgrees srv w
      → RequestFits key (send srv w key prepare_arg accepted)
  unfolding send get get_enabled
  send-Fits w key prepare_arg accepted a = go w.manager.prepare_threshold
    where
      go :
          (t : Option ℕ)
          → RequestFits key
              (send_as srv w.state key accepted (get_enabled w.manager key prepare_arg t))
      go none = unfold send_as in (a, λ e. cc, λ n e. cc)
      go (some threshold) = elim (Bool-cases (is_false prepare_arg)) [
        | inl off ↦ rw off (unfold send_as in (a, λ e. cc, λ n e. cc))
        | inr on ↦ rw on (
            send_value-Fits w.manager w.state key threshold prepare_arg accepted
              (lookup key w.manager.prepared) a refl)
      ]

  complete-Agrees :
      (w : Session srv) (key : Key) (prepare_arg : Option Bool) (results : List ExecStatus)
      (r : Request srv)
      → SessionAgrees srv w
      → FitsRequest srv w.manager.prepared_idx w.state key r.prep r.name
      → SessionAgrees srv (complete srv w key prepare_arg results r)
  unfolding complete
  complete-Agrees w key prepare_arg results r a f = elim (Bool-cases (is_false prepare_arg)) [
    | inl off ↦ rw off (Agrees-run srv w.manager w.state a)
    | inr on ↦ rw on (
        maintain-Agrees srv w.manager (run w.state) key results r.prep r.name
          (Agrees-run srv w.manager w.state a)
          (λ e. (statement-run w.state r.name ∙ (f e).0, (f e).1)))
  ]

  maybe_prepare-Agrees :
      (w : Session srv) (key : Key) (prepare_arg : Option Bool) (accepted : Bool)
      (results : List ExecStatus)
      → SessionAgrees srv w
      → SessionAgrees srv (maybe_prepare srv w key prepare_arg accepted results)
  unfolding maybe_prepare
  maybe_prepare-Agrees w key prepare_arg accepted results a =
      go (send srv w key prepare_arg accepted) (send-Fits w key prepare_arg accepted a)
    where
      go :
          (p : Option (Request srv) × Session srv)
          → RequestFits key p
          → SessionAgrees srv (complete_sent srv key prepare_arg results p)
      go (none, w') f = unfold complete_sent in f
      go (some r, w') f =
          unfold complete_sent in complete-Agrees w' key prepare_arg results r f.0 f.1

  -- Whatever is executed, with whatever outcomes, the cache and the server go on agreeing.
  pub run_all-Agrees :
      (w : Session srv) (xs : List Execution)
      → SessionAgrees srv w
      → SessionAgrees srv (run_all srv w xs)
  unfolding run_all
  run_all-Agrees w [] a = a
  run_all-Agrees w (x ∷ xs) a =
      run_all-Agrees (maybe_prepare srv w x.key x.prepare_arg x.accepted x.results) xs
        (maybe_prepare-Agrees w x.key x.prepare_arg x.accepted x.results a)

  -- After any history from a session where cache and server agree, a query that is sent by the
  -- name of a prepared statement finds a statement of that name on the server, and it is that
  -- query with those types.
  pub sent_name_is_prepared :
      (w : Session srv) (xs : List Execution) (key : Key) (prepare_arg : Option Bool)
      (accepted : Bool) (r : Request srv) (name : Bytes)
      → SessionAgrees srv w
      → (send srv (run_all srv w xs) key prepare_arg accepted).0 ≡ some r
      → r.sent ≡ sent_prepared name
      → statement (send srv (run_all srv w xs) key prepare_arg accepted).1.state name ≡ some key
  sent_name_is_prepared w xs key prepare_arg accepted r name a =
      go (send srv (run_all srv w xs) key prepare_arg accepted)
        (send-Fits (run_all srv w xs) key prepare_arg accepted (run_all-Agrees w xs a))
    where
      go :
          (p : Option (Request srv) × Session srv)
          → RequestFits key p
          → p.0 ≡ some r
          → r.sent ≡ sent_prepared name
          → statement p.1.state name ≡ some key
      go (none, w') f h e = cc
      go (some q, w') f h e = f.2 name (cc)
