-- ===== src/Preparing/Session/Agreement.antt =====
-- The cache and the server agree, and `maintain` of psycopg3/psycopg3/_preparing.py keeps it so.
use psycopg.Prelude.{
  ℕ, ◌<◌, ◌≡◌, refl, ◌∙◌, ap, Bool, true, false, none, some, inl, inr, List, [], ◌∷◌, ◌++◌, Bytes,
  codes, leb, if◌then◌else◌, drop, length, Bool-cases, subst,
}
use psycopg.Prelude.Equality.{◌===◌, ===_refl}
use psycopg.Prelude.Decimal.{decimal-injective}
use psycopg.Prelude.OrderedDict.{
  OrderedDict, lookup, set, erase, Distinct, lookup-set, lookup-write_last, move_to_end-set,
  Distinct-write_last, Distinct-set,
}
use psycopg.Preparing.{
  PrepareManager, Key, Entry, seen, prepared_as, Prepare, prepare_yes, prepare_no, prepare_should,
  ExecStatus, statement_name, bump, first_entry, evict, add_new, maintain, maintain_cases, key_eq,
  bytes_eq,
}
use psycopg.Preparing.Session.{Server, Session, sent_prepared, command}

pub statement_name-injective : (i j : ℕ) → statement_name i ≡ statement_name j → i ≡ j
unfolding statement_name
statement_name-injective i j h = decimal-injective i j (ap (drop 5) h)

prepared_as-injective : {m n : Bytes} → prepared_as m ≡ prepared_as n → m ≡ n
prepared_as-injective h = cc

pub sent-injective : {m n : Bytes} → sent_prepared m ≡ sent_prepared n → m ≡ n
sent-injective h = cc

module _ (srv : Server) where
  open srv use {
    State, statement, prepare, exec_command, run, statement-prepare, statement-deallocate,
    statement-run,
  }

  -- `n` is a name made by this manager, and the server's statement of that name is `k`.
  abbrev pub Named : ℕ → State → Key → Bytes → Type 0
  Named idx s k n = (statement s n ≡ some k) × ((i : ℕ) × (i < idx) × (n ≡ statement_name i))

  -- The cache and the server agree.
  pub record Agrees (m : PrepareManager) (s : State) : Type 0 where
    pub distinct : Distinct m.prepared
    pub named :
        (k : Key) (n : Bytes)
        → lookup k m.prepared ≡ some (prepared_as n)
        → Named m.prepared_idx s k n

  abbrev pub SessionAgrees : Session srv → Type 0
  SessionAgrees w = Agrees w.manager w.state

  -- An entry that may be written for `key`.
  abbrev Fits : ℕ → State → Key → Entry → Type 0
  Fits idx s key v = (n : Bytes) → v ≡ prepared_as n → Named idx s key n

  -- What a write for `key` leaves at `k`.
  named_either :
      (m : PrepareManager) (s : State) (key k : Key) (v : Entry) (n : Bytes)
      → Agrees m s
      → Fits m.prepared_idx s key v
      → (if key === k then some v else lookup k m.prepared) ≡ some (prepared_as n)
      → Named m.prepared_idx s k n
  named_either m s key k v n a f h = elim (Bool-cases (key === k)) [
    | inl same ↦
        subst (λ j. Named m.prepared_idx s j n) ((key_eq.beq_iff key k).0 same)
          (f n (let e : some v ≡ some (prepared_as n) = rw same at h in cc e))
    | inr other ↦ a.named k n (rw other at h)
  ]

  write_last-Agrees :
      (m : PrepareManager) (s : State) (key : Key) (v : Entry)
      → Agrees m s
      → Fits m.prepared_idx s key v
      → Agrees (record m { prepared = erase key m.prepared ++ (key, v) ∷ [] }) s
  write_last-Agrees m s key v a f = record {
    distinct = Distinct-write_last key v m.prepared a.distinct;
    named =
        λ k n h. named_either m s key k v n a f (rw (lookup-write_last key k v m.prepared) at h);
  }

  set-Agrees :
      (m : PrepareManager) (s : State) (key : Key) (v : Entry)
      → Agrees m s
      → Fits m.prepared_idx s key v
      → Agrees (record m { prepared = set key v m.prepared }) s
  set-Agrees m s key v a f = record {
    distinct = Distinct-set key v m.prepared a.distinct;
    named = λ k n h. named_either m s key k v n a f (rw (lookup-set key k v m.prepared) at h);
  }

  -- What is left without the oldest entry.
  rest_lookup :
      (j k : Key) (v w : Entry) (d : OrderedDict Key Entry)
      → lookup j d ≡ none
      → lookup k d ≡ some w
      → lookup k ((j, v) ∷ d) ≡ some w
  unfolding lookup
  rest_lookup j k v w d absent h = elim (Bool-cases (j === k)) [
    | inl same ↦ cc ((key_eq.beq_iff j k).0 same)
    | inr other ↦ rw other h
  ]

  lookup_head : (j : Key) (v : Entry) (d : OrderedDict Key Entry) → lookup j ((j, v) ∷ d) ≡ some v
  unfolding lookup
  lookup_head j v d = rw (===_refl j)

  deallocated_other :
      (m : PrepareManager) (s : State) (j : Key) (old : Bytes) (d : OrderedDict Key Entry)
      → Agrees (record m { prepared = (j, prepared_as old) ∷ d }) s
      → (k : Key) (n : Bytes) → lookup k d ≡ some (prepared_as n)
      → statement (exec_command s (codes "DEALLOCATE " ++ old)) n ≡ some k
  deallocated_other m s j old d a k n h =
      let here : statement s old ≡ some j = (a.named j old (lookup_head j (prepared_as old) d)).0 in
      let there : statement s n ≡ some k =
        (a.named k n (rest_lookup j k (prepared_as old) (prepared_as n) d a.distinct.0 h)).0 in
      rw (statement-deallocate s old n) (elim (Bool-cases (old === n)) [
        | inl same ↦ absurd (clash here there ((bytes_eq.beq_iff old n).0 same))
        | inr other ↦ rw other there
      ])
    where
      clash : statement s old ≡ some j → statement s n ≡ some k → old ≡ n → ⊥
      clash here there same = cc (here, there, same, a.distinct.0, h)

  evict-Agrees :
      (m : PrepareManager) (s : State) (d : OrderedDict Key Entry)
      → Agrees (record m { prepared = d }) s
      → SessionAgrees (command srv s (evict m d))
  unfolding evict command
  evict-Agrees m s [] a = a
  evict-Agrees m s ((j, seen n) ∷ d) a = record {
    distinct = a.distinct.1;
    named = λ k i h. a.named k i (rest_lookup j k (seen n) (prepared_as i) d a.distinct.0 h);
  }
  evict-Agrees m s ((j, prepared_as old) ∷ d) a = record {
    distinct = a.distinct.1;
    named = λ k n h. (
      deallocated_other m s j old d a k n h,
      (a.named k n (rest_lookup j k (prepared_as old) (prepared_as n) d a.distinct.0 h)).1,
    );
  }

  -- What may be written by `maintain` after the query was sent.
  abbrev pub FitsRequest : ℕ → State → Key → Prepare → Bytes → Type 0
  FitsRequest idx s key prep name = prep ≡ prepare_should → Named idx s key name

  first_entry-Fits :
      (idx : ℕ) (s : State) (key : Key) (prep : Prepare) (name : Bytes)
      → FitsRequest idx s key prep name
      → Fits idx s key (first_entry prep name)
  unfolding first_entry
  first_entry-Fits idx s key prepare_should name f n e =
      subst (Named idx s key) (prepared_as-injective e) (f refl)
  first_entry-Fits idx s key prepare_yes name f n e = cc
  first_entry-Fits idx s key prepare_no name f n e = cc

  bump-Fits :
      (idx : ℕ) (s : State) (key : Key) (prep : Prepare) (name : Bytes) (v : Entry)
      → FitsRequest idx s key prep name
      → Fits idx s key v
      → Fits idx s key (bump prep name v)
  unfolding bump
  bump-Fits idx s key prep name (prepared_as old) f g n e = g n e
  bump-Fits idx s key prepare_should name (seen c) f g n e =
      subst (Named idx s key) (prepared_as-injective e) (f refl)
  bump-Fits idx s key prepare_yes name (seen c) f g n e = cc
  bump-Fits idx s key prepare_no name (seen c) f g n e = cc

  add_new-Agrees :
      (m : PrepareManager) (s : State) (key : Key) (prep : Prepare) (name : Bytes)
      → Agrees m s
      → FitsRequest m.prepared_idx s key prep name
      → SessionAgrees (command srv s (add_new m key prep name))
  unfolding add_new
  add_new-Agrees m s key prep name a f = go (leb (length grown) m.prepared_max)
    where
      grown : OrderedDict Key Entry
      grown = set key (first_entry prep name) m.prepared

      agrees : Agrees (record m { prepared = grown }) s
      agrees =
          set-Agrees m s key (first_entry prep name) a
            (first_entry-Fits m.prepared_idx s key prep name f)

      go :
          (b : Bool)
          → SessionAgrees
              (command srv s (if b then (none, record m { prepared = grown }) else evict m grown))
      go true = unfold command in agrees
      go false = evict-Agrees m s grown agrees

  pub maintain-Agrees :
      (m : PrepareManager) (s : State) (key : Key) (results : List ExecStatus) (prep : Prepare)
      (name : Bytes)
      → Agrees m s
      → FitsRequest m.prepared_idx s key prep name
      → SessionAgrees (command srv s (maintain m key results prep name))
  maintain-Agrees m s key results prep name a f =
      maintain_cases (λ r. SessionAgrees (command srv s r)) m key results prep name
        (λ _. unfold command in a)
        (λ v h.
          unfold command in
          rw (move_to_end-set key (bump prep name v) m.prepared) (
            write_last-Agrees m s key (bump prep name v) a (
              bump-Fits m.prepared_idx s key prep name v f (λ n e. a.named key n (h ∙ ap some e)))))
        (λ _ _. add_new-Agrees m s key prep name a f)

  pub Agrees-run : (m : PrepareManager) (s : State) → Agrees m s → Agrees m (run s)
  Agrees-run m s a = record {
    distinct = a.distinct;
    named = λ k n h. (statement-run s n ∙ (a.named k n h).0, (a.named k n h).1);
  }
