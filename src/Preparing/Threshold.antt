-- ===== src/Preparing/Threshold.antt =====
-- When psycopg3/psycopg3/_preparing.py prepares a query that is executed again and again.
use psycopg.Prelude.{
  ℕ, zero, suc, ◌<◌, ◌≤◌, ◌≡◌, refl, ap, ◌∙◌, Bool, true, Option, none, some, ◌⊎◌, inl, inr, [],
  ◌∷◌, ◌++◌, Bytes, length, leb, ltb, ◌==◌, if◌then◌else◌, arith, length-append, Bool-cases,
}
use psycopg.Prelude.Equality.{===_refl}
use psycopg.Prelude.OrderedDict.{
  lookup, lookup-append_last, lookup-write_last, move_to_end-set, set-absent,
}
use psycopg.Preparing.Cache.{next_entry}
use psycopg.Preparing.{
  PrepareManager, Key, Entry, seen, prepared_as, Prepare, prepare_yes, prepare_no, prepare_should,
  tuples_ok, get, get_value, get_enabled, bump, first_entry, add_new, maintain, maintain_enabled,
  maintain_found, key_eq, is_cacheable,
}

-- One execution with no argument `prepare`, which returns rows.
execute_as : Key → (Prepare × Bytes) × PrepareManager → PrepareManager
execute_as key ((prep, name), m) = (maintain m key (tuples_ok ∷ []) prep name).1

pub execute_once : PrepareManager → Key → PrepareManager
unfolding execute_as
execute_once m key = execute_as key (get m key none)

pub execute_times : ℕ → PrepareManager → Key → PrepareManager
execute_times zero m key = m
execute_times (suc n) m key = execute_once (execute_times n m key) key

module _ (key : Key) (t : ℕ) where
  -- The entry of the query after `n` executions.
  Progress : ℕ → PrepareManager → Type 0
  Progress zero m = (lookup key m.prepared ≡ none) × (length m.prepared < m.prepared_max)
  Progress (suc n) m =
      ((lookup key m.prepared ≡ some (seen (suc n))) × (suc n ≤ t))
      ⊎ ((name : Bytes) × (lookup key m.prepared ≡ some (prepared_as name)) × (t < suc n))

  add_new-lookup :
      (m : PrepareManager) (prep : Prepare) (name : Bytes)
      → lookup key m.prepared ≡ none
      → length m.prepared < m.prepared_max
      → (lookup key (add_new m key prep name).1.prepared ≡ some (first_entry prep name))
        × ((add_new m key prep name).1.prepare_threshold ≡ m.prepare_threshold)
  unfolding add_new
  add_new-lookup m prep name h room =
      rw (set-absent key (first_entry prep name) m.prepared h, fits)
        (rw (lookup-append_last key key (first_entry prep name) m.prepared h, ===_refl key), refl)
    where
      fits : leb (length (m.prepared ++ (key, first_entry prep name) ∷ [])) m.prepared_max ≡ true
      fits = ground (arith, length-append {0} m.prepared ((key, first_entry prep name) ∷ []))

  maintain_once :
      (m : PrepareManager) (prep : Prepare) (name : Bytes) (o : Option Entry)
      → m.prepare_threshold ≡ some t
      → lookup key m.prepared ≡ o
      → (o ≡ none → length m.prepared < m.prepared_max)
      → (lookup key (maintain m key (tuples_ok ∷ []) prep name).1.prepared
          ≡ some (next_entry prep name o))
        × ((maintain m key (tuples_ok ∷ []) prep name).1.prepare_threshold ≡ some t)
  unfolding next_entry is_cacheable maintain maintain_enabled maintain_found
  maintain_once m prep name (some v) on h room = (
    rw (on, maintain, maintain_enabled)
        (rw (h, maintain_found)
          (rw (move_to_end-set key (bump prep name v) m.prepared)
            (rw (lookup-write_last key key (bump prep name v) m.prepared, ===_refl key)))),
    rw (on, maintain, maintain_enabled) (rw (h, maintain_found) on),
  )
  maintain_once m prep name none on h room =
      rw (on, maintain, maintain_enabled)
        (rw (h, maintain_found)
          (let r = add_new-lookup m prep name h (room refl) in (r.0, r.1 ∙ on)))

  -- What `get` answers, by the entry.
  answer : Option Entry → Prepare
  answer (some (prepared_as name)) = prepare_yes
  answer (some (seen n)) = if leb t n then prepare_should else prepare_no
  answer none = if leb t 0 then prepare_should else prepare_no

  get-answer :
      (m : PrepareManager) (o : Option Entry)
      → m.prepare_threshold ≡ some t
      → lookup key m.prepared ≡ o
      → (get m key none).0.0 ≡ answer o
  unfolding get get_enabled get_value answer
  get-answer m (some (prepared_as n)) on h = rw (on, get, get_enabled) (rw (h, get_value))
  get-answer m (some (seen n)) on h = rw (on, get, get_enabled) (rw (h, get_value) (ground arith))
  get-answer m none on h = rw (on, get, get_enabled) (rw (h, get_value) (ground arith))

  -- `get` changes only the counter.
  get_keeps :
      (m : PrepareManager) (prepare_arg : Option Bool)
      → ((get m key prepare_arg).1.prepared ≡ m.prepared)
        × ((get m key prepare_arg).1.prepare_threshold ≡ m.prepare_threshold)
        × ((get m key prepare_arg).1.prepared_max ≡ m.prepared_max)
  unfolding get get_enabled get_value
  get_keeps m prepare_arg = ground arith

  execute_once_lem :
      (m : PrepareManager) (o : Option Entry)
      → m.prepare_threshold ≡ some t
      → lookup key m.prepared ≡ o
      → (o ≡ none → length m.prepared < m.prepared_max)
      → ((name : Bytes) × (lookup key (execute_once m key).prepared
            ≡ some (next_entry (answer o) name o)))
        × ((execute_once m key).prepare_threshold ≡ some t)
  unfolding execute_once
  execute_once_lem m o on h room =
      let kept = get_keeps m none in
      let once =
        maintain_once (get m key none).1 (get m key none).0.0 (get m key none).0.1 o (kept.1 ∙ on)
          (ap (lookup key) kept.0 ∙ h) (λ e. rw (kept.0, kept.2) (room e)) in
      (
        (
          (get m key none).0.1,
          once.0 ∙ ap (λ p. some (next_entry p (get m key none).0.1 o)) (get-answer m o on h),
        ),
        once.1,
      )

  next-Progress :
      (n : ℕ) (m : PrepareManager)
      → m.prepare_threshold ≡ some t
      → Progress n m
      → ((execute_once m key).prepare_threshold ≡ some t) × Progress (suc n) (execute_once m key)
  unfolding Progress answer next_entry bump first_entry
  next-Progress zero m on (h, room) =
      let ((name, e), on') = execute_once_lem m none on h (λ _. room) in
      (
        on',
        elim (Bool-cases (leb t 0)) [
          | inl due ↦ inr (name, ground (arith, e), ground arith)
          | inr early ↦ inl (ground (arith, e), ground arith)
        ],
      )
  next-Progress (suc n) m on (inl (h, le)) =
      let ((name, e), on') = execute_once_lem m (some (seen (suc n))) on h (λ x. cc) in
      (
        on',
        elim (Bool-cases (leb t (suc n))) [
          | inl due ↦ inr (name, ground (arith, e), ground arith)
          | inr early ↦ inl (ground (arith, e), ground arith)
        ],
      )
  next-Progress (suc n) m on (inr (old, h, lt)) =
      let ((name, e), on') = execute_once_lem m (some (prepared_as old)) on h (λ x. cc) in
      (on', inr (old, e, omega arith))

  execute_times-Progress :
      (n : ℕ) (m : PrepareManager)
      → m.prepare_threshold ≡ some t
      → Progress 0 m
      → ((execute_times n m key).prepare_threshold ≡ some t) × Progress n (execute_times n m key)
  unfolding execute_times
  execute_times-Progress zero m on p = (on, p)
  execute_times-Progress (suc n) m on p =
      let (on', p') = execute_times-Progress n m on p in
      next-Progress n (execute_times n m key) on' p'

  Progress-answer :
      (n : ℕ) (m : PrepareManager)
      → m.prepare_threshold ≡ some t
      → Progress n m
      → (get m key none).0.0
        ≡ (if ltb n t then prepare_no else if n == t then prepare_should else prepare_yes)
  unfolding Progress answer
  Progress-answer zero m on (h, room) = ground (arith, get-answer m none on h)
  Progress-answer (suc n) m on (inl (h, le)) =
      ground (arith, get-answer m (some (seen (suc n))) on h)
  Progress-answer (suc n) m on (inr (name, h, lt)) =
      ground (arith, get-answer m (some (prepared_as name)) on h)

  -- A query that is not in the cache, which has room for it, is executed without preparing as
  -- many times as the threshold says, then prepared, and sent by its name ever after.
  pub threshold_exact :
      (n : ℕ) (m : PrepareManager)
      → m.prepare_threshold ≡ some t
      → lookup key m.prepared ≡ none
      → length m.prepared < m.prepared_max
      → (get (execute_times n m key) key none).0.0
        ≡ (if ltb n t then prepare_no else if n == t then prepare_should else prepare_yes)
  unfolding Progress
  threshold_exact n m on h room =
      let (on', p) = execute_times-Progress n m on (h, room) in
      Progress-answer n (execute_times n m key) on' p
