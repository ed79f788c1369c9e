-- ===== src/Protocol/Execute.antt =====
-- `execute` of psycopg3/psycopg3/generators.py ends, and gives the results of the query.
use psycopg.Prelude.{
  ℕ, suc, ◌+◌, ◌≤◌, ◌≡◌, refl, ap, ◌∙◌, true, false, Option, none, some, List, [], ◌∷◌,
  if◌then◌else◌, arith, inl, inr,
}
use psycopg.Protocol.{Libpq, send, fetch, fetch_many, execute, is_copy_status, by_answer, add_first}
use psycopg.Protocol.Behaviour.{
  Behaves, Replies, ends, copies, gives, all_results, BeginsCopy, IsOther,
}
use psycopg.Preparing.{
  ExecStatus, copy_in, copy_out, copy_both, empty_query, command_ok, tuples_ok, bad_response,
  nonfatal_error, fatal_error, single_tuple,
}
use psycopg.Protocol.Loops.{Gives, Gives-end, Gives-next, send_total, fetch_total}

module _ (l : Libpq) (b : Behaves l) where
  open l use {Conn, get_result, status}

  answered : Option ℕ → Conn → (ℕ → Option (List ℕ × Conn)) → Option (List ℕ × Conn)
  answered none c more = some ([], c)
  answered (some r) c more =
      if is_copy_status (status r) then some (r ∷ [], c) else add_first r (more r)

  fetch_many-round :
      (inner f : ℕ) (c : Conn) (a : Option ℕ) (answer : Option ℕ × Conn)
      → fetch l inner c ≡ some answer
      → answer.0 ≡ a
      → fetch_many l inner (suc f) c ≡ answered a answer.1 (λ r. fetch_many l inner f answer.1)
  unfolding fetch_many answered
  fetch_many-round inner f c none answer h e =
      rw (h, fetch_many)
        (ap
          (λ o.
            by_answer (o, answer.1) (λ c'. some ([], c'))
              (λ r c'.
                if is_copy_status (status r)
                then some (r ∷ [], c')
                else add_first r (fetch_many l inner f c')))
          e)
  fetch_many-round inner f c (some r) answer h e =
      rw (h, fetch_many)
        (ap
          (λ o.
            by_answer (o, answer.1) (λ c'. some ([], c'))
              (λ r c'.
                if is_copy_status (status r)
                then some (r ∷ [], c')
                else add_first r (fetch_many l inner f c')))
          e)

  copy_status : (st : ExecStatus) → BeginsCopy st → is_copy_status st ≡ true
  unfolding is_copy_status
  copy_status st (inl h) = rw h refl
  copy_status st (inr (inl h)) = rw h refl
  copy_status st (inr (inr h)) = rw h refl

  other_status : (st : ExecStatus) → IsOther st → is_copy_status st ≡ false
  unfolding is_copy_status
  other_status copy_in (a, b, c) = absurd (a refl)
  other_status copy_out (a, b, c) = absurd (b refl)
  other_status copy_both (a, b, c) = absurd (c refl)
  other_status empty_query h = refl
  other_status command_ok h = refl
  other_status tuples_ok h = refl
  other_status bad_response h = refl
  other_status nonfatal_error h = refl
  other_status fatal_error h = refl
  other_status single_tuple h = refl

  abbrev FetchesMany : Conn → Replies → Type 0
  FetchesMany c rs =
      (k : ℕ) × (c' : Conn) × ((inner f : ℕ)
        → k ≤ inner
        → k ≤ f
        → fetch_many l inner f c ≡ some (all_results rs, c'))

  answered-copy :
      (r : ℕ) (c : Conn) (more : ℕ → Option (List ℕ × Conn))
      → is_copy_status (status r) ≡ true
      → answered (some r) c more ≡ some (r ∷ [], c)
  unfolding answered
  answered-copy r c more h = rw h refl

  answered-more :
      (r : ℕ) (rs : List ℕ) (c c' : Conn) (more : ℕ → Option (List ℕ × Conn))
      → is_copy_status (status r) ≡ false
      → more r ≡ some (rs, c')
      → answered (some r) c more ≡ some (r ∷ rs, c')
  unfolding answered
  answered-more r rs c c' more h e = rw h (ap (add_first r) e)

  -- A round that gets the last answer, and one that goes on.
  round_ends :
      (k inner : ℕ) (c c1 : Conn) (a : Option ℕ) (rs : List ℕ)
      → fetch l inner c ≡ some (get_result c1)
      → (get_result c1).0 ≡ a
      → ((more : ℕ → Option (List ℕ × Conn))
          → answered a (get_result c1).1 more ≡ some (rs, (get_result c1).1))
      → Gives (suc k) (λ f. fetch_many l inner f c) (rs, (get_result c1).1)
  round_ends k inner c c1 a rs fetched is last =
      Gives-end k (λ f. fetch_many l inner f c) (rs, (get_result c1).1)
        λ f.
          fetch_many-round inner f c a (get_result c1) fetched is
          ∙ last (λ r. fetch_many l inner f (get_result c1).1)

  round_goes_on :
      (k m inner r : ℕ) (c c1 c2 : Conn) (rs : List ℕ)
      → fetch l inner c ≡ some (get_result c1)
      → (get_result c1).0 ≡ some r
      → is_copy_status (status r) ≡ false
      → Gives m (λ f. fetch_many l inner f (get_result c1).1) (rs, c2)
      → Gives (suc (k + m)) (λ f. fetch_many l inner f c) (r ∷ rs, c2)
  round_goes_on k m inner r c c1 c2 rs fetched is going others =
      let next = (get_result c1).1 in
      Gives-next (k + m) (λ f. fetch_many l inner f c)
        (λ f. answered (some r) next (λ r. fetch_many l inner f next)) (r ∷ rs, c2)
        (λ f. fetch_many-round inner f c (some r) (get_result c1) fetched is)
        (λ f e.
          answered-more r rs next c2 (λ r. fetch_many l inner f next) going
            (others f (omega (arith, e))))

  fetch_many_total : (rs : Replies) (c : Conn) → b.replies c ≡ rs → FetchesMany c rs
  unfolding answered
  fetch_many_total ends c h =
      let (k, c1, fetched, ready, same) = fetch_total l b c in
      let nothing = b.reply_ends c1 ready (same ∙ h) in
      (
        suc k,
        (get_result c1).1,
        λ inner f e.
            round_ends k inner c c1 none [] (fetched inner (omega (arith, e))) nothing
              (λ more. refl) f,
      )
  fetch_many_total (copies r) c h =
      let (k, c1, fetched, ready, same) = fetch_total l b c in
      let (copy, begins) = b.reply_copies c1 r ready (same ∙ h) in
      (
        suc k,
        (get_result c1).1,
        λ inner f e.
            round_ends k inner c c1 (some r) (r ∷ []) (fetched inner (omega (arith, e))) copy
              (λ more. answered-copy r (get_result c1).1 more (copy_status (status r) begins)) f,
      )
  fetch_many_total (gives r rs) c h =
      let (k, c1, fetched, ready, same) = fetch_total l b c in
      let (first, other, left) = b.reply_gives c1 r rs ready (same ∙ h) in
      let (m, c2, others) = fetch_many_total rs (get_result c1).1 left in
      (
        suc (k + m),
        c2,
        λ inner f e.
            round_goes_on k m inner r c c1 c2 (all_results rs) (fetched inner (omega (arith, e)))
              first (other_status (status r) other) (λ f' e'. others inner f' (omega (arith, e)) e')
              f,
      )

  execute-parts :
      (f : ℕ) (c sent : Conn) {x : List ℕ × Conn}
      → send l f c ≡ some sent
      → fetch_many l f f sent ≡ some x
      → execute l f c ≡ some x
  unfolding execute
  execute-parts f c sent h k = rw (h, execute) k

-- Where libpq and the server behave, executing a query that has been handed to libpq ends, however
-- many waits it takes until the query is sent and each result has come, and whatever notifies come:
-- there is fuel that is enough, and with that and any more the results are those of the query in
-- order, all of them, or up to the first that begins a COPY, whatever libpq would give after it.
pub execute_lem :
    (l : Libpq) (b : Behaves l) (c : l.Conn)
    → (k : ℕ) × (c' : l.Conn) × ((fuel : ℕ)
        → k ≤ fuel
        → execute l fuel c ≡ some (all_results (b.replies c), c'))
execute_lem l b c =
    let (n, in_time) = b.sent_in_time c in
    let (sent, given, same) = send_total l b n c in_time in
    let (k, c', fetched) = fetch_many_total l b (b.replies c) sent same in
    (
      suc n + k,
      c',
      λ fuel e.
          execute-parts l b fuel c sent (given fuel (omega (arith, e)))
            (fetched fuel fuel (omega (arith, e)) (omega (arith, e))),
    )
