-- ===== src/Cursor/Results/Count.antt =====
-- `rowcount` after `executemany` of psycopg3/psycopg3/cursor.py.
use psycopg.Prelude.{
  ℕ, ◌+◌, ◌≡◌, refl, ap, ◌∙◌, Bool, true, false, not, Option, none, some, List, [], ◌∷◌,
  if◌then◌else◌, map, arith, All,
}
use psycopg.Cursor.{
  Outcome, returned, failed, PgResult, Cursor, is_ok, any_status, add_count, reset, same_query,
  start_query, execute_results, take_results, execute_each, remember, executemany,
}

module _ (Row : Type 0) where
  -- The answer to one query: its results, the first apart.
  abbrev pub Answer : Type 0
  Answer = PgResult Row × List (PgResult Row)

  abbrev pub IsGood : Answer → Type 0
  IsGood (r, rs) = any_status Row (λ st. not (is_ok Row st)) (r ∷ rs) ≡ false

  abbrev pub answer : Answer → Option (List (PgResult Row))
  answer (r, rs) = some (r ∷ rs)

  -- The sum of the numbers that the first results tell, `none` if none does.
  abbrev or_zero : Option ℕ → ℕ
  or_zero none = 0
  or_zero (some n) = n

  unfoldable pub sum_counts : List Answer → Option ℕ
  sum_counts [] = none
  sum_counts ((r, rs) ∷ answers) =
      let rest = sum_counts answers in
      elim r.command_tuples [ none ↦ rest | some n ↦ some (n + or_zero rest) ]

  add_sum :
      (count told : Option ℕ) (rest : Option ℕ)
      → add_count Row (add_count Row count told) rest
        ≡ add_count Row count (elim told [ none ↦ rest | some n ↦ some (n + or_zero rest) ])
  add_sum none none none = refl
  add_sum none none (some k) = refl
  add_sum none (some n) none = ap some (omega arith)
  add_sum none (some n) (some k) = refl
  add_sum (some m) none none = refl
  add_sum (some m) none (some k) = refl
  add_sum (some m) (some n) none = ap some (omega arith)
  add_sum (some m) (some n) (some k) = ap some (omega arith)

  good_results :
      (r : PgResult Row) (rs : List (PgResult Row)) (c : Cursor Row)
      → IsGood (r, rs)
      → execute_results Row (r ∷ rs) c ≡ (
        returned tt,
        record c {
          results = r ∷ rs;
          pgresult = some r;
          tx_result = some r;
          rowcount = add_count Row c.rowcount r.command_tuples;
        },
      )
  unfolding execute_results
  good_results r rs c h = rw h refl

  abbrev Counted : List Answer → Cursor Row → Type 0
  Counted answers c =
      (c' : Cursor Row) × (execute_each Row (map answer answers) (returned tt, c)
        ≡ (returned tt, c'))
      × (c'.rowcount ≡ add_count Row c.rowcount (sum_counts answers))

  each-Counted : (answers : List Answer) (c : Cursor Row) → All IsGood answers → Counted answers c
  unfolding execute_each take_results sum_counts
  each-Counted [] c h = (c, refl, refl)
  each-Counted ((r, rs) ∷ answers) c h =
      let next : Cursor Row = record c {
        results = r ∷ rs;
        pgresult = some r;
        tx_result = some r;
        rowcount = add_count Row c.rowcount r.command_tuples;
      } in
      let (c', e, n) = each-Counted answers next h.1 in
      (
        c',
        ap (execute_each Row (map answer answers)) (good_results r rs c h.0) ∙ e,
        n ∙ add_sum c.rowcount r.command_tuples (sum_counts answers),
      )

  started :
      (query : ℕ) (c : Cursor Row)
      → c.closed ≡ false
      → (c' : Cursor Row) × (start_query Row (some query) c ≡ (returned tt, c'))
        × (c'.rowcount ≡ none)
  unfolding start_query reset
  started query c h = go (same_query Row c.last_query (some query))
    where
      fresh : Cursor Row
      fresh = reset Row c

      other : Cursor Row
      other = record (reset Row c) { last_query = none; tx_result = none }

      decided : Bool → Outcome (Unit {0}) × Cursor Row
      decided b = if b then (returned tt, fresh) else (returned tt, other)

      go :
          (b : Bool)
          → (c' : Cursor Row) × ((if c.closed
                then (failed psycopg.Cursor.cursor_closed, c)
                else decided b)
              ≡ (returned tt, c'))
            × (c'.rowcount ≡ none)
      go true = (fresh, rw h refl, refl)
      go false = (other, rw h refl, refl)

  none-add : (count : Option ℕ) → add_count Row none count ≡ count
  none-add none = refl
  none-add (some n) = refl

  -- `executemany` on an open cursor, where every query has good results, raises nothing, and
  -- `rowcount` is the sum of what the first results of all the queries tell, or -1 if none tells
  -- anything.
  pub rowcount_lem :
      (query : ℕ) (answers : List Answer) (c : Cursor Row)
      → c.closed ≡ false
      → All IsGood answers
      → ((executemany Row query (map answer answers) c).0 ≡ returned tt)
        × ((executemany Row query (map answer answers) c).1.rowcount ≡ sum_counts answers)
  unfolding executemany remember
  rowcount_lem query answers c h good =
      let (s, begun, nothing) = started query c h in
      let (c', e, n) = each-Counted answers s good in
      let all =
        ap (λ x. remember Row query (execute_each Row (map answer answers) x)) begun
        ∙ ap (remember Row query) e in
      (
        ap (λ x. x.0) all,
        ap (λ x. x.1.rowcount) all
            ∙ n
            ∙ ap (λ o. add_count Row o (sum_counts answers)) nothing
            ∙ none-add (sum_counts answers),
      )
