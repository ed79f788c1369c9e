-- ===== src/Cursor/Fetch/Order.antt =====
-- Any calls of the fetching methods of psycopg3/psycopg3/cursor.py, one after the other.
use psycopg.Prelude.{◌≡◌, refl, ap, ◌∙◌, List, [], ◌∷◌, ◌++◌, length, drop, append-nil}
use psycopg.Cursor.{returned, PgResult, Cursor}
use psycopg.Cursor.Fetch.{
  Loaded, Request, all, fetch, fetch_each, then_rows, fetch-Gives, fetch-all,
}

module _ (Row : Type 0) where
  fetch_each-more :
      (q : Request Row) (qs : List (Request Row)) (c c' : Cursor Row) (rows rest : List Row)
      → fetch Row q c ≡ (returned rows, c')
      → fetch_each Row qs c' ≡ returned rest
      → fetch_each Row (q ∷ qs) c ≡ returned (rows ++ rest)
  unfolding fetch_each
  fetch_each-more q qs c c' rows rest e h =
      ap (λ x. then_rows Row x.0 (fetch_each Row qs x.1)) e ∙ ap (then_rows Row (returned rows)) h

  -- Where a result with rows is loaded, any calls of `fetchone` and `fetchmany`, of any sizes, with a
  -- `fetchall` at the end, raise nothing and give every row from the position on, once and in order.
  pub fetch_lem :
      (qs : List (Request Row)) (r : PgResult Row) (c : Cursor Row)
      → Loaded Row r c
      → fetch_each Row (qs ++ all ∷ []) c ≡ returned (drop c.pos r.rows)
  fetch_lem [] r c l =
      fetch_each-more all [] c (record c { pos = length r.rows }) (drop c.pos r.rows) []
        (fetch-all Row r c l) (unfold fetch_each in refl)
      ∙ ap returned (append-nil (drop c.pos r.rows))
  fetch_lem (q ∷ qs) r c l =
      let (rows, p, e, parts, small) = fetch-Gives Row r q c l in
      fetch_each-more q (qs ++ all ∷ []) c (record c { pos = p }) rows (drop p r.rows) e
        (fetch_lem qs r (record c { pos = p }) (l.0, l.1, l.2, small))
      ∙ ap returned parts
