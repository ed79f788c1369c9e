-- ===== src/Cursor/Results.antt =====
-- The results that a cursor of psycopg3/psycopg3/cursor.py goes through, and its position in one.
pub mod Count
use psycopg.Prelude.{
  ℕ, zero, suc, ◌+◌, ◌-◌, ◌≤◌, ◌<◌, ◌≡◌, ◌≢◌, refl, sym, ap, ◌∙◌, Bool, true, false, not, ◌||◌,
  Option, none, some, List, [], ◌∷◌, ◌++◌, length, drop, get_elem?, ltb, if◌then◌else◌, arith, All,
  Bool-cases, Option-cases, ltb→lt, inl, inr, ◌⊎◌,
}
use psycopg.Prelude.Int.{ℤ, pos, negsuc}
use psycopg.Preparing.{ExecStatus}
use psycopg.Cursor.{
  Outcome, returned, failed, position_out_of_bound, ScrollMode, relative, absolute, PgResult,
  Cursor, is_ok, any_status, add_count, execute_results, nextset, move_to, new_position, scroll,
  scroll_to, check_result, is_tuples, fetchone, load_row, advance_one, take_results, execute_each,
}
use psycopg.Cursor.Fetch.{Loaded, checked, fetchone-Loaded, drop-get_elem?}

-- Where a scroll from position p leads: q is `value` rows away from it, or the row `value`.
abbrev pub IsAt : ScrollMode → ℤ → ℕ → ℕ → Type 0
IsAt relative (pos n) p q = q ≡ p + n
IsAt relative (negsuc n) p q = q + suc n ≡ p
IsAt absolute (pos n) p q = q ≡ n
IsAt absolute (negsuc n) p q = ⊥

module _ (Row : Type 0) where
  -- `nextset` any number of times: the results that the cursor shows, as long as there are some.
  unfoldable pub show_each : ℕ → Cursor Row → List (Option (PgResult Row))
  show_each zero c = []
  show_each (suc n) c = (nextset Row c).1.pgresult ∷ show_each n (nextset Row c).1

  abbrev somes : List (PgResult Row) → List (Option (PgResult Row))
  somes [] = []
  somes (r ∷ rs) = some r ∷ somes rs

  get_elem?-lt : (i : ℕ) (l : List Row) → i < length l → (x : Row) × (get_elem? l i ≡ some x)
  get_elem?-lt i [] h = absurd (omega (arith, h))
  get_elem?-lt zero (x ∷ l) h = (x, refl)
  get_elem?-lt (suc i) (x ∷ l) h = get_elem?-lt i l (omega (arith, h))

  scroll-Loaded :
      (mode : ScrollMode) (value : ℤ) (r : PgResult Row) (c : Cursor Row)
      → Loaded Row r c
      → scroll Row mode value c ≡ scroll_to Row r c (new_position Row mode value c.pos)
  unfolding scroll
  scroll-Loaded mode value r c l =
      checked Row r c.pgresult c (λ x. scroll_to Row x c (new_position Row mode value c.pos)) l.0
        l.2

  new_position-IsAt :
      (mode : ScrollMode) (value : ℤ) (p q : ℕ)
      → new_position Row mode value p ≡ some q
      → IsAt mode value p q
  new_position-IsAt relative (pos n) p q h = ground arith
  new_position-IsAt relative (negsuc n) p q h = ground arith
  new_position-IsAt absolute (pos n) p q h = ground arith
  new_position-IsAt absolute (negsuc n) p q h = cc h

  IsAt-new_position :
      (mode : ScrollMode) (value : ℤ) (p q : ℕ)
      → IsAt mode value p q
      → new_position Row mode value p ≡ some q
  IsAt-new_position relative (pos n) p q h = ap some (omega (arith, h))
  IsAt-new_position relative (negsuc n) p q h = ground arith
  IsAt-new_position absolute (pos n) p q h = ap some (omega (arith, h))
  IsAt-new_position absolute (negsuc n) p q h = absurd h

  -- A scroll by or to an integer raises IndexError and changes nothing if no row of the result stands
  -- at the position that is so many rows behind or before the present one, or at that one of the
  -- result. Any other scroll moves to that position, and the next row to be fetched is the one there.
  pub scroll_lem :
      (mode : ScrollMode) (value : ℤ) (r : PgResult Row) (c : Cursor Row)
      → Loaded Row r c
      → ((scroll Row mode value c ≡ (failed position_out_of_bound, c))
          × ((p : ℕ) → IsAt mode value c.pos p → length r.rows ≤ p))
        ⊎ ((p : ℕ) × (row : Row) × IsAt mode value c.pos p
            × (scroll Row mode value c ≡ (returned tt, record c { pos = p }))
            × (get_elem? r.rows p ≡ some row)
            × (fetchone Row (record c { pos = p })
                ≡ (returned (some row), record c { pos = p + 1 })))
  unfolding scroll_to advance_one
  scroll_lem mode value r c l =
      let e = scroll-Loaded mode value r c l in
      elim (Option-cases (new_position Row mode value c.pos)) [
        | inl before ↦ inl (
          e ∙ ap (scroll_to Row r c) before,
          λ p there. cc (before, IsAt-new_position mode value c.pos p there),
        )
        | inr (p, there) ↦ elim (Bool-cases (ltb p (length r.rows))) [
          | inl inside ↦
              let (row, here) = get_elem?-lt p r.rows (ltb→lt p (length r.rows) inside) in
              let k : Loaded Row r (record c { pos = p }) =
                (l.0, l.1, l.2, omega (arith, ltb→lt p (length r.rows) inside)) in
              inr (
                p,
                row,
                new_position-IsAt mode value c.pos p there,
                e ∙ ap (scroll_to Row r c) there ∙ inside_moves r c p inside,
                here,
                fetchone-Loaded Row r (record c { pos = p }) k
                    ∙ ap (advance_one Row (record c { pos = p })) here,
              )
          | inr outside ↦ inl (
            e ∙ ap (scroll_to Row r c) there ∙ outside_fails r c p outside,
            λ q at.
                let other = some_same there (IsAt-new_position mode value c.pos q at) in
                ground (arith, other, outside),
          )
        ]
      ]
    where
      inside_moves :
          (r : PgResult Row) (c : Cursor Row) (p : ℕ)
          → ltb p (length r.rows) ≡ true
          → scroll_to Row r c (some p) ≡ (returned tt, record c { pos = p })
      inside_moves r c p h = rw h refl

      outside_fails :
          (r : PgResult Row) (c : Cursor Row) (p : ℕ)
          → ltb p (length r.rows) ≡ false
          → scroll_to Row r c (some p) ≡ (failed position_out_of_bound, c)
      outside_fails r c p h = rw h refl

      some_same : {o : Option ℕ} {p q : ℕ} → o ≡ some p → o ≡ some q → p ≡ q
      some_same a b = cc (a, b)

  nextset-moves :
      (c : Cursor Row) (r : PgResult Row)
      → get_elem? c.results (c.iresult + 1) ≡ some r
      → nextset Row c ≡ (
        some true,
        record c {
          iresult = c.iresult + 1;
          pgresult = some r;
          tx_result = some r;
          pos = 0;
          rowcount = r.command_tuples;
        },
      )
  unfolding nextset move_to
  nextset-moves c r h = ap (λ o. move_to Row o (record c { iresult = c.iresult + 1 })) h

  show-from :
      (rs : List (PgResult Row)) (c : Cursor Row)
      → drop (suc c.iresult) c.results ≡ rs
      → show_each (length rs) c ≡ somes rs
  unfolding show_each
  show-from [] c h = refl
  show-from (r ∷ rs) c h =
      let (here, rest) = drop-cons (suc c.iresult) c.results h in
      let next : c.iresult + 1 ≡ suc c.iresult = omega arith in
      let moves = nextset-moves c r (ap (get_elem? c.results) next ∙ here) in
      let after =
        show-from rs
          (record c {
            iresult = c.iresult + 1;
            pgresult = some r;
            tx_result = some r;
            pos = 0;
            rowcount = r.command_tuples;
          })
          (ap (λ n. drop (suc n) c.results) next ∙ rest) in
      ap (λ x. x.1.pgresult ∷ show_each (length rs) x.1) moves ∙ ap (λ l. some r ∷ l) after
    where
      drop-cons :
          {A : Type 0} {x : A} {xs : List A} (i : ℕ) (l : List A)
          → drop i l ≡ x ∷ xs
          → (get_elem? l i ≡ some x) × (drop (suc i) l ≡ xs)
      drop-cons zero [] h = cc h
      drop-cons zero (y ∷ l) h = (cc h, cc h)
      drop-cons (suc i) [] h = cc h
      drop-cons (suc i) (y ∷ l) h = drop-cons i l h

  -- After a query, all of whose results are good, on a cursor that was reset, the cursor shows the
  -- first, and `nextset` shows the others in turn.
  pub results_lem :
      (r : PgResult Row) (rs : List (PgResult Row)) (c : Cursor Row)
      → any_status Row (λ st. not (is_ok Row st)) (r ∷ rs) ≡ false
      → c.iresult ≡ 0
      → ((execute_results Row (r ∷ rs) c).1.pgresult ≡ some r)
        × (show_each (length rs) (execute_results Row (r ∷ rs) c).1 ≡ somes rs)
  unfolding execute_results
  results_lem r rs c good start = rw good (
    refl,
    show-from rs
        (record c {
          results = r ∷ rs;
          pgresult = some r;
          tx_result = some r;
          rowcount = add_count Row c.rowcount r.command_tuples;
        })
        (ap (λ n. drop (suc n) (r ∷ rs)) start),
  )
