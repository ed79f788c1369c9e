-- ===== src/Cursor/Fetch.antt =====
-- The fetching methods of psycopg3/psycopg3/cursor.py give every row of a result once, in order.
pub mod Order
use psycopg.Prelude.{
  ℕ, zero, suc, ◌+◌, ◌-◌, ◌≤◌, ◌<◌, ◌≡◌, refl, sym, ap, ◌∙◌, Bool, true, false, Option, none, some,
  List, [], ◌∷◌, ◌++◌, length, take, drop, get_elem?, leb, ltb, ◌==◌, if◌then◌else◌, ◌&&◌, arith,
  append-nil, append_assoc, Option-cases, inl, inr,
}
use Prim.Native.Nat.{min}
use psycopg.Preparing.{ExecStatus, tuples_ok}
use psycopg.Cursor.{
  Outcome, returned, failed, PgResult, Cursor, check_result, load_row, load_rows, advance_one,
  advance, fetchone, fetchmany, fetchall, is_tuples,
}

drop-nil {ℓ} : {A : Type ℓ} (i : ℕ) → drop {A = A} i [] ≡ []
drop-nil zero = refl
drop-nil (suc i) = refl

drop-add {ℓ} : {A : Type ℓ} (i j : ℕ) (l : List A) → drop (i + j) l ≡ drop j (drop i l)
drop-add zero j l = let same : 0 + j ≡ j = omega arith in ap (λ n. drop n l) same
drop-add (suc i) j [] = drop-nil (suc i + j) ∙ sym (drop-nil j)
drop-add (suc i) j (x ∷ l) =
    let next : suc i + j ≡ suc (i + j) = omega arith in
    ap (λ n. drop n (x ∷ l)) next ∙ drop-add i j l

append-take-drop {ℓ} :
    {A : Type ℓ} (k : ℕ) (l : List A) → take k l ++ drop (length (take k l)) l ≡ l
append-take-drop zero l = refl
append-take-drop (suc k) [] = refl
append-take-drop (suc k) (x ∷ l) = ap (λ s. x ∷ s) (append-take-drop k l)

length-take {ℓ} : {A : Type ℓ} (k : ℕ) (l : List A) → length (take k l) ≡ min k (length l)
length-take zero l = omega arith
length-take (suc k) [] = omega arith
length-take (suc k) (x ∷ l) = omega (arith, length-take k l)

length-drop {ℓ} : {A : Type ℓ} (k : ℕ) (l : List A) → length (drop k l) ≡ length l - k
length-drop zero l = omega arith
length-drop (suc k) [] = omega arith
length-drop (suc k) (x ∷ l) = omega (arith, length-drop k l)

take-all {ℓ} : {A : Type ℓ} (k : ℕ) (l : List A) → length l ≤ k → take k l ≡ l
take-all zero [] h = refl
take-all zero (x ∷ l) h = absurd (omega (arith, h))
take-all (suc k) [] h = refl
take-all (suc k) (x ∷ l) h = ap (λ s. x ∷ s) (take-all k l (omega (arith, h)))

drop-all {ℓ} : {A : Type ℓ} (k : ℕ) (l : List A) → length l ≤ k → drop k l ≡ []
drop-all zero [] h = refl
drop-all zero (x ∷ l) h = absurd (omega (arith, h))
drop-all (suc k) [] h = refl
drop-all (suc k) (x ∷ l) h = drop-all k l (omega (arith, h))

pub drop-get_elem? {ℓ} :
    {A : Type ℓ} (i : ℕ) (l : List A) (x : A)
    → get_elem? l i ≡ some x
    → (drop i l ≡ x ∷ drop (suc i) l) × (i < length l)
drop-get_elem? i [] x h = cc h
drop-get_elem? zero (y ∷ l) x h = (ap (λ z. z ∷ l) (some-injective h), omega arith)
  where
    some-injective : {A : Type ℓ} {u v : A} → some u ≡ some v → u ≡ v
    some-injective e = cc e
drop-get_elem? (suc i) (y ∷ l) x h = let e = drop-get_elem? i l x h in (e.0, omega (arith, e.1))

module _ (Row : Type 0) where
  -- A cursor with rows to fetch.
  abbrev pub Loaded : PgResult Row → Cursor Row → Type 0
  Loaded r c =
      (c.pgresult ≡ some r)
      × (c.tx_result ≡ some r)
      × (is_tuples Row r.status ≡ true)
      × (c.pos ≤ length r.rows)

  pub data Request : Type 0 where
    one : Request
    many : ℕ → Request
    all : Request

  abbrev as_list : Outcome (Option Row) × Cursor Row → Outcome (List Row) × Cursor Row
  as_list (failed e, c) = (failed e, c)
  as_list (returned none, c) = (returned [], c)
  as_list (returned (some row), c) = (returned (row ∷ []), c)

  -- One call, with the rows that it gives.
  unfoldable pub fetch : Request → Cursor Row → Outcome (List Row) × Cursor Row
  fetch one c = as_list (fetchone Row c)
  fetch (many size) c = fetchmany Row size c
  fetch all c = fetchall Row c

  -- The rows that calls give one after the other; an exception ends them.
  abbrev pub then_rows : Outcome (List Row) → Outcome (List Row) → Outcome (List Row)
  then_rows (failed e) rest = failed e
  then_rows (returned rows) (failed e) = failed e
  then_rows (returned rows) (returned rest) = returned (rows ++ rest)

  unfoldable pub fetch_each : List Request → Cursor Row → Outcome (List Row)
  fetch_each [] c = returned []
  fetch_each (q ∷ qs) c = then_rows (fetch q c).0 (fetch_each qs (fetch q c).1)

  -- A call moves rows from those to come to those given.
  abbrev pub Gives : PgResult Row → Request → Cursor Row → Type 0
  Gives r q c =
      (rows : List Row) × (p : ℕ) × (fetch q c ≡ (returned rows, record c { pos = p }))
      × (rows ++ drop p r.rows ≡ drop c.pos r.rows)
      × (p ≤ length r.rows)

  take_slice :
      (r : PgResult Row) (i j : ℕ)
      → i ≤ j
      → j ≤ length r.rows
      → (load_rows Row i j (some r) ≡ returned (take (j - i) (drop i r.rows)))
        × (take (j - i) (drop i r.rows) ++ drop (i + length (take (j - i) (drop i r.rows))) r.rows
            ≡ drop i r.rows)
        × (i + length (take (j - i) (drop i r.rows)) ≡ j)
  unfolding load_rows
  take_slice r i j h k =
      let size = length-take (j - i) (drop i r.rows) in
      let left = length-drop i r.rows in
      (
        ground (arith, h, k),
        ap (λ l. take (j - i) (drop i r.rows) ++ l)
              (drop-add i (length (take (j - i) (drop i r.rows))) r.rows)
            ∙ append-take-drop (j - i) (drop i r.rows),
        omega (arith, size, left, h, k),
      )

  pub checked {ℓ} :
      {A : Type ℓ} (r : PgResult Row) (o : Option (PgResult Row)) (c : Cursor Row)
      (next : PgResult Row → Outcome A × Cursor Row)
      → o ≡ some r
      → is_tuples Row r.status ≡ true
      → check_result Row o c next ≡ next r
  unfolding check_result
  checked r o c next h t = rw h (rw t refl)

  pub fetchone-Loaded :
      (r : PgResult Row) (c : Cursor Row)
      → Loaded r c
      → fetchone Row c ≡ advance_one Row c (get_elem? r.rows c.pos)
  unfolding fetchone load_row
  fetchone-Loaded r c (res, tx, good, at) =
      checked r c.pgresult c (λ x. advance_one Row c (load_row Row c.pos c.tx_result)) res good
      ∙ ap (λ o. advance_one Row c (load_row Row c.pos o)) tx

  fetchmany-Loaded :
      (r : PgResult Row) (size j : ℕ) (c : Cursor Row)
      → Loaded r c
      → j ≡ min (c.pos + (if size == 0 then c.arraysize else size)) (length r.rows)
      → fetchmany Row size c
        ≡ advance Row (λ records. c.pos + length records) c (load_rows Row c.pos j (some r))
  unfolding fetchmany
  fetchmany-Loaded r size j c (res, tx, good, at) e =
      checked r c.pgresult c
        (λ x.
          advance Row (λ records. c.pos + length records) c
            (load_rows Row c.pos
              (min (c.pos + (if size == 0 then c.arraysize else size)) (length x.rows))
              c.tx_result))
        res good
      ∙ ap
          (λ o.
            advance Row (λ records. c.pos + length records) c
              (load_rows Row c.pos
                (min (c.pos + (if size == 0 then c.arraysize else size)) (length r.rows)) o))
          tx
      ∙ ap (λ i. advance Row (λ records. c.pos + length records) c (load_rows Row c.pos i (some r)))
          (sym e)

  fetchall-Loaded :
      (r : PgResult Row) (c : Cursor Row)
      → Loaded r c
      → fetchall Row c
        ≡ advance Row (λ records. length r.rows) c (load_rows Row c.pos (length r.rows) (some r))
  unfolding fetchall
  fetchall-Loaded r c (res, tx, good, at) =
      checked r c.pgresult c
        (λ x.
          advance Row (λ records. length x.rows) c
            (load_rows Row c.pos (length x.rows) c.tx_result))
        res good
      ∙ ap (λ o. advance Row (λ records. length r.rows) c (load_rows Row c.pos (length r.rows) o))
          tx

  pub fetch-Gives : (r : PgResult Row) (q : Request) (c : Cursor Row) → Loaded r c → Gives r q c
  unfolding fetch advance_one advance
  fetch-Gives r one c l = elim (Option-cases (get_elem? r.rows c.pos)) [
    | inl past ↦
        ([], c.pos, ap as_list (fetchone-Loaded r c l ∙ ap (advance_one Row c) past), refl, l.3)
    | inr (row, here) ↦
        let e = drop-get_elem? c.pos r.rows row here in
        let next : c.pos + 1 ≡ suc c.pos = omega arith in
        (
          row ∷ [],
          c.pos + 1,
          ap as_list (fetchone-Loaded r c l ∙ ap (advance_one Row c) here),
          ap (λ n. row ∷ drop n r.rows) next ∙ sym e.0,
          omega (arith, e.1),
        )
  ]
  fetch-Gives r (many size) c l =
      let j = min (c.pos + (if size == 0 then c.arraysize else size)) (length r.rows) in
      let t = take_slice r c.pos j (omega (arith, l.3)) (omega arith) in
      (
        take (j - c.pos) (drop c.pos r.rows),
        c.pos + length (take (j - c.pos) (drop c.pos r.rows)),
        fetchmany-Loaded r size j c l refl
            ∙ ap (advance Row (λ records. c.pos + length records) c) t.0,
        t.1,
        omega (arith, t.2),
      )
  fetch-Gives r all c l =
      let t = take_slice r c.pos (length r.rows) l.3 (omega arith) in
      (
        take (length r.rows - c.pos) (drop c.pos r.rows),
        length r.rows,
        fetchall-Loaded r c l ∙ ap (advance Row (λ records. length r.rows) c) t.0,
        ap (λ n. take (length r.rows - c.pos) (drop c.pos r.rows) ++ drop n r.rows) (sym t.2) ∙ t.1,
        omega arith,
      )

  pub fetch-all :
      (r : PgResult Row) (c : Cursor Row)
      → Loaded r c
      → fetch all c ≡ (returned (drop c.pos r.rows), record c { pos = length r.rows })
  unfolding fetch advance
  fetch-all r c l =
      let t = take_slice r c.pos (length r.rows) l.3 (omega arith) in
      let rest = length-drop c.pos r.rows in
      fetchall-Loaded r c l
      ∙ ap (advance Row (λ records. length r.rows) c) (
          t.0
          ∙ ap returned
              (take-all (length r.rows - c.pos) (drop c.pos r.rows) (omega (arith, rest))))
