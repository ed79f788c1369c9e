-- ===== src/Copy/Accelerated/Format/InPlace.antt =====
-- The walk backwards of `format_row_text` in psycopg3_c/psycopg3_c/_psycopg3/copy.pyx.
use psycopg.Prelude.{
  ℕ, zero, suc, ◌+◌, ◌-◌, ◌≤◌, ◌≡◌, refl, sym, ap, subst, ◌∙◌, true, false, [], ◌∷◌, ◌++◌, Bytes,
  length, leb, ◌==◌, if◌then◌else◌, arith, append_assoc, append-nil, ltb, Bool-cases, inl, inr,
  length-append,
}
use psycopg.Copy.Accelerated.Format.{
  copy_escape_lut, byte_at, set, count_escapes, push_forward, escape_item,
}

byte_at-append : (p s : Bytes) (c : ℕ) → byte_at (p ++ c ∷ s) (length p) ≡ c
unfolding byte_at
byte_at-append [] s c = refl
byte_at-append (a ∷ p) s c = byte_at-append p s c

set-append : (p s : Bytes) (c v : ℕ) → set (p ++ c ∷ s) (length p) v ≡ p ++ v ∷ s
unfolding set
set-append [] s c v = refl
set-append (a ∷ p) s c v = ap (λ t. a ∷ t) (set-append p s c v)

-- A list that is not empty, but for its last element, and that element.
init : ℕ → Bytes → Bytes
init c [] = []
init c (d ∷ s) = c ∷ init d s

last : ℕ → Bytes → ℕ
last c [] = c
last c (d ∷ s) = last d s

init-last : (c : ℕ) (s : Bytes) → c ∷ s ≡ init c s ++ last c s ∷ []
unfolding init last
init-last c [] = refl
init-last c (d ∷ s) = ap (λ t. c ∷ t) (init-last d s)

length-init : (c : ℕ) (s : Bytes) → length (init c s) ≡ length s
unfolding init
length-init c [] = refl
length-init c (d ∷ s) = ap suc (length-init d s)

-- A backslash before each byte of the table.
unfoldable pub escaped : Bytes → Bytes
escaped [] = []
escaped (c ∷ b) = let rest = escaped b in if copy_escape_lut c == 0 then c ∷ rest else 92 ∷ c ∷ rest

push_forward-suc :
    (j m c : ℕ) (t t1 t2 : Bytes)
    → byte_at t j ≡ c
    → set t (j + suc m) c ≡ t1
    → byte_at t1 j ≡ c
    → set t1 (j + m) 92 ≡ t2
    → push_forward (suc j) (suc m) t ≡ (
        if copy_escape_lut c == 0
        then push_forward j (suc m) t1
        else if leb m 0
        then (m, t2)
        else push_forward j m t2)
unfolding push_forward
push_forward-suc j m c t t1 t2 e1 e2 e3 e4 =
    let below : suc m - 1 ≡ m = omega arith in rw (below, e1, e2, e3, e4) refl

-- One round at a buffer that holds the bytes left, the room behind them and what is done.
push_forward-round :
    (q : Bytes) (x : ℕ) (room : Bytes) (z : ℕ) (done : Bytes)
    → push_forward (suc (length q)) (suc (length room)) (q ++ (x ∷ (room ++ z ∷ done))) ≡ (
        if copy_escape_lut x == 0
        then push_forward (length q) (suc (length room)) (q ++ ((x ∷ room) ++ x ∷ done))
        else if leb (length room) 0
        then (length room, q ++ (init x room ++ 92 ∷ x ∷ done))
        else push_forward (length q) (length room) (q ++ (init x room ++ 92 ∷ x ∷ done)))
push_forward-round q x room z done =
    push_forward-suc (length q) (length room) x _ (q ++ (x ∷ (room ++ x ∷ done))) _
      (byte_at-append q (room ++ z ∷ done) x)
      (written x (suc (length room)) (x ∷ room) z done x refl)
      (byte_at-append q (room ++ x ∷ done) x) second
  where
    written :
        (y n : ℕ) (s : Bytes) (c : ℕ) (r : Bytes) (v : ℕ)
        → n ≡ length s
        → set (q ++ (s ++ c ∷ r)) (length q + n) v ≡ q ++ (s ++ v ∷ r)
    written y n s c r v e =
        let place : length q + n ≡ length (q ++ s) = omega (arith, e, length-append q s) in
        rw (place, sym (append_assoc q s (c ∷ r)))
          (set-append (q ++ s) r c v ∙ append_assoc q s (v ∷ r))

    pushed : q ++ (x ∷ (room ++ x ∷ done)) ≡ q ++ (init x room ++ last x room ∷ x ∷ done)
    pushed =
        ap (λ s. q ++ (s ++ x ∷ done)) (init-last x room)
        ∙ ap (λ s. q ++ s) (append_assoc (init x room) (last x room ∷ []) (x ∷ done))

    second :
        set (q ++ (x ∷ (room ++ x ∷ done))) (length q + length room) 92
        ≡ q ++ (init x room ++ 92 ∷ x ∷ done)
    second = rw pushed (
        written x (length room) (init x room) (last x room) (x ∷ done) 92
          (sym (length-init x room)))

count-append : (a b : Bytes) → count_escapes (a ++ b) ≡ count_escapes a + count_escapes b
unfolding count_escapes
count-append [] b = omega arith
count-append (c ∷ a) b = omega (arith, count-append a b)

escaped-append : (a b : Bytes) → escaped (a ++ b) ≡ escaped a ++ escaped b
unfolding escaped
escaped-append [] b = refl
escaped-append (c ∷ a) b = ground (arith, escaped-append a b)

lut_values : (c : ℕ) → copy_escape_lut c ≤ 1
unfolding copy_escape_lut
lut_values c = ground arith

pub escaped-plain : (b : Bytes) → count_escapes b ≡ 0 → escaped b ≡ b
unfolding escaped count_escapes
escaped-plain [] h = refl
escaped-plain (c ∷ b) h = ground (arith, escaped-plain b)

escaped-snoc_plain :
    (q : Bytes) (x : ℕ)
    → (copy_escape_lut x == 0) ≡ true
    → escaped (q ++ x ∷ []) ≡ escaped q ++ x ∷ []
unfolding escaped
escaped-snoc_plain q x h = escaped-append q (x ∷ []) ∙ rw h

escaped-snoc_escape :
    (q : Bytes) (x : ℕ)
    → (copy_escape_lut x == 0) ≡ false
    → escaped (q ++ x ∷ []) ≡ escaped q ++ 92 ∷ x ∷ []
unfolding escaped
escaped-snoc_escape q x h = escaped-append q (x ∷ []) ∙ rw h

count-snoc : (q : Bytes) (x : ℕ) → count_escapes (q ++ x ∷ []) ≡ count_escapes q + copy_escape_lut x
unfolding count_escapes
count-snoc q x = omega (arith, count-append q (x ∷ []))

-- What the walk makes of `p` at the start of a buffer with room for its backslashes.
abbrev Walks : Bytes → Type 0
Walks p =
    (m : ℕ) (room done : Bytes)
    → count_escapes p ≡ suc m
    → length room ≡ suc m
    → push_forward (length p) (suc m) (p ++ (room ++ done)) ≡ (0, escaped p ++ done)

finished :
    (q done : Bytes) (x y : ℕ) → escaped q ++ y ∷ x ∷ done ≡ (escaped q ++ y ∷ x ∷ []) ++ done
finished q done x y = sym (append_assoc (escaped q) (y ∷ x ∷ []) done)

leb-suc_zero : (n : ℕ) → leb (suc n) 0 ≡ false
leb-suc_zero n = ground arith

-- A byte of the table is the last: the walk goes on only if there are others.
walk_escape :
    (q : Bytes) (x : ℕ) (room done : Bytes)
    → Walks q
    → count_escapes q ≡ length room
    → (if leb (length room) 0
        then (length room, q ++ (init x room ++ 92 ∷ x ∷ done))
        else push_forward (length q) (length room) (q ++ (init x room ++ 92 ∷ x ∷ done)))
      ≡ (0, (escaped q ++ 92 ∷ x ∷ []) ++ done)
unfolding init
walk_escape q x [] done walks hc =
    ap (λ t. (0, t))
      (ap (λ e. e ++ 92 ∷ x ∷ done) (sym (escaped-plain q hc)) ∙ finished q done x 92)
walk_escape q x (y ∷ ys) done walks hc = rw (leb-suc_zero (length ys)) (
    walks (length ys) (x ∷ init y ys) (92 ∷ x ∷ done) hc (ap suc (length-init y ys))
    ∙ ap (λ t. (0, t)) (finished q done x 92))

walk_round :
    (q : Bytes) (x : ℕ) (room : Bytes) (z : ℕ) (done : Bytes)
    → Walks q
    → count_escapes q + copy_escape_lut x ≡ suc (length room)
    → push_forward (suc (length q)) (suc (length room)) (q ++ (x ∷ (room ++ z ∷ done)))
      ≡ (0, escaped (q ++ x ∷ []) ++ done)
walk_round q x room z done walks hc =
    push_forward-round q x room z done ∙ elim (Bool-cases (copy_escape_lut x == 0)) [
      | inl plain ↦
          rw (plain, escaped-snoc_plain q x plain)
            (walks (length room) (x ∷ room) (x ∷ done) (ground (arith, hc, plain)) refl
              ∙ ap (λ t. (0, t)) (sym (append_assoc (escaped q) (x ∷ []) done)))
      | inr escape ↦
          rw (escape, escaped-snoc_escape q x escape)
            (walk_escape q x room done walks (ground (arith, hc, escape, lut_values x)))
    ]

walk_snoc : (q : Bytes) (x : ℕ) → Walks q → Walks (q ++ x ∷ [])
walk_snoc q x walks m [] done hc hr = absurd (omega arith)
walk_snoc q x walks m (y ∷ ys) done hc hr =
    let size : length (q ++ x ∷ []) ≡ suc (length q) = omega (arith, length-append q (x ∷ [])) in
    let kept : length (init y ys) ≡ m = omega (arith, length-init y ys) in
    let whole : (q ++ x ∷ []) ++ ((y ∷ ys) ++ done) ≡ q ++ (x ∷ (init y ys ++ last y ys ∷ done)) =
      append_assoc q (x ∷ []) ((y ∷ ys) ++ done)
      ∙ ap (λ r. q ++ (x ∷ (r ++ done))) (init-last y ys)
      ∙ ap (λ r. q ++ (x ∷ r)) (append_assoc (init y ys) (last y ys ∷ []) done) in
    ap (λ t. push_forward (length (q ++ x ∷ [])) (suc m) t) whole
    ∙ ap (λ k. push_forward k (suc m) (q ++ (x ∷ (init y ys ++ last y ys ∷ done)))) size
    ∙ ap (λ k. push_forward (suc (length q)) (suc k) (q ++ (x ∷ (init y ys ++ last y ys ∷ done))))
        (sym kept)
    ∙ walk_round q x (init y ys) (last y ys) done walks (omega (arith, hc, count-snoc q x, kept))

-- With room for as many backslashes as are wanted, the walk leaves the escaped item and no backslash
-- to put.
push_forward-Walks : (k : ℕ) (p : Bytes) → length p ≡ k → Walks p
push_forward-Walks zero [] hp m room done hc hr = unfold count_escapes in absurd (omega arith)
push_forward-Walks zero (c ∷ s) hp m room done hc hr = absurd (omega arith)
push_forward-Walks (suc k) [] hp m room done hc hr = absurd (omega arith)
push_forward-Walks (suc k) (c ∷ s) hp m room done hc hr =
    subst Walks (sym (init-last c s))
      (walk_snoc (init c s) (last c s)
        (push_forward-Walks k (init c s) (omega (arith, length-init c s))))
      m room done hc hr

-- Where `room` holds as many bytes as it is asked for, an item is escaped and no backslash is left
-- to put.
pub escape_item-escaped :
    (room : ℕ → Bytes) (b : Bytes)
    → ((n : ℕ) → length (room n) ≡ n)
    → escape_item room 0 b ≡ (0, escaped b)
unfolding escape_item
escape_item-escaped room b sized = by_count (0 + count_escapes b) (omega arith)
  where
    positive : (n : ℕ) → ltb 0 (suc n) ≡ true
    positive n = ground arith

    by_count :
        (n : ℕ)
        → count_escapes b ≡ n
        → (if ltb 0 n then push_forward (length b) n (b ++ room n) else (n, b)) ≡ (0, escaped b)
    by_count zero e = ap (λ t. (0, t)) (sym (escaped-plain b e))
    by_count (suc n) e = rw (positive n) (
        ap (λ r. push_forward (length b) (suc n) (b ++ r)) (sym (append-nil (room (suc n))))
        ∙ push_forward-Walks (length b) b refl n (room (suc n)) [] e (sized (suc n))
        ∙ ap (λ t. (0, t)) (append-nil (escaped b)))
