-- ===== src/Queries/Split/RoundTrip.antt =====
-- `_split_query` of psycopg3/psycopg3/_queries.py reads back every query that is written from
-- fragments, with `%` doubled, and placeholders.
use psycopg.Prelude.{
  ℕ, zero, suc, ◌+◌, ◌-◌, ◌≡◌, ◌≢◌, refl, sym, ap, ◌∙◌, Bool, true, false, Option, none, some, List,
  [], ◌∷◌, ◌++◌, Bytes, codes, length, ◌==◌, if◌then◌else◌, arith, append_assoc, append-nil,
  Bool-cases, inl, inr, All, ==_iff,
}
use psycopg.Prelude.Equality.{◌===◌}
use psycopg.Queries.Defs.{
  Format, auto, text, binary, index, name, QueryPart, Result, ok, ◌>>=◌, bytes_eq,
}
use psycopg.Queries.Split.{
  Match, PhType, int_type, str_type, find_all, match_at, build, split_query, span_name, close_name,
  last_byte, validate, check_type, ph_to_fmt, with_format, typed_item, item_of,
}

-- A fragment as it is written in a query.
unfoldable pub escape : Bytes → Bytes
escape [] = []
escape (c ∷ s) = let rest = escape s in if c == b'%' then b'%' ∷ b'%' ∷ rest else c ∷ rest

-- The letter of a format.
unfoldable pub letter : Format → ℕ
letter auto = b's'
letter text = b't'
letter binary = b'b'

unfoldable pub write_positional : List (Bytes × Format) → Bytes → Bytes
write_positional [] last = escape last
write_positional ((pre, f) ∷ ps) last = escape pre ++ (b'%' ∷ letter f ∷ write_positional ps last)

unfoldable pub write_named : List (Bytes × Bytes × Format) → Bytes → Bytes
write_named [] last = escape last
write_named ((pre, n, f) ∷ ps) last =
    escape pre ++ (b'%' ∷ b'(' ∷ (n ++ (b')' ∷ letter f ∷ write_named ps last)))

abbrev pub last_part : Bytes → QueryPart
last_part s = record { pre = s; item = index 0; format = auto }

-- The parts of such queries.
unfoldable pub positional_parts : ℕ → List (Bytes × Format) → Bytes → List QueryPart
positional_parts i [] last = last_part last ∷ []
positional_parts i ((pre, f) ∷ ps) last =
    record { pre = pre; item = index i; format = f } ∷ positional_parts (i + 1) ps last

unfoldable pub named_parts : List (Bytes × Bytes × Format) → Bytes → List QueryPart
named_parts [] last = last_part last ∷ []
named_parts ((pre, n, f) ∷ ps) last =
    record { pre = pre; item = name n; format = f } ∷ named_parts ps last

find_all_skip : (w s pre : Bytes) → find_all (length w) pre (w ++ s) ≡ find_all 0 pre s
unfolding find_all
find_all_skip [] s pre = refl
find_all_skip (c ∷ w) s pre = find_all_skip w s pre

-- What was dropped before a fragment belongs to it.
build_acc :
    (i : ℕ) (ty : Option PhType) (acc : Bytes) (skip : ℕ) (pre s : Bytes)
    → build i ty acc (find_all skip pre s) ≡ build i ty [] (find_all skip (acc ++ pre) s)
unfolding find_all build
build_acc i ty acc zero pre [] = refl
build_acc i ty acc (suc skip) pre [] = refl
build_acc i ty acc (suc skip) pre (c ∷ s) = build_acc i ty acc skip pre s
build_acc i ty acc zero pre (c ∷ s) = go (match_at c s) (build_acc i ty acc zero (pre ++ c ∷ []) s)
  where
    go :
        (o : Option Match)
        → build i ty acc (find_all zero (pre ++ c ∷ []) s)
          ≡ build i ty [] (find_all zero (acc ++ (pre ++ c ∷ [])) s)
        → build i ty acc (elim o [
          | none ↦ find_all zero (pre ++ c ∷ []) s
          | some m ↦ (pre, some m) ∷ find_all (length m.group0 - 1) [] s
        ])
          ≡ build i ty [] (elim o [
            | none ↦ find_all zero ((acc ++ pre) ++ c ∷ []) s
            | some m ↦ (acc ++ pre, some m) ∷ find_all (length m.group0 - 1) [] s
          ])
    go none ih =
        ih ∙ ap (λ p. build i ty [] (find_all zero p s)) (sym (append_assoc acc pre (c ∷ [])))
    go (some m) ih = dropped (m.group0 === codes "%%")
      where
        parts : List (Bytes × Option Match)
        parts = find_all (length m.group0 - 1) [] s

        dropped :
            (b : Bool)
            → ◌≡◌ {A = Result (List QueryPart)}
                (elim b [
                  | true ↦ build i ty (acc ++ (pre ++ b'%' ∷ [])) parts
                  | false ↦ do
                    (part, t) ← validate i ty (acc ++ pre) m
                    rest ← build (i + 1) (some t) [] parts
                    ok (part ∷ rest)
                ])
                (elim b [
                  | true ↦ build i ty ((acc ++ pre) ++ b'%' ∷ []) parts
                  | false ↦ do
                    (part, t) ← validate i ty (acc ++ pre) m
                    rest ← build (i + 1) (some t) [] parts
                    ok (part ∷ rest)
                ])
        dropped true = rw (append_assoc acc pre (b'%' ∷ []))
        dropped false = refl

plain_byte :
    (i : ℕ) (ty : Option PhType) (c : ℕ) (s pre : Bytes)
    → (c == b'%') ≡ false
    → build i ty [] (find_all 0 pre (c ∷ s)) ≡ build i ty [] (find_all 0 (pre ++ c ∷ []) s)
unfolding find_all match_at
plain_byte i ty c s pre other =
    ap (build i ty []) (let e : match_at c s ≡ none = rw (other, match_at) in rw (e, find_all))

build-escape :
    (i : ℕ) (ty : Option PhType) (x s pre : Bytes)
    → build i ty [] (find_all 0 pre (escape x ++ s)) ≡ build i ty [] (find_all 0 (pre ++ x) s)
unfolding escape find_all build bytes_eq
build-escape i ty [] s pre = rw (append-nil pre)
build-escape i ty (c ∷ x) s pre = elim (Bool-cases (c == b'%')) [
  | inl percent ↦
      let e : c ≡ b'%' = (==_iff c b'%').0 percent in
      rw e (
        build_acc i ty (pre ++ b'%' ∷ []) 0 [] (escape x ++ s)
        ∙ rw (append-nil (pre ++ b'%' ∷ []))
            (build-escape i ty x s (pre ++ b'%' ∷ []) ∙ rw (append_assoc pre (b'%' ∷ []) x)))
  | inr other ↦ rw other (
      plain_byte i ty c (escape x ++ s) pre other
      ∙ build-escape i ty x s (pre ++ c ∷ [])
      ∙ rw (append_assoc pre (c ∷ []) x))
]

split-placeholder :
    (i : ℕ) (ty : Option PhType) (f : Format) (s pre : Bytes)
    → check_type ty int_type ≡ true
    → build i ty [] (find_all 0 pre (b'%' ∷ letter f ∷ s)) ≡ (do
      rest ← build (i + 1) (some int_type) [] (find_all 0 [] s)
      ok (record { pre = pre; item = index i; format = f } ∷ rest))
unfolding letter find_all build bytes_eq check_type
split-placeholder i ty auto s pre h = rw h
split-placeholder i ty text s pre h = rw h
split-placeholder i ty binary s pre h = rw h

-- A name that `%(name)s` can hold.
abbrev pub IsName : Bytes → Type 0
IsName n = (n ≢ []) × All (λ c. (c == b')') ≡ false) n

span_name-stop :
    (n t : Bytes) → All (λ c. (c == b')') ≡ false) n → span_name (n ++ b')' ∷ t) ≡ (n, b')' ∷ t)
unfolding span_name
span_name-stop [] t h = refl
span_name-stop (c ∷ n) t h = rw (h.0, span_name-stop n t h.1)

last_byte-append : (s : Bytes) (c d : ℕ) → last_byte (s ++ c ∷ d ∷ []) ≡ d ∷ []
last_byte-append [] c d = refl
last_byte-append (a ∷ []) c d = refl
last_byte-append (a ∷ b ∷ s) c d = last_byte-append (b ∷ s) c d

abbrev named_match : ℕ → Bytes → ℕ → Match
named_match a n c = record {
  group0 = codes "%(" ++ (a ∷ n) ++ b')' ∷ c ∷ [];
  group1 = some (a ∷ n);
}

find_all-named :
    (a : ℕ) (n : Bytes) (c : ℕ) (s pre : Bytes)
    → All (λ c. (c == b')') ≡ false) (a ∷ n)
    → (c == 10) ≡ false
    → find_all 0 pre (b'%' ∷ b'(' ∷ ((a ∷ n) ++ (b')' ∷ c ∷ s)))
      ≡ (pre, some (named_match a n c)) ∷ find_all 0 [] s
unfolding find_all close_name
find_all-named a n c s pre h line =
    let e : match_at b'%' (b'(' ∷ ((a ∷ n) ++ (b')' ∷ c ∷ s))) ≡ some (named_match a n c) =
      rw (span_name-stop (a ∷ n) (c ∷ s) h, close_name) (rw line) in
    rw (e, find_all) (ap (λ l. (pre, some (named_match a n c)) ∷ l) skipped)
  where
    body : Bytes
    body = b'(' ∷ ((a ∷ n) ++ b')' ∷ c ∷ [])

    skipped :
        find_all (length (named_match a n c).group0 - 1) [] (b'(' ∷ ((a ∷ n) ++ (b')' ∷ c ∷ s)))
        ≡ find_all 0 [] s
    skipped =
        let size : length (named_match a n c).group0 - 1 ≡ length body = omega arith in
        rw size (
          ap (λ t. find_all (length body) [] (b'(' ∷ a ∷ t))
            (sym (append_assoc n (b')' ∷ c ∷ []) s))
          ∙ find_all_skip body s [])

letter-ne-newline : (f : Format) → (letter f == 10) ≡ false
unfolding letter
letter-ne-newline auto = refl
letter-ne-newline text = refl
letter-ne-newline binary = refl

ph_to_fmt-letter : (f : Format) → ph_to_fmt (letter f ∷ []) ≡ some f
unfolding ph_to_fmt letter bytes_eq
ph_to_fmt-letter auto = refl
ph_to_fmt-letter text = refl
ph_to_fmt-letter binary = refl

validate-named :
    (i : ℕ) (ty : Option PhType) (f : Format) (a : ℕ) (n pre : Bytes)
    → check_type ty str_type ≡ true
    → validate i ty pre (named_match a n (letter f))
      ≡ ok (record { pre = pre; item = name (a ∷ n); format = f }, str_type)
unfolding validate bytes_eq with_format typed_item item_of
validate-named i ty f a n pre t =
    rw (last_byte-append (codes "%(" ++ (a ∷ n)) b')' (letter f), ph_to_fmt-letter f) (rw t)

split-named_placeholder :
    (i : ℕ) (ty : Option PhType) (f : Format) (n s pre : Bytes)
    → IsName n
    → check_type ty str_type ≡ true
    → build i ty [] (find_all 0 pre (b'%' ∷ b'(' ∷ (n ++ (b')' ∷ letter f ∷ s)))) ≡ (do
      rest ← build (i + 1) (some str_type) [] (find_all 0 [] s)
      ok (record { pre = pre; item = name n; format = f } ∷ rest))
unfolding build bytes_eq
split-named_placeholder i ty f [] s pre h t = absurd (h.0 refl)
split-named_placeholder i ty f (a ∷ n) s pre h t =
    rw (find_all-named a n (letter f) s pre h.1 (letter-ne-newline f))
      (rw (validate-named i ty f a n pre t, build))

build-positional :
    (i : ℕ) (ty : Option PhType) (ps : List (Bytes × Format)) (last : Bytes)
    → check_type ty int_type ≡ true
    → build i ty [] (find_all 0 [] (write_positional ps last)) ≡ ok (positional_parts i ps last)
unfolding write_positional positional_parts build find_all check_type
build-positional i ty [] last h =
    ap (λ s. build i ty [] (find_all 0 [] s)) (sym (append-nil (escape last)))
    ∙ build-escape i ty last [] []
build-positional i ty ((pre, f) ∷ ps) last h =
    build-escape i ty pre (b'%' ∷ letter f ∷ write_positional ps last) []
    ∙ split-placeholder i ty f (write_positional ps last) pre h
    ∙ rw (build-positional (i + 1) (some int_type) ps last refl)

build-named :
    (i : ℕ) (ty : Option PhType) (ps : List (Bytes × Bytes × Format)) (last : Bytes)
    → check_type ty str_type ≡ true
    → All (λ p. IsName p.1) ps
    → build i ty [] (find_all 0 [] (write_named ps last)) ≡ ok (named_parts ps last)
unfolding write_named named_parts build find_all check_type
build-named i ty [] last t h =
    ap (λ s. build i ty [] (find_all 0 [] s)) (sym (append-nil (escape last)))
    ∙ build-escape i ty last [] []
build-named i ty ((pre, n, f) ∷ ps) last t h =
    build-escape i ty pre (b'%' ∷ b'(' ∷ (n ++ (b')' ∷ letter f ∷ write_named ps last))) []
    ∙ split-named_placeholder i ty f n (write_named ps last) pre h.0 t
    ∙ rw (build-named (i + 1) (some str_type) ps last refl h.1)

-- A query that is written from fragments, their `%` doubled, and positional placeholders between
-- them is split into those fragments, the placeholders numbered from 0 with their formats.
pub split_query-write_positional :
    (ps : List (Bytes × Format)) (last : Bytes)
    → split_query (write_positional ps last) ≡ ok (positional_parts 0 ps last)
unfolding split_query check_type
split_query-write_positional ps last = build-positional 0 none ps last refl

-- A query that is written from fragments, their `%` doubled, and named placeholders between them,
-- of any names that are not empty and hold no `)`, is split into those fragments, with the names
-- and the formats of the placeholders.
pub split_query-write_named :
    (ps : List (Bytes × Bytes × Format)) (last : Bytes)
    → All (λ p. IsName p.1) ps
    → split_query (write_named ps last) ≡ ok (named_parts ps last)
unfolding split_query check_type
split_query-write_named ps last h = build-named 0 none ps last refl h
