-- ===== src/Composites/RoundTrip.antt =====
-- What `TupleDumper` of psycopg3/psycopg3/types/composite.py writes, `RecordLoader` reads back.
use psycopg.Prelude.{
  ℕ, zero, suc, ◌≤◌, ◌≡◌, ◌≢◌, refl, sym, ap, subst, ◌∙◌, Bool, true, false, Option, none, some,
  List, [], ◌∷◌, ◌++◌, Bytes, codes, length, length-append, append-nil, if◌then◌else◌, arith,
  Bool-cases, inl, inr,
}
use psycopg.Prelude.Equality.{◌===◌, nat_eq, list_eq, list_beq→eq}
use psycopg.Copy.Text.{drop_last}
use psycopg.Copy.Text.RoundTrip.{drop_last-append}
use psycopg.Arrays.Load.{drop_first}
use psycopg.Composites.{
  dump_item, dump_sequence, dump, FieldMatch, match_token, find_tokens, fields, Loaded, loaded,
  unbound_local, parse_record, load,
}
use psycopg.Composites.Print.{field_text, body, dump-body}
use psycopg.Composites.Tokens.{behind, later, found, item-IsMatched}

-- The fields behind what is matched: `comma` is whether the last match ends in a comma.
abbrev fields_behind : Bool → List FieldMatch → List (Option Bytes)
fields_behind comma [] = if comma then none ∷ [] else []
fields_behind comma (m ∷ ms) = fields m ms

fields-cons :
    (m : FieldMatch) (ms : List FieldMatch) → fields m ms ≡ m.value ∷ fields_behind m.comma ms
unfolding fields
fields-cons m [] = refl
fields-cons m (m' ∷ ms) = refl

find_tokens-nil : (fuel : ℕ) → find_tokens fuel [] ≡ []
unfolding find_tokens
find_tokens-nil zero = refl
find_tokens-nil (suc fuel) = refl

find_tokens-cons :
    (fuel c : ℕ) (t : Bytes) (m : FieldMatch) (rest : Bytes)
    → match_token c t ≡ some (m, rest)
    → find_tokens (suc fuel) (c ∷ t) ≡ m ∷ find_tokens fuel rest
unfolding find_tokens
find_tokens-cons fuel c t m rest h = rw (h, find_tokens) refl

match_token-comma : (s : Bytes) → match_token b',' s ≡ some (found none (some s), s)
unfolding match_token
match_token-comma s = refl

-- The text of a row, by what is behind its first item.
abbrev rest_text : List (Option Bytes) → Option Bytes
rest_text [] = none
rest_text (y ∷ ys) = some (body y ys)

body-rest :
    (x : Option Bytes) (xs : List (Option Bytes))
    → body x xs ≡ field_text x ++ behind (rest_text xs)
body-rest x [] = sym (append-nil (field_text x))
body-rest x (y ∷ ys) = refl

-- `text` is read as `xs` behind a comma, with any fuel from its length on.
abbrev Reads : Bool → Bytes → List (Option Bytes) → Type 0
Reads comma text xs =
    (fuel : ℕ) → length text ≤ fuel → fields_behind comma (find_tokens fuel text) ≡ xs

-- One match, and what is behind it.
Reads-match :
    (comma : Bool) (c : ℕ) (t : Bytes) (m : FieldMatch) (rest : Bytes) (xs : List (Option Bytes))
    → match_token c t ≡ some (m, rest)
    → length rest ≤ length t
    → Reads m.comma rest xs
    → Reads comma (c ∷ t) (m.value ∷ xs)
Reads-match comma c t m rest xs h le others zero e = absurd (omega (arith, e))
Reads-match comma c t m rest xs h le others (suc fuel) e =
    ap (fields_behind comma) (find_tokens-cons fuel c t m rest h)
    ∙ fields-cons m (find_tokens fuel rest)
    ∙ ap (λ ys. m.value ∷ ys) (others fuel (omega (arith, le, e)))

Reads-nothing : (comma : Bool) → Reads comma [] (if comma then none ∷ [] else [])
Reads-nothing comma fuel e = ap (fields_behind comma) (find_tokens-nil fuel)

later_le :
    (s t : Bytes) (r : Option Bytes) (c : ℕ) → s ++ behind r ≡ c ∷ t → length (later r) ≤ length t
later_le s t none c h = omega arith
later_le s t (some u) c h = omega (arith, length-append s (b',' ∷ u), ap (λ l. length l) h)

Reads-item :
    (b : Bytes) (r : Option Bytes) (xs : List (Option Bytes))
    → Reads (found (some b) r).comma (later r) xs
    → Reads true (dump_item b ++ behind r) ((found (some b) r).value ∷ xs)
Reads-item b r xs others =
    let (c, t, starts, matched) = item-IsMatched b r in
    subst (λ s. Reads true s ((found (some b) r).value ∷ xs)) (sym starts)
      (Reads-match true c t (found (some b) r) (later r) xs matched
        (later_le (dump_item b) t r c starts) others)

Reads-body : (x : Option Bytes) (xs : List (Option Bytes)) → Reads true (body x xs) (x ∷ xs)
Reads-body none [] = Reads-nothing true
Reads-body none (y ∷ ys) =
    Reads-match true b',' (body y ys) (found none (some (body y ys))) (body y ys) (y ∷ ys)
      (match_token-comma (body y ys)) (omega arith) (Reads-body y ys)
Reads-body (some b) [] =
    subst (λ s. Reads true s (some b ∷ [])) (append-nil (dump_item b))
      (Reads-item b none [] (Reads-nothing false))
Reads-body (some b) (y ∷ ys) = Reads-item b (some (body y ys)) (y ∷ ys) (Reads-body y ys)

loaded_fields :
    (ms : List FieldMatch) (xs : List (Option Bytes))
    → fields_behind true ms ≡ xs
    → xs ≢ none ∷ []
    → elim ms as (λ x. Loaded) [ [] ↦ unbound_local | m ∷ ms' ↦ loaded (fields m ms') ] ≡ loaded xs
loaded_fields [] xs h other = absurd (other (sym h))
loaded_fields (m ∷ ms) xs h other = ap loaded h

load-body :
    (x : Option Bytes) (xs : List (Option Bytes))
    → x ∷ xs ≢ none ∷ []
    → parse_record (body x xs) ≡ loaded (x ∷ xs)
unfolding parse_record
load-body x xs other =
    loaded_fields (find_tokens (length (body x xs)) (body x xs)) (x ∷ xs)
      (Reads-body x xs (length (body x xs)) (omega arith)) other

-- What is between the brackets.
abbrev inside : Bytes → Bytes
inside t = drop_last (drop_first t)

inside-brackets : (t : Bytes) → inside (b'(' ∷ (t ++ codes ")")) ≡ t
unfolding drop_first
inside-brackets t = drop_last-append t b')'

inside-empty : inside (codes "()") ≡ []
unfolding drop_first drop_last
inside-empty = refl

-- The text is that of the empty record only for one NULL.
not_empty_record :
    (x : Option Bytes) (xs : List (Option Bytes))
    → x ∷ xs ≢ none ∷ []
    → ((b'(' ∷ (body x xs ++ codes ")")) === codes "()") ≡ false
not_empty_record x xs other = elim (Bool-cases ((b'(' ∷ (body x xs ++ codes ")")) === codes "()")) [
  | inr h ↦ h
  | inl h ↦
      let same = list_beq→eq (b'(' ∷ (body x xs ++ codes ")")) (codes "()") h in
      let no_body : body x xs ≡ [] =
        sym (inside-brackets (body x xs)) ∙ ap inside same ∙ inside-empty in
      absurd (
        other (
          sym (Reads-body x xs 0 (omega (arith, ap (λ t. length t) no_body)))
          ∙ ap (λ t. fields_behind true (find_tokens 0 t)) no_body
          ∙ Reads-nothing true 0 (omega arith)))
]

load-bracketed :
    (t : Bytes)
    → ((b'(' ∷ (t ++ codes ")")) === codes "()") ≡ false
    → load (b'(' ∷ (t ++ codes ")")) ≡ parse_record t
unfolding load drop_first
load-bracketed t h = rw h (ap parse_record (inside-brackets t))

load-empty : load (dump []) ≡ loaded []
unfolding load dump dump_sequence
load-empty = refl

-- A row of any items and None, that is not of one None alone, is read back from its text as it was,
-- whatever commas, quotes, backslashes, brackets or white space the items have.
pub load-dump_row : (xs : List (Option Bytes)) → xs ≢ none ∷ [] → load (dump xs) ≡ loaded xs
load-dump_row [] other = load-empty
load-dump_row (x ∷ xs) other =
    ap load (dump-body x xs)
    ∙ load-bracketed (body x xs) (not_empty_record x xs other)
    ∙ load-body x xs other
