-- ===== src/Arrays/RoundTrip/Run.antt =====
-- `ArrayLoader.load` of psycopg3/psycopg3/types/array.py on the tokens of a list.
use psycopg.Prelude.{
  ℕ, ◌≡◌, refl, sym, ap, ◌∙◌, true, false, ◌||◌, Option, some, none, List, [], ◌∷◌, ◌++◌, Bytes,
  codes, ◌==◌, arith, map, All, Bool-cases, inl, inr, ==_iff,
}
use psycopg.Prelude.{append_assoc as list_assoc, append-nil as list_nil}
use psycopg.Prelude.Equality.{◌===◌, nat_eq, list_eq, list_beq→eq}
use psycopg.Copy.Text.RoundTrip.{drop_last-append}
use psycopg.Arrays.{Elem, Elems, null, item, sub, nil, cons, append, append-nil, append_assoc}
use psycopg.Arrays.Dump.{quote, needs_quotes, escape, is_empty, lower, dump}
use psycopg.Arrays.Load.{
  is_plain, load_item, load_tokens, add_to_last, unescape, load, loaded, tokens,
}
use psycopg.Arrays.Load.Tokens.{escape-special, escape-plain}
use psycopg.Arrays.Print.{unquoted, dump-text_list, plain_bytes}
use psycopg.Arrays.RoundTrip.Read.{
  elem_tokens, list_tokens, rest_tokens, quote-quoted, quote-unquoted, tokens-text_list,
}

unescape-plain : (c : ℕ) (s : Bytes) → (c == 92) ≡ false → unescape (c ∷ s) ≡ c ∷ unescape s
unfolding unescape
unescape-plain c [] h = refl
unescape-plain c (d ∷ s) h = rw h

unescape-escape : (d : ℕ) (s : Bytes) → (d == 10) ≡ false → unescape (92 ∷ d ∷ s) ≡ d ∷ unescape s
unfolding unescape
unescape-escape d s h = rw h

unescape-escape_lem : (b : Bytes) → unescape (escape b) ≡ b
unescape-escape_lem [] = unfold unescape escape in refl
unescape-escape_lem (c ∷ b) = elim (Bool-cases (c == b'"' || c == 92)) [
  | inl special ↦ rw (escape-special c b special) (
      unescape-escape c (escape b) (ground (arith, special))
      ∙ ap (λ s. c ∷ s) (unescape-escape_lem b))
  | inr plain ↦ rw (escape-plain c b plain) (
      unescape-plain c (escape b) (ground (arith, plain)) ∙ ap (λ s. c ∷ s) (unescape-escape_lem b))
]

load_item-quoted : (b : Bytes) → load_item (b'"' ∷ (escape b ++ b'"' ∷ [])) ≡ item b
unfolding load_item
load_item-quoted b =
    ap (λ s. item (unescape s)) (drop_last-append (escape b) b'"') ∙ ap item (unescape-escape_lem b)

-- Bytes written with no quotes are no bracket, no NULL and no quoted string.
not_null : (b : Bytes) → (map lower b === codes "null") ≡ false → (b === codes "NULL") ≡ false
not_null b h = elim (Bool-cases (b === codes "NULL")) [
  | inl same ↦
      let e : b ≡ codes "NULL" = list_beq→eq b (codes "NULL") same in
      cc (sym h ∙ ap (λ s. map lower s === codes "null") e, lower_null)
  | inr other ↦ other
]
  where
    lower_null : (map lower (codes "NULL") === codes "null") ≡ true
    lower_null = unfold lower in refl

not_bracket :
    (k : ℕ) (b : Bytes)
    → is_plain k ≡ false
    → All (λ c. is_plain c ≡ true) b
    → (b === (k ∷ [])) ≡ false
not_bracket k [] h p = refl
not_bracket k (c ∷ b) h p = elim (Bool-cases (c == k)) [
  | inl same ↦ cc (p.0, h, ap is_plain ((==_iff c k).0 same))
  | inr other ↦ rw other refl
]

load_item-bare :
    (b : Bytes)
    → is_empty b ≡ false
    → All (λ c. is_plain c ≡ true) b
    → (b === codes "NULL") ≡ false
    → load_item b ≡ item b
unfolding load_item is_plain
load_item-bare [] h p n = unfold is_empty in cc
load_item-bare (c ∷ b) h p n = ground (arith, p.0, n)

step_open :
    (ts : List Bytes) (stack : List Elems) (rv : Option Elems)
    → load_tokens (codes "{" ∷ ts) stack rv ≡ load_tokens ts (nil ∷ stack) rv
unfolding load_tokens
step_open ts stack rv = refl

step_close :
    (ts : List Bytes) (top : Elems) (stack : List Elems) (rv : Option Elems)
    → load_tokens (codes "}" ∷ ts) (top ∷ stack) rv
      ≡ load_tokens ts (add_to_last (sub top) stack) (some top)
unfolding load_tokens
step_close ts top stack rv = refl

step_item :
    (t : Bytes) (ts : List Bytes) (top : Elems) (stack : List Elems) (rv : Option Elems)
    → (t === codes "{") ≡ false
    → (t === codes "}") ≡ false
    → load_tokens (t ∷ ts) (top ∷ stack) rv
      ≡ load_tokens ts (append top (cons (load_item t) nil) ∷ stack) rv
unfolding load_tokens
step_item t ts top stack rv h k = rw (h, k) refl

-- The item that a token of `quote` is read as.
load_item-quote :
    (b : Bytes)
    → (load_item (quote b) ≡ item b)
      × ((quote b === codes "{") ≡ false)
      × ((quote b === codes "}") ≡ false)
load_item-quote b = elim (Bool-cases (needs_quotes b)) [
  | inl quoted ↦ rw (quote-quoted b quoted) (load_item-quoted b, refl, refl)
  | inr bare ↦
      let parts = unquoted b bare in
      let plain = plain_bytes b parts.1 in
      rw (quote-unquoted b bare) (
        load_item-bare b parts.0 plain (not_null b parts.2),
        not_bracket b'{' b (unfold is_plain in refl) plain,
        not_bracket b'}' b (unfold is_plain in refl) plain,
      )
]

-- `rv` behind an item.
after : Elem → Option Elems → Option Elems
after null rv = rv
after (item b) rv = rv
after (sub xs) rv = some xs

null_read : load_item (codes "NULL") ≡ null
unfolding load_item
null_read = refl

added :
    (x : Elem) (top : Elems) (stack : List Elems)
    → add_to_last x (top ∷ stack) ≡ append top (cons x nil) ∷ stack
unfolding add_to_last
added x top stack = refl

run_item :
    (b : Bytes) (ts : List Bytes) (top : Elems) (stack : List Elems) (rv : Option Elems)
    → load_tokens (quote b ∷ ts) (top ∷ stack) rv
      ≡ load_tokens ts (append top (cons (item b) nil) ∷ stack) rv
run_item b ts top stack rv =
    let read = load_item-quote b in
    step_item (quote b) ts top stack rv read.1 read.2
    ∙ ap (λ x. load_tokens ts (append top (cons x nil) ∷ stack) rv) read.0

run_null :
    (ts : List Bytes) (top : Elems) (stack : List Elems) (rv : Option Elems)
    → load_tokens (codes "NULL" ∷ ts) (top ∷ stack) rv
      ≡ load_tokens ts (append top (cons null nil) ∷ stack) rv
run_null ts top stack rv =
    step_item (codes "NULL") ts top stack rv refl refl
    ∙ ap (λ x. load_tokens ts (append top (cons x nil) ∷ stack) rv) null_read

append_nil_left : (xs : Elems) → append nil xs ≡ xs
unfolding append
append_nil_left xs = refl

append-cons :
    (top : Elems) (x : Elem) (xs : Elems)
    → append (append top (cons x nil)) xs ≡ append top (cons x xs)
unfolding append
append-cons top x xs = append_assoc top (cons x nil) xs

mutual
  unfolding after elem_tokens

  run-elem :
      (x : Elem) (ts : List Bytes) (top : Elems) (stack : List Elems) (rv : Option Elems)
      → load_tokens (elem_tokens x ++ ts) (top ∷ stack) rv
        ≡ load_tokens ts (append top (cons x nil) ∷ stack) (after x rv)
  run-elem null ts top stack rv = run_null ts top stack rv
  run-elem (item b) ts top stack rv = run_item b ts top stack rv
  run-elem (sub xs) ts top stack rv =
      run-list xs ts (top ∷ stack) rv
      ∙ ap (λ st. load_tokens ts st (some xs)) (added (sub xs) top stack)

  run-list :
      (xs : Elems) (ts : List Bytes) (stack : List Elems) (rv : Option Elems)
      → load_tokens (list_tokens xs ++ ts) stack rv
        ≡ load_tokens ts (add_to_last (sub xs) stack) (some xs)
  run-list nil ts stack rv = step_open (codes "}" ∷ ts) stack rv ∙ step_close ts nil stack rv
  run-list (cons x xs) ts stack rv =
      step_open ((elem_tokens x ++ rest_tokens xs) ++ ts) stack rv
      ∙ ap (λ us. load_tokens us (nil ∷ stack) rv) (list_assoc (elem_tokens x) (rest_tokens xs) ts)
      ∙ run-elem x (rest_tokens xs ++ ts) nil stack rv
      ∙ run-rest xs ts (append nil (cons x nil)) stack (after x rv)
      ∙ ap (λ ys. load_tokens ts (add_to_last (sub ys) stack) (some ys))
          (append-cons nil x xs ∙ append_nil_left (cons x xs))

  run-rest :
      (xs : Elems) (ts : List Bytes) (top : Elems) (stack : List Elems) (rv : Option Elems)
      → load_tokens (rest_tokens xs ++ ts) (top ∷ stack) rv
        ≡ load_tokens ts (add_to_last (sub (append top xs)) stack) (some (append top xs))
  run-rest nil ts top stack rv =
      step_close ts top stack rv
      ∙ ap (λ ys. load_tokens ts (add_to_last (sub ys) stack) (some ys)) (sym (append-nil top))
  run-rest (cons x xs) ts top stack rv =
      ap (λ us. load_tokens us (top ∷ stack) rv) (list_assoc (elem_tokens x) (rest_tokens xs) ts)
      ∙ run-elem x (rest_tokens xs ++ ts) top stack rv
      ∙ run-rest xs ts (append top (cons x nil)) stack (after x rv)
      ∙ ap (λ ys. load_tokens ts (add_to_last (sub ys) stack) (some ys)) (append-cons top x xs)

-- Whatever the items and the nesting of a list, lists that are empty included, what is written for it is
-- read back as that list.
pub load-dump : (xs : Elems) → load (dump xs) ≡ loaded xs
unfolding load
load-dump xs =
    ap (λ s. load_tokens (tokens s) [] none) (dump-text_list xs)
    ∙ ap (λ ts. load_tokens ts [] none) (tokens-text_list xs ∙ sym (list_nil (list_tokens xs)))
    ∙ run-list xs [] [] none
    ∙ ended
  where
    ended : load_tokens [] (add_to_last (sub xs) []) (some xs) ≡ loaded xs
    ended = unfold load_tokens add_to_last in refl
