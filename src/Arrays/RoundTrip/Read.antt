-- ===== src/Arrays/RoundTrip/Read.antt =====
-- The tokens in which `ArrayLoader` of psycopg3/psycopg3/types/array.py reads what `ListDumper` writes.
use psycopg.Prelude.{
  ℕ, ◌≡◌, refl, sym, ap, ◌∙◌, true, false, List, [], ◌∷◌, ◌++◌, Bytes, codes, ◌==◌, arith, All,
  append_assoc, append-nil, Bool-cases, inl, inr,
}
use psycopg.Arrays.{Elem, Elems, null, item, sub, nil, cons}
use psycopg.Arrays.Dump.{quote, needs_quotes, escape, is_empty}
use psycopg.Arrays.Load.{is_plain, skip_comma, tokens}
use psycopg.Arrays.Load.Tokens.{tokens-bracket, tokens-quoted, tokens-plain, EndsPlain}
use psycopg.Arrays.Print.{text_elem, text_list, text_rest, unquoted, plain_bytes}

unfoldable mutual
  pub elem_tokens : Elem → List Bytes
  elem_tokens null = codes "NULL" ∷ []
  elem_tokens (item b) = quote b ∷ []
  elem_tokens (sub xs) = list_tokens xs

  pub list_tokens : Elems → List Bytes
  list_tokens nil = codes "{" ∷ codes "}" ∷ []
  list_tokens (cons x xs) = codes "{" ∷ (elem_tokens x ++ rest_tokens xs)

  pub rest_tokens : Elems → List Bytes
  rest_tokens nil = codes "}" ∷ []
  rest_tokens (cons x xs) = elem_tokens x ++ rest_tokens xs

pub quote-quoted : (b : Bytes) → needs_quotes b ≡ true → quote b ≡ b'"' ∷ (escape b ++ b'"' ∷ [])
unfolding quote
quote-quoted b h = rw h

pub quote-unquoted : (b : Bytes) → needs_quotes b ≡ false → quote b ≡ b
unfolding quote
quote-unquoted b h = rw h

quoted_tokens :
    (b s : Bytes)
    → tokens ((b'"' ∷ (escape b ++ b'"' ∷ [])) ++ s)
      ≡ (b'"' ∷ (escape b ++ b'"' ∷ [])) ∷ tokens (skip_comma s)
quoted_tokens b s =
    ap (λ t. tokens (b'"' ∷ t)) (append_assoc (escape b) (b'"' ∷ []) s) ∙ tokens-quoted b s

plain_tokens :
    (b s : Bytes)
    → is_empty b ≡ false
    → All (λ c. is_plain c ≡ true) b
    → EndsPlain s
    → tokens (b ++ s) ≡ b ∷ tokens (skip_comma s)
plain_tokens [] s h p e = unfold is_empty in cc h
plain_tokens (c ∷ b) s h p e = tokens-plain c b s p e

tokens-quote : (b s : Bytes) → EndsPlain s → tokens (quote b ++ s) ≡ quote b ∷ tokens (skip_comma s)
tokens-quote b s e = elim (Bool-cases (needs_quotes b)) [
  | inl quoted ↦ rw (quote-quoted b quoted) (quoted_tokens b s)
  | inr bare ↦
      let parts = unquoted b bare in
      rw (quote-unquoted b bare) (plain_tokens b s parts.0 (plain_bytes b parts.1) e)
]

skip_comma-plain :
    (b s : Bytes)
    → is_empty b ≡ false
    → All (λ c. is_plain c ≡ true) b
    → skip_comma (b ++ s) ≡ b ++ s
unfolding skip_comma is_plain
skip_comma-plain [] s h p = unfold is_empty in cc h
skip_comma-plain (c ∷ b) s h p = ground (arith, p.0)

skip_comma-other : (c : ℕ) (s : Bytes) → (c == b',') ≡ false → skip_comma (c ∷ s) ≡ c ∷ s
unfolding skip_comma
skip_comma-other c s h = rw h

-- No text of an item begins with a comma.
skip_comma-text : (x : Elem) (s : Bytes) → skip_comma (text_elem x ++ s) ≡ text_elem x ++ s
unfolding text_elem
skip_comma-text null s = skip_comma-other b'N' _ refl
skip_comma-text (item b) s = elim (Bool-cases (needs_quotes b)) [
  | inl quoted ↦ rw (quote-quoted b quoted) (skip_comma-other b'"' _ refl)
  | inr bare ↦
      let parts = unquoted b bare in
      rw (quote-unquoted b bare) (skip_comma-plain b s parts.0 (plain_bytes b parts.1))
]
skip_comma-text (sub nil) s = skip_comma-other b'{' _ refl
skip_comma-text (sub (cons x xs)) s = skip_comma-other b'{' _ refl

rest-EndsPlain : (xs : Elems) (s : Bytes) → EndsPlain (text_rest xs ++ s)
unfolding text_elem is_plain
rest-EndsPlain nil s = refl
rest-EndsPlain (cons x xs) s = refl

null_tokens :
    (s : Bytes) → EndsPlain s → tokens (codes "NULL" ++ s) ≡ codes "NULL" ∷ tokens (skip_comma s)
null_tokens s e =
    plain_tokens (codes "NULL") s (unfold is_empty in refl)
      (unfold is_plain in (refl, (refl, (refl, (refl, tt))))) e

comma_skipped : (s : Bytes) → skip_comma (b',' ∷ s) ≡ s
unfolding skip_comma
comma_skipped s = refl

mutual
  unfolding text_elem elem_tokens

  tokens-elem :
      (x : Elem) (s : Bytes)
      → EndsPlain s
      → tokens (text_elem x ++ s) ≡ elem_tokens x ++ tokens (skip_comma s)
  tokens-elem null s e = null_tokens s e
  tokens-elem (item b) s e = tokens-quote b s e
  tokens-elem (sub xs) s e = tokens-list xs s

  tokens-list :
      (xs : Elems) (s : Bytes)
      → tokens (text_list xs ++ s) ≡ list_tokens xs ++ tokens (skip_comma s)
  tokens-list nil s =
      tokens-bracket b'{' (b'}' ∷ s) refl
      ∙ ap (λ ts. codes "{" ∷ ts)
          (ap tokens (skip_comma-other b'}' s refl) ∙ tokens-bracket b'}' s refl)
  tokens-list (cons x xs) s =
      tokens-bracket b'{' ((text_elem x ++ text_rest xs) ++ s) refl
      ∙ ap (λ ts. codes "{" ∷ ts)
          (ap (λ t. tokens (skip_comma t)) (append_assoc (text_elem x) (text_rest xs) s)
            ∙ ap tokens (skip_comma-text x (text_rest xs ++ s))
            ∙ tokens-elem x (text_rest xs ++ s) (rest-EndsPlain xs s)
            ∙ ap (λ ts. elem_tokens x ++ ts) (tokens-rest xs s)
            ∙ sym (append_assoc (elem_tokens x) (rest_tokens xs) (tokens (skip_comma s))))

  tokens-rest :
      (xs : Elems) (s : Bytes)
      → tokens (skip_comma (text_rest xs ++ s)) ≡ rest_tokens xs ++ tokens (skip_comma s)
  tokens-rest nil s = ap tokens (skip_comma-other b'}' s refl) ∙ tokens-bracket b'}' s refl
  tokens-rest (cons x xs) s =
      ap tokens (comma_skipped ((text_elem x ++ text_rest xs) ++ s))
      ∙ ap tokens (append_assoc (text_elem x) (text_rest xs) s)
      ∙ tokens-elem x (text_rest xs ++ s) (rest-EndsPlain xs s)
      ∙ ap (λ ts. elem_tokens x ++ ts) (tokens-rest xs s)
      ∙ sym (append_assoc (elem_tokens x) (rest_tokens xs) (tokens (skip_comma s)))

pub tokens-text_list : (xs : Elems) → tokens (text_list xs) ≡ list_tokens xs
tokens-text_list xs =
    ap tokens (sym (append-nil (text_list xs)))
    ∙ tokens-list xs []
    ∙ ap (λ ts. list_tokens xs ++ ts) nothing_left
    ∙ append-nil (list_tokens xs)
  where
    nothing_left : tokens (skip_comma []) ≡ []
    nothing_left = unfold tokens skip_comma in refl
