-- ===== src/Arrays/Load/Tokens.antt =====
-- The tokens of `ArrayLoader` in psycopg3/psycopg3/types/array.py, one by one.
use psycopg.Prelude.{
  ℕ, zero, suc, ◌≤◌, ◌≡◌, refl, sym, ap, subst, ◌∙◌, Bool, true, false, ◌||◌, Option, none, some,
  [], ◌∷◌, ◌++◌, Bytes, length, ◌==◌, arith, if◌then◌else◌, Option-cases, Bool-cases, inl, inr, All,
}
use psycopg.Arrays.Dump.{escape}
use psycopg.Arrays.Load.{
  match_quoted, match_plain, match_token, prepend, skip_comma, find_tokens, tokens, is_plain,
}

pub escape-special :
    (c : ℕ) (b : Bytes) → (c == b'"' || c == 92) ≡ true → escape (c ∷ b) ≡ 92 ∷ c ∷ escape b
unfolding escape
escape-special c b h = rw h

pub escape-plain :
    (c : ℕ) (b : Bytes) → (c == b'"' || c == 92) ≡ false → escape (c ∷ b) ≡ c ∷ escape b
unfolding escape
escape-plain c b h = rw h

-- A match leaves no more than it was given.
abbrev Leaves : ℕ → Option (Bytes × Bytes) → Type 0
Leaves n none = Unit
Leaves n (some (t, rest)) = length rest ≤ n

Leaves-prepend :
    (n m : ℕ) (p : Bytes) (r : Option (Bytes × Bytes)) → n ≤ m → Leaves n r → Leaves m (prepend p r)
Leaves-prepend n m p none h l = tt
Leaves-prepend n m p (some (t, rest)) h l = omega arith

Leaves-if :
    (n : ℕ) (b : Bool) (x y : Option (Bytes × Bytes))
    → Leaves n x
    → Leaves n y
    → Leaves n (if b then x else y)
Leaves-if n true x y h k = h
Leaves-if n false x y h k = k

match_quoted-Leaves : (s : Bytes) → Leaves (length s) (match_quoted s)
unfolding match_quoted
match_quoted-Leaves [] = tt
match_quoted-Leaves (c ∷ []) = Leaves-if 1 (c == b'"') (some (b'"' ∷ [], [])) none (omega arith) tt
match_quoted-Leaves (c ∷ d ∷ s) = Leaves-if n (c == b'"') _ _ (omega arith) (
    Leaves-if n (c == 92) _ _
      (Leaves-if n (d == 10) none _ tt (
        Leaves-prepend (length s) n (c ∷ d ∷ []) (match_quoted s) (omega arith)
          (match_quoted-Leaves s)))
      (Leaves-prepend (length (d ∷ s)) n (c ∷ []) (match_quoted (d ∷ s)) (omega arith)
        (match_quoted-Leaves (d ∷ s))))
  where
    n : ℕ
    n = suc (suc (length s))

match_plain_le : (s : Bytes) → length (match_plain s).1 ≤ length s
unfolding match_plain
match_plain_le [] = omega arith
match_plain_le (c ∷ s) = ground (arith, match_plain_le s)

match_token-Leaves : (c : ℕ) (s : Bytes) → Leaves (length s) (match_token c s)
unfolding match_token
match_token-Leaves c s = Leaves-if (length s) (c == b'{' || c == b'}') _ _ (omega arith) (
    Leaves-if (length s) (c == b'"') _ _
      (Leaves-prepend (length s) (length s) (c ∷ []) (match_quoted s) (omega arith)
        (match_quoted-Leaves s))
      (plain_case (is_plain c)))
  where
    plain_case :
        (b : Bool)
        → Leaves (length s) (
            if b
            then some (if b then (c ∷ (match_plain s).0, (match_plain s).1) else ([], c ∷ s))
            else none)
    plain_case true = match_plain_le s
    plain_case false = tt

skip_comma_le : (s : Bytes) → length (skip_comma s) ≤ length s
unfolding skip_comma
skip_comma_le [] = omega arith
skip_comma_le (c ∷ s) = ground arith

find_tokens-some :
    (f c : ℕ) (s t rest : Bytes)
    → match_token c s ≡ some (t, rest)
    → find_tokens (suc f) (c ∷ s) ≡ t ∷ find_tokens f (skip_comma rest)
unfolding find_tokens
find_tokens-some f c s t rest h = rw (h, find_tokens)

find_tokens-none :
    (f c : ℕ) (s : Bytes) → match_token c s ≡ none → find_tokens (suc f) (c ∷ s) ≡ find_tokens f s
unfolding find_tokens
find_tokens-none f c s h = rw (h, find_tokens)

-- Any fuel that the data do not exceed gives the same tokens.
find_tokens_fuel :
    (f g : ℕ) (s : Bytes) → length s ≤ f → length s ≤ g → find_tokens f s ≡ find_tokens g s
find_tokens_fuel zero zero s h k = refl
find_tokens_fuel zero (suc g) [] h k = unfold find_tokens in refl
find_tokens_fuel zero (suc g) (c ∷ s) h k = absurd (omega arith)
find_tokens_fuel (suc f) zero [] h k = unfold find_tokens in refl
find_tokens_fuel (suc f) zero (c ∷ s) h k = absurd (omega arith)
find_tokens_fuel (suc f) (suc g) [] h k = unfold find_tokens in refl
find_tokens_fuel (suc f) (suc g) (c ∷ s) h k = elim (Option-cases (match_token c s)) [
  | inl none_found ↦
      find_tokens-none f c s none_found
      ∙ find_tokens_fuel f g s (omega arith) (omega arith)
      ∙ sym (find_tokens-none g c s none_found)
  | inr ((t, rest), found) ↦
      let shorter : length rest ≤ length s =
        subst (Leaves (length s)) found (match_token-Leaves c s) in
      find_tokens-some f c s t rest found
      ∙ ap (λ ts. t ∷ ts)
          (find_tokens_fuel f g (skip_comma rest) (omega (arith, skip_comma_le rest, shorter))
            (omega (arith, skip_comma_le rest, shorter)))
      ∙ sym (find_tokens-some g c s t rest found)
]

tokens-match :
    (c : ℕ) (s t rest : Bytes)
    → match_token c s ≡ some (t, rest)
    → tokens (c ∷ s) ≡ t ∷ tokens (skip_comma rest)
unfolding tokens
tokens-match c s t rest found =
    let shorter : length rest ≤ length s =
      subst (Leaves (length s)) found (match_token-Leaves c s) in
    find_tokens-some (length s) c s t rest found
    ∙ ap (λ ts. t ∷ ts)
        (find_tokens_fuel (length s) (length (skip_comma rest)) (skip_comma rest)
          (omega (arith, skip_comma_le rest, shorter)) (omega arith))

pub tokens-bracket :
    (c : ℕ) (s : Bytes)
    → (c == b'{' || c == b'}') ≡ true
    → tokens (c ∷ s) ≡ (c ∷ []) ∷ tokens (skip_comma s)
tokens-bracket c s h = tokens-match c s (c ∷ []) s (unfold match_token in rw h)

match_quoted-plain :
    (c : ℕ) (s : Bytes)
    → (c == b'"') ≡ false
    → (c == 92) ≡ false
    → match_quoted (c ∷ s) ≡ prepend (c ∷ []) (match_quoted s)
unfolding match_quoted
match_quoted-plain c [] h k = rw h
match_quoted-plain c (d ∷ s) h k = rw (h, k)

match_quoted-escape :
    (d : ℕ) (s : Bytes)
    → (d == 10) ≡ false
    → match_quoted (92 ∷ d ∷ s) ≡ prepend (92 ∷ d ∷ []) (match_quoted s)
unfolding match_quoted
match_quoted-escape d s h = rw h

pub match_quoted-escaped :
    (b s : Bytes) → match_quoted (escape b ++ b'"' ∷ s) ≡ some (escape b ++ b'"' ∷ [], s)
match_quoted-escaped [] [] = unfold match_quoted escape in refl
match_quoted-escaped [] (c ∷ s) = unfold match_quoted escape in refl
match_quoted-escaped (c ∷ b) s = elim (Bool-cases (c == b'"' || c == 92)) [
  | inl special ↦ rw (escape-special c b special) (
      match_quoted-escape c (escape b ++ b'"' ∷ s) (ground (arith, special))
      ∙ ap (prepend (92 ∷ c ∷ [])) (match_quoted-escaped b s))
  | inr plain ↦ rw (escape-plain c b plain) (
      match_quoted-plain c (escape b ++ b'"' ∷ s) (ground (arith, plain)) (ground (arith, plain))
      ∙ ap (prepend (c ∷ [])) (match_quoted-escaped b s))
]

pub tokens-quoted :
    (b s : Bytes)
    → tokens (b'"' ∷ (escape b ++ b'"' ∷ s))
      ≡ (b'"' ∷ (escape b ++ b'"' ∷ [])) ∷ tokens (skip_comma s)
tokens-quoted b s =
    tokens-match b'"' (escape b ++ b'"' ∷ s) _ s
      (unfold match_token in rw (match_quoted-escaped b s) refl)

-- The plain bytes end where the rest begins.
abbrev pub EndsPlain : Bytes → Type 0
EndsPlain [] = Unit
EndsPlain (d ∷ s) = is_plain d ≡ false

match_plain-append :
    (b s : Bytes) → All (λ c. is_plain c ≡ true) b → EndsPlain s → match_plain (b ++ s) ≡ (b, s)
unfolding match_plain
match_plain-append [] [] h e = refl
match_plain-append [] (d ∷ s) h e = rw e refl
match_plain-append (c ∷ b) s h e = rw (h.0, match_plain-append b s h.1 e) refl

match_token-plain :
    (c : ℕ) (s : Bytes) → is_plain c ≡ true → match_token c s ≡ some (match_plain (c ∷ s))
unfolding match_token
match_token-plain c s h = ground (arith, h)

pub tokens-plain :
    (c : ℕ) (b s : Bytes)
    → All (λ d. is_plain d ≡ true) (c ∷ b)
    → EndsPlain s
    → tokens ((c ∷ b) ++ s) ≡ (c ∷ b) ∷ tokens (skip_comma s)
tokens-plain c b s h e =
    tokens-match c (b ++ s) (c ∷ b) s
      (match_token-plain c (b ++ s) h.0 ∙ ap some (match_plain-append (c ∷ b) s h e))
