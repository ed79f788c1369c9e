-- ===== src/Composites/Tokens.antt =====
-- The matches in which `RecordLoader` of psycopg3/psycopg3/types/composite.py reads items.
use psycopg.Prelude.{
  ℕ, ◌≡◌, refl, sym, ap, ◌∙◌, Bool, true, false, ◌||◌, Option, none, some, [], ◌∷◌, ◌++◌, Bytes,
  append_assoc, ◌==◌, if◌then◌else◌, arith, Bool-cases, inl, inr, ==_iff,
}
use psycopg.Prelude.Equality.{nat_eq, list_eq}
use psycopg.Composites.{
  is_special, has_special, double, quoted, dump_item, undouble, prepend, match_quoted, is_plain,
  match_plain, FieldMatch, with_comma, quoted_field, match_token,
}

-- Doubling is undone.
undouble-plain :
    (c : ℕ) (t : Bytes) → (c == 92 || c == b'"') ≡ false → undouble (c ∷ t) ≡ c ∷ undouble t
unfolding undouble
undouble-plain c [] h = refl
undouble-plain c (d ∷ t) h = rw h refl

undouble-pair :
    (c : ℕ) (t : Bytes) → (c == 92 || c == b'"') ≡ true → undouble (c ∷ c ∷ t) ≡ c ∷ undouble t
unfolding undouble
undouble-pair c t h = rw (h, (==_iff c c).1 refl) refl

double-plain : (c : ℕ) (b : Bytes) → (c == 92 || c == b'"') ≡ false → double (c ∷ b) ≡ c ∷ double b
unfolding double
double-plain c b h = rw h refl

double-pair :
    (c : ℕ) (b : Bytes) → (c == 92 || c == b'"') ≡ true → double (c ∷ b) ≡ c ∷ c ∷ double b
unfolding double
double-pair c b h = rw h refl

undouble-double : (b : Bytes) → undouble (double b) ≡ b
unfolding undouble double
undouble-double [] = refl
undouble-double (c ∷ b) = elim (Bool-cases (c == 92 || c == b'"')) [
  | inl h ↦
      ap undouble (double-pair c b h)
      ∙ undouble-pair c (double b) h
      ∙ ap (λ t. c ∷ t) (undouble-double b)
  | inr h ↦
      ap undouble (double-plain c b h)
      ∙ undouble-plain c (double b) h
      ∙ ap (λ t. c ∷ t) (undouble-double b)
]

-- What is behind an item: nothing, or a comma and more.
abbrev pub behind : Option Bytes → Bytes
behind none = []
behind (some s) = b',' ∷ s

abbrev pub later : Option Bytes → Bytes
later none = []
later (some s) = s

abbrev pub found : Option Bytes → Option Bytes → FieldMatch
found v none = record { value = v; comma = false }
found v (some s) = record { value = v; comma = true }

with_comma-behind :
    (t : Bytes) (r : Option Bytes) → with_comma t (behind r) ≡ (found (some t) r, later r)
unfolding with_comma
with_comma-behind t none = refl
with_comma-behind t (some s) = refl

match_quoted-plain :
    (c : ℕ) (t : Bytes)
    → (c == b'"') ≡ false
    → match_quoted (c ∷ t) ≡ prepend (c ∷ []) (match_quoted t)
unfolding match_quoted
match_quoted-plain c [] h = rw h refl
match_quoted-plain c (d ∷ t) h = rw h refl

match_quoted-pair :
    (c : ℕ) (t : Bytes) {m : Bytes × Bytes}
    → (c == b'"') ≡ true
    → match_quoted t ≡ some m
    → match_quoted (c ∷ c ∷ t) ≡ prepend (c ∷ c ∷ []) (some m)
unfolding match_quoted
match_quoted-pair c t h k = rw (h, k) refl

match_quoted-double :
    (b : Bytes) (r : Option Bytes)
    → match_quoted (double b ++ b'"' ∷ behind r) ≡ some (double b, behind r)
unfolding match_quoted double
match_quoted-double [] none = refl
match_quoted-double [] (some s) = refl
match_quoted-double (c ∷ b) r =
    let rest = match_quoted-double b r in
    let t = double b ++ b'"' ∷ behind r in
    elim (Bool-cases (c == b'"')) [
      | inl quote ↦
          ap (λ d. match_quoted (d ++ b'"' ∷ behind r)) (double-pair c b (rw quote (ground arith)))
          ∙ match_quoted-pair c t quote rest
          ∙ ap (λ d. some (d, behind r)) (sym (double-pair c b (rw quote (ground arith))))
      | inr other ↦ elim (Bool-cases (c == 92)) [
        | inl slash ↦
            ap (λ d. match_quoted (d ++ b'"' ∷ behind r)) (double-pair c b (rw slash refl))
            ∙ match_quoted-plain c (c ∷ t) other
            ∙ ap (prepend (c ∷ [])) (match_quoted-plain c t other)
            ∙ ap (λ m. prepend (c ∷ []) (prepend (c ∷ []) m)) rest
            ∙ ap (λ d. some (d, behind r)) (sym (double-pair c b (rw slash refl)))
        | inr plain ↦
            ap (λ d. match_quoted (d ++ b'"' ∷ behind r))
              (double-plain c b (rw (plain, other) refl))
            ∙ match_quoted-plain c t other
            ∙ ap (prepend (c ∷ [])) rest
            ∙ ap (λ d. some (d, behind r)) (sym (double-plain c b (rw (plain, other) refl)))
      ]
    ]

-- An item that needs no quotes.
special-plain :
    (c : ℕ)
    → is_special c ≡ false
    → (is_plain c ≡ true) × ((c == b',') ≡ false) × ((c == b'"') ≡ false)
unfolding is_special is_plain
special-plain c h = ground arith

match_plain-behind : (r : Option Bytes) → match_plain (behind r) ≡ ([], behind r)
unfolding match_plain is_plain
match_plain-behind none = refl
match_plain-behind (some s) = refl

match_plain-cons :
    (c : ℕ) (t : Bytes)
    → is_plain c ≡ true
    → match_plain (c ∷ t) ≡ (c ∷ (match_plain t).0, (match_plain t).1)
unfolding match_plain
match_plain-cons c t h = rw h refl

has_special-head : (c : ℕ) (b : Bytes) → has_special (c ∷ b) ≡ false → is_special c ≡ false
unfolding has_special
has_special-head c b h = ground arith

has_special-rest : (c : ℕ) (b : Bytes) → has_special (c ∷ b) ≡ false → has_special b ≡ false
unfolding has_special
has_special-rest c b h = ground arith

match_plain-item :
    (b : Bytes) (r : Option Bytes)
    → has_special b ≡ false
    → match_plain (b ++ behind r) ≡ (b, behind r)
match_plain-item [] r h = match_plain-behind r
match_plain-item (c ∷ b) r h =
    match_plain-cons c (b ++ behind r) (special-plain c (has_special-head c b h)).0
    ∙ ap (λ m. (c ∷ m.0, m.1)) (match_plain-item b r (has_special-rest c b h))

-- The match of an item.
match_token-quoted :
    (b : Bytes) (r : Option Bytes)
    → match_token b'"' (double b ++ b'"' ∷ behind r) ≡ some (found (some b) r, later r)
unfolding match_token
match_token-quoted b r =
    ap quoted_field (match_quoted-double b r)
    ∙ ap (λ t. some (with_comma t (behind r))) (undouble-double b)
    ∙ ap some (with_comma-behind b r)

third :
    {A : Type 0} (b1 b2 b3 : Bool) (x y z u : A)
    → b1 ≡ false
    → b2 ≡ false
    → b3 ≡ true
    → (if b1 then x else if b2 then y else if b3 then z else u) ≡ z
third b1 b2 b3 x y z u h1 h2 h3 = rw (h1, h2, h3) refl

match_token-plain :
    (c : ℕ) (b : Bytes) (r : Option Bytes)
    → has_special (c ∷ b) ≡ false
    → match_token c (b ++ behind r) ≡ some (found (some (c ∷ b)) r, later r)
unfolding match_token
match_token-plain c b r h =
    let (plain, comma, quote) = special-plain c (has_special-head c b h) in
    third (c == b',') (c == b'"') (is_plain c) _ _
      (some
        (with_comma (match_plain (c ∷ (b ++ behind r))).0 (match_plain (c ∷ (b ++ behind r))).1))
      none comma quote plain
    ∙ ap (λ m. some (with_comma m.0 m.1)) (match_plain-item (c ∷ b) r h)
    ∙ ap some (with_comma-behind (c ∷ b) r)

-- An item begins with a byte at which it is matched.
abbrev IsMatched : Bytes → Option Bytes → Type 0
IsMatched b r =
    (c : ℕ) × (t : Bytes) × (dump_item b ++ behind r ≡ c ∷ t)
    × (match_token c t ≡ some (found (some b) r, later r))

dump_item-special :
    (c : ℕ) (b : Bytes) → has_special (c ∷ b) ≡ true → dump_item (c ∷ b) ≡ quoted (c ∷ b)
unfolding dump_item
dump_item-special c b h = rw h refl

dump_item-bare : (c : ℕ) (b : Bytes) → has_special (c ∷ b) ≡ false → dump_item (c ∷ b) ≡ c ∷ b
unfolding dump_item
dump_item-bare c b h = rw h refl

dump_item-nothing : dump_item [] ≡ quoted []
unfolding dump_item double
dump_item-nothing = refl

quoted-IsMatched : (b : Bytes) (r : Option Bytes) → dump_item b ≡ quoted b → IsMatched b r
quoted-IsMatched b r h = (
  b'"',
  double b ++ b'"' ∷ behind r,
  ap (λ q. q ++ behind r) h ∙ ap (λ q. b'"' ∷ q) (append_assoc (double b) (b'"' ∷ []) (behind r)),
  match_token-quoted b r,
)

pub item-IsMatched : (b : Bytes) (r : Option Bytes) → IsMatched b r
item-IsMatched [] r = quoted-IsMatched [] r dump_item-nothing
item-IsMatched (c ∷ b) r = elim (Bool-cases (has_special (c ∷ b))) [
  | inl h ↦ quoted-IsMatched (c ∷ b) r (dump_item-special c b h)
  | inr h ↦
      (c, b ++ behind r, ap (λ q. q ++ behind r) (dump_item-bare c b h), match_token-plain c b r h)
]
