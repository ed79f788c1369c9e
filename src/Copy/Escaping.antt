-- ===== src/Copy/Escaping.antt =====
-- What both implementations of COPY in text format have in common, psycopg3/psycopg3/copy.py and
-- psycopg3_c/psycopg3_c/_psycopg3/copy.pyx: a backslash, and a byte behind it that each chooses.
use psycopg.Prelude.{
  ◌≡◌, refl, sym, ap, ◌∙◌, ℕ, Option, none, some, [], ◌∷◌, ◌++◌, Bytes, All, Option-cases, inl, inr,
}
use psycopg.Copy.Text.{Row, dump_repl, dump_sub, format_item}
use psycopg.Copy.Text.RoundTrip.{line}

-- A predicate at each byte of an item that is not NULL.
abbrev pub ItemOf : (ℕ → Type 0) → Option Bytes → Type 0
ItemOf P none = Unit
ItemOf P (some b) = All P b

-- `e` says what stands behind the backslash, of the bytes that get one.
unfoldable pub escape_with : (ℕ → Option ℕ) → Bytes → Bytes
escape_with e [] = []
escape_with e (c ∷ b) =
    let rest = escape_with e b in elim (e c) [ none ↦ c ∷ rest | some l ↦ 92 ∷ l ∷ rest ]

unfoldable pub item_with : (ℕ → Option ℕ) → Option Bytes → Bytes
item_with e none = 92 ∷ b'N' ∷ []
item_with e (some b) = escape_with e b

unfoldable pub line_with : (ℕ → Option ℕ) → Option Bytes → Row → Bytes
line_with e item [] = item_with e item ++ 10 ∷ []
line_with e item (i ∷ row) = item_with e item ++ (9 ∷ line_with e i row)

module _ (e : ℕ → Option ℕ) where
  pub escape_with-plain :
      (c : ℕ) (b : Bytes) → e c ≡ none → escape_with e (c ∷ b) ≡ c ∷ escape_with e b
  unfolding escape_with
  escape_with-plain c b h = rw (h, escape_with)

  pub escape_with-escape :
      (c l : ℕ) (b : Bytes) → e c ≡ some l → escape_with e (c ∷ b) ≡ 92 ∷ l ∷ escape_with e b
  unfolding escape_with
  escape_with-escape c l b h = rw (h, escape_with)

-- Two choices that agree on every byte write the same.
module _ (e f : ℕ → Option ℕ) (P : ℕ → Type 0) (same : (c : ℕ) → P c → e c ≡ f c) where
  escape_with_ext : (b : Bytes) → All P b → escape_with e b ≡ escape_with f b
  unfolding escape_with
  escape_with_ext [] h = refl
  escape_with_ext (c ∷ b) h = elim (Option-cases (f c)) [
    | inl plain ↦
        escape_with-plain e c b (same c h.0 ∙ plain)
        ∙ ap (λ s. c ∷ s) (escape_with_ext b h.1)
        ∙ sym (escape_with-plain f c b plain)
    | inr (l, escaped) ↦
        escape_with-escape e c l b (same c h.0 ∙ escaped)
        ∙ ap (λ s. 92 ∷ l ∷ s) (escape_with_ext b h.1)
        ∙ sym (escape_with-escape f c l b escaped)
  ]

  item_with_ext : (item : Option Bytes) → ItemOf P item → item_with e item ≡ item_with f item
  unfolding item_with
  item_with_ext none h = refl
  item_with_ext (some b) h = escape_with_ext b h

  pub line_with_ext :
      (item : Option Bytes) (row : Row)
      → ItemOf P item
      → All (ItemOf P) row
      → line_with e item row ≡ line_with f item row
  unfolding line_with
  line_with_ext item [] h k = rw (item_with_ext item h)
  line_with_ext item (i ∷ row) h k =
      rw (item_with_ext item h)
        (ap (λ s. item_with f item ++ (9 ∷ s)) (line_with_ext i row k.0 k.1))

-- The implementation in Python is the one that writes a letter.
pub dump_sub-escape_with : (b : Bytes) → dump_sub b ≡ escape_with dump_repl b
unfolding dump_sub escape_with
dump_sub-escape_with [] = refl
dump_sub-escape_with (c ∷ b) = elim (Option-cases (dump_repl c)) [
  | inl plain ↦ rw (plain, dump_sub, escape_with) (ap (λ s. c ∷ s) (dump_sub-escape_with b))
  | inr (l, escaped) ↦
      rw (escaped, dump_sub, escape_with) (ap (λ s. 92 ∷ l ∷ s) (dump_sub-escape_with b))
]

pub format_item-item_with : (item : Option Bytes) → format_item item ≡ item_with dump_repl item
unfolding format_item item_with
format_item-item_with none = refl
format_item-item_with (some b) = dump_sub-escape_with b

pub line-line_with :
    (item : Option Bytes) (row : Row) → line item row ≡ line_with dump_repl item row
unfolding line line_with
line-line_with item [] = ap (λ s. s ++ 10 ∷ []) (format_item-item_with item)
line-line_with item (i ∷ row) =
    rw (format_item-item_with item)
      (ap (λ s. item_with dump_repl item ++ (9 ∷ s)) (line-line_with i row))
