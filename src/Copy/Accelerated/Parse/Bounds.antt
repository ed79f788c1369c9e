-- ===== src/Copy/Accelerated/Parse/Bounds.antt =====
-- The writes of `parse_row_text` in psycopg3_c/psycopg3_c/_psycopg3/copy.pyx.
use psycopg.Prelude.{
  ℕ, ◌+◌, ◌≡◌, refl, ap, subst, sym, ◌∙◌, false, [], ◌∷◌, Bytes, length, ◌==◌, ◌||◌, arith, ◌≢◌,
  Bool-cases, inl, inr, ==_iff,
}
use psycopg.Copy.Accelerated.Parse.{scan, unescape, push, push_escaped, Scanned}
use psycopg.Copy.Accelerated.Parse.Steps.{
  scan-delimiter, scan-plain, scan-escape, unescape-plain, unescape-escape,
}

-- The bytes that the copy of a field gets are as many as are kept for it.
abbrev pub FillsCopy : Scanned → Type 0
FillsCopy r = length (unescape r.field) + r.num_bs ≡ length r.field

push-FillsCopy : (c : ℕ) (r : Scanned) → (c == 92) ≡ false → FillsCopy r → FillsCopy (push c r)
push-FillsCopy c r h f = rw (unescape-plain c r.field h) (omega (arith, f))

push_escaped-FillsCopy : (d : ℕ) (r : Scanned) → FillsCopy r → FillsCopy (push_escaped 92 d r)
push_escaped-FillsCopy d r f = rw (unescape-escape d r.field) (omega (arith, f))

empty-FillsCopy : (s : Bytes) → FillsCopy (record { field = []; num_bs = 0; at_end = s })
unfolding unescape
empty-FillsCopy s = omega arith

-- Whatever the data hold, where the loop over a field stops before the end of the data, the copy of
-- the field without its backslashes takes the bytes that are kept for it, `fend - fstart - num_bs`:
-- it neither writes behind them nor leaves one of them unwritten.
pub scan-FillsCopy : (s : Bytes) → (scan s).at_end ≢ [] → FillsCopy (scan s)
scan-FillsCopy [] h = unfold scan in absurd (h refl)
scan-FillsCopy (c ∷ []) h = elim (Bool-cases (c == 9 || c == 10)) [
  | inl stop ↦ rw (scan-delimiter c [] stop) (empty-FillsCopy (c ∷ []))
  | inr inner ↦ absurd (h (last_byte inner))
]
  where
    last_byte : (c == 9 || c == 10) ≡ false → (scan (c ∷ [])).at_end ≡ []
    last_byte inner = unfold scan in rw inner (ground arith)
scan-FillsCopy (c ∷ d ∷ s) h = elim (Bool-cases (c == 9 || c == 10)) [
  | inl stop ↦ rw (scan-delimiter c (d ∷ s) stop) (empty-FillsCopy (c ∷ d ∷ s))
  | inr inner ↦ elim (Bool-cases (c == 92)) [
    | inl escape ↦
        let same : 92 ≡ c = sym ((==_iff c 92).0 escape) in
        let read : (scan (c ∷ d ∷ s)).at_end ≡ (scan s).at_end =
          ap (λ b. (scan (b ∷ d ∷ s)).at_end) (sym same) ∙ ap (λ r. r.at_end) (scan-escape d s) in
        subst (λ b. FillsCopy (scan (b ∷ d ∷ s))) same
          (subst FillsCopy (sym (scan-escape d s))
            (push_escaped-FillsCopy d (scan s) (scan-FillsCopy s (λ e. h (read ∙ e)))))
    | inr plain ↦ subst FillsCopy (sym (scan-plain c (d ∷ s) inner plain)) (
        push-FillsCopy c (scan (d ∷ s)) plain (
          scan-FillsCopy (d ∷ s)
            (λ e. h (ap (λ r. r.at_end) (scan-plain c (d ∷ s) inner plain) ∙ e))))
  ]
]
