-- ===== src/Copy/Accelerated/Parse/Steps.antt =====
-- One round of each loop of `parse_row_text` in psycopg3_c/psycopg3_c/_psycopg3/copy.pyx.
use psycopg.Prelude.{ℕ, ◌≡◌, refl, false, true, [], ◌∷◌, Bytes, ◌==◌, ◌||◌}
use psycopg.Copy.Accelerated.Parse.{scan, push, push_escaped, unescape, copy_unescape_lut}

pub scan-delimiter :
    (c : ℕ) (s : Bytes)
    → (c == 9 || c == 10) ≡ true
    → scan (c ∷ s) ≡ record { field = []; num_bs = 0; at_end = c ∷ s }
unfolding scan
scan-delimiter c [] h = rw h
scan-delimiter c (d ∷ s) h = rw h

pub scan-plain :
    (c : ℕ) (s : Bytes)
    → (c == 9 || c == 10) ≡ false
    → (c == 92) ≡ false
    → scan (c ∷ s) ≡ push c (scan s)
unfolding scan
scan-plain c [] h k = rw (h, k) refl
scan-plain c (d ∷ s) h k = rw (h, k) refl

pub scan-escape : (d : ℕ) (s : Bytes) → scan (92 ∷ d ∷ s) ≡ push_escaped 92 d (scan s)
unfolding scan
scan-escape d s = refl

pub unescape-plain : (c : ℕ) (s : Bytes) → (c == 92) ≡ false → unescape (c ∷ s) ≡ c ∷ unescape s
unfolding unescape
unescape-plain c [] h = refl
unescape-plain c (d ∷ s) h = rw h

pub unescape-escape : (d : ℕ) (s : Bytes) → unescape (92 ∷ d ∷ s) ≡ copy_unescape_lut d ∷ unescape s
unfolding unescape
unescape-escape d s = refl
