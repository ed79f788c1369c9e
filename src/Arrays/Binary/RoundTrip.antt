-- ===== src/Arrays/Binary/RoundTrip.antt =====
-- `ArrayBinaryLoader.load` of psycopg3/psycopg3/types/array.py reads back what `ListBinaryDumper.dump`
-- writes.
use psycopg.Prelude.{ℕ, ◌<◌, ◌≡◌, List, ◌++◌, Bytes}
use psycopg.Copy.Binary.RoundTrip.{int4}
use psycopg.Arrays.{Elem, Elems, sub}
use psycopg.Arrays.Binary.{Packed, given, Dumped, dump_list, agg}

-- `g` reads back what `f` makes of an element.
abbrev Reads : (Elem → Packed Dumped) → (Bytes → Packed (Elem × Bytes)) → Type 0
Reads f g = (x : Elem) (d : Dumped) (s : Bytes) → f x ≡ given d → g (d.out ++ s) ≡ given (x, s)

-- `dump_list` for the dimensions `ds`, read by `agg`.
abbrev ReadsList : List ℕ → Type 0
ReadsList ds =
    (xs : Elems) (r : Dumped) (s : Bytes)
    → dump_list ds xs ≡ given r
    → agg ds (r.out ++ s) ≡ given (sub xs, s)

abbrev Head : ℕ → ℕ → ℕ → Bytes → Type 0
Head n f o h =
    (n < 4294967296) × (f < 4294967296) × (o < 4294967296) × (int4 n ++ (int4 f ++ int4 o) ≡ h)
