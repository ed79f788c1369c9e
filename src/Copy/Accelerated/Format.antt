-- ===== src/Copy/Accelerated/Format.antt =====
-- `format_row_text` of psycopg3_c/psycopg3_c/_psycopg3/copy.pyx, with the writes in place that escape
-- an item. Both kinds of dumper leave the bytes of the item in the buffer, so an item is its bytes.
pub mod InPlace
pub mod Same
use psycopg.Prelude.{
  ℕ, zero, suc, ◌+◌, ◌-◌, Bool, true, false, Option, none, some, List, [], ◌∷◌, ◌++◌, Bytes, length,
  ltb, leb, ◌==◌, if◌then◌else◌,
}
use psycopg.Copy.Text.{Row}

-- 1 at the bytes that get a backslash.
unfoldable pub copy_escape_lut : ℕ → ℕ
copy_escape_lut c = if c == 92 then 1 else if leb 8 c then if leb c 13 then 1 else 0 else 0

-- target[j] and target[j] = v.
unfoldable pub byte_at : Bytes → ℕ → ℕ
byte_at [] j = 0
byte_at (c ∷ t) zero = c
byte_at (c ∷ t) (suc j) = byte_at t j

unfoldable pub set : Bytes → ℕ → ℕ → Bytes
set [] j v = []
set (c ∷ t) zero v = v ∷ t
set (c ∷ t) (suc j) v = c ∷ set t j v

-- How many bytes of the item get a backslash.
unfoldable pub count_escapes : Bytes → ℕ
count_escapes [] = 0
count_escapes (c ∷ b) = copy_escape_lut c + count_escapes b

-- The walk backwards, with `suc j` bytes left to push: what `nesc` and the buffer are at its end.
unfoldable pub push_forward : ℕ → ℕ → Bytes → ℕ × Bytes
unfolding byte_at set
push_forward zero nesc target = (nesc, target)
push_forward (suc j) nesc target =
    let moved = set target (j + nesc) (byte_at target j) in
    let marked = set moved (j + (nesc - 1)) 92 in
    let plain = push_forward j nesc moved in
    let escaped = push_forward j (nesc - 1) marked in
    if copy_escape_lut (byte_at moved j) == 0
    then plain
    else if leb (nesc - 1) 0
    then (nesc - 1, marked)
    else escaped

-- From the copy of an item into the buffer on. `room n` is what the buffer holds behind the item when
-- it has been enlarged by n bytes.
unfoldable pub escape_item : (ℕ → Bytes) → ℕ → Bytes → ℕ × Bytes
unfolding count_escapes push_forward
escape_item room nesc b =
    let n = nesc + count_escapes b in
    if ltb 0 n then push_forward (length b) n (b ++ room n) else (n, b)

-- One round of the loop, on what comes before the item and `nesc`.
unfoldable pub format_item : (ℕ → Bytes) → Bytes → ℕ → Option Bytes → ℕ × Bytes
unfolding escape_item
format_item room out nesc none = (nesc, out ++ 92 ∷ b'N' ∷ [])
format_item room out nesc (some b) = let (n, text) = escape_item room nesc b in (n, out ++ text)

-- The items behind the first: a tab stands before each.
unfoldable pub format_rest : (ℕ → Bytes) → Bytes → ℕ → Row → Bytes
unfolding format_item
format_rest room out nesc [] = out
format_rest room out nesc (item ∷ row) =
    let (n, text) = format_item room (out ++ 9 ∷ []) nesc item in format_rest room text n row

unfoldable pub format_row_text : (ℕ → Bytes) → Row → Bytes → Bytes
unfolding format_item format_rest
format_row_text room [] out = out ++ 10 ∷ []
format_row_text room (item ∷ row) out =
    let (n, text) = format_item room out 0 item in format_rest room text n row ++ 10 ∷ []
