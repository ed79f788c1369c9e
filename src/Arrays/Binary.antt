-- ===== src/Arrays/Binary.antt =====
-- `ListBinaryDumper.dump` and `ArrayBinaryLoader.load` of psycopg3/psycopg3/types/array.py.
pub mod Inversion
pub mod RoundTrip
use psycopg.Prelude.{
  ℕ, zero, suc, ◌+◌, ◌*◌, ◌/◌, ◌%◌, Bool, true, false, ◌||◌, Option, none, some, List, [], ◌∷◌,
  ◌++◌, Bytes, length, take, drop, ltb, ◌==◌, if◌then◌else◌,
}
use psycopg.Prelude.Int.{pos, negsuc}
use psycopg.Copy.Binary.{pack_int4, unpack_int4}
use psycopg.Arrays.{Elem, Elems, null, item, sub, nil, cons}

pub data Error : Type 0 where
  empty_list inconsistent_lengths inconsistent_depths : Error
  -- the dumper of the items is given a list
  list_as_item : Error
  struct_error : Error
  -- a size below -1, which moves the loader back
  negative_size : Error

-- What a step comes to: a value, or an exception that is raised.
pub data Packed {ℓ} (A : Type ℓ) : Type ℓ where
  raised : Error → Packed A
  given : A → Packed A

infixl 5 ◌>>=◌
abbrev pub ◌>>=◌ {ℓ κ} : {A : Type ℓ} {B : Type κ} → Packed A → (A → Packed B) → Packed B
raised e >>= next = raised e
given a >>= next = next a

-- if not test: raise e
abbrev pub require {ℓ} : {A : Type ℓ} → Bool → Error → Packed A → Packed A
require test e next = if test then next else raised e

abbrev pub or_error {ℓ} : {A : Type ℓ} → Option A → Error → Packed A
or_error none e = raised e
or_error (some a) e = given a

-- An unsigned number of four bytes in network order; `none` is struct.error.
unfoldable pub pack_uint4 : ℕ → Option Bytes
pack_uint4 n =
    if ltb n 4294967296
    then some (n / 16777216 ∷ n / 65536 % 256 ∷ n / 256 % 256 ∷ n % 256 ∷ [])
    else none

unfoldable pub unpack_uint4 : Bytes → Option ℕ
unpack_uint4 (a ∷ b ∷ c ∷ d ∷ _) = some (a * 16777216 + b * 65536 + c * 256 + d)
unpack_uint4 _ = none

-- _struct_head.pack
unfoldable pub pack_head : ℕ → ℕ → ℕ → Packed Bytes
unfolding pack_uint4
pack_head ndims hasnull oid = do
  a ← or_error (pack_uint4 ndims) struct_error
  b ← or_error (pack_uint4 hasnull) struct_error
  c ← or_error (pack_uint4 oid) struct_error
  given (a ++ (b ++ c))

-- b"".join(_struct_dim.pack(dim, 1) for dim in dims)
unfoldable pub pack_dims : List ℕ → Packed Bytes
unfolding pack_uint4
pack_dims [] = given []
pack_dims (d ∷ ds) = do
  a ← or_error (pack_uint4 d) struct_error
  b ← or_error (pack_uint4 1) struct_error
  rest ← pack_dims ds
  given (a ++ (b ++ rest))

-- len(L)
unfoldable pub size : Elems → ℕ
size nil = 0
size (cons x xs) = suc (size xs)

-- What `calc_dims` leaves in `dims`.
unfoldable mutual
  unfolding size

  pub calc_dims : Elems → Packed (List ℕ)
  calc_dims nil = raised empty_list
  calc_dims (cons x xs) = calc_item x >>= λ ds. given (suc (size xs) ∷ ds)

  pub calc_item : Elem → Packed (List ℕ)
  calc_item null = given []
  calc_item (item b) = given []
  calc_item (sub xs) = calc_dims xs

-- What a call of `dump_list` adds to `data`, and whether it sets `hasnull`.
pub record Dumped : Type 0 where
  pub out : Bytes
  pub hasnull : Bool

abbrev pub join_dumped : Dumped → Dumped → Dumped
join_dumped a b = record { out = a.out ++ b.out; hasnull = a.hasnull || b.hasnull }

abbrev pub nothing_dumped : Dumped
nothing_dumped = record { out = []; hasnull = false }

unfoldable pub dump_item : Elem → Packed Dumped
dump_item null = given (record { out = 255 ∷ 255 ∷ 255 ∷ 255 ∷ []; hasnull = true })
dump_item (item b) = do
  p ← or_error (pack_int4 (length b)) struct_error
  given (record { out = p ++ b; hasnull = false })
dump_item (sub xs) = raised list_as_item

-- The loop over the items of a list that is a row of the last dimension, or that holds lists.
unfoldable pub for_items : (Elem → Packed Dumped) → Elems → Packed Dumped
for_items f nil = given nothing_dumped
for_items f (cons x xs) = do a ← f x; b ← for_items f xs; given (join_dumped a b)

unfoldable pub dump_sub : (Elems → Packed Dumped) → Elem → Packed Dumped
dump_sub f null = raised inconsistent_depths
dump_sub f (item b) = raised inconsistent_depths
dump_sub f (sub xs) = f xs

-- `dump_list`, from the dimension on that it is called for. There is always one.
unfoldable pub dump_list : List ℕ → Elems → Packed Dumped
unfolding size dump_item for_items dump_sub
dump_list [] xs = given nothing_dumped
dump_list (d ∷ []) xs = require (size xs == d) inconsistent_lengths (for_items dump_item xs)
dump_list (d ∷ e ∷ ds) xs =
    require (size xs == d) inconsistent_lengths (for_items (dump_sub (dump_list (e ∷ ds))) xs)

abbrev pub flag : Bool → ℕ
flag true = 1
flag false = 0

unfoldable pub dump_parts : ℕ → List ℕ → Dumped → Packed Bytes
unfolding pack_head pack_dims
dump_parts oid dims d = do
  head ← pack_head (length dims) (flag d.hasnull) oid
  counts ← pack_dims dims
  given (head ++ (counts ++ d.out))

-- `oid` is that of the items, or that of text.
unfoldable pub dump : ℕ → Elems → Packed Bytes
unfolding calc_dims dump_list dump_parts
dump oid nil = pack_head 0 0 oid
dump oid (cons x xs) = do
  dims ← calc_dims (cons x xs)
  d ← dump_list dims (cons x xs)
  dump_parts oid dims d

-- next(items), on what the data hold from `p` on.
unfoldable pub next_item : Bytes → Packed (Elem × Bytes)
unfolding unpack_int4
next_item s = elim (unpack_int4 s) [
  | none ↦ raised struct_error
  | some (pos k) ↦ given (item (take k (drop 4 s)), drop k (drop 4 s))
  | some (negsuc zero) ↦ given (null, drop 4 s)
  | some (negsuc (suc k)) ↦ raised negative_size
]

-- [f() for _ in range(n)]
unfoldable pub repeat : ℕ → (Bytes → Packed (Elem × Bytes)) → Bytes → Packed (Elems × Bytes)
repeat zero f s = given (nil, s)
repeat (suc n) f s = do (x, s') ← f s; (xs, s'') ← repeat n f s'; given (cons x xs, s'')

unfoldable pub agg : List ℕ → Bytes → Packed (Elem × Bytes)
unfolding next_item repeat
agg [] s = next_item s
agg (d ∷ ds) s = repeat d (agg ds) s >>= λ r. given (sub r.0, r.1)

-- [_struct_dim.unpack_from(data, i)[0] for i in …], and what is behind the dimensions.
unfoldable pub unpack_dims : ℕ → Bytes → Packed (List ℕ × Bytes)
unfolding unpack_uint4
unpack_dims zero s = given ([], s)
unpack_dims (suc n) s = do
  d ← or_error (unpack_uint4 s) struct_error
  one ← or_error (unpack_uint4 (drop 4 s)) struct_error
  (ds, rest) ← unpack_dims n (drop 8 s)
  given (d ∷ ds, rest)

abbrev pub as_list : Elem × Bytes → Elems
as_list (sub xs, s) = xs
as_list (null, s) = nil
as_list (item b, s) = nil

-- `hasnull` and the oid of the items, which chooses their loader, change nothing else.
unfoldable pub load_dims : ℕ → Bytes → Packed Elems
unfolding unpack_dims agg
load_dims zero s = given nil
load_dims (suc n) s = do (dims, rest) ← unpack_dims (suc n) s; r ← agg dims rest; given (as_list r)

unfoldable pub load : Bytes → Packed Elems
unfolding load_dims unpack_uint4
load s = do
  ndims ← or_error (unpack_uint4 s) struct_error
  hasnull ← or_error (unpack_uint4 (drop 4 s)) struct_error
  oid ← or_error (unpack_uint4 (drop 8 s)) struct_error
  load_dims ndims (drop 12 s)
