-- ===== src/Arrays/Binary/Inversion.antt =====
-- What a success of a step of psycopg3/psycopg3/types/array.py shows of its parts.
use psycopg.Prelude.{
  ℕ, ◌+◌, ◌*◌, ◌/◌, ◌%◌, ◌<◌, ◌≡◌, refl, ap, Bool, true, false, Option, none, some, Bytes, ◌++◌,
  arith,
}
use psycopg.Copy.Binary.{pack_int4}
use psycopg.Copy.Binary.RoundTrip.{int4}
use psycopg.Arrays.Binary.{
  Packed, given, raised, Error, ◌>>=◌, require, or_error, pack_uint4, unpack_uint4,
}

pub given-injective {ℓ} : {A : Type ℓ} {a b : A} → given a ≡ given b → a ≡ b
given-injective h = cc h

-- The first of two steps gave something, if both together did.
pub bind-given {ℓ κ} :
    {A : Type ℓ} {B : Type κ} (first : Packed A) (next : A → Packed B) {b : B}
    → (first >>= next) ≡ given b
    → (a : A) × (first ≡ given a) × (next a ≡ given b)
bind-given (raised e) next h = cc
bind-given (given a) next h = (a, refl, h)

pub or_error-given {ℓ} :
    {A : Type ℓ} (o : Option A) (e : Error) {a : A} → or_error o e ≡ given a → o ≡ some a
or_error-given none e h = cc
or_error-given (some a) e h = ap some (given-injective h)

pub require-given {ℓ} :
    {A : Type ℓ} (test : Bool) (e : Error) (next : Packed A) {a : A}
    → require test e next ≡ given a
    → (test ≡ true) × (next ≡ given a)
require-given true e next h = (refl, h)
require-given false e next h = cc

pub pack_uint4-eq-some :
    (n : ℕ) {p : Bytes} → pack_uint4 n ≡ some p → (n < 4294967296) × (p ≡ int4 n)
unfolding pack_uint4
pack_uint4-eq-some n h = ground (arith, h)

pub pack_int4-eq-some : (n : ℕ) {p : Bytes} → pack_int4 n ≡ some p → (n < 2147483648) × (p ≡ int4 n)
unfolding pack_int4
pack_int4-eq-some n h = ground (arith, h)

pub unpack_uint4-int4 : (n : ℕ) (s : Bytes) → n < 4294967296 → unpack_uint4 (int4 n ++ s) ≡ some n
unfolding unpack_uint4
unpack_uint4-int4 n s h =
    let value : n / 16777216 * 16777216 + n / 65536 % 256 * 65536 + n / 256 % 256 * 256 + n % 256
        ≡ n =
      omega arith in
    ap some value
