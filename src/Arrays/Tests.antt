-- ===== src/Arrays/Tests.antt =====
-- Runs of the model of psycopg3/psycopg3/types/array.py, and its theorems at concrete inputs.
use psycopg.Prelude.{◌≡◌, refl, [], ◌∷◌, Bytes, codes}
use psycopg.Arrays.{Elems, null, item, sub, nil, cons}
use psycopg.Arrays.Dump.{dump}
use psycopg.Arrays.Load.{load, Loaded, loaded}
use psycopg.Arrays.Binary as Binary
use psycopg.Arrays.Binary.{raised, Error}
use psycopg.Arrays.RoundTrip.Run.{load-dump}

-- A list of None, of items with and without quotes, and of a list that is empty.
abbrev mixed : Elems
mixed = cons null (
    cons (item (codes "a\"b"))
      (cons (item (codes "null")) (cons (sub nil) (cons (item (codes "x")) nil))))

mixed_text : dump mixed ≡ codes "{NULL,\"a\\\"b\",\"null\",{},x}"
unfolding dump
mixed_text = refl

-- A list that is not closed is read as if it were; so is the one inside it that is closed.
not_closed : load (codes "{a") ≡ loaded (cons (item (codes "a")) nil)
unfolding load
not_closed = refl

closed_last : load (codes "{a,{b}") ≡ loaded (cons (item (codes "b")) nil)
unfolding load
closed_last = refl

closed_twice : load (codes "{a}}") ≡ Loaded.unexpected_close
unfolding load
closed_twice = refl

-- Two rows of two items.
abbrev square : Elems
square =
    cons (sub (cons null (cons (item (codes "a")) nil)))
      (cons (sub (cons (item (codes "b")) (cons (item []) nil))) nil)

abbrev square_bytes : Bytes
square_bytes =
    0 ∷ 0 ∷ 0 ∷ 2 ∷ 0 ∷ 0 ∷ 0 ∷ 1 ∷ 0 ∷ 0 ∷ 0 ∷ 25 ∷ 0 ∷ 0 ∷ 0 ∷ 2 ∷ 0 ∷ 0 ∷ 0 ∷ 1 ∷ 0 ∷ 0 ∷ 0 ∷ 2
    ∷ 0 ∷ 0 ∷ 0 ∷ 1 ∷ 255 ∷ 255 ∷ 255 ∷ 255 ∷ 0 ∷ 0 ∷ 0 ∷ 1 ∷ 97 ∷ 0 ∷ 0 ∷ 0 ∷ 1 ∷ 98 ∷ 0 ∷ 0 ∷ 0
    ∷ 0 ∷ []

-- The second row is shorter, or no list.
uneven :
    Binary.dump 25 (cons (sub (cons null nil)) (cons (sub nil) nil))
    ≡ raised Error.inconsistent_lengths
unfolding Binary.dump
uneven = refl

not_as_deep :
    Binary.dump 25 (cons (sub (cons null nil)) (cons null nil)) ≡ raised Error.inconsistent_depths
unfolding Binary.dump
not_as_deep = refl

load-dump_example : load (dump mixed) ≡ loaded mixed
load-dump_example = load-dump mixed
