-- ===== src/Errors.antt =====
-- psycopg3/psycopg3/errors.py: the exception that stands for the SQLSTATE of an error.
pub mod Lower
pub mod Upper
pub mod Lookup
mod Tests
use psycopg.Prelude.{
  Bool, true, false, Option, none, some, List, [], ◌∷◌, Bytes, codes, take, if◌then◌else◌,
}
use psycopg.Prelude.Equality.{◌===◌, nat_eq, list_eq}

-- The exceptions of the DB API that a SQLSTATE can stand for.
pub data Base : Type 0 where
  database_error data_error operational_error integrity_error internal_error programming_error :
      Base
  not_supported_error : Base

-- @sqlcode(code) class name(base)
pub data Row : Type 0 where
  coded : Bytes → Bytes → Base → Row

abbrev pub code : Row → Bytes
code (coded c n b) = c

-- An exception class: one of the DB API, or one declared with a code, by its name.
pub data ErrorClass : Type 0 where
  dbapi : Base → ErrorClass
  declared : Bytes → Base → ErrorClass

abbrev pub class_of : Row → ErrorClass
class_of (coded c n b) = declared n b

abbrev pub base_of : ErrorClass → Base
base_of (dbapi b) = b
base_of (declared n b) = b

-- What `_sqlcodes` has once the decorators have run, in the order of the rows; `none` is KeyError.
unfoldable pub lookup : Bytes → List Row → Option Row
lookup s [] = none
lookup s (r ∷ rows) = elim (lookup s rows) [
  | none ↦ if s === code r then some r else none
  | some later ↦ some later
]

unfoldable pub base_exc_map : List (Bytes × Base)
base_exc_map =
    (codes "08", operational_error)
    ∷ (codes "0A", not_supported_error)
    ∷ (codes "20", programming_error)
    ∷ (codes "21", programming_error)
    ∷ (codes "22", data_error)
    ∷ (codes "23", integrity_error)
    ∷ (codes "24", internal_error)
    ∷ (codes "25", internal_error)
    ∷ (codes "26", programming_error)
    ∷ (codes "27", operational_error)
    ∷ (codes "28", operational_error)
    ∷ (codes "2B", internal_error)
    ∷ (codes "2D", internal_error)
    ∷ (codes "2F", operational_error)
    ∷ (codes "34", programming_error)
    ∷ (codes "38", operational_error)
    ∷ (codes "39", operational_error)
    ∷ (codes "3B", operational_error)
    ∷ (codes "3D", programming_error)
    ∷ (codes "3F", programming_error)
    ∷ (codes "40", operational_error)
    ∷ (codes "42", programming_error)
    ∷ (codes "44", programming_error)
    ∷ (codes "53", operational_error)
    ∷ (codes "54", operational_error)
    ∷ (codes "55", operational_error)
    ∷ (codes "57", operational_error)
    ∷ (codes "58", operational_error)
    ∷ (codes "F", operational_error)
    ∷ (codes "H", operational_error)
    ∷ (codes "P", programming_error)
    ∷ (codes "X", internal_error)
    ∷ []

-- _base_exc_map.get
unfoldable pub get : Bytes → List (Bytes × Base) → Option Base
get k [] = none
get k ((j, b) ∷ m) = if k === j then some b else get k m

abbrev pub or_else : Option Base → Base → Base
or_else none b = b
or_else (some a) b = a

abbrev pub first_of : Option Base → Option Base → Option Base
first_of none b = b
first_of (some a) b = some a

-- `none` is IndexError, of an empty text.
unfoldable pub get_base_exception : Bytes → Option Base
unfolding get base_exc_map
get_base_exception [] = none
get_base_exception (c ∷ s) = some (
    or_else (first_of (get (take 2 (c ∷ s)) base_exc_map) (get (c ∷ []) base_exc_map))
      database_error)

abbrev pub choose : Option Row → Option Base → Option ErrorClass
choose (some r) b = some (class_of r)
choose none none = none
choose none (some b) = some (dbapi b)

-- `rows` are the classes declared.
unfoldable pub class_for_state : List Row → Bytes → Option ErrorClass
unfolding lookup get_base_exception
class_for_state rows s = choose (lookup s rows) (get_base_exception s)
