-- ===== src/Adapt/Maps.antt =====
-- The operations of `AdaptersMap` in psycopg3/psycopg3/adapt.py.
pub mod Eager
pub mod Lookup
pub mod Ops
mod Slots
use psycopg.Prelude.{
  ℕ, suc, ◌+◌, ◌≡◌, ◌↔◌, refl, Bool, true, false, ◌&&◌, Option, none, some, List, [], ◌∷◌, Bytes,
  ◌==◌, if◌then◌else◌, arith,
}
use psycopg.Prelude.Equality.{Eq, ◌===◌, nat_eq, list_eq, pair_eq, list_beq, list_beq_iff}
use psycopg.Queries.{Format, auto, text, binary}
use psycopg.Adapt.Shared.{Shared, update, view, change, write, create, share}

-- pq.Format
pub data PqFormat : Type 0 where
  pq_text pq_binary : PqFormat

-- Format.from_pq
unfoldable pub from_pq : PqFormat → Format
from_pq pq_text = text
from_pq pq_binary = binary

-- What a dumper is registered on: a class or its full name.
pub data Key : Type 0 where
  cls : ℕ → Key
  name : Bytes → Key

-- The objects of the program that are not maps: classes to adapt by number, and dumpers and loaders. The
-- optimised version of a dumper or loader is the class itself where there is none.
pub record Classes : Type 0 where
  pub mro : ℕ → List ℕ
  pub full_name : ℕ → Bytes
  pub dumper_format : ℕ → PqFormat
  pub loader_format : ℕ → PqFormat
  pub optimised : ℕ → ℕ

abbrev pub Dumpers : Type 0
Dumpers = Key → Option ℕ

abbrev pub Loaders : Type 0
Loaders = ℕ → Option ℕ

-- Every `AdaptersMap`, by the number in the order of their making.
pub record World : Type 0 where
  pub count : ℕ
  pub dumpers : Shared (ℕ × Format) Dumpers
  pub loaders : Shared (ℕ × PqFormat) Loaders

abbrev pub format_beq : Format → Format → Bool
format_beq auto auto = true
format_beq text text = true
format_beq binary binary = true
format_beq _ _ = false

abbrev pub pq_format_beq : PqFormat → PqFormat → Bool
pq_format_beq pq_text pq_text = true
pq_format_beq pq_binary pq_binary = true
pq_format_beq _ _ = false

abbrev pub key_beq : Key → Key → Bool
key_beq (cls a) (cls b) = a == b
key_beq (name a) (name b) = list_beq a b
key_beq _ _ = false

pub format_beq_iff : (f g : Format) → (format_beq f g ≡ true) ↔ (f ≡ g)
format_beq_iff f g = ground arith

pub pq_format_beq_iff : (f g : PqFormat) → (pq_format_beq f g ≡ true) ↔ (f ≡ g)
pq_format_beq_iff f g = ground arith

pub key_beq_iff : (j k : Key) → (key_beq j k ≡ true) ↔ (j ≡ k)
key_beq_iff (cls a) (cls b) = ground arith
key_beq_iff (cls a) (name b) = ground arith
key_beq_iff (name a) (cls b) = ground arith
key_beq_iff (name a) (name b) = ground (arith, list_beq_iff a b)

instance abbrev pub format_eq : Eq Format
format_eq = record { beq = format_beq; beq_iff = format_beq_iff }

instance abbrev pub pq_format_eq : Eq PqFormat
pq_format_eq = record { beq = pq_format_beq; beq_iff = pq_format_beq_iff }

instance abbrev pub key_eq : Eq Key
key_eq = record { beq = key_beq; beq_iff = key_beq_iff }

abbrev pub empty : {K : Type 0} → K → Option ℕ
empty k = none

-- AdaptersMap()
unfoldable pub new : World → World
unfolding create
new w =
    let n = w.count in
    record {
      count = suc n;
      dumpers =
          create (n, binary) empty (create (n, text) empty (create (n, auto) empty w.dumpers));
      loaders = create (n, pq_binary) empty (create (n, pq_text) empty w.loaders);
    }

-- AdaptersMap(template)
unfoldable pub copy : ℕ → World → World
unfolding share
copy i w =
    let n = w.count in
    record {
      count = suc n;
      dumpers =
          share (i, binary) (n, binary)
            (share (i, text) (n, text) (share (i, auto) (n, auto) w.dumpers));
      loaders = share (i, pq_binary) (n, pq_binary) (share (i, pq_text) (n, pq_text) w.loaders);
    }

module _ (c : Classes) where
  unfoldable pub register_dumper : ℕ → Key → ℕ → World → World
  unfolding write from_pq
  register_dumper i k dumper w =
      let d = c.optimised dumper in
      let set = λ (m : Dumpers). update m k (some d) in
      record w {
        dumpers = write (i, auto) set (write (i, from_pq (c.dumper_format d)) set w.dumpers);
      }

  unfoldable pub register_loader : ℕ → ℕ → ℕ → World → World
  unfolding write
  register_loader i oid loader w =
      let l = c.optimised loader in
      record w {
        loaders = write (i, c.loader_format l) (λ (m : Loaders). update m oid (some l)) w.loaders;
      }

-- What the loop over the classes finds: a dumper by a class, or by the name of one.
pub data Found : Type 0 where
  by_class : ℕ → Found
  by_name : ℕ → ℕ → Found

abbrev pub first_found : ℕ → Option ℕ → Option ℕ → Option Found → Option Found
first_found c (some d) named rest = some (by_class d)
first_found c none (some d) rest = some (by_name c d)
first_found c none none rest = rest

unfoldable pub find : (ℕ → Bytes) → Dumpers → List ℕ → Option Found
find full_name m [] = none
find full_name m (c ∷ cs) = first_found c (m (cls c)) (m (name (full_name c))) (find full_name m cs)

-- dmap[scls] = dmap.pop(fqn)
unfoldable pub rename : (ℕ → Bytes) → ℕ → ℕ → Dumpers → Dumpers
rename full_name c d m = update (update m (name (full_name c)) none) (cls c) (some d)

-- `none` is ProgrammingError.
abbrev pub dumper_of : Option Found → Option ℕ
dumper_of none = none
dumper_of (some (by_class d)) = some d
dumper_of (some (by_name c d)) = some d

unfoldable pub replace_name :
    (ℕ → Bytes)
    → ℕ × Format
    → Option Found
    → Shared (ℕ × Format) Dumpers
    → Shared (ℕ × Format) Dumpers
unfolding change rename
replace_name full_name s none t = t
replace_name full_name s (some (by_class d)) t = t
replace_name full_name s (some (by_name c d)) t = change s (rename full_name c d) t

-- The dumper for a class and a format, and what the search has changed.
unfoldable pub get_dumper : Classes → ℕ → ℕ → Format → World → Option ℕ × World
unfolding find replace_name
get_dumper c i k format w =
    let found = find c.full_name (view w.dumpers (i, format)) (c.mro k) in
    (dumper_of found, record w { dumpers = replace_name c.full_name (i, format) found w.dumpers })

unfoldable pub get_loader : ℕ → ℕ → PqFormat → World → Option ℕ
get_loader i oid format w = view w.loaders (i, format) oid
