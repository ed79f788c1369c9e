-- ===== src/Adapt/Tests.antt =====
-- Runs of the model of psycopg3/psycopg3/adapt.py, and its theorems at concrete inputs.
use psycopg.Prelude.{ℕ, ◌≡◌, refl, none, some, [], ◌∷◌, List}
use psycopg.Queries.{Format, auto, text}
use psycopg.Adapt.Shared.{view}
use psycopg.Adapt.Maps.{
  PqFormat, pq_text, Key, cls, name, Classes, World, get_dumper, get_loader, register_dumper,
  register_loader, format_eq, new, copy,
}
use psycopg.Adapt.Maps.Ops.{
  Op, make, make_copy, add_dumper, add_loader, run, run_eager, nothing, nothing_eager,
}
use psycopg.Adapt.Maps.Eager.{copy_on_write_same}
use psycopg.Adapt.Maps.Lookup.{HasOwnNames, search_all, get_dumper_keeps}

-- Classes that have a name of one byte, their number, and a superclass 0; text dumpers and loaders.
abbrev classes : Classes
classes = record {
  mro = λ c. c ∷ 0 ∷ [];
  full_name = λ c. c ∷ [];
  dumper_format = λ d. pq_text;
  loader_format = λ l. pq_text;
  optimised = λ d. d;
}

own_names : HasOwnNames classes.full_name
own_names c d h = cc h

-- A map with a dumper for a name and a loader, and a copy, which is given another dumper.
abbrev ops : List Op
ops =
    make
    ∷ add_dumper 0 (name (5 ∷ [])) 50
    ∷ add_loader 0 25 70
    ∷ make_copy 0
    ∷ add_dumper 1 (cls 0) 51
    ∷ []

abbrev world : World
world = run classes ops nothing

-- The dumper by name is found in both, that of the superclass in the copy only.
found_by_name : (get_dumper classes 1 5 auto world).0 ≡ some 50
unfolding get_dumper run register_dumper register_loader new copy
found_by_name = refl

found_by_superclass : (get_dumper classes 1 6 text world).0 ≡ some 51
unfolding get_dumper run register_dumper register_loader new copy
found_by_superclass = refl

not_found : (get_dumper classes 0 6 text world).0 ≡ none
unfolding get_dumper run register_dumper register_loader new copy
not_found = refl

-- A dumper registered for a name after a search has replaced that name is not found.
named_too_late :
    (get_dumper classes 0 5 auto
      (register_dumper classes 0 (name (5 ∷ [])) 52 (get_dumper classes 0 5 auto world).1)).0
    ≡ some 50
unfolding get_dumper run register_dumper register_loader new copy
named_too_late = refl

named_in_time :
    (get_dumper classes 0 5 auto (register_dumper classes 0 (name (5 ∷ [])) 52 world)).0 ≡ some 52
unfolding get_dumper run register_dumper register_loader new copy
named_in_time = refl

copy_on_write_same_example :
    ((i : ℕ) (f : Format) (k : Key)
      → view (run classes ops nothing).dumpers (i, f) k
        ≡ (run_eager classes ops nothing_eager).dumpers (i, f) k)
    × ((i oid : ℕ) (p : PqFormat)
        → get_loader i oid p (run classes ops nothing)
          ≡ (run_eager classes ops nothing_eager).loaders (i, p) oid)
copy_on_write_same_example = copy_on_write_same classes ops

abbrev two_searches : List (ℕ × (ℕ × Format))
two_searches = (0, (5, auto)) ∷ (1, (5, text)) ∷ []

get_dumper_keeps_example :
    ((j l : ℕ) (g : Format)
      → (get_dumper classes j l g (search_all classes two_searches world)).0
        ≡ (get_dumper classes j l g world).0)
    × ((search_all classes two_searches world).loaders ≡ world.loaders)
get_dumper_keeps_example = get_dumper_keeps classes two_searches world own_names
