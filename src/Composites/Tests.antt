-- ===== src/Composites/Tests.antt =====
-- Runs of the model of psycopg3/psycopg3/types/composite.py, and its theorem at a concrete input.
use psycopg.Prelude.{◌≡◌, ◌≢◌, refl, Option, none, some, List, [], ◌∷◌, Bytes, codes}
use psycopg.Composites.{dump, load, Loaded, loaded}
use psycopg.Composites.RoundTrip.{load-dump_row}

abbrev row : List (Option Bytes)
row = none ∷ some (codes "a\"b,") ∷ some [] ∷ some (codes "x") ∷ none ∷ []

row_text : dump row ≡ codes "(,\"a\"\"b,\",\"\",x,)"
unfolding dump
row_text = refl

row_read : load (codes "(,\"a\"\"b,\",\"\",x,)") ≡ loaded row
unfolding load
row_read = refl

-- A record of one NULL is written as the empty one.
one_null : dump (none ∷ []) ≡ dump []
unfolding dump
one_null = refl

no_match : load (codes "") ≡ Loaded.unbound_local
unfolding load
no_match = refl

row_not_one_null : row ≢ none ∷ []
row_not_one_null h = cc h

load-dump_row_example : load (dump row) ≡ loaded row
load-dump_row_example = load-dump_row row row_not_one_null
