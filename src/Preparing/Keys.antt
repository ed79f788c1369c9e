-- ===== src/Preparing/Keys.antt =====
-- The keys and the names of the cache of psycopg3/psycopg3/_preparing.py.
use psycopg.Prelude.{ℕ, List, Bytes}
use psycopg.Prelude.Equality.{Eq, nat_eq, list_eq, pair_eq}

-- The (query, types) of a statement.
abbrev pub Key : Type 0
Key = Bytes × List ℕ

instance unfoldable pub key_eq : Eq Key
key_eq = pair_eq ⦃e = list_eq⦄ ⦃f = list_eq⦄

instance unfoldable pub bytes_eq : Eq Bytes
bytes_eq = list_eq
