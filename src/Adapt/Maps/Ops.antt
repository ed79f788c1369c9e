-- ===== src/Adapt/Maps/Ops.antt =====
-- What a program does to the maps of psycopg3/psycopg3/adapt.py, and the same without sharing.
use psycopg.Prelude.{ℕ, suc, Bool, true, false, some, List, [], ◌∷◌, ◌==◌, ◌&&◌, if◌then◌else◌}
use psycopg.Prelude.Equality.{nat_eq}
use psycopg.Queries.{Format, auto, text, binary}
use psycopg.Adapt.Shared.{Shared, update}
use psycopg.Adapt.Maps.{
  PqFormat, from_pq, Key, Classes, Dumpers, Loaders, World, key_eq, format_beq, pq_format_beq,
  empty, new, copy, register_dumper, register_loader,
}

-- What a program does to the maps.
pub data Op : Type 0 where
  make : Op
  make_copy : ℕ → Op
  add_dumper : ℕ → Key → ℕ → Op
  add_loader : ℕ → ℕ → ℕ → Op

unfoldable pub apply : Classes → Op → World → World
apply c make w = new w
apply c (make_copy i) w = copy i w
apply c (add_dumper i k d) w = register_dumper c i k d w
apply c (add_loader i oid l) w = register_loader c i oid l w

unfoldable pub run : Classes → List Op → World → World
unfolding apply
run c [] w = w
run c (op ∷ ops) w = run c ops (apply c op w)

-- The maps without sharing: each object has dictionaries of its own.
pub record Eager : Type 0 where
  pub count : ℕ
  pub dumpers : ℕ × Format → Dumpers
  pub loaders : ℕ × PqFormat → Loaders

-- The formats that a dumper is registered for: its own and as the default.
unfoldable pub is_registered : PqFormat → Format → Bool
unfolding from_pq
is_registered p auto = true
is_registered p text = format_beq (from_pq p) text
is_registered p binary = format_beq (from_pq p) binary

unfoldable pub apply_eager : Classes → Op → Eager → Eager
unfolding is_registered
apply_eager c make g =
    let n = g.count in
    record {
      count = suc n;
      dumpers = λ (i, f). if n == i then empty else g.dumpers (i, f);
      loaders = λ (i, f). if n == i then empty else g.loaders (i, f);
    }
apply_eager c (make_copy i) g =
    let n = g.count in
    record {
      count = suc n;
      dumpers = λ (j, f). if n == j then g.dumpers (i, f) else g.dumpers (j, f);
      loaders = λ (j, f). if n == j then g.loaders (i, f) else g.loaders (j, f);
    }
apply_eager c (add_dumper i k dumper) g =
    let d = c.optimised dumper in
    record g {
      dumpers = λ (j, f).
          if i == j && is_registered (c.dumper_format d) f
          then update (g.dumpers (j, f)) k (some d)
          else g.dumpers (j, f);
    }
apply_eager c (add_loader i oid loader) g =
    let l = c.optimised loader in
    record g {
      loaders = λ (j, f).
          if i == j && pq_format_beq (c.loader_format l) f
          then update (g.loaders (j, f)) oid (some l)
          else g.loaders (j, f);
    }

unfoldable pub run_eager : Classes → List Op → Eager → Eager
unfolding apply_eager
run_eager c [] g = g
run_eager c (op ∷ ops) g = run_eager c ops (apply_eager c op g)

-- Nothing has been made; the references that no object holds yet are to an empty dictionary.
abbrev pub no_dumpers : Shared (ℕ × Format) Dumpers
no_dumpers = record { next = 1; dict = λ a. empty; address = λ s. 0; own = λ s. false }

abbrev pub no_loaders : Shared (ℕ × PqFormat) Loaders
no_loaders = record { next = 1; dict = λ a. empty; address = λ s. 0; own = λ s. false }

abbrev pub nothing : World
nothing = record { count = 0; dumpers = no_dumpers; loaders = no_loaders }

abbrev pub nothing_eager : Eager
nothing_eager = record { count = 0; dumpers = λ s. empty; loaders = λ s. empty }
