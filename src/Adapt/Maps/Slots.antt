-- ===== src/Adapt/Maps/Slots.antt =====
-- The references that the operations of `AdaptersMap` in psycopg3/psycopg3/adapt.py set one by one.
use psycopg.Prelude.{ℕ, ◌≡◌, Bool, ◌==◌, ◌&&◌, if◌then◌else◌, arith}
use psycopg.Queries.{Format, auto, text, binary}
use psycopg.Adapt.Maps.{
  PqFormat, pq_text, pq_binary, from_pq, Dumpers, Loaders, format_beq, pq_format_beq,
}
use psycopg.Adapt.Maps.Ops.{is_registered}

abbrev pub is_slot : ℕ → Format → ℕ → Format → Bool
is_slot i e j f = i == j && format_beq e f

pub twice_written :
    (i : ℕ) (p : PqFormat) (j : ℕ) (e : Format) (f : Dumpers → Dumpers) (m : Dumpers)
    → (if is_slot i auto j e
        then f (if is_slot i (from_pq p) j e then f m else m)
        else if is_slot i (from_pq p) j e
        then f m
        else m)
      ≡ (if i == j && is_registered p e then f m else m)
unfolding is_registered
twice_written i pq_text j auto f m = ground arith
twice_written i pq_binary j auto f m = ground arith
twice_written i pq_text j text f m = ground arith
twice_written i pq_binary j text f m = ground arith
twice_written i pq_text j binary f m = ground arith
twice_written i pq_binary j binary f m = ground arith

abbrev pub is_pq_slot : ℕ → PqFormat → ℕ → PqFormat → Bool
is_pq_slot i p j q = i == j && pq_format_beq p q

-- The references of a new object, one after another.
pub made :
    (n j : ℕ) (e : Format) (x m : Dumpers)
    → (if is_slot n binary j e
        then x
        else if is_slot n text j e
        then x
        else if is_slot n auto j e
        then x
        else m)
      ≡ (if n == j then x else m)
made n j auto x m = ground arith
made n j text x m = ground arith
made n j binary x m = ground arith

pub pq_made :
    (n j : ℕ) (q : PqFormat) (x m : Loaders)
    → (if is_pq_slot n pq_binary j q then x else if is_pq_slot n pq_text j q then x else m)
      ≡ (if n == j then x else m)
pq_made n j pq_text x m = ground arith
pq_made n j pq_binary x m = ground arith

-- The references of a copy, one after another: `v` is what the objects saw before.
module _ (n i : ℕ) (v : ℕ × Format → Dumpers) where
  abbrev pub share_auto : ℕ × Format → Dumpers
  share_auto u = if is_slot n auto u.0 u.1 then v (i, auto) else v u

  abbrev pub share_text : ℕ × Format → Dumpers
  share_text u = if is_slot n text u.0 u.1 then share_auto (i, text) else share_auto u

  abbrev pub share_all : ℕ × Format → Dumpers
  share_all u = if is_slot n binary u.0 u.1 then share_text (i, binary) else share_text u

  pub copied : (j : ℕ) (e : Format) → share_all (j, e) ≡ (if n == j then v (i, e) else v (j, e))
  copied j auto = ground arith
  copied j text = ground arith
  copied j binary = ground arith

module _ (n i : ℕ) (v : ℕ × PqFormat → Loaders) where
  abbrev pub pq_share_text : ℕ × PqFormat → Loaders
  pq_share_text u = if is_pq_slot n pq_text u.0 u.1 then v (i, pq_text) else v u

  abbrev pub pq_share_all : ℕ × PqFormat → Loaders
  pq_share_all u =
      if is_pq_slot n pq_binary u.0 u.1 then pq_share_text (i, pq_binary) else pq_share_text u

  pub pq_copied :
      (j : ℕ) (e : PqFormat) → pq_share_all (j, e) ≡ (if n == j then v (i, e) else v (j, e))
  pq_copied j pq_text = ground arith
  pq_copied j pq_binary = ground arith
