-- ===== src/Arrays.antt =====
-- psycopg3/psycopg3/types/array.py: lists as arrays of the database, in text and in binary. An item is
-- the bytes that the dumper of the items makes of it, and that their loader is given.
pub mod Dump
pub mod Load
pub mod Binary
pub mod Print
pub mod RoundTrip
mod Tests
use psycopg.Prelude.{◌≡◌, refl, ap, Bytes}

-- A list that can hold lists, of items and None.
mutual
  pub data Elem : Type 0 where
    null : Elem
    item : Bytes → Elem
    sub : Elems → Elem

  pub data Elems : Type 0 where
    nil : Elems
    cons : Elem → Elems → Elems

-- xs + ys, and xs.append(x) as xs + [x].
unfoldable pub append : Elems → Elems → Elems
append nil ys = ys
append (cons x xs) ys = cons x (append xs ys)

pub append-nil : (xs : Elems) → append xs nil ≡ xs
unfolding append
append-nil nil = refl
append-nil (cons x xs) = ap (cons x) (append-nil xs)

pub append_assoc : (xs ys zs : Elems) → append (append xs ys) zs ≡ append xs (append ys zs)
unfolding append
append_assoc nil ys zs = refl
append_assoc (cons x xs) ys zs = ap (cons x) (append_assoc xs ys zs)
