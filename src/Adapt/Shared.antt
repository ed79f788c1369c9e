-- ===== src/Adapt/Shared.antt =====
-- Dictionaries that `AdaptersMap` objects of psycopg3/psycopg3/adapt.py share: the references that the
-- objects hold, with the flags that say which object owns what it refers to.
use psycopg.Prelude.{ℕ, suc, Bool, true, false, if◌then◌else◌}
use psycopg.Prelude.Equality.{Eq, ◌===◌, nat_eq}

-- f[k] = v, of what is not one of the program's dictionaries.
abbrev pub update {ℓ κ} : {K : Type ℓ} {V : Type κ} ⦃e : Eq K⦄ → (K → V) → K → V → K → V
update f k v j = if k === j then v else f j

-- The dictionaries that there are, by their addresses, and the fields `_dumpers` and `_own_dumpers` (or
-- `_loaders` and `_own_loaders`) of every object, by the object and the format.
pub record Shared (S A : Type 0) : Type 0 where
  pub next : ℕ
  pub dict : ℕ → A
  pub address : S → ℕ
  pub own : S → Bool

module _ {S A : Type 0} where
  -- The dictionary that an object has for a format.
  abbrev pub view : Shared S A → S → A
  view t s = t.dict (t.address s)

  module _ ⦃e : Eq S⦄ where
    -- A change of a dictionary in place, by whoever refers to it.
    unfoldable pub change : S → (A → A) → Shared S A → Shared S A
    change s f t = record t { dict = update t.dict (t.address s) (f (view t s)) }

    -- if not self._own[fmt]: self._maps[fmt] = self._maps[fmt].copy(); self._own[fmt] = True
    unfoldable pub own_copy : S → Shared S A → Shared S A
    own_copy s t = if t.own s then t else record {
      next = suc t.next;
      dict = update t.dict t.next (view t s);
      address = update t.address s t.next;
      own = update t.own s true;
    }

    -- With the assignment behind it.
    unfoldable pub write : S → (A → A) → Shared S A → Shared S A
    unfolding change own_copy
    write s f t = change s f (own_copy s t)

    -- An empty dictionary that the object owns.
    unfoldable pub create : S → A → Shared S A → Shared S A
    create s empty t = record {
      next = suc t.next;
      dict = update t.dict t.next empty;
      address = update t.address s t.next;
      own = update t.own s true;
    }

    -- The reference of `from` is copied to `s`, and neither owns the dictionary any more.
    unfoldable pub share : S → S → Shared S A → Shared S A
    share from s t = record t {
      address = update t.address s (t.address from);
      own = update (update t.own s false) from false;
    }
