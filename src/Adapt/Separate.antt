-- ===== src/Adapt/Separate.antt =====
-- No object of psycopg3/psycopg3/adapt.py changes a dictionary that another one refers to.
use psycopg.Prelude.{
  ◌<◌, ◌≡◌, ◌≢◌, sym, ap, subst, ◌∙◌, true, false, if◌then◌else◌, arith, Bool-cases, inl, inr,
}
use psycopg.Prelude.Equality.{Eq, ◌===◌, nat_eq, ===_refl}
use psycopg.Adapt.Shared.{Shared, view, change, own_copy, write, create, share}

-- Every address is in use, and no other reference is equal to an owned one.
pub record IsSeparate {S A : Type 0} (t : Shared S A) : Type 0 where
  pub allocated : (s : S) → t.address s < t.next
  pub exclusive : (s u : S) → s ≢ u → t.own s ≡ true → t.address s ≢ t.address u

ne_of_test : {S : Type 0} ⦃e : Eq S⦄ (s u : S) → (s === u) ≡ false → s ≢ u
ne_of_test ⦃e⦄ s u h p = cc ((e.beq_iff s u).1 p, h)

module _ {S A : Type 0} ⦃e : Eq S⦄ where
  pub create-view :
      (s u : S) (x : A) (t : Shared S A)
      → IsSeparate t
      → view (create s x t) u ≡ (if s === u then x else view t u)
  unfolding create
  create-view s u x t sep = ground (arith, sep.allocated u)

  pub create-IsSeparate :
      (s : S) (x : A) (t : Shared S A) → IsSeparate t → IsSeparate (create s x t)
  unfolding create
  create-IsSeparate s x t sep = record {
    allocated = λ u. ground (arith, sep.allocated u);
    exclusive = λ a b ne own. ground (
      arith,
      e.beq_iff s a,
      e.beq_iff s b,
      sep.allocated a,
      sep.allocated b,
      sep.exclusive a b ne,
      ne,
    );
  }

  owned_copy : (s : S) (t : Shared S A) → t.own s ≡ true → own_copy s t ≡ t
  unfolding own_copy
  owned_copy s t h = rw h

  shared_copy : (s : S) (t : Shared S A) → t.own s ≡ false → own_copy s t ≡ create s (view t s) t
  unfolding own_copy create
  shared_copy s t h = rw h

  own_copy-view : (s u : S) (t : Shared S A) → IsSeparate t → view (own_copy s t) u ≡ view t u
  unfolding own_copy
  own_copy-view s u t sep =
      ground (arith, sep.allocated s, sep.allocated u, e.beq_iff s u, ap t.address {x = s} {y = u})

  own_copy-own : (s : S) (t : Shared S A) → (own_copy s t).own s ≡ true
  unfolding own_copy
  own_copy-own s t = ground (arith, ===_refl s)

  own_copy-IsSeparate : (s : S) (t : Shared S A) → IsSeparate t → IsSeparate (own_copy s t)
  own_copy-IsSeparate s t sep = elim (Bool-cases (t.own s)) [
    | inl mine ↦ subst IsSeparate (sym (owned_copy s t mine)) sep
    | inr shared ↦
        subst IsSeparate (sym (shared_copy s t shared)) (create-IsSeparate s (view t s) t sep)
  ]

  change-view :
      (s u : S) (f : A → A) (t : Shared S A)
      → IsSeparate t
      → t.own s ≡ true
      → view (change s f t) u ≡ (if s === u then f (view t u) else view t u)
  unfolding change
  change-view s u f t sep mine = elim (Bool-cases (s === u)) [
    | inl same ↦
        let at : t.address s ≡ t.address u = ap t.address ((e.beq_iff s u).0 same) in
        rw same (ground (arith, at))
    | inr other ↦ rw other (ground (arith, sep.exclusive s u (ne_of_test s u other) mine))
  ]

  pub change-IsSeparate :
      (s : S) (f : A → A) (t : Shared S A) → IsSeparate t → IsSeparate (change s f t)
  unfolding change
  change-IsSeparate s f t sep = record { allocated = sep.allocated; exclusive = sep.exclusive }

  pub write-view :
      (s u : S) (f : A → A) (t : Shared S A)
      → IsSeparate t
      → view (write s f t) u ≡ (if s === u then f (view t u) else view t u)
  unfolding write
  write-view s u f t sep =
      change-view s u f (own_copy s t) (own_copy-IsSeparate s t sep) (own_copy-own s t)
      ∙ ap (λ m. if s === u then f m else m) (own_copy-view s u t sep)

  pub write-IsSeparate :
      (s : S) (f : A → A) (t : Shared S A) → IsSeparate t → IsSeparate (write s f t)
  unfolding write
  write-IsSeparate s f t sep = change-IsSeparate s f (own_copy s t) (own_copy-IsSeparate s t sep)

  pub share-view :
      (from s u : S) (t : Shared S A)
      → view (share from s t) u ≡ (if s === u then view t from else view t u)
  unfolding share
  share-view from s u t = ground arith

  -- Neither of the two that share a dictionary owns it.
  share-own :
      (from s a : S) (t : Shared S A)
      → (share from s t).own a ≡ true
      → ((from === a) ≡ false) × ((s === a) ≡ false) × (t.own a ≡ true)
  unfolding share
  share-own from s a t h = (ground arith, ground arith, ground arith)

  share-exclusive :
      (from s a b : S) (t : Shared S A)
      → IsSeparate t
      → a ≢ b
      → (share from s t).own a ≡ true
      → (share from s t).address a ≢ (share from s t).address b
  share-exclusive from s a b t sep ne h =
      let (not_from, not_s, mine) = share-own from s a t h in
      let apart = sep.exclusive a from (λ p. ne_of_test from a not_from (sym p)) mine in
      let apart' = sep.exclusive a b ne mine in unfold share in ground (arith, not_s, apart, apart')

  pub share-IsSeparate : (from s : S) (t : Shared S A) → IsSeparate t → IsSeparate (share from s t)
  unfolding share
  share-IsSeparate from s t sep = record {
    allocated = λ u. ground (arith, sep.allocated u, sep.allocated from);
    exclusive = λ a b. share-exclusive from s a b t sep;
  }
