-- ===== src/Adapt/Maps/Lookup.antt =====
-- `AdaptersMap.get_dumper` of psycopg3/psycopg3/adapt.py, which changes dictionaries that may be shared.
use psycopg.Prelude.{
  ℕ, ◌≡◌, ◌⊎◌, refl, sym, ap, subst, ◌∙◌, false, Option, none, some, List, [], ◌∷◌, Bytes, ◌==◌,
  Bool-cases, inl, inr, ==_iff,
}
use psycopg.Prelude.Equality.{nat_eq, list_eq, pair_eq, list_beq, list_beq_iff}
use psycopg.Queries.{Format}
use psycopg.Adapt.Shared.{Shared, view, change}
use psycopg.Adapt.Maps.{
  cls, name, Classes, Dumpers, World, Found, by_class, by_name, first_found, find, rename,
  dumper_of, replace_name, get_dumper, format_eq, key_eq,
}

-- No two classes have the same full name.
abbrev pub HasOwnNames : (ℕ → Bytes) → Type 0
HasOwnNames full_name = (c d : ℕ) → full_name c ≡ full_name d → c ≡ d

abbrev or_else : Option ℕ → Option ℕ → Option ℕ
or_else none b = b
or_else (some d) b = some d

module _ (full_name : ℕ → Bytes) where
  abbrev entry : Dumpers → ℕ → Option ℕ
  entry m c = or_else (m (cls c)) (m (name (full_name c)))

  dumper_of-first :
      (c : ℕ) (a b : Option ℕ) (rest : Option Found)
      → dumper_of (first_found c a b rest) ≡ or_else (or_else a b) (dumper_of rest)
  dumper_of-first c (some d) b rest = refl
  dumper_of-first c none (some d) rest = refl
  dumper_of-first c none none rest = refl

  -- Two dictionaries with the same entry for each class give the same dumper.
  find_ext :
      (m m' : Dumpers) (cs : List ℕ)
      → ((c : ℕ) → entry m c ≡ entry m' c)
      → dumper_of (find full_name m cs) ≡ dumper_of (find full_name m' cs)
  unfolding find
  find_ext m m' [] same = refl
  find_ext m m' (c ∷ cs) same =
      dumper_of-first c (m (cls c)) (m (name (full_name c))) (find full_name m cs)
      ∙ (λ k. or_else (same c k) (find_ext m m' cs same k))
      ∙ sym (dumper_of-first c (m' (cls c)) (m' (name (full_name c))) (find full_name m' cs))

  abbrev IsNamed : Dumpers → ℕ → ℕ → Type 0
  IsNamed m c d = (m (cls c) ≡ none) × (m (name (full_name c)) ≡ some d)

  first-by_name :
      (x c d : ℕ) (m : Dumpers) (a b : Option ℕ) (rest : Option Found)
      → m (cls x) ≡ a
      → m (name (full_name x)) ≡ b
      → (rest ≡ some (by_name c d) → IsNamed m c d)
      → first_found x a b rest ≡ some (by_name c d)
      → IsNamed m c d
  first-by_name x c d m (some e) b rest ea eb later h = cc
  first-by_name x c d m none (some e) rest ea eb later h =
      let p : x ≡ c = cc h in
      let q : e ≡ d = cc h in
      (ap (λ y. m (cls y)) (sym p) ∙ ea, ap (λ y. m (name (full_name y))) (sym p) ∙ eb ∙ ap some q)
  first-by_name x c d m none none rest ea eb later h = later h

  find-by_name :
      (m : Dumpers) (cs : List ℕ) (c d : ℕ)
      → find full_name m cs ≡ some (by_name c d)
      → IsNamed m c d
  unfolding find
  find-by_name m [] c d h = cc
  find-by_name m (x ∷ cs) c d h =
      first-by_name x c d m (m (cls x)) (m (name (full_name x))) (find full_name m cs) refl refl
        (find-by_name m cs c d) h

  renamed_self :
      (m : Dumpers) (c d : ℕ) → IsNamed m c d → entry (rename full_name c d m) c ≡ entry m c
  unfolding rename
  renamed_self m c d named = rw ((==_iff c c).1 refl, named.0, named.1) refl

  other_name :
      (c x : ℕ)
      → HasOwnNames full_name
      → (c == x) ≡ false
      → list_beq (full_name c) (full_name x) ≡ false
  other_name c x own other = elim (Bool-cases (list_beq (full_name c) (full_name x))) [
    | inl same ↦
        let p : c ≡ x = own c x ((list_beq_iff (full_name c) (full_name x)).0 same) in
        cc ((==_iff c x).1 p, other)
    | inr apart ↦ apart
  ]

  rename-entry :
      (m : Dumpers) (c d x : ℕ)
      → HasOwnNames full_name
      → IsNamed m c d
      → entry (rename full_name c d m) x ≡ entry m x
  unfolding rename
  rename-entry m c d x own named = elim (Bool-cases (c == x)) [
    | inl same ↦
        subst (λ y. entry (rename full_name c d m) y ≡ entry m y) ((==_iff c x).0 same)
          (renamed_self m c d named)
    | inr other ↦ rw (other, other_name c x own other) refl
  ]

  -- A replacement in the dictionary that `s` refers to, seen by `u`.
  change_seen :
      (s u : ℕ × Format) (f : Dumpers → Dumpers) (t : Shared (ℕ × Format) Dumpers)
      → (view (change s f t) u ≡ view t u)
        ⊎ ((view (change s f t) u ≡ f (view t u)) × (view t s ≡ view t u))
  unfolding change
  change_seen s u f t = elim (Bool-cases (t.address s == t.address u)) [
    | inl same ↦
        let e : view t s ≡ view t u = ap t.dict ((==_iff (t.address s) (t.address u)).0 same) in
        inr (rw same (ap f e), e)
    | inr other ↦ inl (rw other refl)
  ]

  replace_name-find :
      (s u : ℕ × Format) (found : Option Found) (cs ks : List ℕ) (t : Shared (ℕ × Format) Dumpers)
      → HasOwnNames full_name
      → find full_name (view t s) cs ≡ found
      → dumper_of (find full_name (view (replace_name full_name s found t) u) ks)
        ≡ dumper_of (find full_name (view t u) ks)
  unfolding replace_name
  replace_name-find s u none cs ks t own h = refl
  replace_name-find s u (some (by_class d)) cs ks t own h = refl
  replace_name-find s u (some (by_name c d)) cs ks t own h =
      elim (change_seen s u (rename full_name c d) t) [
        | inl kept ↦ ap (λ m. dumper_of (find full_name m ks)) kept
        | inr (renamed, shared) ↦
            ap (λ m. dumper_of (find full_name m ks)) renamed
            ∙ find_ext (rename full_name c d (view t u)) (view t u) ks (λ x.
              rename-entry (view t u) c d x own
                (subst (λ m. IsNamed m c d) shared (find-by_name (view t s) cs c d h)))
      ]

get_dumper-once :
    (c : Classes) (i k : ℕ) (f : Format) (w : World)
    → HasOwnNames c.full_name
    → (j l : ℕ) (g : Format)
    → (get_dumper c j l g (get_dumper c i k f w).1).0 ≡ (get_dumper c j l g w).0
unfolding get_dumper
get_dumper-once c i k f w own j l g =
    replace_name-find c.full_name (i, f) (j, g) (find c.full_name (view w.dumpers (i, f)) (c.mro k))
      (c.mro k) (c.mro l) w.dumpers own refl

-- Searches one after another, each by its object, class and format, with what they leave.
unfoldable pub search_all : Classes → List (ℕ × (ℕ × Format)) → World → World
search_all c [] w = w
search_all c ((i, (k, f)) ∷ searches) w = search_all c searches (get_dumper c i k f w).1

-- A search for a dumper replaces the name of a class by the class in a dictionary that other objects may
-- share. Where no two classes have the same full name, and nothing is registered in between, any
-- number of searches change the answer of the next search for no class, no format and no object, and
-- change no loaders.
pub get_dumper_keeps :
    (c : Classes) (searches : List (ℕ × (ℕ × Format))) (w : World)
    → HasOwnNames c.full_name
    → ((j l : ℕ) (g : Format)
        → (get_dumper c j l g (search_all c searches w)).0 ≡ (get_dumper c j l g w).0)
      × ((search_all c searches w).loaders ≡ w.loaders)
unfolding search_all get_dumper
get_dumper_keeps c [] w own = (λ j l g. refl, refl)
get_dumper_keeps c ((i, (k, f)) ∷ searches) w own =
    let (same, loaders) = get_dumper_keeps c searches (get_dumper c i k f w).1 own in
    (λ j l g. same j l g ∙ get_dumper-once c i k f w own j l g, loaders)
