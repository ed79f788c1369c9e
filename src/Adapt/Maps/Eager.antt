-- ===== src/Adapt/Maps/Eager.antt =====
-- `AdaptersMap` of psycopg3/psycopg3/adapt.py behaves as if every copy were made at once.
use psycopg.Prelude.{
  ℕ, suc, ◌≡◌, refl, ap, ◌∙◌, some, List, [], ◌∷◌, ◌==◌, ◌&&◌, if◌then◌else◌, arith,
}
use psycopg.Prelude.Equality.{◌===◌, nat_eq, pair_eq}
use psycopg.Queries.{Format, auto, text, binary}
use psycopg.Adapt.Shared.{Shared, update, view, write, create, share}
use psycopg.Adapt.Separate.{
  IsSeparate, create-view, create-IsSeparate, write-view, write-IsSeparate, share-view,
  share-IsSeparate,
}
use psycopg.Adapt.Maps.{
  PqFormat, pq_text, pq_binary, from_pq, Key, Classes, Dumpers, Loaders, World, format_eq,
  pq_format_eq, key_eq, empty, new, copy, register_dumper, register_loader, get_loader,
}
use psycopg.Adapt.Maps.Ops.{
  Op, make, make_copy, add_dumper, add_loader, apply, run, Eager, is_registered, apply_eager,
  run_eager, nothing, nothing_eager,
}
use psycopg.Adapt.Maps.Slots.{
  is_slot, is_pq_slot, twice_written, made, pq_made, share_auto, share_text, share_all, copied,
  pq_share_text, pq_share_all, pq_copied,
}

-- The dictionaries that are seen are those without sharing, and sharing goes on being harmless.
pub record Agrees (w : World) (g : Eager) : Type 0 where
  pub same_count : w.count ≡ g.count
  pub same_dumpers : (s : ℕ × Format) → view w.dumpers s ≡ g.dumpers s
  pub same_loaders : (s : ℕ × PqFormat) → view w.loaders s ≡ g.loaders s
  pub dumpers_separate : IsSeparate w.dumpers
  pub loaders_separate : IsSeparate w.loaders

nothing-Agrees : Agrees nothing nothing_eager
nothing-Agrees = record {
  same_count = refl;
  same_dumpers = λ s. refl;
  same_loaders = λ s. refl;
  dumpers_separate = record { allocated = λ s. omega arith; exclusive = λ s u ne own. cc own };
  loaders_separate = record { allocated = λ s. omega arith; exclusive = λ s u ne own. cc own };
}

module _ (c : Classes) (w : World) (g : Eager) (a : Agrees w g) where
  loader-Agrees :
      (i oid l : ℕ) → Agrees (apply c (add_loader i oid l) w) (apply_eager c (add_loader i oid l) g)
  unfolding apply apply_eager register_loader
  loader-Agrees i oid loader =
      let l = c.optimised loader in
      let s : ℕ × PqFormat = (i, c.loader_format l) in
      let f : Loaders → Loaders = λ m. update m oid (some l) in
      record {
        same_count = a.same_count;
        same_dumpers = a.same_dumpers;
        same_loaders = λ u.
            write-view s u f w.loaders a.loaders_separate
            ∙ ap (λ m. if s === u then f m else m) (a.same_loaders u);
        dumpers_separate = a.dumpers_separate;
        loaders_separate = write-IsSeparate s f w.loaders a.loaders_separate;
      }

  -- The two writes of a registration, in either format.
  dumper_written :
      (i : ℕ) (p : PqFormat) (f : Dumpers → Dumpers) (u : ℕ × Format)
      → view (write (i, auto) f (write (i, from_pq p) f w.dumpers)) u
        ≡ (if i == u.0 && is_registered p u.1 then f (view w.dumpers u) else view w.dumpers u)
  unfolding is_registered
  dumper_written i p f u =
      let s : ℕ × Format = (i, from_pq p) in
      write-view (i, auto) u f (write s f w.dumpers)
        (write-IsSeparate s f w.dumpers a.dumpers_separate)
      ∙ ap (λ m. if is_slot i auto u.0 u.1 then f m else m)
          (write-view s u f w.dumpers a.dumpers_separate)
      ∙ twice_written i p u.0 u.1 f (view w.dumpers u)

  dumper-Agrees :
      (i : ℕ) (k : Key) (d : ℕ)
      → Agrees (apply c (add_dumper i k d) w) (apply_eager c (add_dumper i k d) g)
  unfolding apply apply_eager register_dumper
  dumper-Agrees i k dumper =
      let d = c.optimised dumper in
      let p = c.dumper_format d in
      let f : Dumpers → Dumpers = λ m. update m k (some d) in
      record {
        same_count = a.same_count;
        same_dumpers = λ u.
            dumper_written i p f u
            ∙ ap (λ m. if i == u.0 && is_registered p u.1 then f m else m) (a.same_dumpers u);
        same_loaders = a.same_loaders;
        dumpers_separate =
            write-IsSeparate (i, auto) f (write (i, from_pq p) f w.dumpers)
              (write-IsSeparate (i, from_pq p) f w.dumpers a.dumpers_separate);
        loaders_separate = a.loaders_separate;
      }

  make-Agrees : Agrees (apply c make w) (apply_eager c make g)
  unfolding apply apply_eager new
  make-Agrees =
      let n = w.count in
      let d1 = create (n, auto) empty w.dumpers in
      let d2 = create (n, text) empty d1 in
      let sep1 = create-IsSeparate (n, auto) empty w.dumpers a.dumpers_separate in
      let sep2 = create-IsSeparate (n, text) empty d1 sep1 in
      let l1 = create (n, pq_text) empty w.loaders in
      let pq_sep1 = create-IsSeparate (n, pq_text) empty w.loaders a.loaders_separate in
      record {
        same_count = ap suc a.same_count;
        same_dumpers = λ u.
            create-view (n, binary) u empty d2 sep2
            ∙ ap (λ m. if is_slot n binary u.0 u.1 then empty else m)
                (create-view (n, text) u empty d1 sep1
                  ∙ ap (λ m. if is_slot n text u.0 u.1 then empty else m)
                      (create-view (n, auto) u empty w.dumpers a.dumpers_separate))
            ∙ made n u.0 u.1 empty (view w.dumpers u)
            ∙ rw (a.same_count, a.same_dumpers u) refl;
        same_loaders = λ u.
            create-view (n, pq_binary) u empty l1 pq_sep1
            ∙ ap (λ m. if is_pq_slot n pq_binary u.0 u.1 then empty else m)
                (create-view (n, pq_text) u empty w.loaders a.loaders_separate)
            ∙ pq_made n u.0 u.1 empty (view w.loaders u)
            ∙ rw (a.same_count, a.same_loaders u) refl;
        dumpers_separate = create-IsSeparate (n, binary) empty d2 sep2;
        loaders_separate = create-IsSeparate (n, pq_binary) empty l1 pq_sep1;
      }

  copy-Agrees : (i : ℕ) → Agrees (apply c (make_copy i) w) (apply_eager c (make_copy i) g)
  unfolding apply apply_eager copy
  copy-Agrees i = record {
    same_count = ap suc a.same_count;
    same_dumpers = λ u. seen u ∙ copied n i v u.0 u.1 ∙ eager u;
    same_loaders = λ u. pq_seen u ∙ pq_copied n i pv u.0 u.1 ∙ pq_eager u;
    dumpers_separate =
        share-IsSeparate (i, binary) (n, binary) d2
          (share-IsSeparate (i, text) (n, text) d1
            (share-IsSeparate (i, auto) (n, auto) w.dumpers a.dumpers_separate));
    loaders_separate =
        share-IsSeparate (i, pq_binary) (n, pq_binary) l1
          (share-IsSeparate (i, pq_text) (n, pq_text) w.loaders a.loaders_separate);
  }
    where
      n : ℕ
      n = w.count

      v : ℕ × Format → Dumpers
      v = view w.dumpers

      pv : ℕ × PqFormat → Loaders
      pv = view w.loaders

      d1 : Shared (ℕ × Format) Dumpers
      d1 = share (i, auto) (n, auto) w.dumpers

      d2 : Shared (ℕ × Format) Dumpers
      d2 = share (i, text) (n, text) d1

      l1 : Shared (ℕ × PqFormat) Loaders
      l1 = share (i, pq_text) (n, pq_text) w.loaders

      seen1 : (u : ℕ × Format) → view d1 u ≡ share_auto n i v u
      seen1 u = share-view (i, auto) (n, auto) u w.dumpers

      seen2 : (u : ℕ × Format) → view d2 u ≡ share_text n i v u
      seen2 u = share-view (i, text) (n, text) u d1 ∙ λ k.
          if is_slot n text u.0 u.1 then seen1 (i, text) k else seen1 u k

      seen : (u : ℕ × Format) → view (share (i, binary) (n, binary) d2) u ≡ share_all n i v u
      seen u = share-view (i, binary) (n, binary) u d2 ∙ λ k.
          if is_slot n binary u.0 u.1 then seen2 (i, binary) k else seen2 u k

      pq_seen1 : (u : ℕ × PqFormat) → view l1 u ≡ pq_share_text n i pv u
      pq_seen1 u = share-view (i, pq_text) (n, pq_text) u w.loaders

      pq_seen :
          (u : ℕ × PqFormat)
          → view (share (i, pq_binary) (n, pq_binary) l1) u ≡ pq_share_all n i pv u
      pq_seen u = share-view (i, pq_binary) (n, pq_binary) u l1 ∙ λ k.
          if is_pq_slot n pq_binary u.0 u.1 then pq_seen1 (i, pq_binary) k else pq_seen1 u k

      eager :
          (u : ℕ × Format)
          → (if n == u.0 then v (i, u.1) else v u)
            ≡ (if g.count == u.0 then g.dumpers (i, u.1) else g.dumpers u)
      eager u = λ k. if a.same_count k == u.0 then a.same_dumpers (i, u.1) k else a.same_dumpers u k

      pq_eager :
          (u : ℕ × PqFormat)
          → (if n == u.0 then pv (i, u.1) else pv u)
            ≡ (if g.count == u.0 then g.loaders (i, u.1) else g.loaders u)
      pq_eager u =
          λ k. if a.same_count k == u.0 then a.same_loaders (i, u.1) k else a.same_loaders u k

  apply-Agrees : (op : Op) → Agrees (apply c op w) (apply_eager c op g)
  apply-Agrees make = make-Agrees
  apply-Agrees (make_copy i) = copy-Agrees i
  apply-Agrees (add_dumper i k d) = dumper-Agrees i k d
  apply-Agrees (add_loader i oid l) = loader-Agrees i oid l

run-Agrees :
    (c : Classes) (ops : List Op) (w : World) (g : Eager)
    → Agrees w g
    → Agrees (run c ops w) (run_eager c ops g)
unfolding run run_eager
run-Agrees c [] w g a = a
run-Agrees c (op ∷ ops) w g a =
    run-Agrees c ops (apply c op w) (apply_eager c op g) (apply-Agrees c w g a op)

-- After any objects have been made and copied and any dumpers and loaders registered, in any order,
-- each object finds by each class, name or oid, for each format, what it would find if every copy had
-- been made at once with dictionaries of its own: what is registered on one is not seen by another.
pub copy_on_write_same :
    (c : Classes) (ops : List Op)
    → ((i : ℕ) (f : Format) (k : Key)
        → view (run c ops nothing).dumpers (i, f) k
          ≡ (run_eager c ops nothing_eager).dumpers (i, f) k)
      × ((i oid : ℕ) (p : PqFormat)
          → get_loader i oid p (run c ops nothing)
            ≡ (run_eager c ops nothing_eager).loaders (i, p) oid)
unfolding get_loader
copy_on_write_same c ops =
    let a = run-Agrees c ops nothing nothing_eager nothing-Agrees in
    (
      λ i f k. ap (λ m. m k) (a.same_dumpers (i, f)),
      λ i oid p. ap (λ m. m oid) (a.same_loaders (i, p)),
    )
