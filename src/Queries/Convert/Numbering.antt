-- ===== src/Queries/Convert/Numbering.antt =====
-- The numbers that `_query2pg` of psycopg3/psycopg3/_queries.py gives to placeholders.
use psycopg.Prelude.{
  subst, suc, ◌+◌, ◌≡◌, refl, sym, ap, ◌∙◌, true, false, none, some, List, [], ◌∷◌, ◌++◌, Bytes,
  length, arith, append_assoc, append-nil, Bool-cases, Option-cases, inl, inr,
}
use psycopg.Prelude.OrderedDict.{lookup, set, Distinct, set-absent, Distinct-append_last}
use psycopg.Queries.Defs.{
  Format, Item, index, name, QueryPart, Result, ok, err, ◌>>=◌, bytes_eq, format_beq,
  programming_error, different_formats,
}
use psycopg.Queries.Convert.{Seen, named, dollar}
use psycopg.Queries.Convert.Order.{
  names, first_occurrences, not_in, not_in-nothing, order-known, order-new,
}
use psycopg.Queries.Convert.Table.{
  Table, pair_up, position, render, Agree, numbered, same_number, same_entry, length-numbered,
  lookup-numbered_new, lookup-numbered_known, numbered-append_last, position-append_known,
  position-append_new,
}

-- What the loop has made of the parts, by the table in the end.
pub record Numbered (t : Table) (query : Bytes) (parts : List QueryPart) : Type 0 where
  pub rendered : query ≡ render t parts
  pub agrees : Agree t parts
  pub distinct : Distinct t

abbrev Outcome : Table → List QueryPart → Type 0
Outcome t parts =
    (query : Bytes) (formats : List Format) (order : List Bytes)
    → named (numbered 0 t) parts ≡ ok (query, formats, order)
    → Numbered (t ++ pair_up order formats) query parts
      × (length order ≡ length formats)
      × (order ≡ not_in t (first_occurrences (names parts)))

bind_named :
    (m : Result (Bytes × List Format × List Bytes))
    (k : Bytes × List Format × List Bytes → Bytes × List Format × List Bytes)
    {r : Bytes × List Format × List Bytes}
    → (m >>= λ x. ok (k x)) ≡ ok r
    → (x : Bytes × List Format × List Bytes) × (m ≡ ok x) × (k x ≡ r)
bind_named (ok x) k h = (x, refl, cc)
bind_named (err e) k h = cc

module _ (t : Table) (pre : Bytes) (n : Bytes) (fmt : Format) (q : QueryPart)
    (parts : List QueryPart) where
  abbrev part : QueryPart
  part = record { pre = pre; item = name n; format = fmt }

  named-known :
      (seen : Seen) (ph : Bytes) (f : Format)
      → lookup n seen ≡ some (ph, f)
      → format_beq f fmt ≡ true
      → named seen (part ∷ q ∷ parts)
        ≡ (named seen (q ∷ parts) >>= λ x. ok (pre ++ (ph ++ x.0), x.1, x.2))
  unfolding named
  named-known seen ph f h b = rw (h, named) (rw b)

  named-clash :
      (seen : Seen) (ph : Bytes) (f : Format)
      → lookup n seen ≡ some (ph, f)
      → format_beq f fmt ≡ false
      → named seen (part ∷ q ∷ parts) ≡ err (programming_error different_formats)
  unfolding named
  named-clash seen ph f h b = rw (h, named) (rw b)

  named-new :
      (seen : Seen)
      → lookup n seen ≡ none
      → named seen (part ∷ q ∷ parts) ≡ (
          named (set n (dollar (length seen + 1), fmt) seen) (q ∷ parts) >>= λ x.
          ok (pre ++ (dollar (length seen + 1) ++ x.0), fmt ∷ x.1, n ∷ x.2))
  unfolding named
  named-new seen h = rw (h, named)

  format_beq→eq : (f g : Format) → format_beq f g ≡ true → f ≡ g
  format_beq→eq f g h = ground arith

  abbrev Done : Bytes × List Format × List Bytes → Type 0
  Done r =
      Numbered (t ++ pair_up r.2 r.1) r.0 (part ∷ q ∷ parts)
      × (length r.2 ≡ length r.1)
      × (r.2 ≡ not_in t (first_occurrences (names (part ∷ q ∷ parts))))

  -- The name has a number already.
  step_known :
      (f : Format) → lookup n t ≡ some f → Outcome t (q ∷ parts) → Outcome t (part ∷ q ∷ parts)
  unfolding render names
  step_known f h ih query formats order e = elim (Bool-cases (format_beq f fmt)) [
    | inr clash ↦ cc (named-clash (numbered 0 t) ph f known clash, e)
    | inl same ↦
        let (x, m, k) =
          bind_named (named (numbered 0 t) (q ∷ parts)) (λ x. (pre ++ (ph ++ x.0), x.1, x.2))
            (sym (named-known (numbered 0 t) ph f known same) ∙ e) in
        let (done, sizes, firsts) = ih x.0 x.1 x.2 m in
        let at = position-append_known t (pair_up x.2 x.1) n f h in
        subst Done k (
          record {
            rendered =
                ap (λ s. pre ++ (ph ++ s)) done.rendered
                ∙ ap (λ i. pre ++ (dollar (i + 1) ++ render (t ++ pair_up x.2 x.1) (q ∷ parts)))
                    (sym at.0);
            agrees = (at.1 ∙ ap some (format_beq→eq f fmt same), done.agrees);
            distinct = done.distinct;
          },
          sizes,
          firsts ∙ sym (order-known t n f (names (q ∷ parts)) h),
        )
  ]
    where
      ph : Bytes
      ph = dollar (position n t + 1)

      known : lookup n (numbered 0 t) ≡ some (ph, f)
      known =
          lookup-numbered_known 0 t n f h
          ∙ same_number (0 + position n t + 1) (position n t + 1) f (omega arith)

  -- The name gets the next number.
  step_new :
      lookup n t ≡ none → Outcome (t ++ (n, fmt) ∷ []) (q ∷ parts) → Outcome t (part ∷ q ∷ parts)
  unfolding render pair_up names
  step_new h ih query formats order e =
      let (x, m, k) =
        bind_named (named (set n (ph, fmt) (numbered 0 t)) (q ∷ parts))
          (λ x. (pre ++ (ph ++ x.0), fmt ∷ x.1, n ∷ x.2))
          (sym (named-new (numbered 0 t) (lookup-numbered_new 0 t n h)) ∙ e) in
      let (done, sizes, firsts) = ih x.0 x.1 x.2 (ap (λ s. named s (q ∷ parts)) table ∙ m) in
      let at = position-append_new t (pair_up x.2 x.1) n fmt h in
      let whole : (t ++ (n, fmt) ∷ []) ++ pair_up x.2 x.1 ≡ t ++ (n, fmt) ∷ pair_up x.2 x.1 =
        append_assoc t ((n, fmt) ∷ []) (pair_up x.2 x.1) in
      let done' = subst (λ u. Numbered u x.0 (q ∷ parts)) whole done in
      subst Done k (
        record {
          rendered =
              ap (λ s. pre ++ (ph ++ s)) done'.rendered
              ∙ ap
                  (λ i.
                    pre ++ (dollar (i + 1) ++ render (t ++ (n, fmt) ∷ pair_up x.2 x.1) (q ∷ parts)))
                  (length-numbered 0 t ∙ sym at.0);
          agrees = (at.1, done'.agrees);
          distinct = done'.distinct;
        },
        ap suc sizes,
        ap (λ l. n ∷ l) firsts ∙ sym (order-new t n fmt (names (q ∷ parts)) h),
      )
    where
      ph : Bytes
      ph = dollar (length (numbered 0 t) + 1)

      table : numbered 0 (t ++ (n, fmt) ∷ []) ≡ set n (ph, fmt) (numbered 0 t)
      table =
          numbered-append_last 0 t n fmt
          ∙ ap (λ e. numbered 0 t ++ e)
              (same_entry (0 + length t + 1) (length (numbered 0 t) + 1) n fmt
                (omega (arith, length-numbered 0 t)))
          ∙ sym (set-absent n (ph, fmt) (numbered 0 t) (lookup-numbered_new 0 t n h))

by_item :
    (t : Table) (pre : Bytes) (it : Item) (fmt : Format) (q : QueryPart) (parts : List QueryPart)
    → ((u : Table) → Distinct u → Outcome u (q ∷ parts))
    → Distinct t
    → Outcome t (record { pre = pre; item = it; format = fmt } ∷ q ∷ parts)
unfolding named
by_item t pre (index i) fmt q parts ih d query formats order e = cc
by_item t pre (name n) fmt q parts ih d query formats order e = elim (Option-cases (lookup n t)) [
  | inl h ↦
      step_new t pre n fmt q parts h (ih (t ++ (n, fmt) ∷ []) (Distinct-append_last n fmt t h d))
        query formats order e
  | inr (f, h) ↦ step_known t pre n fmt q parts f h (ih t d) query formats order e
]

no_names :
    (t : Table) (text : Bytes) (parts : List QueryPart) {query : Bytes} {formats : List Format}
    {order : List Bytes}
    → ◌≡◌ {A = Result (Bytes × List Format × List Bytes)}
        (ok (text, [], []))
        (ok (query, formats, order))
    → Numbered t text parts
    → names parts ≡ []
    → Numbered (t ++ pair_up order formats) query parts
      × (length order ≡ length formats)
      × (order ≡ not_in t (first_occurrences (names parts)))
unfolding pair_up not_in first_occurrences
no_names t text parts {query} {formats} {order} e d none_left =
    let k : ◌≡◌ {A = Bytes × List Format × List Bytes} (text, [], []) (query, formats, order) =
      cc in
    subst
      (λ r.
        Numbered (t ++ pair_up r.2 r.1) r.0 parts
        × (length r.2 ≡ length r.1)
        × (r.2 ≡ not_in t (first_occurrences (names parts))))
      k (rw (append-nil t) (d, refl, ap (λ l. not_in t (first_occurrences l)) (sym none_left)))

named_table : (parts : List QueryPart) (t : Table) → Distinct t → Outcome t parts
unfolding named render names
named_table [] t d query formats order e =
    no_names t [] [] e (record { rendered = refl; agrees = tt; distinct = d }) refl
named_table (p ∷ []) t d query formats order e =
    no_names t p.pre (p ∷ []) e (record { rendered = refl; agrees = tt; distinct = d }) refl
named_table (p ∷ q ∷ parts) t d query formats order e =
    by_item t p.pre p.item p.format q parts (named_table (q ∷ parts)) d query formats order e

-- Where the loop over named placeholders succeeds, `order` has each name once, in the order in which
-- the names occur first in the query, and no other; its query is the fragments with `$k` for each
-- placeholder, where the name of the placeholder is the k-th of `order`, from 1; and every placeholder
-- has the format that `formats` gives to its name.
pub named_numbering :
    (parts : List QueryPart) (query : Bytes) (formats : List Format) (order : List Bytes)
    → named [] parts ≡ ok (query, formats, order)
    → Numbered (pair_up order formats) query parts
      × (length order ≡ length formats)
      × (order ≡ first_occurrences (names parts))
unfolding numbered
named_numbering parts query formats order e =
    let (done, sizes, firsts) = named_table parts [] tt query formats order e in
    (done, sizes, firsts ∙ not_in-nothing (first_occurrences (names parts)))
