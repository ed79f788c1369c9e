-- ===== src/Composites/Print.antt =====
-- What `TupleDumper` of psycopg3/psycopg3/types/composite.py writes.
use psycopg.Prelude.{
  ◌≡◌, refl, sym, ap, ◌∙◌, Option, none, some, List, [], ◌∷◌, ◌++◌, Bytes, codes, join,
  append_assoc, append-nil,
}
use psycopg.Prelude.Equality.{nat_eq, list_eq}
use psycopg.Arrays.Dump.{replace_last}
use psycopg.Arrays.Print.{replace_last-append, join-snoc}
use psycopg.Composites.{dump_item, add_parts, dump_sequence, dump}

-- The text of an item, and of a row with no brackets.
abbrev pub field_text : Option Bytes → Bytes
field_text none = []
field_text (some b) = dump_item b

abbrev pub body : Option Bytes → List (Option Bytes) → Bytes
body x [] = field_text x
body x (y ∷ ys) = field_text x ++ b',' ∷ body y ys

-- What has been joined so far, with an item and the separator behind it.
abbrev with_item : Option Bytes → List Bytes → List Bytes
with_item none parts = parts
with_item (some b) parts = parts ++ dump_item b ∷ []

add_parts-cons :
    (sep : Bytes) (x : Option Bytes) (xs : List (Option Bytes)) (parts : List Bytes)
    → add_parts sep (x ∷ xs) parts ≡ add_parts sep xs (with_item x parts ++ sep ∷ [])
unfolding add_parts
add_parts-cons sep none xs parts = refl
add_parts-cons sep (some b) xs parts = refl

add_parts-nil : (sep : Bytes) (parts : List Bytes) → add_parts sep [] parts ≡ parts
unfolding add_parts
add_parts-nil sep parts = refl

join-with_item :
    (x : Option Bytes) (parts : List Bytes) → join (with_item x parts) ≡ join parts ++ field_text x
join-with_item none parts = sym (append-nil (join parts))
join-with_item (some b) parts = join-snoc parts (dump_item b)

join-parts :
    (x : Option Bytes) (xs : List (Option Bytes)) (parts : List Bytes)
    → join (replace_last (codes ")") (add_parts (codes ",") (x ∷ xs) parts))
      ≡ join parts ++ (body x xs ++ codes ")")
join-parts x [] parts =
    ap (λ p. join (replace_last (codes ")") p))
      (add_parts-cons (codes ",") x [] parts
        ∙ add_parts-nil (codes ",") (with_item x parts ++ codes "," ∷ []))
    ∙ ap join (replace_last-append (codes ")") (codes ",") (with_item x parts))
    ∙ join-snoc (with_item x parts) (codes ")")
    ∙ ap (λ s. s ++ codes ")") (join-with_item x parts)
    ∙ append_assoc (join parts) (field_text x) (codes ")")
join-parts x (y ∷ ys) parts =
    ap (λ p. join (replace_last (codes ")") p)) (add_parts-cons (codes ",") x (y ∷ ys) parts)
    ∙ join-parts y ys (with_item x parts ++ codes "," ∷ [])
    ∙ ap (λ s. s ++ (body y ys ++ codes ")"))
        (join-snoc (with_item x parts) (codes ",")
          ∙ ap (λ s. s ++ codes ",") (join-with_item x parts))
    ∙ append_assoc (join parts ++ field_text x) (codes ",") (body y ys ++ codes ")")
    ∙ append_assoc (join parts) (field_text x) (b',' ∷ (body y ys ++ codes ")"))
    ∙ ap (λ s. join parts ++ s) (sym (append_assoc (field_text x) (b',' ∷ body y ys) (codes ")")))

pub dump-body :
    (x : Option Bytes) (xs : List (Option Bytes)) → dump (x ∷ xs) ≡ b'(' ∷ (body x xs ++ codes ")")
unfolding dump dump_sequence
dump-body x xs = join-parts x xs (codes "(" ∷ [])
