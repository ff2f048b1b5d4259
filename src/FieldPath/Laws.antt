-- ===== src/FieldPath/Laws.antt =====
-- Dotted paths against a relation, and the splitting of a path.
use polo_db.Prelude.{
  ℕ, ◌≡◌, ◌≢◌, ◌↔◌, refl, arith, ap, Option, none, some, List, [], ◌∷◌, ◌++◌, ◌==◌, All, Bool-cases,
  inl, inr, ◌∙◌, sym,
}
use polo_db.Prelude.Bytes.{Bytes}
use polo_db.Bson.{Bson, Document, document}
use polo_db.Bson.Platform.{Platform}
use polo_db.FieldPath.{begin_with, split_dots, try_get_document_by_slices, try_get_document_value}

pub join_dots : List Bytes → Bytes
join_dots [] = []
join_dots (piece ∷ []) = piece
join_dots (piece ∷ next ∷ pieces) = piece ++ b'.' ∷ join_dots (next ∷ pieces)

abbrev pub IsPlain : Bytes → Type 0
IsPlain = All (λ c. c ≢ b'.')

join_dots-begin_with :
    (c : ℕ) (pieces : List Bytes) → join_dots (begin_with c pieces) ≡ c ∷ join_dots pieces
unfolding join_dots begin_with
join_dots-begin_with c [] = refl
join_dots-begin_with c (p ∷ []) = refl
join_dots-begin_with c (p ∷ q ∷ ps) = refl

begin_with-IsPlain :
    (c : ℕ) (pieces : List Bytes)
    → c ≢ b'.'
    → All IsPlain pieces
    → All IsPlain (begin_with c pieces)
unfolding begin_with
begin_with-IsPlain c [] h hs = ((h, tt), tt)
begin_with-IsPlain c (p ∷ ps) h hs = ((h, hs.0), hs.1)

join_dots-dot :
    (pieces : List Bytes) (c : ℕ) → pieces ≢ [] → join_dots ([] ∷ pieces) ≡ b'.' ∷ join_dots pieces
unfolding join_dots
join_dots-dot [] c h = absurd (h refl)
join_dots-dot (p ∷ ps) c h = refl

begin_with-ne-nil : (c : ℕ) (pieces : List Bytes) → begin_with c pieces ≢ []
unfolding begin_with
begin_with-ne-nil c [] = cc
begin_with-ne-nil c (p ∷ ps) = cc

split_dots-ne-nil : (s : Bytes) → split_dots s ≢ []
unfolding split_dots
split_dots-ne-nil [] = cc
split_dots-ne-nil (c ∷ s) = elim (Bool-cases (c == b'.')) [
  | inl e ↦ rw e cc
  | inr e ↦ rw e (begin_with-ne-nil c (split_dots s))
]

-- The pieces hold no dot, and joined by dots they are the path again.
join_dots-split_dots : (s : Bytes) → (join_dots (split_dots s) ≡ s) × All IsPlain (split_dots s)
unfolding split_dots
join_dots-split_dots [] = (unfold join_dots in refl, (tt, tt))
join_dots-split_dots (c ∷ s) =
    let (joined, plain) = join_dots-split_dots s in
    elim (Bool-cases (c == b'.')) [
      | inl e ↦
          rw e (join_dots-dot (split_dots s) c (split_dots-ne-nil s) ∙ ground arith, (tt, plain))
      | inr e ↦ rw e (
        join_dots-begin_with c (split_dots s) ∙ ap (λ t. c ∷ t) joined,
        begin_with-IsPlain c (split_dots s) (ground arith) plain,
      )
    ]

-- The path leads through documents to a value that is not one.
pub data At (P : Platform) : Document → List Bytes → Bson → Type 0 where
  here :
      {d : Document} {k : Bytes} {v : Bson}
      → P.get d k ≡ some v
      → ((inner : Document) → v ≢ document inner)
      → At P d (k ∷ []) v
  below :
      {d inner : Document} {k : Bytes} {ks : List Bytes} {v : Bson}
      → P.get d k ≡ some (document inner)
      → At P inner ks v
      → At P d (k ∷ ks) v

module _ (P : Platform) where
  -- The loop's answer for what `get` gives at the first key.
  abbrev descend : Option Bson → List Bytes → Option Bson
  descend none ks = none
  descend (some (document inner)) ks = try_get_document_by_slices P inner ks
  descend (some v) [] = some v
  descend (some v) (_ ∷ _) = none

  try_get-step :
      (d : Document) (k : Bytes) (ks : List Bytes) (o : Option Bson)
      → P.get d k ≡ o
      → try_get_document_by_slices P d (k ∷ ks) ≡ descend o ks
  unfolding try_get_document_by_slices
  try_get-step d k ks none e = rw (e, try_get_document_by_slices)
  try_get-step d k [] (some (document inner)) e = rw (e, try_get_document_by_slices)
  try_get-step d k (j ∷ ks) (some (document inner)) e = rw (e, try_get_document_by_slices)
  try_get-step d k [] (some v) e = rw (e, try_get_document_by_slices)
  try_get-step d k (j ∷ ks) (some v) e = rw (e, try_get_document_by_slices)

  descend-At :
      (d : Document) (k : Bytes) (ks : List Bytes) (v : Bson)
      → ((inner : Document) → try_get_document_by_slices P inner ks ≡ some v → At P inner ks v)
      → (o : Option Bson) → P.get d k ≡ o
      → descend o ks ≡ some v
      → At P d (k ∷ ks) v
  descend-At d k ks v ih none e h = cc
  descend-At d k ks v ih (some (document inner)) e h = below e (ih inner h)
  descend-At d k [] v ih (some w) e h = here (e ∙ h) (λ inner p. cc)
  descend-At d k (j ∷ ks) v ih (some w) e h = cc

  try_get-At :
      (ks : List Bytes) (d : Document) (v : Bson)
      → try_get_document_by_slices P d ks ≡ some v
      → At P d ks v
  try_get-At [] d v h = absurd (unfold try_get_document_by_slices in cc)
  try_get-At (k ∷ ks) d v h =
      descend-At d k ks v (λ inner. try_get-At ks inner v) (P.get d k) refl
        (sym (try_get-step d k ks (P.get d k) refl) ∙ h)

  leaf-step : (v : Bson) → ((inner : Document) → v ≢ document inner) → descend (some v) [] ≡ some v
  leaf-step (document inner) h = absurd (h inner refl)
  leaf-step v h = refl

  At-try_get :
      {ks : List Bytes} {d : Document} {v : Bson}
      → At P d ks v
      → try_get_document_by_slices P d ks ≡ some v
  At-try_get (here {d} {k} {v} e h) = try_get-step d k [] (some v) e ∙ leaf-step v h
  At-try_get (below {d} {inner} {k} {ks} {v} e a) =
      try_get-step d k ks (some (document inner)) e ∙ At-try_get a

  -- A value is found exactly when the pieces of the path lead through documents to it, and it is no
  -- document itself.
  pub try_get_document_value_iff :
      (d : Document) (key : Bytes) (v : Bson)
      → (try_get_document_value P d key ≡ some v) ↔ At P d (split_dots key) v
  unfolding try_get_document_value
  try_get_document_value_iff d key v = (try_get-At (split_dots key) d v, At-try_get)
