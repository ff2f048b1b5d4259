-- ===== src/FieldPath.antt =====
-- src/polodb_core/utils/bson.rs, `try_get_document_value`: the value at a dotted path of a document.
pub mod Laws
mod Examples
use polo_db.Prelude.{ℕ, Option, none, some, List, [], ◌∷◌, ◌==◌, if◌then◌else◌}
use polo_db.Prelude.Bytes.{Bytes}
use polo_db.Bson.{Bson, Document, document}
use polo_db.Bson.Platform.{Platform}

-- `split('.')`
unfoldable pub begin_with : ℕ → List Bytes → List Bytes
begin_with c [] = (c ∷ []) ∷ []
begin_with c (piece ∷ pieces) = (c ∷ piece) ∷ pieces

unfoldable pub split_dots : Bytes → List Bytes
unfolding begin_with
split_dots [] = [] ∷ []
split_dots (c ∷ s) =
    let pieces = split_dots s in if c == b'.' then [] ∷ pieces else begin_with c pieces

-- A value that is not a document is the answer at the last key only.
abbrev leaf : Bson → List Bytes → Option Bson
leaf v [] = some v
leaf v (_ ∷ _) = none

module _ (P : Platform) where
  unfoldable pub try_get_document_by_slices : Document → List Bytes → Option Bson
  try_get_document_by_slices doc [] = none
  try_get_document_by_slices doc (first ∷ remains) = elim (P.get doc first) [
    | none ↦ none
    | some (document inner) ↦ try_get_document_by_slices inner remains
    | some v ↦ leaf v remains
  ]

  unfoldable pub try_get_document_value : Document → Bytes → Option Bson
  unfolding try_get_document_by_slices split_dots
  try_get_document_value doc key = try_get_document_by_slices doc (split_dots key)
