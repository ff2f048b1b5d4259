-- ===== src/UpdateOperators/Assign.antt =====
-- set_operator.rs, unset_operator.rs and rename_operator.rs.
pub mod Laws
use polo_db.Prelude.{true, Option, none, some, List, [], ◌∷◌}
use polo_db.Prelude.Bytes.{Bytes, str}
use polo_db.Errors.{Outcome, ok, err, panic, ◌>>=◌, field_type_unexpected}
use polo_db.Bson.{Bson, Document, end, entry, string, null}
use polo_db.Bson.Platform.{Platform}
use polo_db.UpdateOperators.Loop.{State, for_each}

-- `doc.keys()`
unfoldable pub keys : Document → List Bytes
keys end = []
keys (entry k _ rest) = k ∷ keys rest

-- The check of `RenameOperator::compile`: every value is a string.
unfoldable pub rename_checked : Document → Outcome (Unit {0})
rename_checked end = ok tt
rename_checked (entry k (string _) rest) = rename_checked rest
rename_checked (entry k _ rest) = err (field_type_unexpected k (str "String"))

module _ (P : Platform) where
  unfoldable pub set_fields : Document → State → Outcome State
  set_fields = for_each (λ k v s. ok (P.insert s.0 k v, true))

  unfoldable pub unset_fields : List Bytes → State → Outcome State
  unset_fields [] s = ok s
  unset_fields (field ∷ fields) s = unset_fields fields (P.remove s.0 field, true)

  unfoldable pub rename_field : Document → Bytes → Bytes → Document
  rename_field doc key new_key = elim (P.get doc key) [
    | some value ↦ P.insert (P.remove doc key) new_key value
    | none ↦ P.insert (P.remove doc key) new_key null
  ]

  -- One round of the loop; `unreachable!()` where the value is no string.
  unfoldable pub rename_step : Bytes → Bson → State → Outcome State
  unfolding rename_field
  rename_step k (string new_name) s = ok (rename_field s.0 k new_name, true)
  rename_step k _ s = panic

  unfoldable pub rename_fields : Document → State → Outcome State
  unfolding rename_step
  rename_fields = for_each rename_step
