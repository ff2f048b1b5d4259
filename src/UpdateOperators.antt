-- ===== src/UpdateOperators.antt =====
-- src/polodb_core/vm/update_operators: `$set`, `$inc`, `$mul`, `$max`, `$min`, `$push`, `$pop`,
-- `$rename` and `$unset`. An operator that fails leaves its document half updated, but the machine
-- stops then and the document is dropped, so an error carries no document here.
pub mod Loop
pub mod Arithmetic
pub mod Assign
pub mod Extremes
pub mod Arrays
pub mod PrimaryKey
mod Examples
use polo_db.Prelude.{Bool, false, List}
use polo_db.Prelude.Bytes.{Bytes}
use polo_db.Errors.{Outcome, ok, panic, ◌>>=◌, ◌>>◌}
use polo_db.Bson.{Bson, Document, document}
use polo_db.Bson.Platform.{Platform}
use Loop.{State, validate_key}
use Arithmetic.{inc_fields, mul_fields}
use Assign.{set_fields, unset_fields, rename_fields, rename_checked, keys}
use Extremes.{max_fields, min_fields}
use Arrays.{push_fields, pop_fields, pop_map}

-- `Box<dyn UpdateOperator>`
pub data UpdateOperator : Type 0 where
  inc mul set max min push rename : Document → UpdateOperator
  pop : List (Bytes × Bool) → UpdateOperator
  unset : List Bytes → UpdateOperator

-- The update that a user names, with the document that stands behind it.
pub data OperatorName : Type 0 where
  inc mul set max min push rename pop unset : OperatorName

-- The `compile` functions; the name and the path serve the error of `$pop`.
unfoldable pub compile : OperatorName → Document → (name path : Bytes) → Outcome UpdateOperator
compile OperatorName.inc doc name path = do validate_key doc; ok (UpdateOperator.inc doc)
compile OperatorName.mul doc name path = do validate_key doc; ok (UpdateOperator.mul doc)
compile OperatorName.set doc name path = do validate_key doc; ok (UpdateOperator.set doc)
compile OperatorName.max doc name path = do validate_key doc; ok (UpdateOperator.max doc)
compile OperatorName.min doc name path = do validate_key doc; ok (UpdateOperator.min doc)
compile OperatorName.push doc name path = do validate_key doc; ok (UpdateOperator.push doc)
compile OperatorName.rename doc name path = do rename_checked doc; ok (UpdateOperator.rename doc)
compile OperatorName.pop doc name path = do map ← pop_map doc name path; ok (UpdateOperator.pop map)
compile OperatorName.unset doc name path = ok (UpdateOperator.unset (keys doc))

module _ (P : Platform) where
  -- The loops over the operator's fields: the document, and whether it was updated.
  unfoldable pub update_document : UpdateOperator → State → Outcome State
  update_document (UpdateOperator.inc doc) s = inc_fields P doc s
  update_document (UpdateOperator.mul doc) s = mul_fields P doc s
  update_document (UpdateOperator.set doc) s = set_fields P doc s
  update_document (UpdateOperator.max doc) s = max_fields P doc s
  update_document (UpdateOperator.min doc) s = min_fields P doc s
  update_document (UpdateOperator.push doc) s = push_fields P doc s
  update_document (UpdateOperator.rename doc) s = rename_fields P doc s
  update_document (UpdateOperator.pop map) s = pop_fields P map s
  update_document (UpdateOperator.unset fields) s = unset_fields P fields s

  -- `update`: the value must be a document (`as_document_mut().unwrap()`).
  unfoldable pub update : UpdateOperator → Bson → Outcome (Bson × Bool)
  update op (document doc) = do
    (after, updated) ← update_document op (doc, false)
    ok (document after, updated)
  update op _ = panic
