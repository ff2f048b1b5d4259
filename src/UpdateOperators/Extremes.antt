-- ===== src/UpdateOperators/Extremes.antt =====
-- max_operator.rs and min_operator.rs: a field is replaced if the comparison with its value, or with
-- null where it is missing, holds.
pub mod Laws
use polo_db.Prelude.{Bool, true, if◌then◌else◌, Option}
use polo_db.Prelude.Bytes.{Bytes}
use polo_db.Errors.{Outcome, ok, ◌>>=◌}
use polo_db.Bson.{Bson, Document, null}
use polo_db.Bson.Platform.{Platform}
use polo_db.Compare.{CmpOp, greater, less, generic_cmp}
use polo_db.UpdateOperators.Loop.{State, for_each}

-- `unwrap_or(&Bson::Null)`
abbrev pub or_null : Option Bson → Bson
or_null Option.none = null
or_null (Option.some v) = v

module _ (P : Platform) where
  unfoldable pub replace_if : CmpOp → Bytes → Bson → State → Outcome State
  replace_if op k v s = do
    cmp ← generic_cmp P op v (or_null (P.get s.0 k))
    ok (if cmp then (P.insert s.0 k v, true) else s)

  unfoldable pub max_fields : Document → State → Outcome State
  unfolding replace_if
  max_fields = for_each (replace_if greater)

  unfoldable pub min_fields : Document → State → Outcome State
  unfolding replace_if
  min_fields = for_each (replace_if less)
