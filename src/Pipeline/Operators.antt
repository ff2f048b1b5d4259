-- ===== src/Pipeline/Operators.antt =====
-- src/polodb_core/vm/operators: `$sum` and `$abs`, and the compilation of an operator.
use polo_db.Prelude.{suc, ◌==◌, List, [], ◌∷◌, ◌++◌, Option, none, some, if◌then◌else◌}
use polo_db.Prelude.Int.{ℤ, pos, negsuc, ◌+ℤ◌}
use polo_db.Prelude.Bytes.{Bytes, str, str_eq}
use polo_db.Errors.{Outcome, ok, err, ◌>>=◌, unknown_aggregation_operation, validation_error}
use polo_db.Bson.{Bson, Document, end, entry, int32, int64, null, string, document}
use polo_db.Bson.Platform.{Platform}
use polo_db.UpdateOperators.Arithmetic.{machine_int}
use polo_db.Pipeline.{mk_invalid_aggregate_field}

-- The two operators behind the trait `VmOperator`; the cell of `$sum` is part of the value.
mutual
  pub data VmOperator : Type 0 where
    sum : ℤ → VmOperator
    abs : OperatorExpr → VmOperator

  pub data OperatorExpr : Type 0 where
    constant : Bson → OperatorExpr
    expr : VmOperator → OperatorExpr
    alias : Bytes → OperatorExpr

-- field_name.strip_prefix("$")
abbrev pub strip_dollar : Bytes → Option Bytes
strip_dollar [] = none
strip_dollar (c ∷ name) = if c == 36 then some name else none

abbrev magnitude : ℤ → ℤ
magnitude (pos n) = pos n
magnitude (negsuc n) = pos (suc n)

module _ (P : Platform) where
  -- `abs` of the least integer overflows.
  unfoldable pub bson_abs : Bson → Outcome Bson
  bson_abs (int32 v) = do r ← machine_int P 31 (magnitude v); ok (int32 r)
  bson_abs (int64 v) = do r ← machine_int P 63 (magnitude v); ok (int64 r)
  bson_abs input = ok input

  -- The name in front of a dollar sign is an alias of a field.
  unfoldable pub abs_alias : Bytes → Outcome OperatorExpr
  abs_alias name = elim (strip_dollar name) [
    | none ↦ err (unknown_aggregation_operation (str "$abs"))
    | some field ↦ ok (OperatorExpr.alias field)
  ]

  unfoldable mutual
    pub compile_doc : List Bytes → Document → Outcome VmOperator
    compile_doc paths (entry op_name op_value end) =
        let inner = compile_abs (paths ++ op_name ∷ []) op_value in
        if str_eq op_name (str "$sum")
        then ok (VmOperator.sum (pos 0))
        else if str_eq op_name (str "$abs")
        then inner >>= (λ e. ok (VmOperator.abs e))
        else err (mk_invalid_aggregate_field (paths ++ op_name ∷ []))
    compile_doc paths _ = err (validation_error (str "Operator should have exactly one field"))

    pub compile_abs : List Bytes → Bson → Outcome OperatorExpr
    compile_abs paths (document doc) = do op ← compile_doc paths doc; ok (OperatorExpr.expr op)
    compile_abs paths null = ok (OperatorExpr.constant null)
    compile_abs paths (int32 v) = do r ← bson_abs (int32 v); ok (OperatorExpr.constant r)
    compile_abs paths (int64 v) = do r ← bson_abs (int64 v); ok (OperatorExpr.constant r)
    compile_abs paths (string name) = abs_alias name
    compile_abs paths _ = err (unknown_aggregation_operation (str "$abs"))

  -- `OpRegistry::compile`
  unfoldable pub compile_operator : List Bytes → Bson → Outcome VmOperator
  unfolding compile_doc
  compile_operator paths (document doc) = compile_doc paths doc
  compile_operator paths _ = err (mk_invalid_aggregate_field paths)

  -- The value of an alias in a document; elsewhere it is null.
  abbrev pub field_or_null : Bson → Bytes → Bson
  field_or_null (document doc) name = elim (P.get doc name) [ none ↦ null | some v ↦ v ]
  field_or_null _ name = null

  unfoldable pub initial_value : VmOperator → Outcome Bson
  unfolding bson_abs
  initial_value (VmOperator.sum inner) = ok (int64 inner)
  initial_value (VmOperator.abs (OperatorExpr.constant v)) = ok v
  initial_value (VmOperator.abs (OperatorExpr.expr op)) = initial_value op >>= bson_abs
  initial_value (VmOperator.abs (OperatorExpr.alias _)) = ok null

  unfoldable pub next_value : VmOperator → Bson → Outcome (VmOperator × Bson)
  unfolding bson_abs
  next_value (VmOperator.sum inner) input = do
    r ← machine_int P 63 (inner +ℤ pos 1)
    ok (VmOperator.sum r, int64 r)
  next_value (VmOperator.abs (OperatorExpr.constant v)) input =
      ok (VmOperator.abs (OperatorExpr.constant v), v)
  next_value (VmOperator.abs (OperatorExpr.expr op)) input = do
    (op', v) ← next_value op input
    r ← bson_abs v
    ok (VmOperator.abs (OperatorExpr.expr op'), r)
  next_value (VmOperator.abs (OperatorExpr.alias name)) input = do
    r ← bson_abs (field_or_null input name)
    ok (VmOperator.abs (OperatorExpr.alias name), r)

  unfoldable pub complete : VmOperator → Outcome Bson
  unfolding bson_abs
  complete (VmOperator.sum inner) = ok (int64 inner)
  complete (VmOperator.abs (OperatorExpr.constant v)) = ok v
  complete (VmOperator.abs (OperatorExpr.expr op)) = complete op >>= bson_abs
  complete (VmOperator.abs (OperatorExpr.alias _)) = ok null
