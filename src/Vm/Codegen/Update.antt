-- ===== src/Vm/Codegen/Update.antt =====
-- The code of an update in src/polodb_core/vm/codegen.rs.
use polo_db.Prelude.{[], if◌then◌else◌}
use polo_db.Prelude.Bytes.{Bytes, str, str_eq}
use polo_db.Errors.{field_type_unexpected, unknown_update_operation}
use polo_db.Bson.{Bson, Document, end, entry, document}
use polo_db.UpdateOperators.{UpdateOperator, OperatorName, compile}
use polo_db.Vm.Op.{DbOp}
use polo_db.Vm.Label.{as_u32}
use polo_db.Vm.Codegen.{
  Gen, ◌>>=◌, ◌>>◌, pure, lift, raise, emit, emit_u8, emit_u32, push_update_operator,
}
use polo_db.Vm.Codegen.Query.{path_hint, last_key, gen_path}

unfoldable pub emit_delete_operation : Gen (Unit {0})
unfolding emit
emit_delete_operation = emit DbOp.delete_current

unfoldable pub emit_update_operator : UpdateOperator → Gen (Unit {0})
unfolding push_update_operator emit emit_u32
emit_update_operator operator = do
  id ← push_update_operator operator
  emit DbOp.call_update_operator
  emit_u32 (as_u32 id)

-- `try_unwrap_document!`, the compilation, and the instruction.
abbrev pub emit_compiled : OperatorName → Bytes → Bson → Gen (Unit {0})
emit_compiled operator op_name (document doc) = do
  op ← lift (compile operator doc [] [])
  emit_update_operator op
emit_compiled operator op_name _ = raise (field_type_unexpected op_name (str "Document"))

abbrev pub emit_pop : Bson → Gen (Unit {0})
emit_pop (document doc) = do
  name ← last_key
  path ← gen_path
  op ← lift (compile OperatorName.pop doc name path)
  emit_update_operator op
emit_pop _ = raise (field_type_unexpected (str "$pop") (str "Document"))

unfoldable pub emit_update_operation_kv : Bytes → Bson → Gen (Unit {0})
unfolding last_key gen_path compile emit_update_operator
emit_update_operation_kv key value =
    if str_eq key (str "$inc")
    then emit_compiled OperatorName.inc (str "$inc") value
    else if str_eq key (str "$set")
    then emit_compiled OperatorName.set (str "$set") value
    else if str_eq key (str "$max")
    then emit_compiled OperatorName.max (str "$max") value
    else if str_eq key (str "$min")
    then emit_compiled OperatorName.min (str "$min") value
    else if str_eq key (str "$mul")
    then emit_compiled OperatorName.mul (str "$mul") value
    else if str_eq key (str "$rename")
    then emit_compiled OperatorName.rename (str "$set") value
    else if str_eq key (str "$unset")
    then emit_compiled OperatorName.unset (str "$unset") value
    else if str_eq key (str "$push")
    then emit_compiled OperatorName.push (str "$push") value
    else if str_eq key (str "$pop")
    then emit_pop value
    else raise (unknown_update_operation key)

unfoldable pub emit_update_operations : Document → Gen (Unit {0})
unfolding path_hint emit_update_operation_kv
emit_update_operations end = pure tt
emit_update_operations (entry key value rest) = do
  path_hint key (emit_update_operation_kv key value)
  emit_update_operations rest

unfoldable pub emit_update_operation : Document → Gen (Unit {0})
unfolding emit emit_u8 emit_update_operations
emit_update_operation update = do
  emit DbOp.inc_r2
  emit DbOp.store_r0_2
  emit_u8 0
  emit_update_operations update
  emit DbOp.update_current
