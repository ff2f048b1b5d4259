-- ===== src/Vm/Codegen/Labels/Updates.antt =====
-- The invariant of the labels, for the code of an update.
use polo_db.Prelude.{[], String}
use polo_db.Prelude.Bytes.{Bytes, str, str_eq}
use polo_db.Errors.{field_type_unexpected, unknown_update_operation}
use polo_db.Bson.{Bson, Document, end, entry, document}
use polo_db.UpdateOperators.{UpdateOperator, OperatorName, compile}
use polo_db.Vm.Op.{DbOp}
use polo_db.Vm.Label.{as_u32}
use polo_db.Vm.Codegen.Update.{
  emit_delete_operation, emit_update_operator, emit_compiled, emit_pop, emit_update_operation_kv,
  emit_update_operations, emit_update_operation,
}
use polo_db.Vm.Codegen.Labels.{Keeps, bind-Keeps, ◌>>>◌, choose-Keeps}
use polo_db.Vm.Codegen.Labels.Primitives.{
  pure-Keeps, lift-Keeps, raise-Keeps, emit-Keeps, emit_u8-Keeps, emit_u32-Keeps,
  push_update_operator-Keeps,
}
use polo_db.Vm.Codegen.Labels.Conditions.{path_hint-Keeps, last_key-Keeps, gen_path-Keeps}

pub emit_delete_operation-Keeps : Keeps emit_delete_operation
unfolding emit_delete_operation
emit_delete_operation-Keeps = emit-Keeps DbOp.delete_current

emit_update_operator-Keeps : (operator : UpdateOperator) → Keeps (emit_update_operator operator)
unfolding emit_update_operator
emit_update_operator-Keeps operator =
    bind-Keeps (push_update_operator-Keeps operator)
      λ id. emit-Keeps DbOp.call_update_operator >>> emit_u32-Keeps (as_u32 id)

emit_compiled-Keeps :
    (operator : OperatorName) (op_name : Bytes) (value : Bson)
    → Keeps (emit_compiled operator op_name value)
emit_compiled-Keeps operator op_name (document doc) =
    bind-Keeps (lift-Keeps (compile operator doc [] [])) emit_update_operator-Keeps
emit_compiled-Keeps operator op_name _ =
    raise-Keeps (field_type_unexpected op_name (str "Document"))

emit_pop-Keeps : (value : Bson) → Keeps (emit_pop value)
emit_pop-Keeps (document doc) = bind-Keeps last_key-Keeps λ name. bind-Keeps gen_path-Keeps λ path.
    bind-Keeps (lift-Keeps (compile OperatorName.pop doc name path)) emit_update_operator-Keeps
emit_pop-Keeps _ = raise-Keeps (field_type_unexpected (str "$pop") (str "Document"))

emit_update_operation_kv-Keeps :
    (key : Bytes) (value : Bson) → Keeps (emit_update_operation_kv key value)
unfolding emit_update_operation_kv
emit_update_operation_kv-Keeps key value =
    let at = λ (name : String). str_eq key (str name) in
    choose-Keeps (at "$inc") (emit_compiled-Keeps OperatorName.inc (str "$inc") value) (
      choose-Keeps (at "$set") (emit_compiled-Keeps OperatorName.set (str "$set") value) (
        choose-Keeps (at "$max") (emit_compiled-Keeps OperatorName.max (str "$max") value) (
          choose-Keeps (at "$min") (emit_compiled-Keeps OperatorName.min (str "$min") value) (
            choose-Keeps (at "$mul") (emit_compiled-Keeps OperatorName.mul (str "$mul") value) (
              choose-Keeps (at "$rename")
                (emit_compiled-Keeps OperatorName.rename (str "$set") value)
                (choose-Keeps (at "$unset")
                  (emit_compiled-Keeps OperatorName.unset (str "$unset") value)
                  (choose-Keeps (at "$push")
                    (emit_compiled-Keeps OperatorName.push (str "$push") value)
                    (choose-Keeps (at "$pop") (emit_pop-Keeps value)
                      (raise-Keeps (unknown_update_operation key))))))))))

emit_update_operations-Keeps : (update : Document) → Keeps (emit_update_operations update)
unfolding emit_update_operations
emit_update_operations-Keeps end = pure-Keeps tt
emit_update_operations-Keeps (entry key value rest) =
    path_hint-Keeps key _ (emit_update_operation_kv-Keeps key value)
    >>> emit_update_operations-Keeps rest

pub emit_update_operation-Keeps : (update : Document) → Keeps (emit_update_operation update)
unfolding emit_update_operation
emit_update_operation-Keeps update =
    emit-Keeps DbOp.inc_r2
    >>> emit-Keeps DbOp.store_r0_2
    >>> emit_u8-Keeps 0
    >>> emit_update_operations-Keeps update
    >>> emit-Keeps DbOp.update_current
