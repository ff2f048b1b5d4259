-- ===== src/Vm/Codegen/Labels/Filters.antt =====
-- The invariant of the labels, for the code that tests a document against a query.
use polo_db.Prelude.{ℕ, suc, false, List, [], ◌∷◌, ◌++◌}
use polo_db.Prelude.Bytes.{Bytes, str, str_eq, starts_with}
use polo_db.Errors.{field_type_unexpected}
use polo_db.Bson.{Bson, Document, Items, nil, cons, end, entry, document, array, string}
use polo_db.Vm.Op.{DbOp}
use polo_db.Vm.Codegen.{Gen}
use polo_db.Vm.Codegen.Filter.{
  item_path, emit_equal_field, emit_dollar, emit_calls, emit_logic_or, emit_standard_query_doc,
  emit_entries, emit_logic_and, emit_or_functions, emit_query_tuple,
}
use polo_db.Vm.Codegen.Labels.{Keeps, bind-Keeps, then-Keeps, choose-Keeps}
use polo_db.Vm.Codegen.Labels.Primitives.{
  pure-Keeps, raise-Keeps, push_static-Keeps, emit-Keeps, emit_u8-Keeps, emit_u32-Keeps,
  emit_push_value-Keeps, emit_ret-Keeps, new_label-Keeps,
}
use polo_db.Vm.Codegen.Labels.Jumps.{emit_goto-Keeps, emit_goto2-Keeps}
use polo_db.Vm.Codegen.Labels.Places.{emit_label-Keeps}
use polo_db.Vm.Codegen.Labels.Conditions.{path_hint-Keeps, invalid_query_field-Keeps}
use polo_db.Vm.Codegen.Labels.Operators.{emit_query_tuple_document-Keeps}

emit_equal_field-Keeps :
    (key : Bytes) (value : Bson) (label : ℕ) → Keeps (emit_equal_field key value label)
unfolding emit_equal_field
emit_equal_field-Keeps key value label = bind-Keeps (push_static-Keeps (string key)) λ key_id.
    then-Keeps (emit_goto2-Keeps DbOp.get_field key_id label) (
      bind-Keeps (push_static-Keeps value) λ value_id. then-Keeps (emit_push_value-Keeps value_id) (
        then-Keeps (emit-Keeps DbOp.equal) (
          then-Keeps (emit_goto-Keeps DbOp.if_false label)
            (then-Keeps (emit-Keeps DbOp.pop) (emit-Keeps DbOp.pop)))))

emit_dollar-Keeps :
    (key : Bytes) (field and_gen or_gen : Gen (Unit {0}))
    → Keeps field
    → Keeps and_gen
    → Keeps or_gen
    → Keeps (emit_dollar key field and_gen or_gen)
unfolding emit_dollar
emit_dollar-Keeps key field and_gen or_gen other both either =
    choose-Keeps (starts_with key (str "$"))
      (choose-Keeps (str_eq key (str "$and")) both
        (choose-Keeps (str_eq key (str "$or")) either invalid_query_field-Keeps))
      other

emit_calls-Keeps : (functions : List ℕ) (label : ℕ) → Keeps (emit_calls functions label)
unfolding emit_calls
emit_calls-Keeps [] label = pure-Keeps tt
emit_calls-Keeps (fun ∷ functions) label = then-Keeps (emit_goto-Keeps DbOp.call fun) (
    then-Keeps (emit_u32-Keeps 0)
      (then-Keeps (emit_goto-Keeps DbOp.if_true label) (emit_calls-Keeps functions label)))

emit_logic_or-Keeps :
    (or_functions : Gen (List ℕ)) (label : ℕ)
    → Keeps or_functions
    → Keeps (emit_logic_or or_functions label)
unfolding emit_logic_or
emit_logic_or-Keeps or_functions label inside = bind-Keeps new_label-Keeps λ cmp_label.
    then-Keeps (emit_goto-Keeps DbOp.goto cmp_label) (
      bind-Keeps inside
        λ functions. then-Keeps (emit_label-Keeps cmp_label) (emit_calls-Keeps functions label))

mutual
  unfolding emit_standard_query_doc emit_entries emit_logic_and emit_or_functions emit_query_tuple

  pub emit_standard_query_doc-Keeps :
      (doc : Document) (result_label not_found_label : ℕ)
      → Keeps (emit_standard_query_doc doc result_label not_found_label)
  emit_standard_query_doc-Keeps end result_label not_found_label =
      then-Keeps (emit-Keeps DbOp.store_r0_2) (emit_u8-Keeps 1)
  emit_standard_query_doc-Keeps (entry key value rest) result_label not_found_label =
      then-Keeps
        (path_hint-Keeps key _ (emit_query_tuple-Keeps key value result_label not_found_label))
        (emit_entries-Keeps rest result_label not_found_label)

  emit_entries-Keeps :
      (doc : Document) (result_label not_found_label : ℕ)
      → Keeps (emit_entries doc result_label not_found_label)
  emit_entries-Keeps end result_label not_found_label = pure-Keeps tt
  emit_entries-Keeps (entry key value rest) result_label not_found_label =
      then-Keeps
        (path_hint-Keeps key _ (emit_query_tuple-Keeps key value result_label not_found_label))
        (emit_entries-Keeps rest result_label not_found_label)

  emit_logic_and-Keeps :
      (items : Items) (index result_label not_found_label : ℕ)
      → Keeps (emit_logic_and items index result_label not_found_label)
  emit_logic_and-Keeps nil index result_label not_found_label = pure-Keeps tt
  emit_logic_and-Keeps (cons (document item_doc) items) index result_label not_found_label =
      then-Keeps
        (path_hint-Keeps (item_path index) _
          (emit_standard_query_doc-Keeps item_doc result_label not_found_label))
        (emit_logic_and-Keeps items (suc index) result_label not_found_label)
  emit_logic_and-Keeps (cons _ items) index result_label not_found_label =
      raise-Keeps (field_type_unexpected (str "$and") (str "Document"))

  emit_or_functions-Keeps :
      (items : Items) (index : ℕ) (functions : List ℕ)
      → Keeps (emit_or_functions items index functions)
  emit_or_functions-Keeps nil index functions = pure-Keeps functions
  emit_or_functions-Keeps (cons (document item_doc) items) index functions =
      bind-Keeps new_label-Keeps λ query_label. bind-Keeps new_label-Keeps λ ret_label.
        then-Keeps
          (path_hint-Keeps (item_path index) _ (
            then-Keeps (emit_label-Keeps query_label) (
              then-Keeps (emit_standard_query_doc-Keeps item_doc ret_label ret_label)
                (then-Keeps (emit_label-Keeps ret_label) (emit_ret-Keeps 0)))))
          (emit_or_functions-Keeps items (suc index) (functions ++ query_label ∷ []))
  emit_or_functions-Keeps (cons _ items) index functions =
      raise-Keeps (field_type_unexpected (str "$or") (str "Document"))

  emit_query_tuple-Keeps :
      (key : Bytes) (value : Bson) (result_label not_found_label : ℕ)
      → Keeps (emit_query_tuple key value result_label not_found_label)
  emit_query_tuple-Keeps key (document doc) result_label not_found_label =
      emit_dollar-Keeps key _ _ _ (emit_query_tuple_document-Keeps key doc false not_found_label)
        (raise-Keeps (field_type_unexpected (str "$and") (str "Array")))
        (raise-Keeps (field_type_unexpected (str "$or") (str "Array")))
  emit_query_tuple-Keeps key (array items) result_label not_found_label =
      emit_dollar-Keeps key _ _ _ invalid_query_field-Keeps
        (emit_logic_and-Keeps items 0 result_label not_found_label)
        (emit_logic_or-Keeps _ not_found_label (emit_or_functions-Keeps items 0 []))
  emit_query_tuple-Keeps key value result_label not_found_label =
      emit_dollar-Keeps key _ _ _ (emit_equal_field-Keeps key value not_found_label)
        (raise-Keeps (field_type_unexpected (str "$and") (str "Array")))
        (raise-Keeps (field_type_unexpected (str "$or") (str "Array")))
