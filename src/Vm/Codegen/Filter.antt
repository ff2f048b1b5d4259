-- ===== src/Vm/Codegen/Filter.antt =====
-- `emit_standard_query_doc` and `emit_query_tuple` of src/polodb_core/vm/codegen.rs: the code that tests a
-- document against a query, with `$and` and `$or`.
use polo_db.Errors.{field_type_unexpected}
use polo_db.Prelude.{suc, ◌∷◌, if◌then◌else◌, List, ℕ, false, [], ◌++◌}
use polo_db.Prelude.Bytes.{Bytes, str, str_eq, starts_with}
use polo_db.Bson.{Bson, Document, Items, nil, cons, end, entry, document, array, string}
use polo_db.Pipeline.{index_name}
use polo_db.Vm.Op.{DbOp}
use polo_db.Vm.Codegen.{
  Gen, ◌>>=◌, ◌>>◌, pure, raise, emit, emit_u8, emit_u32, new_label, push_static, emit_label,
  emit_goto, emit_goto2, emit_push_value, emit_ret,
}
use polo_db.Vm.Codegen.Query.{path_hint, invalid_query_field, emit_query_tuple_document}

-- A field with a value that is no document and no array.
unfoldable pub emit_equal_field : Bytes → Bson → ℕ → Gen (Unit {0})
unfolding push_static emit_goto2 emit_push_value emit emit_goto
emit_equal_field key value not_found_label = do
  key_static_id ← push_static (string key)
  emit_goto2 DbOp.get_field key_static_id not_found_label
  value_static_id ← push_static value
  emit_push_value value_static_id
  emit DbOp.equal
  emit_goto DbOp.if_false not_found_label
  emit DbOp.pop
  emit DbOp.pop

-- The name of the place of an item.
abbrev pub item_path : ℕ → Bytes
item_path index = str "[" ++ index_name index ++ str "]"

-- The match on a key that begins with a dollar sign; another key has the code `field`.
unfoldable pub emit_dollar : Bytes → (field and_gen or_gen : Gen (Unit {0})) → Gen (Unit {0})
unfolding invalid_query_field
emit_dollar key field and_gen or_gen =
    if starts_with key (str "$")
    then (if str_eq key (str "$and")
        then and_gen
        else if str_eq key (str "$or")
        then or_gen
        else invalid_query_field)
    else field

-- The calls behind the functions of `$or`.
unfoldable pub emit_calls : List ℕ → ℕ → Gen (Unit {0})
unfolding emit_goto emit_u32
emit_calls [] ret_label = pure tt
emit_calls (fun ∷ functions) ret_label = do
  emit_goto DbOp.call fun
  emit_u32 0
  emit_goto DbOp.if_true ret_label
  emit_calls functions ret_label

-- The functions of the alternatives, and the jump over them to their calls.
unfoldable pub emit_logic_or : (functions : Gen (List ℕ)) → ℕ → Gen (Unit {0})
unfolding new_label emit_goto emit_label emit_calls
emit_logic_or or_functions ret_label = do
  cmp_label ← new_label
  emit_goto DbOp.goto cmp_label
  functions ← or_functions
  emit_label cmp_label
  emit_calls functions ret_label

unfoldable mutual
  unfolding emit emit_u8 new_label emit_goto emit_label emit_ret emit_logic_or path_hint
      invalid_query_field emit_query_tuple_document emit_equal_field emit_dollar

  pub emit_standard_query_doc : Document → (result_label not_found_label : ℕ) → Gen (Unit {0})
  emit_standard_query_doc end result_label not_found_label = do emit DbOp.store_r0_2; emit_u8 1
  emit_standard_query_doc (entry key value rest) result_label not_found_label = do
    path_hint key (emit_query_tuple key value result_label not_found_label)
    emit_entries rest result_label not_found_label

  pub emit_entries : Document → (result_label not_found_label : ℕ) → Gen (Unit {0})
  emit_entries end result_label not_found_label = pure tt
  emit_entries (entry key value rest) result_label not_found_label = do
    path_hint key (emit_query_tuple key value result_label not_found_label)
    emit_entries rest result_label not_found_label

  pub emit_logic_and : Items → (index result_label not_found_label : ℕ) → Gen (Unit {0})
  emit_logic_and nil index result_label not_found_label = pure tt
  emit_logic_and (cons (document item_doc) items) index result_label not_found_label = do
    path_hint (item_path index) (emit_standard_query_doc item_doc result_label not_found_label)
    emit_logic_and items (suc index) result_label not_found_label
  emit_logic_and (cons _ items) index result_label not_found_label =
      raise (field_type_unexpected (str "$and") (str "Document"))

  pub emit_or_functions : Items → ℕ → List ℕ → Gen (List ℕ)
  emit_or_functions nil index functions = pure functions
  emit_or_functions (cons (document item_doc) items) index functions = do
    query_label ← new_label
    ret_label ← new_label
    path_hint (item_path index) (do
      emit_label query_label
      emit_standard_query_doc item_doc ret_label ret_label
      emit_label ret_label
      emit_ret 0)
    emit_or_functions items (suc index) (functions ++ query_label ∷ [])
  emit_or_functions (cons _ items) index functions =
      raise (field_type_unexpected (str "$or") (str "Document"))

  pub emit_query_tuple : Bytes → Bson → (result_label not_found_label : ℕ) → Gen (Unit {0})
  emit_query_tuple key (document doc) result_label not_found_label =
      emit_dollar key (emit_query_tuple_document key doc false not_found_label)
        (raise (field_type_unexpected (str "$and") (str "Array")))
        (raise (field_type_unexpected (str "$or") (str "Array")))
  emit_query_tuple key (array sub_arr) result_label not_found_label =
      emit_dollar key invalid_query_field (emit_logic_and sub_arr 0 result_label not_found_label)
        (emit_logic_or (emit_or_functions sub_arr 0 []) not_found_label)
  emit_query_tuple key value result_label not_found_label =
      emit_dollar key (emit_equal_field key value not_found_label)
        (raise (field_type_unexpected (str "$and") (str "Array")))
        (raise (field_type_unexpected (str "$or") (str "Array")))
