-- ===== src/Vm/Codegen/Layout.antt =====
-- The layout of a query in src/polodb_core/vm/codegen.rs: by the primary key, by an index, or by a scan.
-- A callback emits what is done with a document that matches.
use polo_db.Prelude.{ℕ, Bool, true, false, Option, none, some, List, [], ◌∷◌, if◌then◌else◌}
use polo_db.Prelude.Bytes.{Bytes, str, str_eq}
use polo_db.Bson.{Bson, Document, end, entry, document, string, binary}
use polo_db.Bson.Platform.{Platform}
use polo_db.Index.{IndexInfo, CollectionSpecification, first_path}
use polo_db.Keys.{stacked_key}
use polo_db.Vm.Op.{DbOp}
use polo_db.Vm.Codegen.{
  Gen, ◌>>=◌, ◌>>◌, pure, lift, get, emit, emit_u32, new_label, push_static, emit_label,
  emit_label_with_name, emit_goto, emit_goto2, emit_push_value, emit_ret, emit_open,
}
use polo_db.Vm.Codegen.Filter.{emit_standard_query_doc}

abbrev pub is_document : Bson → Bool
is_document (document _) = true
is_document _ = false

-- One field of the query, which must be equal; `_id` is passed over where the key found it.
abbrev pub emit_field_equals : Bytes → Bson → ℕ → Gen (Unit {0})
emit_field_equals key value close_label = do
  key_static_id ← push_static (string key)
  value_static_id ← push_static value
  emit_goto2 DbOp.get_field key_static_id close_label
  emit_push_value value_static_id
  emit DbOp.equal
  emit_goto DbOp.if_false close_label
  emit DbOp.pop
  emit DbOp.pop

unfoldable pub emit_other_fields : Document → ℕ → Gen (Unit {0})
unfolding push_static emit emit_goto emit_goto2 emit_push_value
emit_other_fields end close_label = pure tt
emit_other_fields (entry key value rest) close_label =
    let others = emit_other_fields rest close_label in
    if str_eq key (str "_id") then others else emit_field_equals key value close_label >> others

unfoldable pub emit_all_fields : Document → ℕ → Gen (Unit {0})
unfolding push_static emit emit_goto emit_goto2 emit_push_value
emit_all_fields end close_label = pure tt
emit_all_fields (entry key value rest) close_label = do
  emit_field_equals key value close_label
  emit_all_fields rest close_label

unfoldable pub emit_query_layout_has_pkey : Bson → Document → Gen (Unit {0}) → Gen (Unit {0})
unfolding new_label push_static emit emit_goto emit_label emit_push_value emit_other_fields
emit_query_layout_has_pkey pkey query result_callback = do
  close_label ← new_label
  result_label ← new_label
  pkey_id ← push_static pkey
  emit_push_value pkey_id
  emit_goto DbOp.find_by_primary_key close_label
  emit_goto DbOp.goto result_label
  emit_label close_label
  emit DbOp.pop
  emit DbOp.close
  emit DbOp.halt
  emit_label result_label
  emit_other_fields query close_label
  result_callback
  emit_goto DbOp.goto close_label

unfoldable pub indeed_emit_query_by_index :
    (col_name index_name : Bytes) → Bson → Document → Gen (Unit {0}) → Gen (Unit {0})
unfolding new_label push_static emit emit_goto emit_label emit_push_value emit_open emit_all_fields
indeed_emit_query_by_index col_name index_name query_value remain_query result_callback = do
  prefix_bytes ← lift (stacked_key (string (str "$I") ∷ string col_name ∷ string index_name ∷ []))
  emit_open (binary 0 prefix_bytes)
  close_label ← new_label
  result_label ← new_label
  next_label ← new_label
  value_id ← push_static query_value
  emit_push_value value_id
  col_name_id ← push_static (string col_name)
  emit_push_value col_name_id
  emit_goto DbOp.find_by_index close_label
  emit_goto DbOp.goto result_label
  emit_label next_label
  emit_goto DbOp.next_index_value result_label
  emit_label close_label
  emit DbOp.pop
  emit DbOp.pop
  emit DbOp.close
  emit DbOp.halt
  emit_label result_label
  emit_all_fields remain_query close_label
  result_callback
  emit_goto DbOp.goto next_label

unfoldable pub emit_before_close : Option (Gen (Unit {0})) → Gen (Unit {0})
emit_before_close none = pure tt
emit_before_close (some before_close) = before_close

-- The scan of the collection, with the test of a document as a function behind it.
unfoldable pub emit_scan :
    Document → Gen (Unit {0}) → Option (Gen (Unit {0})) → Bool → Gen (Unit {0})
unfolding new_label emit emit_u32 emit_goto emit_label emit_label_with_name emit_ret
    emit_before_close
emit_scan query result_callback before_close is_many = do
  compare_fun ← new_label
  compare_fun_clean ← new_label
  compare_label ← new_label
  next_label ← new_label
  result_label ← new_label
  not_found_label ← new_label
  close_label ← new_label
  emit_goto DbOp.rewind close_label
  emit_goto DbOp.goto compare_label
  emit_label next_label
  emit_goto DbOp.next compare_label
  emit_label_with_name close_label (str "close")
  emit_before_close before_close
  emit DbOp.close
  emit DbOp.halt
  emit_label_with_name not_found_label (str "not_this_item")
  emit DbOp.pop
  emit_goto DbOp.goto next_label
  emit_label_with_name result_label (str "result")
  result_callback
  emit_goto DbOp.goto (if is_many then next_label else close_label)
  emit_label_with_name compare_label (str "compare")
  emit DbOp.dup
  emit_goto DbOp.call compare_fun
  emit_u32 1
  emit_goto DbOp.if_false not_found_label
  emit_goto DbOp.goto result_label
  emit_label_with_name compare_fun (str "compare_function")
  emit_standard_query_doc query result_label compare_fun_clean
  emit_label_with_name compare_fun_clean (str "compare_function_clean")
  emit_ret 0

module _ (P : Platform) where
  -- Whether the query is compiled; the callback is used up then.
  unfoldable pub try_query_by_pkey : CollectionSpecification → Document → Gen (Unit {0}) → Gen Bool
  unfolding emit_open emit_query_layout_has_pkey
  try_query_by_pkey col_spec query result_callback = elim (P.get query (str "_id")) [
    | none ↦ pure false
    | some id_value ↦ if is_document id_value then pure false else (do
      emit_open (string col_spec._id)
      emit_query_layout_has_pkey id_value query result_callback
      pure true)
  ]

  -- for (index_name, index_info) in index_meta
  unfoldable pub try_indexes :
      Bytes → List (Bytes × IndexInfo) → Document → Gen (Unit {0}) → Gen Bool
  unfolding first_path indeed_emit_query_by_index
  try_indexes col_name [] query result_callback = pure false
  try_indexes col_name ((index_name, index_info) ∷ indexes) query result_callback =
      let others = try_indexes col_name indexes query result_callback in
      lift (first_path index_info) >>= λ key. elim (P.get query key) [
        | none ↦ others
        | some query_doc ↦ if is_document query_doc then others else (do
          indeed_emit_query_by_index col_name index_name query_doc (P.remove query key)
              result_callback
          pure true)
      ]

  unfoldable pub try_query_by_index : CollectionSpecification → Document → Gen (Unit {0}) → Gen Bool
  unfolding try_indexes
  try_query_by_index col_spec query result_callback = do
    c ← get
    if c.is_write
        then pure false
        else try_indexes col_spec._id col_spec.indexes query result_callback

  unfoldable pub emit_query_layout :
      CollectionSpecification
      → Document
      → Gen (Unit {0})
      → Option (Gen (Unit {0}))
      → Bool
      → Gen (Unit {0})
  unfolding try_query_by_pkey try_query_by_index emit_open emit_scan
  emit_query_layout col_spec query result_callback before_close is_many = do
    by_pkey ← try_query_by_pkey col_spec query result_callback
    if by_pkey then pure tt else (do
      by_index ← try_query_by_index col_spec query result_callback
      if by_index then pure tt else (do
        emit_open (string col_spec._id)
        emit_scan query result_callback before_close is_many))
