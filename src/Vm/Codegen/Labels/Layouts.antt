-- ===== src/Vm/Codegen/Labels/Layouts.antt =====
-- The invariant of the labels, for the layouts of a query.
use polo_db.Prelude.{ℕ, Bool, true, false, Option, none, some, List, [], ◌∷◌, if◌then◌else◌}
use polo_db.Prelude.Bytes.{Bytes, str, str_eq}
use polo_db.Bson.{Bson, Document, end, entry, string, binary}
use polo_db.Bson.Platform.{Platform}
use polo_db.Index.{IndexInfo, CollectionSpecification, first_path}
use polo_db.Keys.{stacked_key}
use polo_db.Vm.Op.{DbOp}
use polo_db.Vm.Codegen.{Gen}
use polo_db.Vm.Codegen.Layout.{
  emit_field_equals, emit_other_fields, emit_all_fields, emit_query_layout_has_pkey,
  indeed_emit_query_by_index, emit_before_close, emit_scan, is_document, try_query_by_pkey,
  try_indexes, try_query_by_index, emit_query_layout,
}
use polo_db.Vm.Codegen.Labels.{Keeps, bind-Keeps, ◌>>>◌, choose-Keeps, option-Keeps}
use polo_db.Vm.Codegen.Labels.Primitives.{
  pure-Keeps, get-Keeps, lift-Keeps, push_static-Keeps, emit-Keeps, emit_u32-Keeps,
  emit_push_value-Keeps, emit_ret-Keeps, emit_open-Keeps, new_label-Keeps,
}
use polo_db.Vm.Codegen.Labels.Jumps.{emit_goto-Keeps, emit_goto2-Keeps}
use polo_db.Vm.Codegen.Labels.Places.{emit_label-Keeps, emit_label_with_name-Keeps}
use polo_db.Vm.Codegen.Labels.Filters.{emit_standard_query_doc-Keeps}

emit_field_equals-Keeps :
    (key : Bytes) (value : Bson) (label : ℕ) → Keeps (emit_field_equals key value label)
emit_field_equals-Keeps key value label = bind-Keeps (push_static-Keeps (string key)) λ key_id.
    bind-Keeps (push_static-Keeps value) λ value_id.
      emit_goto2-Keeps DbOp.get_field key_id label
      >>> emit_push_value-Keeps value_id
      >>> emit-Keeps DbOp.equal
      >>> emit_goto-Keeps DbOp.if_false label
      >>> emit-Keeps DbOp.pop
      >>> emit-Keeps DbOp.pop

emit_other_fields-Keeps : (query : Document) (label : ℕ) → Keeps (emit_other_fields query label)
unfolding emit_other_fields
emit_other_fields-Keeps end label = pure-Keeps tt
emit_other_fields-Keeps (entry key value rest) label =
    let others = emit_other_fields-Keeps rest label in
    choose-Keeps (str_eq key (str "_id")) others
      (emit_field_equals-Keeps key value label >>> others)

emit_all_fields-Keeps : (query : Document) (label : ℕ) → Keeps (emit_all_fields query label)
unfolding emit_all_fields
emit_all_fields-Keeps end label = pure-Keeps tt
emit_all_fields-Keeps (entry key value rest) label =
    emit_field_equals-Keeps key value label >>> emit_all_fields-Keeps rest label

emit_query_layout_has_pkey-Keeps :
    (pkey : Bson) (query : Document) (result_callback : Gen (Unit {0}))
    → Keeps result_callback
    → Keeps (emit_query_layout_has_pkey pkey query result_callback)
unfolding emit_query_layout_has_pkey
emit_query_layout_has_pkey-Keeps pkey query result_callback inside =
    bind-Keeps new_label-Keeps λ close_label. bind-Keeps new_label-Keeps λ result_label.
      bind-Keeps (push_static-Keeps pkey) λ pkey_id.
        emit_push_value-Keeps pkey_id
        >>> emit_goto-Keeps DbOp.find_by_primary_key close_label
        >>> emit_goto-Keeps DbOp.goto result_label
        >>> emit_label-Keeps close_label
        >>> emit-Keeps DbOp.pop
        >>> emit-Keeps DbOp.close
        >>> emit-Keeps DbOp.halt
        >>> emit_label-Keeps result_label
        >>> emit_other_fields-Keeps query close_label
        >>> inside
        >>> emit_goto-Keeps DbOp.goto close_label

indeed_emit_query_by_index-Keeps :
    (col_name index_name : Bytes) (query_value : Bson) (remain_query : Document)
    (result_callback : Gen (Unit {0}))
    → Keeps result_callback
    → Keeps
        (indeed_emit_query_by_index col_name index_name query_value remain_query result_callback)
unfolding indeed_emit_query_by_index
indeed_emit_query_by_index-Keeps col_name index_name query_value remain_query result_callback
      inside =
    bind-Keeps
      (lift-Keeps (stacked_key (string (str "$I") ∷ string col_name ∷ string index_name ∷ [])))
      λ prefix.
        emit_open-Keeps (binary 0 prefix)
        >>> (bind-Keeps new_label-Keeps λ close_label. bind-Keeps new_label-Keeps λ result_label.
            bind-Keeps new_label-Keeps λ next_label.
              bind-Keeps (push_static-Keeps query_value) λ value_id.
                emit_push_value-Keeps value_id
                >>> (bind-Keeps (push_static-Keeps (string col_name)) λ col_name_id.
                    emit_push_value-Keeps col_name_id
                    >>> emit_goto-Keeps DbOp.find_by_index close_label
                    >>> emit_goto-Keeps DbOp.goto result_label
                    >>> emit_label-Keeps next_label
                    >>> emit_goto-Keeps DbOp.next_index_value result_label
                    >>> emit_label-Keeps close_label
                    >>> emit-Keeps DbOp.pop
                    >>> emit-Keeps DbOp.pop
                    >>> emit-Keeps DbOp.close
                    >>> emit-Keeps DbOp.halt
                    >>> emit_label-Keeps result_label
                    >>> emit_all_fields-Keeps remain_query close_label
                    >>> inside
                    >>> emit_goto-Keeps DbOp.goto next_label))

-- The callback before the end of a scan, if there is one.
unfoldable pub BeforeKeeps : Option (Gen (Unit {0})) → Type 0
BeforeKeeps none = Unit
BeforeKeeps (some gen) = Keeps gen

pub emit_before_close-Keeps :
    (before : Option (Gen (Unit {0}))) → BeforeKeeps before → Keeps (emit_before_close before)
unfolding emit_before_close BeforeKeeps
emit_before_close-Keeps none inside = pure-Keeps tt
emit_before_close-Keeps (some gen) inside = inside

emit_scan-Keeps :
    (query : Document) (result_callback : Gen (Unit {0})) (before : Option (Gen (Unit {0})))
    (is_many : Bool)
    → Keeps result_callback
    → BeforeKeeps before
    → Keeps (emit_scan query result_callback before is_many)
unfolding emit_scan
emit_scan-Keeps query result_callback before is_many inside closing =
    bind-Keeps new_label-Keeps λ compare_fun. bind-Keeps new_label-Keeps λ compare_fun_clean.
      bind-Keeps new_label-Keeps λ compare_label. bind-Keeps new_label-Keeps λ next_label.
        bind-Keeps new_label-Keeps λ result_label. bind-Keeps new_label-Keeps λ not_found_label.
          bind-Keeps new_label-Keeps λ close_label.
            emit_goto-Keeps DbOp.rewind close_label
            >>> emit_goto-Keeps DbOp.goto compare_label
            >>> emit_label-Keeps next_label
            >>> emit_goto-Keeps DbOp.next compare_label
            >>> emit_label_with_name-Keeps close_label (str "close")
            >>> emit_before_close-Keeps before closing
            >>> emit-Keeps DbOp.close
            >>> emit-Keeps DbOp.halt
            >>> emit_label_with_name-Keeps not_found_label (str "not_this_item")
            >>> emit-Keeps DbOp.pop
            >>> emit_goto-Keeps DbOp.goto next_label
            >>> emit_label_with_name-Keeps result_label (str "result")
            >>> inside
            >>> emit_goto-Keeps DbOp.goto (if is_many then next_label else close_label)
            >>> emit_label_with_name-Keeps compare_label (str "compare")
            >>> emit-Keeps DbOp.dup
            >>> emit_goto-Keeps DbOp.call compare_fun
            >>> emit_u32-Keeps 1
            >>> emit_goto-Keeps DbOp.if_false not_found_label
            >>> emit_goto-Keeps DbOp.goto result_label
            >>> emit_label_with_name-Keeps compare_fun (str "compare_function")
            >>> emit_standard_query_doc-Keeps query result_label compare_fun_clean
            >>> emit_label_with_name-Keeps compare_fun_clean (str "compare_function_clean")
            >>> emit_ret-Keeps 0

module _ (P : Platform) where
  try_query_by_pkey-Keeps :
      (col_spec : CollectionSpecification) (query : Document) (result_callback : Gen (Unit {0}))
      → Keeps result_callback
      → Keeps (try_query_by_pkey P col_spec query result_callback)
  unfolding try_query_by_pkey
  try_query_by_pkey-Keeps col_spec query result_callback inside =
      option-Keeps (P.get query (str "_id")) (pure-Keeps false) λ id_value.
        choose-Keeps (is_document id_value) (pure-Keeps false) (
          emit_open-Keeps (string col_spec._id)
          >>> emit_query_layout_has_pkey-Keeps id_value query result_callback inside
          >>> pure-Keeps true)

  try_indexes-Keeps :
      (col_name : Bytes) (indexes : List (Bytes × IndexInfo)) (query : Document)
      (result_callback : Gen (Unit {0}))
      → Keeps result_callback
      → Keeps (try_indexes P col_name indexes query result_callback)
  unfolding try_indexes
  try_indexes-Keeps col_name [] query result_callback inside = pure-Keeps false
  try_indexes-Keeps col_name ((index_name, index_info) ∷ indexes) query result_callback inside =
      let others = try_indexes-Keeps col_name indexes query result_callback inside in
      bind-Keeps (lift-Keeps (first_path index_info)) λ key.
        option-Keeps (P.get query key) others λ query_doc.
          choose-Keeps (is_document query_doc) others (
            indeed_emit_query_by_index-Keeps col_name index_name query_doc (P.remove query key)
              result_callback inside
            >>> pure-Keeps true)

  try_query_by_index-Keeps :
      (col_spec : CollectionSpecification) (query : Document) (result_callback : Gen (Unit {0}))
      → Keeps result_callback
      → Keeps (try_query_by_index P col_spec query result_callback)
  unfolding try_query_by_index
  try_query_by_index-Keeps col_spec query result_callback inside = bind-Keeps get-Keeps λ c.
      choose-Keeps c.is_write (pure-Keeps false)
        (try_indexes-Keeps col_spec._id col_spec.indexes query result_callback inside)

  pub emit_query_layout-Keeps :
      (col_spec : CollectionSpecification) (query : Document) (result_callback : Gen (Unit {0}))
      (before : Option (Gen (Unit {0}))) (is_many : Bool)
      → Keeps result_callback
      → BeforeKeeps before
      → Keeps (emit_query_layout P col_spec query result_callback before is_many)
  unfolding emit_query_layout
  emit_query_layout-Keeps col_spec query result_callback before is_many inside closing =
      bind-Keeps (try_query_by_pkey-Keeps col_spec query result_callback inside) λ by_pkey.
        choose-Keeps by_pkey (pure-Keeps tt) (
          bind-Keeps (try_query_by_index-Keeps col_spec query result_callback inside) λ by_index.
            choose-Keeps by_index (pure-Keeps tt) (
              emit_open-Keeps (string col_spec._id)
              >>> emit_scan-Keeps query result_callback before is_many inside closing))
