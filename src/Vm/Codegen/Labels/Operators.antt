-- ===== src/Vm/Codegen/Labels/Operators.antt =====
-- The invariant of the labels, for the operators of a condition.
use polo_db.Prelude.{String, ℕ, Bool, not}
use polo_db.Prelude.Int.{ℤ}
use polo_db.Prelude.Bytes.{Bytes, str, str_eq}
use polo_db.Bson.{Bson, Document, end, entry, int64, array, regular_expression, document}
use polo_db.Vm.Op.{DbOp}
use polo_db.Vm.Codegen.{Gen}
use polo_db.Vm.Codegen.Query.{
  for_array, for_regex, for_size, emit_operator, emit_query_tuple_document,
  emit_query_tuple_document_kv,
}
use polo_db.Vm.Codegen.Labels.{Keeps, then-Keeps, choose-Keeps}
use polo_db.Vm.Codegen.Labels.Primitives.{pure-Keeps}
use polo_db.Vm.Codegen.Labels.Conditions.{
  path_hint-Keeps, invalid_query_field-Keeps, emit_comparison-Keeps, emit_size-Keeps,
}

for_array-Keeps : (value : Bson) (gen : Gen (Unit {0})) → Keeps gen → Keeps (for_array value gen)
for_array-Keeps (array items) gen inside = inside
for_array-Keeps _ gen inside = invalid_query_field-Keeps

for_regex-Keeps : (value : Bson) (gen : Gen (Unit {0})) → Keeps gen → Keeps (for_regex value gen)
for_regex-Keeps (regular_expression pattern options) gen inside = inside
for_regex-Keeps _ gen inside = invalid_query_field-Keeps

for_size-Keeps :
    (value : Bson) (gen : ℤ → Gen (Unit {0}))
    → ((i : ℤ) → Keeps (gen i))
    → Keeps (for_size value gen)
for_size-Keeps (int64 i) gen inside = inside i
for_size-Keeps _ gen inside = invalid_query_field-Keeps

emit_operator-Keeps :
    (key : Bytes) (is_in_not : Bool) (label : ℕ) (sub_key : Bytes) (sub_value : Bson)
    (negated : Gen (Unit {0}))
    → Keeps negated
    → Keeps (emit_operator key is_in_not label sub_key sub_value negated)
unfolding emit_operator
emit_operator-Keeps key is_in_not label sub_key sub_value negated inside =
    let compare =
      λ (op : DbOp). emit_comparison-Keeps op DbOp.if_false key is_in_not label sub_value in
    let at = λ (name : String). str_eq sub_key (str name) in
    choose-Keeps (at "$eq") (compare DbOp.equal) (
      choose-Keeps (at "$gt") (compare DbOp.greater) (
        choose-Keeps (at "$gte") (compare DbOp.greater_equal) (
          choose-Keeps (at "$in") (for_array-Keeps sub_value _ (compare DbOp.in_array)) (
            choose-Keeps (at "$lt") (compare DbOp.less) (
              choose-Keeps (at "$lte") (compare DbOp.less_equal) (
                choose-Keeps (at "$ne") (compare DbOp.equal) (
                  choose-Keeps (at "$nin")
                    (for_array-Keeps sub_value _ (
                      emit_comparison-Keeps DbOp.in_array DbOp.if_true key is_in_not label
                        sub_value))
                    (choose-Keeps (at "$size")
                      (for_size-Keeps sub_value _ (emit_size-Keeps key is_in_not label))
                      (choose-Keeps (at "$regex") (for_regex-Keeps sub_value _ (compare DbOp.regex))
                        (choose-Keeps (at "$not") inside invalid_query_field-Keeps))))))))))

mutual
  unfolding emit_query_tuple_document emit_query_tuple_document_kv

  pub emit_query_tuple_document-Keeps :
      (key : Bytes) (doc : Document) (is_in_not : Bool) (label : ℕ)
      → Keeps (emit_query_tuple_document key doc is_in_not label)
  emit_query_tuple_document-Keeps key end is_in_not label = pure-Keeps tt
  emit_query_tuple_document-Keeps key (entry sub_key sub_value rest) is_in_not label =
      then-Keeps
        (path_hint-Keeps sub_key _
          (emit_query_tuple_document_kv-Keeps key is_in_not label sub_key sub_value))
        (emit_query_tuple_document-Keeps key rest is_in_not label)

  emit_query_tuple_document_kv-Keeps :
      (key : Bytes) (is_in_not : Bool) (label : ℕ) (sub_key : Bytes) (sub_value : Bson)
      → Keeps (emit_query_tuple_document_kv key is_in_not label sub_key sub_value)
  emit_query_tuple_document_kv-Keeps key is_in_not label sub_key (document doc) =
      emit_operator-Keeps key is_in_not label sub_key (document doc) _ (
        path_hint-Keeps (str "$not") _
          (emit_query_tuple_document-Keeps key doc (not is_in_not) label))
  emit_query_tuple_document_kv-Keeps key is_in_not label sub_key sub_value =
      emit_operator-Keeps key is_in_not label sub_key sub_value _ invalid_query_field-Keeps
