-- ===== src/Vm/Codegen/Compile.antt =====
-- The `compile_*` functions of src/polodb_core/vm/subprogram.rs. The program and the generator of an
-- aggregation share one context, which is the list of labels here.
use polo_db.Prelude.{
  ℕ, ◌-◌, ◌^◌, Bool, true, false, Option, none, some, List, [], ◌∷◌, if◌then◌else◌,
}
use polo_db.Prelude.Bytes.{Bytes, str, str_eq}
use polo_db.Errors.{Outcome, err, panic, field_type_unexpected}
use polo_db.Bson.{Bson, Document, end, entry, document, string}
use polo_db.Bson.Platform.{Platform}
use polo_db.Index.{IndexInfo, CollectionSpecification}
use polo_db.Pipeline.Sort.{Orders}
use polo_db.Vm.Op.{DbOp}
use polo_db.Vm.Program.{SubProgram}
use polo_db.Vm.Codegen.{
  Gen, ◌>>=◌, ◌>>◌, pure, new, emit, emit_u32, new_label, push_index_info, emit_label, emit_goto,
  emit_open, take, compiled,
}
use polo_db.Vm.Codegen.Layout.{emit_query_layout}
use polo_db.Vm.Codegen.Aggregate.{
  emit_aggregation_pipeline, emit_aggregation_before_query, emit_aggregation_before_close,
}
use polo_db.Vm.Codegen.Update.{emit_update_operation, emit_delete_operation}

unfoldable pub compile_empty_query : Outcome SubProgram
unfolding new emit take
compile_empty_query = compiled ((emit DbOp.halt >> take) (new true false))

-- The code of `compile_query_all_by_name`.
unfoldable pub query_all : Bytes → Gen SubProgram
unfolding emit new_label emit_label emit_goto emit_open take
query_all col_name = do
  result_label ← new_label
  next_label ← new_label
  close_label ← new_label
  emit_open (string col_name)
  emit_goto DbOp.rewind close_label
  emit_goto DbOp.goto result_label
  emit_label next_label
  emit_goto DbOp.next result_label
  emit_label close_label
  emit DbOp.close
  emit DbOp.halt
  emit_label result_label
  emit DbOp.result_row
  emit DbOp.pop
  emit_goto DbOp.goto next_label
  take

unfoldable pub compile_query_all_by_name : Bytes → Bool → Outcome SubProgram
unfolding new query_all
compile_query_all_by_name col_name skip_annotation =
    compiled (query_all col_name (new skip_annotation false))

unfoldable pub compile_query_all : CollectionSpecification → Bool → Outcome SubProgram
unfolding compile_query_all_by_name
compile_query_all col_spec skip_annotation = compile_query_all_by_name col_spec._id skip_annotation

-- The indexes of the collection, for the instructions that keep them; `u32::MAX` where there is none.
unfoldable pub push_indexes : CollectionSpecification → Gen ℕ
unfolding push_index_info
push_indexes col_spec = elim col_spec.indexes [
  | [] ↦ pure (2 ^ 32 - 1)
  | index ∷ indexes ↦ push_index_info record { col_name = col_spec._id; indexes = index ∷ indexes }
]

unfoldable pub emit_index_op : List (Bytes × IndexInfo) → DbOp → ℕ → Gen (Unit {0})
unfolding emit emit_u32
emit_index_op [] op index_item_id = pure tt
emit_index_op (index ∷ indexes) op index_item_id = do emit op; emit_u32 index_item_id

-- What is done with a document that is to be deleted.
unfoldable pub emit_delete_item : CollectionSpecification → ℕ → Gen (Unit {0})
unfolding emit_index_op emit_delete_operation emit
emit_delete_item col_spec index_item_id = do
  emit_index_op col_spec.indexes DbOp.delete_index index_item_id
  emit_delete_operation
  emit DbOp.pop

-- The code of `compile_delete_all`.
unfoldable pub delete_all : CollectionSpecification → Bytes → Gen SubProgram
unfolding emit new_label emit_label emit_goto emit_open push_indexes emit_delete_item take
delete_all col_spec col_name = do
  index_item_id ← push_indexes col_spec
  result_label ← new_label
  next_label ← new_label
  close_label ← new_label
  emit_open (string col_name)
  emit_goto DbOp.rewind close_label
  emit_goto DbOp.goto result_label
  emit_label next_label
  emit_goto DbOp.next result_label
  emit_label close_label
  emit DbOp.close
  emit DbOp.halt
  emit_label result_label
  emit_delete_item col_spec index_item_id
  emit_goto DbOp.goto next_label
  take

unfoldable pub compile_delete_all : CollectionSpecification → Bytes → Bool → Outcome SubProgram
unfolding new delete_all
compile_delete_all col_spec col_name skip_annotation =
    compiled (delete_all col_spec col_name (new skip_annotation true))

module _ (P : Platform) where
  abbrev pub emit_row : Gen (Unit {0})
  emit_row = do emit DbOp.result_row; emit DbOp.pop

  unfoldable pub compile_query : CollectionSpecification → Document → Bool → Outcome SubProgram
  unfolding new emit emit_query_layout take compile_query_all
  compile_query col_spec end skip_annotation = compile_query_all col_spec skip_annotation
  compile_query col_spec (entry key value rest) skip_annotation = compiled (
      (emit_query_layout P col_spec (entry key value rest) emit_row none true >> take)
        (new skip_annotation false))

  abbrev pub emit_update_item : CollectionSpecification → Document → ℕ → Gen (Unit {0})
  emit_update_item col_spec update index_item_id = do
    emit_index_op col_spec.indexes DbOp.delete_index index_item_id
    emit_update_operation update
    emit_index_op col_spec.indexes DbOp.insert_index index_item_id
    emit DbOp.pop

  abbrev pub update_code :
      CollectionSpecification → (query update : Document) → Bool → Gen SubProgram
  update_code col_spec query update is_many = do
    index_item_id ← push_indexes col_spec
    emit_query_layout P col_spec query (emit_update_item col_spec update index_item_id) none is_many
    take

  unfoldable pub compile_update :
      CollectionSpecification
      → (query update : Document) → (skip_annotation is_many : Bool) → Outcome SubProgram
  unfolding new emit push_indexes emit_index_op emit_update_operation emit_query_layout take
  compile_update col_spec query update skip_annotation is_many =
      compiled (update_code col_spec query update is_many (new skip_annotation true))

  abbrev pub delete_code : CollectionSpecification → Bytes → Document → Bool → Gen SubProgram
  delete_code col_spec col_name query is_many = do
    index_item_id ← push_indexes col_spec
    emit_open (string col_name)
    emit_query_layout P col_spec query (emit_delete_item col_spec index_item_id) none is_many
    take

  unfoldable pub compile_delete :
      CollectionSpecification
      → Bytes
      → Option Document
      → (skip_annotation is_many : Bool) → Outcome SubProgram
  unfolding new push_indexes emit_open emit_delete_item emit_query_layout take
  compile_delete col_spec col_name none skip_annotation is_many = panic
  compile_delete col_spec col_name (some query) skip_annotation is_many =
      compiled (delete_code col_spec col_name query is_many (new skip_annotation true))

  module _ (iteration : Orders → Orders) where
    -- A scan whose rows go through the pipeline.
    abbrev aggregate_code : Bytes → List Document → Gen SubProgram
    aggregate_code col_name pipeline = do
      result_label ← new_label
      next_label ← new_label
      close_label ← new_label
      items ← emit_aggregation_before_query pipeline []
      emit_open (string col_name)
      emit_goto DbOp.rewind close_label
      emit_goto DbOp.goto result_label
      emit_label next_label
      emit_goto DbOp.next result_label
      emit_label close_label
      emit_aggregation_before_close items
      emit DbOp.close
      emit DbOp.halt
      emit_label result_label
      emit_aggregation_pipeline P iteration pipeline items
      emit_goto DbOp.goto next_label
      take

    abbrev pub match_code : CollectionSpecification → Document → List Document → Gen SubProgram
    match_code col_spec query_doc pipeline = do
      items ← emit_aggregation_before_query pipeline []
      emit_query_layout P col_spec query_doc (emit_aggregation_pipeline P iteration pipeline items)
          (some (emit_aggregation_before_close items)) true
      take

    unfoldable pub compile_aggregate_with_match :
        CollectionSpecification → (matched : Bson) → List Document → Bool → Outcome SubProgram
    unfolding new emit_query_layout emit_aggregation_pipeline emit_aggregation_before_query
        emit_aggregation_before_close take
    compile_aggregate_with_match col_spec (document query_doc) pipeline skip_annotation =
        compiled (match_code col_spec query_doc pipeline (new skip_annotation false))
    compile_aggregate_with_match col_spec _ pipeline skip_annotation =
        err (field_type_unexpected (str "$match") (str "Document"))

    -- Whether the first stage is `$match` alone, and its value.
    abbrev match_stage : Document → Option Bson
    match_stage (entry key value end) = if str_eq key (str "$match") then some value else none
    match_stage _ = none

    unfoldable pub compile_aggregate :
        CollectionSpecification → List Document → Bool → Outcome SubProgram
    unfolding new emit new_label emit_label emit_goto emit_open emit_aggregation_pipeline
        emit_aggregation_before_query emit_aggregation_before_close take compile_query_all
        compile_aggregate_with_match
    compile_aggregate col_spec [] skip_annotation = compile_query_all col_spec skip_annotation
    compile_aggregate col_spec (first ∷ rest) skip_annotation = elim (match_stage first) [
      | some value ↦ compile_aggregate_with_match col_spec value rest skip_annotation
      | none ↦ compiled (aggregate_code col_spec._id (first ∷ rest) (new skip_annotation false))
    ]
