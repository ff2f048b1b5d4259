-- ===== src/Vm/Codegen/Aggregate.antt =====
-- The pipeline of an aggregation in src/polodb_core/vm/codegen.rs. The items of the context
-- (aggregation_codegen_context.rs) are the labels of the stages; a stage is a function of the program.
use polo_db.Errors.{
  unwrap, Outcome, ok, err, map_ok, invalid_aggregation_stage, unknown_aggregation_operation,
}
use polo_db.Prelude.{get_elem?, suc, ◌∷◌, ℕ, List, [], ◌++◌, if◌then◌else◌}
use polo_db.Bson.{null, Bson, Document, end, entry, string}
use polo_db.Vm.Codegen.{
  lift, ◌>>◌, emit_label_with_name, emit_ret, ◌>>=◌, pure, emit_call_external_func_id, Gen,
  emit_goto, emit_u32, emit, emit_label, emit_push_value, push_static, push_external_func,
  new_label, raise, get,
}
use polo_db.Prelude.Bytes.{Bytes, str, str_eq}
use polo_db.Bson.Platform.{Platform}
use polo_db.Pipeline.{index_name}
use polo_db.Pipeline.Stages.{new_count, compile_remain, unset_compile}
use polo_db.Pipeline.AddFields.{add_compile}
use polo_db.Pipeline.Group.{group_compile}
use polo_db.Pipeline.Sort.{Orders, sort_compile}
use polo_db.Pipeline.ExternalFunc.{ExternalFunc}
use polo_db.Vm.Op.{DbOp}
use polo_db.Vm.Codegen.Query.{path_hint}

abbrev count_stage : Bson → Outcome ExternalFunc
count_stage (string s) = ok (ExternalFunc.count (new_count s))
count_stage _ = err invalid_aggregation_stage

module _ (P : Platform) (iteration : Orders → Orders) where
  -- The match on the name of the stage.
  unfoldable pub compile_stage : Bytes → Bson → List Bytes → Outcome ExternalFunc
  unfolding new_count group_compile compile_remain sort_compile add_compile unset_compile
  compile_stage key value paths =
      if str_eq key (str "$count")
      then count_stage value
      else if str_eq key (str "$group")
      then map_ok ExternalFunc.group (group_compile P paths value)
      else if str_eq key (str "$skip")
      then map_ok ExternalFunc.skip (compile_remain paths value)
      else if str_eq key (str "$limit")
      then map_ok ExternalFunc.limit (compile_remain paths value)
      else if str_eq key (str "$sort")
      then map_ok ExternalFunc.sort (sort_compile iteration paths value)
      else if str_eq key (str "$addFields")
      then map_ok ExternalFunc.add_fields (add_compile P paths value)
      else if str_eq key (str "$unset")
      then map_ok ExternalFunc.unset (unset_compile paths value)
      else err (unknown_aggregation_operation key)

  unfoldable pub emit_external_func : ExternalFunc → (stage_label next_fun : ℕ) → Gen (Unit {0})
  unfolding push_external_func new_label emit_label emit emit_call_external_func_id emit_goto
      emit_ret emit_u32
  emit_external_func external_func stage_label next_fun = do
    external_func_id ← push_external_func external_func
    go_next ← new_label
    loop_next ← new_label
    emit_label stage_label
    emit DbOp.dup
    emit_label loop_next
    emit_call_external_func_id external_func_id 1
    emit_goto DbOp.if_true go_next
    emit DbOp.pop
    emit_ret 0
    emit_label go_next
    emit_goto DbOp.call next_fun
    emit_u32 1
    emit DbOp.pop
    emit DbOp.external_is_completed
    emit_u32 external_func_id
    emit DbOp.push_null
    emit_goto DbOp.if_false loop_next
    emit_ret 0

  abbrev pub emit_stage : Bytes → Bson → List ℕ → ℕ → Gen (Unit {0})
  emit_stage key value items index = do
    c ← get
    external_func ← lift (compile_stage key value c.paths)
    stage_label ← lift (unwrap (get_elem? items index))
    next_fun ← lift (unwrap (get_elem? items (suc index)))
    emit_external_func external_func stage_label next_fun

  -- A stage without fields has no code, one with several is an error.
  unfoldable pub emit_aggregation_stage : Document → List ℕ → ℕ → Gen (Unit {0})
  unfolding compile_stage emit_external_func path_hint
  emit_aggregation_stage end items index = do
    stage_label ← lift (unwrap (get_elem? items index))
    pure tt
  emit_aggregation_stage (entry key value end) items index = do
    stage_label ← lift (unwrap (get_elem? items index))
    path_hint (index_name index) (path_hint key (emit_stage key value items index))
  emit_aggregation_stage (entry key value (entry _ _ _)) items index = do
    stage_label ← lift (unwrap (get_elem? items index))
    raise invalid_aggregation_stage

  unfoldable pub emit_stages : List Document → List ℕ → ℕ → Gen (Unit {0})
  unfolding emit_aggregation_stage
  emit_stages [] items index = pure tt
  emit_stages (stage ∷ stages) items index = do
    emit_aggregation_stage stage items index
    emit_stages stages items (suc index)

  -- The call of the first stage, the stages, and the function that gives out a row.
  abbrev pub emit_pipeline : List Document → List ℕ → Gen (Unit {0})
  emit_pipeline pipeline items = do
    next_label ← new_label
    first_item ← lift (unwrap (get_elem? items 0))
    emit_goto DbOp.call first_item
    emit_u32 1
    final_result_label ← new_label
    emit_goto DbOp.goto next_label
    emit_stages pipeline (items ++ final_result_label ∷ []) 0
    emit_label_with_name final_result_label (str "final_result_row_fun")
    skip_result_label ← new_label
    emit DbOp.equal_null
    emit_goto DbOp.if_true skip_result_label
    emit DbOp.result_row
    emit_label skip_result_label
    emit_ret 0
    emit_label_with_name next_label (str "next_item_label")

  unfoldable pub emit_aggregation_pipeline : List Document → List ℕ → Gen (Unit {0})
  unfolding emit_stages new_label emit emit_u32 emit_goto emit_label emit_label_with_name emit_ret
  emit_aggregation_pipeline [] items = do emit DbOp.result_row; emit DbOp.pop
  emit_aggregation_pipeline (stage ∷ stages) items = emit_pipeline (stage ∷ stages) items

-- A label for every stage in front of the first that is empty.
unfoldable pub emit_aggregation_before_query : List Document → List ℕ → Gen (List ℕ)
unfolding new_label
emit_aggregation_before_query [] items = pure items
emit_aggregation_before_query (end ∷ stages) items = pure items
emit_aggregation_before_query (entry _ _ _ ∷ stages) items = do
  label ← new_label
  emit_aggregation_before_query stages (items ++ label ∷ [])

-- Every stage is told the end of the input.
unfoldable pub emit_aggregation_before_close : List ℕ → Gen (Unit {0})
unfolding push_static emit_push_value emit_goto emit_u32
emit_aggregation_before_close [] = pure tt
emit_aggregation_before_close (item ∷ items) = do
  static_id ← push_static null
  emit_push_value static_id
  emit_goto DbOp.call item
  emit_u32 1
  emit_aggregation_before_close items
