-- ===== src/Vm/Codegen/Labels/Stages.antt =====
-- The invariant of the labels, for the code of a pipeline.
use polo_db.Prelude.{ℕ, suc, get_elem?, List, [], ◌∷◌, ◌++◌}
use polo_db.Prelude.Bytes.{Bytes}
use polo_db.Errors.{unwrap, invalid_aggregation_stage}
use polo_db.Bson.{Bson, Document, end, entry, null}
use polo_db.Bson.Platform.{Platform}
use polo_db.Pipeline.{index_name}
use polo_db.Pipeline.Sort.{Orders}
use polo_db.Pipeline.ExternalFunc.{ExternalFunc}
use polo_db.Vm.Op.{DbOp}
use polo_db.Vm.Codegen.Aggregate.{
  emit_external_func, emit_stage, emit_aggregation_stage, emit_stages, emit_pipeline,
  emit_aggregation_pipeline, emit_aggregation_before_query, emit_aggregation_before_close,
}
use polo_db.Vm.Codegen.Labels.{Keeps, bind-Keeps, ◌>>>◌}
use polo_db.Vm.Codegen.Labels.Primitives.{
  pure-Keeps, get-Keeps, lift-Keeps, raise-Keeps, push_static-Keeps, push_external_func-Keeps,
  emit-Keeps, emit_u32-Keeps, emit_push_value-Keeps, emit_ret-Keeps,
  emit_call_external_func_id-Keeps, new_label-Keeps,
}
use polo_db.Vm.Codegen.Labels.Jumps.{emit_goto-Keeps}
use polo_db.Vm.Codegen.Labels.Places.{emit_label-Keeps, emit_label_with_name-Keeps}
use polo_db.Vm.Codegen.Labels.Conditions.{path_hint-Keeps}

module _ (P : Platform) (iteration : Orders → Orders) where
  emit_external_func-Keeps :
      (external_func : ExternalFunc) (stage_label next_fun : ℕ)
      → Keeps (emit_external_func P iteration external_func stage_label next_fun)
  unfolding emit_external_func
  emit_external_func-Keeps external_func stage_label next_fun =
      bind-Keeps (push_external_func-Keeps external_func) λ external_func_id.
        bind-Keeps new_label-Keeps λ go_next. bind-Keeps new_label-Keeps λ loop_next.
          emit_label-Keeps stage_label
          >>> emit-Keeps DbOp.dup
          >>> emit_label-Keeps loop_next
          >>> emit_call_external_func_id-Keeps external_func_id 1
          >>> emit_goto-Keeps DbOp.if_true go_next
          >>> emit-Keeps DbOp.pop
          >>> emit_ret-Keeps 0
          >>> emit_label-Keeps go_next
          >>> emit_goto-Keeps DbOp.call next_fun
          >>> emit_u32-Keeps 1
          >>> emit-Keeps DbOp.pop
          >>> emit-Keeps DbOp.external_is_completed
          >>> emit_u32-Keeps external_func_id
          >>> emit-Keeps DbOp.push_null
          >>> emit_goto-Keeps DbOp.if_false loop_next
          >>> emit_ret-Keeps 0

  emit_stage-Keeps :
      (key : Bytes) (value : Bson) (items : List ℕ) (index : ℕ)
      → Keeps (emit_stage P iteration key value items index)
  emit_stage-Keeps key value items index = bind-Keeps get-Keeps λ c.
      bind-Keeps (lift-Keeps _) λ external_func.
        bind-Keeps (lift-Keeps (unwrap (get_elem? items index))) λ stage_label.
          bind-Keeps (lift-Keeps (unwrap (get_elem? items (suc index))))
            λ next_fun. emit_external_func-Keeps external_func stage_label next_fun

  emit_aggregation_stage-Keeps :
      (stage : Document) (items : List ℕ) (index : ℕ)
      → Keeps (emit_aggregation_stage P iteration stage items index)
  unfolding emit_aggregation_stage
  emit_aggregation_stage-Keeps end items index =
      bind-Keeps (lift-Keeps (unwrap (get_elem? items index))) λ label. pure-Keeps tt
  emit_aggregation_stage-Keeps (entry key value end) items index =
      bind-Keeps (lift-Keeps (unwrap (get_elem? items index))) λ label.
        path_hint-Keeps (index_name index) _
          (path_hint-Keeps key _ (emit_stage-Keeps key value items index))
  emit_aggregation_stage-Keeps (entry key value (entry _ _ _)) items index =
      bind-Keeps (lift-Keeps (unwrap (get_elem? items index)))
        λ label. raise-Keeps invalid_aggregation_stage

  emit_stages-Keeps :
      (stages : List Document) (items : List ℕ) (index : ℕ)
      → Keeps (emit_stages P iteration stages items index)
  unfolding emit_stages
  emit_stages-Keeps [] items index = pure-Keeps tt
  emit_stages-Keeps (stage ∷ stages) items index =
      emit_aggregation_stage-Keeps stage items index >>> emit_stages-Keeps stages items (suc index)

  emit_pipeline-Keeps :
      (pipeline : List Document) (items : List ℕ) → Keeps (emit_pipeline P iteration pipeline items)
  emit_pipeline-Keeps pipeline items = bind-Keeps new_label-Keeps λ next_label.
      bind-Keeps (lift-Keeps (unwrap (get_elem? items 0))) λ first_item.
        emit_goto-Keeps DbOp.call first_item
        >>> emit_u32-Keeps 1
        >>> (bind-Keeps new_label-Keeps λ final_result_label.
            emit_goto-Keeps DbOp.goto next_label
            >>> emit_stages-Keeps pipeline (items ++ final_result_label ∷ []) 0
            >>> emit_label_with_name-Keeps final_result_label _
            >>> (bind-Keeps new_label-Keeps λ skip_result_label.
                emit-Keeps DbOp.equal_null
                >>> emit_goto-Keeps DbOp.if_true skip_result_label
                >>> emit-Keeps DbOp.result_row
                >>> emit_label-Keeps skip_result_label
                >>> emit_ret-Keeps 0
                >>> emit_label_with_name-Keeps next_label _))

  pub emit_aggregation_pipeline-Keeps :
      (pipeline : List Document) (items : List ℕ)
      → Keeps (emit_aggregation_pipeline P iteration pipeline items)
  unfolding emit_aggregation_pipeline
  emit_aggregation_pipeline-Keeps [] items = emit-Keeps DbOp.result_row >>> emit-Keeps DbOp.pop
  emit_aggregation_pipeline-Keeps (stage ∷ stages) items =
      emit_pipeline-Keeps (stage ∷ stages) items

pub emit_aggregation_before_query-Keeps :
    (stages : List Document) (items : List ℕ) → Keeps (emit_aggregation_before_query stages items)
unfolding emit_aggregation_before_query
emit_aggregation_before_query-Keeps [] items = pure-Keeps items
emit_aggregation_before_query-Keeps (end ∷ stages) items = pure-Keeps items
emit_aggregation_before_query-Keeps (entry _ _ _ ∷ stages) items =
    bind-Keeps new_label-Keeps
      λ label. emit_aggregation_before_query-Keeps stages (items ++ label ∷ [])

pub emit_aggregation_before_close-Keeps :
    (items : List ℕ) → Keeps (emit_aggregation_before_close items)
unfolding emit_aggregation_before_close
emit_aggregation_before_close-Keeps [] = pure-Keeps tt
emit_aggregation_before_close-Keeps (item ∷ items) =
    bind-Keeps (push_static-Keeps null) λ static_id.
      emit_push_value-Keeps static_id
      >>> emit_goto-Keeps DbOp.call item
      >>> emit_u32-Keeps 1
      >>> emit_aggregation_before_close-Keeps items
