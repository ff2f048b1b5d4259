-- ===== src/Vm/Codegen/Labels/Programs.antt =====
-- What holds of the labels and the jumps through the programs of src/polodb_core/vm/subprogram.rs.
use polo_db.Prelude.{ℕ, ◌^◌, ◌-◌, arith, Bool, true, none, some, List, [], ◌∷◌}
use polo_db.Prelude.Bytes.{Bytes}
use polo_db.Bson.{Document}
use polo_db.Bson.Platform.{Platform}
use polo_db.Index.{IndexInfo, CollectionSpecification}
use polo_db.Pipeline.Sort.{Orders}
use polo_db.Vm.Op.{DbOp}
use polo_db.Vm.Codegen.{new, pure, push_index_info}
use polo_db.Vm.Codegen.Compile.{
  push_indexes, emit_index_op, emit_update_item, update_code, match_code,
}
use polo_db.Vm.Codegen.Labels.{Labelled, Good, IsGood, Keeps, ◌>>>◌}
use polo_db.Vm.Codegen.Labels.Primitives.{
  pure-Keeps, push_index_info-Keeps, emit-Keeps, emit_u32-Keeps,
}
use polo_db.Vm.Codegen.Labels.Layouts.{emit_query_layout-Keeps, BeforeKeeps}
use polo_db.Vm.Codegen.Labels.Updates.{emit_update_operation-Keeps}
use polo_db.Vm.Codegen.Labels.Stages.{
  emit_aggregation_pipeline-Keeps, emit_aggregation_before_query-Keeps,
  emit_aggregation_before_close-Keeps,
}
use polo_db.Vm.Codegen.Labels.Take.{Takes, take-Takes, bind-Takes, then-Takes}
use polo_db.Vm.Label.Patches.{Spaced}

index_id-Keeps :
    (name : Bytes) (indexes : List (Bytes × IndexInfo))
    → Keeps (elim indexes [
      | [] ↦ pure (2 ^ 32 - 1)
      | index ∷ others ↦ push_index_info record { col_name = name; indexes = index ∷ others }
    ])
index_id-Keeps name [] = pure-Keeps (2 ^ 32 - 1)
index_id-Keeps name (index ∷ others) =
    push_index_info-Keeps record { col_name = name; indexes = index ∷ others }

push_indexes-Keeps : (col_spec : CollectionSpecification) → Keeps (push_indexes col_spec)
unfolding push_indexes
push_indexes-Keeps col_spec = index_id-Keeps col_spec._id col_spec.indexes

emit_index_op-Keeps :
    (indexes : List (Bytes × IndexInfo)) (op : DbOp) (id : ℕ) → Keeps (emit_index_op indexes op id)
unfolding emit_index_op
emit_index_op-Keeps [] op id = pure-Keeps tt
emit_index_op-Keeps (index ∷ indexes) op id = emit-Keeps op >>> emit_u32-Keeps id

pub emit_update_item-Keeps :
    (P : Platform) (col_spec : CollectionSpecification) (update : Document) (id : ℕ)
    → Keeps (emit_update_item P col_spec update id)
emit_update_item-Keeps P col_spec update id =
    emit_index_op-Keeps col_spec.indexes DbOp.delete_index id
    >>> emit_update_operation-Keeps update
    >>> emit_index_op-Keeps col_spec.indexes DbOp.insert_index id
    >>> emit-Keeps DbOp.pop

pub new-IsGood : (skip is_write : Bool) → IsGood (new skip is_write)
unfolding new Good Labelled Spaced
new-IsGood skip is_write = (omega arith, λ label p slot stands place. absurd cc)

module _ (P : Platform) where
  -- Whatever jump goes ahead of an update is led to its label when the update is taken.
  pub update_code-Takes :
      (col_spec : CollectionSpecification) (query update : Document) (is_many : Bool)
      → Takes (update_code P col_spec query update is_many)
  unfolding BeforeKeeps
  update_code-Takes col_spec query update is_many = bind-Takes (push_indexes-Keeps col_spec) λ id.
      then-Takes
        (emit_query_layout-Keeps P col_spec query _ none is_many
          (emit_update_item-Keeps P col_spec update id) tt)
        take-Takes

  module _ (iteration : Orders → Orders) where
    -- The same of an aggregation that begins with `$match`.
    pub match_code-Takes :
        (col_spec : CollectionSpecification) (query : Document) (pipeline : List Document)
        → Takes (match_code P iteration col_spec query pipeline)
    unfolding BeforeKeeps
    match_code-Takes col_spec query pipeline =
        bind-Takes (emit_aggregation_before_query-Keeps pipeline []) λ items.
          then-Takes
            (emit_query_layout-Keeps P col_spec query _ (some _) true
              (emit_aggregation_pipeline-Keeps P iteration pipeline items)
              (emit_aggregation_before_close-Keeps items))
            take-Takes
