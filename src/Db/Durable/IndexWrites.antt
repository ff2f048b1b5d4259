-- ===== src/Db/Durable/IndexWrites.antt =====
-- The creation and removal of indexes in src/polodb_core/db/db_inner.rs, and what is durable.
use polo_db.Prelude.{arith, ℕ, refl, Bool-cases, Option, Option-cases, inl, inr, none, some}
use polo_db.Prelude.Int.{pos}
use polo_db.Prelude.Bytes.{Bytes}
use polo_db.Errors.{Outcome, ok, err, panic}
use polo_db.Bson.{Bson, Document, end, entry}
use polo_db.Index.{
  IndexInfo, IndexOptions, IndexHelperOperation, CollectionSpecification, single_index,
}
use polo_db.Index.Durable.{build-Quiet}
use polo_db.Store.Durable.{Durability}
use polo_db.Db.Backend.{Backend}
use polo_db.Db.Names.{validate_col_name, make_index_name, is_num_1}
use polo_db.Db.Collections.{read_spec, internal_get_collection_id_by_name, update_collection_spec}
use polo_db.Db.Indexes.{
  IndexModel, build_index, spec_or_new, add_index, create_single_index, with_single_key,
  internal_create_index, create_index, remove_index, dropped, drop_index, get_index, insert_index,
}
use polo_db.Db.Durable.{After, After-continued, After-lift, update_collection_spec-After}

module _ (B : Backend) (D : Durability B.world.store) (fuel : ℕ) where
  open B use {world}
  open world use {platform, store}
  open store use {Txn}

  build_index-After :
      (op : IndexHelperOperation) (col_name index_name : Bytes) (info : IndexInfo) (t : Txn)
      → After store D t (build_index B fuel op col_name index_name info t)
  unfolding build_index
  build_index-After op col_name index_name info t =
      build-Quiet store D platform op world.from_slice col_name index_name info fuel t

  spec_or_new-After :
      (col_name : Bytes) (r : Outcome CollectionSpecification) (t : Txn)
      → After store D t (spec_or_new B fuel col_name r t)
  spec_or_new-After col_name (ok spec) t = λ j. refl
  spec_or_new-After col_name (err e) t = ground arith
  spec_or_new-After col_name panic t = λ j. refl

  add_index-After :
      (col_name index_name : Bytes) (info : IndexInfo) (spec : CollectionSpecification) (t : Txn)
      → After store D t (add_index B fuel col_name index_name info spec t)
  add_index-After col_name index_name info spec t =
      let next = record spec { indexes = insert_index index_name info spec.indexes } in
      After-continued store D t (update_collection_spec B col_name next t) _
        (update_collection_spec-After B D col_name next t)
        λ _ u. build_index-After IndexHelperOperation.insert col_name index_name info u

  create_single_index-After :
      (col_name key : Bytes) (order : Bson) (options : Option IndexOptions) (t : Txn)
      → After store D t (create_single_index B fuel col_name key order options t)
  unfolding create_single_index internal_get_collection_id_by_name
  create_single_index-After col_name key order options t = elim (Bool-cases (is_num_1 order)) [
    | inr e ↦ rw e (λ j. refl)
    | inl e ↦ rw e (
        After-lift store D t (make_index_name key (pos 1) options) _ λ index_name.
          After-continued store D t (spec_or_new B fuel col_name (read_spec B col_name t) t) _
            (spec_or_new-After col_name (read_spec B col_name t) t)
            λ spec u. elim (Option-cases (get_index index_name spec.indexes)) [
              | inl f ↦
                  rw f
                    (add_index-After col_name index_name (single_index key (pos 1) options) spec u)
              | inr (_, f) ↦ rw f (λ j. refl)
            ])
  ]

  with_single_key-After :
      (col_name : Bytes) (keys : Document) (options : Option IndexOptions) (t : Txn)
      → After store D t (
          with_single_key B fuel keys
            (λ key value. create_single_index B fuel col_name key value options)
            t)
  with_single_key-After col_name end options t = λ j. refl
  with_single_key-After col_name (entry key value end) options t =
      create_single_index-After col_name key value options t
  with_single_key-After col_name (entry key value (entry _ _ _)) options t = λ j. refl

  pub create_index-After :
      (col_name : Bytes) (index : IndexModel) (t : Txn)
      → After store D t (create_index B fuel col_name index t)
  unfolding create_index internal_create_index
  create_index-After col_name index t =
      After-lift store D t (validate_col_name col_name) _
        λ _. with_single_key-After col_name index.keys index.options t

  remove_index-After :
      (col_name index_name : Bytes) (spec : CollectionSpecification) (info : Option IndexInfo)
      (t : Txn)
      → After store D t (remove_index B fuel col_name index_name spec info t)
  remove_index-After col_name index_name spec none t = λ j. refl
  remove_index-After col_name index_name spec (some info) t =
      After-continued store D t
        (build_index B fuel IndexHelperOperation.delete col_name index_name info t) _
        (build_index-After IndexHelperOperation.delete col_name index_name info t)
        λ _ u. update_collection_spec-After B D col_name _ u

  dropped-After :
      (col_name index_name : Bytes) (r : Outcome CollectionSpecification) (t : Txn)
      → After store D t (dropped B fuel col_name index_name r t)
  dropped-After col_name index_name (ok spec) t =
      remove_index-After col_name index_name spec (get_index index_name spec.indexes) t
  dropped-After col_name index_name (err e) t = ground arith
  dropped-After col_name index_name panic t = λ j. refl

  pub drop_index-After :
      (col_name index_name : Bytes) (t : Txn)
      → After store D t (drop_index B fuel col_name index_name t)
  unfolding drop_index internal_get_collection_id_by_name
  drop_index-After col_name index_name t =
      After-lift store D t (validate_col_name col_name) _
        λ _. dropped-After col_name index_name (read_spec B col_name t) t
