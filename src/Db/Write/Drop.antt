-- ===== src/Db/Write/Drop.antt =====
-- What is left of a collection that is dropped.
use polo_db.Prelude.{ℕ, ◌≡◌, refl, sym, ap, ◌∙◌, true, none, some}
use polo_db.Prelude.Bytes.{Bytes}
use polo_db.Errors.{Outcome, ok, err, panic, collection_not_found}
use polo_db.Index.{CollectionSpecification}
use polo_db.Vm.Codegen.Compile.{compile_delete_all}
use polo_db.Db.Backend.{Backend}
use polo_db.Db.Names.{validate_col_name}
use polo_db.Db.Transaction.{continued-eq-ok}
use polo_db.Db.Collections.{read_spec, internal_get_collection_id_by_name}
use polo_db.Db.Collections.Laws.{
  meta_bytes, spec_of, read_spec_lem, missing_lem, delete_collection_meta_lem,
}
use polo_db.Db.Write.{deleted, content_dropped, drop_collection}

module _ (B : Backend) (fuel : ℕ) where
  open B use {world}
  open world use {store}
  open store use {Txn, lookup}

  content_lem :
      (r : Outcome CollectionSpecification) (name : Bytes) (t u : Txn)
      → read_spec B name t ≡ r
      → content_dropped B fuel name r t ≡ some (u, ok tt)
      → lookup u (meta_bytes name) ≡ none
  content_lem (ok spec) name t u read ran =
      let (t1, count, deleted', rest) =
        continued-eq-ok (deleted B fuel (compile_delete_all spec name true) t) _ ran in
      (delete_collection_meta_lem B name t1 u rest).0
  content_lem (err (collection_not_found n)) name t u read ran =
      let same : t ≡ u = cc in
      ap (λ v. lookup v (meta_bytes name)) (sym same) ∙ missing_lem B name n t read
  content_lem (err e) name t u read ran = absurd cc
  content_lem panic name t u read ran = absurd cc

  -- A collection that is dropped is not found afterwards, whatever the deletion of its documents has done.
  pub drop_collection-get :
      (name : Bytes) (t u : Txn)
      → drop_collection B fuel name t ≡ some (u, ok tt)
      → internal_get_collection_id_by_name B name u ≡ some (u, err (collection_not_found name))
  unfolding drop_collection internal_get_collection_id_by_name
  drop_collection-get name t u ran =
      let (t1, checked, valid, rest) = continued-eq-ok (some (t, validate_col_name name)) _ ran in
      let gone = content_lem (read_spec B name t1) name t1 u refl rest in
      ap (λ r. some (u, r)) (read_spec_lem B name u ∙ ap (spec_of B name) gone)
