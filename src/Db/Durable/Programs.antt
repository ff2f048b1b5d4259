-- ===== src/Db/Durable/Programs.antt =====
-- The operations of src/polodb_core/db/db_inner.rs that run a program, and what is durable.
use polo_db.Prelude.{
  arith, ℕ, ◌==◌, ◌≡◌, refl, Bool, Bool-cases, true, false, ◌&&◌, Option, Option-cases, inl, inr,
  none, some, if◌then◌else◌,
}
use polo_db.Prelude.Bytes.{Bytes, str}
use polo_db.Errors.{Outcome, ok, err, panic}
use polo_db.Bson.{Document, string}
use polo_db.Index.{CollectionSpecification}
use polo_db.Index.Durable.{delete-Quiet}
use polo_db.Store.Durable.{Durability}
use polo_db.Scan.{Cursor, new_with_str_prefix, reset_by_pkey, peek_key}
use polo_db.Vm.Program.{SubProgram}
use polo_db.Vm.Machine.{Vm, Signal}
use polo_db.Vm.Machine
use polo_db.Vm.Execute.{execute}
use polo_db.Vm.Durable.{execute-durable}
use polo_db.Vm.Codegen.Compile.{compile_update, compile_delete, compile_delete_all}
use polo_db.Db.Backend.{Backend}
use polo_db.Db.Names.{validate_col_name, merge_query_and_update}
use polo_db.Db.Transaction.{continued, delete, pure}
use polo_db.Db.Collections.{
  read_spec, internal_get_collection_id_by_name, get_collection_meta_by_name_advanced,
  delete_collection_meta, when_some, table_meta_prefix,
}
use polo_db.Db.Write
use polo_db.Db.Write.{
  UpdateOptions, UpdateResult, is_upsert, run_program, ended, updated, upsert, as_document,
  insert_one_internal, internal_update, update_one, update_many, deleted, deleted_from, all_deleted,
  content_dropped, delete_all, delete_one, delete_many, counted, is_empty, drop_collection,
}
use polo_db.Db.Durable.{
  After, After-continued, After-lift, After-matched, After-written,
  get_collection_meta_by_name_advanced-After, insert_one_internal-After,
}

module _ (B : Backend) (D : Durability B.world.store) (fuel : ℕ) where
  open B use {world}
  open world use {platform, store}
  open store use {Txn}

  ended-After :
      (t : Txn) (last : Vm world × Signal)
      → ((j : Bytes) → D.durable last.0.txn j ≡ D.durable t j)
      → After store D t (ended B fuel last)
  ended-After t (vm, Signal.go) q = tt
  ended-After t (vm, Signal.stop) q = q
  ended-After t (vm, Signal.failed e) q = q
  ended-After t (vm, Signal.panicked) q = q

  run_program-After :
      (program : SubProgram) (t : Txn) → After store D t (run_program B fuel false program t)
  unfolding run_program Machine.new
  run_program-After program t =
      let vm = Machine.new world t false program in
      ended-After t (execute world fuel vm) λ j. execute-durable world D fuel vm j refl

  upsert-After :
      (col_name new_oid : Bytes) (query update : Document) (t : Txn)
      → After store D t (upsert B col_name new_oid query update t)
  unfolding upsert
  upsert-After col_name new_oid query update t =
      elim (Option-cases (platform.get update (str "$set"))) [
        | inl e ↦ rw (After, e) (λ j. refl)
        | inr (set, e) ↦
            rw (After, e)
              (After-lift store D t (as_document set) _ λ doc.
                After-lift store D t (merge_query_and_update platform query doc) _ λ merged.
                  After-continued store D t (insert_one_internal B col_name new_oid merged t) _
                    (insert_one_internal-After B D col_name new_oid merged t) λ _ u j. refl)
      ]

  updated-After :
      (query update : Document) (is_many : Bool) (spec : Option CollectionSpecification) (t : Txn)
      → After store D t (updated B fuel query update is_many spec t)
  updated-After query update is_many none t = λ j. refl
  updated-After query update is_many (some spec) t =
      After-lift store D t (compile_update platform spec query update true is_many) _ λ program.
        After-continued store D t (run_program B fuel false program t) _
          (run_program-After program t) λ vm u j. refl

  internal_update-After :
      (col_name new_oid : Bytes) (query update : Document) (is_many : Bool)
      (options : UpdateOptions) (t : Txn)
      → After store D t (internal_update B fuel col_name new_oid query update is_many options t)
  unfolding internal_update
  internal_update-After col_name new_oid query update is_many options t =
      After-continued store D t (get_collection_meta_by_name_advanced B col_name false t) _
        (get_collection_meta_by_name_advanced-After B D col_name false t)
        λ spec u.
          After-continued store D u (updated B fuel query update is_many spec u) _
            (updated-After query update is_many spec u)
            λ result v. elim (Bool-cases (is_upsert options && result.modified_count == 0)) [
              | inl e ↦ rw e (
                  After-continued store D v (upsert B col_name new_oid query update v) _
                    (upsert-After col_name new_oid query update v) λ _ w j. refl)
              | inr e ↦ rw e (λ j. refl)
            ]

  pub update_one-After :
      (col_name new_oid : Bytes) (query update : Document) (options : UpdateOptions) (t : Txn)
      → After store D t (update_one B fuel col_name new_oid query update options t)
  unfolding update_one
  update_one-After col_name new_oid query update options t =
      After-lift store D t (validate_col_name col_name) _
        λ _. internal_update-After col_name new_oid query update false options t

  pub update_many-After :
      (col_name new_oid : Bytes) (query update : Document) (options : UpdateOptions) (t : Txn)
      → After store D t (update_many B fuel col_name new_oid query update options t)
  unfolding update_many
  update_many-After col_name new_oid query update options t =
      After-lift store D t (validate_col_name col_name) _
        λ _. internal_update-After col_name new_oid query update true options t

  deleted-After :
      (program : Outcome SubProgram) (t : Txn) → After store D t (deleted B fuel program t)
  deleted-After program t = After-lift store D t program _ λ code.
      After-continued store D t (run_program B fuel false code t) _ (run_program-After code t)
        λ vm u j. refl

  deleted_from-After :
      (col_name : Bytes) (query : Document) (is_many : Bool) (spec : Option CollectionSpecification)
      (t : Txn)
      → After store D t (deleted_from B fuel col_name query is_many spec t)
  deleted_from-After col_name query is_many none t = λ j. refl
  deleted_from-After col_name query is_many (some spec) t =
      deleted-After (compile_delete platform spec col_name (some query) true is_many) t

  delete-After :
      (col_name : Bytes) (query : Document) (is_many : Bool) (t : Txn)
      → After store D t (Write.delete B fuel col_name query is_many t)
  unfolding Write.delete
  delete-After col_name query is_many t = After-lift store D t (validate_col_name col_name) _ λ _.
      After-continued store D t (get_collection_meta_by_name_advanced B col_name true t) _
        (get_collection_meta_by_name_advanced-After B D col_name true t)
        λ spec u. deleted_from-After col_name query is_many spec u

  all_deleted-After :
      (col_name : Bytes) (r : Outcome CollectionSpecification) (t : Txn)
      → After store D t (all_deleted B fuel col_name r t)
  all_deleted-After col_name (ok spec) t = deleted-After (compile_delete_all spec col_name true) t
  all_deleted-After col_name (err e) t = ground arith
  all_deleted-After col_name panic t = λ j. refl

  delete_all-After : (col_name : Bytes) (t : Txn) → After store D t (delete_all B fuel col_name t)
  unfolding delete_all internal_get_collection_id_by_name
  delete_all-After col_name t =
      After-lift store D t (validate_col_name col_name) _
        λ _. all_deleted-After col_name (read_spec B col_name t) t

  counted-After : (r : Outcome ℕ) (t : Txn) → After store D t (counted B fuel r t)
  counted-After (ok count) t = λ j. refl
  counted-After (err e) t = ground arith
  counted-After panic t = λ j. refl

  pub delete_one-After :
      (col_name : Bytes) (query : Document) (t : Txn)
      → After store D t (delete_one B fuel col_name query t)
  unfolding delete_one
  delete_one-After col_name query t = After-lift store D t (validate_col_name col_name) _ λ _.
      After-matched store D t (Write.delete B fuel col_name query false t) _
        (delete-After col_name query false t) counted-After

  pub delete_many-After :
      (col_name : Bytes) (query : Document) (t : Txn)
      → After store D t (delete_many B fuel col_name query t)
  unfolding delete_many
  delete_many-After col_name query t = After-lift store D t (validate_col_name col_name) _ λ _.
      elim (Bool-cases (is_empty query)) [
        | inl e ↦ rw e (
            After-matched store D t (delete_all B fuel col_name t) _ (delete_all-After col_name t)
              counted-After)
        | inr e ↦ rw e (
            After-matched store D t (Write.delete B fuel col_name query true t) _
              (delete-After col_name query true t) counted-After)
      ]

  when_some-After :
      (key : Option Bytes) (found : Bool) (t : Txn)
      → After store D t ((if found then when_some B key (delete store) else pure tt) t)
  unfolding delete
  when_some-After key false t = λ j. refl
  when_some-After none true t = λ j. refl
  when_some-After (some key) true t =
      After-written store D t (store.delete t key) (delete-Quiet store D t key)

  delete_collection_meta-After :
      (col_name : Bytes) (t : Txn) → After store D t (delete_collection_meta B col_name t)
  unfolding delete_collection_meta
  delete_collection_meta-After col_name t =
      let found = λ (r : Cursor × Bool).
        if r.1 then when_some B (peek_key r.0) (delete store) else pure {T = Txn} tt in
      After-lift store D t (new_with_str_prefix table_meta_prefix)
        (λ cursor u. continued (some (u, reset_by_pkey store u (string col_name) cursor)) found)
        λ cursor.
          After-lift store D t (reset_by_pkey store t (string col_name) cursor) found
            λ r. when_some-After (peek_key r.0) r.1 t

  content_dropped-After :
      (col_name : Bytes) (r : Outcome CollectionSpecification) (t : Txn)
      → After store D t (content_dropped B fuel col_name r t)
  content_dropped-After col_name (ok spec) t =
      After-continued store D t (deleted B fuel (compile_delete_all spec col_name true) t) _
        (deleted-After (compile_delete_all spec col_name true) t)
        λ _ u. delete_collection_meta-After col_name u
  content_dropped-After col_name (err e) t = ground arith
  content_dropped-After col_name panic t = λ j. refl

  pub drop_collection-After :
      (col_name : Bytes) (t : Txn) → After store D t (drop_collection B fuel col_name t)
  unfolding drop_collection internal_get_collection_id_by_name
  drop_collection-After col_name t =
      After-lift store D t (validate_col_name col_name) _
        λ _. content_dropped-After col_name (read_spec B col_name t) t
