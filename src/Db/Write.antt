-- ===== src/Db/Write.antt =====
-- The insertions, updates and deletions of src/polodb_core/db/db_inner.rs. `ObjectId::new()` is an argument, for a list
-- of documents one for each; `auto` is the flag of the transaction that the machine gets.
pub mod Drop
pub mod Frame
pub mod Insert
use polo_db.Prelude.{
  ℕ, zero, suc, ◌==◌, Bool, true, false, ◌&&◌, Option, none, some, List, [], ◌∷◌, if◌then◌else◌,
}
use polo_db.Prelude.Int.{ℤ, to_word}
use polo_db.Prelude.Bytes.{Bytes, str}
use polo_db.Errors.{Outcome, ok, err, panic, unwrap, collection_not_found, set_is_not_a_document}
use polo_db.Bson.{Bson, Document, end, entry, document, string}
use polo_db.Keys.{stacked_key}
use polo_db.Index.{
  IndexInfo, CollectionSpecification, IndexHelperOperation, try_execute_with_index_info,
}
use polo_db.Vm.Program.{SubProgram}
use polo_db.Vm.Machine.{Vm, Signal}
use polo_db.Vm.Machine
use polo_db.Vm.Execute.{execute}
use polo_db.Vm.Codegen.Compile.{compile_update, compile_delete, compile_delete_all}
use polo_db.Db.Backend.{Backend}
use polo_db.Db.Names.{validate_col_name, fix_doc, merge_query_and_update}
use polo_db.Db.Transaction.{Db, ◌>>=◌, ◌>>◌, pure, raise, lift, match_on, writing, put}
use polo_db.Db.Collections.{
  internal_get_collection_id_by_name, get_collection_meta_by_name_advanced, delete_collection_meta,
}

pub record UpdateOptions : Type 0 where
  pub upsert : Option Bool

unfoldable pub is_upsert : UpdateOptions → Bool
is_upsert options = elim options.upsert [ none ↦ false | some b ↦ b ]

pub record UpdateResult : Type 0 where
  pub matched_count : ℕ
  pub modified_count : ℕ

abbrev pub default_result : UpdateResult
default_result = record { matched_count = 0; modified_count = 0 }

abbrev pub as_document : Bson → Outcome Document
as_document (document doc) = ok doc
as_document _ = err set_is_not_a_document

abbrev pub is_empty : Document → Bool
is_empty end = true
is_empty (entry _ _ _) = false

module _ (B : Backend) where
  open B use {world}
  open world use {platform, store, to_vec}
  open store use {Txn}

  -- `IndexHelper::execute`, index by index: the entries that stand when an index refuses stay.
  unfoldable pub insert_indexes :
      Document → Bytes → Bson → List (Bytes × IndexInfo) → Db Txn (Unit {0})
  unfolding try_execute_with_index_info
  insert_indexes doc col_name pkey [] = pure tt
  insert_indexes doc col_name pkey ((index_name, info) ∷ indexes) = do
    writing (
        try_execute_with_index_info platform store IndexHelperOperation.insert doc col_name pkey
          index_name info)
    insert_indexes doc col_name pkey indexes

  unfoldable pub try_insert_index : CollectionSpecification → Document → Bson → Db Txn (Unit {0})
  unfolding insert_indexes
  try_insert_index col_spec doc pkey = insert_indexes doc col_spec._id pkey col_spec.indexes

  -- The identifier of the document.
  unfoldable pub insert_one_with_meta : CollectionSpecification → Bytes → Document → Db Txn Bson
  unfolding fix_doc try_insert_index put
  insert_one_with_meta col_spec new_oid doc = do
    let fixed = fix_doc platform new_oid doc
    pkey ← lift (unwrap (platform.get fixed (str "_id")))
    key ← lift (stacked_key (string col_spec._id ∷ pkey ∷ []))
    doc_buf ← lift (to_vec fixed)
    put store key doc_buf
    try_insert_index col_spec fixed pkey
    pure pkey

  unfoldable pub insert_one_internal : (col_name new_oid : Bytes) → Document → Db Txn Bson
  unfolding get_collection_meta_by_name_advanced insert_one_with_meta
  insert_one_internal col_name new_oid doc = do
    meta ← get_collection_meta_by_name_advanced B col_name true
    col_meta ← lift (unwrap meta)
    insert_one_with_meta col_meta new_oid doc

  unfoldable pub insert_one : (col_name new_oid : Bytes) → Document → Db Txn Bson
  unfolding validate_col_name insert_one_internal
  insert_one col_name new_oid doc = do
    lift (validate_col_name col_name)
    insert_one_internal col_name new_oid doc

  -- for (counter, item) in docs.into_iter().enumerate(); an item may fail to be a document.
  unfoldable pub insert_each :
      CollectionSpecification → (ℕ → Bytes) → ℕ → List (Outcome Document) → Db Txn (List (ℕ × Bson))
  unfolding insert_one_with_meta
  insert_each col_spec new_oid counter [] = pure []
  insert_each col_spec new_oid counter (item ∷ items) = do
    doc ← lift item
    inserted_id ← insert_one_with_meta col_spec (new_oid counter) doc
    inserted_ids ← insert_each col_spec new_oid (suc counter) items
    pure ((counter, inserted_id) ∷ inserted_ids)

  unfoldable pub insert_many :
      Bytes → (ℕ → Bytes) → List (Outcome Document) → Db Txn (List (ℕ × Bson))
  unfolding validate_col_name get_collection_meta_by_name_advanced insert_each
  insert_many col_name new_oid docs = do
    lift (validate_col_name col_name)
    meta ← get_collection_meta_by_name_advanced B col_name true
    col_spec ← lift (unwrap meta)
    insert_each col_spec new_oid 0 docs

  -- `upsert`
  unfoldable pub upsert : (col_name new_oid : Bytes) → (query update : Document) → Db Txn (Unit {0})
  unfolding merge_query_and_update insert_one_internal
  upsert col_name new_oid query update = elim (platform.get update (str "$set")) [
    | none ↦ pure tt
    | some set ↦ (do
      doc ← lift (as_document set)
      merged_doc ← lift (merge_query_and_update platform query doc)
      insert_result ← insert_one_internal col_name new_oid merged_doc
      pure tt)
  ]

  module _ (fuel : ℕ) where
    abbrev pub ended : Vm world × Signal → Option (Txn × Outcome (Vm world))
    ended (vm, Signal.go) = none
    ended (vm, Signal.stop) = some (vm.txn, ok vm)
    ended (vm, Signal.failed e) = some (vm.txn, err e)
    ended (vm, Signal.panicked) = some (vm.txn, panic)

    -- `VM::new` and `vm.execute()`
    unfoldable pub run_program : Bool → SubProgram → Db Txn (Vm world)
    unfolding execute Machine.new
    run_program auto program t = ended (execute world fuel (Machine.new world t auto program))

    -- `as u64` of the registers
    abbrev pub result_of : Vm world → UpdateResult
    result_of vm = record { matched_count = to_word 63 vm.r2; modified_count = to_word 63 vm.r4 }

    abbrev pub updated :
        (query update : Document) → Bool → Option CollectionSpecification → Db Txn UpdateResult
    updated query update is_many none = pure default_result
    updated query update is_many (some col_spec) = do
      subprogram ← lift (compile_update platform col_spec query update true is_many)
      vm ← run_program false subprogram
      pure (result_of vm)

    unfoldable pub internal_update :
        (col_name new_oid : Bytes)
        → (query update : Document) → (is_many : Bool) → UpdateOptions
        → Db Txn UpdateResult
    unfolding get_collection_meta_by_name_advanced compile_update run_program is_upsert upsert
        to_word
    internal_update col_name new_oid query update is_many options = do
      meta_opt ← get_collection_meta_by_name_advanced B col_name false
      result ← updated query update is_many meta_opt
      if is_upsert options && result.modified_count == 0
          then upsert col_name new_oid query update
          else pure tt
      pure result

    unfoldable pub update_one :
        (col_name new_oid : Bytes) → (query update : Document) → UpdateOptions → Db Txn UpdateResult
    unfolding validate_col_name internal_update
    update_one col_name new_oid query update options = do
      lift (validate_col_name col_name)
      internal_update col_name new_oid query update false options

    unfoldable pub update_many :
        (col_name new_oid : Bytes) → (query update : Document) → UpdateOptions → Db Txn UpdateResult
    unfolding validate_col_name internal_update
    update_many col_name new_oid query update options = do
      lift (validate_col_name col_name)
      internal_update col_name new_oid query update true options

    -- `vm.r2 as usize` of a program that deletes
    abbrev pub deleted : Outcome SubProgram → Db Txn ℕ
    deleted program = do
      subprogram ← lift program
      vm ← run_program false subprogram
      pure (to_word 63 vm.r2)

    abbrev pub deleted_from : Bytes → Document → Bool → Option CollectionSpecification → Db Txn ℕ
    deleted_from col_name query is_many none = pure 0
    deleted_from col_name query is_many (some col_spec) =
        deleted (compile_delete platform col_spec col_name (some query) true is_many)

    unfoldable pub delete : Bytes → Document → Bool → Db Txn ℕ
    unfolding validate_col_name get_collection_meta_by_name_advanced compile_delete run_program
        to_word
    delete col_name query is_many = do
      lift (validate_col_name col_name)
      col_spec ← get_collection_meta_by_name_advanced B col_name true
      deleted_from col_name query is_many col_spec

    abbrev pub all_deleted : Bytes → Outcome CollectionSpecification → Db Txn ℕ
    all_deleted col_name (ok collection_spec) =
        deleted (compile_delete_all collection_spec col_name true)
    all_deleted col_name (err (collection_not_found _)) = pure 0
    all_deleted col_name (err e) = raise e
    all_deleted col_name panic = lift panic

    unfoldable pub delete_all : Bytes → Db Txn ℕ
    unfolding validate_col_name internal_get_collection_id_by_name compile_delete_all run_program
        to_word
    delete_all col_name = do
      lift (validate_col_name col_name)
      match_on (internal_get_collection_id_by_name B col_name) (all_deleted col_name)

    -- `deleted_count`
    abbrev pub counted : Outcome ℕ → Db Txn ℕ
    counted (ok count) = pure count
    counted (err (collection_not_found _)) = pure 0
    counted (err e) = raise e
    counted panic = lift panic

    unfoldable pub delete_one : Bytes → Document → Db Txn ℕ
    unfolding validate_col_name delete
    delete_one col_name query = do
      lift (validate_col_name col_name)
      match_on (delete col_name query false) counted

    unfoldable pub delete_many : Bytes → Document → Db Txn ℕ
    unfolding validate_col_name delete delete_all
    delete_many col_name query = do
      lift (validate_col_name col_name)
      match_on (if is_empty query then delete_all col_name else delete col_name query true) counted

    abbrev pub content_dropped : Bytes → Outcome CollectionSpecification → Db Txn (Unit {0})
    content_dropped col_name (ok collection_spec) = do
      count ← deleted (compile_delete_all collection_spec col_name true)
      delete_collection_meta B col_name
    content_dropped col_name (err (collection_not_found _)) = pure tt
    content_dropped col_name (err e) = raise e
    content_dropped col_name panic = lift panic

    unfoldable pub drop_collection : Bytes → Db Txn (Unit {0})
    unfolding validate_col_name internal_get_collection_id_by_name compile_delete_all run_program
        delete_collection_meta
    drop_collection col_name = do
      lift (validate_col_name col_name)
      match_on (internal_get_collection_id_by_name B col_name) (content_dropped col_name)
