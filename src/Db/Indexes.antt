-- ===== src/Db/Indexes.antt =====
-- The indexes of a collection in src/polodb_core/db/db_inner.rs. The loop of the index builder takes fuel; the bson
-- crate reads the documents.
pub mod Map
pub mod Laws
use polo_db.Prelude.{ℕ, Option, none, some, List, [], ◌∷◌, ◌++◌, map, not, if◌then◌else◌}
use polo_db.Prelude.Int.{pos}
use polo_db.Prelude.Bytes.{Bytes, str_eq}
use polo_db.Errors.{
  Outcome, ok, err, panic, collection_not_found, only_support_single_field_indexes,
  only_supports_ascending_order,
}
use polo_db.Bson.{Bson, Document, end, entry}
use polo_db.Index.{
  IndexOptions, IndexInfo, CollectionSpecification, IndexHelperOperation, single_index, build,
}
use polo_db.Db.Backend.{Backend}
use polo_db.Db.Names.{validate_col_name, validate_index_name, make_index_name, is_num_1}
use polo_db.Db.Transaction.{Db, ◌>>=◌, ◌>>◌, pure, raise, lift, match_on, writing}
use polo_db.Db.Collections.{new_spec, internal_get_collection_id_by_name, update_collection_spec}

pub record IndexModel : Type 0 where
  pub keys : Document
  pub options : Option IndexOptions

-- `indexes.get(name)`, `insert` and `shift_remove` of a map that keeps its order.
unfoldable pub get_index : Bytes → List (Bytes × IndexInfo) → Option IndexInfo
get_index name [] = none
get_index name ((key, info) ∷ indexes) =
    if str_eq key name then some info else get_index name indexes

unfoldable pub insert_index :
    Bytes → IndexInfo → List (Bytes × IndexInfo) → List (Bytes × IndexInfo)
insert_index name info [] = (name, info) ∷ []
insert_index name info ((key, old) ∷ indexes) =
    if str_eq key name then (key, info) ∷ indexes else (key, old) ∷ insert_index name info indexes

unfoldable pub shift_remove : Bytes → List (Bytes × IndexInfo) → List (Bytes × IndexInfo)
shift_remove name [] = []
shift_remove name ((key, info) ∷ indexes) =
    let rest = shift_remove name indexes in if str_eq key name then indexes else (key, info) ∷ rest

module _ (B : Backend) (fuel : ℕ) where
  open B use {world}
  open world use {platform, store, from_slice}
  open store use {Txn}

  unfoldable pub build_index :
      IndexHelperOperation → (col_name index_name : Bytes) → IndexInfo → Db Txn (Unit {0})
  unfolding build
  build_index op col_name index_name index_info =
      λ t. some (build platform store from_slice fuel op col_name index_name index_info t)

  -- The specification to work on, with a new one where there is none.
  abbrev pub spec_or_new : Bytes → Outcome CollectionSpecification → Db Txn CollectionSpecification
  spec_or_new col_name (ok spec) = pure spec
  spec_or_new col_name (err (collection_not_found _)) = pure (new_spec col_name)
  spec_or_new col_name (err e) = raise e
  spec_or_new col_name panic = lift panic

  -- The index stands in place of the one of this name, if there is one, or else last.
  abbrev pub add_index :
      (col_name index_name : Bytes) → IndexInfo → CollectionSpecification → Db Txn (Unit {0})
  add_index col_name index_name index_info spec = do
    update_collection_spec B col_name
        (record spec { indexes = insert_index index_name index_info spec.indexes })
    build_index IndexHelperOperation.insert col_name index_name index_info

  unfoldable pub create_single_index :
      (col_name key : Bytes) → (order : Bson) → Option IndexOptions → Db Txn (Unit {0})
  unfolding is_num_1 make_index_name internal_get_collection_id_by_name get_index single_index
      insert_index update_collection_spec build_index
  create_single_index col_name key order options =
      if not (is_num_1 order) then raise (only_supports_ascending_order key) else (do
        index_name ← lift (make_index_name key (pos 1) options)
        spec ← match_on (internal_get_collection_id_by_name B col_name) (spec_or_new col_name)
        elim (get_index index_name spec.indexes) [
          | some _ ↦ pure tt
          | none ↦ add_index col_name index_name (single_index key (pos 1) options) spec
        ])

  abbrev pub with_single_key : Document → (Bytes → Bson → Db Txn (Unit {0})) → Db Txn (Unit {0})
  with_single_key (entry key value end) next = next key value
  with_single_key _ next = raise only_support_single_field_indexes

  unfoldable pub internal_create_index : Bytes → IndexModel → Db Txn (Unit {0})
  unfolding create_single_index
  internal_create_index col_name index =
      with_single_key index.keys (λ key value. create_single_index col_name key value index.options)

  unfoldable pub create_index : Bytes → IndexModel → Db Txn (Unit {0})
  unfolding validate_col_name internal_create_index
  create_index col_name index = do
    lift (validate_col_name col_name)
    internal_create_index col_name index

  abbrev pub remove_index :
      (col_name index_name : Bytes) → CollectionSpecification → Option IndexInfo → Db Txn (Unit {0})
  remove_index col_name index_name spec none = pure tt
  remove_index col_name index_name spec (some index_info) = do
    build_index IndexHelperOperation.delete col_name index_name index_info
    update_collection_spec B col_name
        (record spec { indexes = shift_remove index_name spec.indexes })

  abbrev pub dropped :
      (col_name index_name : Bytes) → Outcome CollectionSpecification → Db Txn (Unit {0})
  dropped col_name index_name (ok spec) =
      remove_index col_name index_name spec (get_index index_name spec.indexes)
  dropped col_name index_name (err (collection_not_found _)) = pure tt
  dropped col_name index_name (err e) = raise e
  dropped col_name index_name panic = lift panic

  unfoldable pub drop_index : (col_name index_name : Bytes) → Db Txn (Unit {0})
  unfolding validate_col_name internal_get_collection_id_by_name get_index shift_remove
      update_collection_spec build_index
  drop_index col_name index_name = do
    lift (validate_col_name col_name)
    match_on (internal_get_collection_id_by_name B col_name) (dropped col_name index_name)

module _ (B : Backend) where
  open B use {world}
  open world use {store}
  open store use {Txn}

  -- What is told of a specification, or of its absence.
  abbrev told :
      {A : Type 0} → A → (CollectionSpecification → A) → Outcome CollectionSpecification → Db Txn A
  told missing tell (ok spec) = pure (tell spec)
  told missing tell (err (collection_not_found _)) = pure missing
  told missing tell (err e) = raise e
  told missing tell panic = lift panic

  unfoldable pub list_collection_index_names : Bytes → Db Txn (List Bytes)
  unfolding validate_col_name internal_get_collection_id_by_name
  list_collection_index_names col_name = do
    lift (validate_col_name col_name)
    match_on (internal_get_collection_id_by_name B col_name)
        (told [] (λ spec. map (λ index. index.0) spec.indexes))

  unfoldable pub describe_collection_index :
      (col_name index_name : Bytes) → Db Txn (Option IndexInfo)
  unfolding validate_col_name validate_index_name internal_get_collection_id_by_name get_index
  describe_collection_index col_name index_name = do
    lift (validate_col_name col_name)
    lift (validate_index_name index_name)
    match_on (internal_get_collection_id_by_name B col_name)
        (told none (λ spec. get_index index_name spec.indexes))
