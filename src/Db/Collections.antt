-- ===== src/Db/Collections.antt =====
-- The specifications of the collections in src/polodb_core/db/db_inner.rs: they stand in the store under the name of the
-- collection behind "$TABLE_META".
pub mod Laws
use polo_db.Prelude.{Bool, true, false, Option, none, some, List, [], ◌∷◌, if◌then◌else◌}
use polo_db.Prelude.Bytes.{Bytes, str}
use polo_db.Errors.{
  Outcome, ok, err, panic, collection_not_found, illegal_collection_name, collection_already_exits,
}
use polo_db.Errors
use polo_db.Bson.{string}
use polo_db.Keys.{stacked_key}
use polo_db.Index.{CollectionSpecification}
use polo_db.Scan.{new_with_str_prefix, reset_by_pkey, copy_data, peek_key}
use polo_db.Db.Backend.{Backend}
use polo_db.Db.Names.{validate_col_name}
use polo_db.Db.Transaction.{
  Db, ◌>>=◌, ◌>>◌, pure, raise, lift, reading, match_on, put, delete, commit,
}

abbrev pub table_meta_prefix : Bytes
table_meta_prefix = str "$TABLE_META"

-- `CollectionSpecification::new`; its type, uuid and time of creation are left out.
abbrev pub new_spec : Bytes → CollectionSpecification
new_spec name = record { _id = name; indexes = [] }

unfoldable pub meta_key : Bytes → Outcome Bytes
meta_key name = stacked_key (string table_meta_prefix ∷ string name ∷ [])

abbrev is_empty : Bytes → Bool
is_empty [] = true
is_empty (_ ∷ _) = false

module _ (B : Backend) where
  open B use {world}
  open world use {store}
  open store use {Txn}

  unfoldable pub read_spec : Bytes → Txn → Outcome CollectionSpecification
  unfolding new_with_str_prefix reset_by_pkey copy_data
  read_spec name t = Errors.◌>>=◌ (new_with_str_prefix table_meta_prefix) λ cursor.
      Errors.◌>>=◌ (reset_by_pkey store t (string name) cursor) λ r.
        if r.1
        then Errors.◌>>=◌ (copy_data store t r.0) B.spec_from_slice
        else err (collection_not_found name)

  unfoldable pub internal_get_collection_id_by_name : Bytes → Db Txn CollectionSpecification
  unfolding read_spec
  internal_get_collection_id_by_name name = reading (read_spec name)

  abbrev pub exist_result : Outcome CollectionSpecification → Db Txn Bool
  exist_result (ok _) = pure true
  exist_result (err (collection_not_found _)) = pure false
  exist_result (err e) = raise e
  exist_result panic = lift panic

  unfoldable pub check_collection_exist : Bytes → Db Txn Bool
  unfolding internal_get_collection_id_by_name
  check_collection_exist name = match_on (internal_get_collection_id_by_name name) exist_result

  -- Write a specification under its name.
  unfoldable pub update_collection_spec : Bytes → CollectionSpecification → Db Txn (Unit {0})
  unfolding meta_key put
  update_collection_spec col_name collection_spec = do
    key ← lift (meta_key col_name)
    buffer ← lift (B.spec_to_vec collection_spec)
    put store key buffer

  unfoldable pub internal_create_collection : Bytes → Db Txn CollectionSpecification
  unfolding check_collection_exist update_collection_spec
  internal_create_collection name =
      if is_empty name then raise (illegal_collection_name name) else (do
        exist ← check_collection_exist name
        if exist
            then raise (collection_already_exits name)
            else (do update_collection_spec name (new_spec name); pure (new_spec name)))

  abbrev pub meta_result :
      Bytes → Bool → Outcome CollectionSpecification → Db Txn (Option CollectionSpecification)
  meta_result name create (ok meta) = pure (some meta)
  meta_result name create (err (collection_not_found _)) =
      if create then (do meta ← internal_create_collection name; pure (some meta)) else pure none
  meta_result name create (err e) = raise e
  meta_result name create panic = lift panic

  unfoldable pub get_collection_meta_by_name_advanced :
      Bytes → Bool → Db Txn (Option CollectionSpecification)
  unfolding internal_get_collection_id_by_name internal_create_collection
  get_collection_meta_by_name_advanced name create_if_not_exist =
      match_on (internal_get_collection_id_by_name name) (meta_result name create_if_not_exist)

  unfoldable pub create_collection : Bytes → Db Txn CollectionSpecification
  unfolding validate_col_name internal_create_collection commit
  create_collection name = do
    lift (validate_col_name name)
    result ← internal_create_collection name
    commit store
    pure result

  abbrev pub when_some : Option Bytes → (Bytes → Db Txn (Unit {0})) → Db Txn (Unit {0})
  when_some none next = pure tt
  when_some (some key) next = next key

  unfoldable pub delete_collection_meta : Bytes → Db Txn (Unit {0})
  unfolding new_with_str_prefix reset_by_pkey peek_key delete
  delete_collection_meta col_name = do
    cursor ← lift (new_with_str_prefix table_meta_prefix)
    (at, found) ← reading (λ t. reset_by_pkey store t (string col_name) cursor)
    if found then when_some (peek_key at) (delete store) else pure tt
