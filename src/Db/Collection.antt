-- ===== src/Db/Collection.antt =====
-- src/polodb_core/coll/collection.rs: every operation of a collection has a transaction of its own, which is committed
-- if it succeeds and rolled back if it fails. The database is open, and its state is what a transaction that begins
-- then sees.
pub mod Atomic
pub mod Insert
use polo_db.Prelude.{
  ℕ, zero, suc, Bool, true, false, Option, none, some, List, [], ◌∷◌, if◌then◌else◌,
}
use polo_db.Prelude.Bytes.{Bytes}
use polo_db.Errors.{Error, Outcome, ok, err, panic, add}
use polo_db.Errors
use polo_db.Bson.{Bson, Document}
use polo_db.Index.{IndexInfo}
use polo_db.Store.{Store}
use polo_db.Vm.Machine.{Vm}
use polo_db.Db.ClientCursor.{advance, get}
use polo_db.Db.Backend.{Backend}
use polo_db.Db.Transaction.{Db, ◌>>=◌, ◌>>◌, raise, lift, match_on, pure, commit, rollback}
use polo_db.Db.Indexes
use polo_db.Db.Indexes.{IndexModel, list_collection_index_names, describe_collection_index}
use polo_db.Db.Write
use polo_db.Db.Write.{UpdateOptions, UpdateResult, drop_collection}
use polo_db.Db.Read
use polo_db.Db.Read.{find_with_owned_session, stepped}

-- `try_multiple!`
abbrev pub rolled_back : {T A : Type 0} → Error → Outcome (Unit {0}) → Db T A
rolled_back e (ok _) = raise e
rolled_back e (err next) = raise (add e next)
rolled_back e panic = lift panic

-- `try_db_op!`
abbrev pub closed : (S : Store) {A : Type 0} → Outcome A → Db S.Txn A
closed S (ok ret) = do commit S; pure ret
closed S (err e) = match_on (rollback S) (rolled_back e)
closed S panic = lift panic

unfoldable pub try_db_op : (S : Store) {A : Type 0} → Db S.Txn A → Db S.Txn A
unfolding commit rollback add
try_db_op S action = match_on action (closed S)

module _ (B : Backend) where
  open B use {world}
  open world use {store}
  open store use {Txn}

  abbrev no_options : UpdateOptions
  no_options = record { upsert = none }

  module _ (name : Bytes) where
    unfoldable pub insert_one : Bytes → Document → Db Txn Bson
    unfolding Write.insert_one try_db_op
    insert_one new_oid doc = try_db_op store (Write.insert_one B name new_oid doc)

    unfoldable pub insert_many : (ℕ → Bytes) → List (Outcome Document) → Db Txn (List (ℕ × Bson))
    unfolding Write.insert_many try_db_op
    insert_many new_oid docs = try_db_op store (Write.insert_many B name new_oid docs)

    unfoldable pub list_index_names : Db Txn (List Bytes)
    unfolding list_collection_index_names try_db_op
    list_index_names = try_db_op store (list_collection_index_names B name)

    unfoldable pub describe_index : Bytes → Db Txn (Option IndexInfo)
    unfolding describe_collection_index try_db_op
    describe_index index_name = try_db_op store (describe_collection_index B name index_name)

    module _ (fuel : ℕ) where
      unfoldable pub create_index : IndexModel → Db Txn (Unit {0})
      unfolding Indexes.create_index try_db_op
      create_index index = try_db_op store (Indexes.create_index B fuel name index)

      unfoldable pub drop_index : Bytes → Db Txn (Unit {0})
      unfolding Indexes.drop_index try_db_op
      drop_index index_name = try_db_op store (Indexes.drop_index B fuel name index_name)

      unfoldable pub drop : Db Txn (Unit {0})
      unfolding drop_collection try_db_op
      drop = try_db_op store (drop_collection B fuel name)

      unfoldable pub update_one_with_options :
          Bytes → (query update : Document) → UpdateOptions → Db Txn UpdateResult
      unfolding Write.update_one try_db_op
      update_one_with_options new_oid query update options =
          try_db_op store (Write.update_one B fuel name new_oid query update options)

      unfoldable pub update_one : Bytes → (query update : Document) → Db Txn UpdateResult
      unfolding Write.update_one try_db_op
      update_one new_oid query update =
          try_db_op store (Write.update_one B fuel name new_oid query update no_options)

      unfoldable pub update_many_with_options :
          Bytes → (query update : Document) → UpdateOptions → Db Txn UpdateResult
      unfolding Write.update_many try_db_op
      update_many_with_options new_oid query update options =
          try_db_op store (Write.update_many B fuel name new_oid query update options)

      unfoldable pub update_many : Bytes → (query update : Document) → Db Txn UpdateResult
      unfolding Write.update_many try_db_op
      update_many new_oid query update =
          try_db_op store (Write.update_many B fuel name new_oid query update no_options)

      unfoldable pub delete_one : Document → Db Txn ℕ
      unfolding Write.delete_one try_db_op
      delete_one query = try_db_op store (Write.delete_one B fuel name query)

      unfoldable pub delete_many : Document → Db Txn ℕ
      unfolding Write.delete_many try_db_op
      delete_many query = try_db_op store (Write.delete_many B fuel name query)

      -- The transaction commits when the machine closes it.
      unfoldable pub count_documents : ℕ → Db Txn ℕ
      unfolding Read.count_documents
      count_documents calls = Read.count_documents B calls fuel true name

      -- A row or none; `deserialize_current` gives the value.
      abbrev first_row : Vm world × Option (Outcome Bool) → Option (Txn × Outcome (Option Bson))
      first_row answered =
          stepped B answered none
            (λ vm. some (vm.txn, Errors.map_ok (λ value. some value) (get world vm)))

      unfoldable pub find_one : Document → Db Txn (Option Bson)
      unfolding find_with_owned_session advance get
      find_one filter = find_with_owned_session B true name (some filter) >>= λ cursor t.
          first_row (advance world fuel cursor)
