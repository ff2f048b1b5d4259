-- ===== src/Db/TxnCollection.antt =====
-- src/polodb_core/coll/txn_collection.rs: the operations of a collection within a transaction that the client has begun.
-- Nothing is committed or rolled back here. `is_open` tells whether the database can be upgraded; a document to
-- insert may fail to be one.
use polo_db.Prelude.{ℕ, Bool, false, Option, none, some, List, if◌then◌else◌}
use polo_db.Prelude.Bytes.{Bytes}
use polo_db.Errors.{Outcome, ok, err, db_is_closed}
use polo_db.Errors
use polo_db.Bson.{Bson, Document}
use polo_db.Index.{IndexInfo}
use polo_db.Vm.Machine.{Vm}
use polo_db.Db.ClientCursor.{advance, get}
use polo_db.Db.Backend.{Backend}
use polo_db.Db.Transaction.{Db, ◌>>=◌, lift, raise}
use polo_db.Db.Indexes
use polo_db.Db.Indexes.{IndexModel, list_collection_index_names, describe_collection_index}
use polo_db.Db.Write
use polo_db.Db.Write.{UpdateOptions, UpdateResult, drop_collection}
use polo_db.Db.Read
use polo_db.Db.Read.{stepped}
use polo_db.Db.Action.{new_find, run}

module _ (B : Backend) (is_open : Bool) (name : Bytes) where
  open B use {world}
  open world use {store}
  open store use {Txn}

  abbrev no_options : UpdateOptions
  no_options = record { upsert = none }

  -- self.db.upgrade().ok_or(Error::DbIsClosed)?
  abbrev upgraded : {A : Type 0} → Db Txn A → Db Txn A
  upgraded action = if is_open then action else raise db_is_closed

  unfoldable pub insert_one : Bytes → Outcome Document → Db Txn Bson
  unfolding Write.insert_one
  insert_one new_oid doc = upgraded (do doc ← lift doc; Write.insert_one B name new_oid doc)

  unfoldable pub insert_many : (ℕ → Bytes) → List (Outcome Document) → Db Txn (List (ℕ × Bson))
  unfolding Write.insert_many
  insert_many new_oid docs = upgraded (Write.insert_many B name new_oid docs)

  unfoldable pub list_index_names : Db Txn (List Bytes)
  unfolding list_collection_index_names
  list_index_names = upgraded (list_collection_index_names B name)

  unfoldable pub describe_index : Bytes → Db Txn (Option IndexInfo)
  unfolding describe_collection_index
  describe_index index_name = upgraded (describe_collection_index B name index_name)

  module _ (fuel : ℕ) where
    unfoldable pub create_index : IndexModel → Db Txn (Unit {0})
    unfolding Indexes.create_index
    create_index index = upgraded (Indexes.create_index B fuel name index)

    unfoldable pub drop_index : Bytes → Db Txn (Unit {0})
    unfolding Indexes.drop_index
    drop_index index_name = upgraded (Indexes.drop_index B fuel name index_name)

    unfoldable pub drop : Db Txn (Unit {0})
    unfolding drop_collection
    drop = upgraded (drop_collection B fuel name)

    unfoldable pub update_one_with_options :
        Bytes → (query update : Document) → UpdateOptions → Db Txn UpdateResult
    unfolding Write.update_one
    update_one_with_options new_oid query update options =
        upgraded (Write.update_one B fuel name new_oid query update options)

    unfoldable pub update_one : Bytes → (query update : Document) → Db Txn UpdateResult
    unfolding Write.update_one
    update_one new_oid query update =
        upgraded (Write.update_one B fuel name new_oid query update no_options)

    unfoldable pub update_many_with_options :
        Bytes → (query update : Document) → UpdateOptions → Db Txn UpdateResult
    unfolding Write.update_many
    update_many_with_options new_oid query update options =
        upgraded (Write.update_many B fuel name new_oid query update options)

    unfoldable pub update_many : Bytes → (query update : Document) → Db Txn UpdateResult
    unfolding Write.update_many
    update_many new_oid query update =
        upgraded (Write.update_many B fuel name new_oid query update no_options)

    unfoldable pub delete_one : Document → Db Txn ℕ
    unfolding Write.delete_one
    delete_one query = upgraded (Write.delete_one B fuel name query)

    unfoldable pub delete_many : Document → Db Txn ℕ
    unfolding Write.delete_many
    delete_many query = upgraded (Write.delete_many B fuel name query)

    unfoldable pub count_documents : ℕ → Db Txn ℕ
    unfolding Read.count_documents
    count_documents calls = upgraded (Read.count_documents B calls fuel false name)

    abbrev first_row : Vm world × Option (Outcome Bool) → Option (Txn × Outcome (Option Bson))
    first_row answered =
        stepped B answered none
          (λ vm. some (vm.txn, Errors.map_ok (λ value. some value) (get world vm)))

    unfoldable pub find_one : Document → Db Txn (Option Bson)
    unfolding new_find run advance get
    find_one filter =
        upgraded
          (run B false (new_find name filter) >>= λ cursor t. first_row (advance world fuel cursor))
