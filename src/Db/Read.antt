-- ===== src/Db/Read.antt =====
-- The queries of src/polodb_core/db/db_inner.rs. A cursor of a client is a machine with its program; the loops over its
-- rows take the number of calls as fuel besides that of a call.
pub mod Count
use polo_db.Prelude.{
  ℕ, zero, suc, ◌+◌, Bool, true, false, Option, none, some, List, [], ◌∷◌, if◌then◌else◌,
}
use polo_db.Prelude.Bytes.{Bytes, str}
use polo_db.Errors.{Outcome, ok, err, panic, unwrap, collection_not_found}
use polo_db.Errors
use polo_db.Bson.{Bson, Document, string, document}
use polo_db.Index.{CollectionSpecification}
use polo_db.Vm.Program.{SubProgram}
use polo_db.Vm.Machine.{Vm}
use polo_db.Vm.Machine
use polo_db.Vm.Codegen.Compile.{
  compile_query, compile_query_all, compile_query_all_by_name, compile_empty_query,
  compile_aggregate,
}
use polo_db.Db.ClientCursor.{advance, get}
use polo_db.Db.Backend.{Backend}
use polo_db.Db.Names.{validate_col_name}
use polo_db.Db.Transaction.{Db, ◌>>=◌, ◌>>◌, pure, raise, lift, match_on}
use polo_db.Db.Collections.{table_meta_prefix, get_collection_meta_by_name_advanced}

abbrev as_document : Bson → Outcome Document
as_document (document doc) = ok doc
as_document _ = panic

abbrev as_str : Bson → Outcome Bytes
as_str (string s) = ok s
as_str _ = panic

module _ (B : Backend) where
  open B use {world}
  open world use {platform, store, iteration}
  open store use {Txn}

  -- `make_handle`; the transaction is what it was when the machine starts.
  unfoldable pub make_handle : Bool → SubProgram → Db Txn (Vm world)
  unfolding Machine.new
  make_handle auto program t = some (t, ok (Machine.new world t auto program))

  -- The transaction that the machine has used, in front of the rest of a loop over its rows.
  abbrev pub stepped :
      {A : Type 0}
      → Vm world × Option (Outcome Bool)
      → (done : A) → (Vm world → Option (Txn × Outcome A))
      → Option (Txn × Outcome A)
  stepped (vm, none) done rest = none
  stepped (vm, some panic) done rest = some (vm.txn, panic)
  stepped (vm, some (err e)) done rest = some (vm.txn, err e)
  stepped (vm, some (ok false)) done rest = some (vm.txn, ok done)
  stepped (vm, some (ok true)) done rest = rest vm

  abbrev pub map_answer :
      {A : Type 0} → (A → A) → Option (Txn × Outcome A) → Option (Txn × Outcome A)
  map_answer f none = none
  map_answer f (some (t, r)) = some (t, Errors.map_ok f r)

  -- while handle.advance()? { count += 1 }
  unfoldable pub count_rows : (calls fuel : ℕ) → Vm world → Option (Txn × Outcome ℕ)
  unfolding advance
  count_rows zero fuel vm = none
  count_rows (suc calls) fuel vm =
      stepped (advance world fuel vm) 0 (λ next. map_answer suc (count_rows calls fuel next))

  -- `handle.get()` and `as_document().unwrap()`, in front of the rest.
  abbrev with_row :
      Vm world
      → Outcome Bson
      → Option (Txn × Outcome (List Document))
      → Option (Txn × Outcome (List Document))
  with_row vm value none = none
  with_row vm value (some (t, rest)) = some (
    t,
    Errors.◌>>=◌ value
        λ v. Errors.◌>>=◌ (as_document v) λ doc. Errors.map_ok (λ docs. doc ∷ docs) rest,
  )

  unfoldable pub row_documents :
      (calls fuel : ℕ) → Vm world → Option (Txn × Outcome (List Document))
  unfolding advance get
  row_documents zero fuel vm = none
  row_documents (suc calls) fuel vm =
      stepped (advance world fuel vm) []
        (λ next. with_row next (get world next) (row_documents calls fuel next))

  abbrev name_of : Document → Outcome Bytes
  name_of doc = Errors.◌>>=◌ (unwrap (platform.get doc (str "_id"))) as_str

  unfoldable pub collection_metas_to_names : List Document → Outcome (List Bytes)
  collection_metas_to_names [] = ok []
  collection_metas_to_names (doc ∷ docs) =
      Errors.◌>>=◌ (name_of doc)
        λ name. Errors.map_ok (λ names. name ∷ names) (collection_metas_to_names docs)

  abbrev query_program : CollectionSpecification → Option Document → Outcome SubProgram
  query_program col_spec none = compile_query_all col_spec true
  query_program col_spec (some query) = compile_query platform col_spec query true

  unfoldable pub find_internal :
      Bool → CollectionSpecification → Option Document → Db Txn (Vm world)
  unfolding compile_query_all compile_query make_handle
  find_internal auto col_spec query = do
    subprogram ← lift (query_program col_spec query)
    make_handle auto subprogram

  abbrev found_in : Option Document → Option CollectionSpecification → Outcome SubProgram
  found_in query none = compile_empty_query
  found_in query (some col_spec) = query_program col_spec query

  unfoldable pub find_with_owned_session : Bool → Bytes → Option Document → Db Txn (Vm world)
  unfolding validate_col_name get_collection_meta_by_name_advanced compile_empty_query
      compile_query_all compile_query make_handle
  find_with_owned_session auto col_name filter = do
    lift (validate_col_name col_name)
    meta_opt ← get_collection_meta_by_name_advanced B col_name false
    subprogram ← lift (found_in filter meta_opt)
    make_handle auto subprogram

  abbrev aggregated_in : List Document → Option CollectionSpecification → Outcome SubProgram
  aggregated_in pipeline none = compile_empty_query
  aggregated_in pipeline (some col_spec) =
      compile_aggregate platform iteration col_spec pipeline true

  unfoldable pub aggregate_with_owned_session : Bool → Bytes → List Document → Db Txn (Vm world)
  unfolding validate_col_name get_collection_meta_by_name_advanced compile_empty_query
      compile_aggregate make_handle
  aggregate_with_owned_session auto col_name pipeline = do
    lift (validate_col_name col_name)
    meta_opt ← get_collection_meta_by_name_advanced B col_name false
    subprogram ← lift (aggregated_in pipeline meta_opt)
    make_handle auto subprogram

  module _ (calls fuel : ℕ) where
    abbrev pub count_in : Bool → Option CollectionSpecification → Db Txn ℕ
    count_in auto none = pure 0
    count_in auto (some col) =
        find_internal auto col none >>= λ handle t. count_rows calls fuel handle

    unfoldable pub count : Bool → Bytes → Db Txn ℕ
    unfolding validate_col_name get_collection_meta_by_name_advanced find_internal count_rows
    count auto name = do
      lift (validate_col_name name)
      col ← get_collection_meta_by_name_advanced B name false
      count_in auto col

    abbrev pub counted : Outcome ℕ → Db Txn ℕ
    counted (ok count) = pure count
    counted (err (collection_not_found _)) = pure 0
    counted (err e) = raise e
    counted panic = lift panic

    unfoldable pub count_documents : Bool → Bytes → Db Txn ℕ
    unfolding validate_col_name count
    count_documents auto col_name = do
      lift (validate_col_name col_name)
      match_on (count auto col_name) counted

    unfoldable pub query_all_meta : Bool → Db Txn (List Document)
    unfolding compile_query_all_by_name make_handle row_documents
    query_all_meta auto = do
      subprogram ← lift (compile_query_all_by_name table_meta_prefix true)
      handle ← make_handle auto subprogram
      λ t. row_documents calls fuel handle

    unfoldable pub list_collection_names : Bool → Db Txn (List Bytes)
    unfolding query_all_meta collection_metas_to_names
    list_collection_names auto = do
      docs ← query_all_meta auto
      lift (collection_metas_to_names docs)
