-- ===== src/Index.antt =====
-- src/polodb_core/index/index_helper.rs and index_builder.rs, with `IndexInfo` and the part of
-- `CollectionSpecification` that they use (src/polodb_core/coll/collection_info.rs). An entry of an
-- index is a key made of "$I", the collection, the index, the value and the primary key.
pub mod Durable
pub mod Laws
pub mod Unique
pub mod Frame
mod Examples
use polo_db.Prelude.{
  ℕ, zero, suc, Bool, true, false, Option, none, some, List, [], ◌∷◌, ◌++◌, if◌then◌else◌,
}
use polo_db.Prelude.Int.{ℤ}
use polo_db.Prelude.Bytes.{Bytes, str, starts_with}
use polo_db.Errors.{Outcome, ok, err, panic, ◌>>=◌, ◌>>◌, duplicate_key, unwrap}
use polo_db.Errors.Kept.{Kept, written, given, behind}
use polo_db.Bson.{Bson, Document, string}
use polo_db.Bson.ElementType
use polo_db.Bson.Platform.{Platform}
use polo_db.Keys.{stacked_key}
use polo_db.FieldPath.{try_get_document_value}
use polo_db.Store.{Store}
use polo_db.Scan.{Cursor, new_with_str_prefix, reset, has_next, copy_data, next}

-- `IndexOptions`
pub record IndexOptions : Type 0 where
  pub name : Option Bytes
  pub unique : Option Bool

-- The keys are a map that keeps its order: path and direction.
pub record IndexInfo : Type 0 where
  pub keys : List (Bytes × ℤ)
  pub options : Option IndexOptions

unfoldable pub single_index : Bytes → ℤ → Option IndexOptions → IndexInfo
single_index name order options = record { keys = (name, order) ∷ []; options = options }

-- as_ref().and_then(..).unwrap_or(false)
abbrev unique_option : Option IndexOptions → Bool
unique_option none = false
unique_option (some options) = elim options.unique [ none ↦ false | some b ↦ b ]

unfoldable pub is_unique : IndexInfo → Bool
is_unique info = unique_option info.options

pub record CollectionSpecification : Type 0 where
  pub _id : Bytes
  pub indexes : List (Bytes × IndexInfo)

pub data IndexHelperOperation : Type 0 where
  insert delete : IndexHelperOperation

-- `tuples.first().unwrap()`
unfoldable pub first_path : IndexInfo → Outcome Bytes
first_path info = elim info.keys [ [] ↦ panic | (path, _) ∷ _ ↦ ok path ]

abbrev pkey_part : Option Bson → List Bson
pkey_part none = []
pkey_part (some pkey) = pkey ∷ []

unfoldable pub make_index_key : Bytes → Bytes → Bson → Option Bson → Outcome Bytes
make_index_key col_name index_name value pkey =
    stacked_key (string (str "$I") ∷ string col_name ∷ string index_name ∷ value ∷ pkey_part pkey)

module _ (S : Store) where
  open S use {Txn, put, seek}

  -- The iterator's key at the first entry from the tester on, if it is valid there.
  unfoldable pub check_unique_key : Txn → Bytes → Bytes → Bson → Outcome (Unit {0})
  unfolding make_index_key
  check_unique_key t col_name index_name value = do
    tester ← make_index_key col_name index_name value none
    elim (seek t tester) [
      | none ↦ ok tt
      | some current_key ↦
          if starts_with current_key tester then err (duplicate_key index_name col_name) else ok tt
    ]

  unfoldable pub write_entry : IndexHelperOperation → Txn → Bytes → Outcome Txn
  write_entry IndexHelperOperation.insert t index_key = put t index_key (ElementType.null ∷ [])
  write_entry IndexHelperOperation.delete t index_key = S.delete t index_key

  -- The part behind the document's value: nothing is done where it has none.
  unfoldable pub write_value :
      IndexHelperOperation → Option Bson → Bytes → Bson → Bytes → IndexInfo → Txn → Outcome Txn
  unfolding check_unique_key write_entry is_unique
  write_value op none col_name pkey index_name info t = ok t
  write_value op (some value) col_name pkey index_name info t =
      (if is_unique info then check_unique_key t col_name index_name value else ok tt) >> (do
        index_key ← make_index_key col_name index_name value (some pkey)
        write_entry op t index_key)

module _ (P : Platform) (S : Store) where
  open S use {Txn}

  unfoldable pub try_execute_with_index_info :
      IndexHelperOperation → Document → Bytes → Bson → Bytes → IndexInfo → Txn → Outcome Txn
  unfolding write_value first_path
  try_execute_with_index_info op data_doc col_name pkey index_name info t = do
    path ← first_path info
    write_value S op (try_get_document_value P data_doc path) col_name pkey index_name info t

  -- for (index_name, index_info) in index_meta.iter(): the entries before an index that refuses stay.
  unfoldable pub execute_indexes :
      IndexHelperOperation → Document → Bytes → Bson → List (Bytes × IndexInfo) → Txn → Kept Txn
  unfolding try_execute_with_index_info
  execute_indexes op doc col_name pkey [] t = (t, ok tt)
  execute_indexes op doc col_name pkey ((index_name, info) ∷ indexes) t =
      behind (written t (try_execute_with_index_info op doc col_name pkey index_name info t))
        (λ u. execute_indexes op doc col_name pkey indexes u)

  -- `IndexHelper::execute`
  unfoldable pub execute :
      IndexHelperOperation → Document → CollectionSpecification → Bson → Txn → Kept Txn
  unfolding execute_indexes
  execute op doc col_spec pkey t = execute_indexes op doc col_spec._id pkey col_spec.indexes t

-- `IndexBuilder`: the loop over the documents of a collection, on fuel; what it wrote before an error stays. `from_slice` is the bson
-- crate's.
module _ (P : Platform) (S : Store) (from_slice : Bytes → Outcome Document) where
  open S use {Txn}

  unfoldable pub execute_index_item :
      IndexHelperOperation → Bytes → Bytes → IndexInfo → Bytes → Txn → Outcome Txn
  execute_index_item op col_name index_name info current_data t = do
    data_doc ← from_slice current_data
    pkey ← unwrap (P.get data_doc (str "_id"))
    try_execute_with_index_info P S op data_doc col_name pkey index_name info t

  -- while cursor.has_next()
  unfoldable pub build_loop :
      ℕ → IndexHelperOperation → Bytes → Bytes → IndexInfo → Txn → Cursor → Kept Txn
  unfolding execute_index_item
  build_loop zero op col_name index_name info t c = if has_next c then (t, panic) else (t, ok tt)
  build_loop (suc fuel) op col_name index_name info t c =
      let round = given t (copy_data S t c) (λ current_data.
        behind (written t (execute_index_item op col_name index_name info current_data t))
          (λ u. given u (next S u c) (λ d. build_loop fuel op col_name index_name info u d))) in
      if has_next c then round else (t, ok tt)

  unfoldable pub build : ℕ → IndexHelperOperation → Bytes → Bytes → IndexInfo → Txn → Kept Txn
  unfolding build_loop
  build fuel op col_name index_name info t =
      given t (new_with_str_prefix col_name)
        (λ c. build_loop fuel op col_name index_name info t (reset S t c))
