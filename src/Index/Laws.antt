-- ===== src/Index/Laws.antt =====
-- What an operation on an index writes.
use polo_db.Prelude.{
  ◌≡◌, refl, sym, ap, ◌∙◌, true, Option, none, some, List, [], ◌∷◌, ◌++◌, if◌then◌else◌,
}
use polo_db.Prelude.Bytes.{Bytes, str, str_eq, starts_with, starts_with-append}
use polo_db.Errors.{Outcome, ok, err, panic, ◌>>=◌, >>=-eq-ok}
use polo_db.Bson.{Bson, Document, string}
use polo_db.Bson.ElementType
use polo_db.Bson.Platform.{Platform}
use polo_db.Keys.{write_key, stack_all, stacked_key, stacked_key_bytes}
use polo_db.FieldPath.{try_get_document_value}
use polo_db.Store.{Store}
use polo_db.Index.{
  IndexInfo, IndexHelperOperation, is_unique, first_path, make_index_key, check_unique_key,
  write_entry, write_value, try_execute_with_index_info,
}

stack_all-cons :
    (m : Outcome Bytes) (xs ys : List Bson)
    → ((w : Bytes) → stack_all w (xs ++ ys) ≡ (stack_all w xs >>= (λ s. stack_all s ys)))
    → (m >>= (λ w. stack_all w (xs ++ ys)))
      ≡ ((m >>= (λ w. stack_all w xs)) >>= (λ s. stack_all s ys))
stack_all-cons (ok w) xs ys ih = ih w
stack_all-cons (err e) xs ys ih = refl
stack_all-cons panic xs ys ih = refl

stack_all-append :
    (r : Bytes) (xs ys : List Bson)
    → stack_all r (xs ++ ys) ≡ (stack_all r xs >>= (λ s. stack_all s ys))
unfolding stack_all
stack_all-append r [] ys = refl
stack_all-append r (x ∷ xs) ys =
    stack_all-cons (stacked_key_bytes r x) xs ys (λ w. stack_all-append w xs ys)

-- The key of an entry begins with the key of its value.
pub make_index_key-tester :
    (col_name index_name : Bytes) (value pkey : Bson) (key : Bytes)
    → make_index_key col_name index_name value (some pkey) ≡ ok key
    → (tester : Bytes) × (make_index_key col_name index_name value none ≡ ok tester)
      × (starts_with key tester ≡ true)
unfolding make_index_key stacked_key stack_all stacked_key_bytes
make_index_key-tester col_name index_name value pkey key made =
    let keys = string (str "$I") ∷ string col_name ∷ string index_name ∷ value ∷ [] in
    let (tester, t, split) =
      >>=-eq-ok (stack_all [] keys) (λ s. stack_all s (pkey ∷ []))
        (sym (stack_all-append [] keys (pkey ∷ [])) ∙ made) in
    let (all, appended, last) = >>=-eq-ok (stacked_key_bytes tester pkey) (λ w. ok w) split in
    let (bytes, wrote, whole) = >>=-eq-ok (write_key pkey) (λ b. ok (tester ++ b)) appended in
    let same : tester ++ bytes ≡ key = cc in
    (tester, t, ap (λ b. starts_with b tester) (sym same) ∙ starts_with-append tester bytes)

module _ (S : Store) where
  open S use {Txn, lookup}

  -- What stands under the key of the entry then.
  abbrev pub written : IndexHelperOperation → Option Bytes
  written IndexHelperOperation.insert = some (ElementType.null ∷ [])
  written IndexHelperOperation.delete = none

  write_entry_lem :
      (op : IndexHelperOperation) (t u : Txn) (key j : Bytes)
      → write_entry S op t key ≡ ok u
      → lookup u j ≡ (if str_eq key j then written op else lookup t j)
  unfolding write_entry
  write_entry_lem IndexHelperOperation.insert t u key j h = S.lookup-put t u key _ j h
  write_entry_lem IndexHelperOperation.delete t u key j h = S.lookup-delete t u key j h

  pub write_value_key :
      (op : IndexHelperOperation) (value pkey : Bson) (col_name index_name : Bytes)
      (info : IndexInfo) (t u : Txn)
      → write_value S op (some value) col_name pkey index_name info t ≡ ok u
      → (key : Bytes) × (make_index_key col_name index_name value (some pkey) ≡ ok key)
  unfolding write_value
  write_value_key op value pkey col_name index_name info t u h =
      let (_, checked, rest) =
        >>=-eq-ok (if is_unique info then check_unique_key S t col_name index_name value else ok tt)
          _ h in
      let (key, made, _) =
        >>=-eq-ok (make_index_key col_name index_name value (some pkey)) _ rest in
      (key, made)

  pub write_value_lem :
      (op : IndexHelperOperation) (value pkey : Bson) (col_name index_name : Bytes)
      (info : IndexInfo) (t u : Txn) (key j : Bytes)
      → make_index_key col_name index_name value (some pkey) ≡ ok key
      → write_value S op (some value) col_name pkey index_name info t ≡ ok u
      → lookup u j ≡ (if str_eq key j then written op else lookup t j)
  unfolding write_value
  write_value_lem op value pkey col_name index_name info t u key j made h =
      let (_, checked, rest) =
        >>=-eq-ok (if is_unique info then check_unique_key S t col_name index_name value else ok tt)
          _ h in
      write_entry_lem op t u key j (rw made at rest)

module _ (P : Platform) (S : Store) where
  open S use {Txn, lookup}

  -- With a path and a value in the document.
  pub try_execute_value :
      (op : IndexHelperOperation) (data_doc : Document) (col_name : Bytes) (pkey : Bson)
      (index_name : Bytes) (info : IndexInfo) (t : Txn) (path : Bytes) (value : Bson)
      → first_path info ≡ ok path
      → try_get_document_value P data_doc path ≡ some value
      → try_execute_with_index_info P S op data_doc col_name pkey index_name info t
        ≡ write_value S op (some value) col_name pkey index_name info t
  unfolding try_execute_with_index_info
  try_execute_value op data_doc col_name pkey index_name info t path value first found =
      rw first (ap (λ o. write_value S op o col_name pkey index_name info t) found)

  -- An operation on an index that succeeds writes the entry of the document's value, or deletes it,
  -- and leaves every other key of the store as it was.
  pub try_execute_with_index_info-entry :
      (op : IndexHelperOperation) (data_doc : Document) (col_name : Bytes) (pkey : Bson)
      (index_name : Bytes) (info : IndexInfo) (t u : Txn) (path : Bytes) (value : Bson)
      (key j : Bytes)
      → first_path info ≡ ok path
      → try_get_document_value P data_doc path ≡ some value
      → make_index_key col_name index_name value (some pkey) ≡ ok key
      → try_execute_with_index_info P S op data_doc col_name pkey index_name info t ≡ ok u
      → lookup u j ≡ (if str_eq key j then written S op else lookup t j)
  try_execute_with_index_info-entry op data_doc col_name pkey index_name info t u path value key j
        first found made h =
      write_value_lem S op value pkey col_name index_name info t u key j made (
        sym (try_execute_value op data_doc col_name pkey index_name info t path value first found)
        ∙ h)
