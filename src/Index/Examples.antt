-- ===== src/Index/Examples.antt =====
-- The test of `make_index_key` in index_helper.rs, and the theorems at a small index.
use polo_db.Prelude.{◌≡◌, ◌≢◌, ◌↔◌, refl, arith, true, false, none, some, [], ◌∷◌, ◌++◌}
use polo_db.Prelude.Int.{pos}
use polo_db.Prelude.Bytes.{Bytes, str, starts_with, str_eq}
use polo_db.Errors.{ok, err, duplicate_key}
use polo_db.Bson.{Document, end, entry, string, boolean}
use polo_db.Bson.Valid.{is_utf8}
use polo_db.Bson.Entries.{entries, get}
use polo_db.Keys.{stacked_key}
use polo_db.FieldPath.{try_get_document_value}
use polo_db.Store.Search.{begins}
use polo_db.Store.Instance.{Entries, list_store, lookup, least}
use polo_db.Index.{
  IndexInfo, IndexHelperOperation, is_unique, first_path, make_index_key, check_unique_key,
  try_execute_with_index_info,
}
use polo_db.Index.Laws.{try_execute_with_index_info-entry}
use polo_db.Index.Unique.{check_unique_key_iff, unique_entry, unique_delete}

users_key :
    make_index_key (str "users") (str "name") (string (str "value")) (some (string (str "Vincent")))
    ≡ ok (
        2
        ∷ (str "$I"
            ++ 0
              ∷ 2
              ∷ (str "users"
                  ++ 0
                    ∷ 2
                    ∷ (str "name" ++ 0 ∷ 2 ∷ (str "value" ++ 0 ∷ 2 ∷ (str "Vincent" ++ 0 ∷ []))))))
unfolding make_index_key stacked_key
users_key = refl

-- An index of the collection "c" on the path "n".
abbrev unique_info : IndexInfo
unique_info = record {
  keys = (str "n", pos 1) ∷ [];
  options = some record { name = none; unique = some true };
}

abbrev plain_info : IndexInfo
plain_info = record { keys = (str "n", pos 1) ∷ []; options = none }

abbrev doc : Document
doc = entry (str "_id") (boolean true) (entry (str "n") (string (str "v")) end)

abbrev tester : Bytes
tester = 2 ∷ 36 ∷ 73 ∷ 0 ∷ 2 ∷ 99 ∷ 0 ∷ 2 ∷ 110 ∷ 0 ∷ 2 ∷ 118 ∷ 0 ∷ []

abbrev entry_key : Bytes
entry_key = 2 ∷ 36 ∷ 73 ∷ 0 ∷ 2 ∷ 99 ∷ 0 ∷ 2 ∷ 110 ∷ 0 ∷ 2 ∷ 118 ∷ 0 ∷ 8 ∷ 1 ∷ []

abbrev filled : Entries
filled = (entry_key, 10 ∷ []) ∷ []

try_execute_with_index_info-entry_example : lookup filled entry_key ≡ some (10 ∷ [])
unfolding first_path try_get_document_value get make_index_key stacked_key
    try_execute_with_index_info str_eq
try_execute_with_index_info-entry_example =
    try_execute_with_index_info-entry (entries true) list_store IndexHelperOperation.insert doc
      (str "c") (boolean true) (str "n") plain_info [] filled (str "n") (string (str "v")) entry_key
      entry_key refl refl refl refl

check_unique_key_iff_example :
    ((check_unique_key list_store filled (str "c") (str "n") (string (str "v"))
        ≡ err (duplicate_key (str "n") (str "c")))
      ↔ ((i : Bytes) × (lookup filled i ≢ none) × (starts_with i tester ≡ true)))
    × ((check_unique_key list_store filled (str "c") (str "n") (string (str "v")) ≡ ok tt)
        ↔ (begins list_store filled tester ≡ false))
unfolding make_index_key stacked_key
check_unique_key_iff_example =
    check_unique_key_iff list_store filled (str "c") (str "n") (string (str "v")) tester refl

unique_entry_example : boolean true ≡ boolean true
unfolding first_path is_unique try_get_document_value get make_index_key stacked_key
    try_execute_with_index_info str_eq is_utf8 lookup least
unique_entry_example =
    unique_entry (entries true) list_store doc (str "c") (str "n") (str "n") (boolean true)
      (boolean true) (string (str "v")) unique_info [] filled entry_key (omega arith, refl)
      (omega arith, refl) (omega arith, refl) tt tt refl refl refl refl refl (λ e. cc)

unique_delete_example :
    try_execute_with_index_info
      (entries true)
      list_store
      IndexHelperOperation.delete
      doc
      (str "c")
      (boolean true)
      (str "n")
      unique_info
      filled
    ≡ err (duplicate_key (str "n") (str "c"))
unfolding first_path is_unique try_get_document_value get make_index_key stacked_key str_eq lookup
unique_delete_example =
    unique_delete (entries true) list_store doc (str "c") (str "n") (str "n") (boolean true)
      (string (str "v")) unique_info filled entry_key refl refl refl refl (λ e. cc)
