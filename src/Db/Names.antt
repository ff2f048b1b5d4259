-- ===== src/Db/Names.antt =====
-- The parts of src/polodb_core/db/db_inner.rs that do not touch the store: the names of collections and indexes, the
-- identifier of a document, and what an upsert inserts. The characters that are forbidden have one byte.
use polo_db.Prelude.{
  ℕ, suc, ◌==◌, ◌||◌, Bool, true, false, Option, none, some, [], ◌∷◌, ◌++◌, map, if◌then◌else◌,
}
use polo_db.Prelude.Int.{ℤ, pos, negsuc}
use polo_db.Prelude.Bytes.{Bytes, str}
use polo_db.Errors.{
  Error, Outcome, ok, err, ◌>>◌, illegal_collection_name, illegal_index_name, upsert_error,
}
use polo_db.Bson.{Bson, Document, end, entry, null, document, int32, int64, object_id}
use polo_db.Bson.Platform.{Platform}
use polo_db.Pipeline.{index_name}
use polo_db.Index.{IndexOptions}

-- ch == '$' || ch == '\n' || ch == '\t' || ch == '\r' || ch == '.'
unfoldable pub is_illegal : ℕ → Bool
is_illegal ch = ch == 36 || ch == 10 || ch == 9 || ch == 13 || ch == 46

unfoldable pub check_chars : Error → Bytes → Outcome (Unit {0})
unfolding is_illegal
check_chars e [] = ok tt
check_chars e (ch ∷ rest) = let later = check_chars e rest in if is_illegal ch then err e else later

unfoldable pub validate_col_name : Bytes → Outcome (Unit {0})
unfolding check_chars
validate_col_name col_name = check_chars (illegal_collection_name col_name) col_name

unfoldable pub validate_index_name : Bytes → Outcome (Unit {0})
unfolding check_chars
validate_index_name name = check_chars (illegal_index_name name) name

abbrev option_name : Option IndexOptions → Option Bytes
option_name none = none
option_name (some options) = options.name

-- `order.to_string()`
abbrev decimal : ℤ → Bytes
decimal (pos n) = index_name n
decimal (negsuc n) = str "-" ++ index_name (suc n)

abbrev underlined : Bytes → Bytes
underlined = map (λ ch. if ch == 46 then 95 else ch)

unfoldable pub make_index_name : Bytes → ℤ → Option IndexOptions → Outcome Bytes
unfolding validate_index_name index_name
make_index_name key order index_options = elim (option_name index_options) [
  | some name ↦ validate_index_name name >> ok name
  | none ↦ ok (underlined key ++ str "_" ++ decimal order)
]

unfoldable pub is_num_1 : Bson → Bool
is_num_1 (int32 (pos n)) = n == 1
is_num_1 (int64 (pos n)) = n == 1
is_num_1 _ = false

abbrev is_null : Bson → Bool
is_null null = true
is_null _ = false

abbrev contains_char : ℕ → Bytes → Bool
contains_char ch [] = false
contains_char ch (x ∷ xs) = x == ch || contains_char ch xs

abbrev is_document : Bson → Bool
is_document (document _) = true
is_document _ = false

module _ (P : Platform) where
  -- `ObjectId::new()` is an argument.
  unfoldable pub fix_doc : Bytes → Document → Document
  fix_doc new_oid doc =
      let fixed = P.insert doc (str "_id") (object_id new_oid) in
      elim (P.get doc (str "_id")) [ none ↦ fixed | some id ↦ if is_null id then fixed else doc ]

  -- for (key, value) in update
  unfoldable pub merge_query_and_update : Document → Document → Outcome Document
  merge_query_and_update doc end = ok doc
  merge_query_and_update doc (entry key value rest) =
      let merged = merge_query_and_update (P.insert doc key value) rest in
      if contains_char 36 key || contains_char 46 key
      then err (upsert_error key)
      else if is_document value
      then err (upsert_error key)
      else merged
