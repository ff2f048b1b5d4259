-- ===== src/FieldPath/Examples.antt =====
-- The tests of `try_get_document_value` in utils/bson.rs, and the theorems at such a document.
use polo_db.Prelude.{◌≡◌, ◌↔◌, refl, true, none, some}
use polo_db.Prelude.Int.{pos}
use polo_db.Prelude.Bytes.{str}
use polo_db.Bson.{Document, end, entry, document, int32}
use polo_db.Bson.Entries.{entries, get}
use polo_db.FieldPath.{split_dots, try_get_document_value}
use polo_db.FieldPath.Laws.{At, try_get_document_value_iff}

abbrev nested : Document
nested = entry (str "a") (document (entry (str "b") (int32 (pos 1)) end)) end

try_get_tests :
    (try_get_document_value (entries true) nested (str "a.b") ≡ some (int32 (pos 1)))
    × (try_get_document_value (entries true) nested (str "a.c") ≡ none)
    × (try_get_document_value (entries true) end (str "a") ≡ none)
    × (try_get_document_value (entries true) nested (str "a") ≡ none)
unfolding try_get_document_value get
try_get_tests = (refl, refl, refl, refl)

try_get_document_value_iff_example :
    (try_get_document_value (entries true) nested (str "a.b") ≡ some (int32 (pos 1)))
    ↔ At (entries true) nested (split_dots (str "a.b")) (int32 (pos 1))
try_get_document_value_iff_example =
    try_get_document_value_iff (entries true) nested (str "a.b") (int32 (pos 1))
