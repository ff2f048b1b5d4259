-- ===== src/Db/QueryAll/Examples.antt =====
-- Queries run on a small store, and the theorem at it.
use polo_db.Prelude.{ℕ, ◌≡◌, refl, true, false, Option, none, some, List, [], ◌∷◌}
use polo_db.Prelude.Int.{pos}
use polo_db.Prelude.Bytes.{Bytes, str, str_eq, cmp_bytes, starts_with}
use polo_db.Errors.{Outcome, ok}
use polo_db.Bson.{Bson, Document, end, entry, int32, document, array, nil, cons}
use polo_db.Bson.Entries.{get}
use polo_db.Index.{CollectionSpecification}
use polo_db.Store.Instance.{Entries, least, lookup, keys}
use polo_db.FieldPath.{try_get_document_value, split_dots}
use polo_db.Compare.{generic_cmp, value_cmp, holds}
use polo_db.Scan
use polo_db.Scan.{has_next, reset, copy_data}
use polo_db.Vm.Codegen.Filter.{emit_standard_query_doc}
use polo_db.Vm.Codegen.Query.{emit_operator}
use polo_db.Vm.Program.{SubProgram}
use polo_db.Vm.World.Instance.{list_world}
use polo_db.Vm.Machine.{new, u32_at}
use polo_db.Vm.Codegen.Compile.{compile_query, compile_query_all_by_name}
use polo_db.Db.ClientCursor.{rows}
use polo_db.Scan.Loop.{scan}
use polo_db.Db.QueryAll.{query_all-scan, decoded}

-- Two documents of the collection "c".
abbrev first_doc : Document
first_doc = entry (str "a") (int32 (pos 1)) (entry (str "b") (int32 (pos 3)) end)

abbrev second_doc : Document
second_doc = entry (str "a") (int32 (pos 2)) (entry (str "b") (int32 (pos 2)) end)

abbrev first_key : Bytes
first_key = 2 ∷ 99 ∷ 0 ∷ 8 ∷ 0 ∷ []

abbrev second_key : Bytes
second_key = 2 ∷ 99 ∷ 0 ∷ 8 ∷ 1 ∷ []

abbrev store : Entries
store = (second_key, 97 ∷ 2 ∷ 98 ∷ 2 ∷ []) ∷ (first_key, 97 ∷ 1 ∷ 98 ∷ 3 ∷ []) ∷ []

abbrev spec : CollectionSpecification
spec = record { _id = str "c"; indexes = [] }

-- The rows of a program, with fuel for 100 instructions a call.
abbrev answer : Outcome SubProgram → Option (Outcome (List Bson))
unfolding new rows
answer (ok program) = rows list_world 5 100 (new list_world store false program)
answer _ = none

abbrev query : Document → Option (Outcome (List Bson))
unfolding compile_query
query doc = answer (compile_query list_world.platform spec doc true)

abbrev a_is : ℕ → Document
a_is n = entry (str "a") (int32 (pos n)) end

abbrev b_is_2 : Document
b_is_2 = entry (str "b") (int32 (pos 2)) end

all_rows : query end ≡ some (ok (document first_doc ∷ document second_doc ∷ []))
unfolding compile_query rows new get emit_standard_query_doc emit_operator split_dots starts_with
    u32_at has_next reset least cmp_bytes copy_data lookup str_eq Scan.next try_get_document_value
    generic_cmp value_cmp holds
all_rows = refl

equal_rows : query (a_is 2) ≡ some (ok (document second_doc ∷ []))
unfolding compile_query rows new get emit_standard_query_doc emit_operator split_dots starts_with
    u32_at has_next reset least cmp_bytes copy_data lookup str_eq Scan.next try_get_document_value
    generic_cmp value_cmp holds
equal_rows = refl

-- `$ne` selects the documents that `$eq` selects.
ne_rows :
    query (entry (str "a") (document (entry (str "$ne") (int32 (pos 1)) end)) end)
    ≡ some (ok (document first_doc ∷ []))
unfolding compile_query rows new get emit_standard_query_doc emit_operator split_dots starts_with
    u32_at has_next reset least cmp_bytes copy_data lookup str_eq Scan.next try_get_document_value
    generic_cmp value_cmp holds
ne_rows = refl

-- An alternative of `$or` that holds skips the conditions behind it: `b` is 3 in the row.
or_rows :
    query (entry (str "$or") (array (cons (document (a_is 1)) nil)) b_is_2)
    ≡ some (ok (document first_doc ∷ document second_doc ∷ []))
unfolding compile_query rows new get emit_standard_query_doc emit_operator split_dots starts_with
    u32_at has_next reset least cmp_bytes copy_data lookup str_eq Scan.next try_get_document_value
    generic_cmp value_cmp holds
or_rows = refl

query_all-scan_example :
    (code : SubProgram) × (compile_query_all_by_name (str "c") true ≡ ok code)
    × (rows list_world 3 7 (new list_world store false code)
        ≡ some (ok (document first_doc ∷ document second_doc ∷ [])))
unfolding scan has_next reset least cmp_bytes starts_with copy_data lookup str_eq Scan.next decoded
    Scan.new keys
query_all-scan_example =
    query_all-scan list_world store store false (str "c") true
      ((first_key, 97 ∷ 1 ∷ 98 ∷ 3 ∷ []) ∷ (second_key, 97 ∷ 2 ∷ 98 ∷ 2 ∷ []) ∷ [])
      (first_doc ∷ second_doc ∷ []) refl refl refl
