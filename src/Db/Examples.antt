-- ===== src/Db/Examples.antt =====
-- The operations of the database on a small store, and the theorems at it.
use polo_db.Prelude.{if◌then◌else◌, ◌++◌, ◌≡◌, refl, true, false, none, some, [], ◌∷◌}
use polo_db.Prelude.Int.{◌+ℤ◌, pos, to_word}
use polo_db.Prelude.Bytes.{Bytes, str, str_eq, be_bytes, cmp_bytes, starts_with}
use polo_db.Errors.{
  ok, err, collection_already_exits, collection_not_found, duplicate_key, bson_err,
}
use polo_db.Bson.{Bson, null, Document, end, entry, int32, string}
use polo_db.Bson.Entries.{get, insert}
use polo_db.Keys.{stacked_key}
use polo_db.FieldPath.{try_get_document_value}
use polo_db.Index.{single_index, CollectionSpecification, make_index_key}
use polo_db.Index.{try_execute_with_index_info}
use polo_db.Index.Frame.{index_bytes}
use polo_db.Store.Instance.{Entries, delete, least, lookup, keys}
use polo_db.Scan
use polo_db.Scan.{has_next, reset}
use polo_db.Scan.Loop.{scan}
use polo_db.UpdateOperators.Arithmetic.{machine_int}
use polo_db.Vm.Machine.{u32_at}
use polo_db.Db.QueryAll.{decoded}
use polo_db.Store.Durable.Instance.{layered_store, layered}
use polo_db.Db.Indexes.{IndexModel, create_index, drop_index, get_index}
use polo_db.Db.Indexes.Map.{IsIndexMap}
use polo_db.Db.Indexes.Laws.{Created, create_index-Created, drop_index-get_index}
use polo_db.Db.Collection.Atomic.{Change, Atomic, perform, perform-Atomic}
use polo_db.Db.Backend.Instance.{
  small_backend, durable_backend, small_world, read_bytes, write_bytes,
}
use polo_db.Db.Names.{make_index_name, fix_doc, validate_col_name}
use polo_db.Db.Collections.{
  new_spec, read_spec, internal_get_collection_id_by_name, internal_create_collection,
}
use polo_db.Db.Collections.Laws.{meta_bytes, internal_create_collection_lem}
use polo_db.Db.Write.{drop_collection, insert_one_with_meta, try_insert_index}
use polo_db.Db.Write.Drop.{drop_collection-get}
use polo_db.Db.Write.Insert.{insert_one_with_meta-refused}
use polo_db.Db.Collection.{insert_one}
use polo_db.Db.Collection.Insert.{try_db_op-insert_one}
use polo_db.Db.Read.{count_documents}
use polo_db.Db.Read.Count.{count_documents-scan}

-- A store with the empty collection "c".
abbrev with_c : Entries
with_c = (meta_bytes (str "c"), 0 ∷ str "c") ∷ []

internal_create_collection_lem_example :
    internal_create_collection small_backend (str "c") with_c
    ≡ some (with_c, err (collection_already_exits (str "c")))
unfolding internal_create_collection read_spec lookup least stacked_key
internal_create_collection_lem_example =
    (internal_create_collection_lem small_backend (str "c") [] with_c (new_spec (str "c")) refl).3

-- A document of "c" with `_id` 7, its key, and the store with it.
abbrev seven : Document
seven = entry (str "_id") (int32 (pos 7)) end

abbrev seven_key : Bytes
unfolding stacked_key
seven_key = elim (stacked_key (string (str "c") ∷ int32 (pos 7) ∷ [])) [ ok key ↦ key | _ ↦ [] ]

abbrev with_seven : Entries
with_seven = (seven_key, 0 ∷ 7 ∷ []) ∷ with_c

-- The first document of a collection that is not there creates it.
try_db_op-insert_one_example :
    (key : Bytes) × (spec : CollectionSpecification) × (get
        (fix_doc small_world.platform [] seven)
        (str "_id")
      ≡ some (int32 (pos 7)))
    × (stacked_key (string (str "c") ∷ int32 (pos 7) ∷ []) ≡ ok key)
    × ((bytes : Bytes) × (layered_store.lookup (with_seven, with_seven) key ≡ some bytes)
        × (read_bytes bytes ≡ ok (fix_doc small_world.platform [] seven)))
    × (read_spec durable_backend (str "c") (with_seven, with_seven) ≡ ok spec)
    × ((j : Bytes)
        → str_eq key j ≡ false
        → str_eq (meta_bytes (str "c")) j ≡ false
        → starts_with j index_bytes ≡ false
        → layered_store.lookup (with_seven, with_seven) j ≡ layered_store.lookup ([], []) j)
    × ((j : Bytes)
        → layered.durable (with_seven, with_seven) j
          ≡ layered_store.lookup (with_seven, with_seven) j)
unfolding insert_one read_spec lookup least stacked_key get write_bytes
try_db_op-insert_one_example =
    try_db_op-insert_one durable_backend layered (str "c") [] seven ([], [])
      (with_seven, with_seven) (int32 (pos 7)) (λ s h. absurd cc) refl

drop_collection-get_example :
    internal_get_collection_id_by_name small_backend (str "c") []
    ≡ some ([], err (collection_not_found (str "c")))
unfolding drop_collection stacked_key least cmp_bytes str_eq lookup u32_at has_next reset
    starts_with be_bytes to_word read_bytes machine_int ◌+ℤ◌ Scan.next delete
drop_collection-get_example = drop_collection-get small_backend 40 (str "c") with_seven [] refl

count_documents-scan_example :
    (v : Entries) × (count_documents small_backend 3 7 false (str "c") with_seven ≡ some (v, ok 1))
unfolding keys validate_col_name read_spec stacked_key least cmp_bytes str_eq lookup scan has_next
    reset starts_with be_bytes to_word Scan.next decoded read_bytes
count_documents-scan_example =
    count_documents-scan small_backend false (str "c") with_seven with_seven (new_spec (str "c"))
      ((seven_key, 0 ∷ 7 ∷ []) ∷ []) (seven ∷ []) refl refl refl refl refl

-- The specification of "c" with a unique index on "n", and a document of another one's "n".
abbrev unique_spec : CollectionSpecification
unique_spec = record {
  _id = str "c";
  indexes =
      (
        str "n",
        record {
          keys = (str "n", pos 1) ∷ [];
          options = some record { name = none; unique = some true };
        },
      )
      ∷ [];
}

abbrev eight : Document
eight = entry (str "_id") (int32 (pos 8)) (entry (str "n") (int32 (pos 5)) end)

abbrev taken : Entries
unfolding make_index_key stacked_key
taken = elim (make_index_key (str "c") (str "n") (int32 (pos 5)) (some (int32 (pos 1)))) [
  | ok key ↦ (key, 1 ∷ []) ∷ []
  | _ ↦ []
]

abbrev eight_key : Bytes
unfolding stacked_key
eight_key = elim (stacked_key (string (str "c") ∷ int32 (pos 8) ∷ [])) [ ok key ↦ key | _ ↦ [] ]

abbrev eight_bytes : Bytes
eight_bytes = 0 ∷ 8 ∷ 110 ∷ 5 ∷ []

insert_one_with_meta-refused_example :
    (insert_one_with_meta small_backend unique_spec [] eight taken
      ≡ some ((eight_key, eight_bytes) ∷ taken, err (duplicate_key (str "n") (str "c"))))
    × ((bytes : Bytes) × (lookup ((eight_key, eight_bytes) ∷ taken) eight_key ≡ some bytes)
        × (read_bytes bytes ≡ ok (fix_doc small_world.platform [] eight)))
unfolding fix_doc validate_col_name get stacked_key write_bytes try_insert_index
    try_get_document_value least cmp_bytes starts_with be_bytes to_word
insert_one_with_meta-refused_example =
    insert_one_with_meta-refused small_backend unique_spec [] eight taken
      ((eight_key, eight_bytes) ∷ taken) ((eight_key, eight_bytes) ∷ taken) (int32 (pos 8))
      eight_key eight_bytes (duplicate_key (str "n") (str "c")) refl refl refl refl refl refl

-- Two documents, the second without a value that can be stored: the first is not durable either.
perform-Atomic_example :
    Atomic layered_store layered {A = Unit {0}}
      (with_c, with_c)
      (some ((with_c, with_c), err bson_err))
unfolding perform stacked_key least cmp_bytes str_eq lookup get write_bytes insert
perform-Atomic_example =
    perform-Atomic durable_backend 40 (str "c") layered
      (Change.insert_many (λ _. []) (ok seven ∷ ok (entry (str "a") null end) ∷ []))
      (with_c, with_c)

-- The index "i" on the field "n" of "c", and the store with a document: before, with the index, and without it again.
abbrev on_n : IndexModel
on_n = record {
  keys = entry (str "n") (int32 (pos 1)) end;
  options = some record { name = some (str "i"); unique = none };
}

abbrev with_eight : Entries
with_eight = (eight_key, eight_bytes) ∷ with_c

abbrev eight_entry : Bytes
unfolding make_index_key stacked_key
eight_entry = elim (make_index_key (str "c") (str "i") (int32 (pos 5)) (some (int32 (pos 8)))) [
  | ok key ↦ key
  | _ ↦ []
]

abbrev spec_of_i : Entries
spec_of_i = (meta_bytes (str "c"), 1 ∷ str "i" ++ str "i" ++ str "n" ++ str "c") ∷ with_eight

abbrev with_index : Entries
with_index = (eight_entry, 10 ∷ []) ∷ spec_of_i

abbrev without_index : Entries
without_index = with_c ++ spec_of_i

create_index-Created_example :
    (key : Bytes) × (order : Bson) × (index_name : Bytes) × (on_n.keys ≡ entry key order end)
    × (make_index_name key (pos 1) on_n.options ≡ ok index_name)
    × Created small_backend 3
        (str "c")
        (single_index key (pos 1) on_n.options)
        with_eight
        with_index
        index_name
unfolding create_index stacked_key least cmp_bytes str_eq lookup has_next reset starts_with be_bytes
    to_word read_bytes get try_execute_with_index_info try_get_document_value Scan.next
create_index-Created_example =
    create_index-Created small_backend 3 (str "c") on_n with_eight with_index refl

drop_index-get_index_example :
    (next : CollectionSpecification) × (read_spec small_backend (str "c") without_index ≡ ok next)
    × ((j : Bytes)
        → get_index j next.indexes ≡ (
            if str_eq (str "i") j
            then none
            else get_index j ((str "i", single_index (str "n") (pos 1) on_n.options) ∷ [])))
unfolding drop_index IsIndexMap stacked_key least cmp_bytes str_eq lookup single_index has_next
    reset eight_entry starts_with be_bytes to_word read_bytes get try_execute_with_index_info
    try_get_document_value Scan.next delete
drop_index-get_index_example =
    drop_index-get_index small_backend 3 (str "c") (str "i")
      (record {
        _id = str "c";
        indexes = (str "i", single_index (str "n") (pos 1) on_n.options) ∷ [];
      })
      with_index without_index (refl, tt) refl refl
