-- ===== src/Vm/World/Instance.antt =====
-- A world: the list store, and documents of small numbers under names of one letter.
use polo_db.Prelude.{true, List, [], ◌∷◌, Ordering}
use polo_db.Prelude.Int.{pos}
use polo_db.Prelude.Bytes.{Bytes, str_eq}
use polo_db.Errors.{Outcome, ok, err, ◌>>=◌, bson_err}
use polo_db.Bson.{Document, end, entry, string, int32}
use polo_db.Bson.Entries.{entries}
use polo_db.Store.Instance.{list_store}
use polo_db.Vm.World.{World}

abbrev pub read_bytes : Bytes → Outcome Document
read_bytes [] = ok end
read_bytes (k ∷ []) = err bson_err
read_bytes (k ∷ v ∷ rest) = do doc ← read_bytes rest; ok (entry (k ∷ []) (int32 (pos v)) doc)

abbrev pub write_bytes : Document → Outcome Bytes
write_bytes end = ok []
write_bytes (entry (k ∷ []) (int32 (pos v)) rest) = do bytes ← write_bytes rest; ok (k ∷ v ∷ bytes)
write_bytes _ = err bson_err

-- The sort by insertion.
abbrev insert_row :
    (Document → Document → Outcome Ordering) → Document → List Document → Outcome (List Document)
insert_row cmp x [] = ok (x ∷ [])
insert_row cmp x (y ∷ ys) =
    let later = insert_row cmp x ys in
    cmp x y >>= λ order. elim order [
      | Ordering.gt ↦ later >>= λ rest. ok (y ∷ rest)
      | _ ↦ ok (x ∷ y ∷ ys)
    ]

abbrev pub sort_rows :
    (Document → Document → Outcome Ordering) → List Document → Outcome (List Document)
sort_rows cmp [] = ok []
sort_rows cmp (x ∷ xs) = do sorted ← sort_rows cmp xs; insert_row cmp x sorted

abbrev pub list_world : World
list_world = record {
  platform = entries true;
  store = list_store;
  from_slice = read_bytes;
  to_vec = write_bytes;
  regex_match = λ pattern flags text. ok (str_eq pattern text);
  to_string = λ value. elim value [ string s ↦ s | _ ↦ [] ];
  sort_by = sort_rows;
  iteration = λ orders. orders;
}
