-- ===== src/Scan/Examples.antt =====
-- Tests of the cursor on a small store, and the theorems at it.
use polo_db.Prelude.{◌≡◌, ◌↔◌, refl, true, none, some, List, [], ◌∷◌, In}
use polo_db.Prelude.Bytes.{Bytes, str, starts_with, cmp_bytes}
use polo_db.Errors.{ok}
use polo_db.Store.Instance.{Entries, list_store, lookup, keys, least}
use polo_db.Scan.{Cursor, new_with_str_prefix, reset, has_next}
use polo_db.Scan.Loop.{scan, scan-reset}

-- Two documents of the collection "a" and one of the collection "b".
abbrev prefix : Bytes
prefix = 2 ∷ 97 ∷ 0 ∷ []

abbrev first_key : Bytes
first_key = 2 ∷ 97 ∷ 0 ∷ 8 ∷ 0 ∷ []

abbrev second_key : Bytes
second_key = 2 ∷ 97 ∷ 0 ∷ 8 ∷ 1 ∷ []

abbrev store : Entries
store = (2 ∷ 98 ∷ 0 ∷ 8 ∷ 0 ∷ [], 7 ∷ []) ∷ (second_key, 6 ∷ []) ∷ (first_key, 5 ∷ []) ∷ []

abbrev cursor : Cursor
cursor = record { prefix_bytes = prefix; position = none; current_key = none }

prefix_of_collection : new_with_str_prefix (str "a") ≡ ok cursor
unfolding new_with_str_prefix
prefix_of_collection = refl

first_of_scan : has_next (reset list_store store cursor) ≡ true
unfolding has_next reset least cmp_bytes starts_with
first_of_scan = refl

scan-reset_example :
    (entries : List (Bytes × Bytes)) × (scan list_store 3 store (reset list_store store cursor)
      ≡ ok entries)
    × (In (first_key, 5 ∷ []) entries
        ↔ ((lookup store first_key ≡ some (5 ∷ [])) × (starts_with first_key prefix ≡ true)))
unfolding keys
scan-reset_example = scan-reset list_store store cursor first_key (5 ∷ [])

abbrev on_second : Cursor
on_second = record {
  prefix_bytes = prefix;
  position = some second_key;
  current_key = some second_key;
}
