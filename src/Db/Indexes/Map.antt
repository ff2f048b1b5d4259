-- ===== src/Db/Indexes/Map.antt =====
-- The indexes of a specification as a map that keeps its order, in src/polodb_core/db/db_inner.rs.
use polo_db.Prelude.{◌≡◌, refl, arith, none, some, List, [], ◌∷◌, if◌then◌else◌}
use polo_db.Prelude.Bytes.{Bytes, str_eq, str_eq_iff}
use polo_db.Index.{IndexInfo}
use polo_db.Db.Indexes.{get_index, insert_index, shift_remove}

-- The names of an `IndexMap` are distinct.
unfoldable pub IsIndexMap : List (Bytes × IndexInfo) → Type 0
unfolding get_index
IsIndexMap [] = Unit
IsIndexMap ((name, info) ∷ indexes) = (get_index name indexes ≡ none) × IsIndexMap indexes

pub get_index-insert_index :
    (name : Bytes) (info : IndexInfo) (indexes : List (Bytes × IndexInfo)) (j : Bytes)
    → get_index j (insert_index name info indexes)
      ≡ (if str_eq name j then some info else get_index j indexes)
unfolding get_index insert_index
get_index-insert_index name info [] j = refl
get_index-insert_index name info ((key, other) ∷ indexes) j = ground (
  arith,
  get_index-insert_index name info indexes j,
  str_eq_iff key name,
  str_eq_iff key j,
  str_eq_iff name j,
)

pub get_index-shift_remove :
    (name : Bytes) (indexes : List (Bytes × IndexInfo)) (j : Bytes)
    → IsIndexMap indexes
    → get_index j (shift_remove name indexes)
      ≡ (if str_eq name j then none else get_index j indexes)
unfolding get_index shift_remove IsIndexMap
get_index-shift_remove name [] j h = ground arith
get_index-shift_remove name ((key, other) ∷ indexes) j (fresh, h) = ground (
  arith,
  fresh,
  get_index-shift_remove name indexes j h,
  str_eq_iff key name,
  str_eq_iff key j,
  str_eq_iff name j,
)
