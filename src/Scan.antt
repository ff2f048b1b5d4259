-- ===== src/Scan.antt =====
-- src/polodb_core/cursor.rs: a cursor over the keys with a prefix. `position` is where the RocksDB
-- iterator stands; it is `none` when the iterator is not valid. RocksDB asks that `next` and `value` are
-- called on a valid iterator only: elsewhere they are a panic.
pub mod Places
pub mod Loop
pub mod Laws
mod Examples
use polo_db.Prelude.{Bool, true, false, Option, none, some, [], ◌∷◌, ◌++◌, if◌then◌else◌}
use polo_db.Prelude.Bytes.{Bytes, str_eq, starts_with}
use polo_db.Errors.{Outcome, ok, panic, ◌>>=◌, unwrap}
use polo_db.Bson.{Bson, string}
use polo_db.Keys.{stacked_key, stacked_key_bytes}
use polo_db.Store.{Store}

pub record Cursor : Type 0 where
  pub prefix_bytes : Bytes
  pub position : Option Bytes
  pub current_key : Option Bytes

unfoldable pub new : Bytes → Cursor
new prefix = record { prefix_bytes = prefix; position = none; current_key = none }

unfoldable pub new_with_str_prefix : Bytes → Outcome Cursor
unfolding new stacked_key_bytes
new_with_str_prefix s = do prefix ← stacked_key_bytes [] (string s); ok (new prefix)

-- The iterator at a new place. Where it is not valid, the current key stays as it was.
abbrev pub keep_or : Option Bytes → Option Bytes → Option Bytes
keep_or none current = current
keep_or (some key) current = some key

abbrev pub moved : Cursor → Option Bytes → Cursor
moved c position = record {
  prefix_bytes = c.prefix_bytes;
  position = position;
  current_key = keep_or position c.current_key;
}

unfoldable pub has_next : Cursor → Bool
has_next c = elim c.position [
  | none ↦ false
  | some _ ↦ elim c.current_key [ none ↦ false | some key ↦ starts_with key c.prefix_bytes ]
]

unfoldable pub peek_key : Cursor → Option Bytes
peek_key c = c.current_key

-- The index key that a query for a value begins with.
unfoldable pub make_index_key_with_query_key : Bytes → Bson → Outcome Bytes
make_index_key_with_query_key prefix query_value = do
  bytes ← stacked_key (query_value ∷ [])
  ok (prefix ++ bytes)

module _ (S : Store) where
  open S use {Txn, lookup, put, seek, after}

  unfoldable pub reset : Txn → Cursor → Cursor
  reset t c = moved c (seek t c.prefix_bytes)

  unfoldable pub reset_by_custom_key : Txn → Bytes → Cursor → Cursor × Bool
  reset_by_custom_key t key c =
      (moved c (seek t key), elim (seek t key) [ none ↦ false | some found ↦ str_eq found key ])

  unfoldable pub reset_by_pkey : Txn → Bson → Cursor → Outcome (Cursor × Bool)
  unfolding reset_by_custom_key
  reset_by_pkey t pkey c = do
    bytes ← stacked_key (pkey ∷ [])
    ok (reset_by_custom_key t (c.prefix_bytes ++ bytes) c)

  unfoldable pub reset_by_index_value : Txn → Bson → Cursor → Outcome (Cursor × Bool)
  unfolding make_index_key_with_query_key
  reset_by_index_value t index_value c = do
    key ← make_index_key_with_query_key c.prefix_bytes index_value
    ok (
      moved c (seek t key),
      elim (seek t key) [ none ↦ false | some found ↦ starts_with found key ],
    )

  unfoldable pub next : Txn → Cursor → Outcome Cursor
  next t c = do
    at ← unwrap c.position
    ok record { prefix_bytes = c.prefix_bytes; position = after t at; current_key = after t at }

  unfoldable pub copy_data : Txn → Cursor → Outcome Bytes
  copy_data t c = do at ← unwrap c.position; unwrap (lookup t at)

  unfoldable pub update_current : Txn → Bytes → Cursor → Outcome (Txn × Bool)
  update_current t value c = elim c.current_key [
    | none ↦ ok (t, false)
    | some key ↦ do u ← put t key value; ok (u, true)
  ]
