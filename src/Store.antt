-- ===== src/Store.antt =====
-- The store behind src/polodb_core/db/rocksdb_transaction.rs and rocksdb_iterator.rs: an ordered map
-- from byte keys to byte values, seen through one transaction. An iterator stands on a key or nowhere;
-- RocksDB documents that an iterator with an error is not valid, so `copy_key` of a valid one succeeds.
pub mod Durable
pub mod Instance
pub mod Search
use polo_db.Prelude.{List, In, ◌≡◌, ◌≢◌, Option, none, some, if◌then◌else◌, Ordering}
use polo_db.Prelude.Bytes.{Bytes, str_eq, cmp_bytes}
use polo_db.Errors.{Outcome, ok}

pub record Store : Type 1 where
  pub Txn : Type 0
  pub lookup : Txn → Bytes → Option Bytes
  pub put : Txn → Bytes → Bytes → Outcome Txn
  pub delete : Txn → Bytes → Outcome Txn
  -- A commit makes the writes of the transaction durable, a rollback drops them.
  pub commit : Txn → Outcome Txn
  pub rollback : Txn → Outcome Txn
  -- What a commit or a rollback that fails leaves; nothing is known of it.
  pub failed_commit : Txn → Txn
  pub failed_rollback : Txn → Txn
  -- The first key from a bound on, and the first key behind one.
  pub seek : Txn → Bytes → Option Bytes
  pub after : Txn → Bytes → Option Bytes
  -- The keys are finitely many.
  pub keys : Txn → List Bytes
  pub lookup-keys : (t : Txn) (k : Bytes) → lookup t k ≢ none → In k (keys t)
  pub lookup-put :
      (t u : Txn) (k v j : Bytes)
      → put t k v ≡ ok u
      → lookup u j ≡ (if str_eq k j then some v else lookup t j)
  pub lookup-commit : (t u : Txn) (j : Bytes) → commit t ≡ ok u → lookup u j ≡ lookup t j
  pub lookup-delete :
      (t u : Txn) (k j : Bytes)
      → delete t k ≡ ok u
      → lookup u j ≡ (if str_eq k j then none else lookup t j)
  pub seek-some :
      (t : Txn) (k j : Bytes)
      → seek t k ≡ some j
      → (lookup t j ≢ none) × (cmp_bytes j k ≢ Ordering.lt)
  pub seek-least :
      (t : Txn) (k i : Bytes)
      → lookup t i ≢ none
      → cmp_bytes i k ≢ Ordering.lt
      → (j : Bytes) × (seek t k ≡ some j) × (cmp_bytes j i ≢ Ordering.gt)
  pub after-some :
      (t : Txn) (k j : Bytes)
      → after t k ≡ some j
      → (lookup t j ≢ none) × (cmp_bytes j k ≡ Ordering.gt)
  pub after-least :
      (t : Txn) (k i : Bytes)
      → lookup t i ≢ none
      → cmp_bytes i k ≡ Ordering.gt
      → (j : Bytes) × (after t k ≡ some j) × (cmp_bytes j i ≢ Ordering.gt)
