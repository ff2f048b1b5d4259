-- ===== src/Store/Durable.antt =====
-- What a commit makes durable, for the store behind src/polodb_core/db/rocksdb_transaction.rs: what the other
-- transactions see. Writes do not change it, a commit makes it what the transaction holds, and a rollback
-- gives it back to the transaction.
pub mod Instance
use polo_db.Prelude.{◌≡◌, Option}
use polo_db.Prelude.Bytes.{Bytes}
use polo_db.Errors.{ok}
use polo_db.Store.{Store}

pub record Durability (S : Store) : Type 0 where
  pub durable : S.Txn → Bytes → Option Bytes
  pub durable-put : (t u : S.Txn) (k v j : Bytes) → S.put t k v ≡ ok u → durable u j ≡ durable t j
  pub durable-delete : (t u : S.Txn) (k j : Bytes) → S.delete t k ≡ ok u → durable u j ≡ durable t j
  pub durable-commit : (t u : S.Txn) (j : Bytes) → S.commit t ≡ ok u → durable u j ≡ S.lookup t j
  pub durable-rollback : (t u : S.Txn) (j : Bytes) → S.rollback t ≡ ok u → durable u j ≡ durable t j
  pub lookup-rollback : (t u : S.Txn) (j : Bytes) → S.rollback t ≡ ok u → S.lookup u j ≡ durable t j
