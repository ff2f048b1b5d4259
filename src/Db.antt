-- ===== src/Db.antt =====
-- src/polodb_core/db: the operations of the database on the store and the machine, the cursor of a client, and what
-- a query answers with.
pub mod ClientCursor
pub mod QueryAll
pub mod Backend
pub mod Transaction
mod Examples
pub mod Names
pub mod Collections
pub mod Indexes
pub mod Write
pub mod Read
pub mod Durable
pub mod Action
pub mod TxnCollection
pub mod Collection
