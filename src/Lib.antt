-- ===== src/Lib.antt =====
-- PoloDB, an embedded document database with a MongoDB-like interface.
--
-- A client calls a collection (src/polodb_core/coll), which calls the database
-- (src/polodb_core/db/db_inner.rs). A query, an update or an aggregation is compiled
-- (src/polodb_core/vm/codegen.rs, vm/subprogram.rs) to bytecode and run by a virtual machine
-- (vm/vm.rs), which scans the RocksDB store through cursors and keeps the indexes up to date. The
-- server (src/polodb) speaks the wire protocol in front of the same database.
--
-- Which file models which part:
--   Prelude          numbers, integers of a width, bytes and lists, for all the others
--   Errors           the errors of src/polodb_core/errors.rs, and the outcome of a call: a value, an
--                    error or a panic
--   Bson             the values of the bson crate that the code matches on. Text is its UTF-8 bytes, a
--                    double its bit pattern, an integer a ℤ; `IsKey` and `Fits` bound them where it matters
--   Bson.Platform    what the code takes from outside: the map operations of `bson::Document` with
--                    their laws, f64 arithmetic, whether the build checks overflow; Bson.Entries is
--                    an instance to run on
--   Keys             src/polodb_core/utils/bson.rs: stacked_key_bytes, stacked_key, split_stacked_keys
--   Compare          src/polodb_core/utils/bson.rs: value_cmp; src/polodb_core/vm/op.rs: generic_cmp
--   FieldPath        src/polodb_core/utils/bson.rs: try_get_document_value
--   UpdateOperators  src/polodb_core/vm/update_operators; a step takes the document and the flag
--                    `updated` and returns both
--   Store            the interface of the ordered store behind src/polodb_core/db/rocksdb_transaction.rs
--                    and rocksdb_iterator.rs, what a seek in it finds, and an instance to run on
--   Scan             src/polodb_core/cursor.rs
--   Index            src/polodb_core/index/index_helper.rs, index_builder.rs, index_model.rs, and
--                    `IndexInfo` of src/polodb_core/coll/collection_info.rs
--   Pipeline         src/polodb_core/vm/vm_count.rs, vm_limit.rs, vm_skip.rs, vm_unset.rs, vm_add_fields.rs,
--                    vm_group.rs, vm_sort.rs and the operators under src/polodb_core/vm/operators
--   LineDiff         src/polodb_line_diff
--   Vm               src/polodb_core/vm/vm.rs and op.rs (Op, Machine, Cursors, Values, Calls, Arms, Execute), the
--                    program of subprogram.rs (Program, Label), and the compiler: codegen.rs, label.rs and
--                    the `compile_*` functions of subprogram.rs (Codegen); Codegen.Labels follows the labels
--                    and the jumps through every emitter
--   Db               src/polodb_core/db/client_cursor.rs (ClientCursor), a query for all documents end to end (QueryAll),
--                    src/polodb_core/db/db_inner.rs (Names, Collections, Indexes, Write, Read) over
--                    src/polodb_core/transaction/transaction_inner.rs (Transaction), the queries of
--                    src/polodb_core/action (Action), and src/polodb_core/coll/collection.rs and
--                    txn_collection.rs (Collection, TxnCollection); Backend is what they take from outside
--   Wire             src/polodb/wire/header.rs; the reader of integers is an argument
--   Server           src/polodb/app_context.rs and session_context.rs; a session is an address of the heap
--                    of transactions
--   Store.Durable    what a commit makes durable, an interface beside the store; Index.Durable, Vm.Durable, Db.Durable and
--                    Db.Collection.Atomic follow it through the entries of indexes, the instructions and the operations
--
-- Mutable state is passed on explicitly. The loops over a document or a list are structural; the loop
-- of split_stacked_keys has the buffer's length as fuel, which is enough because a round reads a byte
-- at least (Keys.Total). The backtracking of the line diff has the lines of both texts as fuel, of which a
-- round takes one at least. The loop over a cursor (Scan.Loop.scan) and the loop of the index builder
-- take their fuel as an argument; the first needs as many rounds as there are keys in the store.
-- `execute` and the rows of a client take fuel too: a program may loop for ever, and a run that ends within
-- its fuel is the same with more fuel (Vm.Execute.Fuel). Seven instructions are enough for a row of a
-- query for all documents, and a call more than there are keys for all of them (Db.QueryAll).
--
-- The machine is a record, `pc` an offset and the stack a list with its top in front. A read behind the end
-- of the code, undefined in the source, is a panic. An instruction that fails keeps what it wrote to the
-- transaction before its error; its cursor and its stack are left as they were before it. The compiler is a state monad
-- over the program that is built; its positions are taken modulo 2 ^ 32 as the source does.
--
-- An operation of the database takes the transaction as its state and gives it back with the outcome, so that what
-- is written before an error stays (Errors.Kept), also by the index builder and by the machine; a put or a deletion
-- of one entry that fails is taken to write nothing, and of what a commit or a rollback that fails leaves
-- nothing is known (the fields `failed_commit` and `failed_rollback` of Store). A transaction that begins sees the state it is given; transactions that
-- run at the same time are left to the store. The specification of a collection is its name and its
-- indexes, without uuid and time of creation, and its encoding is an argument.
--
-- Not modelled: RocksDB and its bindings, the bson crate's own encoding, sockets and file locks, the
-- rendering of errors and values as text, the printing of a program, the metrics, the Python binding.
pub mod Prelude
pub mod Errors
pub mod Bson
pub mod Keys
pub mod Compare
pub mod FieldPath
pub mod UpdateOperators
pub mod Store
pub mod Index
pub mod Scan
pub mod LineDiff
pub mod Pipeline
pub mod Vm
pub mod Db
pub mod Wire
pub mod Server
