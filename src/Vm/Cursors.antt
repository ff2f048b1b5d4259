-- ===== src/Vm/Cursors.antt =====
-- The actions of vm.rs on the cursor, the store and the indexes.
use polo_db.Prelude.{
  ℕ, Bool, true, false, ◌&&◌, ltb, Option, none, some, List, [], ◌∷◌, if◌then◌else◌, length,
  get_elem?, not,
}
use polo_db.Prelude.Int.{ℤ, pos, ◌+ℤ◌}
use polo_db.Prelude.Bytes.{Bytes, str, str_eq, starts_with}
use polo_db.Errors.{Outcome, ok, panic, ◌>>=◌, map_ok, unwrap}
use polo_db.Errors.Kept.{Kept, written, given}
use polo_db.Bson.{Bson, Document, document, string, binary}
use polo_db.Keys.{stacked_key, stacked_key_bytes, split_stacked_keys}
use polo_db.UpdateOperators.Arithmetic.{machine_int}
use polo_db.Scan.{
  Cursor, make_index_key_with_query_key, has_next, peek_key, copy_data, reset, reset_by_pkey,
  reset_by_index_value,
}
use polo_db.Scan
use polo_db.Index.{IndexHelperOperation, execute_indexes}
use polo_db.Vm.World.{World}
use polo_db.Vm.Machine.{Vm, push, set_r0, r0_is_true, stack_at}

unfoldable pub prefix_bytes_from_bson : Bson → Outcome Bytes
unfolding stacked_key_bytes
prefix_bytes_from_bson (string s) = stacked_key_bytes [] (string s)
prefix_bytes_from_bson (binary _ bytes) = ok bytes
prefix_bytes_from_bson _ = panic

-- `last()` and `as_document()`
abbrev last_of : {A : Type 0} → List A → Option A
last_of [] = none
last_of (x ∷ []) = some x
last_of (x ∷ y ∷ xs) = last_of (y ∷ xs)

abbrev pub as_document : Bson → Outcome Document
as_document (document doc) = ok doc
as_document _ = panic

module _ (W : World) where
  open W use {platform, store, from_slice, to_vec}

  -- `open_read` and `open_write`; the new iterator stands on the first key of the store.
  unfoldable pub open_cursor : Bson → Vm W → Outcome (Vm W)
  unfolding prefix_bytes_from_bson
  open_cursor prefix vm = do
    bytes ← prefix_bytes_from_bson prefix
    ok record vm {
      r1 =
          some record { prefix_bytes = bytes; position = store.seek vm.txn []; current_key = none };
    }

  -- The document at the cursor, pushed.
  unfoldable pub push_current : Cursor → Vm W → Outcome (Vm W)
  push_current cursor vm = do
    item ← copy_data store vm.txn cursor
    doc ← from_slice item
    ok (push W (document doc) (record vm { r1 = some cursor }))

  -- Whether the scan is empty.
  unfoldable pub reset_cursor : Vm W → Outcome (Vm W × Bool)
  unfolding push_current
  reset_cursor vm = do
    old ← unwrap vm.r1
    let cursor = reset store vm.txn old
    if has_next cursor
        then map_ok (λ next. (next, false)) (push_current cursor vm)
        else ok (record vm { r1 = some cursor }, true)

  -- Whether the key was found.
  unfoldable pub find_by_primary_key : Vm W → Outcome (Vm W × Bool)
  unfolding push_current
  find_by_primary_key vm = do
    cursor ← unwrap vm.r1
    op ← stack_at W vm 0
    (found, result) ← reset_by_pkey store vm.txn op cursor
    if result
        then map_ok (λ next. (next, true)) (push_current found vm)
        else ok (record vm { r1 = some found }, false)

  -- The document that an entry of an index leads to.
  unfoldable pub read_index_value_by_index_key : Bytes → Vm W → Outcome (Option Bson)
  read_index_value_by_index_key index_key vm = do
    slices ← split_stacked_keys index_key
    pkey ← unwrap (last_of slices)
    col_name ← unwrap (get_elem? slices 1)
    pkey_in_kv ← stacked_key (col_name ∷ pkey ∷ [])
    elim (store.seek vm.txn pkey_in_kv) [
      | none ↦ ok none
      | some current_key ↦
          if str_eq current_key pkey_in_kv
          then (do
            buf ← unwrap (store.lookup vm.txn current_key)
            doc ← from_slice buf
            ok (some (document doc)))
          else ok none
    ]

  -- The counter of the metrics is not kept.
  abbrev push_found : Vm W → Option Bson → Outcome (Vm W × Bool)
  push_found vm none = ok (vm, false)
  push_found vm (some value) = ok (push W value vm, true)

  unfoldable pub find_by_index : Vm W → Outcome (Vm W × Bool)
  unfolding read_index_value_by_index_key
  find_by_index vm = do
    query_value ← stack_at W vm 1
    cursor ← unwrap vm.r1
    (found, result) ← reset_by_index_value store vm.txn query_value cursor
    let next = record vm { r1 = some found; index_value = some query_value }
    if not result then ok (next, false) else (do
      key ← unwrap (peek_key found)
      value ← read_index_value_by_index_key key next
      push_found next value)

  -- In a checked build the stack may not grow past 64 values here.
  unfoldable pub next_row : Vm W → Outcome (Vm W)
  unfolding push_current
  next_row vm = do
    old ← unwrap vm.r1
    cursor ← Scan.next store vm.txn old
    if has_next cursor
        then (do
          next ← push_current cursor vm
          if platform.overflow_checks && ltb 64 (length next.stack)
              then panic
              else ok (set_r0 W true next))
        else ok (set_r0 W false (record vm { r1 = some cursor }))

  -- The next entry of the index, if it is one of the value that is looked for.
  unfoldable pub next_index_entry : Bytes → Cursor → Vm W → Outcome (Vm W)
  unfolding read_index_value_by_index_key
  next_index_entry current_key cursor vm = do
    index_value ← unwrap vm.index_value
    key_buffer ← make_index_key_with_query_key cursor.prefix_bytes index_value
    if not (starts_with current_key key_buffer) then ok (set_r0 W false vm) else (do
      value ← read_index_value_by_index_key current_key vm
      elim value [ none ↦ ok (set_r0 W false vm) | some doc ↦ ok (set_r0 W true (push W doc vm)) ])

  unfoldable pub next_index_value : Vm W → Outcome (Vm W)
  unfolding next_index_entry
  next_index_value vm = do
    old ← unwrap vm.r1
    cursor ← Scan.next store vm.txn old
    let next = record vm { r1 = some cursor }
    elim (peek_key cursor) [
      | none ↦ ok (set_r0 W false next)
      | some current_key ↦ next_index_entry current_key cursor next
    ]

  -- `+= 1` on a register of 64 bits.
  abbrev pub add_one : ℤ → Outcome ℤ
  add_one n = machine_int platform 63 (n +ℤ pos 1)

  -- Nothing is written where r0 says that no operator changed the document.
  unfoldable pub update_current : Vm W → Kept (Vm W)
  update_current vm =
      let put_at_cursor = (do
        top_value ← stack_at W vm 0
        doc ← as_document top_value
        doc_buf ← to_vec doc
        cursor ← unwrap vm.r1
        Scan.update_current store vm.txn doc_buf cursor) in
      if not (r0_is_true W vm)
      then (vm, ok tt)
      else given vm put_at_cursor (λ (txn, updated).
        let next = record vm { txn = txn } in
        given next (if updated then add_one vm.r4 else ok vm.r4)
          (λ r4. (record next { r4 = r4 }, ok tt)))

  unfoldable pub delete_current : Vm W → Kept (Vm W)
  delete_current vm = given vm (unwrap vm.r1) (λ cursor. elim (peek_key cursor) [
    | none ↦ (vm, ok tt)
    | some key ↦ given vm (store.delete vm.txn key) (λ txn.
        let next = record vm { txn = txn } in
        given next (add_one vm.r2) (λ r2. (record next { r2 = r2 }, ok tt)))
  ])

  -- The machine with the transaction that a step leaves.
  abbrev pub with_txn : Vm W → Kept store.Txn → Kept (Vm W)
  with_txn vm kept = (record vm { txn = kept.0 }, kept.1)

  -- `insert_index` and `delete_index`: the entries that are written before an index refuses stay.
  unfoldable pub change_index : IndexHelperOperation → ℕ → Vm W → Kept (Vm W)
  change_index op index_info_id vm =
      given vm (unwrap (get_elem? vm.program.index_infos index_info_id)) (λ info.
        let top_doc = (do top_value ← stack_at W vm 0; as_document top_value) in
        given vm top_doc (λ data_doc. given vm (unwrap (platform.get data_doc (str "_id"))) (λ pkey.
          with_txn vm
            (execute_indexes platform store op data_doc info.col_name pkey info.indexes vm.txn))))

  -- `Close`: the cursor goes first, and stays gone if the commit fails.
  unfoldable pub close_txn : Vm W → Kept (Vm W)
  close_txn vm =
      if vm.auto_commit
      then with_txn vm (written (store.failed_commit vm.txn) (store.commit vm.txn))
      else (vm, ok tt)
