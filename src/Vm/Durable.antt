-- ===== src/Vm/Durable.antt =====
-- The instructions of src/polodb_core/vm/vm.rs and what is durable, for a machine that does not commit by itself.
use polo_db.Prelude.{
  arith, not, get_elem?, Option-cases, Bool-cases, inl, inr, ℕ, zero, suc, ◌≡◌, refl, ◌∙◌, false,
  if◌then◌else◌,
}
use polo_db.Prelude.Bytes.{Bytes, str}
use polo_db.Errors.{Outcome, ok, err, panic, unwrap, ◌>>=◌, On, On->>=, On-chain}
use polo_db.Errors.Kept.{Kept, given, given-kept}
use polo_db.Store.Durable.{Durability}
use polo_db.Index.{IndexHelperOperation}
use polo_db.Index.Durable.{Quiet, put-Quiet, delete-Quiet, execute_indexes-Quiet}
use polo_db.Scan
use polo_db.Scan.{Cursor, peek_key}
use polo_db.Vm.World.{World}
use polo_db.Vm.Machine.{Vm, VmState, Signal, finish_kept, try_kept, operand, stack_at, r0_is_true}
use polo_db.Vm.Op.{DbOp}
use polo_db.Vm.Execute.{step, fetch, turn, run, resumed, execute, is_halt}
use polo_db.Vm.Cursors.{
  reset_cursor, find_by_primary_key, find_by_index, next_row, next_index_value, next_index_entry,
  push_current, open_cursor, update_current, delete_current, change_index, close_txn, as_document,
  add_one,
}
use polo_db.Vm.Values.{
  inc, store_r0, get_field, unset_field, set_field, regex, array_size, array_push, array_pop_first,
  array_pop_last, compare_top, in_array, equal_null,
}
use polo_db.Vm.Calls.{
  ret, return_to, call, call_external, call_update_operator, external_is_completed,
}
use polo_db.Vm.Arms.{
  goto_arm, inc_arm, inc_r2_arm, if_true_arm, if_false_arm, rewind_arm, find_by_primary_key_arm,
  find_by_index_arm, next_arm, next_index_value_arm, push_value_arm, push_const_arm, push_r0_arm,
  store_r0_arm, store_r0_2_arm, get_field_arm, unset_field_arm, set_field_arm, dup_arm, pop_arm,
  pop2_arm, not_arm, open_arm, save_stack_pos_arm, recover_stack_pos_arm, call_arm,
  call_external_arm, ret_arm, if_false_ret_arm, load_global_arm, store_global_arm, result_row_arm,
  halt_arm, close_arm, regex_arm, change_index_arm,
}

module _ (W : World) (D : Durability W.store) where
  open W use {store, platform}
  open D use {durable}

  abbrev Same : Vm W → Vm W → Type 0
  Same vm next =
      (next.auto_commit ≡ vm.auto_commit) × ((j : Bytes) → durable next.txn j ≡ durable vm.txn j)

  try-Same :
      (vm : Vm W) (n : ℕ) (kept : Kept (Vm W)) → Same vm kept.0 → Same vm (try_kept W n kept).0
  try-Same vm n (next, ok _) h = h
  try-Same vm n (next, err e) h = h
  try-Same vm n (next, panic) h = h

  finish-Same :
      (vm : Vm W) (n : ℕ) (kept : Kept (Vm W)) → Same vm kept.0 → Same vm (finish_kept W n kept).0
  finish-Same vm n (next, ok _) h = h
  finish-Same vm n (next, err e) h = h
  finish-Same vm n (next, panic) h = h

  written-Same :
      (t : store.Txn) (value : Bytes) (cursor : Cursor)
      → On (λ r. Quiet store D t r.0) (Scan.update_current store t value cursor)
  unfolding Scan.update_current
  written-Same t value cursor = elim (Option-cases cursor.current_key) [
    | inl e ↦ rw e (λ j. refl)
    | inr (key, e) ↦ rw e (
        On-chain (Quiet store D t) (λ r. Quiet store D t r.0) (store.put t key value) _
          (put-Quiet store D t key value) (λ u q. q))
  ]

  -- The same with what holds of the value.
  given-Same :
      {A : Type 0} (P : A → Type 0) (vm at : Vm W) (m : Outcome A) (next : A → Kept (Vm W))
      → Same vm at
      → On P m
      → ((a : A) → P a → Same vm (next a).0)
      → Same vm (given at m next).0
  given-Same P vm at (ok a) next h p k = k a p
  given-Same P vm at (err e) next h p k = h
  given-Same P vm at panic next h p k = h

  update_current-Same : (vm : Vm W) → Same vm (update_current W vm).0
  unfolding update_current
  update_current-Same vm = elim (Bool-cases (not (r0_is_true W vm))) [
    | inl e ↦ rw e (refl, λ j. refl)
    | inr e ↦ rw e (
        given-Same (λ r. Quiet store D vm.txn r.0) vm vm _ _ (refl, λ j. refl)
          (On->>= _ (stack_at W vm 0) _ λ value. On->>= _ (as_document value) _ λ doc.
            On->>= _ (W.to_vec doc) _
              λ buf. On->>= _ (unwrap vm.r1) _ λ cursor. written-Same vm.txn buf cursor)
          λ r q.
            given-kept (Same vm) (record vm { txn = r.0 })
              (if r.1 then add_one W vm.r4 else ok vm.r4) _ (refl, q) λ r4. (refl, q))
  ]

  delete_current-Same : (vm : Vm W) → Same vm (delete_current W vm).0
  unfolding delete_current peek_key
  delete_current-Same vm =
      given-kept (Same vm) vm (unwrap vm.r1) _ (refl, λ j. refl)
        λ cursor. elim (Option-cases (peek_key cursor)) [
          | inl e ↦ rw e (refl, λ j. refl)
          | inr (key, e) ↦ rw e (
              given-Same (Quiet store D vm.txn) vm vm (store.delete vm.txn key) _ (refl, λ j. refl)
                (delete-Quiet store D vm.txn key)
                λ u q.
                  given-kept (Same vm) (record vm { txn = u }) (add_one W vm.r2) _ (refl, q)
                    λ r2. (refl, q))
        ]

  change_index-Same :
      (vm : Vm W) (op : IndexHelperOperation) (id : ℕ) → Same vm (change_index W op id vm).0
  unfolding change_index
  change_index-Same vm op id =
      let still : Same vm vm = (refl, λ j. refl) in
      given-kept (Same vm) vm (unwrap (get_elem? vm.program.index_infos id)) _ still λ info.
        given-kept (Same vm) vm (stack_at W vm 0 >>= as_document) _ still λ doc.
          given-kept (Same vm) vm (unwrap (platform.get doc (str "_id"))) _ still λ pkey. (
            refl,
            execute_indexes-Quiet store D platform op doc info.col_name pkey info.indexes vm.txn,
          )

  change_index_arm-Same :
      (vm : Vm W) (op : IndexHelperOperation) → Same vm (change_index_arm W op vm).0
  unfolding change_index_arm
  change_index_arm-Same vm op =
      finish-Same vm 5 (given vm (operand W 1 vm) (λ id. change_index W op id vm))
        (given-kept (Same vm) vm (operand W 1 vm) _ (refl, λ j. refl) (change_index-Same vm op))

  step-Same : (op : DbOp) (vm : Vm W) → vm.auto_commit ≡ false → Same vm (step W op vm).0
  unfolding step close_txn goto_arm inc_arm inc_r2_arm if_true_arm if_false_arm rewind_arm
      find_by_primary_key_arm find_by_index_arm next_arm next_index_value_arm push_value_arm
      push_const_arm push_r0_arm store_r0_arm store_r0_2_arm get_field_arm unset_field_arm
      set_field_arm dup_arm pop_arm pop2_arm not_arm open_arm save_stack_pos_arm
      recover_stack_pos_arm call_arm call_external_arm ret_arm if_false_ret_arm load_global_arm
      store_global_arm result_row_arm halt_arm close_arm regex_arm array_size array_push
      array_pop_first array_pop_last compare_top in_array equal_null ret call_update_operator
      external_is_completed inc store_r0 get_field unset_field set_field regex reset_cursor
      find_by_primary_key find_by_index next_row next_index_value next_index_entry push_current
      open_cursor call call_external return_to
  step-Same DbOp.eof vm quiet = ground arith
  step-Same DbOp.label vm quiet = ground arith
  step-Same DbOp.inc vm quiet = ground arith
  step-Same DbOp.inc_r2 vm quiet = ground arith
  step-Same DbOp.goto vm quiet = ground arith
  step-Same DbOp.if_true vm quiet = ground arith
  step-Same DbOp.if_false vm quiet = ground arith
  step-Same DbOp.rewind vm quiet = ground arith
  step-Same DbOp.find_by_primary_key vm quiet = ground arith
  step-Same DbOp.find_by_index vm quiet = ground arith
  step-Same DbOp.next vm quiet = ground arith
  step-Same DbOp.next_index_value vm quiet = ground arith
  step-Same DbOp.push_value vm quiet = ground arith
  step-Same DbOp.push_true vm quiet = ground arith
  step-Same DbOp.push_false vm quiet = ground arith
  step-Same DbOp.push_document vm quiet = ground arith
  step-Same DbOp.push_null vm quiet = ground arith
  step-Same DbOp.push_r0 vm quiet = ground arith
  step-Same DbOp.store_r0 vm quiet = ground arith
  step-Same DbOp.store_r0_2 vm quiet = ground arith
  step-Same DbOp.get_field vm quiet = ground arith
  step-Same DbOp.unset_field vm quiet = ground arith
  step-Same DbOp.set_field vm quiet = ground arith
  step-Same DbOp.array_size vm quiet = ground arith
  step-Same DbOp.array_push vm quiet = ground arith
  step-Same DbOp.array_pop_first vm quiet = ground arith
  step-Same DbOp.array_pop_last vm quiet = ground arith
  step-Same DbOp.update_current vm quiet = try-Same vm 1 _ (update_current-Same vm)
  step-Same DbOp.delete_current vm quiet = finish-Same vm 1 _ (delete_current-Same vm)
  step-Same DbOp.insert_index vm quiet = change_index_arm-Same vm IndexHelperOperation.insert
  step-Same DbOp.delete_index vm quiet = change_index_arm-Same vm IndexHelperOperation.delete
  step-Same DbOp.dup vm quiet = ground arith
  step-Same DbOp.pop vm quiet = ground arith
  step-Same DbOp.pop2 vm quiet = ground arith
  step-Same DbOp.equal vm quiet = ground arith
  step-Same DbOp.greater vm quiet = ground arith
  step-Same DbOp.greater_equal vm quiet = ground arith
  step-Same DbOp.less vm quiet = ground arith
  step-Same DbOp.less_equal vm quiet = ground arith
  step-Same DbOp.regex vm quiet = ground arith
  step-Same DbOp.not vm quiet = ground arith
  step-Same DbOp.in_array vm quiet = ground arith
  step-Same DbOp.equal_null vm quiet = ground arith
  step-Same DbOp.open_read vm quiet = ground arith
  step-Same DbOp.open_write vm quiet = ground arith
  step-Same DbOp.result_row vm quiet = ground arith
  step-Same DbOp.close vm quiet = ground (arith, quiet)
  step-Same DbOp.save_stack_pos vm quiet = ground arith
  step-Same DbOp.recover_stack_pos vm quiet = ground arith
  step-Same DbOp.call vm quiet = ground arith
  step-Same DbOp.call_external vm quiet = ground arith
  step-Same DbOp.call_update_operator vm quiet = ground arith
  step-Same DbOp.external_is_completed vm quiet = ground arith
  step-Same DbOp.ret0 vm quiet = ground arith
  step-Same DbOp.ret vm quiet = ground arith
  step-Same DbOp.if_false_ret vm quiet = ground arith
  step-Same DbOp.load_global vm quiet = ground arith
  step-Same DbOp.store_global vm quiet = ground arith
  step-Same DbOp.halt vm quiet = ground arith

  Same-trans : (vm next last : Vm W) → Same vm next → Same next last → Same vm last
  Same-trans vm next last (a, q) (b, r) = (b ∙ a, λ j. r j ∙ q j)

  turn-Same : (vm : Vm W) → vm.auto_commit ≡ false → Same vm (turn W vm).0
  unfolding turn
  turn-Same vm quiet = elim (Option-cases (fetch W vm)) [
    | inl e ↦ rw (turn, e) (refl, λ j. refl)
    | inr (op, e) ↦ rw (turn, e) (step-Same op vm quiet)
  ]

  resumed-Same :
      (vm : Vm W) (rest : Vm W → Vm W × Signal) (after : Vm W × Signal)
      → vm.auto_commit ≡ false
      → ((next : Vm W) → next.auto_commit ≡ false → Same next (rest next).0)
      → Same vm after.0
      → Same vm (resumed W rest after).0
  resumed-Same vm rest (next, Signal.go) quiet ih first =
      Same-trans vm next (rest next).0 first (ih next (first.0 ∙ quiet))
  resumed-Same vm rest (next, Signal.stop) quiet ih first = first
  resumed-Same vm rest (next, Signal.failed e) quiet ih first = first
  resumed-Same vm rest (next, Signal.panicked) quiet ih first = first

  run-Same : (fuel : ℕ) (vm : Vm W) → vm.auto_commit ≡ false → Same vm (run W fuel vm).0
  unfolding run
  run-Same zero vm quiet = (refl, λ j. refl)
  run-Same (suc fuel) vm quiet =
      resumed-Same vm (run W fuel) (turn W vm) quiet (run-Same fuel) (turn-Same vm quiet)

  -- However a run ends, a machine that does not commit by itself has made nothing durable.
  pub execute-durable :
      (fuel : ℕ) (vm : Vm W) (j : Bytes)
      → vm.auto_commit ≡ false
      → durable (execute W fuel vm).0.txn j ≡ durable vm.txn j
  unfolding execute
  execute-durable fuel vm j quiet = elim (Bool-cases (is_halt vm.state)) [
    | inl halted ↦ rw halted refl
    | inr alive ↦ rw alive ((run-Same fuel (record vm { state = VmState.running }) quiet).1 j)
  ]
