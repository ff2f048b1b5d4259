-- ===== src/Vm/Arms.antt =====
-- The arms of `execute` in vm.rs, one per instruction or group of instructions. Each reads its operands,
-- acts, and leaves `pc` on the next instruction.
use polo_db.Prelude.Int.{pos}
use polo_db.Bson.{Bson, int32}
use polo_db.Vm.Calls.{call, ret, call_external}
use polo_db.Prelude.{
  ℕ, ◌+◌, ◌-◌, leb, Bool, false, none, List, [], ◌∷◌, if◌then◌else◌, length, get_elem?, not,
}
use polo_db.Errors.{Outcome, ok, panic, ◌>>=◌, map_ok, unwrap}
use polo_db.Errors.Kept.{given}
use polo_db.Index.{IndexHelperOperation}
use polo_db.Vm.World.{World}
use polo_db.Vm.Machine.{
  Vm, VmState, Signal, push, advance, reset_location, set_r0, r0_is_true, stack_at, borrow_static,
  operand, resize, put_at, finish, finish_kept,
}
use polo_db.Vm.Cursors.{
  open_cursor, reset_cursor, find_by_primary_key, find_by_index, next_row, next_index_value,
  add_one, close_txn, change_index,
}
use polo_db.Vm.Values.{inc, store_r0, get_field, unset_field, set_field, regex}

module _ (W : World) where
  open W use {platform}

  -- An instruction of five bytes that jumps or goes on.
  abbrev pub branch : Bool → Vm W → Outcome (Vm W)
  branch taken vm = do
    location ← operand W 1 vm
    ok (if taken then reset_location W location vm else advance W 5 vm)

  -- An instruction of one byte, and one of five bytes with an operand.
  abbrev pub simple : (Vm W → Outcome (Vm W)) → Vm W → Outcome (Vm W)
  simple act vm = map_ok (advance W 1) (act vm)

  abbrev pub with_operand : (ℕ → Vm W → Outcome (Vm W)) → Vm W → Outcome (Vm W)
  with_operand act vm = do id ← operand W 1 vm; map_ok (advance W 5) (act id vm)

  unfoldable pub goto_arm : Vm W → Outcome (Vm W)
  goto_arm vm = do location ← operand W 1 vm; ok (reset_location W location vm)

  unfoldable pub inc_arm : Vm W → Outcome (Vm W)
  unfolding inc
  inc_arm vm = simple (inc W) vm

  unfoldable pub inc_r2_arm : Vm W → Outcome (Vm W)
  inc_r2_arm vm = do r2 ← add_one W vm.r2; ok (advance W 1 (record vm { r2 = r2 }))

  unfoldable pub if_true_arm : Vm W → Outcome (Vm W)
  if_true_arm vm = branch (r0_is_true W vm) vm

  unfoldable pub if_false_arm : Vm W → Outcome (Vm W)
  if_false_arm vm = branch (not (r0_is_true W vm)) vm

  unfoldable pub rewind_arm : Vm W → Outcome (Vm W)
  unfolding reset_cursor
  rewind_arm vm = do (next, is_empty) ← reset_cursor W vm; branch is_empty next

  unfoldable pub find_by_primary_key_arm : Vm W → Outcome (Vm W)
  unfolding find_by_primary_key
  find_by_primary_key_arm vm = do (next, found) ← find_by_primary_key W vm; branch (not found) next

  unfoldable pub find_by_index_arm : Vm W → Outcome (Vm W)
  unfolding find_by_index
  find_by_index_arm vm = do (next, found) ← find_by_index W vm; branch (not found) next

  unfoldable pub next_arm : Vm W → Outcome (Vm W)
  unfolding next_row
  next_arm vm = do next ← next_row W vm; branch (r0_is_true W next) next

  unfoldable pub next_index_value_arm : Vm W → Outcome (Vm W)
  unfolding next_index_value
  next_index_value_arm vm = do next ← next_index_value W vm; branch (r0_is_true W next) next

  unfoldable pub push_value_arm : Vm W → Outcome (Vm W)
  push_value_arm vm =
      with_operand (λ id vm. do value ← borrow_static W vm id; ok (push W value vm)) vm

  -- `PushNull`, `PushTrue`, `PushFalse` and `PushDocument`
  unfoldable pub push_const_arm : Bson → Vm W → Outcome (Vm W)
  push_const_arm value vm = ok (advance W 1 (push W value vm))

  unfoldable pub push_r0_arm : Vm W → Outcome (Vm W)
  push_r0_arm vm = ok (advance W 1 (push W (int32 vm.r0) vm))

  unfoldable pub store_r0_arm : Vm W → Outcome (Vm W)
  unfolding store_r0
  store_r0_arm vm = simple (store_r0 W) vm

  unfoldable pub store_r0_2_arm : Vm W → Outcome (Vm W)
  store_r0_2_arm vm = do
    byte ← unwrap (get_elem? vm.program.instructions (vm.pc + 1))
    ok (advance W 2 (record vm { r0 = pos byte }))

  unfoldable pub get_field_arm : Vm W → Outcome (Vm W)
  unfolding get_field
  get_field_arm vm = do
    key_stat_id ← operand W 1 vm
    location ← operand W 5 vm
    (next, found) ← get_field W key_stat_id vm
    ok (if found then advance W 9 next else reset_location W location next)

  unfoldable pub unset_field_arm : Vm W → Outcome (Vm W)
  unfolding unset_field
  unset_field_arm vm = with_operand (unset_field W) vm

  unfoldable pub set_field_arm : Vm W → Outcome (Vm W)
  unfolding set_field
  set_field_arm vm = with_operand (set_field W) vm

  unfoldable pub dup_arm : Vm W → Outcome (Vm W)
  dup_arm vm = do top ← stack_at W vm 0; ok (advance W 1 (push W top vm))

  abbrev below_top : List Bson → List Bson
  below_top [] = []
  below_top (v ∷ stack) = stack

  unfoldable pub pop_arm : Vm W → Outcome (Vm W)
  pop_arm vm = ok (advance W 1 (record vm { stack = below_top vm.stack }))

  -- `len - offset` below 0 is a panic: unchecked, it wraps around to a capacity overflow.
  unfoldable pub pop2_arm : Vm W → Outcome (Vm W)
  unfolding resize
  pop2_arm vm = do
    offset ← operand W 1 vm
    if leb offset (length vm.stack)
        then ok (advance W 5 (record vm { stack = resize (length vm.stack - offset) vm.stack }))
        else panic

  unfoldable pub not_arm : Vm W → Outcome (Vm W)
  not_arm vm = ok (advance W 1 (set_r0 W (not (r0_is_true W vm)) vm))

  -- `OpenRead` and `OpenWrite`
  unfoldable pub open_arm : Vm W → Outcome (Vm W)
  unfolding open_cursor
  open_arm vm =
      with_operand (λ id vm. do prefix ← borrow_static W vm id; open_cursor W prefix vm) vm

  unfoldable pub save_stack_pos_arm : Vm W → Outcome (Vm W)
  save_stack_pos_arm vm = ok (advance W 1 (record vm { r3 = length vm.stack }))

  unfoldable pub recover_stack_pos_arm : Vm W → Outcome (Vm W)
  unfolding resize
  recover_stack_pos_arm vm = ok (advance W 1 (record vm { stack = resize vm.r3 vm.stack }))

  unfoldable pub call_arm : Vm W → Outcome (Vm W)
  unfolding call
  call_arm vm = do
    location ← operand W 1 vm
    size_of_param ← operand W 5 vm
    call W location size_of_param vm

  unfoldable pub call_external_arm : Vm W → Outcome (Vm W)
  unfolding call_external
  call_external_arm vm = do
    id ← operand W 1 vm
    size_of_param ← operand W 5 vm
    map_ok (advance W 9) (call_external W id size_of_param vm)

  unfoldable pub ret_arm : Vm W → Outcome (Vm W)
  unfolding ret
  ret_arm vm = do return_size ← operand W 1 vm; ret W return_size vm

  unfoldable pub if_false_ret_arm : Vm W → Outcome (Vm W)
  unfolding ret
  if_false_ret_arm vm = do
    return_size ← operand W 1 vm
    if r0_is_true W vm then ok (advance W 5 vm) else ret W return_size vm

  unfoldable pub load_global_arm : Vm W → Outcome (Vm W)
  load_global_arm vm =
      with_operand (λ id vm. do v ← unwrap (get_elem? vm.global_vars id); ok (push W v vm)) vm

  unfoldable pub store_global_arm : Vm W → Outcome (Vm W)
  store_global_arm vm =
      with_operand
        (λ id vm. do
          top ← stack_at W vm 0
          globals ← put_at vm.global_vars id top
          ok record vm { global_vars = globals })
        vm

  unfoldable pub result_row_arm : Vm W → Vm W × Signal
  result_row_arm vm = (record vm { pc = vm.pc + 1; state = VmState.has_row }, Signal.stop)

  -- `_EOF` and `Halt`
  unfoldable pub halt_arm : Vm W → Vm W × Signal
  halt_arm vm = (record vm { r1 = none; state = VmState.halt }, Signal.stop)

  -- The cursor goes first, and stays gone if the commit fails.
  unfoldable pub close_arm : Vm W → Vm W × Signal
  unfolding close_txn
  close_arm vm = finish_kept W 1 (close_txn W (record vm { r1 = none }))

  -- `InsertIndex` and `DeleteIndex`
  unfoldable pub change_index_arm : IndexHelperOperation → Vm W → Vm W × Signal
  unfolding change_index
  change_index_arm op vm =
      finish_kept W 5 (given vm (operand W 1 vm) (λ id. change_index W op id vm))

  -- r0 is 0 before the match, also where it fails; the failure leaves the machine running.
  unfoldable pub regex_arm : Vm W → Vm W × Signal
  unfolding regex
  regex_arm vm = finish W (set_r0 W false vm) (simple (regex W) vm)
