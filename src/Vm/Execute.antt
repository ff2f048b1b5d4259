-- ===== src/Vm/Execute.antt =====
-- `execute` of vm.rs: the fetch of an opcode, its arm, and the loop. An arm under `try_vm!` halts the
-- machine on an error; `DeleteCurrent`, the two index instructions, `Close` and `Regex` return it by `?`.
pub mod Fuel
pub mod States
use polo_db.Prelude.{
  ℕ, zero, suc, ◌+◌, Bool, true, false, Option, none, some, if◌then◌else◌, get_elem?,
}
use polo_db.Prelude.Int.{ℤ}
use polo_db.Errors.{Error, Outcome, ok, vm_is_halt}
use polo_db.Bson.{Bson, Document, null, boolean, document, end}
use polo_db.Bson.Platform.{Platform}
use polo_db.Compare.{CmpOp}
use polo_db.Index.{IndexHelperOperation}
use polo_db.Vm.Op.{DbOp, decode}
use polo_db.Vm.World.{World}
use polo_db.Vm.Machine.{Vm, VmState, Signal, advance, finish, try_vm, finish_kept, try_kept}
use polo_db.Vm.Cursors.{update_current, delete_current}
use polo_db.Vm.Values.{
  array_size, array_push, array_pop_first, array_pop_last, compare_top, in_array, equal_null,
}
use polo_db.Vm.Calls.{ret, call_update_operator, external_is_completed}
use polo_db.Vm.Arms.{
  branch, simple, with_operand, change_index_arm, goto_arm, inc_arm, inc_r2_arm, if_true_arm,
  if_false_arm, rewind_arm, find_by_primary_key_arm, find_by_index_arm, next_arm,
  next_index_value_arm, push_value_arm, push_const_arm, push_r0_arm, store_r0_arm, store_r0_2_arm,
  get_field_arm, unset_field_arm, set_field_arm, dup_arm, pop_arm, pop2_arm, not_arm, open_arm,
  save_stack_pos_arm, recover_stack_pos_arm, call_arm, call_external_arm, ret_arm, if_false_ret_arm,
  load_global_arm, store_global_arm, result_row_arm, halt_arm, close_arm, regex_arm,
}

unfoldable pub is_halt : VmState → Bool
is_halt VmState.halt = true
is_halt VmState.init = false
is_halt VmState.running = false
is_halt VmState.has_row = false

module _ (W : World) where
  unfoldable pub step : DbOp → Vm W → Vm W × Signal
  unfolding goto_arm inc_arm inc_r2_arm if_true_arm if_false_arm rewind_arm find_by_primary_key_arm
      find_by_index_arm next_arm next_index_value_arm push_value_arm push_const_arm push_r0_arm
      store_r0_arm store_r0_2_arm get_field_arm unset_field_arm set_field_arm dup_arm pop_arm
      pop2_arm not_arm open_arm save_stack_pos_arm recover_stack_pos_arm call_arm call_external_arm
      ret_arm if_false_ret_arm load_global_arm store_global_arm result_row_arm halt_arm close_arm
      regex_arm array_size array_push array_pop_first array_pop_last compare_top in_array equal_null
      update_current delete_current change_index_arm ret call_update_operator external_is_completed
  step DbOp.goto vm = try_vm W vm (goto_arm W vm)
  step DbOp.label vm = (advance W 5 vm, Signal.go)
  step DbOp.inc vm = try_vm W vm (inc_arm W vm)
  step DbOp.inc_r2 vm = try_vm W vm (inc_r2_arm W vm)
  step DbOp.if_true vm = try_vm W vm (if_true_arm W vm)
  step DbOp.if_false vm = try_vm W vm (if_false_arm W vm)
  step DbOp.rewind vm = try_vm W vm (rewind_arm W vm)
  step DbOp.find_by_primary_key vm = try_vm W vm (find_by_primary_key_arm W vm)
  step DbOp.find_by_index vm = try_vm W vm (find_by_index_arm W vm)
  step DbOp.next vm = try_vm W vm (next_arm W vm)
  step DbOp.next_index_value vm = try_vm W vm (next_index_value_arm W vm)
  step DbOp.push_value vm = try_vm W vm (push_value_arm W vm)
  step DbOp.push_null vm = try_vm W vm (push_const_arm W null vm)
  step DbOp.push_true vm = try_vm W vm (push_const_arm W (boolean true) vm)
  step DbOp.push_false vm = try_vm W vm (push_const_arm W (boolean false) vm)
  step DbOp.push_document vm = try_vm W vm (push_const_arm W (document end) vm)
  step DbOp.push_r0 vm = try_vm W vm (push_r0_arm W vm)
  step DbOp.store_r0 vm = try_vm W vm (store_r0_arm W vm)
  step DbOp.store_r0_2 vm = try_vm W vm (store_r0_2_arm W vm)
  step DbOp.get_field vm = try_vm W vm (get_field_arm W vm)
  step DbOp.unset_field vm = try_vm W vm (unset_field_arm W vm)
  step DbOp.set_field vm = try_vm W vm (set_field_arm W vm)
  step DbOp.array_size vm = try_vm W vm (simple W (array_size W) vm)
  step DbOp.array_push vm = try_vm W vm (simple W (array_push W) vm)
  step DbOp.array_pop_first vm = try_vm W vm (simple W (array_pop_first W) vm)
  step DbOp.array_pop_last vm = try_vm W vm (simple W (array_pop_last W) vm)
  step DbOp.update_current vm = try_kept W 1 (update_current W vm)
  step DbOp.delete_current vm = finish_kept W 1 (delete_current W vm)
  step DbOp.insert_index vm = change_index_arm W IndexHelperOperation.insert vm
  step DbOp.delete_index vm = change_index_arm W IndexHelperOperation.delete vm
  step DbOp.dup vm = try_vm W vm (dup_arm W vm)
  step DbOp.pop vm = try_vm W vm (pop_arm W vm)
  step DbOp.pop2 vm = try_vm W vm (pop2_arm W vm)
  step DbOp.equal vm = try_vm W vm (simple W (compare_top W CmpOp.equal) vm)
  step DbOp.greater vm = try_vm W vm (simple W (compare_top W CmpOp.greater) vm)
  step DbOp.greater_equal vm = try_vm W vm (simple W (compare_top W CmpOp.greater_equal) vm)
  step DbOp.less vm = try_vm W vm (simple W (compare_top W CmpOp.less) vm)
  step DbOp.less_equal vm = try_vm W vm (simple W (compare_top W CmpOp.less_equal) vm)
  step DbOp.in_array vm = try_vm W vm (simple W (in_array W) vm)
  step DbOp.equal_null vm = try_vm W vm (simple W (equal_null W) vm)
  step DbOp.regex vm = regex_arm W vm
  step DbOp.not vm = try_vm W vm (not_arm W vm)
  step DbOp.open_read vm = try_vm W vm (open_arm W vm)
  step DbOp.open_write vm = try_vm W vm (open_arm W vm)
  step DbOp.result_row vm = result_row_arm W vm
  step DbOp.close vm = close_arm W vm
  step DbOp.save_stack_pos vm = try_vm W vm (save_stack_pos_arm W vm)
  step DbOp.recover_stack_pos vm = try_vm W vm (recover_stack_pos_arm W vm)
  step DbOp.call vm = try_vm W vm (call_arm W vm)
  step DbOp.call_external vm = try_vm W vm (call_external_arm W vm)
  step DbOp.call_update_operator vm = try_vm W vm (with_operand W (call_update_operator W) vm)
  step DbOp.external_is_completed vm = try_vm W vm (with_operand W (external_is_completed W) vm)
  step DbOp.ret0 vm = try_vm W vm (ret W 0 vm)
  step DbOp.ret vm = try_vm W vm (ret_arm W vm)
  step DbOp.if_false_ret vm = try_vm W vm (if_false_ret_arm W vm)
  step DbOp.load_global vm = try_vm W vm (load_global_arm W vm)
  step DbOp.store_global vm = try_vm W vm (store_global_arm W vm)
  step DbOp.eof vm = halt_arm W vm
  step DbOp.halt vm = halt_arm W vm

  -- The opcode at `pc`.
  unfoldable pub fetch : Vm W → Option DbOp
  unfolding decode
  fetch vm = elim (get_elem? vm.program.instructions vm.pc) [ none ↦ none | some b ↦ decode b ]

  -- One turn of the loop.
  unfoldable pub turn : Vm W → Vm W × Signal
  unfolding fetch step
  turn vm = elim (fetch vm) [ none ↦ (vm, Signal.panicked) | some op ↦ step op vm ]

  -- The rest of the loop behind a turn.
  abbrev pub resumed : (Vm W → Vm W × Signal) → Vm W × Signal → Vm W × Signal
  resumed rest (next, Signal.go) = rest next
  resumed rest (next, Signal.stop) = (next, Signal.stop)
  resumed rest (next, Signal.failed e) = (next, Signal.failed e)
  resumed rest (next, Signal.panicked) = (next, Signal.panicked)

  -- The loop, for at most so many instructions; the signal `go` is left when they are used up.
  unfoldable pub run : ℕ → Vm W → Vm W × Signal
  unfolding turn
  run zero vm = (vm, Signal.go)
  run (suc fuel) vm = resumed (run fuel) (turn vm)

  unfoldable pub execute : ℕ → Vm W → Vm W × Signal
  unfolding is_halt run
  execute fuel vm =
      if is_halt vm.state
      then (vm, Signal.failed vm_is_halt)
      else run fuel (record vm { state = VmState.running })
