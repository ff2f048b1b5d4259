-- ===== src/Vm/Execute/States.antt =====
-- The states in which `execute` leaves the machine.
use polo_db.Errors.{Outcome, vm_is_halt, ok, err, panic}
use polo_db.Prelude.{
  ◌⊎◌, ℕ, zero, suc, ◌≡◌, refl, Bool, true, false, Bool-cases, inl, inr, Option-cases,
}
use mathlib.Core.Path.{subst}
use polo_db.Vm.Op.{DbOp}
use polo_db.Vm.World.{World}
use polo_db.Vm.Machine.{Vm, VmState, Signal, finish, try_vm}
use polo_db.Vm.Arms.{result_row_arm, halt_arm, close_arm, regex_arm, change_index_arm}
use polo_db.Vm.Execute.{step, fetch, turn, run, execute, resumed, is_halt}

-- The instructions whose errors are returned by `?`, which leaves the state as it is.
unfoldable pub by_question : DbOp → Bool
by_question DbOp.eof = false
by_question DbOp.label = false
by_question DbOp.inc = false
by_question DbOp.inc_r2 = false
by_question DbOp.goto = false
by_question DbOp.if_true = false
by_question DbOp.if_false = false
by_question DbOp.rewind = false
by_question DbOp.find_by_primary_key = false
by_question DbOp.find_by_index = false
by_question DbOp.next = false
by_question DbOp.next_index_value = false
by_question DbOp.push_value = false
by_question DbOp.push_true = false
by_question DbOp.push_false = false
by_question DbOp.push_document = false
by_question DbOp.push_null = false
by_question DbOp.push_r0 = false
by_question DbOp.store_r0 = false
by_question DbOp.store_r0_2 = false
by_question DbOp.get_field = false
by_question DbOp.unset_field = false
by_question DbOp.set_field = false
by_question DbOp.array_size = false
by_question DbOp.array_push = false
by_question DbOp.array_pop_first = false
by_question DbOp.array_pop_last = false
by_question DbOp.update_current = false
by_question DbOp.delete_current = true
by_question DbOp.insert_index = true
by_question DbOp.delete_index = true
by_question DbOp.dup = false
by_question DbOp.pop = false
by_question DbOp.pop2 = false
by_question DbOp.equal = false
by_question DbOp.greater = false
by_question DbOp.greater_equal = false
by_question DbOp.less = false
by_question DbOp.less_equal = false
by_question DbOp.regex = true
by_question DbOp.not = false
by_question DbOp.in_array = false
by_question DbOp.equal_null = false
by_question DbOp.open_read = false
by_question DbOp.open_write = false
by_question DbOp.result_row = false
by_question DbOp.close = true
by_question DbOp.save_stack_pos = false
by_question DbOp.recover_stack_pos = false
by_question DbOp.call = false
by_question DbOp.call_external = false
by_question DbOp.call_update_operator = false
by_question DbOp.external_is_completed = false
by_question DbOp.ret0 = false
by_question DbOp.ret = false
by_question DbOp.if_false_ret = false
by_question DbOp.load_global = false
by_question DbOp.store_global = false
by_question DbOp.halt = false

halt_state : (state : VmState) → is_halt state ≡ true → state ≡ VmState.halt
unfolding is_halt
halt_state VmState.halt h = refl
halt_state VmState.init h = cc
halt_state VmState.running h = cc
halt_state VmState.has_row h = cc

module _ (W : World) where
  -- An error halts the machine, if it is not one of an instruction that returns it by `?`; an end is a halt
  -- or a row.
  Settled : Bool → Vm W × Signal → Type 0
  Settled question (next, Signal.go) = Unit
  Settled question (next, Signal.panicked) = Unit
  Settled question (next, Signal.stop) =
      (next.state ≡ VmState.halt) ⊎ (next.state ≡ VmState.has_row)
  Settled question (next, Signal.failed e) = (next.state ≡ VmState.halt) ⊎ (question ≡ true)

  try-Settled : (vm : Vm W) (r : Outcome (Vm W)) → Settled false (try_vm W vm r)
  unfolding Settled
  try-Settled vm (ok next) = tt
  try-Settled vm (err e) = inl refl
  try-Settled vm panic = tt

  finish-Settled : (vm : Vm W) (r : Outcome (Vm W)) → Settled true (finish W vm r)
  unfolding Settled
  finish-Settled vm (ok next) = tt
  finish-Settled vm (err e) = inr refl
  finish-Settled vm panic = tt

  step-Settled : (op : DbOp) (vm : Vm W) → Settled (by_question op) (step W op vm)
  unfolding Settled by_question step result_row_arm halt_arm close_arm regex_arm change_index_arm
  step-Settled DbOp.eof vm = inl refl
  step-Settled DbOp.label vm = tt
  step-Settled DbOp.inc vm = try-Settled _ _
  step-Settled DbOp.inc_r2 vm = try-Settled _ _
  step-Settled DbOp.goto vm = try-Settled _ _
  step-Settled DbOp.if_true vm = try-Settled _ _
  step-Settled DbOp.if_false vm = try-Settled _ _
  step-Settled DbOp.rewind vm = try-Settled _ _
  step-Settled DbOp.find_by_primary_key vm = try-Settled _ _
  step-Settled DbOp.find_by_index vm = try-Settled _ _
  step-Settled DbOp.next vm = try-Settled _ _
  step-Settled DbOp.next_index_value vm = try-Settled _ _
  step-Settled DbOp.push_value vm = try-Settled _ _
  step-Settled DbOp.push_true vm = tt
  step-Settled DbOp.push_false vm = tt
  step-Settled DbOp.push_document vm = tt
  step-Settled DbOp.push_null vm = tt
  step-Settled DbOp.push_r0 vm = tt
  step-Settled DbOp.store_r0 vm = try-Settled _ _
  step-Settled DbOp.store_r0_2 vm = try-Settled _ _
  step-Settled DbOp.get_field vm = try-Settled _ _
  step-Settled DbOp.unset_field vm = try-Settled _ _
  step-Settled DbOp.set_field vm = try-Settled _ _
  step-Settled DbOp.array_size vm = try-Settled _ _
  step-Settled DbOp.array_push vm = try-Settled _ _
  step-Settled DbOp.array_pop_first vm = try-Settled _ _
  step-Settled DbOp.array_pop_last vm = try-Settled _ _
  step-Settled DbOp.update_current vm = try-Settled _ _
  step-Settled DbOp.delete_current vm = finish-Settled _ _
  step-Settled DbOp.insert_index vm = finish-Settled _ _
  step-Settled DbOp.delete_index vm = finish-Settled _ _
  step-Settled DbOp.dup vm = try-Settled _ _
  step-Settled DbOp.pop vm = tt
  step-Settled DbOp.pop2 vm = try-Settled _ _
  step-Settled DbOp.equal vm = try-Settled _ _
  step-Settled DbOp.greater vm = try-Settled _ _
  step-Settled DbOp.greater_equal vm = try-Settled _ _
  step-Settled DbOp.less vm = try-Settled _ _
  step-Settled DbOp.less_equal vm = try-Settled _ _
  step-Settled DbOp.regex vm = finish-Settled _ _
  step-Settled DbOp.not vm = tt
  step-Settled DbOp.in_array vm = try-Settled _ _
  step-Settled DbOp.equal_null vm = try-Settled _ _
  step-Settled DbOp.open_read vm = try-Settled _ _
  step-Settled DbOp.open_write vm = try-Settled _ _
  step-Settled DbOp.result_row vm = inr refl
  step-Settled DbOp.close vm = finish-Settled _ _
  step-Settled DbOp.save_stack_pos vm = tt
  step-Settled DbOp.recover_stack_pos vm = tt
  step-Settled DbOp.call vm = try-Settled _ _
  step-Settled DbOp.call_external vm = try-Settled _ _
  step-Settled DbOp.call_update_operator vm = try-Settled _ _
  step-Settled DbOp.external_is_completed vm = try-Settled _ _
  step-Settled DbOp.ret0 vm = try-Settled _ _
  step-Settled DbOp.ret vm = try-Settled _ _
  step-Settled DbOp.if_false_ret vm = try-Settled _ _
  step-Settled DbOp.load_global vm = try-Settled _ _
  step-Settled DbOp.store_global vm = try-Settled _ _
  step-Settled DbOp.halt vm = inl refl

  -- How a run ends: with an instruction, out of fuel, or with a panic.
  unfoldable pub Ended : Vm W × Signal → Type 0
  Ended (next, Signal.go) = Unit
  Ended (next, Signal.panicked) = Unit
  Ended (next, Signal.stop) = (next.state ≡ VmState.halt) ⊎ (next.state ≡ VmState.has_row)
  Ended (next, Signal.failed e) =
      (next.state ≡ VmState.halt)
      ⊎ ((op : DbOp) × (at : Vm W) × (by_question op ≡ true)
          × (step W op at ≡ (next, Signal.failed e)))

  from_step :
      (op : DbOp) (at : Vm W) (result : Vm W × Signal)
      → step W op at ≡ result
      → Settled (by_question op) result
      → Ended result
  unfolding Settled Ended
  from_step op at (next, Signal.go) e settled = tt
  from_step op at (next, Signal.panicked) e settled = tt
  from_step op at (next, Signal.stop) e settled = settled
  from_step op at (next, Signal.failed error) e (inl halted) = inl halted
  from_step op at (next, Signal.failed error) e (inr asked) = inr (op, at, asked, e)

  turn-Ended : (vm : Vm W) → Ended (turn W vm)
  unfolding turn Ended
  turn-Ended vm = elim (Option-cases (fetch W vm)) [
    | inl e ↦ rw (turn, e) tt
    | inr (op, e) ↦ rw (turn, e) (from_step op vm _ refl (step-Settled op vm))
  ]

  resumed-Ended :
      (fuel : ℕ) (after : Vm W × Signal)
      → ((next : Vm W) → Ended (run W fuel next))
      → Ended after
      → Ended (resumed W (run W fuel) after)
  resumed-Ended fuel (next, Signal.go) ih ended = ih next
  resumed-Ended fuel (next, Signal.stop) ih ended = ended
  resumed-Ended fuel (next, Signal.failed e) ih ended = ended
  resumed-Ended fuel (next, Signal.panicked) ih ended = ended

  run-Ended : (fuel : ℕ) (vm : Vm W) → Ended (run W fuel vm)
  unfolding run Ended
  run-Ended zero vm = tt
  run-Ended (suc fuel) vm = resumed-Ended fuel (turn W vm) (run-Ended fuel) (turn-Ended vm)

  -- A call of `execute` that ends leaves the machine halted or at a row. A call that returns an error leaves
  -- it halted too, unless the error is one of an instruction that returns it by `?`: `DeleteCurrent`, `InsertIndex`, `DeleteIndex`, `Close` or `Regex`.
  pub execute-states :
      (fuel : ℕ) (vm next : Vm W) (signal : Signal)
      → execute W fuel vm ≡ (next, signal)
      → Ended (next, signal)
  unfolding execute Ended
  execute-states fuel vm next signal ran = elim (Bool-cases (is_halt vm.state)) [
    | inl halted ↦
        let same : ◌≡◌ {A = Vm W × Signal} (vm, Signal.failed vm_is_halt) (next, signal) =
          rw halted at ran in
        subst Ended same (inl (halt_state vm.state halted))
    | inr alive ↦
        let same : run W fuel (record vm { state = VmState.running }) ≡ (next, signal) =
          rw alive at ran in
        subst Ended same (run-Ended fuel (record vm { state = VmState.running }))
  ]
