-- ===== src/Vm/Examples.antt =====
-- Tests of the machine and of the compiler, and the theorems on the machine at small programs.
use polo_db.Vm.Program.{SubProgram}
use polo_db.Vm.Execute.States.{execute-states, Ended}
use polo_db.Errors.{field_type_unexpected, vm_is_halt, ok}
use polo_db.Prelude.Bytes.{Bytes, str}
use polo_db.Vm.Execute.{execute}
use polo_db.Prelude.{◌+◌, ◌≡◌, refl, arith, false, List, [], ◌∷◌}
use polo_db.Prelude.Int.{pos}
use polo_db.Bson.{Bson, string, int32, null}
use polo_db.Store.Instance.{Entries}
use polo_db.Vm.World.Instance.{list_world}
use polo_db.Vm.Machine.{Vm, VmState, Signal, new}
use polo_db.Vm.Calls.{call, ret}
use polo_db.Vm.Calls.Frames.{call-ret}
use polo_db.Vm.Execute.Fuel.{execute-more}
use polo_db.Vm.Codegen.Query.{emit_query_tuple_document_kv}
use polo_db.Vm.Codegen.Negation.{emit_ne-eq}

emit_ne-eq_example :
    emit_query_tuple_document_kv (str "name") false 3 (str "$ne") (string (str "Bob"))
    ≡ emit_query_tuple_document_kv (str "name") false 3 (str "$eq") (string (str "Bob"))
emit_ne-eq_example = emit_ne-eq (str "name") false 3 (string (str "Bob"))

abbrev with_code : Bytes → SubProgram
with_code code = record {
  static_values = [];
  instructions = code;
  global_variables = [];
  label_slots = [];
  index_infos = [];
  external_funcs = [];
  update_operators = [];
}

abbrev store : Entries
store = []

abbrev vm : Bytes → Vm list_world
unfolding new
vm code = new list_world store false (with_code code)

abbrev with_stack : List Bson → Vm list_world → Vm list_world
with_stack stack machine = record machine { stack = stack }

-- `PushNull`, `Halt`
abbrev halting : Bytes
halting = 16 ∷ 58 ∷ []

-- `ArraySize` of a null
abbrev failing : Bytes
failing = 16 ∷ 23 ∷ []

abbrev halted : Vm list_world
halted = record (vm halting) { state = VmState.halt; pc = 1; stack = null ∷ [] }

execute-more_example : execute list_world (2 + 3) (vm halting) ≡ (halted, Signal.stop)
unfolding execute vm
execute-more_example = execute-more list_world 2 3 (vm halting) (halted, Signal.stop) (λ h. cc) refl

abbrev failed_vm : Vm list_world
failed_vm = record (vm failing) { state = VmState.halt; pc = 1; stack = null ∷ [] }

execute-states_example :
    Ended list_world
      (failed_vm, Signal.failed (field_type_unexpected (str "ArraySize") (str "Array")))
unfolding execute vm
execute-states_example =
    execute-states list_world 4 (vm failing) failed_vm
      (Signal.failed (field_type_unexpected (str "ArraySize") (str "Array"))) refl

abbrev caller : Vm list_world
caller = with_stack (int32 (pos 2) ∷ int32 (pos 1) ∷ []) (vm halting)

call-ret_example :
    (next : Vm list_world) × (call list_world 40 1 caller ≡ ok next)
    × (next.pc ≡ 40)
    × (ret list_world 1 (record next { stack = null ∷ next.stack })
        ≡ ok record caller { pc = 9; stack = null ∷ int32 (pos 1) ∷ [] })
unfolding vm
call-ret_example =
    call-ret list_world 40 1 1 caller (null ∷ []) (omega arith) (omega arith) (omega arith)

-- A machine that has halted does not run again.
halted_runs_no_more : execute list_world 5 halted ≡ (halted, Signal.failed vm_is_halt)
unfolding execute vm
halted_runs_no_more = refl
