-- ===== src/Vm/Calls.antt =====
-- The calls of vm.rs: frames, the stages of an aggregation, the update operators.
pub mod Frames
use polo_db.Prelude.{
  ℕ, zero, suc, ◌+◌, ◌-◌, ◌^◌, ◌%◌, ◌==◌, leb, Bool, true, false, Option, none, some, List, [], ◌∷◌,
  ◌++◌, if◌then◌else◌, length, get_elem?, take, drop,
}
use polo_db.Prelude.Int.{ℤ, pos}
use polo_db.Errors.{Outcome, ok, panic, ◌>>=◌, unwrap}
use polo_db.Bson.{Bson, null}
use polo_db.Bson.Platform.{Platform}
use polo_db.Pipeline.{Status}
use polo_db.Pipeline.ExternalFunc.{ExternalFunc, call_func, is_completed}
use polo_db.UpdateOperators.{update}
use polo_db.Vm.Program.{SubProgram}
use polo_db.Vm.World.{World}
use polo_db.Vm.Machine.{Vm, VmFrame, push, set_r0, reset_location, resize, put_at, stack_at}

-- The stack after a return of `size` values to `begin`. The copy goes upwards and its target is not
-- above its source, so that it reads no value that it wrote; otherwise it runs out of the stack.
unfoldable pub returned : (begin size : ℕ) → List Bson → Outcome (List Bson)
unfolding resize
returned begin size stack =
    if leb (begin + size) (length stack)
    then ok (take size stack ++ drop (length stack - begin) stack)
    else if size == 0
    then ok (resize begin stack)
    else panic

reverse_onto : List Bson → List Bson → List Bson
reverse_onto [] acc = acc
reverse_onto (x ∷ xs) acc = reverse_onto xs (x ∷ acc)

-- The parameters in their order, the deepest value first.
unfoldable pub params : ℕ → List Bson → List Bson
unfolding reverse_onto
params size stack = reverse_onto (take size stack) []

module _ (W : World) where
  open W use {platform, sort_by}

  -- `return_pos as u32`
  unfoldable pub return_to : VmFrame → List VmFrame → ℕ → Vm W → Outcome (Vm W)
  unfolding returned
  return_to frame frames size vm = do
    stack ← returned frame.stack_begin_pos size vm.stack
    ok (reset_location W (frame.return_pos % 2 ^ 32) (record vm { stack = stack; frames = frames }))

  unfoldable pub ret : ℕ → Vm W → Outcome (Vm W)
  unfolding return_to
  ret size vm = elim vm.frames [ [] ↦ panic | frame ∷ frames ↦ return_to frame frames size vm ]

  -- `len - size` wraps around in an unchecked build.
  abbrev below_params : ℕ → ℕ → Outcome ℕ
  below_params len size =
      if leb size len
      then ok (len - size)
      else if platform.overflow_checks
      then panic
      else ok (2 ^ 64 + len - size)

  unfoldable pub call : (location size : ℕ) → Vm W → Outcome (Vm W)
  call location size vm = do
    begin ← below_params (length vm.stack) size
    ok (
        reset_location W location (record vm {
          frames = record { stack_begin_pos = begin; return_pos = vm.pc + 9 } ∷ vm.frames;
        }))

  -- The value that a stage answers with, and r0.
  abbrev pushed_status : Status → Vm W → Vm W
  pushed_status Status.continue vm = push W null (set_r0 W false vm)
  pushed_status (Status.next v) vm = push W v (set_r0 W true vm)

  abbrev with_func : ℕ → ExternalFunc → Vm W → Outcome (Vm W)
  with_func id func vm = do
    funcs ← put_at vm.program.external_funcs id func
    ok record vm { program = record vm.program { external_funcs = funcs } }

  -- More parameters than values are an index out of bounds.
  unfoldable pub call_external : (id size : ℕ) → Vm W → Outcome (Vm W)
  unfolding params call_func
  call_external id size vm = do
    func ← unwrap (get_elem? vm.program.external_funcs id)
    if leb size (length vm.stack)
        then (do
          (func', status) ← call_func platform sort_by func (params size vm.stack)
          next ← with_func id func' (record vm { stack = drop size vm.stack })
          ok (pushed_status status next))
        else panic

  unfoldable pub call_update_operator : ℕ → Vm W → Outcome (Vm W)
  call_update_operator id vm = do
    operator ← unwrap (get_elem? vm.program.update_operators id)
    top ← stack_at W vm 0
    (value, updated) ← update platform operator top
    stack ← put_at vm.stack 0 value
    ok (set_r0 W updated (record vm { stack = stack }))

  unfoldable pub external_is_completed : ℕ → Vm W → Outcome (Vm W)
  unfolding is_completed
  external_is_completed id vm = do
    func ← unwrap (get_elem? vm.program.external_funcs id)
    ok (set_r0 W (is_completed func) vm)
