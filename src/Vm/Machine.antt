-- ===== src/Vm/Machine.antt =====
-- The state of the machine (vm.rs). The stack has its top in front. `pc` is an offset into the
-- instructions; a read behind their end, undefined behaviour in the code, is a panic here.
use polo_db.Errors.Kept.{Kept}
use polo_db.Vm.Program.{SubProgram}
use polo_db.Prelude.{
  ℕ, zero, suc, ◌+◌, ◌*◌, ◌-◌, ◌^◌, Bool, true, false, Option, none, List, [], ◌∷◌, ◌++◌, map,
  if◌then◌else◌, leb, length, get_elem?, drop, replicate,
}
use polo_db.Prelude.Int.{ℤ, pos, negsuc}
use polo_db.Prelude.Bytes.{Bytes}
use polo_db.Errors.{map_ok, Error, Outcome, ok, err, panic, ◌>>=◌, unwrap}
use polo_db.Bson.{Bson, null}
use polo_db.Scan.{Cursor}
use polo_db.Vm.World.{World}

pub data VmState : Type 0 where
  halt init running has_row : VmState

pub record VmFrame : Type 0 where
  pub stack_begin_pos : ℕ
  pub return_pos : ℕ

-- `usize::MAX` is never a return position.
unfoldable pub default_frame : VmFrame
default_frame = record { stack_begin_pos = 0; return_pos = 2 ^ 64 - 1 }

-- The transaction with its flag `auto_commit` is two fields; the counter of the metrics is left out.
pub record Vm (W : World) : Type 0 where
  pub txn : W.store.Txn
  pub auto_commit : Bool
  pub state : VmState
  pub pc : ℕ
  pub r0 : ℤ
  pub r1 : Option Cursor
  pub r2 : ℤ
  pub r3 : ℕ
  pub r4 : ℤ
  pub stack : List Bson
  pub frames : List VmFrame
  pub program : SubProgram
  pub global_vars : List Bson
  pub index_value : Option Bson

-- How a step ends: the loop goes on, `execute` returns, or it returns an error or panics.
pub data Signal : Type 0 where
  go : Signal
  stop : Signal
  failed : Error → Signal
  panicked : Signal

-- The machine after a write at an index, which panics out of range.
abbrev pub put_at : {A : Type 0} → List A → ℕ → A → Outcome (List A)
put_at [] i v = panic
put_at (x ∷ xs) zero v = ok (v ∷ xs)
put_at (x ∷ xs) (suc i) v = do rest ← put_at xs i v; ok (x ∷ rest)

-- `Vec::resize` with null, on a stack that has its top in front.
unfoldable pub resize : ℕ → List Bson → List Bson
resize n stack =
    if leb n (length stack)
    then drop (length stack - n) stack
    else replicate (n - length stack) null ++ stack

-- Four bytes, the least significant first.
unfoldable pub u32_at : Bytes → ℕ → Outcome ℕ
u32_at bytes at = do
  a ← unwrap (get_elem? bytes at)
  b ← unwrap (get_elem? bytes (suc at))
  c ← unwrap (get_elem? bytes (suc (suc at)))
  d ← unwrap (get_elem? bytes (suc (suc (suc at))))
  ok (a + 256 * b + 65536 * c + 16777216 * d)

module _ (W : World) where
  unfoldable pub new : W.store.Txn → Bool → SubProgram → Vm W
  unfolding default_frame
  new txn auto_commit program = record {
    txn = txn;
    auto_commit = auto_commit;
    state = VmState.init;
    pc = 0;
    r0 = pos 0;
    r1 = none;
    r2 = pos 0;
    r3 = 0;
    r4 = pos 0;
    stack = [];
    frames = default_frame ∷ [];
    program = program;
    global_vars = map (λ slot. slot.init_value) program.global_variables;
    index_value = none;
  }

  abbrev pub push : Bson → Vm W → Vm W
  push v vm = record vm { stack = v ∷ vm.stack }

  abbrev pub advance : ℕ → Vm W → Vm W
  advance n vm = record vm { pc = vm.pc + n }

  -- `reset_location`
  abbrev pub reset_location : ℕ → Vm W → Vm W
  reset_location location vm = record vm { pc = location }

  abbrev pub set_r0 : Bool → Vm W → Vm W
  set_r0 b vm = record vm { r0 = if b then pos 1 else pos 0 }

  abbrev pub r0_is_true : Vm W → Bool
  r0_is_true vm = elim vm.r0 [ pos zero ↦ false | pos (suc _) ↦ true | negsuc _ ↦ true ]

  -- `self.stack[len - 1 - i]`
  abbrev pub stack_at : Vm W → ℕ → Outcome Bson
  stack_at vm i = unwrap (get_elem? vm.stack i)

  abbrev pub borrow_static : Vm W → ℕ → Outcome Bson
  borrow_static vm id = unwrap (get_elem? vm.program.static_values id)

  -- The operand behind the opcode, `offset` bytes on.
  abbrev pub operand : ℕ → Vm W → Outcome ℕ
  operand offset vm = u32_at vm.program.instructions (vm.pc + offset)

  -- An action that panics or succeeds, and one under `try_vm!`, which halts the machine on an error.
  -- The machine that an error leaves is their first argument.
  abbrev pub finish : Vm W → Outcome (Vm W) → Vm W × Signal
  finish vm (ok next) = (next, Signal.go)
  finish vm (err e) = (vm, Signal.failed e)
  finish vm panic = (vm, Signal.panicked)

  abbrev pub try_vm : Vm W → Outcome (Vm W) → Vm W × Signal
  try_vm vm (ok next) = (next, Signal.go)
  try_vm vm (err e) = (record vm { state = VmState.halt }, Signal.failed e)
  try_vm vm panic = (vm, Signal.panicked)

  -- The same behind an action that keeps what it wrote before an error, in an instruction of some bytes.
  abbrev moved : ℕ → Kept (Vm W) → Outcome (Vm W)
  moved bytes kept = map_ok (λ _. advance bytes kept.0) kept.1

  abbrev pub finish_kept : ℕ → Kept (Vm W) → Vm W × Signal
  finish_kept bytes kept = finish kept.0 (moved bytes kept)

  abbrev pub try_kept : ℕ → Kept (Vm W) → Vm W × Signal
  try_kept bytes kept = try_vm kept.0 (moved bytes kept)
