-- ===== src/Db/ClientCursor.antt =====
-- src/polodb_core/db/client_cursor.rs. The fuel is for one call of `execute`; where it is used up there is no
-- answer.
use polo_db.Prelude.{
  ℕ, zero, suc, Bool, true, false, Option, none, some, List, [], ◌∷◌, if◌then◌else◌,
}
use polo_db.Errors.{Outcome, ok, err, panic, ◌>>=◌}
use polo_db.Bson.{Bson}
use polo_db.Vm.World.{World}
use polo_db.Vm.Machine.{Vm, VmState, Signal, stack_at}
use polo_db.Vm.Execute.{is_halt, execute}

unfoldable pub has_row : VmState → Bool
has_row VmState.has_row = true
has_row VmState.halt = false
has_row VmState.init = false
has_row VmState.running = false

module _ (W : World) where
  -- `execute()?` and `has_row()`
  abbrev pub answered : Vm W → Signal → Option (Outcome Bool)
  answered vm Signal.go = none
  answered vm Signal.stop = some (ok (has_row vm.state))
  answered vm (Signal.failed e) = some (err e)
  answered vm Signal.panicked = some panic

  unfoldable pub advance : ℕ → Vm W → Vm W × Option (Outcome Bool)
  unfolding is_halt execute has_row
  advance fuel vm =
      if is_halt vm.state
      then (vm, some (ok false))
      else let (next, signal) = execute W fuel vm in (next, answered next signal)

  -- `stack_top`
  unfoldable pub get : Vm W → Outcome Bson
  get vm = stack_at W vm 0

  -- The value of an answer in front of the rest of them.
  abbrev pub row : Vm W → Option (Outcome (List Bson)) → Option (Outcome (List Bson))
  row vm none = none
  row vm (some rest) = some (do value ← get vm; values ← rest; ok (value ∷ values))

  -- What is collected from an answer on.
  abbrev pub collected :
      Vm W × Option (Outcome Bool)
      → (Vm W → Option (Outcome (List Bson)))
      → Option (Outcome (List Bson))
  collected (next, none) rest = none
  collected (next, some panic) rest = some panic
  collected (next, some (err e)) rest = some (err e)
  collected (next, some (ok true)) rest = row next (rest next)
  collected (next, some (ok false)) rest = some (ok [])

  -- The values that the iterator gives, up to its end or its first error, in at most so many calls.
  unfoldable pub rows : (calls fuel : ℕ) → Vm W → Option (Outcome (List Bson))
  unfolding advance get
  rows zero fuel vm = none
  rows (suc calls) fuel vm = collected (advance fuel vm) (rows calls fuel)
