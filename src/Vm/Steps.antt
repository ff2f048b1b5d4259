-- ===== src/Vm/Steps.antt =====
-- Runs of the machine put together from turns of the loop.
use polo_db.Prelude.{ℕ, suc, ◌≡◌}
use polo_db.Vm.World.{World}
use polo_db.Vm.Machine.{Vm, Signal}
use polo_db.Vm.Execute.{turn, run}

module _ (W : World) where
  pub run_go :
      (fuel : ℕ) (vm next : Vm W) (result : Vm W × Signal)
      → turn W vm ≡ (next, Signal.go)
      → run W fuel next ≡ result
      → run W (suc fuel) vm ≡ result
  unfolding run
  run_go fuel vm next result step rest = rw (run, step) rest

  pub run_stop :
      (fuel : ℕ) (vm last : Vm W)
      → turn W vm ≡ (last, Signal.stop)
      → run W (suc fuel) vm ≡ (last, Signal.stop)
  unfolding run
  run_stop fuel vm last step = rw (run, step)
