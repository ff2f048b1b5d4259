-- ===== src/Vm/Execute/Fuel.antt =====
-- More fuel changes nothing.
use polo_db.Prelude.{◌≡◌, ◌≢◌, ℕ, zero, suc, ◌+◌, sym, ap, ◌∙◌, arith, Bool-cases, inl, inr}
use polo_db.Vm.World.{World}
use polo_db.Vm.Machine.{Vm, Signal}
use polo_db.Vm.Execute.{turn, run, execute, resumed, is_halt}

module _ (W : World) where
  resumed_more :
      (fuel more : ℕ) (after last : Vm W × Signal)
      → last.1 ≢ Signal.go
      → ((next : Vm W) → run W fuel next ≡ last → run W (fuel + more) next ≡ last)
      → resumed W (run W fuel) after ≡ last
      → resumed W (run W (fuel + more)) after ≡ last
  resumed_more fuel more (next, Signal.go) last ended ih ran = ih next ran
  resumed_more fuel more (next, Signal.stop) last ended ih ran = ran
  resumed_more fuel more (next, Signal.failed e) last ended ih ran = ran
  resumed_more fuel more (next, Signal.panicked) last ended ih ran = ran

  run_more :
      (fuel more : ℕ) (vm : Vm W) (last : Vm W × Signal)
      → last.1 ≢ Signal.go
      → run W fuel vm ≡ last
      → run W (fuel + more) vm ≡ last
  unfolding run
  run_more zero more vm last ended ran = absurd (ended (ap (λ r. r.1) (sym ran)))
  run_more (suc fuel) more vm last ended ran =
      let e : suc fuel + more ≡ suc (fuel + more) = omega arith in
      ap (λ n. run W n vm) e
      ∙ resumed_more fuel more (turn W vm) last ended (λ next. run_more fuel more next last ended)
          ran

  -- A call of `execute` that ends within its fuel ends in the same way with more.
  pub execute-more :
      (fuel more : ℕ) (vm : Vm W) (last : Vm W × Signal)
      → last.1 ≢ Signal.go
      → execute W fuel vm ≡ last
      → execute W (fuel + more) vm ≡ last
  unfolding execute
  execute-more fuel more vm last ended ran = elim (Bool-cases (is_halt vm.state)) [
    | inl halted ↦ let r = rw halted at ran in rw halted r
    | inr alive ↦ let r = rw alive at ran in rw alive (run_more fuel more _ last ended r)
  ]
