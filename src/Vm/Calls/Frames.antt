-- ===== src/Vm/Calls/Frames.antt =====
-- A call and its return.
use polo_db.Vm.Machine.{VmFrame, Vm}
use polo_db.Errors.{ok}
use polo_db.Prelude.{
  ℕ, ◌+◌, ◌-◌, ◌≤◌, ◌<◌, ◌%◌, ◌^◌, ◌≡◌, refl, ◌∙◌, arith, true, List, ◌∷◌, ◌++◌, length, take, drop,
  leb, take-append, drop-append, length-append,
}
use polo_db.Bson.{Bson}
use polo_db.Vm.World.{World}
use polo_db.Vm.Calls.{returned, return_to, ret, call}

leb_lem : (a b : ℕ) → a ≤ b → leb a b ≡ true
leb_lem a b h = ground (arith, h)

-- The return of `kept` of the values that were left above the place where the parameters begin.
returned_lem :
    (size kept : ℕ) (left stack : List Bson)
    → size ≤ length stack
    → kept ≤ length left
    → returned (length stack - size) kept (left ++ stack) ≡ ok (take kept left ++ drop size stack)
unfolding returned
returned_lem size kept left stack enough some_left =
    let total = length-append left stack in
    let room : leb (length stack - size + kept) (length (left ++ stack)) ≡ true =
      leb_lem _ _ (omega (arith, total, enough, some_left)) in
    let rest : drop (length (left ++ stack) - (length stack - size)) (left ++ stack)
        ≡ drop size stack =
      drop-append size _ left stack (omega (arith, total, enough)) in
    rw (room, take-append kept left stack some_left, rest)

module _ (W : World) where
  call_lem :
      (location size : ℕ) (vm : Vm W)
      → size ≤ length vm.stack
      → call W location size vm
        ≡ ok record vm {
          pc = location;
          frames =
              record { stack_begin_pos = length vm.stack - size; return_pos = vm.pc + 9 }
              ∷ vm.frames;
        }
  unfolding call
  call_lem location size vm enough = rw (leb_lem size (length vm.stack) enough)

  ret_lem :
      (kept : ℕ) (vm : Vm W) (frame : VmFrame) (frames : List VmFrame) (stack : List Bson)
      → vm.frames ≡ frame ∷ frames
      → returned frame.stack_begin_pos kept vm.stack ≡ ok stack
      → ret W kept vm
        ≡ ok record vm { pc = frame.return_pos % 2 ^ 32; stack = stack; frames = frames }
  unfolding ret return_to
  ret_lem kept vm frame frames stack top done = rw (top, done)

  -- A function that is called with `size` values on the stack, leaves values on top of them and returns the
  -- first of these comes back to the instruction behind the call, with the frames as they were and its
  -- parameters taken off the stack.
  pub call-ret :
      (location size kept : ℕ) (vm : Vm W) (left : List Bson)
      → size ≤ length vm.stack
      → kept ≤ length left
      → vm.pc + 9 < 2 ^ 32
      → (next : Vm W) × (call W location size vm ≡ ok next)
        × (next.pc ≡ location)
        × (ret W kept (record next { stack = left ++ next.stack })
            ≡ ok record vm { pc = vm.pc + 9; stack = take kept left ++ drop size vm.stack })
  call-ret location size kept vm left enough some_left small =
      let e = call_lem location size vm enough in
      let back = returned_lem size kept left vm.stack enough some_left in
      let wrap : (vm.pc + 9) % 2 ^ 32 ≡ vm.pc + 9 = omega (arith, small) in
      (_, e, refl, ret_lem kept _ _ _ _ refl back ∙ rw wrap)
