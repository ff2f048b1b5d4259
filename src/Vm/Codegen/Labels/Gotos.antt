-- ===== src/Vm/Codegen/Labels/Gotos.antt =====
-- The jumps that `emit_goto` and `emit_goto2` of src/polodb_core/vm/codegen.rs emit ahead of their labels.
use mathlib.Core.Path.{subst}
use polo_db.Prelude.{
  ℕ, ◌+◌, ◌<◌, ◌^◌, ◌%◌, ◌≡◌, refl, sym, ap, ◌∙◌, arith, inl, inr, some, List, [], ◌∷◌, ◌++◌,
  length, get_elem?, In, All,
}
use polo_db.Prelude.Bytes.{Bytes}
use polo_db.Errors.{ok}
use polo_db.Vm.Op.{DbOp, opcode}
use polo_db.Vm.Label.{LabelSlot, JumpTableRecord, is_empty, as_u32}
use polo_db.Vm.Program.{SubProgram}
use polo_db.Vm.Codegen.{Codegen, Gen, continued, ◌>>◌, emit, emit_u32, current_location, emit_goto}
use polo_db.Vm.Codegen.Labels.{IsGood, Grows, After, Keeps, code_length}
use polo_db.Vm.Codegen.Labels.Jumps.{emit_goto-Keeps}
use polo_db.Vm.Codegen.Labels.Take.{LandsAt, Lands, Leads, Taken, Takes}

All-In : {A : Type 0} (F : A → Type 0) (x : A) (xs : List A) → All F xs → In x xs → F x
All-In F x (y ∷ ys) (here, rest) (inl e) = subst F (sym e) here
All-In F x (y ∷ ys) (here, rest) (inr there) = All-In F x ys rest there
All-In F x [] h there = absurd there

In-last : {A : Type 0} (x : A) (xs : List A) → In x (xs ++ x ∷ [])
In-last x [] = inl refl
In-last x (y ∷ ys) = inr (In-last x ys)

-- A jump that is recorded lands in what is taken later.
recorded-Lands :
    (d last : Codegen) (next : Gen SubProgram) (program : SubProgram) (jump : JumpTableRecord)
    → Takes next
    → next d ≡ ok (last, program)
    → length program.instructions < 2 ^ 32
    → In jump d.jump_table
    → (code_length d < 2 ^ 32 → IsGood d)
    → Lands program jump
unfolding Taken Leads
recorded-Lands d last next program jump taking ran small there good =
    let (longer, kept, leads) = subst (Taken d) ran (taking.takes d) in
    All-In (Lands program) jump last.jump_table (leads small (good (omega (arith, longer, small))))
      (kept jump there)

-- The state behind a jump with its operand at `offset`.
abbrev pub jumped : Codegen → (code : Bytes) → (offset label : ℕ) → Codegen
jumped c code offset label = record c {
  program = record c.program { instructions = code ++ 255 ∷ 255 ∷ 255 ∷ 255 ∷ [] };
  jump_table =
      c.jump_table
      ++ record { begin_loc = as_u32 (code_length c); offset = offset; label_id = label } ∷ [];
}

-- What an emitter of a jump leaves, and what is taken later.
jumped-LandsAt :
    (c last : Codegen) (jump : Gen (Unit {0})) (next : Gen SubProgram) (program : SubProgram)
    (code : Bytes) (offset label : ℕ)
    → Keeps jump
    → jump c ≡ ok (jumped c code offset label, tt)
    → Takes next
    → IsGood c
    → (jump >> next) c ≡ ok (last, program)
    → length program.instructions < 2 ^ 32
    → LandsAt program label (code_length c + offset)
unfolding After Grows Taken
jumped-LandsAt c last jump next program code offset label keeping did taking good ran small =
    let d = jumped c code offset label in
    let (longer, kept, same_good) = subst (After c) did (keeping.keeps c) in
    let ran1 : next d ≡ ok (last, program) = ap (λ r. continued r (λ _. next)) (sym did) ∙ ran in
    let (longer1, kept1, leads) = subst (Taken d) ran1 (taking.takes d) in
    let landed =
      recorded-Lands d last next program
        (record { begin_loc = as_u32 (code_length c); offset = offset; label_id = label }) taking
        ran1 small (In-last _ c.jump_table) (λ below. same_good below good) in
    let exact : code_length c % 2 ^ 32 + offset ≡ code_length c + offset =
      omega (arith, longer, longer1, small) in
    subst (LandsAt program label) exact landed

pub goto_lem :
    (op : DbOp) (label : ℕ) (c : Codegen)
    → get_elem? c.program.label_slots label ≡ some LabelSlot.empty
    → emit_goto op label c ≡ ok (jumped c (c.program.instructions ++ opcode op ∷ []) 1 label, tt)
unfolding emit_goto emit current_location is_empty emit_u32
goto_lem op label c e = rw (emit_goto, e) refl

pub emit_goto-LandsAt :
    (op : DbOp) (label : ℕ) (next : Gen SubProgram) (c last : Codegen) (program : SubProgram)
    → Takes next
    → IsGood c
    → get_elem? c.program.label_slots label ≡ some LabelSlot.empty
    → (emit_goto op label >> next) c ≡ ok (last, program)
    → length program.instructions < 2 ^ 32
    → LandsAt program label (code_length c + 1)
emit_goto-LandsAt op label next c last program taking good waits ran small =
    jumped-LandsAt c last (emit_goto op label) next program
      (c.program.instructions ++ opcode op ∷ []) 1 label (emit_goto-Keeps op label)
      (goto_lem op label c waits) taking good ran small
