-- ===== src/Vm/Codegen/Labels/Take.antt =====
-- The invariant of the labels, for `take` of src/polodb_core/vm/codegen.rs.
use polo_db.Prelude.{
  ℕ, ◌≤◌, ◌<◌, ◌^◌, ◌≡◌, refl, ◌∙◌, arith, inl, inr, some, List, [], ◌∷◌, length, get_elem?, In,
  All,
}
use polo_db.Prelude.Bytes.{Bytes}
use polo_db.Errors.{Outcome, ok, err, panic}
use polo_db.Vm.Op.{DbOp, opcode}
use polo_db.Vm.Label.{LabelSlot, JumpTableRecord, position, unify_labels}
use polo_db.Vm.Label.Patches.{
  window, Small, Target, unify_labels-Target, unify_labels-keeps, length-unify_labels,
}
use polo_db.Vm.Machine.{u32_at}
use polo_db.Vm.Program.{SubProgram}
use polo_db.Vm.Codegen.{Codegen, Gen, continued, with_codegen, ◌>>=◌, ◌>>◌, pure, take}
use polo_db.Vm.Codegen.Labels.{
  Labelled, Placed, Good, IsGood, Grows, After, Keeps, Remembers, code_length,
}

-- The four bytes at `i` are the place of the label, and the instruction of a label stands there.
unfoldable pub LandsAt : SubProgram → (label i : ℕ) → Type 0
LandsAt program label i =
    (slot : LabelSlot) × (p : ℕ) × (get_elem? program.label_slots label ≡ some slot)
    × (position slot ≡ ok p)
    × (u32_at program.instructions i ≡ ok p)
    × (get_elem? program.instructions p ≡ some (opcode DbOp.label))

abbrev pub Lands : SubProgram → JumpTableRecord → Type 0
Lands program jump = LandsAt program jump.label_id (window jump)

unfoldable pub Leads : Codegen → SubProgram → Type 0
Leads c program = All (Lands program) c.jump_table

All-of : {A : Type 0} (F : A → Type 0) (xs : List A) → ((x : A) → In x xs → F x) → All F xs
All-of F [] h = tt
All-of F (x ∷ xs) h = (h x (inl refl), All-of F xs (λ y there. h y (inr there)))

Labelled-Small :
    (code : Bytes) (jumps : List JumpTableRecord) (slots : List LabelSlot)
    → length code < 2 ^ 32
    → Labelled code jumps slots
    → Small slots
unfolding Labelled Placed
Labelled-Small code jumps slots small placed label p slot stands place =
    let (room, op, away) = placed label p slot stands place in omega (arith, room, small)

unify_labels-Lands :
    (c : Codegen) (code : Bytes)
    → IsGood c
    → unify_labels c.jump_table c.program.label_slots c.program.instructions ≡ ok code
    → length code < 2 ^ 32
    → (jump : JumpTableRecord) → In jump c.jump_table
    → Lands (record c.program { instructions = code }) jump
unfolding Good Labelled Placed LandsAt Target opcode
unify_labels-Lands c code (spaced, placed) ran small jump there =
    let program = c.program in
    let same = length-unify_labels program.label_slots c.jump_table program.instructions code ran in
    let places : Small program.label_slots =
      Labelled-Small program.instructions c.jump_table program.label_slots
        (omega (arith, same, small)) placed in
    let (slot, p, stands, place, read) =
      unify_labels-Target program.label_slots c.jump_table program.instructions code 0
        (length program.instructions) jump places spaced ran there in
    let (room, op, away) = placed jump.label_id p slot stands place in
    let (longer, kept) =
      unify_labels-keeps program.label_slots c.jump_table program.instructions code places ran in
    (slot, p, stands, place, read, kept p away ∙ op)

-- A program that is taken from a state: it is no shorter, and below 2 ^ 32 bytes its jumps land.
unfoldable pub Taken : Codegen → Outcome (Codegen × SubProgram) → Type 0
Taken c (ok (d, program)) =
    (code_length c ≤ length program.instructions)
    × Remembers c d
    × (length program.instructions < 2 ^ 32 → IsGood c → Leads d program)
Taken c (err e) = Unit
Taken c panic = Unit

pub record Takes (gen : Gen SubProgram) : Type 0 where
  pub takes : (c : Codegen) → Taken c (gen c)

unified-Taken :
    (c : Codegen) (r : Outcome Bytes)
    → unify_labels c.jump_table c.program.label_slots c.program.instructions ≡ r
    → Taken c
        (continued (with_codegen c r) (λ code. pure (record c.program { instructions = code })))
unfolding Taken Leads
unified-Taken c (ok code) ran =
    let same =
      length-unify_labels c.program.label_slots c.jump_table c.program.instructions code ran in
    (
      omega (arith, same),
      λ jump there. there,
      λ small good.
          All-of (Lands (record c.program { instructions = code })) c.jump_table
            (unify_labels-Lands c code good ran small),
    )
unified-Taken c (err e) ran = tt
unified-Taken c panic ran = tt

pub take-Takes : Takes take
unfolding take
take-Takes = record {
  takes = λ c.
      unified-Taken c (unify_labels c.jump_table c.program.label_slots c.program.instructions) refl;
}

Taken-trans :
    (c d : Codegen) (r : Outcome (Codegen × SubProgram)) → Grows c d → Taken d r → Taken c r
unfolding Taken Grows
Taken-trans c d (ok (e, program)) (longer, jumps, kept) (more, jumps', leads) = (
  omega (arith, longer, more),
  λ jump there. jumps' jump (jumps jump there),
  λ small good. leads small (kept (omega (arith, more, small)) good),
)
Taken-trans c d (err e) grows taken = tt
Taken-trans c d panic grows taken = tt

bind-Taken :
    {A : Type 0} (c : Codegen) (r : Outcome (Codegen × A)) (next : A → Gen SubProgram)
    → After c r
    → ((a : A) → Takes (next a))
    → Taken c (continued r next)
unfolding After Taken
bind-Taken c (ok (d, a)) next first later = Taken-trans c d (next a d) first ((later a).takes d)
bind-Taken c (err e) next first later = tt
bind-Taken c panic next first later = tt

pub bind-Takes :
    {A : Type 0} {gen : Gen A} {next : A → Gen SubProgram}
    → Keeps gen
    → ((a : A) → Takes (next a))
    → Takes (gen >>= next)
bind-Takes {A} {gen} {next} first later = record {
  takes = λ c. bind-Taken c (gen c) next (first.keeps c) later;
}

pub then-Takes :
    {gen : Gen (Unit {0})} {next : Gen SubProgram} → Keeps gen → Takes next → Takes (gen >> next)
then-Takes {gen} {next} first later = record {
  takes = λ c. bind-Taken c (gen c) (λ _. next) (first.keeps c) (λ _. later);
}
