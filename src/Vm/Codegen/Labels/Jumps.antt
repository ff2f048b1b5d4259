-- ===== src/Vm/Codegen/Labels/Jumps.antt =====
-- The invariant of the labels, for the emitters of jumps.
use polo_db.Prelude.{
  In, ℕ, ◌+◌, ◌≤◌, ◌<◌, ◌^◌, ◌%◌, ◌≡◌, ◌∙◌, arith, inl, inr, Option-cases, some, List, [], ◌∷◌,
  ◌++◌, length, get_elem?, length-append,
}
use polo_db.Prelude.Bytes.{Bytes}
use polo_db.Vm.Op.{DbOp, opcode}
use polo_db.Vm.Label.{LabelSlot, JumpTableRecord, position, is_empty, to_le_bytes, as_u32}
use polo_db.Vm.Label.Patches.{Spaced, Spaced-le, Outside, window}
use polo_db.Vm.Codegen.{Codegen, emit, emit_u32, current_location, emit_goto, emit_goto2}
use polo_db.Vm.Codegen.Labels.{
  Grows, After, Keeps, Good, Labelled, Placed, append_Good, before-append,
}

In-behind :
    (jump : JumpTableRecord) (jumps more : List JumpTableRecord)
    → In jump jumps
    → In jump (jumps ++ more)
In-behind jump [] more there = absurd there
In-behind jump (first ∷ jumps) more (inl e) = inl e
In-behind jump (first ∷ jumps) more (inr there) = inr (In-behind jump jumps more there)

-- A window behind the others.
Spaced-behind :
    (low high more : ℕ) (jumps : List JumpTableRecord) (jump : JumpTableRecord)
    → Spaced low jumps high
    → high ≤ window jump
    → window jump + 4 ≤ more
    → Spaced low (jumps ++ jump ∷ []) more
unfolding Spaced
Spaced-behind low high more [] jump spaced from to = (omega (arith, spaced, from), to)
Spaced-behind low high more (first ∷ jumps) jump (above, spaced) from to =
    (above, Spaced-behind (window first + 4) high more jumps jump spaced from to)

Outside-behind :
    (i : ℕ) (jumps : List JumpTableRecord) (jump : JumpTableRecord)
    → Outside i jumps
    → i < window jump
    → Outside i (jumps ++ jump ∷ [])
Outside-behind i [] jump away h = (inl h, tt)
Outside-behind i (first ∷ jumps) jump (here, away) h = (here, Outside-behind i jumps jump away h)

pub above-Outside :
    (low high i : ℕ) (jumps : List JumpTableRecord)
    → Spaced low jumps high
    → high ≤ i
    → Outside i jumps
unfolding Spaced
above-Outside low high i [] spaced h = tt
above-Outside low high i (jump ∷ jumps) (above, spaced) h = (
  inr (omega (arith, Spaced-le (window jump + 4) high jumps spaced, h)),
  above-Outside (window jump + 4) high i jumps spaced h,
)

-- A jump whose window is at the end of the code.
jump_Good :
    (code more : Bytes) (jumps : List JumpTableRecord) (slots : List LabelSlot)
    (jump : JumpTableRecord)
    → Good code jumps slots
    → length code ≤ window jump
    → window jump + 4 ≤ length (code ++ more)
    → Good (code ++ more) (jumps ++ jump ∷ []) slots
unfolding Good Labelled Placed
jump_Good code more jumps slots jump (spaced, placed) from to =
    let longer = length-append code more in
    (
      Spaced-behind 0 (length code) (length (code ++ more)) jumps jump spaced from to,
      λ label p slot stands place.
          let (room, op, away) = placed label p slot stands place in
          (
            omega (arith, longer, room),
            before-append code more p (omega (arith, room)) ∙ op,
            Outside-behind p jumps jump away (omega (arith, room, from)),
          ),
    )

-- Four bytes that are to be written over.
abbrev unknown : Bytes
unknown = 255 ∷ 255 ∷ 255 ∷ 255 ∷ []

waiting :
    (code front : Bytes) (jumps : List JumpTableRecord) (slots : List LabelSlot) (offset label : ℕ)
    → Good front jumps slots
    → length front ≡ length code + offset
    → length (front ++ unknown) < 2 ^ 32
    → Good
        (front ++ unknown)
        (jumps
          ++ record { begin_loc = as_u32 (length code); offset = offset; label_id = label } ∷ [])
        slots
waiting code front jumps slots offset label good long small =
    let total = length-append front unknown in
    let exact : length code % 2 ^ 32 ≡ length code = omega (arith, total, long, small) in
    jump_Good front unknown jumps slots
      (record { begin_loc = as_u32 (length code); offset = offset; label_id = label }) good
      (omega (arith, long, exact)) (omega (arith, long, exact, total))

-- The code with one, two or three pieces behind it.
pub grown2 :
    (c : Codegen) (a b : Bytes)
    → length c.program.instructions ≤ length (c.program.instructions ++ a ++ b)
grown2 c a b =
    omega
      (arith, length-append (c.program.instructions ++ a) b, length-append c.program.instructions a)

grown3 :
    (c : Codegen) (a b d : Bytes)
    → length c.program.instructions ≤ length (c.program.instructions ++ a ++ b ++ d)
grown3 c a b d = omega (arith, grown2 c a b, length-append (c.program.instructions ++ a ++ b) d)

append2 :
    (c : Codegen) (a b : Bytes)
    → Good c.program.instructions c.jump_table c.program.label_slots
    → Good (c.program.instructions ++ a ++ b) c.jump_table c.program.label_slots
append2 c a b good =
    let code = c.program.instructions in
    let jumps = c.jump_table in
    let slots = c.program.label_slots in
    append_Good (code ++ a) b jumps slots (append_Good code a jumps slots good)

append3 :
    (c : Codegen) (a b d : Bytes)
    → Good c.program.instructions c.jump_table c.program.label_slots
    → Good (c.program.instructions ++ a ++ b ++ d) c.jump_table c.program.label_slots
append3 c a b d good =
    append_Good (c.program.instructions ++ a ++ b) d c.jump_table c.program.label_slots
      (append2 c a b good)

goto-After :
    (c : Codegen) (op : DbOp) (label : ℕ) (slot : LabelSlot)
    → get_elem? c.program.label_slots label ≡ some slot
    → After c (emit_goto op label c)
unfolding emit_goto emit current_location is_empty position emit_u32 After Grows
goto-After c op label LabelSlot.empty e =
    let code = c.program.instructions in
    let front = code ++ opcode op ∷ [] in
    rw (emit_goto, e)
      (
        grown2 c (opcode op ∷ []) unknown,
        λ jump there. In-behind jump c.jump_table _ there,
        λ small good.
            waiting code front c.jump_table c.program.label_slots 1 label
              (append_Good code (opcode op ∷ []) c.jump_table c.program.label_slots good)
              (length-append code (opcode op ∷ [])) small,
      )
goto-After c op label (LabelSlot.unnamed_label loc) e =
    rw (emit_goto, e)
      (
        grown2 c (opcode op ∷ []) (to_le_bytes loc),
        λ jump there. there,
        λ small good. append2 c (opcode op ∷ []) (to_le_bytes loc) good,
      )
goto-After c op label (LabelSlot.label_with_string loc name) e =
    rw (emit_goto, e)
      (
        grown2 c (opcode op ∷ []) (to_le_bytes loc),
        λ jump there. there,
        λ small good. append2 c (opcode op ∷ []) (to_le_bytes loc) good,
      )

pub emit_goto-Keeps : (op : DbOp) (label : ℕ) → Keeps (emit_goto op label)
unfolding emit_goto After
emit_goto-Keeps op label = record {
  keeps = λ c. elim (Option-cases (get_elem? c.program.label_slots label)) [
    | inl e ↦ rw (emit_goto, e) tt
    | inr (slot, e) ↦ goto-After c op label slot e
  ];
}

goto2-After :
    (c : Codegen) (op : DbOp) (op1 label : ℕ) (slot : LabelSlot)
    → get_elem? c.program.label_slots label ≡ some slot
    → After c (emit_goto2 op op1 label c)
unfolding emit_goto2 emit current_location is_empty position emit_u32 After Grows to_le_bytes
goto2-After c op op1 label LabelSlot.empty e =
    let code = c.program.instructions in
    let front = code ++ opcode op ∷ [] ++ to_le_bytes op1 in
    rw (emit_goto2, e)
      (
        grown3 c (opcode op ∷ []) (to_le_bytes op1) unknown,
        λ jump there. In-behind jump c.jump_table _ there,
        λ small good.
            waiting code front c.jump_table c.program.label_slots 5 label
              (append2 c (opcode op ∷ []) (to_le_bytes op1) good)
              (omega (
                arith,
                length-append (code ++ opcode op ∷ []) (to_le_bytes op1),
                length-append code (opcode op ∷ []),
              ))
              small,
      )
goto2-After c op op1 label (LabelSlot.unnamed_label loc) e =
    rw (emit_goto2, e)
      (
        grown3 c (opcode op ∷ []) (to_le_bytes op1) (to_le_bytes loc),
        λ jump there. there,
        λ small good. append3 c (opcode op ∷ []) (to_le_bytes op1) (to_le_bytes loc) good,
      )
goto2-After c op op1 label (LabelSlot.label_with_string loc name) e =
    rw (emit_goto2, e)
      (
        grown3 c (opcode op ∷ []) (to_le_bytes op1) (to_le_bytes loc),
        λ jump there. there,
        λ small good. append3 c (opcode op ∷ []) (to_le_bytes op1) (to_le_bytes loc) good,
      )

pub emit_goto2-Keeps : (op : DbOp) (op1 label : ℕ) → Keeps (emit_goto2 op op1 label)
unfolding emit_goto2 After
emit_goto2-Keeps op op1 label = record {
  keeps = λ c. elim (Option-cases (get_elem? c.program.label_slots label)) [
    | inl e ↦ rw (emit_goto2, e) tt
    | inr (slot, e) ↦ goto2-After c op op1 label slot e
  ];
}
