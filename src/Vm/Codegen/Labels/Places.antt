-- ===== src/Vm/Codegen/Labels/Places.antt =====
-- The invariant of the labels, for the emitters of labels.
use polo_db.Prelude.{
  ◌⊎◌, ℕ, zero, suc, ◌<◌, ◌^◌, ◌%◌, ◌≡◌, refl, sym, ap, ◌∙◌, arith, Bool-cases, inl, inr,
  Option-cases, some, List, [], ◌∷◌, ◌++◌, length, get_elem?, length-append, if◌then◌else◌,
}
use polo_db.Prelude.Bytes.{Bytes}
use polo_db.Errors.{Outcome, ok, err, panic, >>=-eq-ok}
use polo_db.Vm.Op.{opcode}
use polo_db.Vm.Label.{LabelSlot, JumpTableRecord, position, is_empty, to_le_bytes, as_u32}
use polo_db.Vm.Machine.{put_at}
use polo_db.Vm.Codegen.{Codegen, emit, emit_u32, current_location, emit_label, emit_label_with_name}
use polo_db.Vm.Codegen.Labels.{Grows, After, Keeps, Good, Labelled, Placed, append_Good}
use polo_db.Vm.Codegen.Labels.Jumps.{above-Outside, grown2}

put_here :
    {A : Type 0} (xs ys : List A) (i j : ℕ) (v a : A)
    → put_at xs i v ≡ ok ys
    → get_elem? ys j ≡ some a
    → (a ≡ v) ⊎ (get_elem? xs j ≡ some a)
put_here [] ys i j v a h stands = absurd cc
put_here (x ∷ xs) ys zero zero v a h stands =
    let e : v ∷ xs ≡ ys = cc in
    let e2 : get_elem? (v ∷ xs) 0 ≡ some a = ap (λ zs. get_elem? zs 0) e ∙ stands in inl cc
put_here (x ∷ xs) ys zero (suc j) v a h stands =
    let e : v ∷ xs ≡ ys = cc in inr (ap (λ zs. get_elem? zs (suc j)) e ∙ stands)
put_here (x ∷ xs) ys (suc i) zero v a h stands =
    let (rest, put, made) = >>=-eq-ok (put_at xs i v) _ h in
    let e : x ∷ rest ≡ ys = cc in inr (ap (λ zs. get_elem? zs 0) e ∙ stands)
put_here (x ∷ xs) ys (suc i) (suc j) v a h stands =
    let (rest, put, made) = >>=-eq-ok (put_at xs i v) _ h in
    let e : x ∷ rest ≡ ys = cc in
    put_here xs rest i j v a put (ap (λ zs. get_elem? zs (suc j)) e ∙ stands)

at_end : (code more : Bytes) (b : ℕ) → get_elem? (code ++ b ∷ [] ++ more) (length code) ≡ some b
at_end [] more b = refl
at_end (x ∷ code) more b = at_end code more b

-- A label that is placed at the end of the code.
label_Good :
    (code operand : Bytes) (jumps : List JumpTableRecord) (slots next : List LabelSlot) (label : ℕ)
    (slot : LabelSlot)
    → length operand ≡ 4
    → length (code ++ 1 ∷ [] ++ operand) < 2 ^ 32
    → position slot ≡ ok (as_u32 (length code))
    → put_at slots label slot ≡ ok next
    → Good code jumps slots
    → Good (code ++ 1 ∷ [] ++ operand) jumps next
unfolding Good Labelled Placed
label_Good code operand jumps slots next label slot four small here put (spaced, placed) =
    let l1 = length-append (code ++ 1 ∷ []) operand in
    let l2 = length-append code (1 ∷ []) in
    let (spaced', placed') =
      append_Good (code ++ 1 ∷ []) operand jumps slots
        (append_Good code (1 ∷ []) jumps slots (spaced, placed)) in
    (
      spaced',
      λ other p found stands place. elim (put_here slots next label other slot found put stands) [
        | inr old ↦ placed' other p found old place
        | inl new ↦
            let there : ok (length code % 2 ^ 32) ≡ ok p =
              sym here ∙ ap position (sym new) ∙ place in
            let wrapped : length code % 2 ^ 32 ≡ p = cc in
            let e : length code ≡ p = omega (arith, wrapped, l1, l2, small) in
            (
              omega (arith, e, l1, l2, four),
              ap (get_elem? (code ++ 1 ∷ [] ++ operand)) (sym e) ∙ at_end code operand 1,
              above-Outside 0 (length code) p jumps spaced (omega (arith, e)),
            )
      ],
    )

label-After :
    (c : Codegen) (label : ℕ) (slot : LabelSlot) (r : Outcome (List LabelSlot))
    → get_elem? c.program.label_slots label ≡ some slot
    → put_at c.program.label_slots label
        (LabelSlot.unnamed_label (as_u32 (length c.program.instructions)))
      ≡ r
    → After c (emit_label label c)
unfolding emit_label emit opcode current_location is_empty position emit_u32 After Grows to_le_bytes
label-After c label LabelSlot.empty (ok next) e put =
    rw (emit_label, e, put)
      (
        grown2 c (1 ∷ []) (to_le_bytes label),
        λ jump there. there,
        λ small good.
            label_Good c.program.instructions (to_le_bytes label) c.jump_table c.program.label_slots
              next label (LabelSlot.unnamed_label (as_u32 (length c.program.instructions))) refl
              small refl put good,
      )
label-After c label LabelSlot.empty (err error) e put = rw (emit_label, e, put) tt
label-After c label LabelSlot.empty panic e put = rw (emit_label, e, put) tt
label-After c label (LabelSlot.unnamed_label loc) r e put = rw (emit_label, e) tt
label-After c label (LabelSlot.label_with_string loc name) r e put = rw (emit_label, e) tt

pub emit_label-Keeps : (label : ℕ) → Keeps (emit_label label)
unfolding emit_label After
emit_label-Keeps label = record {
  keeps = λ c. elim (Option-cases (get_elem? c.program.label_slots label)) [
    | inl e ↦ rw (emit_label, e) tt
    | inr (slot, e) ↦ label-After c label slot _ e refl
  ];
}

-- The slot of a label with a name.
abbrev named : Codegen → Bytes → LabelSlot
named c name =
    if c.skip_annotation
    then LabelSlot.unnamed_label (as_u32 (length c.program.instructions))
    else LabelSlot.label_with_string (as_u32 (length c.program.instructions)) name

named_place :
    (c : Codegen) (name : Bytes)
    → position (named c name) ≡ ok (as_u32 (length c.program.instructions))
unfolding position
named_place c name = elim (Bool-cases c.skip_annotation) [ inl skip ↦ rw skip | inr keep ↦ rw keep ]

named-After :
    (c : Codegen) (label : ℕ) (name : Bytes) (slot : LabelSlot) (r : Outcome (List LabelSlot))
    → get_elem? c.program.label_slots label ≡ some slot
    → put_at c.program.label_slots label (named c name) ≡ r
    → After c (emit_label_with_name label name c)
unfolding emit_label_with_name emit opcode current_location is_empty position emit_u32 After Grows
    to_le_bytes
named-After c label name LabelSlot.empty (ok next) e put =
    rw (emit_label_with_name, e, put)
      (
        grown2 c (1 ∷ []) (to_le_bytes label),
        λ jump there. there,
        λ small good.
            label_Good c.program.instructions (to_le_bytes label) c.jump_table c.program.label_slots
              next label (named c name) refl small (named_place c name) put good,
      )
named-After c label name LabelSlot.empty (err error) e put = rw (emit_label_with_name, e, put) tt
named-After c label name LabelSlot.empty panic e put = rw (emit_label_with_name, e, put) tt
named-After c label name (LabelSlot.unnamed_label loc) r e put = rw (emit_label_with_name, e) tt
named-After c label name (LabelSlot.label_with_string loc text) r e put =
    rw (emit_label_with_name, e) tt

pub emit_label_with_name-Keeps :
    (label : ℕ) (name : Bytes) → Keeps (emit_label_with_name label name)
unfolding emit_label_with_name After
emit_label_with_name-Keeps label name = record {
  keeps = λ c. elim (Option-cases (get_elem? c.program.label_slots label)) [
    | inl e ↦ rw (emit_label_with_name, e) tt
    | inr (slot, e) ↦ named-After c label name slot _ e refl
  ];
}
