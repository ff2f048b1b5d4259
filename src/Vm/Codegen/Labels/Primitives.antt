-- ===== src/Vm/Codegen/Labels/Primitives.antt =====
-- The invariant of the labels, for the emitters of single instructions.
use polo_db.Prelude.{
  ℕ, zero, suc, ◌==◌, ◌≡◌, ap, ◌∙◌, arith, Bool-cases, inl, inr, some, List, [], ◌∷◌, ◌++◌,
  get_elem?, length-append,
}
use polo_db.Prelude.Bytes.{Bytes}
use polo_db.Errors.{Error, Outcome, ok, err, panic}
use polo_db.Bson.{Bson}
use polo_db.Pipeline.ExternalFunc.{ExternalFunc}
use polo_db.UpdateOperators.{UpdateOperator}
use polo_db.Vm.Program.{SubProgramIndexItem}
use polo_db.Vm.Op.{DbOp, opcode}
use polo_db.Vm.Label.{LabelSlot, position, to_le_bytes, as_u32}
use polo_db.Vm.Codegen.{
  pure, lift, raise, get, append, emit, emit_u8, emit_u32, current_location, new_label, push_static,
  emit_push_value, emit_ret, emit_open, push_external_func, push_index_info, push_update_operator,
  emit_call_external_func_id,
}
use polo_db.Vm.Codegen.Labels.{
  Grows, After, Keeps, Good, Labelled, append_Good, bind-Keeps, then-Keeps,
}

pub append-Keeps : (bytes : Bytes) → Keeps (append bytes)
unfolding After Grows
append-Keeps bytes = record {
  keeps = λ c. (
    omega (arith, length-append c.program.instructions bytes),
    λ jump there. there,
    λ small good. append_Good c.program.instructions bytes c.jump_table c.program.label_slots good,
  );
}

pub pure-Keeps : {A : Type 0} (a : A) → Keeps (pure a)
unfolding After Grows
pure-Keeps a = record { keeps = λ c. (omega arith, λ jump there. there, λ small good. good) }

pub raise-Keeps : {A : Type 0} (e : Error) → Keeps (raise {A = A} e)
unfolding After
raise-Keeps e = record { keeps = λ c. tt }

pub get-Keeps : Keeps get
unfolding After Grows
get-Keeps = record { keeps = λ c. (omega arith, λ jump there. there, λ small good. good) }

pub current_location-Keeps : Keeps current_location
unfolding current_location After Grows
current_location-Keeps = record {
  keeps = λ c. (omega arith, λ jump there. there, λ small good. good);
}

pub push_static-Keeps : (value : Bson) → Keeps (push_static value)
unfolding push_static After Grows
push_static-Keeps value = record {
  keeps = λ c. (omega arith, λ jump there. there, λ small good. good);
}

pub push_external_func-Keeps : (func : ExternalFunc) → Keeps (push_external_func func)
unfolding push_external_func After Grows
push_external_func-Keeps func = record {
  keeps = λ c. (omega arith, λ jump there. there, λ small good. good);
}

pub lift-Keeps : {A : Type 0} (r : Outcome A) → Keeps (lift r)
unfolding After Grows
lift-Keeps (ok a) = record { keeps = λ c. (omega arith, λ jump there. there, λ small good. good) }
lift-Keeps (err e) = record { keeps = λ c. tt }
lift-Keeps panic = record { keeps = λ c. tt }

pub emit-Keeps : (op : DbOp) → Keeps (emit op)
unfolding emit
emit-Keeps op = append-Keeps (opcode op ∷ [])

pub emit_u8-Keeps : (n : ℕ) → Keeps (emit_u8 n)
unfolding emit_u8
emit_u8-Keeps n = append-Keeps (n ∷ [])

pub emit_u32-Keeps : (n : ℕ) → Keeps (emit_u32 n)
unfolding emit_u32
emit_u32-Keeps n = append-Keeps (to_le_bytes n)

pub emit_push_value-Keeps : (id : ℕ) → Keeps (emit_push_value id)
unfolding emit_push_value
emit_push_value-Keeps id = then-Keeps (emit-Keeps DbOp.push_value) (emit_u32-Keeps id)

pub push_index_info-Keeps : (item : SubProgramIndexItem) → Keeps (push_index_info item)
unfolding push_index_info After Grows
push_index_info-Keeps item = record {
  keeps = λ c. (omega arith, λ jump there. there, λ small good. good);
}

pub push_update_operator-Keeps : (operator : UpdateOperator) → Keeps (push_update_operator operator)
unfolding push_update_operator After Grows
push_update_operator-Keeps operator = record {
  keeps = λ c. (omega arith, λ jump there. there, λ small good. good);
}

pub emit_ret-Keeps : (size : ℕ) → Keeps (emit_ret size)
unfolding emit_ret
emit_ret-Keeps size = elim (Bool-cases (size == 0)) [
  | inl zero_size ↦ rw zero_size (emit-Keeps DbOp.ret0)
  | inr sized ↦ rw sized (then-Keeps (emit-Keeps DbOp.ret) (emit_u32-Keeps size))
]

pub emit_open-Keeps : (prefix : Bson) → Keeps (emit_open prefix)
unfolding emit_open
emit_open-Keeps prefix =
    bind-Keeps get-Keeps
      λ c. then-Keeps (emit-Keeps _) (bind-Keeps (push_static-Keeps prefix) λ id. emit_u32-Keeps id)

pub emit_call_external_func_id-Keeps : (id size : ℕ) → Keeps (emit_call_external_func_id id size)
unfolding emit_call_external_func_id
emit_call_external_func_id-Keeps id size =
    then-Keeps (emit-Keeps DbOp.call_external)
      (then-Keeps (emit_u32-Keeps id) (emit_u32-Keeps (as_u32 size)))

-- A new label has no place.
slot_behind :
    (slots : List LabelSlot) (label p : ℕ) (slot : LabelSlot)
    → get_elem? (slots ++ LabelSlot.empty ∷ []) label ≡ some slot
    → position slot ≡ ok p
    → get_elem? slots label ≡ some slot
unfolding position
slot_behind [] zero p slot stands place =
    let e : LabelSlot.empty ≡ slot = cc in
    let e2 : position LabelSlot.empty ≡ ok p = ap position e ∙ place in absurd cc
slot_behind [] (suc label) p slot stands place = cc
slot_behind (s ∷ slots) zero p slot stands place = stands
slot_behind (s ∷ slots) (suc label) p slot stands place =
    slot_behind slots label p slot stands place

pub new_label-Keeps : Keeps new_label
unfolding new_label After Grows Good Labelled
new_label-Keeps = record {
  keeps = λ c. (
    omega arith,
    λ jump there. there,
    λ small (spaced, placed). (
      spaced,
      λ label p slot stands place.
          placed label p slot (slot_behind c.program.label_slots label p slot stands place) place,
    ),
  );
}
