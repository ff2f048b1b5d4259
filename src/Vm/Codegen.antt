-- ===== src/Vm/Codegen.antt =====
-- The state of `Codegen` and its emitters (src/polodb_core/vm/codegen.rs), with labels (label.rs). Code is
-- emitted in a state monad; `unreachable!` and an index out of range are a panic. A label is its number.
pub mod Query
pub mod Negation
pub mod Filter
pub mod Layout
pub mod Aggregate
pub mod Update
pub mod Compile
pub mod Labels
use polo_db.Prelude.{
  ℕ, zero, suc, ◌+◌, ◌-◌, ◌^◌, ◌/◌, ◌%◌, ◌==◌, Bool, true, false, Option, none, some, List, [], ◌∷◌,
  ◌++◌, if◌then◌else◌, length, get_elem?,
}
use polo_db.Prelude.Bytes.{Bytes, str}
use polo_db.Errors.{Error, Outcome, ok, err, panic, unwrap}
use polo_db.Bson.{Bson}
use polo_db.UpdateOperators.{UpdateOperator}
use polo_db.Pipeline.ExternalFunc.{ExternalFunc}
use polo_db.Vm.Op.{DbOp, opcode}
use polo_db.Vm.Label.{
  LabelSlot, JumpTableRecord, position, is_empty, as_u32, to_le_bytes, unify_labels,
}
use polo_db.Vm.Program.{SubProgram, SubProgramIndexItem, GlobalVariableSlot, empty_program}
use polo_db.Vm.Machine.{put_at}

-- The names of the fields that the compiler is inside of are a stack with its top at the end.
pub record Codegen : Type 0 where
  pub program : SubProgram
  pub jump_table : List JumpTableRecord
  pub skip_annotation : Bool
  pub is_write : Bool
  pub paths : List Bytes

abbrev pub Gen : Type 0 → Type 0
Gen A = Codegen → Outcome (Codegen × A)

abbrev pub continued : {A B : Type 0} → Outcome (Codegen × A) → (A → Gen B) → Outcome (Codegen × B)
continued (ok (c, a)) next = next a c
continued (err e) next = err e
continued panic next = panic

infixl 5 ◌>>=◌ ◌>>◌
abbrev pub ◌>>=◌ : {B A : Type 0} → Gen A → (A → Gen B) → Gen B
(gen >>= next) c = continued (gen c) next

abbrev pub ◌>>◌ : {B : Type 0} → Gen (Unit {0}) → Gen B → Gen B
(gen >> next) c = continued (gen c) (λ _. next)

abbrev pub pure : {A : Type 0} → A → Gen A
pure a c = ok (c, a)

abbrev pub with_codegen : {A : Type 0} → Codegen → Outcome A → Outcome (Codegen × A)
with_codegen c (ok a) = ok (c, a)
with_codegen c (err e) = err e
with_codegen c panic = panic

abbrev pub lift : {A : Type 0} → Outcome A → Gen A
lift outcome c = with_codegen c outcome

abbrev pub raise : {A : Type 0} → Error → Gen A
raise e c = err e

unfoldable pub new : Bool → Bool → Codegen
unfolding empty_program
new skip_annotation is_write = record {
  program = empty_program;
  jump_table = [];
  skip_annotation = skip_annotation;
  is_write = is_write;
  paths = [];
}

abbrev pub get : Gen Codegen
get c = ok (c, c)

abbrev pub append : Bytes → Gen (Unit {0})
append bytes c =
    ok (
      record c { program = record c.program { instructions = c.program.instructions ++ bytes } },
      tt,
    )

unfoldable pub emit : DbOp → Gen (Unit {0})
unfolding opcode
emit op = append (opcode op ∷ [])

unfoldable pub emit_u8 : ℕ → Gen (Unit {0})
emit_u8 op = append (op ∷ [])

unfoldable pub emit_u32 : ℕ → Gen (Unit {0})
unfolding to_le_bytes
emit_u32 op = append (to_le_bytes op)

unfoldable pub current_location : Gen ℕ
current_location c = ok (c, as_u32 (length c.program.instructions))

unfoldable pub new_label : Gen ℕ
new_label c = ok (
  record c {
    program = record c.program { label_slots = c.program.label_slots ++ LabelSlot.empty ∷ [] };
  },
  as_u32 (length c.program.label_slots),
)

unfoldable pub new_global_variable_impl : Bson → Option Bytes → Gen ℕ
new_global_variable_impl init_value name c = ok (
  record c {
    program = record c.program {
      global_variables =
          c.program.global_variables
          ++ record { pos = 0; init_value = init_value; name = name } ∷ [];
    };
  },
  as_u32 (length c.program.global_variables),
)

unfoldable pub push_static : Bson → Gen ℕ
push_static value c = ok (
  record c { program = record c.program { static_values = c.program.static_values ++ value ∷ [] } },
  as_u32 (length c.program.static_values),
)

unfoldable pub push_external_func : ExternalFunc → Gen ℕ
push_external_func func c = ok (
  record c {
    program = record c.program { external_funcs = c.program.external_funcs ++ func ∷ [] };
  },
  as_u32 (length c.program.external_funcs),
)

unfoldable pub push_index_info : SubProgramIndexItem → Gen ℕ
push_index_info index_item c = ok (
  record c {
    program = record c.program { index_infos = c.program.index_infos ++ index_item ∷ [] };
  },
  as_u32 (length c.program.index_infos),
)

unfoldable pub push_update_operator : UpdateOperator → Gen ℕ
push_update_operator operator c = ok (
  record c {
    program = record c.program { update_operators = c.program.update_operators ++ operator ∷ [] };
  },
  length c.program.update_operators,
)

-- The slot of a label, which panics if the label is not of this program.
abbrev slot_of : ℕ → Gen LabelSlot
slot_of label = do c ← get; lift (unwrap (get_elem? c.program.label_slots label))

abbrev with_slots : List LabelSlot → Gen (Unit {0})
with_slots slots c = ok (record c { program = record c.program { label_slots = slots } }, tt)

abbrev set_slot : ℕ → LabelSlot → Gen (Unit {0})
set_slot label slot = do
  c ← get
  slots ← lift (put_at c.program.label_slots label slot)
  with_slots slots

abbrev when_empty : LabelSlot → Gen (Unit {0}) → Gen (Unit {0})
when_empty slot gen = if is_empty slot then gen else lift panic

unfoldable pub emit_label : ℕ → Gen (Unit {0})
unfolding is_empty emit emit_u32 current_location
emit_label label = do
  slot ← slot_of label
  when_empty slot (do
    current_loc ← current_location
    emit DbOp.label
    emit_u32 label
    set_slot label (LabelSlot.unnamed_label current_loc))

unfoldable pub emit_label_with_name : ℕ → Bytes → Gen (Unit {0})
unfolding is_empty emit emit_u32 current_location
emit_label_with_name label name = do
  slot ← slot_of label
  when_empty slot (do
    current_loc ← current_location
    emit DbOp.label
    emit_u32 label
    c ← get
    set_slot label (
        if c.skip_annotation
        then LabelSlot.unnamed_label current_loc
        else LabelSlot.label_with_string current_loc name))

unfoldable pub emit_load_global : ℕ → Gen (Unit {0})
unfolding emit emit_u32
emit_load_global global = do emit DbOp.load_global; emit_u32 global

unfoldable pub emit_store_global : ℕ → Gen (Unit {0})
unfolding emit emit_u32
emit_store_global global = do emit DbOp.store_global; emit_u32 global

unfoldable pub emit_push_value : ℕ → Gen (Unit {0})
unfolding emit emit_u32
emit_push_value static_id = do emit DbOp.push_value; emit_u32 static_id

unfoldable pub emit_ret : ℕ → Gen (Unit {0})
unfolding emit emit_u32
emit_ret return_size =
    if return_size == 0 then emit DbOp.ret0 else (do emit DbOp.ret; emit_u32 return_size)

unfoldable pub emit_open : Bson → Gen (Unit {0})
unfolding emit emit_u32 push_static
emit_open prefix = do
  c ← get
  emit (if c.is_write then DbOp.open_write else DbOp.open_read)
  id ← push_static prefix
  emit_u32 id

unfoldable pub emit_call_external_func_id : (external_func_id param_size : ℕ) → Gen (Unit {0})
unfolding emit emit_u32
emit_call_external_func_id external_func_id param_size = do
  emit DbOp.call_external
  emit_u32 external_func_id
  emit_u32 (as_u32 param_size)

abbrev add_record : JumpTableRecord → Gen (Unit {0})
add_record jump c = ok (record c { jump_table = c.jump_table ++ jump ∷ [] }, tt)

-- The target of a jump, or four bytes that `unify_labels` writes over.
abbrev emit_target : (record_loc offset label : ℕ) → Gen (Unit {0})
emit_target record_loc offset label = do
  slot ← slot_of label
  if is_empty slot
      then (do
        append (255 ∷ 255 ∷ 255 ∷ 255 ∷ [])
        add_record record { begin_loc = record_loc; offset = offset; label_id = label })
      else (do loc ← lift (position slot); emit_u32 loc)

unfoldable pub emit_goto : DbOp → ℕ → Gen (Unit {0})
unfolding is_empty position emit emit_u32 current_location
emit_goto op label = do record_loc ← current_location; emit op; emit_target record_loc 1 label

unfoldable pub emit_goto2 : DbOp → (op1 label : ℕ) → Gen (Unit {0})
unfolding is_empty position emit emit_u32 current_location
emit_goto2 op op1 label = do
  record_loc ← current_location
  emit op
  emit_u32 op1
  emit_target record_loc 5 label

-- `take`: the program, with every jump that went ahead led to its label.
unfoldable pub take : Gen SubProgram
unfolding unify_labels
take = do
  c ← get
  code ← lift (unify_labels c.jump_table c.program.label_slots c.program.instructions)
  pure (record c.program { instructions = code })

-- What a compilation ends with.
abbrev pub compiled : Outcome (Codegen × SubProgram) → Outcome SubProgram
compiled (ok (c, program)) = ok program
compiled (err e) = err e
compiled panic = panic
