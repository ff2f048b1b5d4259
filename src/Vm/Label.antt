-- ===== src/Vm/Label.antt =====
-- The labels of src/polodb_core/vm/label.rs, the encoding of operands, and `unify_labels` of codegen.rs,
-- which writes the places of the labels into the jumps that came before them. A label is its number.
pub mod RoundTrip
pub mod Patches
mod Copies
use polo_db.Prelude.{
  ℕ, ◌+◌, ◌/◌, ◌%◌, ◌^◌, leb, Bool, true, false, List, [], ◌∷◌, ◌++◌, if◌then◌else◌, length, take,
  drop, get_elem?,
}
use polo_db.Prelude.Bytes.{Bytes}
use polo_db.Errors.{Outcome, ok, panic, ◌>>=◌, unwrap}

-- `LabelSlot`: where the label stands, with a name or without.
pub data LabelSlot : Type 0 where
  empty : LabelSlot
  unnamed_label : ℕ → LabelSlot
  label_with_string : ℕ → Bytes → LabelSlot

unfoldable pub position : LabelSlot → Outcome ℕ
position LabelSlot.empty = panic
position (LabelSlot.unnamed_label pos) = ok pos
position (LabelSlot.label_with_string pos _) = ok pos

unfoldable pub is_empty : LabelSlot → Bool
is_empty LabelSlot.empty = true
is_empty (LabelSlot.unnamed_label _) = false
is_empty (LabelSlot.label_with_string _ _) = false

pub record JumpTableRecord : Type 0 where
  pub begin_loc : ℕ
  pub offset : ℕ
  pub label_id : ℕ

-- `as u32`, and `to_le_bytes` of such a number
abbrev pub as_u32 : ℕ → ℕ
as_u32 n = n % 2 ^ 32

unfoldable pub to_le_bytes : ℕ → Bytes
to_le_bytes n = n % 256 ∷ n / 256 % 256 ∷ n / 65536 % 256 ∷ n / 16777216 % 256 ∷ []

-- `instructions[pos..pos + 4].copy_from_slice(..)`
unfoldable pub copy_at : Bytes → ℕ → Bytes → Outcome Bytes
copy_at instructions pos bytes =
    if leb (pos + length bytes) (length instructions)
    then ok (take pos instructions ++ (bytes ++ drop (pos + length bytes) instructions))
    else panic

-- for record in &self.jump_table
unfoldable pub unify_labels : List JumpTableRecord → List LabelSlot → Bytes → Outcome Bytes
unfolding position to_le_bytes copy_at
unify_labels [] label_slots instructions = ok instructions
unify_labels (jump ∷ jumps) label_slots instructions = do
  slot ← unwrap (get_elem? label_slots jump.label_id)
  target ← position slot
  written ← copy_at instructions (jump.begin_loc + jump.offset) (to_le_bytes target)
  unify_labels jumps label_slots written
