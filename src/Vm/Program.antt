-- ===== src/Vm/Program.antt =====
-- The compiled program: `SubProgram` of src/polodb_core/vm/subprogram.rs, and the
-- global variables of global_variable.rs.
use polo_db.Prelude.{ℕ, Option, List, []}
use polo_db.Prelude.Bytes.{Bytes}
use polo_db.Bson.{Bson}
use polo_db.Index.{IndexInfo}
use polo_db.UpdateOperators.{UpdateOperator}
use polo_db.Vm.Label.{LabelSlot}
use polo_db.Pipeline.ExternalFunc.{ExternalFunc}

pub record GlobalVariableSlot : Type 0 where
  pub pos : ℕ
  pub init_value : Bson
  pub name : Option Bytes

pub record SubProgramIndexItem : Type 0 where
  pub col_name : Bytes
  pub indexes : List (Bytes × IndexInfo)

pub record SubProgram : Type 0 where
  pub static_values : List Bson
  pub instructions : Bytes
  pub global_variables : List GlobalVariableSlot
  pub label_slots : List LabelSlot
  pub index_infos : List SubProgramIndexItem
  pub external_funcs : List ExternalFunc
  pub update_operators : List UpdateOperator

unfoldable pub empty_program : SubProgram
empty_program = record {
  static_values = [];
  instructions = [];
  global_variables = [];
  label_slots = [];
  index_infos = [];
  external_funcs = [];
  update_operators = [];
}
