-- ===== src/Vm/Codegen/Labels/Examples.antt =====
-- The theorems on the jumps at small programs.
use polo_db.Prelude.{[], refl, arith, true}
use polo_db.Prelude.Bytes.{str, starts_with}
use polo_db.Errors.{Outcome, ok}
use polo_db.Prelude.Int.{pos}
use polo_db.Bson.{Document, end, entry, int32, document}
use polo_db.Bson.Platform.{Platform}
use polo_db.Bson.Entries.{entries, get}
use polo_db.Index.{CollectionSpecification}
use polo_db.UpdateOperators.Loop.{validate_key}
use polo_db.Vm.Codegen.Compile.{push_indexes, emit_index_op, update_code}
use polo_db.Vm.Codegen.Layout.{emit_query_layout}
use polo_db.Vm.Codegen.Filter.{emit_standard_query_doc}
use polo_db.Vm.Codegen.Update.{emit_update_operation}
use polo_db.Vm.Codegen.Labels.Scans.{update_code-LandsAt}
use polo_db.Vm.Op.{DbOp}
use polo_db.Vm.Program.{SubProgram}
use polo_db.Vm.Codegen.{
  Codegen, Gen, ◌>>◌, new, new_label, emit, emit_label, emit_label_with_name, take,
}
use polo_db.Vm.Codegen.Labels.Take.{LandsAt}

abbrev state : {A : Type 0} → Outcome (Codegen × A) → Codegen
unfolding new
state (ok (c, a)) = c
state _ = new true true

abbrev program : Outcome (Codegen × SubProgram) → SubProgram
unfolding new
program (ok (c, taken)) = taken
program _ = (new true true).program

-- One label, which has no place.
abbrev one_label : Codegen
unfolding new new_label
one_label = state (new_label (new true true))

-- An instruction, the label and the end.
abbrev to_label : Gen SubProgram
to_label = emit DbOp.pop >> emit_label 0 >> take

abbrev to_name : Gen SubProgram
to_name = emit DbOp.pop >> emit_label_with_name 0 (str "end") >> take

abbrev P : Platform
P = entries true

abbrev spec : CollectionSpecification
spec = record { _id = str "c"; indexes = [] }

abbrev query : Document
query = entry (str "a") (int32 (pos 1)) end

abbrev update : Document
update = entry (str "$inc") (document (entry (str "a") (int32 (pos 2)) end)) end

abbrev updating : Outcome (Codegen × SubProgram)
unfolding new
updating = update_code P spec query update true (new true true)

update_code-LandsAt_example : LandsAt (program updating) 6 6 × LandsAt (program updating) 2 11
unfolding push_indexes emit_query_layout get new emit_index_op emit_update_operation validate_key
    emit_standard_query_doc starts_with take updating state program
update_code-LandsAt_example =
    update_code-LandsAt P spec query update true true (state updating) (program updating) refl refl
      (omega arith)
