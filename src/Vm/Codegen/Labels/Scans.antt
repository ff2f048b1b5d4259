-- ===== src/Vm/Codegen/Labels/Scans.antt =====
-- The scan of src/polodb_core/vm/codegen.rs in the programs of updates: where its first jump leads.
use mathlib.Core.Path.{subst}
use polo_db.Prelude.{
  ℕ, ◌+◌, ◌<◌, ◌^◌, ◌-◌, ◌≡◌, refl, sym, ap, ◌∙◌, arith, Bool, true, Option, none, some, List, [],
  ◌∷◌, ◌++◌, length, get_elem?, if◌then◌else◌,
}
use polo_db.Prelude.Bytes.{Bytes, str}
use polo_db.Errors.{Outcome, ok, err, panic}
use polo_db.Bson.{Document, string}
use polo_db.Vm.Op.{DbOp, opcode}
use polo_db.Vm.Label.Patches.{Spaced}
use polo_db.Vm.Label.{LabelSlot, to_le_bytes}
use polo_db.Vm.Program.{SubProgram, SubProgramIndexItem}
use polo_db.Bson.Platform.{Platform}
use polo_db.Index.{CollectionSpecification, IndexInfo}
use polo_db.Vm.Codegen.Compile.{push_indexes, emit_update_item, update_code}
use polo_db.Vm.Codegen.Labels.Programs.{emit_update_item-Keeps}
use polo_db.Vm.Codegen.{
  new, push_index_info, emit, emit_open, emit_u32, push_static, Codegen, Gen, continued, ◌>>=◌,
  ◌>>◌, pure, new_label, take, emit_goto,
}
use polo_db.Vm.Codegen.Layout.{emit_scan, emit_query_layout, try_query_by_pkey, try_query_by_index}
use polo_db.Vm.Codegen.Labels.{
  Good, Labelled, IsGood, Grows, After, Keeps, bind-Keeps, code_length, ◌>>>◌,
}
use polo_db.Vm.Codegen.Labels.Primitives.{
  emit-Keeps, emit_u32-Keeps, emit_ret-Keeps, new_label-Keeps, pure-Keeps,
}
use polo_db.Vm.Codegen.Labels.Jumps.{emit_goto-Keeps, grown2}
use polo_db.Vm.Codegen.Labels.Places.{emit_label-Keeps, emit_label_with_name-Keeps}
use polo_db.Vm.Codegen.Labels.Layouts.{BeforeKeeps, emit_before_close-Keeps}
use polo_db.Vm.Codegen.Labels.Filters.{emit_standard_query_doc-Keeps}
use polo_db.Vm.Codegen.Labels.Take.{LandsAt, take-Takes, then-Takes}
use polo_db.Vm.Codegen.Labels.Gotos.{emit_goto-LandsAt, goto_lem, jumped}

continued_assoc :
    {A B C : Type 0} (r : Outcome (Codegen × A)) (f : A → Gen B) (g : B → Gen C)
    → continued (continued r f) g ≡ continued r (λ a d. continued (f a d) g)
continued_assoc (ok (d, a)) f g = refl
continued_assoc (err e) f g = refl
continued_assoc panic f g = refl

-- A jump in front of the rest of a program.
goto-LandsAt :
    {tail : Gen (Unit {0})} (op : DbOp) (label : ℕ) (c last : Codegen) (program : SubProgram)
    → Keeps tail
    → IsGood c
    → get_elem? c.program.label_slots label ≡ some LabelSlot.empty
    → (emit_goto op label >> tail >> take) c ≡ ok (last, program)
    → length program.instructions < 2 ^ 32
    → LandsAt program label (code_length c + 1)
goto-LandsAt {tail} op label c last program keeping good waits ran small =
    emit_goto-LandsAt op label (tail >> take) c last program (then-Takes keeping take-Takes) good
      waits (sym (continued_assoc (emit_goto op label c) (λ _. tail) (λ _. take)) ∙ ran) small

-- A second jump behind a first one.
second-LandsAt :
    {tail : Gen (Unit {0})} (first op : DbOp) (other label : ℕ) (c d last : Codegen)
    (program : SubProgram)
    → Keeps tail
    → emit_goto first other c ≡ ok (d, tt)
    → IsGood d
    → get_elem? d.program.label_slots label ≡ some LabelSlot.empty
    → (emit_goto first other >> (emit_goto op label >> tail) >> take) c ≡ ok (last, program)
    → length program.instructions < 2 ^ 32
    → LandsAt program label (code_length d + 1)
second-LandsAt {tail} first op other label c d last program keeping did good waits ran small =
    goto-LandsAt op label d last program keeping good waits
      (ap (λ r. continued (continued r (λ _. emit_goto op label >> tail)) (λ _. take)) (sym did)
        ∙ ran)
      small

-- The code of a state without labels, and with the seven labels of a scan.
abbrev with_labels : List LabelSlot → Codegen → Codegen
with_labels slots c = record c { program = record c.program { label_slots = slots } }

abbrev seven_labels : List LabelSlot
seven_labels =
    LabelSlot.empty ∷ LabelSlot.empty ∷ LabelSlot.empty ∷ LabelSlot.empty ∷ LabelSlot.empty
    ∷ LabelSlot.empty ∷ LabelSlot.empty ∷ []

seven-Keeps : Keeps (do
  l0 ← new_label
  l1 ← new_label
  l2 ← new_label
  l3 ← new_label
  l4 ← new_label
  l5 ← new_label
  l6 ← new_label
  pure tt)
seven-Keeps = bind-Keeps new_label-Keeps λ _. bind-Keeps new_label-Keeps λ _.
    bind-Keeps new_label-Keeps λ _. bind-Keeps new_label-Keeps λ _.
      bind-Keeps new_label-Keeps
        λ _. bind-Keeps new_label-Keeps λ _. bind-Keeps new_label-Keeps λ _. pure-Keeps tt

seven-IsGood :
    (c : Codegen)
    → code_length c < 2 ^ 32
    → IsGood (with_labels [] c)
    → IsGood (with_labels seven_labels c)
unfolding After Grows new_label
seven-IsGood c small good = (seven-Keeps.keeps (with_labels [] c)).2 small good

-- The state behind the jump of a scan that finds nothing.
abbrev behind_rewind : Codegen → Codegen
behind_rewind c = jumped c (c.program.instructions ++ opcode DbOp.rewind ∷ []) 1 6

rewind-IsGood :
    (c : Codegen)
    → get_elem? c.program.label_slots 6 ≡ some LabelSlot.empty
    → code_length (behind_rewind c) < 2 ^ 32
    → IsGood c
    → IsGood (behind_rewind c)
unfolding After Grows
rewind-IsGood c waits small good =
    (subst (After c) (goto_lem DbOp.rewind 6 c waits) ((emit_goto-Keeps DbOp.rewind 6).keeps c)).2
      small good

module _ (query : Document) (result_callback : Gen (Unit {0})) (before : Option (Gen (Unit {0})))
    (is_many : Bool) (inside : Keeps result_callback) (closing : BeforeKeeps before) where
  -- From a state in order that has no labels, the `Rewind` of a scan leads to the label in front of its end.
  emit_scan-LandsAt :
      (c last : Codegen) (program : SubProgram)
      → IsGood (with_labels [] c)
      → (emit_scan query result_callback before is_many >> take) (with_labels [] c)
        ≡ ok (last, program)
      → code_length (behind_rewind (with_labels seven_labels c)) < 2 ^ 32
      → length program.instructions < 2 ^ 32
      → LandsAt program 6 (code_length c + 1)
        × LandsAt program 2 (code_length (behind_rewind (with_labels seven_labels c)) + 1)
  unfolding emit_scan new_label
  emit_scan-LandsAt c last program good ran fits small =
      let d = with_labels seven_labels c in
      let good_d =
        seven-IsGood c
          (omega (arith, fits, grown2 d (opcode DbOp.rewind ∷ []) (255 ∷ 255 ∷ 255 ∷ 255 ∷ [])))
          good in
      let rest =
        emit_label-Keeps 3
        >>> emit_goto-Keeps DbOp.next 2
        >>> emit_label_with_name-Keeps 6 (str "close")
        >>> emit_before_close-Keeps before closing
        >>> emit-Keeps DbOp.close
        >>> emit-Keeps DbOp.halt
        >>> emit_label_with_name-Keeps 5 (str "not_this_item")
        >>> emit-Keeps DbOp.pop
        >>> emit_goto-Keeps DbOp.goto 3
        >>> emit_label_with_name-Keeps 4 (str "result")
        >>> inside
        >>> emit_goto-Keeps DbOp.goto (if is_many then 3 else 6)
        >>> emit_label_with_name-Keeps 2 (str "compare")
        >>> emit-Keeps DbOp.dup
        >>> emit_goto-Keeps DbOp.call 0
        >>> emit_u32-Keeps 1
        >>> emit_goto-Keeps DbOp.if_false 5
        >>> emit_goto-Keeps DbOp.goto 4
        >>> emit_label_with_name-Keeps 0 (str "compare_function")
        >>> emit_standard_query_doc-Keeps query 4 1
        >>> emit_label_with_name-Keeps 1 (str "compare_function_clean")
        >>> emit_ret-Keeps 0 in
      (
        goto-LandsAt DbOp.rewind 6 d last program (emit_goto-Keeps DbOp.goto 2 >>> rest) good_d refl
            ran small,
        second-LandsAt DbOp.rewind DbOp.goto 6 2 d (behind_rewind d) last program rest
            (goto_lem DbOp.rewind 6 d refl) (rewind-IsGood d refl fits good_d) refl ran small,
      )

-- A state behind the indexes of an update.
abbrev behind_indexes : Bool → List SubProgramIndexItem → Codegen
unfolding new
behind_indexes skip infos =
    let c = new skip true in record c { program = record c.program { index_infos = infos } }

-- What `push_indexes` does with the indexes of a collection.
abbrev index_id : Bytes → List (Bytes × IndexInfo) → Gen ℕ
index_id name indexes = elim indexes [
  | [] ↦ pure (2 ^ 32 - 1)
  | index ∷ others ↦ push_index_info record { col_name = name; indexes = index ∷ others }
]

-- The state behind the opening of the cursor.
abbrev opened : Bool → List SubProgramIndexItem → Bytes → Codegen
unfolding new
opened skip infos name =
    let c = behind_indexes skip infos in
    record c {
      program = record c.program {
        instructions = opcode DbOp.open_write ∷ 0 ∷ 0 ∷ 0 ∷ 0 ∷ [];
        static_values = string name ∷ [];
      };
    }

opened-IsGood :
    (skip : Bool) (infos : List SubProgramIndexItem) (name : Bytes)
    → IsGood (opened skip infos name)
unfolding new Good Labelled Spaced
opened-IsGood skip infos name = (omega arith, λ label p slot stands place. absurd cc)

module _ (P : Platform) (col_spec : CollectionSpecification) (query : Document) where
  layout_lem :
      (result_callback : Gen (Unit {0})) (is_many : Bool) (skip : Bool)
      (infos : List SubProgramIndexItem)
      → P.get query (str "_id") ≡ none
      → emit_query_layout P col_spec query result_callback none is_many (behind_indexes skip infos)
        ≡ emit_scan query result_callback none is_many (opened skip infos col_spec._id)
  unfolding emit_query_layout try_query_by_index emit_open emit push_static emit_u32 opcode
      to_le_bytes new
  layout_lem result_callback is_many skip infos no_id = rw (try_query_by_pkey, no_id) refl

  layout-LandsAt :
      (result_callback : Gen (Unit {0})) (is_many : Bool) (skip : Bool)
      (infos : List SubProgramIndexItem) (last : Codegen) (program : SubProgram)
      → Keeps result_callback
      → P.get query (str "_id") ≡ none
      → (emit_query_layout P col_spec query result_callback none is_many >> take)
          (behind_indexes skip infos)
        ≡ ok (last, program)
      → length program.instructions < 2 ^ 32
      → LandsAt program 6 6 × LandsAt program 2 11
  unfolding BeforeKeeps new
  layout-LandsAt result_callback is_many skip infos last program inside no_id ran small =
      let here = layout_lem result_callback is_many skip infos no_id in
      emit_scan-LandsAt query result_callback none is_many inside tt
        (opened skip infos col_spec._id) last program (opened-IsGood skip infos col_spec._id)
        (ap (λ r. continued r (λ _. take)) (sym here) ∙ ran) (omega arith) small

  indexed-LandsAt :
      (indexes : List (Bytes × IndexInfo)) (callback : ℕ → Gen (Unit {0})) (is_many skip : Bool)
      (last : Codegen) (program : SubProgram)
      → ((id : ℕ) → Keeps (callback id))
      → P.get query (str "_id") ≡ none
      → continued
          (index_id col_spec._id indexes (new skip true))
          (λ id. emit_query_layout P col_spec query (callback id) none is_many >> take)
        ≡ ok (last, program)
      → length program.instructions < 2 ^ 32
      → LandsAt program 6 6 × LandsAt program 2 11
  unfolding push_index_info new
  indexed-LandsAt [] callback is_many skip last program inside no_id ran small =
      layout-LandsAt (callback (2 ^ 32 - 1)) is_many skip [] last program (inside (2 ^ 32 - 1))
        no_id ran small
  indexed-LandsAt (index ∷ others) callback is_many skip last program inside no_id ran small =
      layout-LandsAt (callback 0) is_many skip
        (record { col_name = col_spec._id; indexes = index ∷ others } ∷ []) last program (inside 0)
        no_id ran small

  -- In the code of an update whose query has no `_id`, if it has less than 2 ^ 32 bytes, the two jumps behind the opening of
  -- the cursor are led to their labels, whatever the query and the update are: the operand of `Rewind`, which jumps where
  -- the collection is empty, is the place of the label of the end, that of `Goto` is the place of the label of the
  -- comparison, and the instruction of a label stands at both.
  pub update_code-LandsAt :
      (update : Document) (skip_annotation is_many : Bool) (last : Codegen) (program : SubProgram)
      → P.get query (str "_id") ≡ none
      → update_code P col_spec query update is_many (new skip_annotation true) ≡ ok (last, program)
      → length program.instructions < 2 ^ 32
      → LandsAt program 6 6 × LandsAt program 2 11
  unfolding push_indexes
  update_code-LandsAt update skip_annotation is_many last program no_id ran small =
      indexed-LandsAt col_spec.indexes (emit_update_item P col_spec update) is_many skip_annotation
        last program (emit_update_item-Keeps P col_spec update) no_id ran small
