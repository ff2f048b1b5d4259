-- ===== src/Pipeline/Group.antt =====
-- src/polodb_core/vm/vm_group.rs. The values are a map that keeps its order; both maps are the list of
-- their entries, whose keys are the keys of a document and so are different.
use polo_db.Prelude.{Bool, true, false, Option, none, some, List, [], ◌∷◌, ◌++◌, if◌then◌else◌}
use polo_db.Prelude.Bytes.{Bytes, str, str_eq}
use polo_db.Errors.{Outcome, ok, err, ◌>>=◌, unwrap, validation_error, field_type_unexpected}
use polo_db.Bson.{Bson, Document, end, entry, null, document}
use polo_db.Bson.Platform.{Platform}
use polo_db.Pipeline.{Status, first_argument}
use polo_db.Pipeline.Operators.{VmOperator, compile_operator, initial_value, next_value, complete}

abbrev pub Operators : Type 0
Operators = List (Bytes × VmOperator)

pub record VmFuncGroup : Type 0 where
  pub is_completed : Bool
  pub group_values : List (Bytes × Bson)
  pub operators : Operators

abbrev pub find_operator : Operators → Bytes → Option VmOperator
find_operator [] k = none
find_operator ((name, op) ∷ ops) k = if str_eq name k then some op else find_operator ops k

-- The operator with the state of its cell after a call.
abbrev store_operator : Operators → Bytes → VmOperator → Operators
store_operator [] k op = []
store_operator ((name, old) ∷ ops) k op =
    let rest = store_operator ops k op in
    if str_eq name k then (name, op) ∷ ops else (name, old) ∷ rest

abbrev found_id : Document → Bool
found_id end = false
found_id (entry k v rest) = if str_eq k (str "_id") then true else found_id rest

module _ (P : Platform) where
  -- `_id` keeps its value; another field compiles to an operator.
  unfoldable pub group_entries : List Bytes → Document → Outcome VmFuncGroup
  group_entries paths end = ok record { is_completed = false; group_values = []; operators = [] }
  group_entries paths (entry k v rest) =
      if str_eq k (str "_id")
      then (do
        group ← group_entries paths rest
        ok record group { group_values = (k, v) ∷ group.group_values })
      else (do
        op ← compile_operator P (paths ++ k ∷ []) v
        initial ← initial_value P op
        group ← group_entries paths rest
        ok record group {
          group_values = (k, initial) ∷ group.group_values;
          operators = (k, op) ∷ group.operators;
        })

  unfoldable pub group_compile : List Bytes → Bson → Outcome VmFuncGroup
  unfolding group_entries
  group_compile paths (document doc) = do
    group ← group_entries paths doc
    if found_id doc
        then ok group
        else err (validation_error (str "Field '_id' is required for $group"))
  group_compile paths _ = err (field_type_unexpected (str "$group") (str "Document"))

  -- The document that the end of the input is answered with.
  unfoldable pub group_result : Operators → List (Bytes × Bson) → Document → Outcome Document
  group_result ops [] result = ok result
  group_result ops ((k, value) ∷ values) result =
      if str_eq k (str "_id") then group_result ops values (P.insert result k value) else (do
        op ← unwrap (find_operator ops k)
        final_value ← complete P op
        group_result ops values (P.insert result k final_value))

  -- An operator is given the value that the group holds.
  unfoldable pub group_next :
      Operators → List (Bytes × Bson) → Outcome (Operators × List (Bytes × Bson))
  group_next ops [] = ok (ops, [])
  group_next ops ((k, v) ∷ values) =
      if str_eq k (str "_id")
      then (do (ops', next) ← group_next ops values; ok (ops', (k, v) ∷ next))
      else (do
        op ← unwrap (find_operator ops k)
        (op', value) ← next_value P op v
        (ops', next) ← group_next (store_operator ops k op') values
        ok (ops', (k, value) ∷ next))

  unfoldable pub group_value : VmFuncGroup → Bson → Outcome (VmFuncGroup × Status)
  unfolding group_result group_next
  group_value s null = do
    result ← group_result s.operators s.group_values end
    ok (record s { is_completed = true }, Status.next (document result))
  group_value s _ = do
    (ops, values) ← group_next s.operators s.group_values
    ok (record s { group_values = values; operators = ops }, Status.continue)

  unfoldable pub group_call : VmFuncGroup → List Bson → Outcome (VmFuncGroup × Status)
  unfolding group_value
  group_call s args = do arg0 ← first_argument args; group_value s arg0
