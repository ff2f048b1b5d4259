-- ===== src/Vm/Codegen/Labels/Conditions.antt =====
-- The invariant of the labels, for the emitters of conditions.
use polo_db.Prelude.{ℕ, arith, Bool, true, false, some, List, [], ◌∷◌}
use polo_db.Prelude.Int.{ℤ}
use polo_db.Prelude.Bytes.{Bytes, str}
use polo_db.Bson.{Bson, string, int64}
use polo_db.Errors.{invalid_field}
use polo_db.FieldPath.{split_dots}
use polo_db.Vm.Op.{DbOp}
use polo_db.Vm.Codegen.{Gen}
use polo_db.Vm.Codegen.Query.{
  path_hint, with_paths, gen_path, last_key, invalid_query_field, get_fields, recursively_get_field,
  emit_logical, emit_comparison, emit_size,
}
use polo_db.Vm.Codegen.Labels.{Grows, After, Keeps, bind-Keeps, then-Keeps}
use polo_db.Vm.Codegen.Labels.Primitives.{
  pure-Keeps, get-Keeps, lift-Keeps, raise-Keeps, push_static-Keeps, emit-Keeps, emit_u32-Keeps,
  emit_push_value-Keeps,
}
use polo_db.Vm.Codegen.Labels.Jumps.{emit_goto-Keeps, emit_goto2-Keeps}

with_paths-Keeps : (paths : List Bytes) → Keeps (with_paths paths)
unfolding After Grows
with_paths-Keeps paths = record {
  keeps = λ c. (omega arith, λ jump there. there, λ small good. good);
}

pub path_hint-Keeps : (key : Bytes) (gen : Gen (Unit {0})) → Keeps gen → Keeps (path_hint key gen)
unfolding path_hint
path_hint-Keeps key gen inside = bind-Keeps get-Keeps λ before.
    then-Keeps (with_paths-Keeps _)
      (then-Keeps inside (bind-Keeps get-Keeps λ after. with_paths-Keeps _))

pub last_key-Keeps : Keeps last_key
unfolding last_key
last_key-Keeps = bind-Keeps get-Keeps λ c. lift-Keeps _

pub gen_path-Keeps : Keeps gen_path
unfolding gen_path
gen_path-Keeps = bind-Keeps get-Keeps λ c. pure-Keeps _

pub invalid_query_field-Keeps : Keeps invalid_query_field
unfolding invalid_query_field
invalid_query_field-Keeps = bind-Keeps last_key-Keeps λ name.
    bind-Keeps gen_path-Keeps λ path. raise-Keeps (invalid_field (str "query") name (some path))

get_fields-Keeps : (slices : List Bytes) (label : ℕ) → Keeps (get_fields slices label)
get_fields-Keeps [] label = pure-Keeps tt
get_fields-Keeps (slice ∷ slices) label =
    bind-Keeps (push_static-Keeps (string slice))
      λ id. then-Keeps (emit_goto2-Keeps DbOp.get_field id label) (get_fields-Keeps slices label)

recursively_get_field-Keeps : (key : Bytes) (label : ℕ) → Keeps (recursively_get_field key label)
unfolding recursively_get_field
recursively_get_field-Keeps key label =
    then-Keeps (get_fields-Keeps (split_dots key) label) (pure-Keeps _)

emit_logical-Keeps : (op : DbOp) (is_in_not : Bool) → Keeps (emit_logical op is_in_not)
unfolding emit_logical
emit_logical-Keeps op true = then-Keeps (emit-Keeps op) (emit-Keeps DbOp.not)
emit_logical-Keeps op false = emit-Keeps op

pub emit_comparison-Keeps :
    (op jump : DbOp) (key : Bytes) (is_in_not : Bool) (label : ℕ) (value : Bson)
    → Keeps (emit_comparison op jump key is_in_not label value)
emit_comparison-Keeps op jump key is_in_not label value =
    bind-Keeps (recursively_get_field-Keeps key label) λ field_size.
      bind-Keeps (push_static-Keeps value) λ id. then-Keeps (emit_push_value-Keeps id) (
        then-Keeps (emit_logical-Keeps op is_in_not) (
          then-Keeps (emit_goto-Keeps jump label)
            (then-Keeps (emit-Keeps DbOp.pop2) (emit_u32-Keeps _))))

pub emit_size-Keeps :
    (key : Bytes) (is_in_not : Bool) (label : ℕ) (expected_size : ℤ)
    → Keeps (emit_size key is_in_not label expected_size)
emit_size-Keeps key is_in_not label expected_size =
    bind-Keeps (recursively_get_field-Keeps key label) λ field_size.
      then-Keeps (emit-Keeps DbOp.array_size) (
        bind-Keeps (push_static-Keeps (int64 expected_size)) λ id.
          then-Keeps (emit_push_value-Keeps id) (
            then-Keeps (emit_logical-Keeps DbOp.equal is_in_not) (
              then-Keeps (emit_goto-Keeps DbOp.if_false label)
                (then-Keeps (emit-Keeps DbOp.pop2) (emit_u32-Keeps _)))))
