-- ===== src/Vm/Codegen/Query.antt =====
-- The conditions of a query in src/polodb_core/vm/codegen.rs: `emit_standard_query_doc` and what it calls.
-- The eleven operators of `emit_query_tuple_document_kv` share the emission of a comparison.
use polo_db.Prelude.{
  ℕ, ◌+◌, Bool, not, Option, none, some, List, [], ◌∷◌, ◌++◌, if◌then◌else◌, length,
}
use polo_db.Prelude.Int.{ℤ}
use polo_db.Prelude.Bytes.{Bytes, str, str_eq}
use polo_db.Errors.{ok, unwrap, invalid_field}
use polo_db.Bson.{Bson, Document, end, entry, document, array, string, int64, regular_expression}
use polo_db.FieldPath.{split_dots}
use polo_db.Vm.Op.{DbOp}
use polo_db.Vm.Label.{as_u32}
use polo_db.Vm.Codegen.{
  Gen, ◌>>=◌, ◌>>◌, pure, lift, raise, get, emit, emit_u32, push_static, emit_goto, emit_goto2,
  emit_push_value,
}

abbrev last_of : List Bytes → Option Bytes
last_of [] = none
last_of (x ∷ []) = some x
last_of (x ∷ y ∷ xs) = last_of (y ∷ xs)

abbrev without_last : List Bytes → List Bytes
without_last [] = []
without_last (x ∷ []) = []
without_last (x ∷ y ∷ xs) = x ∷ without_last (y ∷ xs)

abbrev pub with_paths : List Bytes → Gen (Unit {0})
with_paths paths c = ok (record c { paths = paths }, tt)

-- `path_hint!`
unfoldable pub path_hint : Bytes → Gen (Unit {0}) → Gen (Unit {0})
path_hint key content = do
  before ← get
  with_paths (before.paths ++ key ∷ [])
  content
  after ← get
  with_paths (without_last after.paths)

abbrev gen_joined : List Bytes → Bytes
gen_joined [] = []
gen_joined (item ∷ items) = str "/" ++ item ++ gen_joined items

unfoldable pub gen_path : Gen Bytes
gen_path = do c ← get; pure (gen_joined c.paths)

-- `paths.last().unwrap()`
unfoldable pub last_key : Gen Bytes
last_key = do c ← get; lift (unwrap (last_of c.paths))

-- `mk_invalid_query_field` with the place of the compiler
unfoldable pub invalid_query_field : Gen (Unit {0})
unfolding gen_path last_key
invalid_query_field = do
  name ← last_key
  path ← gen_path
  raise (invalid_field (str "query") name (some path))

abbrev pub get_fields : List Bytes → ℕ → Gen (Unit {0})
get_fields [] failed_label = pure tt
get_fields (slice ∷ slices) failed_label = do
  current_stat_id ← push_static (string slice)
  emit_goto2 DbOp.get_field current_stat_id failed_label
  get_fields slices failed_label

unfoldable pub recursively_get_field : Bytes → ℕ → Gen ℕ
unfolding push_static emit_goto2
recursively_get_field key failed_label = do
  get_fields (split_dots key) failed_label
  pure (length (split_dots key))

unfoldable pub emit_logical : DbOp → Bool → Gen (Unit {0})
unfolding emit
emit_logical op is_in_not = if is_in_not then (do emit op; emit DbOp.not) else emit op

-- The fields and the value pushed, the test, the jump, and the pops.
abbrev pub emit_comparison : (op jump : DbOp) → Bytes → Bool → ℕ → Bson → Gen (Unit {0})
emit_comparison op jump key is_in_not not_found_label sub_value = do
  field_size ← recursively_get_field key not_found_label
  stat_val_id ← push_static sub_value
  emit_push_value stat_val_id
  emit_logical op is_in_not
  emit_goto jump not_found_label
  emit DbOp.pop2
  emit_u32 (as_u32 (field_size + 1))

abbrev pub emit_size : Bytes → Bool → ℕ → ℤ → Gen (Unit {0})
emit_size key is_in_not not_found_label expected_size = do
  field_size ← recursively_get_field key not_found_label
  emit DbOp.array_size
  expect_size_stat_id ← push_static (int64 expected_size)
  emit_push_value expect_size_stat_id
  emit_logical DbOp.equal is_in_not
  emit_goto DbOp.if_false not_found_label
  emit DbOp.pop2
  emit_u32 (as_u32 (field_size + 1))

abbrev pub for_array : Bson → Gen (Unit {0}) → Gen (Unit {0})
for_array (array _) gen = gen
for_array _ gen = invalid_query_field

abbrev pub for_regex : Bson → Gen (Unit {0}) → Gen (Unit {0})
for_regex (regular_expression _ _) gen = gen
for_regex _ gen = invalid_query_field

abbrev pub for_size : Bson → (ℤ → Gen (Unit {0})) → Gen (Unit {0})
for_size (int64 i) gen = gen i
for_size _ gen = invalid_query_field

-- The match on the name of the operator; `negated` is the code of `$not`.
unfoldable pub emit_operator :
    Bytes → Bool → ℕ → Bytes → Bson → (negated : Gen (Unit {0})) → Gen (Unit {0})
unfolding invalid_query_field recursively_get_field emit_logical push_static emit emit_u32
    emit_push_value emit_goto
emit_operator key is_in_not not_found_label sub_key sub_value negated =
    let compare =
      λ (op : DbOp). emit_comparison op DbOp.if_false key is_in_not not_found_label sub_value in
    if str_eq sub_key (str "$eq")
    then compare DbOp.equal
    else if str_eq sub_key (str "$gt")
    then compare DbOp.greater
    else if str_eq sub_key (str "$gte")
    then compare DbOp.greater_equal
    else if str_eq sub_key (str "$in")
    then for_array sub_value (compare DbOp.in_array)
    else if str_eq sub_key (str "$lt")
    then compare DbOp.less
    else if str_eq sub_key (str "$lte")
    then compare DbOp.less_equal
    else if str_eq sub_key (str "$ne")
    then compare DbOp.equal
    else if str_eq sub_key (str "$nin")
    then for_array sub_value
        (emit_comparison DbOp.in_array DbOp.if_true key is_in_not not_found_label sub_value)
    else if str_eq sub_key (str "$size")
    then for_size sub_value (emit_size key is_in_not not_found_label)
    else if str_eq sub_key (str "$regex")
    then for_regex sub_value (compare DbOp.regex)
    else if str_eq sub_key (str "$not")
    then negated
    else invalid_query_field

unfoldable mutual
  pub emit_query_tuple_document : Bytes → Document → Bool → ℕ → Gen (Unit {0})
  emit_query_tuple_document key end is_in_not not_found_label = pure tt
  emit_query_tuple_document key (entry sub_key sub_value rest) is_in_not not_found_label = do
    path_hint sub_key (emit_query_tuple_document_kv key is_in_not not_found_label sub_key sub_value)
    emit_query_tuple_document key rest is_in_not not_found_label

  pub emit_query_tuple_document_kv : Bytes → Bool → ℕ → Bytes → Bson → Gen (Unit {0})
  emit_query_tuple_document_kv key is_in_not not_found_label sub_key (document doc) =
      emit_operator key is_in_not not_found_label sub_key (document doc)
        (path_hint (str "$not") (emit_query_tuple_document key doc (not is_in_not) not_found_label))
  emit_query_tuple_document_kv key is_in_not not_found_label sub_key sub_value =
      emit_operator key is_in_not not_found_label sub_key sub_value invalid_query_field
