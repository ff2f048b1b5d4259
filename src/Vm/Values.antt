-- ===== src/Vm/Values.antt =====
-- The actions of vm.rs on the values of the stack.
use polo_db.Prelude.{
  ℕ, ◌%◌, ◌^◌, ◌==◌, Bool, true, false, none, some, List, [], ◌∷◌, if◌then◌else◌, length, Ordering,
  ◌||◌,
}
use polo_db.Prelude.Int.{ℤ, pos, ◌+ℤ◌, to_word, of_word}
use polo_db.Prelude.Bytes.{Bytes, str}
use polo_db.Errors.{
  Outcome, ok, err, panic, ◌>>=◌, field_type_unexpected, unexpected_type_for_op, regex_error,
}
use polo_db.Bson.{
  Bson, Document, Items, nil, cons, document, array, string, int32, int64, double, boolean, null,
  regular_expression, of_items,
}
use polo_db.Compare.{value_cmp, generic_cmp, CmpOp}
use polo_db.FieldPath.{try_get_document_value}
use polo_db.UpdateOperators.Arithmetic.{machine_int}
use polo_db.UpdateOperators.Arrays.{push_back, drop_last}
use polo_db.Vm.World.{World}
use polo_db.Vm.Machine.{Vm, push, set_r0, stack_at, borrow_static, put_at}
use polo_db.Vm.Cursors.{as_document}

abbrev pub as_str : Bson → Outcome Bytes
as_str (string s) = ok s
as_str _ = panic

abbrev as_array : Bson → Outcome Items
as_array (array items) = ok items
as_array _ = panic

-- `as_bool`, `as i32`: the value of r0 that a value stands for.
abbrev r0_of : Bson → Outcome ℤ
r0_of (int32 i) = ok i
r0_of (int64 i) = ok (of_word 31 (to_word 63 i % 2 ^ 32))
r0_of (boolean b) = ok (if b then pos 1 else pos 0)
r0_of _ = panic

module _ (W : World) where
  open W use {platform, regex_match, to_string}

  abbrev incremented : Bson → Outcome Bson
  incremented (int32 n) = do r ← machine_int platform 31 (n +ℤ pos 1); ok (int32 r)
  incremented (int64 n) = do r ← machine_int platform 63 (n +ℤ pos 1); ok (int64 r)
  incremented (double d) = ok (double (platform.f64_add d (platform.f64_of_int (pos 1))))
  incremented v = ok v

  abbrev inc_top : List Bson → Outcome (List Bson)
  inc_top [] = ok []
  inc_top (v ∷ stack) = do r ← incremented v; ok (r ∷ stack)

  unfoldable pub inc : Vm W → Outcome (Vm W)
  inc vm = do stack ← inc_top vm.stack; ok record vm { stack = stack }

  unfoldable pub store_r0 : Vm W → Outcome (Vm W)
  store_r0 vm = do top ← stack_at W vm 0; r0 ← r0_of top; ok record vm { r0 = r0 }

  -- The document on the top of the stack; `FieldTypeUnexpected` if it is none.
  abbrev field_document : Bytes → Bson → Outcome Document
  field_document key (document doc) = ok doc
  field_document key _ = err (field_type_unexpected key (str "Document"))

  -- Whether the field was found, and the machine with its value pushed.
  unfoldable pub get_field : ℕ → Vm W → Outcome (Vm W × Bool)
  get_field key_stat_id vm = do
    key ← borrow_static W vm key_stat_id
    key_name ← as_str key
    top ← stack_at W vm 0
    doc ← field_document key_name top
    elim (try_get_document_value platform doc key_name) [
      | none ↦ ok (set_r0 W false vm, false)
      | some val ↦ ok (push W val (set_r0 W true vm), true)
    ]

  unfoldable pub unset_field : ℕ → Vm W → Outcome (Vm W)
  unset_field field_id vm = do
    value ← borrow_static W vm field_id
    key ← as_str value
    top ← stack_at W vm 0
    doc ← as_document top
    stack ← put_at vm.stack 0 (document (platform.remove doc key))
    ok record vm { stack = stack }

  unfoldable pub set_field : ℕ → Vm W → Outcome (Vm W)
  set_field field_id vm = do
    static ← borrow_static W vm field_id
    key ← as_str static
    value ← stack_at W vm 0
    below ← stack_at W vm 1
    doc ← as_document below
    stack ← put_at vm.stack 1 (document (platform.insert doc key value))
    ok record vm { stack = stack }

  abbrev array_of : (error : Outcome Items) → Bson → Outcome Items
  array_of error (array items) = ok items
  array_of error _ = error

  -- Arrays are shorter than 2^63.
  unfoldable pub array_size : Vm W → Outcome (Vm W)
  array_size vm = do
    top ← stack_at W vm 0
    items ← array_of (err (field_type_unexpected (str "ArraySize") (str "Array"))) top
    ok (push W (int64 (pos (length (of_items items)))) vm)

  unfoldable pub array_push : Vm W → Outcome (Vm W)
  array_push vm = do
    val ← stack_at W vm 0
    below ← stack_at W vm 1
    items ← array_of (err (unexpected_type_for_op (str "$push") (str "Array"))) below
    stack ← put_at vm.stack 1 (array (push_back items val))
    ok record vm { stack = stack }

  -- `drain(0..1)` panics on an empty array, `pop` does nothing.
  abbrev without_first : Items → Outcome Items
  without_first nil = panic
  without_first (cons x items) = ok items

  unfoldable pub array_pop_first : Vm W → Outcome (Vm W)
  array_pop_first vm = do
    top ← stack_at W vm 0
    items ← array_of (err (unexpected_type_for_op (str "$pop") (str "Array"))) top
    rest ← without_first items
    stack ← put_at vm.stack 0 (array rest)
    ok record vm { stack = stack }

  unfoldable pub array_pop_last : Vm W → Outcome (Vm W)
  array_pop_last vm = do
    top ← stack_at W vm 0
    items ← array_of (err (unexpected_type_for_op (str "$pop") (str "Array"))) top
    stack ← put_at vm.stack 0 (array (drop_last items))
    ok record vm { stack = stack }

  unfoldable pub compare_top : CmpOp → Vm W → Outcome (Vm W)
  compare_top op vm = do
    val1 ← stack_at W vm 1
    val2 ← stack_at W vm 0
    cmp ← generic_cmp platform op val1 val2
    ok (set_r0 W cmp vm)

  -- Values that cannot be compared are not equal.
  abbrev equals : Bson → Bson → Bool
  equals a b = elim (value_cmp platform a b) [ ok Ordering.eq ↦ true | _ ↦ false ]

  unfoldable pub in_items : Bson → Items → Bool
  in_items v nil = false
  in_items v (cons item items) = equals v item || in_items v items

  unfoldable pub in_array : Vm W → Outcome (Vm W)
  unfolding in_items
  in_array vm = do
    top1 ← stack_at W vm 0
    top2 ← stack_at W vm 1
    items ← as_array top1
    ok (set_r0 W (in_items top2 items) vm)

  abbrev is_null : Bson → Bool
  is_null null = true
  is_null _ = false

  unfoldable pub equal_null : Vm W → Outcome (Vm W)
  equal_null vm = do val ← stack_at W vm 0; ok (set_r0 W (is_null val) vm)

  -- The options that the code knows: i, m, s, u, U and x.
  abbrev known_option : ℕ → Bool
  known_option c = c == b'i' || c == b'm' || c == b's' || c == b'u' || c == b'U' || c == b'x'

  unfoldable pub known_options : Bytes → Bool
  known_options [] = true
  known_options (c ∷ cs) = if known_option c then known_options cs else false

  -- An expression that does not build is an error of its own; r0 is 0 then.
  abbrev built : Bytes → Bytes → Outcome Bool → Outcome Bool
  built pattern options (err _) = err (regex_error pattern options)
  built pattern options result = result

  unfoldable pub regex_value : Bson → Bson → Outcome Bool
  unfolding known_options
  regex_value val1 (regular_expression pattern options) =
      if known_options options
      then built pattern options (regex_match pattern options (to_string val1))
      else err (regex_error pattern options)
  regex_value val1 _ = ok false

  unfoldable pub regex : Vm W → Outcome (Vm W)
  unfolding regex_value
  regex vm = do
    val1 ← stack_at W vm 1
    val2 ← stack_at W vm 0
    matched ← regex_value val1 val2
    ok (set_r0 W matched vm)
