-- ===== src/Vm/Op.antt =====
-- The opcodes of src/polodb_core/vm/op.rs. An opcode is one byte, its place in the enum; `_EOF` is `eof`
-- and `In` is `in_array` here. The operands behind it are little-endian.
use polo_db.Prelude.{ℕ, ◌≡◌, refl, Option, some, List, [], ◌∷◌, get_elem?}

pub data DbOp : Type 0 where
  eof label inc inc_r2 goto if_true : DbOp
  if_false rewind find_by_primary_key find_by_index next next_index_value : DbOp
  push_value push_true push_false push_document push_null push_r0 : DbOp
  store_r0 store_r0_2 get_field unset_field set_field array_size : DbOp
  array_push array_pop_first array_pop_last update_current delete_current insert_index : DbOp
  delete_index dup pop pop2 equal greater : DbOp
  greater_equal less less_equal regex not in_array : DbOp
  equal_null open_read open_write result_row close save_stack_pos : DbOp
  recover_stack_pos call call_external call_update_operator external_is_completed ret0 : DbOp
  ret if_false_ret load_global store_global halt : DbOp

-- The enum in its order.
unfoldable pub all_ops : List DbOp
all_ops =
    DbOp.eof ∷ DbOp.label ∷ DbOp.inc ∷ DbOp.inc_r2 ∷ DbOp.goto ∷ DbOp.if_true ∷ DbOp.if_false
    ∷ DbOp.rewind ∷ DbOp.find_by_primary_key ∷ DbOp.find_by_index ∷ DbOp.next
    ∷ DbOp.next_index_value ∷ DbOp.push_value ∷ DbOp.push_true ∷ DbOp.push_false
    ∷ DbOp.push_document ∷ DbOp.push_null ∷ DbOp.push_r0 ∷ DbOp.store_r0 ∷ DbOp.store_r0_2
    ∷ DbOp.get_field ∷ DbOp.unset_field ∷ DbOp.set_field ∷ DbOp.array_size ∷ DbOp.array_push
    ∷ DbOp.array_pop_first ∷ DbOp.array_pop_last ∷ DbOp.update_current ∷ DbOp.delete_current
    ∷ DbOp.insert_index ∷ DbOp.delete_index ∷ DbOp.dup ∷ DbOp.pop ∷ DbOp.pop2 ∷ DbOp.equal
    ∷ DbOp.greater ∷ DbOp.greater_equal ∷ DbOp.less ∷ DbOp.less_equal ∷ DbOp.regex ∷ DbOp.not
    ∷ DbOp.in_array ∷ DbOp.equal_null ∷ DbOp.open_read ∷ DbOp.open_write ∷ DbOp.result_row
    ∷ DbOp.close ∷ DbOp.save_stack_pos ∷ DbOp.recover_stack_pos ∷ DbOp.call ∷ DbOp.call_external
    ∷ DbOp.call_update_operator ∷ DbOp.external_is_completed ∷ DbOp.ret0 ∷ DbOp.ret
    ∷ DbOp.if_false_ret ∷ DbOp.load_global ∷ DbOp.store_global ∷ DbOp.halt ∷ []

-- `op as u8`
unfoldable pub opcode : DbOp → ℕ
opcode DbOp.eof = 0
opcode DbOp.label = 1
opcode DbOp.inc = 2
opcode DbOp.inc_r2 = 3
opcode DbOp.goto = 4
opcode DbOp.if_true = 5
opcode DbOp.if_false = 6
opcode DbOp.rewind = 7
opcode DbOp.find_by_primary_key = 8
opcode DbOp.find_by_index = 9
opcode DbOp.next = 10
opcode DbOp.next_index_value = 11
opcode DbOp.push_value = 12
opcode DbOp.push_true = 13
opcode DbOp.push_false = 14
opcode DbOp.push_document = 15
opcode DbOp.push_null = 16
opcode DbOp.push_r0 = 17
opcode DbOp.store_r0 = 18
opcode DbOp.store_r0_2 = 19
opcode DbOp.get_field = 20
opcode DbOp.unset_field = 21
opcode DbOp.set_field = 22
opcode DbOp.array_size = 23
opcode DbOp.array_push = 24
opcode DbOp.array_pop_first = 25
opcode DbOp.array_pop_last = 26
opcode DbOp.update_current = 27
opcode DbOp.delete_current = 28
opcode DbOp.insert_index = 29
opcode DbOp.delete_index = 30
opcode DbOp.dup = 31
opcode DbOp.pop = 32
opcode DbOp.pop2 = 33
opcode DbOp.equal = 34
opcode DbOp.greater = 35
opcode DbOp.greater_equal = 36
opcode DbOp.less = 37
opcode DbOp.less_equal = 38
opcode DbOp.regex = 39
opcode DbOp.not = 40
opcode DbOp.in_array = 41
opcode DbOp.equal_null = 42
opcode DbOp.open_read = 43
opcode DbOp.open_write = 44
opcode DbOp.result_row = 45
opcode DbOp.close = 46
opcode DbOp.save_stack_pos = 47
opcode DbOp.recover_stack_pos = 48
opcode DbOp.call = 49
opcode DbOp.call_external = 50
opcode DbOp.call_update_operator = 51
opcode DbOp.external_is_completed = 52
opcode DbOp.ret0 = 53
opcode DbOp.ret = 54
opcode DbOp.if_false_ret = 55
opcode DbOp.load_global = 56
opcode DbOp.store_global = 57
opcode DbOp.halt = 58

-- `cast::<DbOp>().read()`: a byte that is no opcode is undefined behaviour, and is none here.
unfoldable pub decode : ℕ → Option DbOp
unfolding all_ops
decode b = get_elem? all_ops b

pub decode-opcode : (op : DbOp) → decode (opcode op) ≡ some op
unfolding decode opcode
decode-opcode DbOp.eof = refl
decode-opcode DbOp.label = refl
decode-opcode DbOp.inc = refl
decode-opcode DbOp.inc_r2 = refl
decode-opcode DbOp.goto = refl
decode-opcode DbOp.if_true = refl
decode-opcode DbOp.if_false = refl
decode-opcode DbOp.rewind = refl
decode-opcode DbOp.find_by_primary_key = refl
decode-opcode DbOp.find_by_index = refl
decode-opcode DbOp.next = refl
decode-opcode DbOp.next_index_value = refl
decode-opcode DbOp.push_value = refl
decode-opcode DbOp.push_true = refl
decode-opcode DbOp.push_false = refl
decode-opcode DbOp.push_document = refl
decode-opcode DbOp.push_null = refl
decode-opcode DbOp.push_r0 = refl
decode-opcode DbOp.store_r0 = refl
decode-opcode DbOp.store_r0_2 = refl
decode-opcode DbOp.get_field = refl
decode-opcode DbOp.unset_field = refl
decode-opcode DbOp.set_field = refl
decode-opcode DbOp.array_size = refl
decode-opcode DbOp.array_push = refl
decode-opcode DbOp.array_pop_first = refl
decode-opcode DbOp.array_pop_last = refl
decode-opcode DbOp.update_current = refl
decode-opcode DbOp.delete_current = refl
decode-opcode DbOp.insert_index = refl
decode-opcode DbOp.delete_index = refl
decode-opcode DbOp.dup = refl
decode-opcode DbOp.pop = refl
decode-opcode DbOp.pop2 = refl
decode-opcode DbOp.equal = refl
decode-opcode DbOp.greater = refl
decode-opcode DbOp.greater_equal = refl
decode-opcode DbOp.less = refl
decode-opcode DbOp.less_equal = refl
decode-opcode DbOp.regex = refl
decode-opcode DbOp.not = refl
decode-opcode DbOp.in_array = refl
decode-opcode DbOp.equal_null = refl
decode-opcode DbOp.open_read = refl
decode-opcode DbOp.open_write = refl
decode-opcode DbOp.result_row = refl
decode-opcode DbOp.close = refl
decode-opcode DbOp.save_stack_pos = refl
decode-opcode DbOp.recover_stack_pos = refl
decode-opcode DbOp.call = refl
decode-opcode DbOp.call_external = refl
decode-opcode DbOp.call_update_operator = refl
decode-opcode DbOp.external_is_completed = refl
decode-opcode DbOp.ret0 = refl
decode-opcode DbOp.ret = refl
decode-opcode DbOp.if_false_ret = refl
decode-opcode DbOp.load_global = refl
decode-opcode DbOp.store_global = refl
decode-opcode DbOp.halt = refl
