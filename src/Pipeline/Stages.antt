-- ===== src/Pipeline/Stages.antt =====
-- vm_count.rs, vm_limit.rs, vm_skip.rs and vm_unset.rs. Their atomic counters have 64 bits.
use polo_db.Prelude.{ℕ, zero, suc, ◌+◌, ◌^◌, ◌%◌, Bool, true, false, List, [], ◌∷◌, ◌++◌}
use polo_db.Prelude.Int.{to_word, of_word}
use polo_db.Prelude.Bytes.{Bytes, str}
use polo_db.Errors.{Outcome, ok, err, ◌>>=◌, map_ok, unknown_aggregation_operation}
use polo_db.Bson.{
  Bson, Items, nil, cons, Document, end, int32, int64, null, string, array, document,
}
use polo_db.Bson.Platform.{Platform}
use polo_db.Pipeline.{Status, first_argument, mk_invalid_aggregate_field, index_name}

-- Count
pub record VmFuncCount : Type 0 where
  pub count_name : Bytes
  pub count : ℕ
  pub is_completed : Bool

unfoldable pub new_count : Bytes → VmFuncCount
new_count name = record { count_name = name; count = 0; is_completed = false }

module _ (P : Platform) where
  -- `count as i64` takes the bit pattern over.
  unfoldable pub count_value : VmFuncCount → Bson → VmFuncCount × Status
  count_value s null = (
    record { count_name = s.count_name; count = s.count; is_completed = true },
    Status.next (document (P.insert end s.count_name (int64 (of_word 63 s.count)))),
  )
  count_value s _ = (
    record {
      count_name = s.count_name;
      count = (s.count + 1) % 2 ^ 64;
      is_completed = s.is_completed;
    },
    Status.continue,
  )

  unfoldable pub count_call : VmFuncCount → List Bson → Outcome (VmFuncCount × Status)
  unfolding count_value
  count_call s args = do arg0 ← first_argument args; ok (count_value s arg0)

-- `val as usize` extends the sign. The state of Limit and of Skip is `remain`.
unfoldable pub compile_remain : List Bytes → Bson → Outcome ℕ
compile_remain paths (int32 val) = ok (to_word 63 val)
compile_remain paths (int64 val) = ok (to_word 63 val)
compile_remain paths _ = err (mk_invalid_aggregate_field paths)

unfoldable pub limit_value : ℕ → Bson → ℕ × Status
limit_value remain null = (0, Status.next null)
limit_value zero arg = (0, Status.next null)
limit_value (suc remain) arg = (remain, Status.next arg)

unfoldable pub limit_call : ℕ → List Bson → Outcome (ℕ × Status)
unfolding limit_value
limit_call remain args = do arg0 ← first_argument args; ok (limit_value remain arg0)

unfoldable pub skip_value : ℕ → Bson → ℕ × Status
skip_value remain null = (0, Status.next null)
skip_value zero arg = (0, Status.next arg)
skip_value (suc remain) arg = (remain, Status.continue)

unfoldable pub skip_call : ℕ → List Bson → Outcome (ℕ × Status)
unfolding skip_value
skip_call remain args = do arg0 ← first_argument args; ok (skip_value remain arg0)

-- Unset: for (count, v) in arr.iter().enumerate()
unfoldable pub unset_names : List Bytes → ℕ → Items → Outcome (List Bytes)
unset_names paths count nil = ok []
unset_names paths count (cons (string s) items) =
    map_ok (λ names. s ∷ names) (unset_names paths (suc count) items)
unset_names paths count (cons _ items) =
    err (mk_invalid_aggregate_field (paths ++ index_name count ∷ []))

unfoldable pub unset_compile : List Bytes → Bson → Outcome (List Bytes)
unfolding unset_names
unset_compile paths (array items) = unset_names paths 0 items
unset_compile paths (string s) = ok (s ∷ [])
unset_compile paths _ = err (mk_invalid_aggregate_field paths)

module _ (P : Platform) where
  unfoldable pub remove_all : List Bytes → Document → Document
  remove_all [] doc = doc
  remove_all (field ∷ fields) doc = remove_all fields (P.remove doc field)

  unfoldable pub unset_value : List Bytes → Bson → Outcome (List Bytes × Status)
  unfolding remove_all
  unset_value fields null = ok (fields, Status.next null)
  unset_value fields (document doc) = ok (fields, Status.next (document (remove_all fields doc)))
  unset_value fields _ = err (unknown_aggregation_operation (str "Invalid argument for $unset"))

  unfoldable pub unset_call : List Bytes → List Bson → Outcome (List Bytes × Status)
  unfolding unset_value
  unset_call fields args = do arg0 ← first_argument args; unset_value fields arg0
