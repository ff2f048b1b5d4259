-- ===== src/Pipeline/ExternalFunc.antt =====
-- The stages behind `Box<dyn VmExternalFunc>` (src/polodb_core/vm/vm_external_func.rs), each with its state.
use polo_db.Prelude.{ℕ, Bool, true, List}
use polo_db.Prelude.Bytes.{Bytes}
use polo_db.Errors.{Outcome, ok, ◌>>=◌}
use polo_db.Bson.{Bson}
use polo_db.Bson.Platform.{Platform}
use polo_db.Pipeline.{Status}
use polo_db.Pipeline.Stages.{VmFuncCount, count_call, limit_call, skip_call, unset_call}
use polo_db.Pipeline.AddFields.{Fields, add_fields_call}
use polo_db.Pipeline.Group.{VmFuncGroup, group_call}
use polo_db.Pipeline.Sort.{VmFuncSort, SortBy, sort_call, sort_is_completed}

pub data ExternalFunc : Type 0 where
  count : VmFuncCount → ExternalFunc
  group : VmFuncGroup → ExternalFunc
  skip limit : ℕ → ExternalFunc
  sort : VmFuncSort → ExternalFunc
  add_fields : Fields → ExternalFunc
  unset : List Bytes → ExternalFunc

-- A call, with the constructor of the stage put around its new state.
abbrev with_state :
    {S : Type 0} → (S → ExternalFunc) → Outcome (S × Status) → Outcome (ExternalFunc × Status)
with_state stage result = do (s, status) ← result; ok (stage s, status)

module _ (P : Platform) (sort_by : SortBy) where
  unfoldable pub call_func : ExternalFunc → List Bson → Outcome (ExternalFunc × Status)
  unfolding count_call group_call skip_call limit_call sort_call add_fields_call unset_call
  call_func (ExternalFunc.count s) args = with_state ExternalFunc.count (count_call P s args)
  call_func (ExternalFunc.group s) args = with_state ExternalFunc.group (group_call P s args)
  call_func (ExternalFunc.skip n) args = with_state ExternalFunc.skip (skip_call n args)
  call_func (ExternalFunc.limit n) args = with_state ExternalFunc.limit (limit_call n args)
  call_func (ExternalFunc.sort s) args = with_state ExternalFunc.sort (sort_call P sort_by s args)
  call_func (ExternalFunc.add_fields s) args =
      with_state ExternalFunc.add_fields (add_fields_call P s args)
  call_func (ExternalFunc.unset fields) args =
      with_state ExternalFunc.unset (unset_call P fields args)

unfoldable pub is_completed : ExternalFunc → Bool
unfolding sort_is_completed
is_completed (ExternalFunc.sort s) = sort_is_completed s
is_completed _ = true
