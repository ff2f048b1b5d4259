-- ===== src/Pipeline.antt =====
-- The stages of an aggregation: src/polodb_core/vm/vm_external_func.rs, vm_count.rs, vm_limit.rs,
-- vm_skip.rs and vm_unset.rs, and the operators under src/polodb_core/vm/operators. The virtual machine
-- calls a stage with each document and with null at the end; a stage is its state and the function
-- from the state and the arguments to the new state and the status.
pub mod Stages
pub mod Operators
pub mod AddFields
pub mod Group
pub mod Sort
pub mod ExternalFunc
pub mod Laws
mod Examples
use polo_db.Prelude.{
  ℕ, zero, suc, ◌+◌, ◌/◌, ◌%◌, List, [], ◌∷◌, ◌++◌, Option, none, some, if◌then◌else◌, ltb,
}
use polo_db.Prelude.Bytes.{Bytes, str}
use polo_db.Errors.{Error, Outcome, ok, panic, ◌>>=◌, invalid_field}
use polo_db.Bson.{Bson}

-- `VmExternalFuncStatus`
pub data Status : Type 0 where
  continue : Status
  next : Bson → Status

-- `&args[0]`
abbrev pub first_argument : List Bson → Outcome Bson
first_argument [] = panic
first_argument (arg ∷ _) = ok arg

-- A stage called with one value after the other.
pub feed :
    {State : Type 0}
    → (State → List Bson → Outcome (State × Status))
    → State
    → List Bson
    → Outcome (State × List Status)
feed call s [] = ok (s, [])
feed call s (arg ∷ args) = do
  (t, status) ← call s (arg ∷ [])
  (u, statuses) ← feed call t args
  ok (u, status ∷ statuses)

-- The last name and "/" in front of every name.
abbrev last_or_empty : List Bytes → Bytes
last_or_empty [] = []
last_or_empty (name ∷ []) = name
last_or_empty (name ∷ other ∷ names) = last_or_empty (other ∷ names)

abbrev joined : List Bytes → Bytes
joined [] = []
joined (name ∷ names) = str "/" ++ name ++ joined names

unfoldable pub mk_invalid_aggregate_field : List Bytes → Error
mk_invalid_aggregate_field paths =
    invalid_field (str "aggregate") (last_or_empty paths) (some (joined paths))

-- `usize::to_string`, on fuel: a number has no more decimal digits than its value, or one.
abbrev digits : ℕ → ℕ → Bytes
digits zero n = (48 + n % 10) ∷ []
digits (suc fuel) n =
    let high = digits fuel (n / 10) in
    if ltb n 10 then (48 + n) ∷ [] else high ++ (48 + n % 10) ∷ []

unfoldable pub index_name : ℕ → Bytes
index_name n = digits n n
