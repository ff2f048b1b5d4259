-- ===== src/UpdateOperators/Arrays.antt =====
-- push_operator.rs and pop_operator.rs.
pub mod Laws
use polo_db.Prelude.{zero, suc, Bool, true, false, Option, none, some, List, [], ◌∷◌, if◌then◌else◌}
use polo_db.Prelude.Int.{ℤ, pos, negsuc}
use polo_db.Prelude.Bytes.{Bytes, str}
use polo_db.Errors.{Outcome, ok, err, ◌>>=◌, cannot_apply_operation, invalid_field}
use polo_db.Bson.{Bson, Document, end, entry, Items, nil, cons, array, null, int32, int64}
use polo_db.Bson.Platform.{Platform}
use polo_db.UpdateOperators.Loop.{State, for_each}
use polo_db.UpdateOperators.Extremes.{or_null}

-- `Vec::push` and `Vec::pop` on an array.
unfoldable pub push_back : Items → Bson → Items
push_back nil v = cons v nil
push_back (cons x xs) v = cons x (push_back xs v)

unfoldable pub drop_last : Items → Items
drop_last nil = nil
drop_last (cons x nil) = nil
drop_last (cons x (cons y xs)) = cons x (drop_last (cons y xs))

-- -1 and 1 are the directions; `true` makes `update` drop the first element.
abbrev direction : ℤ → Option Bool
direction (negsuc zero) = some false
direction (pos (suc zero)) = some true
direction _ = none

abbrev pop_number : Bson → Option ℤ
pop_number (int32 i) = some i
pop_number (int64 i) = some i
pop_number _ = none

-- What `PopOperator::compile` makes of a value.
unfoldable pub pop_direction : Bson → Option Bool
pop_direction value = elim (pop_number value) [ none ↦ none | some num ↦ direction num ]

unfoldable pub pop_map : Document → (name path : Bytes) → Outcome (List (Bytes × Bool))
unfolding pop_direction
pop_map end name path = ok []
pop_map (entry key value rest) name path =
    let others = pop_map rest name path in
    elim (pop_direction value) [
      | none ↦ err (invalid_field (str "query") name (some path))
      | some val ↦ do more ← others; ok ((key, val) ∷ more)
    ]

module _ (P : Platform) where
  unfoldable pub push_value : Bytes → Bson → Bson → Outcome Bson
  push_value k v (array arr) = ok (array (push_back arr v))
  push_value k v null = ok (array (cons v nil))
  push_value k v _ = err (cannot_apply_operation (str "$push") k)

  unfoldable pub push_step : Bytes → Bson → State → Outcome State
  unfolding push_value
  push_step k v s = do
    result ← push_value k v (or_null (P.get s.0 k))
    ok (P.insert s.0 k result, true)

  unfoldable pub push_fields : Document → State → Outcome State
  unfolding push_step
  push_fields = for_each push_step

  -- An empty array is left as it is, and does not count as an update.
  unfoldable pub pop_value : Bytes → Bool → Bson → State → Outcome State
  pop_value k is_first (array nil) s = ok s
  pop_value k true (array (cons x xs)) s = ok (P.insert s.0 k (array xs), true)
  pop_value k false (array (cons x xs)) s =
      ok (P.insert s.0 k (array (drop_last (cons x xs))), true)
  pop_value k is_first null s = ok (P.insert s.0 k (array nil), true)
  pop_value k is_first _ s = err (invalid_field (str "query") (str "pop") (some k))

  unfoldable pub pop_fields : List (Bytes × Bool) → State → Outcome State
  unfolding pop_value
  pop_fields [] s = ok s
  pop_fields ((k, is_first) ∷ more) s = do
    t ← pop_value k is_first (or_null (P.get s.0 k)) s
    pop_fields more t
