-- ===== src/UpdateOperators/Examples.antt =====
-- Tests of the update operators, and the theorems at concrete documents.
use polo_db.Prelude.{◌↔◌, ◌≡◌, refl, true, false, none, some, []}
use polo_db.Prelude.Int.{Fits, fits, pos, negsuc, ◌+ℤ◌, ◌*ℤ◌}
use polo_db.Prelude.Bytes.{str, str_eq}
use polo_db.Errors.{ok, err, panic, ◌>>=◌, unable_to_update_primary_key}
use polo_db.Bson.{Document, end, entry, nil, cons, array, int32, double, null}
use polo_db.Bson.Platform.{Platform}
use polo_db.Bson.Entries.{entries, get, insert}
use polo_db.Compare.{generic_cmp, value_cmp, holds, less}
use polo_db.UpdateOperators.{UpdateOperator, OperatorName, compile, update_document}
use polo_db.UpdateOperators.Loop.{State, for_each, validate_key}
use polo_db.UpdateOperators.Arithmetic.{inc_numeric, mul_numeric, inc_fields, inc_field}
use polo_db.UpdateOperators.Arithmetic.Laws.{numeric_exact_iff, numeric_panic_iff}
use polo_db.UpdateOperators.Assign.{keys}
use polo_db.UpdateOperators.Extremes.{max_fields, or_null}
use polo_db.UpdateOperators.Extremes.Laws.{IsExtreme, max_fields-IsExtreme, max_fields_missing}
use polo_db.UpdateOperators.Arrays.{push_fields, drop_last}
use polo_db.UpdateOperators.Arrays.Laws.{pop_one, pop_ends, pop-push}
use polo_db.UpdateOperators.PrimaryKey.{id, update_document-id, unset_id}

abbrev P : Platform
P = entries true

abbrev stored : Document
stored = entry (str "_id") (int32 (pos 7)) (
    entry (str "n") (int32 (pos 5))
      (entry (str "xs") (array (cons null (cons (int32 (pos 1)) nil))) end))

abbrev ops : Document
ops = entry (str "n") (int32 (pos 2)) end

inc_updates :
    (compile OperatorName.inc ops [] [] >>= λ op. update_document P op (stored, false))
    ≡ ok (insert stored (str "n") (int32 (pos 7)), true)
unfolding compile update_document inc_fields inc_field inc_numeric for_each validate_key str_eq get
    ◌+ℤ◌
inc_updates = refl

set_keeps_id :
    compile OperatorName.set (entry (str "a") null (entry (str "_id") null end)) [] []
    ≡ err unable_to_update_primary_key
unfolding compile validate_key str_eq
set_keeps_id = refl

-- The sum fits where the product does not.
numeric_exact_iff_example :
    ((inc_numeric P (str "n") (int32 (pos 100000)) (int32 (pos 100000))
        ≡ ok (int32 (pos 100000 +ℤ pos 100000)))
      ↔ Fits 31 (pos 100000 +ℤ pos 100000))
    × ((mul_numeric P (str "n") (int32 (pos 100000)) (int32 (pos 100000))
          ≡ ok (int32 (pos 100000 *ℤ pos 100000)))
        ↔ Fits 31 (pos 100000 *ℤ pos 100000))
numeric_exact_iff_example = numeric_exact_iff P (str "n") false false (pos 100000) (pos 100000)

numeric_panic_iff_example :
    ((inc_numeric P (str "n") (int32 (pos 2147483647)) (int32 (pos 1)) ≡ panic)
      ↔ ((true ≡ true) × (fits 31 (pos 2147483647 +ℤ pos 1) ≡ false)))
    × ((mul_numeric P (str "n") (int32 (pos 2147483647)) (int32 (pos 1)) ≡ panic)
        ↔ ((true ≡ true) × (fits 31 (pos 2147483647 *ℤ pos 1) ≡ false)))
numeric_panic_iff_example = numeric_panic_iff P (str "n") false false (pos 2147483647) (pos 1)

max_fields-IsExtreme_example :
    IsExtreme P less
      (or_null (P.get stored (str "n")))
      (int32 (pos 2))
      (or_null (P.get stored (str "n")))
unfolding max_fields for_each generic_cmp value_cmp holds get str_eq
max_fields-IsExtreme_example =
    max_fields-IsExtreme P (str "n") (int32 (pos 2)) (stored, false) (stored, false) refl

max_fields_missing_example :
    max_fields P (entry (str "d") (double 5) end) (stored, false) ≡ ok (stored, false)
unfolding get str_eq
max_fields_missing_example = max_fields_missing P (str "d") 5 (stored, false) refl

pop_ends_example :
    (pop_one P (str "xs") (int32 (pos 1)) [] [] (stored, false)
      ≡ ok (insert stored (str "xs") (array (cons (int32 (pos 1)) nil)), true))
    × (pop_one P (str "xs") (int32 (negsuc 0)) [] [] (stored, false)
        ≡ ok (
          insert stored (str "xs") (array (drop_last (cons null (cons (int32 (pos 1)) nil)))),
          true,
        ))
unfolding get str_eq
pop_ends_example = pop_ends P (str "xs") [] [] null (cons (int32 (pos 1)) nil) (stored, false) refl

pop-push_example :
    (t : State) × ((push_fields P (entry (str "xs") null end) (stored, false)
        >>= pop_one P (str "xs") (int32 (negsuc 0)) [] [])
      ≡ ok t)
    × (P.get t.0 (str "xs") ≡ some (array (cons null (cons (int32 (pos 1)) nil))))
unfolding get str_eq
pop-push_example =
    pop-push P (str "xs") [] [] null (cons null (cons (int32 (pos 1)) nil)) (stored, false) refl

update_document-id_example : P.get (insert stored (str "n") (int32 (pos 7))) id ≡ P.get stored id
unfolding compile update_document inc_fields inc_field inc_numeric for_each validate_key str_eq get
    ◌+ℤ◌
update_document-id_example =
    update_document-id P OperatorName.inc ops [] [] (UpdateOperator.inc ops) (stored, false)
      (insert stored (str "n") (int32 (pos 7)), true) tt refl refl

unset_id_example :
    (op : UpdateOperator) × (t : State) × (compile OperatorName.unset
        (entry (str "_id") null end)
        []
        []
      ≡ ok op)
    × (update_document P op (stored, false) ≡ ok t)
    × (P.get t.0 id ≡ none)
unfolding str_eq keys
unset_id_example = unset_id P (entry (str "_id") null end) stored [] [] refl
