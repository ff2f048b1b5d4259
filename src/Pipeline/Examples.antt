-- ===== src/Pipeline/Examples.antt =====
-- Tests of the stages, and the theorems at a few documents.
use polo_db.Prelude.{◌≡◌, refl, true, [], ◌∷◌}
use polo_db.Prelude.Int.{pos, negsuc, to_word}
use polo_db.Prelude.Bytes.{str, str_eq}
use polo_db.Errors.{ok, err}
use polo_db.Bson.{end, entry, string, int32, null, document, array, cons, nil}
use polo_db.Bson.Entries.{entries}
use polo_db.Pipeline.{mk_invalid_aggregate_field, index_name}
use polo_db.Pipeline.Stages.{compile_remain, unset_compile}
use polo_db.Pipeline.Operators.{VmOperator, OperatorExpr, compile_operator}

negative_limit : compile_remain [] (int32 (negsuc 0)) ≡ ok 18446744073709551615
unfolding compile_remain to_word
negative_limit = refl

unset_of_a_number :
    unset_compile (str "$unset" ∷ []) (array (cons (string (str "a")) (cons null nil)))
    ≡ err (mk_invalid_aggregate_field (str "$unset" ∷ str "1" ∷ []))
unfolding unset_compile index_name
unset_of_a_number = refl

abs_of_sum :
    compile_operator
      (entries true)
      []
      (document (entry (str "$abs") (document (entry (str "$sum") (int32 (pos 1)) end)) end))
    ≡ ok (VmOperator.abs (OperatorExpr.expr (VmOperator.sum (pos 0))))
unfolding compile_operator str_eq
abs_of_sum = refl
