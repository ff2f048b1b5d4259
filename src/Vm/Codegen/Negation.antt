-- ===== src/Vm/Codegen/Negation.antt =====
-- What the negations of a query compile to.
use polo_db.Vm.Codegen.{Gen}
use polo_db.Bson.{Bson}
use polo_db.Prelude.{◌≡◌, ℕ, Bool, refl}
use polo_db.Prelude.Bytes.{Bytes, str, str_eq}
use polo_db.Vm.Codegen.Query.{emit_operator, emit_query_tuple_document_kv}

ne_operator :
    (key : Bytes) (is_in_not : Bool) (label : ℕ) (value : Bson) (negated : Gen (Unit {0}))
    → emit_operator key is_in_not label (str "$ne") value negated
      ≡ emit_operator key is_in_not label (str "$eq") value negated
unfolding emit_operator str_eq
ne_operator key is_in_not label value negated = refl

-- The condition `$ne` compiles to exactly the code of `$eq`, for every field, value and place in the code.
pub emit_ne-eq :
    (key : Bytes) (is_in_not : Bool) (label : ℕ) (value : Bson)
    → emit_query_tuple_document_kv key is_in_not label (str "$ne") value
      ≡ emit_query_tuple_document_kv key is_in_not label (str "$eq") value
unfolding emit_query_tuple_document_kv emit_operator str_eq
emit_ne-eq key is_in_not label (Bson.double _) = refl
emit_ne-eq key is_in_not label (Bson.string _) = refl
emit_ne-eq key is_in_not label (Bson.array _) = refl
emit_ne-eq key is_in_not label (Bson.document _) = refl
emit_ne-eq key is_in_not label (Bson.boolean _) = refl
emit_ne-eq key is_in_not label Bson.null = refl
emit_ne-eq key is_in_not label (Bson.regular_expression _ _) = refl
emit_ne-eq key is_in_not label (Bson.java_script_code _) = refl
emit_ne-eq key is_in_not label (Bson.java_script_code_with_scope _ _) = refl
emit_ne-eq key is_in_not label (Bson.int32 _) = refl
emit_ne-eq key is_in_not label (Bson.int64 _) = refl
emit_ne-eq key is_in_not label (Bson.timestamp _ _) = refl
emit_ne-eq key is_in_not label (Bson.binary _ _) = refl
emit_ne-eq key is_in_not label (Bson.object_id _) = refl
emit_ne-eq key is_in_not label (Bson.date_time _) = refl
emit_ne-eq key is_in_not label (Bson.symbol _) = refl
emit_ne-eq key is_in_not label (Bson.decimal128 _) = refl
emit_ne-eq key is_in_not label Bson.undefined = refl
emit_ne-eq key is_in_not label Bson.max_key = refl
emit_ne-eq key is_in_not label Bson.min_key = refl
emit_ne-eq key is_in_not label (Bson.db_pointer _ _) = refl
