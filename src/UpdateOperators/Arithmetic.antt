-- ===== src/UpdateOperators/Arithmetic.antt =====
-- inc_operator.rs and mul_operator.rs. `inc_numeric` and `mul_numeric` differ in the operation alone,
-- and so share the function `numeric`.
pub mod Laws
use polo_db.Prelude.{ℕ, ◌+◌, ◌-◌, ◌^◌, ◌%◌, suc, Bool, true, Option, none, some, if◌then◌else◌}
use polo_db.Prelude.Int.{ℤ, pos, negsuc, ◌+ℤ◌, ◌*ℤ◌, fits, of_word}
use polo_db.Prelude.Bytes.{Bytes, str}
use polo_db.Errors.{Outcome, ok, err, panic, ◌>>=◌, increment_null_field, cannot_apply_operation}
use polo_db.Bson.{Bson, Document, double, int32, int64, null}
use polo_db.Bson.Platform.{Platform}
use polo_db.UpdateOperators.Loop.{State, for_each}

-- The bit pattern of `suc k` bits that an overflowing operation leaves.
unfoldable pub wrapped : ℕ → ℤ → ℕ
wrapped k (pos n) = n % (2 ^ k + 2 ^ k)
wrapped k (negsuc n) = 2 ^ k + 2 ^ k - suc (n % (2 ^ k + 2 ^ k))

module _ (P : Platform) where
  -- The result of `+` or `*` on signed integers of `suc k` bits.
  unfoldable pub machine_int : ℕ → ℤ → Outcome ℤ
  unfolding wrapped
  machine_int k x =
      if fits k x then ok x else if P.overflow_checks then panic else ok (of_word k (wrapped k x))

  module _ (op : ℤ → ℤ → ℤ) (f64_op : ℕ → ℕ → ℕ) (name : Bytes) where
    unfoldable pub numeric : Bytes → Bson → Bson → Outcome Bson
    unfolding machine_int
    numeric key (int32 a) (int32 b) = do r ← machine_int 31 (op a b); ok (int32 r)
    numeric key (int32 a) (int64 b) = do r ← machine_int 63 (op a b); ok (int64 r)
    numeric key (int32 a) (double b) = ok (double (f64_op (P.f64_of_int a) b))
    numeric key (int64 a) (int64 b) = do r ← machine_int 63 (op a b); ok (int64 r)
    numeric key (int64 a) (int32 b) = do r ← machine_int 63 (op a b); ok (int64 r)
    numeric key (int64 a) (double b) = ok (double (f64_op (P.f64_of_int a) b))
    numeric key (double a) (double b) = ok (double (f64_op a b))
    numeric key (double a) (int32 b) = ok (double (f64_op a (P.f64_of_int b)))
    numeric key (double a) (int64 b) = ok (double (f64_op a (P.f64_of_int b)))
    numeric key _ _ = err (cannot_apply_operation name key)

  unfoldable pub inc_numeric : Bytes → Bson → Bson → Outcome Bson
  unfolding numeric
  inc_numeric = numeric ◌+ℤ◌ P.f64_add (str "$inc")

  unfoldable pub mul_numeric : Bytes → Bson → Bson → Outcome Bson
  unfolding numeric
  mul_numeric = numeric ◌*ℤ◌ P.f64_mul (str "$mul")

  unfoldable pub inc_existing : Document → Bytes → Bson → Bson → Outcome Document
  inc_existing doc key null value = err increment_null_field
  inc_existing doc key original value = do
    result ← inc_numeric key original value
    ok (P.insert doc key result)

  unfoldable pub inc_field : Document → Bytes → Bson → Outcome Document
  unfolding inc_existing
  inc_field doc key value = elim (P.get doc key) [
    | none ↦ ok (P.insert doc key value)
    | some original ↦ inc_existing doc key original value
  ]

  unfoldable pub mul_field : Document → Bytes → Bson → Outcome Document
  mul_field doc key value = elim (P.get doc key) [
    | none ↦ ok (P.insert doc key value)
    | some original ↦ do new_value ← mul_numeric key original value; ok (P.insert doc key new_value)
  ]

  unfoldable pub inc_fields : Document → State → Outcome State
  inc_fields = for_each (λ k v s. do doc ← inc_field s.0 k v; ok (doc, true))

  unfoldable pub mul_fields : Document → State → Outcome State
  mul_fields = for_each (λ k v s. do doc ← mul_field s.0 k v; ok (doc, true))
