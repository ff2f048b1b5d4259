-- ===== src/Compare.antt =====
-- The order of values: `value_cmp` of src/polodb_core/utils/bson.rs and `generic_cmp` of
-- src/polodb_core/vm/op.rs. `total_cmp` of f64 is the order of the bit patterns by sign and magnitude.
pub mod Order
pub mod Numbers
mod Examples
use polo_db.Prelude.{
  ℕ, ◌+◌, ◌-◌, ◌^◌, ◌≡◌, Bool, true, false, ltb, if◌then◌else◌, Ordering, compare, ◌==◌,
}
use polo_db.Prelude.Int.{ℤ, cmp_ℤ}
use polo_db.Prelude.Bytes.{cmp_bytes}
use polo_db.Errors.{Outcome, ok, err, ◌>>=◌, bson_err}
use polo_db.Bson.{
  Bson, double, string, boolean, null, int32, int64, binary, object_id, date_time, undefined,
  element_type,
}
use polo_db.Bson.Platform.{Platform}

-- The place of a bit pattern in the total order.
abbrev pub total_key : ℕ → ℕ
total_key bits = if ltb bits (2 ^ 63) then 2 ^ 63 + bits else 2 ^ 64 - 1 - bits

abbrev pub total_cmp : ℕ → ℕ → Ordering
total_cmp a b = compare (total_key a) (total_key b)

abbrev pub cmp_bool : Bool → Bool → Ordering
cmp_bool false true = Ordering.lt
cmp_bool true false = Ordering.gt
cmp_bool _ _ = Ordering.eq

-- The last arm: values of two types by the tags of their types.
unfoldable pub cmp_types : ℕ → ℕ → Outcome Ordering
cmp_types a b = if a == b then err bson_err else ok (compare a b)

module _ (P : Platform) where
  open P use {f64_of_int}

  unfoldable pub value_cmp : Bson → Bson → Outcome Ordering
  value_cmp null null = ok Ordering.eq
  value_cmp undefined undefined = ok Ordering.eq
  value_cmp (date_time d₁) (date_time d₂) = ok (cmp_ℤ d₁ d₂)
  value_cmp (boolean b₁) (boolean b₂) = ok (cmp_bool b₁ b₂)
  value_cmp (int64 i₁) (int64 i₂) = ok (cmp_ℤ i₁ i₂)
  value_cmp (int32 i₁) (int32 i₂) = ok (cmp_ℤ i₁ i₂)
  value_cmp (int64 i₁) (int32 i₂) = ok (cmp_ℤ i₁ i₂)
  value_cmp (int32 i₁) (int64 i₂) = ok (cmp_ℤ i₁ i₂)
  value_cmp (double d₁) (double d₂) = ok (total_cmp d₁ d₂)
  value_cmp (double d₁) (int32 d₂) = ok (total_cmp d₁ (f64_of_int d₂))
  value_cmp (double d₁) (int64 d₂) = ok (total_cmp d₁ (f64_of_int d₂))
  value_cmp (int32 i₁) (double d₂) = ok (total_cmp (f64_of_int i₁) d₂)
  value_cmp (int64 i₁) (double d₂) = ok (total_cmp (f64_of_int i₁) d₂)
  value_cmp (binary _ b₁) (binary _ b₂) = ok (cmp_bytes b₁ b₂)
  value_cmp (string s₁) (string s₂) = ok (cmp_bytes s₁ s₂)
  value_cmp (object_id o₁) (object_id o₂) = ok (cmp_bytes o₁ o₂)
  value_cmp a b = cmp_types (element_type a) (element_type b)

-- The comparison operators among the opcodes.
pub data CmpOp : Type 0 where
  equal greater greater_equal less less_equal : CmpOp

unfoldable pub holds : CmpOp → Ordering → Bool
holds CmpOp.equal Ordering.eq = true
holds CmpOp.greater Ordering.gt = true
holds CmpOp.greater_equal Ordering.eq = true
holds CmpOp.greater_equal Ordering.gt = true
holds CmpOp.less Ordering.lt = true
holds CmpOp.less_equal Ordering.eq = true
holds CmpOp.less_equal Ordering.lt = true
holds _ _ = false

module _ (P : Platform) where
  unfoldable pub generic_cmp : CmpOp → Bson → Bson → Outcome Bool
  generic_cmp op val1 val2 = do ord ← value_cmp P val1 val2; ok (holds op ord)
