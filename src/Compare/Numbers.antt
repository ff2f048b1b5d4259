-- ===== src/Compare/Numbers.antt =====
-- Integers of both widths, and numbers among values of other types.
use polo_db.Prelude.{ℕ, ◌≡◌, refl, arith, Option, none, some, Ordering}
use polo_db.Prelude.Int.{ℤ, cmp_ℤ}
use polo_db.Prelude.Bytes.{Bytes}
use polo_db.Errors.{ok}
use polo_db.Bson.{Bson, double, string, int32, int64, element_type}
use polo_db.Bson.Platform.{Platform}
use polo_db.Compare.{value_cmp, cmp_types, total_cmp}
use polo_db.Compare.Order.{value_cmp_swap}

abbrev pub int_value : Bson → Option ℤ
int_value (int32 i) = some i
int_value (int64 i) = some i
int_value _ = none

module _ (P : Platform) where
  open P use {f64_of_int}

  -- Integers are compared by value, whatever their widths.
  value_cmp_int :
      (a b : Bson) (x y : ℤ)
      → int_value a ≡ some x
      → int_value b ≡ some y
      → value_cmp P a b ≡ ok (cmp_ℤ x y)
  unfolding value_cmp
  value_cmp_int (int32 i) (int32 j) x y hx hy = cc
  value_cmp_int (int32 i) (int64 j) x y hx hy = cc
  value_cmp_int (int64 i) (int32 j) x y hx hy = cc
  value_cmp_int (int64 i) (int64 j) x y hx hy = cc
  value_cmp_int a b x y hx hy = cc

  -- Numbers are compared by value and other types by their tags, and the tag of a string lies between
  -- those of a double and of an integer: a double above an integer closes a cycle with any string.
  pub value_cmp_cycle :
      (d : ℕ) (s : Bytes) (i : ℤ)
      → total_cmp d (f64_of_int i) ≡ Ordering.gt
      → (value_cmp P (double d) (string s) ≡ ok Ordering.lt)
        × (value_cmp P (string s) (int32 i) ≡ ok Ordering.lt)
        × (value_cmp P (int32 i) (double d) ≡ ok Ordering.lt)
  unfolding value_cmp cmp_types element_type
  value_cmp_cycle d s i h = (refl, refl, ground (arith, value_cmp_swap P (double d) (int32 i)))
