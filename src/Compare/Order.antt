-- ===== src/Compare/Order.antt =====
-- `value_cmp` answers alike from both sides, and the comparison operators fit together.
use polo_db.Prelude.{ℕ, ◌≡◌, ◌≢◌, refl, ap, not, true, false, Ordering, compare, arith}
use polo_db.Prelude.Bytes.{cmp_bytes_swap, reverse_cmp}
use polo_db.Errors.{Outcome, ok, err, panic, map_ok}
use polo_db.Bson.{
  Bson, double, string, boolean, null, int32, int64, binary, object_id, date_time, undefined,
  element_type,
}
use polo_db.Bson.Platform.{Platform}
use polo_db.Compare.{
  value_cmp, generic_cmp, cmp_types, equal, greater, greater_equal, less, less_equal, holds,
}

compare_swap : (a b : ℕ) → compare b a ≡ reverse_cmp (compare a b)
compare_swap a b = ground arith

cmp_types_swap : (a b : ℕ) → cmp_types b a ≡ map_ok reverse_cmp (cmp_types a b)
unfolding cmp_types
cmp_types_swap a b = ground arith

holds_laws :
    (r : Outcome Ordering)
    → (map_ok (holds greater_equal) r ≡ map_ok not (map_ok (holds less) r))
      × (map_ok (holds less_equal) r ≡ map_ok not (map_ok (holds greater) r))
      × (map_ok (holds greater) r ≡ map_ok (holds less) (map_ok reverse_cmp r))
      × (map_ok (holds greater_equal) r ≡ map_ok (holds less_equal) (map_ok reverse_cmp r))
      × (map_ok (holds equal) r ≡ map_ok (holds equal) (map_ok reverse_cmp r))
unfolding holds
holds_laws (ok Ordering.lt) = (refl, refl, refl, refl, refl)
holds_laws (ok Ordering.eq) = (refl, refl, refl, refl, refl)
holds_laws (ok Ordering.gt) = (refl, refl, refl, refl, refl)
holds_laws (err e) = (refl, refl, refl, refl, refl)
holds_laws panic = (refl, refl, refl, refl, refl)

module _ (P : Platform) where
  -- Exchanging the values reverses the answer, and gives an error where there was one.
  pub value_cmp_swap : (a b : Bson) → value_cmp P b a ≡ map_ok reverse_cmp (value_cmp P a b)
  unfolding value_cmp
  value_cmp_swap null null = refl
  value_cmp_swap undefined undefined = refl
  value_cmp_swap (date_time d₁) (date_time d₂) = ap ok (compare_swap _ _)
  value_cmp_swap (boolean false) (boolean b₂) = ground arith
  value_cmp_swap (boolean true) (boolean b₂) = ground arith
  value_cmp_swap (int64 i₁) (int64 i₂) = ap ok (compare_swap _ _)
  value_cmp_swap (int32 i₁) (int32 i₂) = ap ok (compare_swap _ _)
  value_cmp_swap (int64 i₁) (int32 i₂) = ap ok (compare_swap _ _)
  value_cmp_swap (int32 i₁) (int64 i₂) = ap ok (compare_swap _ _)
  value_cmp_swap (double d₁) (double d₂) = ap ok (compare_swap _ _)
  value_cmp_swap (double d₁) (int32 d₂) = ap ok (compare_swap _ _)
  value_cmp_swap (double d₁) (int64 d₂) = ap ok (compare_swap _ _)
  value_cmp_swap (int32 i₁) (double d₂) = ap ok (compare_swap _ _)
  value_cmp_swap (int64 i₁) (double d₂) = ap ok (compare_swap _ _)
  value_cmp_swap (binary _ b₁) (binary _ b₂) = ap ok (cmp_bytes_swap b₁ b₂)
  value_cmp_swap (string s₁) (string s₂) = ap ok (cmp_bytes_swap s₁ s₂)
  value_cmp_swap (object_id o₁) (object_id o₂) = ap ok (cmp_bytes_swap o₁ o₂)
  value_cmp_swap a null = cmp_types_swap (element_type a) (element_type null)
  value_cmp_swap a b = cmp_types_swap (element_type a) (element_type b)

  -- What the operators say of two values, error or not: `>=` denies `<`, `<=` denies `>`, `>` is `<` of
  -- the exchanged values, `>=` is `<=` of them, and `==` does not depend on the order of the values.
  pub generic_cmp_laws :
      (a b : Bson)
      → (generic_cmp P greater_equal a b ≡ map_ok not (generic_cmp P less a b))
        × (generic_cmp P less_equal a b ≡ map_ok not (generic_cmp P greater a b))
        × (generic_cmp P greater a b ≡ generic_cmp P less b a)
        × (generic_cmp P greater_equal a b ≡ generic_cmp P less_equal b a)
        × (generic_cmp P equal a b ≡ generic_cmp P equal b a)
  unfolding generic_cmp
  generic_cmp_laws a b = rw (value_cmp_swap a b) (holds_laws (value_cmp P a b))

  self_eq : (r : Outcome Ordering) → r ≡ map_ok reverse_cmp r → map_ok (holds less) r ≢ ok true
  self_eq (ok Ordering.lt) h = cc
  self_eq (ok Ordering.eq) h = unfold holds in cc
  self_eq (ok Ordering.gt) h = cc
  self_eq (err e) h = cc
  self_eq panic h = cc

  pub generic_cmp_irrefl : (a : Bson) → generic_cmp P less a a ≢ ok true
  unfolding generic_cmp
  generic_cmp_irrefl a = self_eq (value_cmp P a a) (value_cmp_swap a a)

  not_both :
      (r : Outcome Ordering) → map_ok (holds greater) r ≡ ok true → map_ok (holds less) r ≢ ok true
  unfolding holds
  not_both (ok Ordering.lt) h = cc
  not_both (ok Ordering.eq) h = cc
  not_both (ok Ordering.gt) h = cc
  not_both (err e) h = cc
  not_both panic h = cc

  pub generic_cmp_asymm :
      (a b : Bson) → generic_cmp P greater a b ≡ ok true → generic_cmp P less a b ≢ ok true
  unfolding generic_cmp
  generic_cmp_asymm a b = not_both (value_cmp P a b)
