-- ===== src/UpdateOperators/Extremes/Laws.antt =====
-- `$max` and `$min` of one field.
use polo_db.Prelude.{
  ℕ, ◌≡◌, refl, arith, Bool, true, false, none, ◌⊎◌, inl, inr, if◌then◌else◌, ◌∙◌, ◌≢◌, sym,
  Bool-cases,
}
use polo_db.Prelude.Bytes.{Bytes, str_eq_refl}
use polo_db.Errors.{ok, >>=-eq-ok}
use polo_db.Bson.{Bson, end, entry, double, element_type}
use polo_db.Bson.Platform.{Platform}
use polo_db.Compare.{value_cmp, generic_cmp, cmp_types, holds, CmpOp, greater, less}
use polo_db.Compare.Order.{generic_cmp_laws, generic_cmp_irrefl, generic_cmp_asymm}
use polo_db.UpdateOperators.Loop.{State, for_each}
use polo_db.UpdateOperators.Extremes.{replace_if, max_fields, min_fields, or_null}

module _ (P : Platform) where
  -- The field after a step that compared: the operand if the comparison held, else as before.
  replace_if_value :
      (op : CmpOp) (k : Bytes) (v : Bson) (s t : State)
      → replace_if P op k v s ≡ ok t
      → (cmp : Bool) × (generic_cmp P op v (or_null (P.get s.0 k)) ≡ ok cmp)
        × (or_null (P.get t.0 k) ≡ (if cmp then v else or_null (P.get s.0 k)))
  unfolding replace_if
  replace_if_value op k v s t h =
      let (cmp, compared, done) = >>=-eq-ok (generic_cmp P op v (or_null (P.get s.0 k))) _ h in
      (
        cmp,
        compared,
        elim (Bool-cases cmp) [
          | inl e ↦ ground (arith, P.get-insert s.0 k v k, str_eq_refl k)
          | inr e ↦ ground arith
        ],
      )

  -- `now` is one of two values, and `beats` by neither.
  abbrev pub IsExtreme : CmpOp → (now v old : Bson) → Type 0
  IsExtreme beaten now v old =
      ((now ≡ v) ⊎ (now ≡ old))
      × (generic_cmp P beaten now v ≢ ok true)
      × (generic_cmp P beaten now old ≢ ok true)

  -- What an operator and its opposite must satisfy for the step to pick an extreme value.
  module _ (op beaten : CmpOp) (irrefl : (a : Bson) → generic_cmp P beaten a a ≢ ok true)
      (asymm : (a b : Bson) → generic_cmp P op a b ≡ ok true → generic_cmp P beaten a b ≢ ok true)
      (flip : (a b : Bson) → generic_cmp P beaten b a ≡ generic_cmp P op a b) where
    picks :
        (cmp : Bool) (now v old : Bson)
        → generic_cmp P op v old ≡ ok cmp
        → now ≡ (if cmp then v else old)
        → IsExtreme beaten now v old
    picks true now v old compared e = rw e (inl refl, irrefl v, asymm v old compared)
    picks false now v old compared e =
        rw e (inr refl, (λ h. ground (arith, flip v old)), irrefl old)

    step-IsExtreme :
        (k : Bytes) (v : Bson) (s t : State)
        → for_each (replace_if P op) (entry k v end) s ≡ ok t
        → IsExtreme beaten (or_null (P.get t.0 k)) v (or_null (P.get s.0 k))
    unfolding for_each
    step-IsExtreme k v s t h =
        let (u, first, done) = >>=-eq-ok (replace_if P op k v s) ok h in
        let (cmp, compared, now) = replace_if_value op k v s t (first ∙ done) in
        picks cmp (or_null (P.get t.0 k)) v (or_null (P.get s.0 k)) compared now

  -- If `$max` of one field succeeds, the field holds the operand or its old value, null if it was
  -- missing, and is below neither.
  pub max_fields-IsExtreme :
      (k : Bytes) (v : Bson) (s t : State)
      → max_fields P (entry k v end) s ≡ ok t
      → IsExtreme less (or_null (P.get t.0 k)) v (or_null (P.get s.0 k))
  unfolding max_fields
  max_fields-IsExtreme =
      step-IsExtreme greater less (generic_cmp_irrefl P) (generic_cmp_asymm P)
        λ a b. sym ((generic_cmp_laws P a b).2)

  -- If `$min` of one field succeeds, the field holds the operand or its old value, null if it was
  -- missing, and is above neither.
  pub min_fields-IsExtreme :
      (k : Bytes) (v : Bson) (s t : State)
      → min_fields P (entry k v end) s ≡ ok t
      → IsExtreme greater (or_null (P.get t.0 k)) v (or_null (P.get s.0 k))
  unfolding min_fields
  min_fields-IsExtreme =
      step-IsExtreme less greater
        (λ a h. generic_cmp_irrefl P a (sym ((generic_cmp_laws P a a).2) ∙ h))
        (λ a b l g. generic_cmp_asymm P a b g l) λ a b. (generic_cmp_laws P b a).2

  -- A missing field counts as null, whose type comes after that of a double: `$max` with a double does
  -- not set a missing field.
  pub max_fields_missing :
      (k : Bytes) (d : ℕ) (s : State)
      → P.get s.0 k ≡ none
      → max_fields P (entry k (double d) end) s ≡ ok s
  unfolding max_fields for_each replace_if generic_cmp value_cmp cmp_types element_type holds
  max_fields_missing k d s h = rw h
