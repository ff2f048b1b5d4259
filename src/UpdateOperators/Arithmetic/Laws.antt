-- ===== src/UpdateOperators/Arithmetic/Laws.antt =====
-- `$inc` and `$mul` of src/polodb_core/vm/update_operators on two integers.
use mathlib.Core.Path.{subst}
use native.Mathlib.Nat.{mod-lt, pow-suc}
use polo_db.Prelude.{
  ◌<◌, ℕ, zero, suc, ◌≡◌, ◌↔◌, refl, sym, ◌∙◌, arith, Bool, Bool-cases, inl, inr, true, false, ◌||◌,
  ◌+◌, ◌^◌, ltb,
}
use polo_db.Prelude.Int.{ℤ, pos, negsuc, of_word, Fits, fits, ◌+ℤ◌, ◌*ℤ◌}
use polo_db.Prelude.Bytes.{Bytes, str}
use polo_db.Errors.{Outcome, ok, err, panic, map_ok}
use polo_db.Bson.{Bson, int32, int64}
use polo_db.Bson.Platform.{Platform}
use polo_db.UpdateOperators.Arithmetic.{wrapped, machine_int, numeric, inc_numeric, mul_numeric}

-- An integer of 64 bits, or of 32.
abbrev pub make_int : Bool → ℤ → Bson
make_int true i = int64 i
make_int false i = int32 i

abbrev pub bits_of : Bool → ℕ
bits_of true = 63
bits_of false = 31

of_word-Fits : (k y : ℕ) → y < 2 ^ k + 2 ^ k → Fits k (of_word k y)
unfolding of_word
of_word-Fits k y h = elim (Bool-cases (ltb y (2 ^ k))) [
  | inl e ↦ rw e (ground (arith, e, h))
  | inr e ↦ rw e (ground (arith, e, h))
]

positive : (k : ℕ) → 0 < 2 ^ k
positive zero = omega arith
positive (suc k) = let IH = positive k in rw pow-suc (omega (arith, IH))

wrapped-< : (k : ℕ) (x : ℤ) → wrapped k x < 2 ^ k + 2 ^ k
unfolding wrapped
wrapped-< k (pos n) = let h = positive k in mod-lt n (omega (arith, h))
wrapped-< k (negsuc n) = let h = positive k in omega (arith, h)

wrapped-Fits : (k : ℕ) (x : ℤ) → Fits k (of_word k (wrapped k x))
wrapped-Fits k x = of_word-Fits k (wrapped k x) (wrapped-< k x)

ok-injective : (x y : ℤ) → ◌≡◌ {A = Outcome ℤ} (ok x) (ok y) → x ≡ y
ok-injective x y h = cc

module _ (P : Platform) where
  -- A sum or a product that fits is exact, and nothing else is: what wraps around fits.
  machine_int-ok_iff : (k : ℕ) (x : ℤ) → (machine_int P k x ≡ ok x) ↔ Fits k x
  unfolding machine_int
  machine_int-ok_iff k x = (
    (λ h. elim (Bool-cases (fits k x)) [
      | inl e ↦ ground (arith, e)
      | inr e ↦ elim (Bool-cases P.overflow_checks) [
        | inl f ↦ let wrong = rw (e, f) at h in absurd cc
        | inr f ↦
            let same : of_word k (wrapped k x) ≡ x = ok-injective _ _ (rw (e, f) at h) in
            subst (Fits k) same (wrapped-Fits k x)
      ]
    ]),
    λ h. ground arith,
  )

  machine_int-panic_iff :
      (k : ℕ) (x : ℤ)
      → (machine_int P k x ≡ panic) ↔ ((P.overflow_checks ≡ true) × (fits k x ≡ false))
  unfolding machine_int
  machine_int-panic_iff k x = (λ h. ground (arith, h), λ h. ground (arith, h))

  numeric_int :
      (op : ℤ → ℤ → ℤ) (f : ℕ → ℕ → ℕ) (name key : Bytes) (v w : Bool) (i j : ℤ)
      → numeric P op f name key (make_int v i) (make_int w j)
        ≡ map_ok (make_int (v || w)) (machine_int P (bits_of (v || w)) (op i j))
  unfolding numeric
  numeric_int op f name key true true i j = refl
  numeric_int op f name key true false i j = refl
  numeric_int op f name key false true i j = refl
  numeric_int op f name key false false i j = refl

  int-ok_iff :
      (w : Bool) (r : Outcome ℤ) (x : ℤ) → (map_ok (make_int w) r ≡ ok (make_int w x)) ↔ (r ≡ ok x)
  int-ok_iff true (ok y) x = (λ h. cc, λ h. cc)
  int-ok_iff false (ok y) x = (λ h. cc, λ h. cc)
  int-ok_iff w (err e) x = (λ h. absurd cc, λ h. absurd cc)
  int-ok_iff w panic x = (λ h. absurd cc, λ h. absurd cc)

  int-panic_iff : (w : Bool) (r : Outcome ℤ) → (map_ok (make_int w) r ≡ panic) ↔ (r ≡ panic)
  int-panic_iff w (ok y) = (λ h. absurd cc, λ h. absurd cc)
  int-panic_iff w (err e) = (λ h. absurd cc, λ h. absurd cc)
  int-panic_iff w panic = (λ h. refl, λ h. refl)

  module _ (op : ℤ → ℤ → ℤ) (f : ℕ → ℕ → ℕ) (name key : Bytes) (v w : Bool) (i j : ℤ) where
    numeric-ok_iff :
        (numeric P op f name key (make_int v i) (make_int w j) ≡ ok (make_int (v || w) (op i j)))
        ↔ Fits (bits_of (v || w)) (op i j)
    numeric-ok_iff =
        let e = numeric_int op f name key v w i j in
        let x = op i j in
        let made = int-ok_iff (v || w) (machine_int P (bits_of (v || w)) x) x in
        let fit = machine_int-ok_iff (bits_of (v || w)) x in
        (λ h. fit.0 (made.0 (sym e ∙ h)), λ h. e ∙ made.1 (fit.1 h))

    numeric-panic_iff :
        (numeric P op f name key (make_int v i) (make_int w j) ≡ panic)
        ↔ ((P.overflow_checks ≡ true) × (fits (bits_of (v || w)) (op i j) ≡ false))
    numeric-panic_iff =
        let e = numeric_int op f name key v w i j in
        let made = int-panic_iff (v || w) (machine_int P (bits_of (v || w)) (op i j)) in
        let out = machine_int-panic_iff (bits_of (v || w)) (op i j) in
        (λ h. out.0 (made.0 (sym e ∙ h)), λ h. e ∙ made.1 (out.1 h))

  -- On two integers `$inc` gives their sum, in the wider of the two types, exactly if the sum fits that type, and `$mul`
  -- gives their product exactly if the product does.
  pub numeric_exact_iff :
      (key : Bytes) (v w : Bool) (i j : ℤ)
      → ((inc_numeric P key (make_int v i) (make_int w j) ≡ ok (make_int (v || w) (i +ℤ j)))
          ↔ Fits (bits_of (v || w)) (i +ℤ j))
        × ((mul_numeric P key (make_int v i) (make_int w j) ≡ ok (make_int (v || w) (i *ℤ j)))
            ↔ Fits (bits_of (v || w)) (i *ℤ j))
  unfolding inc_numeric mul_numeric
  numeric_exact_iff key v w i j = (
    numeric-ok_iff ◌+ℤ◌ P.f64_add (str "$inc") key v w i j,
    numeric-ok_iff ◌*ℤ◌ P.f64_mul (str "$mul") key v w i j,
  )

  -- On two integers `$inc` panics exactly if the build checks overflow and the sum is out of range of the wider type,
  -- and `$mul` exactly if it checks overflow and the product is.
  pub numeric_panic_iff :
      (key : Bytes) (v w : Bool) (i j : ℤ)
      → ((inc_numeric P key (make_int v i) (make_int w j) ≡ panic)
          ↔ ((P.overflow_checks ≡ true) × (fits (bits_of (v || w)) (i +ℤ j) ≡ false)))
        × ((mul_numeric P key (make_int v i) (make_int w j) ≡ panic)
            ↔ ((P.overflow_checks ≡ true) × (fits (bits_of (v || w)) (i *ℤ j) ≡ false)))
  unfolding inc_numeric mul_numeric
  numeric_panic_iff key v w i j = (
    numeric-panic_iff ◌+ℤ◌ P.f64_add (str "$inc") key v w i j,
    numeric-panic_iff ◌*ℤ◌ P.f64_mul (str "$mul") key v w i j,
  )
