-- ===== src/Errors/Kept.antt =====
-- What src/polodb_core leaves behind in a state that is changed step by step: what was written before an error or a
-- panic stays.
use polo_db.Prelude.{◌≡◌, refl, ap}
use polo_db.Errors.{Outcome, ok, err, panic, On}

-- The state behind an operation, and how it ended.
abbrev pub Kept : Type 0 → Type 0
Kept T = T × Outcome (Unit {0})

-- The state behind a write, and the one that a write that fails leaves.
abbrev pub written : {T : Type 0} → T → Outcome T → Kept T
written t (ok u) = (u, ok tt)
written t (err e) = (t, err e)
written t panic = (t, panic)

-- A step that needs a value, and a step behind another.
abbrev pub given : {T A : Type 0} → T → Outcome A → (A → Kept T) → Kept T
given t (ok a) next = next a
given t (err e) next = (t, err e)
given t panic next = (t, panic)

abbrev pub behind : {T : Type 0} → Kept T → (T → Kept T) → Kept T
behind (u, ok _) next = next u
behind (u, err e) next = (u, err e)
behind (u, panic) next = (u, panic)

abbrev pub Done : {T : Type 0} → Kept T → T → Type 0
Done kept u = kept ≡ (u, ok tt)

-- Inversion of steps that succeed.
pub written-Done : {T : Type 0} {u : T} (t : T) (r : Outcome T) → Done (written t r) u → r ≡ ok u
written-Done t (ok v) h = ap (λ kept. ok kept.0) h
written-Done t (err e) h = let wrong = ap (λ kept. kept.1) h in absurd cc
written-Done t panic h = let wrong = ap (λ kept. kept.1) h in absurd cc

pub given-Done :
    {T A : Type 0} {u : T} (t : T) (r : Outcome A) (next : A → Kept T)
    → Done (given t r next) u
    → (a : A) × (r ≡ ok a) × Done (next a) u
given-Done t (ok a) next h = (a, refl, h)
given-Done t (err e) next h = let wrong = ap (λ kept. kept.1) h in absurd cc
given-Done t panic next h = let wrong = ap (λ kept. kept.1) h in absurd cc

pub behind-Done :
    {T : Type 0} {u : T} (kept : Kept T) (next : T → Kept T)
    → Done (behind kept next) u
    → (v : T) × Done kept v × Done (next v) u
behind-Done (v, ok _) next h = (v, refl, h)
behind-Done (v, err e) next h = let wrong = ap (λ kept. kept.1) h in absurd cc
behind-Done (v, panic) next h = let wrong = ap (λ kept. kept.1) h in absurd cc

-- What holds of the state that is left, however the steps end.
module _ {T : Type 0} (P : T → Type 0) where
  pub written-kept : (t : T) (r : Outcome T) → P t → On P r → P (written t r).0
  written-kept t (ok u) h k = k
  written-kept t (err e) h k = h
  written-kept t panic h k = h

  pub given-kept :
      {A : Type 0} (t : T) (r : Outcome A) (next : A → Kept T)
      → P t
      → ((a : A) → P (next a).0)
      → P (given t r next).0
  given-kept t (ok a) next h k = k a
  given-kept t (err e) next h k = h
  given-kept t panic next h k = h

  pub behind-kept :
      (kept : Kept T) (next : T → Kept T)
      → P kept.0
      → ((u : T) → P u → P (next u).0)
      → P (behind kept next).0
  behind-kept (u, ok _) next h k = k u h
  behind-kept (u, err e) next h k = h
  behind-kept (u, panic) next h k = h
