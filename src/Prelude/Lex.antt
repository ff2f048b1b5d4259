-- ===== src/Prelude/Lex.antt =====
-- The lexicographic order of byte strings: transitivity, and the keys with one prefix.
use Prim.Native.Nat.{Ordering}
use mathlib.Core.Path.{◌≡◌, refl}
use mathlib.Core.Logic.{◌≢◌}
use mathlib.Core.Bool.{true}
use mathlib.Core.List.{[], ◌∷◌}
use native.Mathlib.Omega.{arith}
use polo_db.Prelude.Bytes.{Bytes, cmp_bytes, cmp_bytes_swap, cmp_bytes_eq, starts_with}

pub cmp_bytes_trans :
    (xs ys zs : Bytes)
    → cmp_bytes xs ys ≢ Ordering.gt
    → cmp_bytes ys zs ≢ Ordering.gt
    → cmp_bytes xs zs ≢ Ordering.gt
unfolding cmp_bytes
cmp_bytes_trans [] ys [] h k = ground arith
cmp_bytes_trans [] ys (z ∷ zs) h k = ground arith
cmp_bytes_trans (x ∷ xs) [] zs h k = absurd (h refl)
cmp_bytes_trans (x ∷ xs) (y ∷ ys) [] h k = absurd (k refl)
cmp_bytes_trans (x ∷ xs) (y ∷ ys) (z ∷ zs) h k = ground (arith, cmp_bytes_trans xs ys zs)

pub cmp_bytes_le_lt :
    (xs ys zs : Bytes)
    → cmp_bytes xs ys ≢ Ordering.gt
    → cmp_bytes ys zs ≡ Ordering.lt
    → cmp_bytes xs zs ≡ Ordering.lt
unfolding cmp_bytes
cmp_bytes_le_lt xs [] [] h k = cc
cmp_bytes_le_lt [] ys (z ∷ zs) h k = refl
cmp_bytes_le_lt xs (y ∷ ys) [] h k = cc
cmp_bytes_le_lt (x ∷ xs) [] (z ∷ zs) h k = absurd (h refl)
cmp_bytes_le_lt (x ∷ xs) (y ∷ ys) (z ∷ zs) h k = ground (arith, cmp_bytes_le_lt xs ys zs)

pub cmp_bytes_lt-gt :
    (xs ys : Bytes) → cmp_bytes ys xs ≡ Ordering.lt → cmp_bytes xs ys ≡ Ordering.gt
cmp_bytes_lt-gt xs ys h = ground (arith, cmp_bytes_swap xs ys)

pub cmp_bytes_lt_trans :
    (xs ys zs : Bytes)
    → cmp_bytes xs ys ≡ Ordering.lt
    → cmp_bytes ys zs ≡ Ordering.lt
    → cmp_bytes xs zs ≡ Ordering.lt
cmp_bytes_lt_trans xs ys zs h k = cmp_bytes_le_lt xs ys zs (λ e. cc) k

pub cmp_bytes_refl : (xs : Bytes) → cmp_bytes xs xs ≡ Ordering.eq
cmp_bytes_refl xs = (cmp_bytes_eq xs xs).1 refl

pub cmp_bytes_gt-lt :
    (xs ys : Bytes) → cmp_bytes xs ys ≡ Ordering.gt → cmp_bytes ys xs ≡ Ordering.lt
cmp_bytes_gt-lt xs ys h = ground (arith, cmp_bytes_swap xs ys)

-- A string is not below its prefix.
pub cmp_bytes_prefix : (xs ys : Bytes) → starts_with ys xs ≡ true → cmp_bytes ys xs ≢ Ordering.lt
unfolding cmp_bytes starts_with
cmp_bytes_prefix [] [] h = ground arith
cmp_bytes_prefix [] (y ∷ ys) h = ground arith
cmp_bytes_prefix (x ∷ xs) [] h = absurd (ground arith)
cmp_bytes_prefix (x ∷ xs) (y ∷ ys) h = ground (arith, cmp_bytes_prefix xs ys)

-- What lies between a prefix and a string that has it has it as well.
pub starts_with_between :
    (p xs ys : Bytes)
    → starts_with ys p ≡ true
    → cmp_bytes xs p ≢ Ordering.lt
    → cmp_bytes xs ys ≢ Ordering.gt
    → starts_with xs p ≡ true
unfolding cmp_bytes starts_with
starts_with_between [] xs ys h low high = ground arith
starts_with_between (c ∷ p) xs [] h low high = absurd (ground arith)
starts_with_between (c ∷ p) [] (y ∷ ys) h low high = absurd (low refl)
starts_with_between (c ∷ p) (x ∷ xs) (y ∷ ys) h low high =
    ground (arith, starts_with_between p xs ys)
