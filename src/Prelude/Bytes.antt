-- ===== src/Prelude/Bytes.antt =====
-- Byte strings: text literals, comparison, and big-endian numbers.
use Prim.Native.Nat.{ℕ, zero, suc, ◌+◌, ◌*◌, ◌/◌, ◌%◌, ◌^◌, ◌<◌, compare, Ordering}
use Prim.Native.Char.{code}
use Prim.Native.String.{String}
use mathlib.Core.Path.{◌≡◌, refl}
use mathlib.Core.Logic.{◌↔◌}
use mathlib.Core.Bool.{Bool, true, false, ◌&&◌}
use mathlib.Core.List.{List, [], ◌∷◌, ◌++◌}
use mathlib.Core.Option
use mathlib.Core.Option.{Option, none, some}
use native.Mathlib.Omega.{arith}
use native.Mathlib.Nat.{div-lt_iff_lt-mul, pow-suc}
use polo_db.Prelude.Tests.{◌==◌}
use polo_db.Prelude.Lists.{length, length-append}

abbrev pub Bytes : Type 0
Bytes = List ℕ

-- The bytes of an ASCII literal.
abbrev pub str : String → Bytes
str String.[] = []
str (String.◌∷◌ c s) = code c ∷ str s

-- `==` of `&str` and `&[u8]`.
unfoldable pub str_eq : Bytes → Bytes → Bool
str_eq [] [] = true
str_eq [] (y ∷ ys) = false
str_eq (x ∷ xs) [] = false
str_eq (x ∷ xs) (y ∷ ys) = x == y && str_eq xs ys

pub str_eq_iff : (xs ys : Bytes) → (str_eq xs ys ≡ true) ↔ (xs ≡ ys)
unfolding str_eq
str_eq_iff [] [] = ground arith
str_eq_iff [] (y ∷ ys) = ground arith
str_eq_iff (x ∷ xs) [] = ground arith
str_eq_iff (x ∷ xs) (y ∷ ys) = ground (arith, str_eq_iff xs ys)

pub str_eq_refl : (xs : Bytes) → str_eq xs xs ≡ true
str_eq_refl xs = (str_eq_iff xs xs).1 refl

abbrev pub then_cmp : Ordering → Ordering → Ordering
then_cmp Ordering.eq o = o
then_cmp o _ = o

abbrev pub reverse_cmp : Ordering → Ordering
reverse_cmp Ordering.lt = Ordering.gt
reverse_cmp Ordering.eq = Ordering.eq
reverse_cmp Ordering.gt = Ordering.lt

-- `Ord::cmp` of byte slices and of strings: lexicographic.
unfoldable pub cmp_bytes : Bytes → Bytes → Ordering
cmp_bytes [] [] = Ordering.eq
cmp_bytes [] (y ∷ ys) = Ordering.lt
cmp_bytes (x ∷ xs) [] = Ordering.gt
cmp_bytes (x ∷ xs) (y ∷ ys) = then_cmp (compare x y) (cmp_bytes xs ys)

pub cmp_bytes_swap : (xs ys : Bytes) → cmp_bytes ys xs ≡ reverse_cmp (cmp_bytes xs ys)
unfolding cmp_bytes
cmp_bytes_swap [] [] = refl
cmp_bytes_swap [] (y ∷ ys) = refl
cmp_bytes_swap (x ∷ xs) [] = refl
cmp_bytes_swap (x ∷ xs) (y ∷ ys) = ground (arith, cmp_bytes_swap xs ys)

pub cmp_bytes_eq : (xs ys : Bytes) → (cmp_bytes xs ys ≡ Ordering.eq) ↔ (xs ≡ ys)
unfolding cmp_bytes
cmp_bytes_eq [] [] = ground arith
cmp_bytes_eq [] (y ∷ ys) = ground arith
cmp_bytes_eq (x ∷ xs) [] = ground arith
cmp_bytes_eq (x ∷ xs) (y ∷ ys) = ground (arith, cmp_bytes_eq xs ys)

-- `starts_with` of a byte slice.
unfoldable pub starts_with : Bytes → Bytes → Bool
starts_with xs [] = true
starts_with [] (y ∷ ys) = false
starts_with (x ∷ xs) (y ∷ ys) = x == y && starts_with xs ys

pub starts_with-append : (xs ys : Bytes) → starts_with (xs ++ ys) xs ≡ true
unfolding starts_with
starts_with-append [] ys = refl
starts_with-append (x ∷ xs) ys = ground (arith, starts_with-append xs ys)

pub starts_with_elim :
    (xs ys : Bytes) → starts_with xs ys ≡ true → (rest : Bytes) × (xs ≡ ys ++ rest)
unfolding starts_with
starts_with_elim xs [] h = (xs, refl)
starts_with_elim [] (y ∷ ys) h = cc
starts_with_elim (x ∷ xs) (y ∷ ys) h =
    let (rest, e) = starts_with_elim xs ys (ground arith) in (rest, ground arith)

-- `n` bytes of `v`, the most significant first.
unfoldable pub be_bytes : ℕ → ℕ → Bytes
be_bytes zero v = []
be_bytes (suc n) v = be_bytes n (v / 256) ++ v % 256 ∷ []

unfoldable pub of_be : ℕ → Bytes → ℕ
of_be acc [] = acc
of_be acc (b ∷ bs) = of_be (acc * 256 + b) bs

of_be-append : (acc : ℕ) (bs : Bytes) (b : ℕ) → of_be acc (bs ++ b ∷ []) ≡ of_be acc bs * 256 + b
unfolding of_be
of_be-append acc [] b = refl
of_be-append acc (c ∷ bs) b = of_be-append (acc * 256 + c) bs b

pub of_be-be_bytes : (n v : ℕ) → v < 256 ^ n → of_be 0 (be_bytes n v) ≡ v
unfolding be_bytes of_be
of_be-be_bytes zero v h = omega arith
of_be-be_bytes (suc n) v h = omega (
  arith,
  of_be-append 0 (be_bytes n (v / 256)) (v % 256),
  of_be-be_bytes n (v / 256) ((div-lt_iff_lt-mul (omega arith)).1 (rw pow-suc at h)),
)

pub length-be_bytes : (n v : ℕ) → length (be_bytes n v) ≡ n
unfolding be_bytes
length-be_bytes zero v = refl
length-be_bytes (suc n) v =
    omega (arith, length-append (be_bytes n (v / 256)) (v % 256 ∷ []), length-be_bytes n (v / 256))

-- `read_exact` of a slice: the first `n` bytes and the rest, or nothing if there are fewer.
unfoldable pub read_exact : ℕ → Bytes → Option (Bytes × Bytes)
read_exact zero bs = some ([], bs)
read_exact (suc n) [] = none
read_exact (suc n) (b ∷ bs) = Option.map (λ r. (b ∷ r.0, r.1)) (read_exact n bs)

pub read_exact-append :
    (n : ℕ) (xs ys : Bytes) → length xs ≡ n → read_exact n (xs ++ ys) ≡ some (xs, ys)
unfolding read_exact
read_exact-append zero [] ys h = refl
read_exact-append zero (x ∷ xs) ys h = absurd (omega arith)
read_exact-append (suc n) [] ys h = absurd (omega arith)
read_exact-append (suc n) (x ∷ xs) ys h = rw (read_exact-append n xs ys (omega arith))
