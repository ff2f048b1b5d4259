-- ===== src/Prelude/Int.antt =====
-- Signed integers over the native numbers, their order, and two's complement words.
use Prim.Native.Nat.{ℕ, suc, ◌+◌, ◌-◌, ◌*◌, ◌^◌, ◌≤◌, ◌<◌, compare, Ordering}
use mathlib.Core.Path.{◌≡◌}
use mathlib.Core.Bool.{Bool, ◌&&◌}
use native.Mathlib.Omega.{arith}
use polo_db.Prelude.Tests.{ltb, leb, if◌then◌else◌}

-- `negsuc n` is -(n + 1).
pub data ℤ : Type 0 where
  pos : ℕ → ℤ
  negsuc : ℕ → ℤ

abbrev pub pos_part : ℤ → ℕ
pos_part (pos n) = n
pos_part (negsuc n) = 0

abbrev pub neg_part : ℤ → ℕ
neg_part (pos n) = 0
neg_part (negsuc n) = suc n

-- a - b, as an integer.
abbrev pub sub_ℕ : ℕ → ℕ → ℤ
sub_ℕ a b = if leb b a then pos (a - b) else negsuc (b - a - 1)

infixl 65 ◌+ℤ◌
infixl 70 ◌*ℤ◌
infix 50 ◌≤ℤ◌ ◌<ℤ◌
unfoldable pub ◌+ℤ◌ : ℤ → ℤ → ℤ
a +ℤ b = sub_ℕ (pos_part a + pos_part b) (neg_part a + neg_part b)

unfoldable pub ◌*ℤ◌ : ℤ → ℤ → ℤ
a *ℤ b =
    sub_ℕ (pos_part a * pos_part b + neg_part a * neg_part b)
      (pos_part a * neg_part b + neg_part a * pos_part b)

abbrev pub ◌≤ℤ◌ : ℤ → ℤ → Type 0
a ≤ℤ b = pos_part a + neg_part b ≤ pos_part b + neg_part a

abbrev pub ◌<ℤ◌ : ℤ → ℤ → Type 0
a <ℤ b = pos_part a + neg_part b < pos_part b + neg_part a

-- `Ord::cmp` of the signed integer types.
abbrev pub cmp_ℤ : ℤ → ℤ → Ordering
cmp_ℤ a b = compare (pos_part a + neg_part b) (pos_part b + neg_part a)

-- The range of a signed integer of `suc k` bits.
abbrev pub Fits : ℕ → ℤ → Type 0
Fits k a = (pos_part a < 2 ^ k) × (neg_part a ≤ 2 ^ k)

abbrev pub fits : ℕ → ℤ → Bool
fits k a = ltb (pos_part a) (2 ^ k) && leb (neg_part a) (2 ^ k)

-- The two's complement bit pattern of `suc k` bits, and the integer that a pattern stands for.
unfoldable pub to_word : ℕ → ℤ → ℕ
to_word k (pos n) = n
to_word k (negsuc n) = 2 ^ k + 2 ^ k - suc n

unfoldable pub of_word : ℕ → ℕ → ℤ
of_word k x = if ltb x (2 ^ k) then pos x else negsuc (2 ^ k + 2 ^ k - x - 1)

pub of_word-to_word : (k : ℕ) (a : ℤ) → Fits k a → of_word k (to_word k a) ≡ a
unfolding of_word to_word
of_word-to_word k (pos n) h = ground arith
of_word-to_word k (negsuc n) h = ground arith

pub to_word_lt : (k : ℕ) (a : ℤ) → Fits k a → to_word k a < 2 ^ k + 2 ^ k
unfolding to_word
to_word_lt k (pos n) h = omega arith
to_word_lt k (negsuc n) h = omega arith
