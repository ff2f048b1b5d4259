-- ===== src/Vm/Label/RoundTrip.antt =====
-- An operand is read back as it was written.
use polo_db.Errors.{ok}
use polo_db.Prelude.{ℕ, ◌+◌, ◌*◌, ◌/◌, ◌%◌, ◌^◌, ◌<◌, ◌≡◌, ap, arith, [], ◌∷◌, ◌++◌, length}
use polo_db.Prelude.Bytes.{Bytes}
use polo_db.Vm.Label.{to_le_bytes}
use polo_db.Vm.Machine.{u32_at}

pub digits_lem :
    (n : ℕ)
    → n < 4294967296
    → n % 256 + 256 * (n / 256 % 256) + 65536 * (n / 65536 % 256) + 16777216 * (n / 16777216 % 256)
      ≡ n
digits_lem n small = omega (arith, small)

-- The machine reads an operand below 2 ^ 32 as the compiler wrote it, wherever it stands in the code.
pub u32_at-to_le_bytes :
    (before after : Bytes) (n : ℕ)
    → n < 2 ^ 32
    → u32_at (before ++ (to_le_bytes n ++ after)) (length before) ≡ ok n
unfolding u32_at to_le_bytes
u32_at-to_le_bytes [] after n small = ap ok (digits_lem n small)
u32_at-to_le_bytes (b ∷ before) after n small = u32_at-to_le_bytes before after n small
