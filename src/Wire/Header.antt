-- ===== src/Wire/Header.antt =====
-- src/polodb/wire/header.rs. The stream is the list of its bytes; an integer of 32 bits is read and written
-- with its lowest byte first.
use polo_db.Prelude.{◌==◌, ◌⊎◌, inl, inr, ◌++◌, if◌then◌else◌}
use polo_db.Prelude.Int.{ℤ, pos, negsuc, to_word}
use polo_db.Prelude.Bytes.{Bytes}
use polo_db.Vm.Label.{to_le_bytes}

pub data OpCode : Type 0 where
  reply : OpCode
  query : OpCode
  message : OpCode
  compressed : OpCode

pub record Header : Type 0 where
  pub length : ℤ
  pub request_id : ℤ
  pub response_to : ℤ
  pub op_code : OpCode

pub data WireError : Type 0 where
  unexpected_eof : WireError
  invalid_op_code : ℤ → WireError

-- `as i32`
unfoldable pub number : OpCode → ℤ
number OpCode.reply = pos 1
number OpCode.query = pos 2004
number OpCode.message = pos 2013
number OpCode.compressed = pos 2012

unfoldable pub from_i32 : ℤ → WireError ⊎ OpCode
from_i32 (pos i) =
    if i == 1
    then inr OpCode.reply
    else if i == 2004
    then inr OpCode.query
    else if i == 2013
    then inr OpCode.message
    else if i == 2012
    then inr OpCode.compressed
    else inl (WireError.invalid_op_code (pos i))
from_i32 (negsuc i) = inl (WireError.invalid_op_code (negsuc i))

unfoldable pub i32_bytes : ℤ → Bytes
unfolding to_le_bytes to_word
i32_bytes i = to_le_bytes (to_word 31 i)

unfoldable pub write_to : Header → Bytes
unfolding i32_bytes number
write_to h =
    i32_bytes h.length
    ++ (i32_bytes h.request_id ++ (i32_bytes h.response_to ++ i32_bytes (number h.op_code)))

infixl 5 ◌>>=◌
abbrev pub ◌>>=◌ : {A B : Type 0} → WireError ⊎ A → (A → WireError ⊎ B) → WireError ⊎ B
inl e >>= next = inl e
inr a >>= next = next a

-- `read_i32_le` of tokio is an argument.
unfoldable pub read_from :
    (read_i32_le : Bytes → WireError ⊎ (ℤ × Bytes)) → Bytes → WireError ⊎ (Header × Bytes)
unfolding from_i32
read_from read_i32_le reader = do
  (length, reader1) ← read_i32_le reader
  (request_id, reader2) ← read_i32_le reader1
  (response_to, reader3) ← read_i32_le reader2
  (code, reader4) ← read_i32_le reader3
  op_code ← from_i32 code
  inr (
    record {
      length = length;
      request_id = request_id;
      response_to = response_to;
      op_code = op_code;
    },
    reader4,
  )
