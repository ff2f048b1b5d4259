-- ===== src/Wire/RoundTrip.antt =====
-- What is read of a header that was written.
use polo_db.Prelude.{◌≡◌, refl, ap, ◌∙◌, arith, ◌⊎◌, inr, ◌++◌}
use polo_db.Prelude.Int.{ℤ, Fits}
use polo_db.Prelude.Bytes.{Bytes}
use polo_db.Wire.Header.{
  OpCode, Header, WireError, number, from_i32, i32_bytes, write_to, ◌>>=◌, read_from,
}

from_i32-number : (op : OpCode) → from_i32 (number op) ≡ inr op
unfolding from_i32 number
from_i32-number OpCode.reply = refl
from_i32-number OpCode.query = refl
from_i32-number OpCode.message = refl
from_i32-number OpCode.compressed = refl

number-Fits : (op : OpCode) → Fits 31 (number op)
unfolding number
number-Fits OpCode.reply = (omega arith, omega arith)
number-Fits OpCode.query = (omega arith, omega arith)
number-Fits OpCode.message = (omega arith, omega arith)
number-Fits OpCode.compressed = (omega arith, omega arith)

module _ (read_i32_le : Bytes → WireError ⊎ (ℤ × Bytes))
    (little_endian : (i : ℤ) (stream : Bytes)
      → Fits 31 i
      → read_i32_le (i32_bytes i ++ stream) ≡ inr (i, stream)) where
  read_next :
      {B : Type 0} (i : ℤ) (stream : Bytes) (next : ℤ × Bytes → WireError ⊎ B)
      → Fits 31 i
      → (read_i32_le (i32_bytes i ++ stream) >>= next) ≡ next (i, stream)
  read_next i stream next fits = ap (λ r. r >>= next) (little_endian i stream fits)

  -- The rest of `read_from` behind each of its fields.
  abbrev with_code : (length request_id response_to : ℤ) → ℤ × Bytes → WireError ⊎ (Header × Bytes)
  with_code length request_id response_to (code, stream) = from_i32 code >>= λ op_code. inr (
    record {
      length = length;
      request_id = request_id;
      response_to = response_to;
      op_code = op_code;
    },
    stream,
  )

  abbrev with_response : (length request_id : ℤ) → ℤ × Bytes → WireError ⊎ (Header × Bytes)
  with_response length request_id (response_to, stream) =
      read_i32_le stream >>= with_code length request_id response_to

  abbrev with_request : ℤ → ℤ × Bytes → WireError ⊎ (Header × Bytes)
  with_request length (request_id, stream) = read_i32_le stream >>= with_response length request_id

  abbrev with_length : ℤ × Bytes → WireError ⊎ (Header × Bytes)
  with_length (length, stream) = read_i32_le stream >>= with_request length

  -- Where the reader takes an integer of 32 bits from the bytes that stand for it, with the lowest first, a
  -- header whose numbers have 32 bits is read back from the bytes that were written of it, and the stream
  -- goes on behind them.
  pub read_from-write_to :
      (h : Header) (stream : Bytes)
      → Fits 31 h.length
      → Fits 31 h.request_id
      → Fits 31 h.response_to
      → read_from read_i32_le (write_to h ++ stream) ≡ inr (h, stream)
  unfolding read_from write_to i32_bytes
  read_from-write_to h stream a b c =
      read_next h.length
        (i32_bytes h.request_id
          ++ (i32_bytes h.response_to ++ (i32_bytes (number h.op_code) ++ stream)))
        with_length a
      ∙ read_next h.request_id (i32_bytes h.response_to ++ (i32_bytes (number h.op_code) ++ stream))
          (with_request h.length) b
      ∙ read_next h.response_to (i32_bytes (number h.op_code) ++ stream)
          (with_response h.length h.request_id) c
      ∙ read_next (number h.op_code) stream (with_code h.length h.request_id h.response_to)
          (number-Fits h.op_code)
      ∙ ap (λ r. r >>= λ op. inr (record h { op_code = op }, stream)) (from_i32-number h.op_code)
