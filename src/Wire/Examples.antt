-- ===== src/Wire/Examples.antt =====
-- The header of a message, at a small stream.
use polo_db.Vm.Label.{to_le_bytes}
use polo_db.Vm.Label.RoundTrip.{digits_lem}
use polo_db.Prelude.{◌≡◌, ◌+◌, ◌*◌, ◌∙◌, ap, refl, arith, ◌⊎◌, inl, inr, [], ◌∷◌, ◌++◌}
use polo_db.Prelude.Int.{ℤ, pos, negsuc, Fits, to_word, of_word, of_word-to_word, to_word_lt}
use polo_db.Prelude.Bytes.{Bytes}
use polo_db.Wire.Header.{OpCode, Header, WireError, i32_bytes, write_to, read_from}
use polo_db.Wire.RoundTrip.{read_from-write_to}

-- A reader of integers of 32 bits.
abbrev read_i32_le : Bytes → WireError ⊎ (ℤ × Bytes)
unfolding of_word
read_i32_le (a ∷ b ∷ c ∷ d ∷ stream) =
    inr (of_word 31 (a + 256 * b + 65536 * c + 16777216 * d), stream)
read_i32_le _ = inl WireError.unexpected_eof

read_i32_le-i32_bytes :
    (i : ℤ) (stream : Bytes) → Fits 31 i → read_i32_le (i32_bytes i ++ stream) ≡ inr (i, stream)
unfolding read_i32_le i32_bytes to_le_bytes of_word
read_i32_le-i32_bytes i stream fits =
    let e = digits_lem (to_word 31 i) (to_word_lt 31 i fits) ∙ refl in
    ap (λ n. inr (of_word 31 n, stream)) e ∙ ap (λ j. inr (j, stream)) (of_word-to_word 31 i fits)

abbrev header : Header
header = record {
  length = pos 300;
  request_id = negsuc 4;
  response_to = pos 0;
  op_code = OpCode.message;
}

read_from-write_to_example :
    read_from read_i32_le (write_to header ++ 7 ∷ []) ≡ inr (header, 7 ∷ [])
read_from-write_to_example =
    read_from-write_to read_i32_le read_i32_le-i32_bytes header (7 ∷ []) (omega arith, omega arith)
      (omega arith, omega arith) (omega arith, omega arith)

unknown_op_code :
    read_from read_i32_le (1 ∷ 0 ∷ 0 ∷ 0 ∷ 1 ∷ 0 ∷ 0 ∷ 0 ∷ 1 ∷ 0 ∷ 0 ∷ 0 ∷ 213 ∷ 7 ∷ 0 ∷ 0 ∷ 9 ∷ [])
    ≡ inl (WireError.invalid_op_code (pos 2005))
unfolding read_from of_word read_i32_le
unknown_op_code = refl
