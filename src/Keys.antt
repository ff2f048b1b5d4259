-- ===== src/Keys.antt =====
-- src/polodb_core/utils/bson.rs, `stacked_key`, `stacked_key_bytes` and `split_stacked_keys`: the
-- byte keys under which documents and index entries are stored. A `Vec<u8>` writer never fails, so
-- writing is appending. The loop of `split_stacked_keys` takes as fuel the length of the buffer.
pub mod RoundTrip
pub mod Total
pub mod Prefix
pub mod ZeroBytes
mod Examples
use polo_db.Prelude.{
  ℕ, zero, suc, ◌+◌, ◌*◌, ◌/◌, ◌%◌, ◌^◌, ◌<◌, ◌≡◌, ◌≢◌, Bool, true, false, not, Option, none, some,
  List, [], ◌∷◌, ◌++◌, ◌==◌, if◌then◌else◌, length, All,
}
use polo_db.Prelude.Int.{of_word, to_word, Fits}
use polo_db.Prelude.Bytes.{Bytes, be_bytes, of_be, read_exact}
use polo_db.Errors.{
  Outcome, ok, err, panic, ◌>>=◌, map_ok, not_a_valid_key_type, io_err, from_utf8_error,
  unknown_bson_element_type,
}
use polo_db.Bson.{
  Bson, double, string, boolean, null, int32, int64, timestamp, object_id, date_time, symbol,
  decimal128, undefined,
}
use polo_db.Bson.ElementType
use polo_db.Bson.Valid.{is_utf8}

-- What `stacked_key_bytes` appends for a key. The time and the increment of a timestamp have 32 bits
-- each, so `(time << 32) | increment` is a sum.
pub write_key : Bson → Outcome Bytes
write_key (double bits) = ok (ElementType.double ∷ be_bytes 8 bits)
write_key (string s) = ok (ElementType.string ∷ (s ++ 0 ∷ []))
write_key (boolean true) = ok (ElementType.boolean ∷ 1 ∷ [])
write_key (boolean false) = ok (ElementType.boolean ∷ 0 ∷ [])
write_key null = ok (ElementType.null ∷ [])
write_key (int32 i) = ok (ElementType.int32 ∷ be_bytes 4 (to_word 31 i))
write_key (int64 i) = ok (ElementType.int64 ∷ be_bytes 8 (to_word 63 i))
write_key (timestamp time increment) =
    ok (ElementType.timestamp ∷ be_bytes 8 (time * 2 ^ 32 + increment))
write_key (object_id bytes) = ok (ElementType.object_id ∷ bytes)
write_key (date_time millis) = ok (ElementType.date_time ∷ be_bytes 8 (to_word 63 millis))
write_key (symbol s) = ok (ElementType.symbol ∷ (s ++ 0 ∷ []))
write_key (decimal128 bytes) = ok (ElementType.decimal128 ∷ bytes)
write_key undefined = ok (ElementType.undefined ∷ [])
write_key _ = err not_a_valid_key_type

unfoldable pub stacked_key_bytes : Bytes → Bson → Outcome Bytes
unfolding write_key
stacked_key_bytes writer key = map_ok (λ bytes. writer ++ bytes) (write_key key)

unfoldable pub stack_all : Bytes → List Bson → Outcome Bytes
stack_all result [] = ok result
stack_all result (key ∷ keys) = do written ← stacked_key_bytes result key; stack_all written keys

unfoldable pub stacked_key : List Bson → Outcome Bytes
unfolding stack_all stacked_key_bytes
stacked_key keys = stack_all [] keys

-- `read_until(0)`: up to the first zero byte, that byte included, or to the end of the reader.
pub read_until : Bytes → Bytes × Bytes
read_until [] = ([], [])
read_until (b ∷ reader) =
    let (bytes, rest) = read_until reader in if b == 0 then (0 ∷ [], reader) else (b ∷ bytes, rest)

-- `Vec::pop`
pub pop_last : Bytes → Bytes
pop_last [] = []
pop_last (b ∷ []) = []
pop_last (b ∷ c ∷ bs) = b ∷ pop_last (c ∷ bs)

-- A read that fails at the end of the reader.
pub fixed : ℕ → (Bytes → Bson) → Bytes → Outcome (Bson × Bytes)
fixed n make reader = elim (read_exact n reader) [
  | none ↦ err io_err
  | some (bytes, rest) ↦ ok (make bytes, rest)
]

-- `read_until`, `pop` and `String::from_utf8`
pub text : (Bytes → Bson) → Bytes → Outcome (Bson × Bytes)
unfolding read_until pop_last
text make reader =
    let (bytes, rest) = read_until reader in
    if is_utf8 (pop_last bytes) then ok (make (pop_last bytes), rest) else err from_utf8_error

-- The value behind the element type `ch`, and the rest of the reader.
pub read_value : ℕ → Bytes → Outcome (Bson × Bytes)
read_value ch reader =
    if ch == ElementType.double
    then fixed 8 (λ bytes. double (of_be 0 bytes)) reader
    else if ch == ElementType.string
    then text string reader
    else if ch == ElementType.boolean
    then fixed 1 (λ bytes. boolean (not (of_be 0 bytes == 0))) reader
    else if ch == ElementType.null
    then ok (null, reader)
    else if ch == ElementType.int32
    then fixed 4 (λ bytes. int32 (of_word 31 (of_be 0 bytes))) reader
    else if ch == ElementType.int64
    then fixed 8 (λ bytes. int64 (of_word 63 (of_be 0 bytes))) reader
    else if ch == ElementType.timestamp
    then fixed 8 (λ bytes. timestamp (of_be 0 bytes / 2 ^ 32) (of_be 0 bytes % 2 ^ 32)) reader
    else if ch == ElementType.object_id
    then fixed 12 object_id reader
    else if ch == ElementType.date_time
    then fixed 8 (λ bytes. date_time (of_word 63 (of_be 0 bytes))) reader
    else if ch == ElementType.symbol
    then text symbol reader
    else if ch == ElementType.decimal128
    then fixed 16 decimal128 reader
    else if ch == ElementType.undefined
    then ok (undefined, reader)
    else err (unknown_bson_element_type ch)

pub split_loop : ℕ → List Bson → Bytes → Outcome (List Bson)
split_loop fuel result [] = ok result
split_loop zero result (ch ∷ reader) = panic
split_loop (suc fuel) result (ch ∷ reader) = do
  (value, rest) ← read_value ch reader
  split_loop fuel (result ++ value ∷ []) rest

unfoldable pub split_stacked_keys : Bytes → Outcome (List Bson)
unfolding split_loop read_value fixed text
split_stacked_keys buffer = split_loop (length buffer) [] buffer

-- The values of the types that keys are made of, with no zero byte in a text.
abbrev pub IsText : Bytes → Type 0
IsText s = All (λ b. b ≢ 0) s × (is_utf8 s ≡ true)

abbrev pub IsKey : Bson → Type 0
IsKey (double bits) = bits < 256 ^ 8
IsKey (string s) = IsText s
IsKey (boolean b) = Unit
IsKey null = Unit
IsKey (int32 i) = Fits 31 i
IsKey (int64 i) = Fits 63 i
IsKey (timestamp time increment) = (time < 2 ^ 32) × (increment < 2 ^ 32)
IsKey (object_id bytes) = length bytes ≡ 12
IsKey (date_time millis) = Fits 63 millis
IsKey (symbol s) = IsText s
IsKey (decimal128 bytes) = length bytes ≡ 16
IsKey undefined = Unit
IsKey _ = ⊥
