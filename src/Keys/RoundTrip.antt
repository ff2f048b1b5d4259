-- ===== src/Keys/RoundTrip.antt =====
-- Reading back what was written: one key in front of any further bytes, then a list of keys.
use mathlib.Core.Path.{ap₂}
use polo_db.Prelude.{
  ℕ, zero, suc, ◌+◌, ◌*◌, ◌/◌, ◌%◌, ◌^◌, ◌<◌, ◌≤◌, ◌≡◌, ◌≢◌, refl, true, false, ap, List, [], ◌∷◌,
  ◌++◌, length, length-append, All, arith, not, ◌==◌, ◌∙◌, append_assoc, append-nil,
}
use polo_db.Prelude.Int.{of_word, to_word, of_word-to_word, to_word_lt, Fits, ℤ}
use polo_db.Prelude.Bytes.{
  Bytes, be_bytes, of_be, read_exact, read_exact-append, of_be-be_bytes, length-be_bytes,
}
use polo_db.Errors.{Outcome, ok, err, panic, ◌>>=◌, map_ok, map_ok-append}
use polo_db.Bson.{
  Bson, double, string, boolean, null, int32, int64, timestamp, object_id, date_time, symbol,
  decimal128, undefined,
}
use polo_db.Bson.ElementType
use polo_db.Keys.{
  write_key, stacked_key_bytes, stack_all, stacked_key, read_until, pop_last, fixed, text,
  read_value, split_loop, split_stacked_keys, IsText, IsKey,
}

read_until-append :
    (s rest : Bytes) → All (λ b. b ≢ 0) s → read_until (s ++ 0 ∷ rest) ≡ (s ++ 0 ∷ [], rest)
unfolding read_until
read_until-append [] rest h = refl
read_until-append (b ∷ s) rest h = ground (arith, read_until-append s rest h.1)

pop_last-append : (s : Bytes) (b : ℕ) → pop_last (s ++ b ∷ []) ≡ s
unfolding pop_last
pop_last-append [] b = refl
pop_last-append (c ∷ []) b = refl
pop_last-append (c ∷ d ∷ s) b = ap (λ t. c ∷ t) (pop_last-append (d ∷ s) b)

text-append :
    (make : Bytes → Bson) (s rest : Bytes)
    → IsText s
    → text make ((s ++ 0 ∷ []) ++ rest) ≡ ok (make s, rest)
unfolding text
text-append make s rest h = rw (append_assoc, read_until-append s rest h.0, pop_last-append, h.1)

fixed-append :
    (n : ℕ) (make : Bytes → Bson) (bytes rest : Bytes)
    → length bytes ≡ n
    → fixed n make (bytes ++ rest) ≡ ok (make bytes, rest)
unfolding fixed
fixed-append n make bytes rest h = rw (read_exact-append n bytes rest h, fixed)

-- A number of `n` bytes, behind the function that makes a value of it.
number-append :
    (n v : ℕ) (make : ℕ → Bson) (rest : Bytes)
    → v < 256 ^ n
    → fixed n (λ bytes. make (of_be 0 bytes)) (be_bytes n v ++ rest) ≡ ok (make v, rest)
number-append n v make rest h =
    fixed-append n (λ bytes. make (of_be 0 bytes)) (be_bytes n v) rest (length-be_bytes n v)
    ∙ ap (λ x. ok (make x, rest)) (of_be-be_bytes n v h)

word-append :
    (n k : ℕ) (make : ℤ → Bson) (i : ℤ) (rest : Bytes)
    → Fits k i
    → 2 ^ k + 2 ^ k ≡ 256 ^ n
    → fixed n (λ bytes. make (of_word k (of_be 0 bytes))) (be_bytes n (to_word k i) ++ rest)
      ≡ ok (make i, rest)
word-append n k make i rest h e =
    number-append n (to_word k i) (λ v. make (of_word k v)) rest (rw e at (to_word_lt k i h))
    ∙ ap (λ j. ok (make j, rest)) (of_word-to_word k i h)

one_byte :
    (b : ℕ) (rest : Bytes)
    → fixed 1 (λ bytes. boolean (not (of_be 0 bytes == 0))) (b ∷ rest)
      ≡ ok (boolean (not (b == 0)), rest)
unfolding fixed read_exact of_be
one_byte b rest = ground arith

-- A key is written as an element type and a value, and the value is read back, whatever follows.
pub write_key-read_value :
    (k : Bson)
    → IsKey k
    → (ch : ℕ) × (bytes : Bytes) × (write_key k ≡ ok (ch ∷ bytes))
      × ((rest : Bytes) → read_value ch (bytes ++ rest) ≡ ok (k, rest))
unfolding write_key read_value
write_key-read_value (double bits) h =
    (ElementType.double, be_bytes 8 bits, refl, λ rest. number-append 8 bits double rest h)
write_key-read_value (string s) h =
    (ElementType.string, s ++ 0 ∷ [], refl, λ rest. text-append string s rest h)
write_key-read_value (boolean true) h = (ElementType.boolean, 1 ∷ [], refl, λ rest. one_byte 1 rest)
write_key-read_value (boolean false) h =
    (ElementType.boolean, 0 ∷ [], refl, λ rest. one_byte 0 rest)
write_key-read_value null h = (ElementType.null, [], refl, λ rest. refl)
write_key-read_value (int32 i) h = (
  ElementType.int32,
  be_bytes 4 (to_word 31 i),
  refl,
  λ rest. word-append 4 31 int32 i rest h refl,
)
write_key-read_value (int64 i) h = (
  ElementType.int64,
  be_bytes 8 (to_word 63 i),
  refl,
  λ rest. word-append 8 63 int64 i rest h refl,
)
write_key-read_value (timestamp time increment) (ht, hi) = (
  ElementType.timestamp,
  be_bytes 8 (time * 2 ^ 32 + increment),
  refl,
  λ rest.
      number-append 8 (time * 2 ^ 32 + increment) (λ v. timestamp (v / 2 ^ 32) (v % 2 ^ 32)) rest
        (omega arith)
      ∙ ap₂ (λ t i. ok (timestamp t i, rest)) (omega arith) (omega arith),
)
write_key-read_value (object_id o) h =
    (ElementType.object_id, o, refl, λ rest. fixed-append 12 object_id o rest h)
write_key-read_value (date_time millis) h = (
  ElementType.date_time,
  be_bytes 8 (to_word 63 millis),
  refl,
  λ rest. word-append 8 63 date_time millis rest h refl,
)
write_key-read_value (symbol s) h =
    (ElementType.symbol, s ++ 0 ∷ [], refl, λ rest. text-append symbol s rest h)
write_key-read_value (decimal128 d) h =
    (ElementType.decimal128, d, refl, λ rest. fixed-append 16 decimal128 d rest h)
write_key-read_value undefined h = (ElementType.undefined, [], refl, λ rest. refl)
write_key-read_value _ h = absurd h

-- What `stacked_key` builds, as a function that does not carry the bytes written before.
abbrev pub encode : List Bson → Outcome Bytes
encode [] = ok []
encode (k ∷ ks) = do bytes ← write_key k; more ← encode ks; ok (bytes ++ more)

same : (r : Outcome Bytes) → map_ok (λ bytes. [] ++ bytes) r ≡ r
same (ok bytes) = refl
same (err e) = refl
same panic = refl

abbrev Encoded : List Bson → Type 0
Encoded ks =
    (written : Bytes) → stack_all written ks ≡ map_ok (λ bytes. written ++ bytes) (encode ks)

stack_all-after :
    (written : Bytes) (ks : List Bson) (r : Outcome Bytes)
    → Encoded ks
    → (map_ok (λ bytes. written ++ bytes) r >>= λ w. stack_all w ks)
      ≡ map_ok (λ bytes. written ++ bytes) (do bytes ← r; more ← encode ks; ok (bytes ++ more))
stack_all-after written ks (ok bytes) ih =
    ih (written ++ bytes) ∙ map_ok-append written bytes (encode ks)
stack_all-after written ks (err e) ih = refl
stack_all-after written ks panic ih = refl

stack_all-encode : (ks : List Bson) → Encoded ks
unfolding stack_all stacked_key_bytes
stack_all-encode [] written = rw append-nil
stack_all-encode (k ∷ ks) written = stack_all-after written ks (write_key k) (stack_all-encode ks)

-- `stacked_key` writes the keys one behind the other.
pub stacked_key-encode : (ks : List Bson) → stacked_key ks ≡ encode ks
unfolding stacked_key
stacked_key-encode ks = stack_all-encode ks [] ∙ same (encode ks)

-- Keys are encoded, and the loop reads them back from any fuel that covers the bytes.
encode-split_loop :
    (ks : List Bson)
    → All IsKey ks
    → (bytes : Bytes) × (encode ks ≡ ok bytes)
      × ((fuel : ℕ) (result : List Bson)
          → length bytes ≤ fuel
          → split_loop fuel result bytes ≡ ok (result ++ ks))
unfolding split_loop
encode-split_loop [] h = ([], refl, λ fuel result le. rw append-nil)
encode-split_loop (k ∷ ks) (hk, hs) =
    let (ch, bytes, wrote, read) = write_key-read_value k hk in
    let (more, rest_wrote, rest_read) = encode-split_loop ks hs in
    (
      ch ∷ (bytes ++ more),
      rw (wrote, rest_wrote),
      elim [
        | zero ↦ λ result le. elim le [ ]
        | suc fuel ↦ λ result le. rw (read more) (
            rest_read fuel (result ++ k ∷ []) (omega (arith, length-append bytes more))
            ∙ ap ok (append_assoc result (k ∷ []) ks))
      ],
    )

-- Keys with values of their types and no zero byte in a text are written without an error, and
-- `split_stacked_keys` gives the same keys back.
pub split-stacked_key :
    (ks : List Bson) → All IsKey ks → (stacked_key ks >>= split_stacked_keys) ≡ ok ks
unfolding split_stacked_keys
split-stacked_key ks h =
    let (bytes, wrote, read) = encode-split_loop ks h in
    rw (stacked_key-encode, wrote) (read (length bytes) [] (omega arith))
