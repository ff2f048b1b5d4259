-- ===== src/Keys/Total.antt =====
-- Errors and termination: which keys are refused, and the loop of `split_stacked_keys` without fuel.
use mathlib.Core.Option
use polo_db.Prelude.{
  ℕ, zero, suc, ◌≤◌, ◌≡◌, refl, Bool, true, false, Option, none, some, List, [], ◌∷◌, ◌++◌, length,
  arith, ◌==◌, if◌then◌else◌, Option-cases, append-nil, ◌∙◌, ap, sym, ◌≢◌, inl, inr, ◌/◌, ◌%◌, ◌^◌,
}
use polo_db.Prelude.Bytes.{Bytes, read_exact, of_be}
use polo_db.Errors.{
  Outcome, ok, err, panic, ◌>>=◌, map_ok, map_ok-append, unknown_bson_element_type,
}
use polo_db.Bson.{Bson, timestamp, object_id, date_time, symbol, decimal128, undefined}
use polo_db.Bson.ElementType
use polo_db.Bson.Valid.{is_utf8}
use polo_db.Prelude.Int.{of_word}
use polo_db.Keys.{read_until, pop_last, fixed, text, read_value, split_loop, split_stacked_keys}

read_exact_rest :
    (n : ℕ) (bs xs rest : Bytes) → read_exact n bs ≡ some (xs, rest) → length rest ≤ length bs
unfolding read_exact
read_exact_rest zero bs xs rest h = ground arith
read_exact_rest (suc n) [] xs rest h = cc
read_exact_rest (suc n) (b ∷ bs) xs rest h = shorter (read_exact n bs) (read_exact_rest n bs) h
  where
    shorter :
        (o : Option (Bytes × Bytes))
        → ((ys rest : Bytes) → o ≡ some (ys, rest) → length rest ≤ length bs)
        → Option.map {B = Bytes × Bytes} (λ r. (b ∷ r.0, r.1)) o ≡ some (xs, rest)
        → length rest ≤ suc (length bs)
    shorter none ih e = cc
    shorter (some (ys, zs)) ih e = ground (arith, ih ys zs refl)

read_until_rest : (bs : Bytes) → length (read_until bs).1 ≤ length bs
unfolding read_until
read_until_rest [] = omega arith
read_until_rest (b ∷ bs) = ground (arith, read_until_rest bs)

-- A reader that has been read from is no longer than before.
abbrev Shrinks : Outcome (Bson × Bytes) → Bytes → Type 0
Shrinks (ok (value, rest)) reader = length rest ≤ length reader
Shrinks (err e) reader = Unit
Shrinks panic reader = Unit

fixed-Shrinks :
    (n : ℕ) (make : Bytes → Bson) (reader : Bytes) → Shrinks (fixed n make reader) reader
unfolding fixed
fixed-Shrinks n make reader = elim (Option-cases (read_exact n reader)) [
  | inl e ↦ rw (e, fixed) tt
  | inr ((xs, rest), e) ↦ rw (e, fixed) (read_exact_rest n reader xs rest e)
]

if-Shrinks :
    (b : Bool) (x y : Outcome (Bson × Bytes)) (reader : Bytes)
    → Shrinks x reader
    → Shrinks y reader
    → Shrinks (if b then x else y) reader
if-Shrinks true x y reader hx hy = hx
if-Shrinks false x y reader hx hy = hy

text-Shrinks : (make : Bytes → Bson) (reader : Bytes) → Shrinks (text make reader) reader
unfolding text
text-Shrinks make reader =
    if-Shrinks (is_utf8 (pop_last (read_until reader).0)) _ _ reader (read_until_rest reader) tt

-- The later tests of `read_value`.
read_value_rest :
    (ch : ℕ) (reader : Bytes)
    → Shrinks
        (if ch == ElementType.timestamp
          then fixed 8 (λ bytes. timestamp (of_be 0 bytes / 2 ^ 32) (of_be 0 bytes % 2 ^ 32)) reader
          else if ch == ElementType.object_id
          then fixed 12 object_id reader
          else if ch == ElementType.date_time
          then fixed 8 (λ bytes. date_time (of_word 63 (of_be 0 bytes))) reader
          else if ch == ElementType.symbol
          then text symbol reader
          else if ch == ElementType.decimal128
          then fixed 16 decimal128 reader
          else if ch == ElementType.undefined
          then ok (undefined, reader)
          else err (unknown_bson_element_type ch))
        reader
read_value_rest ch reader =
    if-Shrinks (ch == ElementType.timestamp) _ _ reader (fixed-Shrinks 8 _ reader) (
      if-Shrinks (ch == ElementType.object_id) _ _ reader (fixed-Shrinks 12 _ reader) (
        if-Shrinks (ch == ElementType.date_time) _ _ reader (fixed-Shrinks 8 _ reader) (
          if-Shrinks (ch == ElementType.symbol) _ _ reader (text-Shrinks _ reader) (
            if-Shrinks (ch == ElementType.decimal128) _ _ reader (fixed-Shrinks 16 _ reader)
              (if-Shrinks (ch == ElementType.undefined) _ _ reader (omega arith) tt)))))

read_value-Shrinks : (ch : ℕ) (reader : Bytes) → Shrinks (read_value ch reader) reader
unfolding read_value
read_value-Shrinks ch reader =
    if-Shrinks (ch == ElementType.double) _ _ reader (fixed-Shrinks 8 _ reader) (
      if-Shrinks (ch == ElementType.string) _ _ reader (text-Shrinks _ reader) (
        if-Shrinks (ch == ElementType.boolean) _ _ reader (fixed-Shrinks 1 _ reader) (
          if-Shrinks (ch == ElementType.null) _ _ reader (omega arith) (
            if-Shrinks (ch == ElementType.int32) _ _ reader (fixed-Shrinks 4 _ reader) (
              if-Shrinks (ch == ElementType.int64) _ _ reader (fixed-Shrinks 8 _ reader)
                (read_value_rest ch reader))))))

bind-Shrinks :
    (r : Outcome (Bson × Bytes)) (reader : Bytes) (f g : Bson × Bytes → Outcome (List Bson))
    → Shrinks r reader
    → ((v : Bson) (rest : Bytes) → length rest ≤ length reader → f (v, rest) ≡ g (v, rest))
    → (r >>= f) ≡ (r >>= g)
bind-Shrinks (ok (v, rest)) reader f g h same = same v rest h
bind-Shrinks (err e) reader f g h same = refl
bind-Shrinks panic reader f g h same = refl

-- The fuel does not matter as long as it covers the bytes.
split_loop_fuel :
    (m n : ℕ) (result : List Bson) (reader : Bytes)
    → length reader ≤ m
    → length reader ≤ n
    → split_loop m result reader ≡ split_loop n result reader
unfolding split_loop
split_loop_fuel m n result [] hm hn = refl
split_loop_fuel zero n result (ch ∷ reader) hm hn = elim hm [ ]
split_loop_fuel (suc m) zero result (ch ∷ reader) hm hn = elim hn [ ]
split_loop_fuel (suc m) (suc n) result (ch ∷ reader) hm hn =
    bind-Shrinks (read_value ch reader) reader _ _ (read_value-Shrinks ch reader)
      λ v rest le. split_loop_fuel m n (result ++ v ∷ []) rest (omega arith) (omega arith)

-- The accumulator is written in front.
split_loop-result :
    (n : ℕ) (result : List Bson) (reader : Bytes)
    → split_loop n result reader ≡ map_ok (λ vs. result ++ vs) (split_loop n [] reader)
unfolding split_loop
split_loop-result n result [] = rw append-nil
split_loop-result zero result (ch ∷ reader) = refl
split_loop-result (suc n) result (ch ∷ reader) =
    accumulate (read_value ch reader) result (λ more rest. split_loop-result n more rest)
  where
    accumulate :
        (r : Outcome (Bson × Bytes)) (result : List Bson)
        → ((more : List Bson) (rest : Bytes)
            → split_loop n more rest ≡ map_ok (λ vs. more ++ vs) (split_loop n [] rest))
        → (do (v, rest) ← r; split_loop n (result ++ v ∷ []) rest)
          ≡ map_ok (λ vs. result ++ vs) (do (v, rest) ← r; split_loop n (v ∷ []) rest)
    accumulate (ok (v, rest)) result ih =
        ih (result ++ v ∷ []) rest
        ∙ map_ok-append result (v ∷ []) (split_loop n [] rest)
        ∙ ap (map_ok (λ vs. result ++ vs)) (sym (ih (v ∷ []) rest))
    accumulate (err e) result ih = refl
    accumulate panic result ih = refl

-- The loop without fuel: on an empty buffer it returns no key; otherwise it reads a value behind the
-- element type and goes on with what is left.
split_stacked_keys_step :
    (split_stacked_keys [] ≡ ok [])
    × ((ch : ℕ) (reader : Bytes)
        → split_stacked_keys (ch ∷ reader)
          ≡ (do (v, rest) ← read_value ch reader; vs ← split_stacked_keys rest; ok (v ∷ vs)))
unfolding split_stacked_keys
split_stacked_keys_step = (
  refl,
  λ ch reader.
      bind-Shrinks (read_value ch reader) reader _ _ (read_value-Shrinks ch reader) λ v rest le.
        split_loop_fuel (length reader) (length rest) (v ∷ []) rest le (omega arith)
        ∙ split_loop-result (length rest) (v ∷ []) rest,
)

fixed-ne-panic : (n : ℕ) (make : Bytes → Bson) (reader : Bytes) → fixed n make reader ≢ panic
unfolding fixed
fixed-ne-panic n make reader = ground arith

read_value-ne-panic : (ch : ℕ) (reader : Bytes) → read_value ch reader ≢ panic
unfolding read_value text fixed
read_value-ne-panic ch reader = ground arith

bind-ne-panic :
    (r : Outcome (Bson × Bytes)) (reader : Bytes) (f : Bson × Bytes → Outcome (List Bson))
    → Shrinks r reader
    → r ≢ panic
    → ((v : Bson) (rest : Bytes) → length rest ≤ length reader → f (v, rest) ≢ panic)
    → (r >>= f) ≢ panic
bind-ne-panic (ok (v, rest)) reader f h hr hf = hf v rest h
bind-ne-panic (err e) reader f h hr hf = cc
bind-ne-panic panic reader f h hr hf = λ e. hr refl

split_loop-ne-panic :
    (n : ℕ) (result : List Bson) (reader : Bytes)
    → length reader ≤ n
    → split_loop n result reader ≢ panic
unfolding split_loop
split_loop-ne-panic n result [] h = cc
split_loop-ne-panic zero result (ch ∷ reader) h = elim h [ ]
split_loop-ne-panic (suc n) result (ch ∷ reader) h =
    bind-ne-panic (read_value ch reader) reader _ (read_value-Shrinks ch reader)
      (read_value-ne-panic ch reader)
      λ v rest le. split_loop-ne-panic n (result ++ v ∷ []) rest (omega arith)

-- On every buffer the fuel suffices and no `unwrap` fails: the result is keys or an error.
pub split_stacked_keys-ne-panic : (buffer : Bytes) → split_stacked_keys buffer ≢ panic
unfolding split_stacked_keys
split_stacked_keys-ne-panic buffer = split_loop-ne-panic (length buffer) [] buffer (omega arith)
