-- ===== src/Keys/Examples.antt =====
-- Tests of the key encoding, and the theorems at concrete keys.
use polo_db.Prelude.{◌≡◌, ◌≢◌, refl, List, [], ◌∷◌, ◌++◌, arith}
use polo_db.Prelude.Int.{pos, negsuc, to_word}
use polo_db.Prelude.Bytes.{str, starts_with, be_bytes, read_exact}
use polo_db.Errors.{ok, err, panic, ◌>>=◌, not_a_valid_key_type, io_err}
use polo_db.Bson.{Bson, string, int32, int64, null, end, document, timestamp}
use polo_db.Bson.Valid.{is_utf8}
use polo_db.Keys.{stacked_key, split_stacked_keys}
use polo_db.Keys.RoundTrip.{split-stacked_key}
use polo_db.Keys.Prefix.{starts_with-stacked_key}
use polo_db.Keys.Total.{split_stacked_keys-ne-panic}
use polo_db.Keys.ZeroBytes.{stacked_key_collision}

abbrev keys : List Bson
keys = string (str "users") ∷ int32 (negsuc 41) ∷ int64 (pos 7) ∷ timestamp 3 9 ∷ null ∷ []

index_key_bytes :
    stacked_key (string (str "$I") ∷ int32 (negsuc 0) ∷ [])
    ≡ ok (2 ∷ 36 ∷ 73 ∷ 0 ∷ 16 ∷ 255 ∷ 255 ∷ 255 ∷ 255 ∷ [])
unfolding stacked_key to_word be_bytes
index_key_bytes = refl

documents_are_no_keys : stacked_key (null ∷ document end ∷ []) ≡ err not_a_valid_key_type
unfolding stacked_key
documents_are_no_keys = refl

short_reads_fail : split_stacked_keys (10 ∷ 16 ∷ 1 ∷ []) ≡ err io_err
unfolding split_stacked_keys read_exact
short_reads_fail = refl

split-stacked_key_example : (stacked_key keys >>= split_stacked_keys) ≡ ok keys
unfolding is_utf8
split-stacked_key_example =
    split-stacked_key keys
      ((omega arith, refl), (omega arith, (omega arith, (omega arith, (tt, tt)))))

starts_with-stacked_key_example :
    (more : List Bson) × (string (str "a") ∷ null ∷ [] ≡ (string (str "a") ∷ []) ++ more)
unfolding stacked_key starts_with is_utf8
starts_with-stacked_key_example =
    starts_with-stacked_key (string (str "a") ∷ []) (string (str "a") ∷ null ∷ []) (2 ∷ 97 ∷ 0 ∷ [])
      (2 ∷ 97 ∷ 0 ∷ 10 ∷ []) ((omega arith, refl), tt) ((omega arith, refl), (tt, tt)) refl refl
      refl

split_stacked_keys-ne-panic_example : split_stacked_keys (2 ∷ 97 ∷ []) ≢ panic
split_stacked_keys-ne-panic_example = split_stacked_keys-ne-panic (2 ∷ 97 ∷ [])

stacked_key_collision_example :
    stacked_key (string (97 ∷ 0 ∷ 2 ∷ 98 ∷ []) ∷ [])
    ≡ stacked_key (string (str "a") ∷ string (str "b") ∷ [])
stacked_key_collision_example = stacked_key_collision (str "a") (str "b")
