-- ===== src/Bson/Platform.antt =====
-- What the code takes from outside the repository: the operations of `bson::Document`, the
-- arithmetic of f64, and whether the build checks integer overflow.
use polo_db.Prelude.{ℕ, ◌≡◌, Bool, Option, none, some, if◌then◌else◌}
use polo_db.Prelude.Int.{ℤ}
use polo_db.Prelude.Bytes.{Bytes, str_eq}
use polo_db.Bson.{Bson, Document, end}

pub record Platform : Type 0 where
  -- bson::Document is a map from keys to values.
  pub get : Document → Bytes → Option Bson
  pub insert : Document → Bytes → Bson → Document
  pub remove : Document → Bytes → Document
  pub get-empty : (j : Bytes) → get end j ≡ none
  pub get-insert :
      (d : Document) (k : Bytes) (v : Bson) (j : Bytes)
      → get (insert d k v) j ≡ (if str_eq k j then some v else get d j)
  pub get-remove :
      (d : Document) (k j : Bytes) → get (remove d k) j ≡ (if str_eq k j then none else get d j)
  -- `+` and `*` of f64 and `as f64`, on bit patterns.
  pub f64_add : ℕ → ℕ → ℕ
  pub f64_mul : ℕ → ℕ → ℕ
  pub f64_of_int : ℤ → ℕ
  -- With overflow checks an overflowing `+` or `*` panics, without them it wraps around.
  pub overflow_checks : Bool
