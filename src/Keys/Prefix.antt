-- ===== src/Keys/Prefix.antt =====
-- Stacked keys compared as bytes: a scan by a byte prefix, as `has_next` and `reset_by_index_value` of
-- src/polodb_core/cursor.rs make it, is a scan by leading key values.
use mathlib.Core.Path.{ap₂}
use polo_db.Prelude.{◌≡◌, refl, sym, true, ap, List, [], ◌∷◌, ◌++◌, All, ◌∙◌, append_assoc}
use polo_db.Prelude.Bytes.{Bytes, starts_with, starts_with_elim}
use polo_db.Errors.{Outcome, ok, ◌>>=◌, >>=-eq-ok}
use polo_db.Bson.{Bson}
use polo_db.Keys.{write_key, read_value, stacked_key, IsKey}
use polo_db.Keys.RoundTrip.{write_key-read_value, encode, stacked_key-encode}

-- No key is a proper prefix of another, and two encodings that agree are of one key.
write_key_cancel :
    (j k : Bson) (a b r s : Bytes)
    → IsKey j
    → IsKey k
    → write_key j ≡ ok a
    → write_key k ≡ ok b
    → a ++ r ≡ b ++ s
    → (j ≡ k) × (r ≡ s)
write_key_cancel j k a b r s hj hk ea eb e =
    let (c, xs, wj, readj) = write_key-read_value j hj in
    let (d, ys, wk, readk) = write_key-read_value k hk in
    let p : a ≡ c ∷ xs = cc in
    let q : b ≡ d ∷ ys = cc in
    let same : c ∷ (xs ++ r) ≡ d ∷ (ys ++ s) = sym (ap (λ t. t ++ r) p) ∙ e ∙ ap (λ t. t ++ s) q in
    let head : c ≡ d = cc in
    let tails : xs ++ r ≡ ys ++ s = cc in
    let both : ◌≡◌ {A = Outcome (Bson × Bytes)} (ok (j, r)) (ok (k, s)) =
      sym (readj r) ∙ ap₂ read_value head tails ∙ readk s in
    (cc, cc)

encode-cons :
    (k : Bson) (ks : List Bson) (a : Bytes)
    → encode (k ∷ ks) ≡ ok a
    → (x y : Bytes) × (write_key k ≡ ok x) × (encode ks ≡ ok y) × (x ++ y ≡ a)
encode-cons k ks a e =
    let (x, wrote, rest) = >>=-eq-ok (write_key k) (λ x. do y ← encode ks; ok (x ++ y)) e in
    let (y, more, eq) = >>=-eq-ok (encode ks) (λ y. ok (x ++ y)) rest in (x, y, wrote, more, cc)

encode_cancel :
    (js ks : List Bson) (a b : Bytes) (rest : Bytes)
    → All IsKey js
    → All IsKey ks
    → encode js ≡ ok a
    → encode ks ≡ ok b
    → b ≡ a ++ rest
    → (more : List Bson) × (ks ≡ js ++ more)
encode_cancel [] ks a b rest hj hk ea eb e = (ks, refl)
encode_cancel (j ∷ js) [] a b rest (hj, hjs) hk ea eb e =
    let (x, y, wrote, more, ex) = encode-cons j js a ea in
    let (c, xs, wj, readj) = write_key-read_value j hj in
    let p : x ≡ c ∷ xs = cc in
    let empty : b ≡ [] = cc in
    let q : c ∷ ((xs ++ y) ++ rest) ≡ [] =
      ap (λ t. (t ++ y) ++ rest) (sym p) ∙ ap (λ t. t ++ rest) ex ∙ sym e ∙ empty in
    cc
encode_cancel (j ∷ js) (k ∷ ks) a b rest (hj, hjs) (hk, hks) ea eb e =
    let (x, y, wrote, more, ex) = encode-cons j js a ea in
    let (x', y', wrote', more', ex') = encode-cons k ks b eb in
    let e' : x ++ (y ++ rest) ≡ x' ++ y' =
      sym (append_assoc x y rest) ∙ ap (λ t. t ++ rest) ex ∙ sym e ∙ sym ex' in
    let (same, tails) = write_key_cancel j k x x' (y ++ rest) y' hj hk wrote wrote' e' in
    let (zs, ih) = encode_cancel js ks y y' rest hjs hks more more' (sym tails) in (zs, cc)

-- Of keys with values of their types and no zero byte in a text: if the bytes of some keys begin with
-- the bytes of others, then the keys begin with the others.
pub starts_with-stacked_key :
    (js ks : List Bson) (a b : Bytes)
    → All IsKey js
    → All IsKey ks
    → stacked_key js ≡ ok a
    → stacked_key ks ≡ ok b
    → starts_with b a ≡ true
    → (more : List Bson) × (ks ≡ js ++ more)
starts_with-stacked_key js ks a b hj hk ea eb h =
    let (rest, e) = starts_with_elim b a h in
    encode_cancel js ks a b rest hj hk (sym (stacked_key-encode js) ∙ ea)
      (sym (stacked_key-encode ks) ∙ eb) e
