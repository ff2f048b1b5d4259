-- ===== src/Keys/ZeroBytes.antt =====
-- Texts with a zero byte: the terminator does not tell them from two texts.
use polo_db.Prelude.{◌≡◌, [], ◌∷◌, ◌++◌, append_assoc, append-nil}
use polo_db.Prelude.Bytes.{Bytes}
use polo_db.Bson.{string}
use polo_db.Keys.{write_key, stacked_key}
use polo_db.Keys.RoundTrip.{stacked_key-encode}

-- One text that has a zero byte followed by the tag of a string has the same key bytes as two texts,
-- so that two different lists of keys share one key.
pub stacked_key_collision :
    (s t : Bytes)
    → stacked_key (string (s ++ 0 ∷ 2 ∷ t) ∷ []) ≡ stacked_key (string s ∷ string t ∷ [])
unfolding write_key
stacked_key_collision s t =
    rw (stacked_key-encode, stacked_key-encode) (simp (append_assoc, append-nil))
