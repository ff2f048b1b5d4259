-- ===== src/Scan/Laws.antt =====
-- What `reset` and the queries for a key find.

use polo_db.Prelude.{
  ◌≡◌, ◌≢◌, sym, ap, ◌∙◌, arith, Bool, true, none, some, [], ◌∷◌, ◌++◌, ◌↔◌, inl, inr, Option-cases,
}
use polo_db.Prelude.Bytes.{Bytes, starts_with}
use polo_db.Errors.{Outcome, ok}
use polo_db.Bson.{Bson}
use polo_db.Keys.{stacked_key}
use polo_db.Store.{Store}
use polo_db.Store.Search.{begins, begins_iff, seek_stored, exact, exact_iff}
use polo_db.Scan.{
  Cursor, moved, has_next, reset, reset_by_custom_key, reset_by_pkey, reset_by_index_value,
  make_index_key_with_query_key,
}

module _ (S : Store) where
  open S use {Txn, lookup, seek, after, keys}

  has_next-begins : (t : Txn) (c : Cursor) → has_next (reset S t c) ≡ begins S t c.prefix_bytes
  unfolding has_next reset
  has_next-begins t c = elim (Option-cases (seek t c.prefix_bytes)) [
    | inl e ↦ ground arith
    | inr (at, e) ↦ ground arith
  ]

  -- A cursor has a next entry after `reset` exactly if a stored key has its prefix.
  has_next-reset :
      (t : Txn) (c : Cursor)
      → (has_next (reset S t c) ≡ true)
        ↔ ((i : Bytes) × (lookup t i ≢ none) × (starts_with i c.prefix_bytes ≡ true))
  has_next-reset t c =
      let (to, back) = begins_iff S t c.prefix_bytes in
      (λ h. to (sym (has_next-begins t c) ∙ h), λ h. has_next-begins t c ∙ back h)

  -- A query for a value of the index finds an entry exactly if a stored key begins with the index's
  -- prefix and the key of the value.
  pub reset_by_index_value_iff :
      (t : Txn) (c d : Cursor) (value : Bson) (key : Bytes) (found : Bool)
      → make_index_key_with_query_key c.prefix_bytes value ≡ ok key
      → reset_by_index_value S t value c ≡ ok (d, found)
      → (found ≡ true) ↔ ((i : Bytes) × (lookup t i ≢ none) × (starts_with i key ≡ true))
  unfolding reset_by_index_value
  reset_by_index_value_iff t c d value key found made ran =
      let same : begins S t key ≡ found =
        let done : ◌≡◌ {A = Outcome (Cursor × Bool)} (ok (moved c (seek t key), begins S t key))
            (ok (d, found)) =
          rw made at ran in
        let pair : ◌≡◌ {A = Cursor × Bool} (moved c (seek t key), begins S t key) (d, found) = cc in
        ap (λ r. r.1) pair in
      let both = begins_iff S t key in (λ h. both.0 (same ∙ h), λ h. sym same ∙ both.1 h)

  -- A query for a primary key finds it exactly if the document's key is stored, and stands on it then.
  pub reset_by_pkey_iff :
      (t : Txn) (c d : Cursor) (pkey : Bson) (bytes : Bytes) (found : Bool)
      → stacked_key (pkey ∷ []) ≡ ok bytes
      → reset_by_pkey S t pkey c ≡ ok (d, found)
      → ((found ≡ true) ↔ (lookup t (c.prefix_bytes ++ bytes) ≢ none))
        × ((found ≡ true) ↔ (d.position ≡ some (c.prefix_bytes ++ bytes)))
  unfolding reset_by_pkey reset_by_custom_key
  reset_by_pkey_iff t c d pkey bytes found made ran =
      let key = c.prefix_bytes ++ bytes in
      let done : ◌≡◌ {A = Outcome (Cursor × Bool)} (ok (moved c (seek t key), exact S t key))
          (ok (d, found)) =
        rw made at ran in
      let pair : ◌≡◌ {A = Cursor × Bool} (moved c (seek t key), exact S t key) (d, found) = cc in
      let same : exact S t key ≡ found = ap (λ r. r.1) pair in
      let place : seek t key ≡ d.position = ap (λ r. r.0.position) pair in
      let (to, back) = exact_iff S t key in
      let (stored, seeks) = seek_stored S t key in
      (
        (λ h. stored (to (same ∙ h)), λ h. sym same ∙ back (seeks h)),
        (λ h. sym place ∙ to (same ∙ h), λ h. sym same ∙ back (place ∙ h)),
      )
