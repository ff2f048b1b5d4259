-- ===== src/Store/Search.antt =====
-- What a `seek` says of the keys with a prefix, and of one key.
use polo_db.Prelude.{
  ◌≡◌, ◌≢◌, sym, ap, ◌∙◌, arith, Bool, true, false, none, some, Ordering, ◌↔◌, inl, inr,
  Option-cases,
}
use polo_db.Prelude.Bytes.{Bytes, str_eq, str_eq_iff, cmp_bytes, cmp_bytes_eq, starts_with}
use polo_db.Prelude.Lex.{cmp_bytes_prefix, starts_with_between, cmp_bytes_refl}
use polo_db.Store.{Store}

module _ (S : Store) where
  open S use {Txn, lookup, seek}

  -- The key that `seek` finds begins with the key sought.
  abbrev pub begins : Txn → Bytes → Bool
  begins t key = elim (seek t key) [ none ↦ false | some found ↦ starts_with found key ]

  -- It does exactly if a stored key does.
  pub begins_iff :
      (t : Txn) (key : Bytes)
      → (begins t key ≡ true) ↔ ((i : Bytes) × (lookup t i ≢ none) × (starts_with i key ≡ true))
  begins_iff t key = elim (Option-cases (seek t key)) [
    | inl e ↦ (
      λ h. absurd (ground arith),
      λ (i, stored, inside).
          let (j, e', le) = S.seek-least t key i stored (cmp_bytes_prefix key i inside) in
          absurd cc,
    )
    | inr (at, e) ↦ (
      λ h. (at, (S.seek-some t key at e).0, ground arith),
      λ (i, stored, inside).
          let (j, e', le) = S.seek-least t key i stored (cmp_bytes_prefix key i inside) in
          let same : at ≡ j = cc in
          let below : cmp_bytes at i ≢ Ordering.gt =
            λ g. le (ap (λ x. cmp_bytes x i) (sym same) ∙ g) in
          let has = starts_with_between key at i inside (S.seek-some t key at e).1 below in
          ground arith,
    )
  ]

  -- `seek` finds a stored key itself.
  pub seek_stored : (t : Txn) (key : Bytes) → (seek t key ≡ some key) ↔ (lookup t key ≢ none)
  seek_stored t key = (
    λ e. (S.seek-some t key key e).0,
    λ stored.
        let (j, e, le) =
          S.seek-least t key key stored (λ less. ground (arith, cmp_bytes_refl key)) in
        let (_, above) = S.seek-some t key j e in
        let same : j ≡ key = (cmp_bytes_eq j key).0 (ground arith) in e ∙ ap some same,
  )

  -- The test that `seek` found the key sought.
  abbrev pub exact : Txn → Bytes → Bool
  exact t key = elim (seek t key) [ none ↦ false | some found ↦ str_eq found key ]

  pub exact_iff : (t : Txn) (key : Bytes) → (exact t key ≡ true) ↔ (seek t key ≡ some key)
  exact_iff t key = elim (Option-cases (seek t key)) [
    | inl e ↦ (λ h. absurd (ground arith), λ h. absurd cc)
    | inr (at, e) ↦ (
      λ h. e ∙ ap some ((str_eq_iff at key).0 (ground arith)),
      λ h. let same : at ≡ key = cc in let yes = (str_eq_iff at key).1 same in ground arith,
    )
  ]
