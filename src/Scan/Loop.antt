-- ===== src/Scan/Loop.antt =====
-- A loop over the cursor: `reset`, then while `has_next` the data and `next`, as
-- src/polodb_core/index/index_builder.rs and the bytecode of a full scan do it.

use polo_db.Prelude.{
  ℕ, zero, suc, ◌≤◌, ◌≡◌, ◌≢◌, refl, sym, ap, ◌∙◌, arith, true, false, Option, none, some, List, [],
  ◌∷◌, In, length, if◌then◌else◌, Ordering, ◌↔◌, inl, inr, Bool-cases, Option-cases,
}
use polo_db.Prelude.Bytes.{Bytes, cmp_bytes, starts_with}
use polo_db.Prelude.Lex.{cmp_bytes_lt-gt, cmp_bytes_prefix}
use polo_db.Errors.{Outcome, ok, panic, ◌>>=◌, unwrap}
use polo_db.Store.{Store}
use polo_db.Scan.{Cursor, moved, has_next, reset, next, copy_data}
use polo_db.Scan.Places.{
  count_from, count_from_lt, count_from-length, count_from_pos, Ahead, Ahead-last, Ahead-next,
  outside-Ahead, last_here, more_here, above_later,
}

module _ (S : Store) where
  open S use {Txn, lookup, seek, after, keys}

  stopped : (c : Cursor) → has_next (moved c none) ≡ false
  unfolding has_next
  stopped c = refl

  -- The entry at the cursor, in front of the others.
  abbrev visit : Txn → Cursor → Outcome (List (Bytes × Bytes)) → Outcome (List (Bytes × Bytes))
  visit t c rest = do
    at ← unwrap c.current_key
    value ← copy_data S t c
    entries ← rest
    ok ((at, value) ∷ entries)

  -- The loop.
  unfoldable pub scan : ℕ → Txn → Cursor → Outcome (List (Bytes × Bytes))
  scan zero t c = if has_next c then panic else ok []
  scan (suc fuel) t c =
      let rest = next S t c >>= (λ d. scan fuel t d) in if has_next c then visit t c rest else ok []

  abbrev standing : Bytes → Option Bytes → Cursor
  standing p at = record { prefix_bytes = p; position = at; current_key = at }

  pub scan_end : (fuel : ℕ) (t : Txn) (c : Cursor) → has_next c ≡ false → scan fuel t c ≡ ok []
  unfolding scan
  scan_end zero t c h = rw h
  scan_end (suc fuel) t c h = rw h

  scan_step :
      (fuel : ℕ) (t : Txn) (p at w : Bytes) (o : Option Bytes) (rest : List (Bytes × Bytes))
      → starts_with at p ≡ true
      → lookup t at ≡ some w
      → after t at ≡ o
      → scan fuel t (standing p o) ≡ ok rest
      → scan (suc fuel) t (standing p (some at)) ≡ ok ((at, w) ∷ rest)
  unfolding scan has_next next copy_data
  scan_step fuel t p at w o rest inside stored e h = rw (inside, stored, e, h)

  nowhere_lem : (p : Bytes) → has_next (standing p none) ≡ false
  unfolding has_next
  nowhere_lem p = refl

  outside_lem : (p at : Bytes) → starts_with at p ≡ false → has_next (standing p (some at)) ≡ false
  unfolding has_next
  outside_lem p at h = h

  scan_from :
      (fuel : ℕ) (t : Txn) (p at i v : Bytes)
      → lookup t at ≢ none
      → cmp_bytes at p ≢ Ordering.lt
      → count_from at (keys t) ≤ fuel
      → (entries : List (Bytes × Bytes)) × (scan fuel t (standing p (some at)) ≡ ok entries)
        × (In (i, v) entries ↔ Ahead S t p at i v)
  scan_from zero t p at i v stored above enough =
      absurd (omega (arith, count_from_pos at (keys t) (S.lookup-keys t at stored)))
  scan_from (suc fuel) t p at i v stored above enough = elim (Bool-cases (starts_with at p)) [
    | inr outside ↦ (
      [],
      scan_end (suc fuel) t _ (outside_lem p at outside),
      outside-Ahead S t p at i v above outside,
    )
    | inl inside ↦ elim (Option-cases (lookup t at)) [
      | inl missing ↦ absurd (stored missing)
      | inr (w, found) ↦ elim (Option-cases (after t at)) [
        | inl e ↦ (
          (at, w) ∷ [],
          scan_step fuel t p at w none [] inside found e (scan_end fuel t _ (nowhere_lem p)),
          (last_here S t p at w i v inside found, λ a. inl (Ahead-last S t p at w i v found e a)),
        )
        | inr (j, e) ↦
            let later = S.after-some t at j e in
            let (rest, ran, ih) =
              scan_from fuel t p j i v later.0 (above_later S p at j above later.1) (
                omega (
                  arith,
                  count_from_lt at j (keys t) later.1 (S.lookup-keys t at stored),
                  enough,
                )) in
            (
              (at, w) ∷ rest,
              scan_step fuel t p at w (some j) rest inside found e ran,
              (
                more_here S t p at w i v j rest inside found e ih.0,
                λ a. elim (Ahead-next S t p at w i v j found e a) [
                  | inl same ↦ inl same
                  | inr later ↦ inr (ih.1 later)
                ],
              ),
            )
      ]
    ]
  ]

  seek_lem :
      (t : Txn) (p i v : Bytes)
      → lookup t i ≡ some v
      → starts_with i p ≡ true
      → (j : Bytes) × (seek t p ≡ some j) × (cmp_bytes i j ≢ Ordering.lt)
  seek_lem t p i v found inside =
      let (j, e, le) = S.seek-least t p i (λ missing. cc) (cmp_bytes_prefix p i inside) in
      (j, e, λ less. le (cmp_bytes_lt-gt j i less))

  reset_at :
      (t : Txn) (c : Cursor) (o : Option Bytes)
      → seek t c.prefix_bytes ≡ o
      → reset S t c ≡ moved c o
  unfolding reset
  reset_at t c o e = rw e

  -- A loop from `reset` on ends: as many rounds as there are keys are enough. It visits an entry of the
  -- store exactly if its key has the prefix of the cursor.
  pub scan-reset :
      (t : Txn) (c : Cursor) (i v : Bytes)
      → (entries : List (Bytes × Bytes)) × (scan (length (keys t)) t (reset S t c) ≡ ok entries)
        × (In (i, v) entries ↔ ((lookup t i ≡ some v) × (starts_with i c.prefix_bytes ≡ true)))
  scan-reset t c i v = elim (Option-cases (seek t c.prefix_bytes)) [
    | inl e ↦ (
      [],
      ap (scan _ t) (reset_at t c none e) ∙ scan_end _ t (moved c none) (stopped c),
      (
        λ m. absurd m,
        λ (found, inside). let (j, e', _) = seek_lem t c.prefix_bytes i v found inside in absurd cc,
      ),
    )
    | inr (at, e) ↦
        let (stored, above) = S.seek-some t c.prefix_bytes at e in
        let (entries, ran, both) =
          scan_from (length (keys t)) t c.prefix_bytes at i v stored above
            (count_from-length at (keys t)) in
        (
          entries,
          ap (scan _ t) (reset_at t c (some at) e) ∙ ran,
          (
            λ m. let (found, inside, _) = both.0 m in (found, inside),
            λ (found, inside).
                let (j, e', le) = seek_lem t c.prefix_bytes i v found inside in
                both.1 (
                  found,
                  inside,
                  λ less. le (let same : at ≡ j = cc in ap (cmp_bytes i) (sym same) ∙ less),
                ),
          ),
        )
  ]
