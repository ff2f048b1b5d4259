-- ===== src/Server/Cursors.antt =====
-- The table of the open cursors in src/polodb/app_context.rs.
use polo_db.Prelude.{
  ℕ, ◌≤◌, ◌≢◌, Option-cases, ◌+◌, ◌≡◌, refl, sym, ap, ◌∙◌, arith, true, false, Bool-cases, none,
  some, List, [], ◌∷◌, inl, inr, length, if◌then◌else◌,
}
use polo_db.Prelude.Int.{ℤ, pos, negsuc}
use polo_db.Server.AppContext.{AppContext, eq_ℤ, lookup, insert, save_cursor, get_cursor}

eq_ℤ-eq : (a b : ℤ) → eq_ℤ a b ≡ true → a ≡ b
unfolding eq_ℤ
eq_ℤ-eq (pos a) (pos b) h = ap pos (ground (arith, h))
eq_ℤ-eq (pos a) (negsuc b) h = absurd cc
eq_ℤ-eq (negsuc a) (pos b) h = absurd cc
eq_ℤ-eq (negsuc a) (negsuc b) h = ap negsuc (ground (arith, h))

eq_ℤ-refl : (n : ℕ) → eq_ℤ (pos n) (pos n) ≡ true
unfolding eq_ℤ
eq_ℤ-refl n = ground arith

eq_ℤ-pos : (m n : ℕ) → eq_ℤ (pos m) (pos n) ≡ true → m ≡ n
unfolding eq_ℤ
eq_ℤ-pos m n h = ground (arith, h)

-- Two keys that a third one equals are equal.
eq_ℤ-both : (id key k : ℤ) → eq_ℤ id key ≡ true → eq_ℤ id k ≡ true → eq_ℤ key k ≡ true
eq_ℤ-both id key k g g' = ap (λ x. eq_ℤ x k) (sym (eq_ℤ-eq id key g)) ∙ g'

lookup-insert :
    {C : Type 0} (id key : ℤ) (cursor : C) (entries : List (ℤ × C))
    → lookup eq_ℤ id (insert eq_ℤ key cursor entries)
      ≡ (if eq_ℤ id key then some cursor else lookup eq_ℤ id entries)
unfolding lookup insert
lookup-insert id key cursor [] = refl
lookup-insert id key cursor ((k, v) ∷ entries) =
    let rest = lookup-insert id key cursor entries in
    elim (Bool-cases (eq_ℤ key k)) [
      | inl h ↦
          let e = ap (eq_ℤ id) (sym (eq_ℤ-eq key k h)) in
          elim (Bool-cases (eq_ℤ id key)) [ inl g ↦ rw (h, e, g) | inr g ↦ rw (h, e, g) ]
      | inr h ↦ elim (Bool-cases (eq_ℤ id key)) [
        | inl g ↦ elim (Bool-cases (eq_ℤ id k)) [
          | inl g' ↦ let p = eq_ℤ-both id key k g g' in absurd cc
          | inr g' ↦ rw (h, g', rest, g)
        ]
        | inr g ↦ rw (h, rest, g)
      ]
    ]

-- The identifiers of the table are those from 1 to its length: what a table is to which cursors are only added.
abbrev pub IsDense : {C H T : Type 0} → AppContext C H T → Type 0
IsDense ctx = (n : ℕ) → get_cursor ctx (pos n) ≢ none → (1 ≤ n) × (n ≤ length ctx.cursors)

length-insert :
    {C : Type 0} (key : ℤ) (cursor : C) (entries : List (ℤ × C))
    → lookup eq_ℤ key entries ≡ none
    → length (insert eq_ℤ key cursor entries) ≡ length entries + 1
unfolding lookup insert
length-insert key cursor [] h = refl
length-insert key cursor ((k, v) ∷ entries) h = elim (Bool-cases (eq_ℤ key k)) [
  | inl e ↦ let wrong = rw e at h in absurd cc
  | inr e ↦ let rest = length-insert key cursor entries (rw e at h) in rw e (omega (arith, rest))
]

-- While cursors are only added, the identifier that a cursor is saved under is that of no open cursor; it finds this
-- cursor afterwards, every other identifier finds what it found before, and the table stays such a table.
pub save_cursor-fresh :
    {C H T : Type 0} (ctx : AppContext C H T) (cursor : C)
    → IsDense ctx
    → let (saved, id) = save_cursor ctx cursor in
      (get_cursor ctx id ≡ none)
      × (get_cursor saved id ≡ some cursor)
      × ((other : ℤ) → eq_ℤ other id ≡ false → get_cursor saved other ≡ get_cursor ctx other)
      × IsDense saved
unfolding save_cursor get_cursor
save_cursor-fresh ctx cursor dense =
    let n = length ctx.cursors + 1 in
    let fresh : lookup eq_ℤ (pos n) ctx.cursors ≡ none =
      elim (Option-cases (lookup eq_ℤ (pos n) ctx.cursors)) [
        | inl e ↦ e
        | inr (c, e) ↦
            let (low, high) = dense n (λ h. let wrong = sym e ∙ h in absurd cc) in
            absurd (omega (arith, high))
      ] in
    let longer = length-insert (pos n) cursor ctx.cursors fresh in
    (
      fresh,
      lookup-insert (pos n) (pos n) cursor ctx.cursors ∙ rw (eq_ℤ-refl n),
      λ other e. lookup-insert other (pos n) cursor ctx.cursors ∙ rw e,
      λ m there. elim (Bool-cases (eq_ℤ (pos m) (pos n))) [
        | inl e ↦ let same = eq_ℤ-pos m n e in (omega (arith, same), omega (arith, same, longer))
        | inr e ↦
            let old = lookup-insert (pos m) (pos n) cursor ctx.cursors ∙ rw e in
            let (low, high) = dense m (λ h. there (old ∙ h)) in (low, omega (arith, high, longer))
      ],
    )
