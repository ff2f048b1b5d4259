-- ===== src/Scan/Places.antt =====
-- The keys that a loop over the cursor has still to visit: how many they are, and which.
use mathlib.Core.Path.{ap₂}
use polo_db.Prelude.{
  ◌⊎◌, ℕ, suc, ◌<◌, ◌≤◌, ◌≡◌, ◌≢◌, refl, sym, ap, ◌∙◌, arith, Bool, true, false, none, some, List,
  [], ◌∷◌, In, length, if◌then◌else◌, Ordering, ◌↔◌, inl, inr,
}
use polo_db.Prelude.Bytes.{Bytes, cmp_bytes, cmp_bytes_swap, cmp_bytes_eq, starts_with}
use polo_db.Prelude.Lex.{
  cmp_bytes_lt-gt, cmp_bytes_lt_trans, cmp_bytes_trans, cmp_bytes_gt-lt, starts_with_between,
}
use polo_db.Store.{Store}

-- Keys from a bound on, counted.
abbrev pub from : Bytes → Bytes → Bool
from k j = elim (cmp_bytes j k) [ Ordering.lt ↦ false | _ ↦ true ]

unfoldable pub count_from : Bytes → List Bytes → ℕ
count_from k [] = 0
count_from k (j ∷ js) = let n = count_from k js in if from k j then suc n else n

pub count_from_le :
    (k l : Bytes) (js : List Bytes)
    → cmp_bytes l k ≡ Ordering.gt
    → count_from l js ≤ count_from k js
unfolding count_from
count_from_le k l [] h = omega arith
count_from_le k l (j ∷ js) h = ground (
  arith,
  count_from_le k l js h,
  cmp_bytes_trans l j k,
  cmp_bytes_swap l j,
  cmp_bytes_swap j k,
  cmp_bytes_swap l k,
  cmp_bytes_eq j k,
)

pub count_from_lt :
    (k l : Bytes) (js : List Bytes)
    → cmp_bytes l k ≡ Ordering.gt
    → In k js
    → count_from l js < count_from k js
unfolding count_from
count_from_lt k l [] h m = absurd m
count_from_lt k l (j ∷ js) h (inl same) =
    ground (arith, count_from_le k l js h, cmp_bytes_gt-lt l k h, (cmp_bytes_eq k k).1 refl)
count_from_lt k l (j ∷ js) h (inr later) = ground (
  arith,
  count_from_lt k l js h later,
  cmp_bytes_trans l j k,
  cmp_bytes_swap l j,
  cmp_bytes_swap j k,
  cmp_bytes_swap l k,
  cmp_bytes_eq j k,
)

pub count_from-length : (k : Bytes) (js : List Bytes) → count_from k js ≤ length js
unfolding count_from
count_from-length k [] = omega arith
count_from-length k (j ∷ js) = ground (arith, count_from-length k js)

pub count_from_pos : (k : Bytes) (js : List Bytes) → In k js → 0 < count_from k js
unfolding count_from
count_from_pos k [] m = absurd m
count_from_pos k (j ∷ js) (inl same) = ground (arith, (cmp_bytes_eq j k).1 (sym same))
count_from_pos k (j ∷ js) (inr later) = ground (arith, count_from_pos k js later)

module _ (S : Store) where
  open S use {Txn, lookup, seek, after, keys}

  -- An entry that is still to be visited.
  abbrev pub Ahead : Txn → Bytes → Bytes → Bytes → Bytes → Type 0
  Ahead t p at i v =
      (lookup t i ≡ some v) × (starts_with i p ≡ true) × (cmp_bytes i at ≢ Ordering.lt)

  pub Ahead-here :
      (t : Txn) (p at w i v : Bytes)
      → starts_with at p ≡ true
      → lookup t at ≡ some w
      → ◌≡◌ {A = Bytes × Bytes} (i, v) (at, w)
      → Ahead t p at i v
  Ahead-here t p at w i v inside stored same =
      let here : i ≡ at = ap (λ e. e.0) same in
      let value : v ≡ w = ap (λ e. e.1) same in
      let equal : cmp_bytes i at ≡ Ordering.eq = (cmp_bytes_eq i at).1 here in (cc, cc, λ less. cc)

  pub here_or_behind :
      (t : Txn) (p at w i v : Bytes) (o : Ordering)
      → cmp_bytes i at ≡ o
      → lookup t at ≡ some w
      → Ahead t p at i v
      → (◌≡◌ {A = Bytes × Bytes} (i, v) (at, w)) ⊎ (cmp_bytes i at ≡ Ordering.gt)
  here_or_behind t p at w i v Ordering.lt e stored (found, inside, above) = absurd (above e)
  here_or_behind t p at w i v Ordering.gt e stored (found, inside, above) = inr e
  here_or_behind t p at w i v Ordering.eq e stored (found, inside, above) =
      let here : i ≡ at = (cmp_bytes_eq i at).0 e in
      let value : v ≡ w = cc in inl (ap₂ (λ a b. (a, b)) here value)

  -- An entry ahead is the one at the place, or it is ahead of the next place.
  pub Ahead-last :
      (t : Txn) (p at w i v : Bytes)
      → lookup t at ≡ some w
      → after t at ≡ none
      → Ahead t p at i v
      → ◌≡◌ {A = Bytes × Bytes} (i, v) (at, w)
  Ahead-last t p at w i v stored e (found, inside, above) =
      elim (here_or_behind t p at w i v _ refl stored (found, inside, above)) [
        | inl same ↦ same
        | inr behind ↦ let (j, e', _) = S.after-least t at i (λ missing. cc) behind in absurd cc
      ]

  pub Ahead-next :
      (t : Txn) (p at w i v j : Bytes)
      → lookup t at ≡ some w
      → after t at ≡ some j
      → Ahead t p at i v
      → (◌≡◌ {A = Bytes × Bytes} (i, v) (at, w)) ⊎ Ahead t p j i v
  Ahead-next t p at w i v j stored e (found, inside, above) =
      elim (here_or_behind t p at w i v _ refl stored (found, inside, above)) [
        | inl same ↦ inl same
        | inr behind ↦
            let (k, e', le) = S.after-least t at i (λ missing. cc) behind in
            let same : k ≡ j = cc in
            inr (found, inside, λ less. le (cmp_bytes_lt-gt k i (ap (cmp_bytes i) same ∙ less)))
      ]

  pub Ahead-back :
      (t : Txn) (p at i v j : Bytes) → after t at ≡ some j → Ahead t p j i v → Ahead t p at i v
  Ahead-back t p at i v j e (found, inside, above) = (
    found,
    inside,
    λ less. above (cmp_bytes_lt_trans i at j less (cmp_bytes_gt-lt j at (S.after-some t at j e).1)),
  )

  pub outside-Ahead :
      (t : Txn) (p at i v : Bytes)
      → cmp_bytes at p ≢ Ordering.lt
      → starts_with at p ≡ false
      → (In {A = Bytes × Bytes} (i, v) [] ↔ Ahead t p at i v)
  outside-Ahead t p at i v above outside = (
    λ m. absurd m,
    λ (found, inside, le).
        let has = starts_with_between p at i inside above (λ g. le (cmp_bytes_gt-lt at i g)) in
        absurd cc,
  )

  pub last_here :
      (t : Txn) (p at w i v : Bytes)
      → starts_with at p ≡ true
      → lookup t at ≡ some w
      → In {A = Bytes × Bytes} (i, v) ((at, w) ∷ [])
      → Ahead t p at i v
  last_here t p at w i v inside stored (inl same) = Ahead-here t p at w i v inside stored same
  last_here t p at w i v inside stored (inr m) = absurd m

  pub more_here :
      (t : Txn) (p at w i v j : Bytes) (rest : List (Bytes × Bytes))
      → starts_with at p ≡ true
      → lookup t at ≡ some w
      → after t at ≡ some j
      → (In {A = Bytes × Bytes} (i, v) rest → Ahead t p j i v)
      → In {A = Bytes × Bytes} (i, v) ((at, w) ∷ rest)
      → Ahead t p at i v
  more_here t p at w i v j rest inside stored e ih (inl same) =
      Ahead-here t p at w i v inside stored same
  more_here t p at w i v j rest inside stored e ih (inr m) = Ahead-back t p at i v j e (ih m)

  pub above_later :
      (p at j : Bytes)
      → cmp_bytes at p ≢ Ordering.lt
      → cmp_bytes j at ≡ Ordering.gt
      → cmp_bytes j p ≢ Ordering.lt
  above_later p at j above later less =
      above (cmp_bytes_lt_trans at j p (cmp_bytes_gt-lt j at later) less)
