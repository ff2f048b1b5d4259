-- ===== src/Store/Instance.antt =====
-- A store to run the code on: a list of entries, the newest first.
use polo_db.Prelude.{
  In, ◌≡◌, ◌≢◌, refl, sym, ap, arith, Bool, true, false, Option, none, some, List, [], ◌∷◌,
  if◌then◌else◌, Ordering, Bool-cases, Option-cases, inl, inr, ◌∙◌,
}
use polo_db.Prelude.Bytes.{Bytes, str_eq, str_eq_iff, str_eq_refl, cmp_bytes, cmp_bytes_swap}
use polo_db.Prelude.Lex.{cmp_bytes_refl, cmp_bytes_trans}
use polo_db.Errors.{Outcome, ok}
use polo_db.Store.{Store}

abbrev pub Entries : Type 0
Entries = List (Bytes × Bytes)

unfoldable pub lookup : Entries → Bytes → Option Bytes
lookup [] j = none
lookup ((k, v) ∷ es) j = if str_eq k j then some v else lookup es j

unfoldable pub delete : Entries → Bytes → Entries
delete [] k = []
delete ((j, v) ∷ es) k = let rest = delete es k in if str_eq j k then rest else (j, v) ∷ rest

-- The lesser key.
abbrev lesser : Bytes → Option Bytes → Bytes
lesser k none = k
lesser k (some j) = elim (cmp_bytes k j) [ Ordering.gt ↦ j | _ ↦ k ]

-- The least key that passes a test.
unfoldable pub least : (Bytes → Bool) → Entries → Option Bytes
least test [] = none
least test ((k, v) ∷ es) = let rest = least test es in if test k then some (lesser k rest) else rest

abbrev pub from : Bytes → Bytes → Bool
from k j = elim (cmp_bytes j k) [ Ordering.lt ↦ false | _ ↦ true ]

abbrev pub behind : Bytes → Bytes → Bool
behind k j = elim (cmp_bytes j k) [ Ordering.gt ↦ true | _ ↦ false ]

lookup-delete :
    (es : Entries) (k j : Bytes)
    → lookup (delete es k) j ≡ (if str_eq k j then none else lookup es j)
unfolding lookup delete
lookup-delete [] k j = ground arith
lookup-delete ((i, v) ∷ es) k j =
    ground (arith, lookup-delete es k j, str_eq_iff i k, str_eq_iff i j, str_eq_iff k j)

lookup-cons : (es : Entries) (k v j : Bytes) → lookup es j ≢ none → lookup ((k, v) ∷ es) j ≢ none
unfolding lookup
lookup-cons es k v j h = ground arith

lookup-head : (es : Entries) (k v : Bytes) → lookup ((k, v) ∷ es) k ≢ none
unfolding lookup
lookup-head es k v = ground (arith, str_eq_refl k)

least-some :
    (test : Bytes → Bool) (es : Entries) (j : Bytes)
    → least test es ≡ some j
    → (lookup es j ≢ none) × (test j ≡ true)
unfolding least lookup
least-some test [] j h = cc
least-some test ((k, v) ∷ es) j h = elim (Option-cases (least test es)) [
  | inl e ↦ (ground (arith, str_eq_refl k), ground arith)
  | inr (i, e) ↦
      let (found, passes) = least-some test es i e in (ground (arith, str_eq_refl k), ground arith)
]

lesser-head : (k : Bytes) (o : Option Bytes) → cmp_bytes (lesser k o) k ≢ Ordering.gt
lesser-head k none = ground (arith, cmp_bytes_refl k)
lesser-head k (some j) = ground (arith, cmp_bytes_refl k, cmp_bytes_swap j k)

lesser-tail : (k j : Bytes) → cmp_bytes (lesser k (some j)) j ≢ Ordering.gt
lesser-tail k j = ground (arith, cmp_bytes_refl j)

least-least :
    (test : Bytes → Bool) (es : Entries) (i : Bytes)
    → lookup es i ≢ none
    → test i ≡ true
    → (j : Bytes) × (least test es ≡ some j) × (cmp_bytes j i ≢ Ordering.gt)
unfolding least lookup
least-least test [] i h passes = absurd (h refl)
least-least test ((k, v) ∷ es) i h passes = elim (Bool-cases (str_eq k i)) [
  | inl same ↦
      let same : k ≡ i = (str_eq_iff k i).0 same in
      (lesser k (least test es), ground arith, λ e. lesser-head k (least test es) (cc))
  | inr differ ↦
      let (j, e, le) = least-least test es i (ground arith) passes in
      elim (Bool-cases (test k)) [
        | inl first ↦ (lesser k (some j), rw (first, e), cmp_bytes_trans _ j i (lesser-tail k j) le)
        | inr skipped ↦ (j, rw (skipped, e), le)
      ]
]

pub list_store-put :
    (t u : Entries) (k v j : Bytes)
    → ◌≡◌ {A = Outcome Entries} (ok ((k, v) ∷ t)) (ok u)
    → lookup u j ≡ (if str_eq k j then some v else lookup t j)
unfolding lookup
list_store-put t u k v j h = let same : (k, v) ∷ t ≡ _ = cc in ap (λ u. lookup u j) (sym same)

pub list_store-delete :
    (t u : Entries) (k j : Bytes)
    → ◌≡◌ {A = Outcome Entries} (ok (delete t k)) (ok u)
    → lookup u j ≡ (if str_eq k j then none else lookup t j)
list_store-delete t u k j h =
    let same : delete t k ≡ _ = cc in ap (λ u. lookup u j) (sym same) ∙ lookup-delete t k j

pub from-some :
    (t : Entries) (k j : Bytes)
    → least (from k) t ≡ some j
    → (lookup t j ≢ none) × (cmp_bytes j k ≢ Ordering.lt)
from-some t k j h = let (found, passes) = least-some (from k) t j h in (found, ground arith)

pub from-least :
    (t : Entries) (k i : Bytes)
    → lookup t i ≢ none
    → cmp_bytes i k ≢ Ordering.lt
    → (j : Bytes) × (least (from k) t ≡ some j) × (cmp_bytes j i ≢ Ordering.gt)
from-least t k i h c = least-least (from k) t i h (ground arith)

pub behind-some :
    (t : Entries) (k j : Bytes)
    → least (behind k) t ≡ some j
    → (lookup t j ≢ none) × (cmp_bytes j k ≡ Ordering.gt)
behind-some t k j h = let (found, passes) = least-some (behind k) t j h in (found, ground arith)

pub behind-least :
    (t : Entries) (k i : Bytes)
    → lookup t i ≢ none
    → cmp_bytes i k ≡ Ordering.gt
    → (j : Bytes) × (least (behind k) t ≡ some j) × (cmp_bytes j i ≢ Ordering.gt)
behind-least t k i h c = least-least (behind k) t i h (ground arith)

unfoldable pub keys : Entries → List Bytes
keys [] = []
keys ((k, v) ∷ es) = k ∷ keys es

pub lookup-keys : (t : Entries) (k : Bytes) → lookup t k ≢ none → In k (keys t)
unfolding lookup keys
lookup-keys [] k h = absurd (h refl)
lookup-keys ((j, v) ∷ es) k h = elim (Bool-cases (str_eq j k)) [
  | inl same ↦ inl (sym ((str_eq_iff j k).0 same))
  | inr differ ↦ inr (lookup-keys es k (ground arith))
]

pub list_store-commit :
    (t u : Entries) (j : Bytes) → ◌≡◌ {A = Outcome Entries} (ok t) (ok u) → lookup u j ≡ lookup t j
list_store-commit t u j h = let same : t ≡ u = cc in ap (λ s. lookup s j) (sym same)

-- The entries are those of the transaction alone, so that a rollback leaves none.
abbrev pub list_store : Store
list_store = record {
  Txn = Entries;
  lookup = lookup;
  put = λ t k v. ok ((k, v) ∷ t);
  delete = λ t k. ok (delete t k);
  commit = λ t. ok t;
  rollback = λ t. ok [];
  failed_commit = λ t. t;
  failed_rollback = λ t. t;
  lookup-commit = list_store-commit;
  seek = λ t k. least (from k) t;
  after = λ t k. least (behind k) t;
  keys = keys;
  lookup-keys = lookup-keys;
  lookup-put = list_store-put;
  lookup-delete = list_store-delete;
  seek-some = from-some;
  seek-least = from-least;
  after-some = behind-some;
  after-least = behind-least;
}
