-- ===== src/Vm/Label/Patches.antt =====
-- What `unify_labels` writes into the code.
use mathlib.Core.Path.{subst}
use polo_db.Prelude.{
  ◌⊎◌, ℕ, ◌+◌, ◌≤◌, ◌<◌, ◌^◌, ◌≡◌, sym, ap, ◌∙◌, arith, inl, inr, some, List, [], ◌∷◌, length,
  get_elem?, In, All,
}
use polo_db.Prelude.Bytes.{Bytes}
use polo_db.Errors.{unwrap-some, ok, unwrap, >>=-eq-ok}
use polo_db.Vm.Label.{LabelSlot, JumpTableRecord, position, copy_at, unify_labels, to_le_bytes}
use polo_db.Vm.Label.Copies.{copy-length, copy_lem, Copy, u32_at_same}
use polo_db.Vm.Machine.{u32_at}

-- Where the target of a jump is written.
abbrev pub window : JumpTableRecord → ℕ
window jump = jump.begin_loc + jump.offset

-- The windows follow each other from a place on and end before another.
unfoldable pub Spaced : ℕ → List JumpTableRecord → ℕ → Type 0
Spaced low [] high = low ≤ high
Spaced low (jump ∷ jumps) high = (low ≤ window jump) × Spaced (window jump + 4) jumps high

pub Spaced-le : (low high : ℕ) (jumps : List JumpTableRecord) → Spaced low jumps high → low ≤ high
unfolding Spaced
Spaced-le low high [] h = h
Spaced-le low high (jump ∷ jumps) (here, rest) =
    omega (arith, here, Spaced-le (window jump + 4) high jumps rest)

-- A place that no jump is written to.
abbrev pub Outside : ℕ → List JumpTableRecord → Type 0
Outside i jumps = All (λ jump. (i < window jump) ⊎ (window jump + 4 ≤ i)) jumps

pub below-Outside :
    (low high i : ℕ) (jumps : List JumpTableRecord)
    → Spaced low jumps high
    → i < low
    → Outside i jumps
unfolding Spaced
below-Outside low high i [] spaced h = tt
below-Outside low high i (jump ∷ jumps) (here, rest) h = (
  inl (omega (arith, here, h)),
  below-Outside (window jump + 4) high i jumps rest (omega (arith, here, h)),
)

-- The places of the labels have 32 bits.
abbrev pub Small : List LabelSlot → Type 0
Small slots =
    (label p : ℕ) (slot : LabelSlot)
    → get_elem? slots label ≡ some slot
    → position slot ≡ ok p
    → p < 2 ^ 32

-- The operand of a jump is the place of its label.
unfoldable pub Target : List LabelSlot → Bytes → JumpTableRecord → Type 0
Target slots out jump =
    (slot : LabelSlot) × (p : ℕ) × (get_elem? slots jump.label_id ≡ some slot)
    × (position slot ≡ ok p)
    × (u32_at out (window jump) ≡ ok p)

-- The first jump of the table, written.
First : List LabelSlot → JumpTableRecord → List JumpTableRecord → Bytes → Bytes → Type 0
First slots jump jumps code out =
    (slot : LabelSlot) × (p : ℕ) × (written : Bytes) × (get_elem? slots jump.label_id ≡ some slot)
    × (position slot ≡ ok p)
    × Copy code (window jump) p written
    × (unify_labels jumps slots written ≡ ok out)

first_lem :
    (slots : List LabelSlot) (jump : JumpTableRecord) (jumps : List JumpTableRecord)
    (code out : Bytes)
    → Small slots
    → unify_labels (jump ∷ jumps) slots code ≡ ok out
    → First slots jump jumps code out
unfolding unify_labels First
first_lem slots jump jumps code out small ran =
    let (slot, found, ran1) = >>=-eq-ok (unwrap (get_elem? slots jump.label_id)) _ ran in
    let (p, place, ran2) = >>=-eq-ok (position slot) _ ran1 in
    let (written, copy, ran3) = >>=-eq-ok (copy_at code (window jump) (to_le_bytes p)) _ ran2 in
    let stands = unwrap-some (get_elem? slots jump.label_id) slot found in
    (
      slot,
      p,
      written,
      stands,
      place,
      copy_lem code (window jump) p written (small jump.label_id p slot stands place) copy,
      ran3,
    )

pub unify_labels-keeps :
    (slots : List LabelSlot) (jumps : List JumpTableRecord) (code out : Bytes)
    → Small slots
    → unify_labels jumps slots code ≡ ok out
    → (length out ≡ length code) × ((i : ℕ) → Outside i jumps → get_elem? out i ≡ get_elem? code i)
unfolding unify_labels First Copy
unify_labels-keeps slots [] code out small ran =
    let e : code ≡ out = cc in (ap length (sym e), λ i h. ap (λ o. get_elem? o i) (sym e))
unify_labels-keeps slots (jump ∷ jumps) code out small ran =
    let (slot, p, written, stands, place, (fits, long, read, kept), rest) =
      first_lem slots jump jumps code out small ran in
    let (longer, same) = unify_labels-keeps slots jumps written out small rest in
    (longer ∙ long, λ i outside. same i outside.1 ∙ kept i outside.0)

pub length-unify_labels :
    (slots : List LabelSlot) (jumps : List JumpTableRecord) (code out : Bytes)
    → unify_labels jumps slots code ≡ ok out
    → length out ≡ length code
unfolding unify_labels
length-unify_labels slots [] code out ran = let e : code ≡ out = cc in ap length (sym e)
length-unify_labels slots (jump ∷ jumps) code out ran =
    let (slot, found, ran1) = >>=-eq-ok (unwrap (get_elem? slots jump.label_id)) _ ran in
    let (p, place, ran2) = >>=-eq-ok (position slot) _ ran1 in
    let (written, copy, ran3) = >>=-eq-ok (copy_at code (window jump) (to_le_bytes p)) _ ran2 in
    length-unify_labels slots jumps written out ran3 ∙ copy-length code (window jump) p written copy

pub unify_labels-Target :
    (slots : List LabelSlot) (jumps : List JumpTableRecord) (code out : Bytes) (low high : ℕ)
    (jump : JumpTableRecord)
    → Small slots
    → Spaced low jumps high
    → unify_labels jumps slots code ≡ ok out
    → In jump jumps
    → Target slots out jump
unfolding First Copy Target Spaced
unify_labels-Target slots [] code out low high jump small spaced ran here = absurd here
unify_labels-Target slots (first ∷ jumps) code out low high jump small (above, spaced) ran
      (inl same) =
    let (slot, p, written, stands, place, (fits, long, read, kept), rest) =
      first_lem slots first jumps code out small ran in
    let (longer, later) = unify_labels-keeps slots jumps written out small rest in
    let unchanged : u32_at out (window first) ≡ u32_at written (window first) =
      u32_at_same out written (window first)
        (λ i from to. later i (below-Outside (window first + 4) high i jumps spaced to)) in
    let there : Target slots out first = (slot, p, stands, place, unchanged ∙ read) in
    subst (λ j. Target slots out j) (sym same) there
unify_labels-Target slots (first ∷ jumps) code out low high jump small (above, spaced) ran
      (inr more) =
    let (slot, p, written, stands, place, (fits, long, read, kept), rest) =
      first_lem slots first jumps code out small ran in
    unify_labels-Target slots jumps written out (window first + 4) high jump small spaced rest more
