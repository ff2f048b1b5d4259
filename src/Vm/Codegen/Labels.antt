-- ===== src/Vm/Codegen/Labels.antt =====
-- The invariant of the state of src/polodb_core/vm/codegen.rs: how the jumps that wait for their labels and the
-- labels that are placed lie in the code.
pub mod Primitives
pub mod Jumps
pub mod Places
pub mod Conditions
pub mod Operators
pub mod Filters
pub mod Layouts
pub mod Updates
pub mod Stages
pub mod Take
pub mod Programs
pub mod Gotos
pub mod Scans
pub mod Examples
use mathlib.Core.Path.{subst}
use polo_db.Prelude.{
  In, ◌⊎◌, ℕ, zero, suc, ◌+◌, ◌≤◌, ◌<◌, ◌^◌, ◌%◌, ◌≡◌, refl, sym, ap, ◌∙◌, arith, Bool, true, false,
  Bool-cases, inl, inr, Option, none, some, List, [], ◌∷◌, ◌++◌, length, get_elem?, length-append,
  All, if◌then◌else◌,
}
use polo_db.Prelude.Bytes.{Bytes}
use polo_db.Errors.{Error, Outcome, ok, err, panic, unwrap}
use polo_db.Vm.Label.{LabelSlot, JumpTableRecord, position}
use polo_db.Vm.Label.Patches.{Spaced, Outside, window}
use polo_db.Vm.Codegen.{Codegen, Gen, continued, ◌>>=◌, ◌>>◌, pure, lift, raise}

-- A label that is placed at `p` in the code.
unfoldable pub Placed : Bytes → List JumpTableRecord → ℕ → Type 0
Placed code jumps p = (p + 5 ≤ length code) × (get_elem? code p ≡ some 1) × Outside p jumps

unfoldable pub Labelled : Bytes → List JumpTableRecord → List LabelSlot → Type 0
Labelled code jumps slots =
    (label p : ℕ) (slot : LabelSlot)
    → get_elem? slots label ≡ some slot
    → position slot ≡ ok p
    → Placed code jumps p

unfoldable pub Good : Bytes → List JumpTableRecord → List LabelSlot → Type 0
Good code jumps slots = Spaced 0 jumps (length code) × Labelled code jumps slots

abbrev pub IsGood : Codegen → Type 0
IsGood c = Good c.program.instructions c.jump_table c.program.label_slots

abbrev pub code_length : Codegen → ℕ
code_length c = length c.program.instructions

Spaced-more :
    (low high more : ℕ) (jumps : List JumpTableRecord)
    → Spaced low jumps high
    → high ≤ more
    → Spaced low jumps more
unfolding Spaced
Spaced-more low high more [] spaced h = omega (arith, spaced, h)
Spaced-more low high more (jump ∷ jumps) (above, spaced) h =
    (above, Spaced-more (window jump + 4) high more jumps spaced h)

before-append :
    (code more : Bytes) (i : ℕ) → i < length code → get_elem? (code ++ more) i ≡ get_elem? code i
before-append [] more i h = absurd (omega (arith, h))
before-append (b ∷ code) more zero h = refl
before-append (b ∷ code) more (suc i) h = before-append code more i (omega (arith, h))

-- No jump that waits for its label is forgotten.
abbrev pub Remembers : Codegen → Codegen → Type 0
Remembers c d = (jump : JumpTableRecord) → In jump c.jump_table → In jump d.jump_table

-- A step of the compiler: the code grows, the jumps stay recorded, and where the code stays below 2 ^ 32 bytes the
-- state stays good.
unfoldable pub Grows : Codegen → Codegen → Type 0
Grows c d =
    (code_length c ≤ code_length d) × Remembers c d × (code_length d < 2 ^ 32 → IsGood c → IsGood d)

unfoldable pub After : {A : Type 0} → Codegen → Outcome (Codegen × A) → Type 0
After c (ok (d, a)) = Grows c d
After c (err e) = Unit
After c panic = Unit

pub record Keeps {A : Type 0} (gen : Gen A) : Type 0 where
  pub keeps : (c : Codegen) → After c (gen c)

Grows-trans : (c d e : Codegen) → Grows c d → Grows d e → Grows c e
unfolding Grows
Grows-trans c d e (longer, jumps, kept) (longer', jumps', kept') = (
  omega (arith, longer, longer'),
  λ jump there. jumps' jump (jumps jump there),
  λ small good. kept' small (kept (omega (arith, small, longer')) good),
)

After-trans :
    {A : Type 0} (c d : Codegen) (r : Outcome (Codegen × A)) → Grows c d → After d r → After c r
unfolding After
After-trans c d (ok (e, a)) first later = Grows-trans c d e first later
After-trans c d (err e) first later = tt
After-trans c d panic first later = tt

After-bind :
    {A B : Type 0} (c : Codegen) (r : Outcome (Codegen × A)) (next : A → Gen B)
    → After c r
    → ((a : A) → Keeps (next a))
    → After c (continued r next)
unfolding After
After-bind c (ok (d, a)) next first later = After-trans c d (next a d) first ((later a).keeps d)
After-bind c (err e) next first later = tt
After-bind c panic next first later = tt

pub bind-Keeps :
    {A B : Type 0} {gen : Gen A} {next : A → Gen B}
    → Keeps gen
    → ((a : A) → Keeps (next a))
    → Keeps (gen >>= next)
bind-Keeps {A} {B} {gen} {next} first later = record {
  keeps = λ c. After-bind c (gen c) next (first.keeps c) later;
}

pub then-Keeps :
    {B : Type 0} {gen : Gen (Unit {0})} {next : Gen B}
    → Keeps gen
    → Keeps next
    → Keeps (gen >> next)
then-Keeps {B} {gen} {next} first later = record {
  keeps = λ c. After-bind c (gen c) (λ _. next) (first.keeps c) (λ _. later);
}

infixr 4 ◌>>>◌
pub ◌>>>◌ :
    {B : Type 0} {gen : Gen (Unit {0})} {next : Gen B}
    → Keeps gen
    → Keeps next
    → Keeps (gen >> next)
first >>> later = then-Keeps first later

pub option-Keeps :
    {A B : Type 0} (o : Option A) {missing : Gen B} {found : A → Gen B}
    → Keeps missing
    → ((a : A) → Keeps (found a))
    → Keeps (elim o [ none ↦ missing | some a ↦ found a ])
option-Keeps none missing found = missing
option-Keeps (some a) missing found = found a

pub choose-Keeps :
    {A : Type 0} (b : Bool) {one other : Gen A}
    → Keeps one
    → Keeps other
    → Keeps (if b then one else other)
choose-Keeps true first second = first
choose-Keeps false first second = second

-- Code that is added behind, with the labels and the jumps as they were.
append_Good :
    (code more : Bytes) (jumps : List JumpTableRecord) (slots : List LabelSlot)
    → Good code jumps slots
    → Good (code ++ more) jumps slots
unfolding Good Labelled Placed
append_Good code more jumps slots (spaced, placed) =
    let longer = length-append code more in
    (
      Spaced-more 0 (length code) (length (code ++ more)) jumps spaced (omega (arith, longer)),
      λ label p slot stands place.
          let (room, op, away) = placed label p slot stands place in
          (omega (arith, longer, room), before-append code more p (omega (arith, room)) ∙ op, away),
    )
