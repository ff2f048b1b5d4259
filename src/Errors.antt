-- ===== src/Errors.antt =====
-- src/polodb_core/errors.rs: the errors that the modelled code raises, and the outcome of a call.
-- A field that holds a rendered value (`format!("{:?}", key)`, `to_string()`) is left out: the
-- rendering is the bson crate's. What the code does by `panic!`, `unwrap`, `expect`, an index out
-- of bounds or a checked overflow is the outcome `panic`.
pub mod Kept
use polo_db.Prelude.{
  Bool, true, false, if◌then◌else◌, ℕ, ◌≡◌, refl, Option, List, ◌++◌, append_assoc,
}
use polo_db.Prelude.Bytes.{Bytes}

pub data Error : Type 0 where
  not_a_valid_key_type : Error
  invalid_field : (field_type field_name : Bytes) → (path : Option Bytes) → Error
  validation_error : Bytes → Error
  field_type_unexpected : (field_name expected_ty : Bytes) → Error
  unexpected_type_for_op : (operation expected_ty : Bytes) → Error
  io_err : Error
  bson_err : Error
  increment_null_field : Error
  vm_is_halt : Error
  unable_to_update_primary_key : Error
  cannot_apply_operation : (op_name field_name : Bytes) → Error
  from_utf8_error : Error
  duplicate_key : (name ns : Bytes) → Error
  unknown_bson_element_type : ℕ → Error
  regex_error : (expression options : Bytes) → Error
  unknown_aggregation_operation : Bytes → Error
  invalid_aggregation_stage : Error
  unknown_update_operation : Bytes → Error
  rocks_db_err : Error
  collection_not_found : Bytes → Error
  collection_already_exits : Bytes → Error
  illegal_collection_name : Bytes → Error
  illegal_index_name : Bytes → Error
  only_support_single_field_indexes : Error
  only_supports_ascending_order : Bytes → Error
  set_is_not_a_document : Error
  upsert_error : Bytes → Error
  db_is_closed : Error
  multiple : (before last : Error) → Error

-- `Error::add`: the list of `Multiple` is written from its end.
unfoldable pub add : Error → Error → Error
add self next = multiple self next

-- `Result<A>`, or a panic.
pub data Outcome {ℓ} (A : Type ℓ) : Type ℓ where
  ok : A → Outcome A
  err : Error → Outcome A
  panic : Outcome A

-- `?`, and the end of the thread on a panic.
infixl 5 ◌>>=◌ ◌>>◌
abbrev pub ◌>>=◌ {κ ℓ} : {B : Type κ} {A : Type ℓ} → Outcome A → (A → Outcome B) → Outcome B
panic >>= next = panic
err e >>= next = err e
ok a >>= next = next a

abbrev pub ◌>>◌ {ℓ} : {B : Type ℓ} → Outcome (Unit {0}) → Outcome B → Outcome B
m >> k = m >>= λ _. k

abbrev pub map_ok {ℓ κ} : {A : Type ℓ} {B : Type κ} → (A → B) → Outcome A → Outcome B
map_ok f r = r >>= λ a. ok (f a)

-- `Option::unwrap` and indexing.
abbrev pub unwrap {ℓ} : {A : Type ℓ} → Option A → Outcome A
unwrap Option.none = panic
unwrap (Option.some a) = ok a

pub unwrap-some {ℓ} : {A : Type ℓ} (o : Option A) (a : A) → unwrap o ≡ ok a → o ≡ Option.some a
unwrap-some Option.none a h = cc
unwrap-some (Option.some b) a h = cc

-- Inversion of a successful bind.
pub >>=-eq-ok {κ ℓ} :
    {B : Type κ} {A : Type ℓ} {b : B} (m : Outcome A) (next : A → Outcome B)
    → (m >>= next) ≡ ok b
    → (a : A) × (m ≡ ok a) × (next a ≡ ok b)
>>=-eq-ok panic next h = cc
>>=-eq-ok (err e) next h = cc
>>=-eq-ok (ok a) next h = (a, refl, h)

pub map_ok-append {ℓ} :
    {A : Type ℓ} (xs ys : List A) (r : Outcome (List A))
    → map_ok (λ zs. (xs ++ ys) ++ zs) r ≡ map_ok (λ zs. xs ++ zs) (map_ok (λ zs. ys ++ zs) r)
map_ok-append xs ys (ok zs) = rw append_assoc
map_ok-append xs ys (err e) = refl
map_ok-append xs ys panic = refl

-- `P` holds of the value, where there is one.
abbrev pub On : {A : Type 0} → (A → Type 0) → Outcome A → Type 0
On P (ok a) = P a
On P (err e) = Unit
On P panic = Unit

pub On->>= :
    {B A : Type 0} (P : B → Type 0) (m : Outcome A) (next : A → Outcome B)
    → ((a : A) → On P (next a))
    → On P (m >>= next)
On->>= P (ok a) next h = h a
On->>= P (err e) next h = tt
On->>= P panic next h = tt

pub On->> :
    {B : Type 0} (P : B → Type 0) (m : Outcome (Unit {0})) (next : Outcome B)
    → On P next
    → On P (m >> next)
On->> P (ok _) next h = h
On->> P (err e) next h = tt
On->> P panic next h = tt

-- The same with what holds of the value in between.
pub On-chain :
    {B A : Type 0} (Q : A → Type 0) (P : B → Type 0) (m : Outcome A) (next : A → Outcome B)
    → On Q m
    → ((a : A) → Q a → On P (next a))
    → On P (m >>= next)
On-chain Q P (ok a) next q h = h a q
On-chain Q P (err e) next q h = tt
On-chain Q P panic next q h = tt

pub On-map_ok :
    {A B : Type 0} (Q : A → Type 0) (P : B → Type 0) (f : A → B) (m : Outcome A)
    → On Q m
    → ((a : A) → Q a → P (f a))
    → On P (map_ok f m)
On-map_ok Q P f (ok a) q h = h a q
On-map_ok Q P f (err e) q h = tt
On-map_ok Q P f panic q h = tt

pub On-cond :
    {A : Type 0} (P : A → Type 0) (b : Bool) (x y : Outcome A)
    → On P x
    → On P y
    → On P (if b then x else y)
On-cond P true x y h k = h
On-cond P false x y h k = k
