-- ===== src/Db/Transaction.antt =====
-- src/polodb_core/transaction/transaction_inner.rs. A clone of a transaction shares the transaction of RocksDB
-- and has a flag `auto_commit` of its own: so the store's transaction is passed on as the state, and the
-- flag as an argument. What is written before an error stays in the transaction. `none` is a run of the
-- machine whose fuel is used up.
use polo_db.Prelude.{◌≡◌, refl, ap, Bool, Option, none, some, if◌then◌else◌}
use polo_db.Prelude.Bytes.{Bytes}
use polo_db.Errors.{Outcome, Error, ok, err, panic}
use polo_db.Errors.Kept.{written}
use polo_db.Store.{Store}

abbrev pub Db : Type 0 → Type 0 → Type 0
Db T A = T → Option (T × Outcome A)

abbrev pub continued :
    {T A B : Type 0} → Option (T × Outcome A) → (A → Db T B) → Option (T × Outcome B)
continued none next = none
continued (some (u, ok a)) next = next a u
continued (some (u, err e)) next = some (u, err e)
continued (some (u, panic)) next = some (u, panic)

infixl 5 ◌>>=◌ ◌>>◌
abbrev pub ◌>>=◌ : {B T A : Type 0} → Db T A → (A → Db T B) → Db T B
(m >>= next) t = continued (m t) next

abbrev pub ◌>>◌ : {B T : Type 0} → Db T (Unit {0}) → Db T B → Db T B
(m >> next) t = continued (m t) (λ _. next)

abbrev pub pure : {T A : Type 0} → A → Db T A
pure a t = some (t, ok a)

abbrev pub raise : {T A : Type 0} → Error → Db T A
raise e t = some (t, err e)

abbrev pub lift : {T A : Type 0} → Outcome A → Db T A
lift r t = some (t, r)

-- What is read of the transaction.
abbrev pub reading : {T A : Type 0} → (T → Outcome A) → Db T A
reading read t = some (t, read t)

-- A write of one entry that fails leaves the transaction as it was.
abbrev pub writing : {T : Type 0} → (T → Outcome T) → Db T (Unit {0})
writing write t = some (written t (write t))

-- `match` on the result of an operation.
abbrev pub matched :
    {T A B : Type 0} → Option (T × Outcome A) → (Outcome A → Db T B) → Option (T × Outcome B)
matched none next = none
matched (some (u, r)) next = next r u

abbrev pub match_on : {T A B : Type 0} → Db T A → (Outcome A → Db T B) → Db T B
match_on m next t = matched (m t) next

abbrev state_of : {T A : Type 0} → T → Option (T × A) → T
state_of t none = t
state_of t (some (u, a)) = u

abbrev value_of : {T A : Type 0} → A → Option (T × Outcome A) → A
value_of a (some (u, ok b)) = b
value_of a _ = a

-- Inversion of an operation that succeeds.
pub continued-eq-ok :
    {T A B : Type 0} {b : B} {u : T} (r : Option (T × Outcome A)) (next : A → Db T B)
    → continued r next ≡ some (u, ok b)
    → (t : T) × (a : A) × (r ≡ some (t, ok a)) × (next a t ≡ some (u, ok b))
continued-eq-ok none next h = cc
continued-eq-ok (some (t, ok a)) next h = (t, a, refl, h)
continued-eq-ok (some (t, err e)) next h = cc
continued-eq-ok (some (t, panic)) next h = cc

pub lift-eq-ok :
    {T A B : Type 0} {b : B} {u : T} (t : T) (r : Outcome A) (next : A → Db T B)
    → continued (some (t, r)) next ≡ some (u, ok b)
    → (a : A) × (r ≡ ok a) × (next a t ≡ some (u, ok b))
lift-eq-ok t (ok a) next h = (a, refl, h)
lift-eq-ok t (err e) next h = cc
lift-eq-ok t panic next h = cc

pub writing-eq-ok :
    {T B : Type 0} {b : B} {u : T} (t : T) (r : Outcome T) (next : Unit {0} → Db T B)
    → continued (some (written t r)) next ≡ some (u, ok b)
    → (v : T) × (r ≡ ok v) × (next tt v ≡ some (u, ok b))
writing-eq-ok t (ok v) next h = (v, refl, h)
writing-eq-ok t (err e) next h = cc
writing-eq-ok t panic next h = cc

pub pure-eq-ok :
    {T A : Type 0} (t u : T) (a b : A)
    → ◌≡◌ {A = Option (T × Outcome A)} (some (t, ok a)) (some (u, ok b))
    → (t ≡ u) × (a ≡ b)
pure-eq-ok t u a b h = (ap (λ o. state_of t o) h, ap (λ o. value_of a o) h)

pub reading-eq-ok :
    {T A : Type 0} (t u : T) (r : Outcome A) (a : A)
    → ◌≡◌ {A = Option (T × Outcome A)} (some (t, r)) (some (u, ok a))
    → r ≡ ok a
reading-eq-ok t u (ok b) a h = ap ok (ap (λ o. value_of b o) h)
reading-eq-ok t u (err e) a h = absurd cc
reading-eq-ok t u panic a h = absurd cc

pub matched-eq-ok :
    {T A B : Type 0} {b : B} {u : T} (r : Option (T × Outcome A)) (next : Outcome A → Db T B)
    → matched r next ≡ some (u, ok b)
    → (t : T) × (a : Outcome A) × (r ≡ some (t, a)) × (next a t ≡ some (u, ok b))
matched-eq-ok none next h = cc
matched-eq-ok (some (t, a)) next h = (t, a, refl, h)

pub written-eq-ok :
    {T : Type 0} {u : T} (t : T) (r : Outcome T)
    → ◌≡◌ {A = Option (T × Outcome (Unit {0}))} (some (written t r)) (some (u, ok tt))
    → r ≡ ok u
written-eq-ok t (ok v) h = ap ok (ap (λ o. state_of t o) h)
written-eq-ok t (err e) h = cc
written-eq-ok t panic h = cc

module _ (S : Store) where
  open S use {Txn}

  unfoldable pub put : Bytes → Bytes → Db Txn (Unit {0})
  put key value = writing (λ t. S.put t key value)

  unfoldable pub delete : Bytes → Db Txn (Unit {0})
  delete key = writing (λ t. S.delete t key)

  unfoldable pub commit : Db Txn (Unit {0})
  commit t = some (written (S.failed_commit t) (S.commit t))

  unfoldable pub rollback : Db Txn (Unit {0})
  rollback t = some (written (S.failed_rollback t) (S.rollback t))

  unfoldable pub auto_commit : Bool → Db Txn (Unit {0})
  unfolding commit
  auto_commit auto = if auto then commit else pure tt
