-- ===== src/Db/Collection/Atomic.antt =====
-- The operations of a collection that write, src/polodb_core/coll/collection.rs, and what is durable behind them.
use polo_db.Prelude.{◌⊎◌, inl, inr, ℕ, ◌≡◌, refl, sym, ◌∙◌, Option, none, some, List}
use polo_db.Prelude.Bytes.{Bytes}
use polo_db.Errors.{Error, Outcome, ok, err, panic, add}
use polo_db.Bson.{Document}
use polo_db.Index.Durable.{Quiet}
use polo_db.Store.{Store}
use polo_db.Store.Durable.{Durability}
use polo_db.Db.Backend.{Backend}
use polo_db.Db.Transaction.{Db, ◌>>=◌, continued, matched, commit, rollback, pure}
use polo_db.Errors.Kept.{written}
use polo_db.Db.Indexes.{IndexModel}
use polo_db.Db.Write
use polo_db.Db.Write.{UpdateOptions, drop_collection}
use polo_db.Db.Indexes
use polo_db.Db.Durable.{After, insert_one-After, insert_many-After}
use polo_db.Db.Durable.IndexWrites.{create_index-After, drop_index-After}
use polo_db.Db.Durable.Programs.{
  drop_collection-After, update_one-After, update_many-After, delete_one-After, delete_many-After,
}
use polo_db.Db.Collection
use polo_db.Db.Collection.{try_db_op, closed, rolled_back}

-- The operations that write.
pub data Change : Type 0 where
  insert_one : (new_oid : Bytes) → Document → Change
  insert_many : (new_oid : ℕ → Bytes) → List (Outcome Document) → Change
  update_one : (new_oid : Bytes) → (query update : Document) → UpdateOptions → Change
  update_many : (new_oid : Bytes) → (query update : Document) → UpdateOptions → Change
  delete_one : (query : Document) → Change
  delete_many : (query : Document) → Change
  create_index : IndexModel → Change
  drop_index : (index_name : Bytes) → Change
  drop : Change

module _ (S : Store) (D : Durability S) where
  open S use {Txn, lookup}
  open D use {durable}

  -- The operation left what is durable alone, and then this call, which closes its transaction, failed.
  abbrev pub CloseFails :
      (close : Txn → Outcome Txn) → (left : Txn → Txn) → (t u : Txn) → Outcome Txn → Type 0
  CloseFails close left t u r = (v : Txn) × Quiet S D t v × (close v ≡ r) × (left v ≡ u)

  -- What is durable is as before, and it is all that the transaction holds.
  abbrev pub Undone : Txn → Txn → Type 0
  Undone t u = (j : Bytes) → (durable u j ≡ durable t j) × (lookup u j ≡ durable t j)

  -- All that the transaction holds is durable after a success, and nothing new is after a failure.
  abbrev pub Atomic : {A : Type 0} → Txn → Option (Txn × Outcome A) → Type 0
  Atomic t none = Unit
  Atomic t (some (u, ok a)) = (j : Bytes) → durable u j ≡ lookup u j
  Atomic t (some (u, err e)) =
      Undone t u
      ⊎ CloseFails S.commit S.failed_commit t u (err e)
      ⊎ ((first next : Error) × (e ≡ add first next)
          × CloseFails S.rollback S.failed_rollback t u (err next))
  Atomic t (some (u, panic)) =
      Quiet S D t u
      ⊎ CloseFails S.commit S.failed_commit t u panic
      ⊎ CloseFails S.rollback S.failed_rollback t u panic

  committed-Atomic :
      {A : Type 0} (a : A) (t v : Txn) (o : Outcome Txn)
      → Quiet S D t v
      → S.commit v ≡ o
      → Atomic t (continued (some (written (S.failed_commit v) o)) (λ _. pure a))
  committed-Atomic a t v (ok w) q done =
      λ j. D.durable-commit v w j done ∙ sym (S.lookup-commit v w j done)
  committed-Atomic a t v (err e) q done = inr (inl (v, q, done, refl))
  committed-Atomic a t v panic q done = inr (inl (v, q, done, refl))

  undone-Atomic :
      (A : Type 0) (e : Error) (t v : Txn) (o : Outcome Txn)
      → Quiet S D t v
      → S.rollback v ≡ o
      → Atomic {A = A} t (matched (some (written (S.failed_rollback v) o)) (rolled_back e))
  undone-Atomic A e t v (ok w) q done =
      inl λ j. (D.durable-rollback v w j done ∙ q j, D.lookup-rollback v w j done ∙ q j)
  undone-Atomic A e t v (err next) q done = inr (inr (e, next, refl, (v, q, done, refl)))
  undone-Atomic A e t v panic q done = inr (inr (v, q, done, refl))

  closed-Atomic :
      {A : Type 0} (t : Txn) (res : Option (Txn × Outcome A))
      → After S D t res
      → Atomic t (matched res (closed S))
  unfolding commit rollback
  closed-Atomic t none q = tt
  closed-Atomic t (some (v, ok a)) q = committed-Atomic a t v (S.commit v) q refl
  closed-Atomic t (some (v, err e)) q = undone-Atomic _ e t v (S.rollback v) q refl
  closed-Atomic t (some (v, panic)) q = inl q

  done-Atomic :
      {A : Type 0} (t : Txn) (res : Option (Txn × Outcome A))
      → Atomic t res
      → Atomic t (continued res (λ _. pure tt))
  done-Atomic t none h = tt
  done-Atomic t (some (u, ok a)) h = h
  done-Atomic t (some (u, err e)) h = h
  done-Atomic t (some (u, panic)) h = h

  try_db_op-Atomic :
      {A : Type 0} (action : Db Txn A) (t : Txn)
      → After S D t (action t)
      → Atomic t (continued (try_db_op S action t) (λ _. pure tt))
  unfolding try_db_op
  try_db_op-Atomic action t q = done-Atomic t (try_db_op S action t) (closed-Atomic t (action t) q)

module _ (B : Backend) (fuel : ℕ) (name : Bytes) where
  open B use {world}
  open world use {store}
  open store use {Txn}

  unfoldable pub perform : Change → Db Txn (Unit {0})
  unfolding Collection.insert_one Collection.insert_many Collection.update_one_with_options
      Collection.update_many_with_options Collection.delete_one Collection.delete_many
      Collection.create_index Collection.drop_index Collection.drop
  perform (insert_one new_oid doc) = do _ ← Collection.insert_one B name new_oid doc; pure tt
  perform (insert_many new_oid docs) = do _ ← Collection.insert_many B name new_oid docs; pure tt
  perform (update_one new_oid query update options) = do
    _ ← Collection.update_one_with_options B name fuel new_oid query update options
    pure tt
  perform (update_many new_oid query update options) = do
    _ ← Collection.update_many_with_options B name fuel new_oid query update options
    pure tt
  perform (delete_one query) = do _ ← Collection.delete_one B name fuel query; pure tt
  perform (delete_many query) = do _ ← Collection.delete_many B name fuel query; pure tt
  perform (create_index index) = do _ ← Collection.create_index B name fuel index; pure tt
  perform (drop_index index_name) = do _ ← Collection.drop_index B name fuel index_name; pure tt
  perform drop = do _ ← Collection.drop B name fuel; pure tt

  -- Every operation of a collection that writes is atomic. Where it succeeds, all that its transaction holds is
  -- durable. Where it gives an error, what is durable is what was durable before, and the transaction holds that again;
  -- where it panics, what is durable is what was durable before; unless it is the commit or the rollback itself that
  -- failed: then what was durable before was so still when it was called, and the error is its own, for the rollback
  -- added to that of the operation. Nothing is said of a run whose fuel is used
  -- up.
  pub perform-Atomic :
      (D : Durability store) (change : Change) (t : Txn) → Atomic store D t (perform change t)
  unfolding perform
  perform-Atomic D (insert_one new_oid doc) t =
      try_db_op-Atomic store D (Write.insert_one B name new_oid doc) t
        (insert_one-After B D name new_oid doc t)
  perform-Atomic D (insert_many new_oid docs) t =
      try_db_op-Atomic store D (Write.insert_many B name new_oid docs) t
        (insert_many-After B D name new_oid docs t)
  perform-Atomic D (update_one new_oid query update options) t =
      try_db_op-Atomic store D (Write.update_one B fuel name new_oid query update options) t
        (update_one-After B D fuel name new_oid query update options t)
  perform-Atomic D (update_many new_oid query update options) t =
      try_db_op-Atomic store D (Write.update_many B fuel name new_oid query update options) t
        (update_many-After B D fuel name new_oid query update options t)
  perform-Atomic D (delete_one query) t =
      try_db_op-Atomic store D (Write.delete_one B fuel name query) t
        (delete_one-After B D fuel name query t)
  perform-Atomic D (delete_many query) t =
      try_db_op-Atomic store D (Write.delete_many B fuel name query) t
        (delete_many-After B D fuel name query t)
  perform-Atomic D (create_index index) t =
      try_db_op-Atomic store D (Indexes.create_index B fuel name index) t
        (create_index-After B D fuel name index t)
  perform-Atomic D (drop_index index_name) t =
      try_db_op-Atomic store D (Indexes.drop_index B fuel name index_name) t
        (drop_index-After B D fuel name index_name t)
  perform-Atomic D drop t =
      try_db_op-Atomic store D (drop_collection B fuel name) t
        (drop_collection-After B D fuel name t)
