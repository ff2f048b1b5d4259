-- ===== src/Db/Collection/Insert.antt =====
-- What an insertion through a collection leaves in the store once its transaction is committed.
use polo_db.Prelude.{◌≡◌, ◌≢◌, sym, ap, ◌∙◌, false, some, [], ◌∷◌}
use polo_db.Prelude.Bytes.{Bytes, str, str_eq, starts_with}
use polo_db.Errors.{Error, Outcome, ok, err, panic}
use polo_db.Bson.{Bson, Document, string}
use polo_db.Keys.{stacked_key}
use polo_db.Index.{CollectionSpecification}
use polo_db.Index.Frame.{index_bytes}
use polo_db.Store.{Store}
use polo_db.Store.Durable.{Durability}
use polo_db.Db.Backend.{Backend}
use polo_db.Db.Names.{fix_doc}
use polo_db.Db.Transaction.{Db, commit, rollback, matched-eq-ok, writing-eq-ok, pure-eq-ok}
use polo_db.Db.Collections.{read_spec}
use polo_db.Db.Collections.Laws.{meta_bytes, spec_of, read_spec_lem}
use polo_db.Db.Write
use polo_db.Db.Write.Insert.{insert_one-Here}
use polo_db.Db.Collection.{try_db_op, closed, rolled_back, insert_one}

module _ (S : Store) where
  open S use {Txn, lookup}

  rolled_back-ne-ok :
      {A : Type 0} (e : Error) (r : Outcome (Unit {0})) (t u : Txn) (a : A)
      → rolled_back {T = Txn} e r t ≢ some (u, ok a)
  rolled_back-ne-ok e (ok _) t u a h = cc
  rolled_back-ne-ok e (err next) t u a h = cc
  rolled_back-ne-ok e panic t u a h = cc

  closed-eq-ok :
      {A : Type 0} (r : Outcome A) (t u : Txn) (a : A)
      → closed S r t ≡ some (u, ok a)
      → (r ≡ ok a) × (S.commit t ≡ ok u)
  unfolding commit
  closed-eq-ok (ok b) t u a h =
      let (v, committed, rest) = writing-eq-ok (S.failed_commit t) (S.commit t) _ h in
      let (same, is) = pure-eq-ok v u b a rest in (ap ok is, committed ∙ ap ok same)
  closed-eq-ok (err e) t u a h =
      let (v, r, undone, rest) = matched-eq-ok (rollback S t) (rolled_back e) h in
      absurd (rolled_back-ne-ok e r v u a rest)
  closed-eq-ok panic t u a h = absurd cc

  -- An operation that succeeds is committed.
  try_db_op-eq-ok :
      {A : Type 0} (action : Db Txn A) (t u : Txn) (a : A)
      → try_db_op S action t ≡ some (u, ok a)
      → (v : Txn) × (action t ≡ some (v, ok a)) × (S.commit v ≡ ok u)
  unfolding try_db_op
  try_db_op-eq-ok action t u a ran =
      let (v, r, did, rest) = matched-eq-ok (action t) (closed S) ran in
      let (is, committed) = closed-eq-ok r v u a rest in
      (v, did ∙ ap (λ o. some (v, o)) is, committed)

module _ (B : Backend) where
  open B use {world}
  open world use {platform, store, from_slice}
  open store use {Txn, lookup}

  -- An insertion through a collection that succeeds gives the `_id` of the document, with the one it is given where it
  -- has none. In the store that is committed the document stands under the key of the collection and its `_id`,
  -- whatever stood there before; the collection is found afterwards; and outside the indexes and the
  -- collection's own entry no other key has changed. All that this store holds is durable. The specification of the
  -- collection, where it has one, is taken to hold its name.
  pub try_db_op-insert_one :
      (D : Durability store) (name new_oid : Bytes) (doc : Document) (t u : Txn) (id : Bson)
      → ((s : CollectionSpecification) → read_spec B name t ≡ ok s → s._id ≡ name)
      → insert_one B name new_oid doc t ≡ some (u, ok id)
      → (key : Bytes) × (spec : CollectionSpecification) × (platform.get
            (fix_doc platform new_oid doc)
            (str "_id")
          ≡ some id)
        × (stacked_key (string name ∷ id ∷ []) ≡ ok key)
        × ((bytes : Bytes) × (lookup u key ≡ some bytes)
            × (from_slice bytes ≡ ok (fix_doc platform new_oid doc)))
        × (read_spec B name u ≡ ok spec)
        × ((j : Bytes)
            → str_eq key j ≡ false
            → str_eq (meta_bytes name) j ≡ false
            → starts_with j index_bytes ≡ false
            → lookup u j ≡ lookup t j)
        × ((j : Bytes) → D.durable u j ≡ lookup u j)
  unfolding insert_one
  try_db_op-insert_one D name new_oid doc t u id named ran =
      let (v, did, committed) =
        try_db_op-eq-ok store (Write.insert_one B name new_oid doc) t u id ran in
      let (key, spec, has_id, made, (bytes, there, read), found, others) =
        insert_one-Here B name new_oid doc t v id named did in
      let same = λ (j : Bytes). store.lookup-commit v u j committed in
      (
        key,
        spec,
        has_id,
        made,
        (bytes, same key ∙ there, read),
        read_spec_lem B name u
            ∙ ap (spec_of B name) (same (meta_bytes name))
            ∙ sym (read_spec_lem B name v)
            ∙ found,
        λ j other meta away. same j ∙ others j other meta away,
        λ j. D.durable-commit v u j committed ∙ sym (same j),
      )
