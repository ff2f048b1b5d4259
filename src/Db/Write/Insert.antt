-- ===== src/Db/Write/Insert.antt =====
-- What an insertion leaves in the store.
use polo_db.Db.Write.Frame.{document_key-outside, insert_indexes-outside, document_key-meta}
use mathlib.Core.Path.{ap₂}
use polo_db.Prelude.{
  ◌≡◌, refl, sym, ap, ◌∙◌, true, false, Option, some, ◌⊎◌, inl, inr, List, [], ◌∷◌,
}
use polo_db.Prelude.Bytes.{Bytes, str, str_eq, str_eq_refl, starts_with}
use polo_db.Errors.{Outcome, Error, ok, err, panic, unwrap, unwrap-some, collection_not_found}
use polo_db.Bson.{Bson, Document, string}
use polo_db.Keys.{stacked_key}
use polo_db.Index.{IndexInfo, CollectionSpecification}
use polo_db.Index.Frame.{index_bytes}
use polo_db.Db.Backend.{Backend}
use polo_db.Db.Names.{validate_col_name, fix_doc}
use polo_db.Db.Transaction.{
  continued-eq-ok, lift-eq-ok, writing-eq-ok, pure-eq-ok, reading-eq-ok, put,
}
use polo_db.Db.Collections.{
  read_spec, meta_result, get_collection_meta_by_name_advanced, internal_create_collection,
  internal_get_collection_id_by_name,
}
use polo_db.Db.Collections.Laws.{meta_bytes, spec_of, read_spec_lem, internal_create_collection_lem}
use polo_db.Db.Write.{
  insert_indexes, try_insert_index, insert_one_with_meta, insert_one_internal, insert_one,
}

module _ (B : Backend) where
  open B use {world}
  open world use {platform, store, to_vec, from_slice}
  open store use {Txn, lookup}

  -- The document stands under the key, and is read back.
  abbrev pub Here : Txn → Bytes → Document → Type 0
  Here u key doc = (bytes : Bytes) × (lookup u key ≡ some bytes) × (from_slice bytes ≡ ok doc)

  -- Outside the indexes nothing else is written.
  abbrev Stored : Txn → Txn → Bytes → Document → Type 0
  Stored t u key doc =
      Here u key doc
      × ((j : Bytes)
          → str_eq key j ≡ false
          → starts_with j index_bytes ≡ false
          → lookup u j ≡ lookup t j)

  stored :
      (name key bytes : Bytes) (id : Bson) (doc : Document) (indexes : List (Bytes × IndexInfo))
      (t v u : Txn) (r : Outcome (Unit {0}))
      → stacked_key (string name ∷ id ∷ []) ≡ ok key
      → validate_col_name name ≡ ok tt
      → to_vec doc ≡ ok bytes
      → store.put t key bytes ≡ ok v
      → insert_indexes B doc name id indexes v ≡ some (u, r)
      → Stored t u key doc
  stored name key bytes id doc indexes t v u r made valid encoded wrote entries =
      let after = λ (j : Bytes). store.lookup-put t v key bytes j wrote in
      let frame = λ (j : Bytes) (outside : starts_with j index_bytes ≡ false).
        insert_indexes-outside B doc name id indexes v u r j entries outside in
      let outside = document_key-outside name id key valid made in
      (
        (
          bytes,
          frame key outside ∙ (rw (str_eq_refl key) at (after key)),
          B.from_slice-to_vec doc bytes encoded,
        ),
        λ j other away. frame j away ∙ (rw other at (after j)),
      )

  pub insert_one_with_meta_lem :
      (spec : CollectionSpecification) (name new_oid : Bytes) (doc : Document) (t u : Txn)
      (id : Bson)
      → validate_col_name name ≡ ok tt
      → spec._id ≡ name
      → insert_one_with_meta B spec new_oid doc t ≡ some (u, ok id)
      → (key : Bytes) × (platform.get (fix_doc platform new_oid doc) (str "_id") ≡ some id)
        × (stacked_key (string name ∷ id ∷ []) ≡ ok key)
        × Stored t u key (fix_doc platform new_oid doc)
  unfolding insert_one_with_meta try_insert_index put
  insert_one_with_meta_lem spec name new_oid doc t u id valid named ran =
      let fixed = fix_doc platform new_oid doc in
      let (pkey, has_id, ran1) = lift-eq-ok t (unwrap (platform.get fixed (str "_id"))) _ ran in
      let (key, made, ran2) = lift-eq-ok t (stacked_key (string spec._id ∷ pkey ∷ [])) _ ran1 in
      let (bytes, encoded, ran3) = lift-eq-ok t (to_vec fixed) _ ran2 in
      let (v, wrote, ran4) = writing-eq-ok t (store.put t key bytes) _ ran3 in
      let (w, indexed, entries, ran5) =
        continued-eq-ok (insert_indexes B fixed spec._id pkey spec.indexes v) _ ran4 in
      let (last, same_id) = pure-eq-ok w u pkey id ran5 in
      let made' = ap₂ (λ n i. stacked_key (string n ∷ i ∷ [])) (sym named) (sym same_id) ∙ made in
      let entries' =
        ap₂ (λ n i. insert_indexes B fixed n i spec.indexes v) (sym named) (sym same_id)
        ∙ entries
        ∙ ap (λ x. some (x, ok tt)) last in
      (
        key,
        unwrap-some _ _ has_id ∙ ap some same_id,
        made',
        stored name key bytes id fixed spec.indexes t v u (ok tt) made' valid encoded wrote
            entries',
      )

  -- The specification that an insertion goes by, and the transaction behind it.
  abbrev Provided : Bytes → Txn → Txn → CollectionSpecification → Type 0
  Provided name t v spec =
      ((read_spec B name t ≡ ok spec) × (t ≡ v))
      ⊎ (internal_create_collection B name t ≡ some (v, ok spec))

  provided :
      (r : Outcome CollectionSpecification) (name : Bytes) (t v : Txn)
      (m : Option CollectionSpecification) (s : CollectionSpecification)
      → read_spec B name t ≡ r
      → meta_result B name true r t ≡ some (v, ok m)
      → unwrap m ≡ ok s
      → Provided name t v s
  provided (ok spec) name t v m s found ran has =
      let (same, is) = pure-eq-ok t v (some spec) m ran in inl (found ∙ ap unwrap is ∙ has, same)
  provided (err (collection_not_found n)) name t v m s found ran has =
      let (w, spec, made, rest) = continued-eq-ok (internal_create_collection B name t) _ ran in
      let (same, is) = pure-eq-ok w v (some spec) m rest in
      inr (made ∙ ap (λ x. some (x, ok spec)) same ∙ ap (λ r. some (v, r)) (ap unwrap is ∙ has))
  provided (err e) name t v m s found ran has = absurd cc
  provided panic name t v m s found ran has = absurd cc

  Provided-frame :
      (name : Bytes) (t v : Txn) (spec : CollectionSpecification)
      → ((s : CollectionSpecification) → read_spec B name t ≡ ok s → s._id ≡ name)
      → Provided name t v spec
      → (spec._id ≡ name)
        × (read_spec B name v ≡ ok spec)
        × ((j : Bytes) → str_eq (meta_bytes name) j ≡ false → lookup v j ≡ lookup t j)
  unfolding internal_get_collection_id_by_name
  Provided-frame name t v spec named (inl (found, same)) = (
    named spec found,
    ap (read_spec B name) (sym same) ∙ found,
    λ j other. ap (λ x. lookup x j) (sym same),
  )
  Provided-frame name t v spec named (inr made) =
      let (gone, is, found, again, others) = internal_create_collection_lem B name t v spec made in
      (ap (λ s. s._id) is, reading-eq-ok v v _ spec found, others)

  -- An insertion that succeeds gives the `_id` of the document, with the one it is given where it has none. The
  -- document stands under the key of the collection and its `_id`, whatever stood there before; the collection
  -- is found afterwards; and outside the indexes and the collection's own entry, no other key has changed.
  pub insert_one-Here :
      (name new_oid : Bytes) (doc : Document) (t u : Txn) (id : Bson)
      → ((s : CollectionSpecification) → read_spec B name t ≡ ok s → s._id ≡ name)
      → insert_one B name new_oid doc t ≡ some (u, ok id)
      → (key : Bytes) × (spec : CollectionSpecification) × (platform.get
            (fix_doc platform new_oid doc)
            (str "_id")
          ≡ some id)
        × (stacked_key (string name ∷ id ∷ []) ≡ ok key)
        × Here u key (fix_doc platform new_oid doc)
        × (read_spec B name u ≡ ok spec)
        × ((j : Bytes)
            → str_eq key j ≡ false
            → str_eq (meta_bytes name) j ≡ false
            → starts_with j index_bytes ≡ false
            → lookup u j ≡ lookup t j)
  unfolding insert_one insert_one_internal get_collection_meta_by_name_advanced
      internal_get_collection_id_by_name starts_with
  insert_one-Here name new_oid doc t u id named ran =
      let (legal, valid, ran1) = lift-eq-ok t (validate_col_name name) _ ran in
      let (v, m, got, ran2) =
        continued-eq-ok (meta_result B name true (read_spec B name t) t) _ ran1 in
      let (s, unwrapped, ran3) = lift-eq-ok v (unwrap m) _ ran2 in
      let by = provided (read_spec B name t) name t v m s refl got unwrapped in
      let (its_name, found, others) = Provided-frame name t v s named by in
      let (key, has_id, made, (here, frame)) =
        insert_one_with_meta_lem s name new_oid doc v u id valid its_name ran3 in
      let still = frame (meta_bytes name) (document_key-meta name id key valid made) refl in
      (
        key,
        s,
        has_id,
        made,
        here,
        read_spec_lem B name u ∙ ap (spec_of B name) still ∙ sym (read_spec_lem B name v) ∙ found,
        λ j other meta away. frame j other away ∙ others j meta,
      )

  -- An insertion that an index refuses fails with that error, and leaves the document in the transaction: a
  -- transaction that is committed afterwards keeps it.
  pub insert_one_with_meta-refused :
      (spec : CollectionSpecification) (new_oid : Bytes) (doc : Document) (t v u : Txn) (id : Bson)
      (key bytes : Bytes) (e : Error)
      → validate_col_name spec._id ≡ ok tt
      → platform.get (fix_doc platform new_oid doc) (str "_id") ≡ some id
      → stacked_key (string spec._id ∷ id ∷ []) ≡ ok key
      → to_vec (fix_doc platform new_oid doc) ≡ ok bytes
      → store.put t key bytes ≡ ok v
      → try_insert_index B spec (fix_doc platform new_oid doc) id v ≡ some (u, err e)
      → (insert_one_with_meta B spec new_oid doc t ≡ some (u, err e))
        × Here u key (fix_doc platform new_oid doc)
  unfolding insert_one_with_meta try_insert_index put
  insert_one_with_meta-refused spec new_oid doc t v u id key bytes e valid has made encoded wrote
        refused =
      (
        rw (has, made, encoded, wrote, refused),
        (stored spec._id key bytes id (fix_doc platform new_oid doc) spec.indexes t v u (err e) made
            valid encoded wrote refused).0,
      )
