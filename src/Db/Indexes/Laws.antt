-- ===== src/Db/Indexes/Laws.antt =====
-- What the creation and the removal of an index make of the specification of a collection.
use polo_db.Db.Indexes.Map.{get_index-shift_remove, get_index-insert_index, IsIndexMap}
use polo_db.Prelude.{
  ℕ, ◌≡◌, refl, sym, ap, ◌∙◌, Bool-cases, Option, none, some, Option-cases, ◌⊎◌, inl, inr, List, [],
  if◌then◌else◌,
}
use polo_db.Prelude.Int.{pos}
use polo_db.Prelude.Bytes.{Bytes, str_eq, str_eq_iff, starts_with}
use polo_db.Errors.{Outcome, ok, err, panic, collection_not_found}
use polo_db.Errors.Kept.{Kept, Done}
use polo_db.Bson.{Bson, Document, end, entry}
use polo_db.Index.{
  IndexInfo, IndexOptions, IndexHelperOperation, CollectionSpecification, single_index, build,
}
use polo_db.Index.Frame.{build-outside}
use polo_db.Db.Backend.{Backend}
use polo_db.Db.Names.{validate_col_name, make_index_name, is_num_1}
use polo_db.Db.Transaction.{continued-eq-ok, lift-eq-ok, pure-eq-ok}
use polo_db.Db.Collections.{
  new_spec, read_spec, update_collection_spec, internal_get_collection_id_by_name,
}
use polo_db.Db.Collections.Laws.{meta_bytes, spec_of, read_spec_lem, update_collection_spec_lem}
use polo_db.Db.Indexes.{
  IndexModel, get_index, insert_index, shift_remove, build_index, spec_or_new, add_index,
  create_single_index, with_single_key, internal_create_index, create_index, remove_index, dropped,
  drop_index,
}

abbrev pub indexes_of : Outcome CollectionSpecification → List (Bytes × IndexInfo)
indexes_of (ok spec) = spec.indexes
indexes_of _ = []

abbrev pub kept : Option IndexInfo → IndexInfo → IndexInfo
kept none info = info
kept (some old) info = old

some-Done : {T : Type 0} (kept : Kept T) (u : T) → some kept ≡ some (u, ok tt) → Done kept u
some-Done (v, r) u h = ap (λ o. elim o [ none ↦ (v, r) | some kept ↦ kept ]) h

module _ (B : Backend) (fuel : ℕ) where
  open B use {world}
  open world use {platform, store, from_slice}
  open store use {Txn, lookup}

  -- The loop of the index builder leaves the specification.
  build-spec :
      (op : IndexHelperOperation) (name index_name : Bytes) (info : IndexInfo) (t u : Txn)
      → build_index B fuel op name index_name info t ≡ some (u, ok tt)
      → read_spec B name u ≡ read_spec B name t
  unfolding build_index starts_with
  build-spec op name index_name info t u ran =
      let built =
        some-Done (build platform store from_slice fuel op name index_name info t) u ran in
      read_spec_lem B name u
      ∙ ap (spec_of B name) (
          build-outside platform store from_slice op name index_name info (meta_bytes name) refl
            fuel t u built)
      ∙ sym (read_spec_lem B name t)

  add_index-spec :
      (name index_name : Bytes) (info : IndexInfo) (spec : CollectionSpecification) (t u : Txn)
      → add_index B fuel name index_name info spec t ≡ some (u, ok tt)
      → read_spec B name u
        ≡ ok (record spec { indexes = insert_index index_name info spec.indexes })
  add_index-spec name index_name info spec t u ran =
      let next = record spec { indexes = insert_index index_name info spec.indexes } in
      let (v, done, wrote, rest) = continued-eq-ok (update_collection_spec B name next t) _ ran in
      build-spec IndexHelperOperation.insert name index_name info v u rest
      ∙ (update_collection_spec_lem B name next t v wrote).0

  spec_or_new-eq-ok :
      (name : Bytes) (r : Outcome CollectionSpecification) (t v : Txn)
      (spec : CollectionSpecification)
      → spec_or_new B fuel name r t ≡ some (v, ok spec)
      → (t ≡ v) × (indexes_of r ≡ spec.indexes) × ((r ≡ ok spec) ⊎ (spec.indexes ≡ []))
  spec_or_new-eq-ok name (ok s) t v spec ran =
      let (same, is) = pure-eq-ok t v s spec ran in (same, ap (λ x. x.indexes) is, inl (ap ok is))
  spec_or_new-eq-ok name (err (collection_not_found _)) t v spec ran =
      let (same, is) = pure-eq-ok t v (new_spec name) spec ran in
      (same, ap (λ x. x.indexes) is, inr (ap (λ x. x.indexes) (sym is)))
  spec_or_new-eq-ok name (err e) t v spec ran = absurd cc
  spec_or_new-eq-ok name panic t v spec ran = absurd cc

  -- The indexes behind a creation, name by name.
  abbrev pub Created : Bytes → IndexInfo → Txn → Txn → Bytes → Type 0
  Created name info t u index_name =
      (spec : CollectionSpecification) × (read_spec B name u ≡ ok spec)
      × ((j : Bytes)
          → get_index j spec.indexes ≡ (
              if str_eq index_name j
              then some (kept (get_index index_name (indexes_of (read_spec B name t))) info)
              else get_index j (indexes_of (read_spec B name t))))

  fresh-Created :
      (name index_name : Bytes) (info : IndexInfo) (spec : CollectionSpecification) (t u : Txn)
      → indexes_of (read_spec B name t) ≡ spec.indexes
      → get_index index_name spec.indexes ≡ none
      → add_index B fuel name index_name info spec t ≡ some (u, ok tt)
      → Created name info t u index_name
  fresh-Created name index_name info spec t u same fresh ran = (
    record spec { indexes = insert_index index_name info spec.indexes },
    add_index-spec name index_name info spec t u ran,
    λ j. get_index-insert_index index_name info spec.indexes j ∙ (rw (same, fresh) refl),
  )

  there-Created :
      (name index_name : Bytes) (info old : IndexInfo) (spec : CollectionSpecification) (t u : Txn)
      → read_spec B name t ≡ ok spec
      → get_index index_name spec.indexes ≡ some old
      → t ≡ u
      → Created name info t u index_name
  there-Created name index_name info old spec t u found there same = (
    spec,
    ap (read_spec B name) (sym same) ∙ found,
    λ j. elim (Bool-cases (str_eq index_name j)) [
      | inl e ↦
          rw (found, e, there)
            (ap (λ k. get_index k spec.indexes) (sym ((str_eq_iff index_name j).0 e)) ∙ there)
      | inr e ↦ rw (found, e) refl
    ],
  )

  create_single_index-Created :
      (name key : Bytes) (order : Bson) (options : Option IndexOptions) (t u : Txn)
      → create_single_index B fuel name key order options t ≡ some (u, ok tt)
      → (index_name : Bytes) × (make_index_name key (pos 1) options ≡ ok index_name)
        × Created name (single_index key (pos 1) options) t u index_name
  unfolding create_single_index internal_get_collection_id_by_name get_index
  create_single_index-Created name key order options t u ran = elim (Bool-cases (is_num_1 order)) [
    | inr e ↦ let wrong = rw e at ran in absurd cc
    | inl e ↦
        let info = single_index key (pos 1) options in
        let (index_name, made, ran1) =
          lift-eq-ok t (make_index_name key (pos 1) options) _ (rw e at ran) in
        let (v, spec, got, ran2) =
          continued-eq-ok (spec_or_new B fuel name (read_spec B name t) t) _ ran1 in
        let (here, same, known) = spec_or_new-eq-ok name (read_spec B name t) t v spec got in
        (
          index_name,
          made,
          elim (Option-cases (get_index index_name spec.indexes)) [
            | inl f ↦
                fresh-Created name index_name info spec t u same f
                  (ap (add_index B fuel name index_name info spec) here ∙ (rw f at ran2))
            | inr (old, f) ↦
                let (last, _) = pure-eq-ok v u tt tt (rw f at ran2) in
                elim known [
                  | inl found ↦
                      there-Created name index_name info old spec t u found f (here ∙ last)
                  | inr empty ↦ let wrong = ap (get_index index_name) (sym empty) ∙ f in absurd cc
                ]
          ],
        )
  ]

  single_key-Created :
      (name : Bytes) (keys : Document) (options : Option IndexOptions) (t u : Txn)
      → with_single_key B fuel keys
          (λ key value. create_single_index B fuel name key value options)
          t
        ≡ some (u, ok tt)
      → (key : Bytes) × (order : Bson) × (index_name : Bytes) × (keys ≡ entry key order end)
        × (make_index_name key (pos 1) options ≡ ok index_name)
        × Created name (single_index key (pos 1) options) t u index_name
  single_key-Created name end options t u ran = absurd cc
  single_key-Created name (entry key order end) options t u ran =
      let (index_name, made, created) =
        create_single_index-Created name key order options t u ran in
      (key, order, index_name, refl, made, created)
  single_key-Created name (entry _ _ (entry _ _ _)) options t u ran = absurd cc

  -- The creation of an index that succeeds is one on a single key. Afterwards the collection, which it creates where it
  -- is missing, has the index under its name: the one that stood there before, or else the new one; and its other
  -- indexes are as they were.
  pub create_index-Created :
      (name : Bytes) (index : IndexModel) (t u : Txn)
      → create_index B fuel name index t ≡ some (u, ok tt)
      → (key : Bytes) × (order : Bson) × (index_name : Bytes) × (index.keys ≡ entry key order end)
        × (make_index_name key (pos 1) index.options ≡ ok index_name)
        × Created name (single_index key (pos 1) index.options) t u index_name
  unfolding create_index internal_create_index
  create_index-Created name index t u ran =
      let (legal, valid, ran1) = lift-eq-ok t (validate_col_name name) _ ran in
      single_key-Created name index.keys index.options t u ran1

  removed_lem :
      (name index_name : Bytes) (spec : CollectionSpecification) (found : Option IndexInfo)
      (t u : Txn)
      → IsIndexMap spec.indexes
      → read_spec B name t ≡ ok spec
      → get_index index_name spec.indexes ≡ found
      → remove_index B fuel name index_name spec found t ≡ some (u, ok tt)
      → (next : CollectionSpecification) × (read_spec B name u ≡ ok next)
        × ((j : Bytes)
            → get_index j next.indexes
              ≡ (if str_eq index_name j then none else get_index j spec.indexes))
  removed_lem name index_name spec none t u distinct read missing ran =
      let (same, _) = pure-eq-ok t u tt tt ran in
      (
        spec,
        ap (read_spec B name) (sym same) ∙ read,
        λ j. elim (Bool-cases (str_eq index_name j)) [
          | inl e ↦
              rw e
                (ap (λ k. get_index k spec.indexes) (sym ((str_eq_iff index_name j).0 e)) ∙ missing)
          | inr e ↦ rw e refl
        ],
      )
  removed_lem name index_name spec (some info) t u distinct read there ran =
      let next = record spec { indexes = shift_remove index_name spec.indexes } in
      let (v, done, built, rest) =
        continued-eq-ok (build_index B fuel IndexHelperOperation.delete name index_name info t) _
          ran in
      (
        next,
        (update_collection_spec_lem B name next v u rest).0,
        λ j. get_index-shift_remove index_name spec.indexes j distinct,
      )

  -- After an index is dropped, its collection has no index of this name, and its other indexes are as they were.
  pub drop_index-get_index :
      (name index_name : Bytes) (spec : CollectionSpecification) (t u : Txn)
      → IsIndexMap spec.indexes
      → read_spec B name t ≡ ok spec
      → drop_index B fuel name index_name t ≡ some (u, ok tt)
      → (next : CollectionSpecification) × (read_spec B name u ≡ ok next)
        × ((j : Bytes)
            → get_index j next.indexes
              ≡ (if str_eq index_name j then none else get_index j spec.indexes))
  unfolding drop_index internal_get_collection_id_by_name
  drop_index-get_index name index_name spec t u distinct read ran =
      let (legal, valid, ran1) = lift-eq-ok t (validate_col_name name) _ ran in
      let found = ap (λ r. dropped B fuel name index_name r t) (sym read) ∙ ran1 in
      removed_lem name index_name spec (get_index index_name spec.indexes) t u distinct read refl
        found
