-- ===== src/Db/Collections/Laws.antt =====
-- What the specifications in the store are, by what stands under their keys.
use polo_db.Prelude.{
  ◌≡◌, refl, sym, ap, ◌∙◌, false, Bool-cases, Option, none, some, Option-cases, inl, inr, [], ◌∷◌,
  ◌++◌, if◌then◌else◌,
}
use polo_db.Prelude.Bytes.{Bytes, str, str_eq, str_eq_refl}
use polo_db.Errors.{Outcome, ok, err, panic, collection_not_found, collection_already_exits}
use polo_db.Bson.ElementType
use polo_db.Keys.{stacked_key}
use polo_db.Index.{CollectionSpecification}
use polo_db.Scan.{new_with_str_prefix, reset_by_pkey, reset_by_custom_key}
use polo_db.Store.Search.{exact, exact_iff, seek_stored}
use polo_db.Db.Backend.{Backend}
use polo_db.Db.Transaction.{
  continued, put, delete, raise, pure, ◌>>◌, continued-eq-ok, written-eq-ok,
}
use polo_db.Db.Collections.{
  meta_key, new_spec, read_spec, internal_get_collection_id_by_name, check_collection_exist,
  exist_result, update_collection_spec, internal_create_collection, delete_collection_meta,
}

-- The bytes behind "$TABLE_META" and those of a name.
abbrev pub meta_bytes : Bytes → Bytes
meta_bytes name =
    (ElementType.string ∷ (str "$TABLE_META" ++ 0 ∷ [])) ++ (ElementType.string ∷ (name ++ 0 ∷ []))

pub meta_key_lem : (name : Bytes) → meta_key name ≡ ok (meta_bytes name)
unfolding meta_key stacked_key
meta_key_lem name = refl

module _ (B : Backend) where
  open B use {world}
  open world use {store}
  open store use {Txn, lookup, seek}

  -- What is read of an entry.
  abbrev pub spec_of : Bytes → Option Bytes → Outcome CollectionSpecification
  spec_of name none = err (collection_not_found name)
  spec_of name (some bytes) = B.spec_from_slice bytes

  pub read_spec_lem :
      (name : Bytes) (t : Txn) → read_spec B name t ≡ spec_of name (lookup t (meta_bytes name))
  unfolding read_spec stacked_key
  read_spec_lem name t =
      let key = meta_bytes name in
      let to = (exact_iff store t key).0 in
      let (stored, seeks) = seek_stored store t key in
      elim (Option-cases (lookup t key)) [
        | inl gone ↦ elim (Bool-cases (exact store t key)) [
          | inl yes' ↦ absurd (stored (to yes') gone)
          | inr no' ↦ rw (no', gone)
        ]
        | inr (bytes, found) ↦
            let at = seeks (λ e. cc) in let e = (exact_iff store t key).1 at in rw (e, at, found)
      ]

  -- A specification that is written stands under its key, and every other key of the store is as it was.
  pub update_collection_spec_lem :
      (name : Bytes) (spec : CollectionSpecification) (t u : Txn)
      → update_collection_spec B name spec t ≡ some (u, ok tt)
      → (read_spec B name u ≡ ok spec)
        × ((j : Bytes) → str_eq (meta_bytes name) j ≡ false → lookup u j ≡ lookup t j)
  unfolding update_collection_spec put stacked_key
  update_collection_spec_lem name spec t u ran =
      let (t1, buffer, wrote, rest) = continued-eq-ok (some (t, B.spec_to_vec spec)) _ ran in
      let same : t ≡ t1 = cc in
      let encoded : B.spec_to_vec spec ≡ ok buffer = cc in
      let done : store.put t1 (meta_bytes name) buffer ≡ ok u = written-eq-ok t1 _ rest in
      let after = λ (j : Bytes). store.lookup-put t1 u (meta_bytes name) buffer j done in
      let here : lookup u (meta_bytes name) ≡ some buffer =
        rw (str_eq_refl (meta_bytes name)) at (after (meta_bytes name)) in
      (
        read_spec_lem name u
            ∙ ap (spec_of name) here
            ∙ B.spec_from_slice-to_vec spec buffer encoded,
        λ j other. rw other at (after j) ∙ ap (λ v. lookup v j) (sym same),
      )

  -- A collection is missing exactly if nothing stands under its key.
  pub missing_lem :
      (name n : Bytes) (t : Txn)
      → read_spec B name t ≡ err (collection_not_found n)
      → lookup t (meta_bytes name) ≡ none
  missing_lem name n t h = elim (Option-cases (lookup t (meta_bytes name))) [
    | inl gone ↦ gone
    | inr (bytes, found) ↦
        let e : B.spec_from_slice bytes ≡ err (collection_not_found n) =
          ap (spec_of name) (sym found) ∙ sym (read_spec_lem name t) ∙ h in
        let wrong = B.spec_from_slice-err bytes (collection_not_found n) e in absurd cc
  ]

  create_inner :
      (r : Outcome CollectionSpecification) (name : Bytes) (t u : Txn)
      (spec : CollectionSpecification)
      → continued (exist_result B r t) (λ exist.
        if exist
        then raise (collection_already_exits name)
        else (update_collection_spec B name (new_spec name) >> pure (new_spec name)))
        ≡ some (u, ok spec)
      → (n : Bytes) × (r ≡ err (collection_not_found n))
        × (spec ≡ new_spec name)
        × (update_collection_spec B name (new_spec name) t ≡ some (u, ok tt))
  create_inner (ok s) name t u spec ran = absurd cc
  create_inner (err (collection_not_found n)) name t u spec ran =
      let (t1, done, wrote, rest) =
        continued-eq-ok (update_collection_spec B name (new_spec name) t) _ ran in
      let moved : t1 ≡ u = cc in
      let made : new_spec name ≡ spec = cc in
      (n, refl, sym made, wrote ∙ ap (λ v. some (v, ok tt)) moved)
  create_inner (err e) name t u spec ran = absurd cc
  create_inner panic name t u spec ran = absurd cc

  create_parts :
      (name : Bytes) (t u : Txn) (spec : CollectionSpecification)
      → internal_create_collection B name t ≡ some (u, ok spec)
      → (n : Bytes) × (read_spec B name t ≡ err (collection_not_found n))
        × (spec ≡ new_spec name)
        × (update_collection_spec B name (new_spec name) t ≡ some (u, ok tt))
  unfolding internal_create_collection check_collection_exist internal_get_collection_id_by_name
  create_parts [] t u spec ran = absurd cc
  create_parts (c ∷ name) t u spec ran =
      create_inner (read_spec B (c ∷ name) t) (c ∷ name) t u spec ran

  -- A collection is created only where no specification stands under its name; then it is found, with no index,
  -- it cannot be created again, and every other key of the store is as it was.
  pub internal_create_collection_lem :
      (name : Bytes) (t u : Txn) (spec : CollectionSpecification)
      → internal_create_collection B name t ≡ some (u, ok spec)
      → (lookup t (meta_bytes name) ≡ none)
        × (spec ≡ new_spec name)
        × (internal_get_collection_id_by_name B name u ≡ some (u, ok spec))
        × (internal_create_collection B name u ≡ some (u, err (collection_already_exits name)))
        × ((j : Bytes) → str_eq (meta_bytes name) j ≡ false → lookup u j ≡ lookup t j)
  unfolding internal_create_collection check_collection_exist internal_get_collection_id_by_name
  internal_create_collection_lem [] t u spec ran = absurd cc
  internal_create_collection_lem (c ∷ rest) t u spec ran =
      let name = c ∷ rest in
      let (n, missing, made, wrote) = create_parts name t u spec ran in
      let (found, others) = update_collection_spec_lem name (new_spec name) t u wrote in
      (
        missing_lem name n t missing,
        made,
        ap (λ r. some (u, r)) (found ∙ ap ok (sym made)),
        ap
            (λ r. continued (exist_result B r u) (λ exist.
              if exist
              then raise (collection_already_exits name)
              else (update_collection_spec B name (new_spec name) >> pure (new_spec name))))
            found,
        others,
      )

  -- After the specification of a collection is deleted, the collection is not found.
  pub delete_collection_meta_lem :
      (name : Bytes) (t u : Txn)
      → delete_collection_meta B name t ≡ some (u, ok tt)
      → (lookup u (meta_bytes name) ≡ none)
        × ((j : Bytes) → str_eq (meta_bytes name) j ≡ false → lookup u j ≡ lookup t j)
  unfolding delete_collection_meta delete reset_by_pkey reset_by_custom_key new_with_str_prefix
      stacked_key
  delete_collection_meta_lem name t u ran =
      let key = meta_bytes name in
      elim (Bool-cases (exact store t key)) [
        | inl e ↦
            let at = (exact_iff store t key).0 e in
            let r = rw (e, at) at ran in
            let done : store.delete t key ≡ ok u = written-eq-ok t _ r in
            let after = λ (j : Bytes). store.lookup-delete t u key j done in
            (rw (str_eq_refl key) at (after key), λ j other. rw other at (after j))
        | inr e ↦
            let r = rw e at ran in
            let same : t ≡ u = cc in
            let none_there : lookup t key ≡ none = elim (Option-cases (lookup t key)) [
              | inl gone ↦ gone
              | inr (bytes, found) ↦
                  let at = (seek_stored store t key).1 (λ h. cc) in
                  let here = (exact_iff store t key).1 at in absurd cc
            ] in
            (
              ap (λ v. lookup v key) (sym same) ∙ none_there,
              λ j other. ap (λ v. lookup v j) (sym same),
            )
      ]
