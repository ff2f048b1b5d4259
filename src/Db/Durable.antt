-- ===== src/Db/Durable.antt =====
-- The insertions of src/polodb_core/db/db_inner.rs and what is durable.
pub mod IndexWrites
pub mod Programs
use polo_db.Prelude.{
  arith, ℕ, zero, suc, ◌==◌, ◌≡◌, refl, ◌∙◌, Bool, true, false, ◌&&◌, Option, Option-cases,
  Bool-cases, inl, inr, none, some, List, [], ◌∷◌, if◌then◌else◌,
}
use polo_db.Prelude.Bytes.{Bytes, str}
use polo_db.Errors.{
  Outcome, ok, err, panic, unwrap, On, On->>=, On-chain, On-cond, collection_not_found,
}
use polo_db.Bson.{Bson, Document, string}
use polo_db.Index.{
  IndexInfo, IndexHelperOperation, CollectionSpecification, try_execute_with_index_info,
}
use polo_db.Index.Durable.{
  Quiet, put-Quiet, delete-Quiet, try_execute_with_index_info-Quiet, build-Quiet,
}
use polo_db.Keys.{stacked_key}
use polo_db.Store.{Store}
use polo_db.Store.Durable.{Durability}
use polo_db.Db.Backend.{Backend}
use polo_db.Db.Transaction.{Db, continued, matched, put, delete}
use polo_db.Errors.Kept.{written}
use polo_db.Db.Names.{validate_col_name, fix_doc}
use polo_db.Db.Collections.{
  meta_key, read_spec, internal_get_collection_id_by_name, check_collection_exist, exist_result,
  update_collection_spec, internal_create_collection, meta_result,
  get_collection_meta_by_name_advanced, delete_collection_meta, new_spec,
}
use polo_db.Db.Write.{
  insert_indexes, try_insert_index, insert_one_with_meta, insert_one_internal, insert_one,
  insert_each, insert_many,
}

module _ (S : Store) (D : Durability S) where
  open S use {Txn}

  -- What is durable behind an operation, whatever its outcome, is as before.
  abbrev pub After : {A : Type 0} → Txn → Option (Txn × Outcome A) → Type 0
  After t none = Unit
  After t (some (u, r)) = Quiet S D t u

  pub After-trans :
      {A : Type 0} (t u : Txn) (res : Option (Txn × Outcome A))
      → Quiet S D t u
      → After u res
      → After t res
  After-trans t u none q h = tt
  After-trans t u (some (v, r)) q h = λ j. h j ∙ q j

  pub After-continued :
      {A B : Type 0} (t : Txn) (res : Option (Txn × Outcome A)) (next : A → Db Txn B)
      → After t res
      → ((a : A) (u : Txn) → After u (next a u))
      → After t (continued res next)
  After-continued t none next q h = tt
  After-continued t (some (u, ok a)) next q h = After-trans t u (next a u) q (h a u)
  After-continued t (some (u, err e)) next q h = q
  After-continued t (some (u, panic)) next q h = q

  pub After-lift :
      {A B : Type 0} (t : Txn) (r : Outcome A) (next : A → Db Txn B)
      → ((a : A) → After t (next a t))
      → After t (continued (some (t, r)) next)
  After-lift t (ok a) next h = h a
  After-lift t (err e) next h = λ j. refl
  After-lift t panic next h = λ j. refl

  pub After-matched :
      {A B : Type 0} (t : Txn) (res : Option (Txn × Outcome A)) (next : Outcome A → Db Txn B)
      → After t res
      → ((r : Outcome A) (u : Txn) → After u (next r u))
      → After t (matched res next)
  After-matched t none next q h = tt
  After-matched t (some (u, r)) next q h = After-trans t u (next r u) q (h r u)

  pub After-written :
      (t : Txn) (o : Outcome Txn) → On (Quiet S D t) o → After t (some (written t o))
  After-written t (ok u) q = q
  After-written t (err e) q = λ j. refl
  After-written t panic q = λ j. refl

  pub After-cond :
      {A : Type 0} (t : Txn) (b : Bool) (x y : Option (Txn × Outcome A))
      → After t x
      → After t y
      → After t (if b then x else y)
  After-cond t true x y h k = h
  After-cond t false x y h k = k

module _ (B : Backend) (D : Durability B.world.store) where
  open B use {world}
  open world use {platform, store}
  open store use {Txn}

  pub update_collection_spec-After :
      (name : Bytes) (spec : CollectionSpecification) (t : Txn)
      → After store D t (update_collection_spec B name spec t)
  unfolding update_collection_spec put
  update_collection_spec-After name spec t = After-lift store D t (meta_key name) _ λ key.
      After-lift store D t (B.spec_to_vec spec) _
        λ buffer. After-written store D t (store.put t key buffer) (put-Quiet store D t key buffer)

  exist_result-After :
      (r : Outcome CollectionSpecification) (t : Txn) → After store D t (exist_result B r t)
  exist_result-After (ok _) t = λ j. refl
  exist_result-After (err e) t = ground arith
  exist_result-After panic t = λ j. refl

  internal_create_collection-After :
      (name : Bytes) (t : Txn) → After store D t (internal_create_collection B name t)
  unfolding internal_create_collection check_collection_exist internal_get_collection_id_by_name
  internal_create_collection-After [] t = λ j. refl
  internal_create_collection-After (c ∷ name) t =
      let r = read_spec B (c ∷ name) t in
      After-continued store D t (exist_result B r t) _ (exist_result-After r t) λ exist u.
        elim (Bool-cases exist) [
          | inl e ↦ rw e (λ j. refl)
          | inr e ↦ rw e (
              After-continued store D u
                (update_collection_spec B (c ∷ name) (new_spec (c ∷ name)) u) _
                (update_collection_spec-After (c ∷ name) (new_spec (c ∷ name)) u) λ _ v. λ j. refl)
        ]

  meta_result-After :
      (name : Bytes) (create : Bool) (r : Outcome CollectionSpecification) (t : Txn)
      → After store D t (meta_result B name create r t)
  meta_result-After name create (ok meta) t = λ j. refl
  meta_result-After name create panic t = λ j. refl
  meta_result-After name true (err (collection_not_found _)) t =
      After-continued store D t (internal_create_collection B name t) _
        (internal_create_collection-After name t) λ meta u j. refl
  meta_result-After name false (err (collection_not_found _)) t = λ j. refl
  meta_result-After name create (err e) t = λ j. refl

  pub get_collection_meta_by_name_advanced-After :
      (name : Bytes) (create : Bool) (t : Txn)
      → After store D t (get_collection_meta_by_name_advanced B name create t)
  unfolding get_collection_meta_by_name_advanced internal_get_collection_id_by_name
  get_collection_meta_by_name_advanced-After name create t =
      meta_result-After name create (read_spec B name t) t

  insert_indexes-After :
      (doc : Document) (col_name : Bytes) (pkey : Bson) (indexes : List (Bytes × IndexInfo))
      (t : Txn)
      → After store D t (insert_indexes B doc col_name pkey indexes t)
  unfolding insert_indexes
  insert_indexes-After doc col_name pkey [] t = λ j. refl
  insert_indexes-After doc col_name pkey ((index_name, info) ∷ indexes) t =
      let o =
        try_execute_with_index_info platform store IndexHelperOperation.insert doc col_name pkey
          index_name info t in
      After-continued store D t (some (written t o)) _
        (After-written store D t o (
          try_execute_with_index_info-Quiet store D platform IndexHelperOperation.insert doc
            col_name pkey index_name info t))
        λ _ u. insert_indexes-After doc col_name pkey indexes u

  pub insert_one_with_meta-After :
      (spec : CollectionSpecification) (new_oid : Bytes) (doc : Document) (t : Txn)
      → After store D t (insert_one_with_meta B spec new_oid doc t)
  unfolding insert_one_with_meta try_insert_index put
  insert_one_with_meta-After spec new_oid doc t =
      let fixed = fix_doc platform new_oid doc in
      After-lift store D t (unwrap (platform.get fixed (str "_id"))) _ λ pkey.
        After-lift store D t (stacked_key (string spec._id ∷ pkey ∷ [])) _ λ key.
          After-lift store D t (world.to_vec fixed) _ λ bytes.
            After-continued store D t (some (written t (store.put t key bytes))) _
              (After-written store D t (store.put t key bytes) (put-Quiet store D t key bytes))
              λ _ u.
                After-continued store D u (insert_indexes B fixed spec._id pkey spec.indexes u) _
                  (insert_indexes-After fixed spec._id pkey spec.indexes u) λ _ v j. refl

  pub insert_one_internal-After :
      (name new_oid : Bytes) (doc : Document) (t : Txn)
      → After store D t (insert_one_internal B name new_oid doc t)
  unfolding insert_one_internal
  insert_one_internal-After name new_oid doc t =
      After-continued store D t (get_collection_meta_by_name_advanced B name true t) _
        (get_collection_meta_by_name_advanced-After name true t)
        λ meta u.
          After-lift store D u (unwrap meta) _ λ spec. insert_one_with_meta-After spec new_oid doc u

  pub insert_one-After :
      (name new_oid : Bytes) (doc : Document) (t : Txn)
      → After store D t (insert_one B name new_oid doc t)
  unfolding insert_one
  insert_one-After name new_oid doc t =
      After-lift store D t (validate_col_name name) _
        λ _. insert_one_internal-After name new_oid doc t

  insert_each-After :
      (spec : CollectionSpecification) (new_oid : ℕ → Bytes) (counter : ℕ)
      (docs : List (Outcome Document)) (t : Txn)
      → After store D t (insert_each B spec new_oid counter docs t)
  unfolding insert_each
  insert_each-After spec new_oid counter [] t = λ j. refl
  insert_each-After spec new_oid counter (item ∷ items) t = After-lift store D t item _ λ doc.
      After-continued store D t (insert_one_with_meta B spec (new_oid counter) doc t) _
        (insert_one_with_meta-After spec (new_oid counter) doc t)
        λ id u.
          After-continued store D u (insert_each B spec new_oid (suc counter) items u) _
            (insert_each-After spec new_oid (suc counter) items u) λ _ v j. refl

  pub insert_many-After :
      (name : Bytes) (new_oid : ℕ → Bytes) (docs : List (Outcome Document)) (t : Txn)
      → After store D t (insert_many B name new_oid docs t)
  unfolding insert_many
  insert_many-After name new_oid docs t = After-lift store D t (validate_col_name name) _ λ _.
      After-continued store D t (get_collection_meta_by_name_advanced B name true t) _
        (get_collection_meta_by_name_advanced-After name true t)
        λ meta u.
          After-lift store D u (unwrap meta) _ λ spec. insert_each-After spec new_oid 0 docs u
