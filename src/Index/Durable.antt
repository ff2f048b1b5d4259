-- ===== src/Index/Durable.antt =====
-- The writes of src/polodb_core/index and what is durable.
use polo_db.Prelude.{
  inl, inr, Bool-cases, ℕ, zero, suc, ◌≡◌, refl, ◌∙◌, Option, none, some, List, [], ◌∷◌,
  if◌then◌else◌,
}
use polo_db.Prelude.Bytes.{Bytes, str}
use polo_db.Errors.{Outcome, ok, err, panic, unwrap, ◌>>=◌, On, On->>, On->>=}
use polo_db.Errors.Kept.{written, given-kept, behind-kept, written-kept}
use polo_db.Bson.{Bson, Document}
use polo_db.Bson.Platform.{Platform}
use polo_db.FieldPath.{try_get_document_value}
use polo_db.Index.{
  IndexInfo, IndexHelperOperation, is_unique, make_index_key, check_unique_key, write_entry,
  write_value, try_execute_with_index_info, execute_indexes, execute_index_item, build_loop, build,
}
use polo_db.Scan.{Cursor, has_next, copy_data, next, reset, new_with_str_prefix}
use polo_db.Store.{Store}
use polo_db.Store.Durable.{Durability}

module _ (S : Store) (D : Durability S) where
  open S use {Txn}
  open D use {durable}

  -- What is durable is as before.
  abbrev pub Quiet : Txn → Txn → Type 0
  Quiet t u = (j : Bytes) → durable u j ≡ durable t j

  pub written-Quiet :
      (t : Txn) (o : Outcome Txn) → ((u : Txn) → o ≡ ok u → Quiet t u) → On (Quiet t) o
  written-Quiet t (ok u) h = h u refl
  written-Quiet t (err e) h = tt
  written-Quiet t panic h = tt

  pub put-Quiet : (t : Txn) (k v : Bytes) → On (Quiet t) (S.put t k v)
  put-Quiet t k v = written-Quiet t (S.put t k v) (λ u e j. D.durable-put t u k v j e)

  pub delete-Quiet : (t : Txn) (k : Bytes) → On (Quiet t) (S.delete t k)
  delete-Quiet t k = written-Quiet t (S.delete t k) (λ u e j. D.durable-delete t u k j e)

  write_entry-Quiet :
      (op : IndexHelperOperation) (t : Txn) (key : Bytes) → On (Quiet t) (write_entry S op t key)
  unfolding write_entry
  write_entry-Quiet IndexHelperOperation.insert t key = put-Quiet t key _
  write_entry-Quiet IndexHelperOperation.delete t key = delete-Quiet t key

  write_value-Quiet :
      (op : IndexHelperOperation) (value : Option Bson) (col_name : Bytes) (pkey : Bson)
      (index_name : Bytes) (info : IndexInfo) (t : Txn)
      → On (Quiet t) (write_value S op value col_name pkey index_name info t)
  unfolding write_value
  write_value-Quiet op none col_name pkey index_name info t = λ j. refl
  write_value-Quiet op (some value) col_name pkey index_name info t =
      let made = make_index_key col_name index_name value (some pkey) in
      On->> (Quiet t)
        (if is_unique info then check_unique_key S t col_name index_name value else ok tt)
        (made >>= λ key. write_entry S op t key)
        (On->>= (Quiet t) made _ (λ key. write_entry-Quiet op t key))

  module _ (P : Platform) (op : IndexHelperOperation) where
    pub try_execute_with_index_info-Quiet :
        (doc : Document) (col_name : Bytes) (pkey : Bson) (index_name : Bytes) (info : IndexInfo)
        (t : Txn)
        → On (Quiet t) (try_execute_with_index_info P S op doc col_name pkey index_name info t)
    unfolding try_execute_with_index_info
    try_execute_with_index_info-Quiet doc col_name pkey index_name info t =
        On->>= (Quiet t) _ _ (λ path.
          write_value-Quiet op (try_get_document_value P doc path) col_name pkey index_name info t)

    pub execute_indexes-Quiet :
        (doc : Document) (col_name : Bytes) (pkey : Bson) (indexes : List (Bytes × IndexInfo))
        (t : Txn)
        → Quiet t (execute_indexes P S op doc col_name pkey indexes t).0
    unfolding execute_indexes
    execute_indexes-Quiet doc col_name pkey [] t = λ j. refl
    execute_indexes-Quiet doc col_name pkey ((index_name, info) ∷ indexes) t =
        let o = try_execute_with_index_info P S op doc col_name pkey index_name info t in
        behind-kept (Quiet t) (written t o) _
          (written-kept (Quiet t) t o (λ j. refl)
            (try_execute_with_index_info-Quiet doc col_name pkey index_name info t))
          (λ u first j. execute_indexes-Quiet doc col_name pkey indexes u j ∙ first j)

    module _ (from_slice : Bytes → Outcome Document) (col_name index_name : Bytes)
        (info : IndexInfo) where
      execute_index_item-Quiet :
          (value : Bytes) (t : Txn)
          → On (Quiet t) (execute_index_item P S from_slice op col_name index_name info value t)
      unfolding execute_index_item
      execute_index_item-Quiet value t = On->>= (Quiet t) (from_slice value) _ (λ doc.
          On->>= (Quiet t) (unwrap (P.get doc (str "_id"))) _
            (λ pkey. try_execute_with_index_info-Quiet doc col_name pkey index_name info t))

      build_loop-Quiet :
          (fuel : ℕ) (t : Txn) (c : Cursor)
          → Quiet t (build_loop P S from_slice fuel op col_name index_name info t c).0
      unfolding build_loop
      build_loop-Quiet zero t c = elim (Bool-cases (has_next c)) [
        | inl e ↦ rw e (λ j. refl)
        | inr e ↦ rw e (λ j. refl)
      ]
      build_loop-Quiet (suc fuel) t c = elim (Bool-cases (has_next c)) [
        | inr e ↦ rw e (λ j. refl)
        | inl e ↦ rw e (
            given-kept (Quiet t) t (copy_data S t c) _ (λ j. refl)
              (λ value.
                let o = execute_index_item P S from_slice op col_name index_name info value t in
                behind-kept (Quiet t) (written t o) _
                  (written-kept (Quiet t) t o (λ j. refl) (execute_index_item-Quiet value t))
                  (λ u first.
                    given-kept (Quiet t) u (next S u c) _ first
                      (λ d j. build_loop-Quiet fuel u d j ∙ first j))))
      ]

      pub build-Quiet :
          (fuel : ℕ) (t : Txn) → Quiet t (build P S from_slice fuel op col_name index_name info t).0
      unfolding build
      build-Quiet fuel t =
          given-kept (Quiet t) t (new_with_str_prefix col_name) _ (λ j. refl)
            (λ c. build_loop-Quiet fuel t (reset S t c))
