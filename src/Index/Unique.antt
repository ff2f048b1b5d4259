-- ===== src/Index/Unique.antt =====
-- Unique indexes.
use polo_db.Prelude.{
  ◌≡◌, ◌≢◌, refl, sym, ap, ◌∙◌, arith, true, false, none, some, [], ◌∷◌, if◌then◌else◌, Bool-cases,
  Option-cases, inl, inr, ◌↔◌, append-nil,
}
use polo_db.Prelude.Bytes.{Bytes, str, str_eq, str_eq_iff, starts_with, starts_with-append}
use polo_db.Errors.{ok, err, duplicate_key}
use polo_db.Bson.{Bson, Document}
use polo_db.Bson.Valid.{is_utf8}
use polo_db.Bson.Platform.{Platform}
use polo_db.Keys.{IsKey, IsText}
use polo_db.Keys.Prefix.{starts_with-stacked_key}
use polo_db.FieldPath.{try_get_document_value}
use polo_db.Store.{Store}
use polo_db.Store.Search.{begins, begins_iff}
use polo_db.Index.{
  IndexInfo, IndexHelperOperation, is_unique, first_path, make_index_key, check_unique_key,
  write_value, try_execute_with_index_info,
}
use polo_db.Index.Laws.{write_value_lem, try_execute_value, make_index_key-tester, write_value_key}

prefix_IsText : IsText (str "$I")
unfolding is_utf8
prefix_IsText = (omega arith, refl)

same_pkey :
    (col_name index_name : Bytes) (value pkey other : Bson) (own key : Bytes)
    → IsText col_name
    → IsText index_name
    → IsKey value
    → IsKey pkey
    → IsKey other
    → make_index_key col_name index_name value (some pkey) ≡ ok own
    → make_index_key col_name index_name value (some other) ≡ ok key
    → own ≡ key
    → other ≡ pkey
unfolding make_index_key
same_pkey col_name index_name value pkey other own key hc hi hv hp ho owned made same =
    let same' : starts_with key own ≡ true =
      ap (λ b. starts_with b own) (sym same ∙ sym (append-nil own)) ∙ starts_with-append own [] in
    let (more, e) =
      starts_with-stacked_key _ _ own key (prefix_IsText, (hc, (hi, (hv, (hp, tt)))))
        (prefix_IsText, (hc, (hi, (hv, (ho, tt))))) owned made same' in
    let heads : other ∷ [] ≡ pkey ∷ more = cc in cc

module _ (S : Store) where
  open S use {Txn, lookup, seek}

  check_unique_key-begins :
      (t : Txn) (col_name index_name : Bytes) (value : Bson) (tester : Bytes)
      → make_index_key col_name index_name value none ≡ ok tester
      → check_unique_key S t col_name index_name value
        ≡ (if begins S t tester then err (duplicate_key index_name col_name) else ok tt)
  unfolding check_unique_key
  check_unique_key-begins t col_name index_name value tester made =
      elim (Option-cases (seek t tester)) [
        | inl e ↦ rw made (ground arith)
        | inr (at, e) ↦ rw made (ground arith)
      ]

  -- The check of a unique index refuses a value with `DuplicateKey` exactly if the store has a key that
  -- begins with the index's key of the value, and passes it otherwise.
  pub check_unique_key_iff :
      (t : Txn) (col_name index_name : Bytes) (value : Bson) (tester : Bytes)
      → make_index_key col_name index_name value none ≡ ok tester
      → ((check_unique_key S t col_name index_name value ≡ err (duplicate_key index_name col_name))
          ↔ ((i : Bytes) × (lookup t i ≢ none) × (starts_with i tester ≡ true)))
        × ((check_unique_key S t col_name index_name value ≡ ok tt) ↔ (begins S t tester ≡ false))
  check_unique_key_iff t col_name index_name value tester made =
      let e = check_unique_key-begins t col_name index_name value tester made in
      let (to, back) = begins_iff S t tester in
      (
        (λ h. to (ground arith), λ h. let yes = back h in ground arith),
        (λ h. ground arith, λ h. ground arith),
      )

  unique_write :
      (op : IndexHelperOperation) (value pkey : Bson) (col_name index_name : Bytes)
      (info : IndexInfo) (t : Txn) (tester : Bytes)
      → is_unique info ≡ true
      → make_index_key col_name index_name value none ≡ ok tester
      → begins S t tester ≡ true
      → write_value S op (some value) col_name pkey index_name info t
        ≡ err (duplicate_key index_name col_name)
  unfolding write_value
  unique_write op value pkey col_name index_name info t tester uniq made has =
      rw (uniq, check_unique_key-begins t col_name index_name value tester made, has)

module _ (P : Platform) (S : Store) where
  open S use {Txn, lookup}

  -- After a document with a value went into a unique index, the index has no other entry for the
  -- value: an entry of the collection, the index and the value has the primary key of the document. The
  -- names, the value and the primary keys are key values of their types, with no zero byte in a text.
  pub unique_entry :
      (data_doc : Document) (col_name index_name path : Bytes) (pkey other value : Bson)
      (info : IndexInfo) (t u : Txn) (key : Bytes)
      → IsText col_name
      → IsText index_name
      → IsKey value
      → IsKey pkey
      → IsKey other
      → is_unique info ≡ true
      → first_path info ≡ ok path
      → try_get_document_value P data_doc path ≡ some value
      → try_execute_with_index_info P S IndexHelperOperation.insert data_doc col_name pkey
          index_name info t
        ≡ ok u
      → make_index_key col_name index_name value (some other) ≡ ok key
      → lookup u key ≢ none
      → other ≡ pkey
  unique_entry data_doc col_name index_name path pkey other value info t u key hc hi hv hp ho uniq
        first found ran made stored =
      let run =
        sym
          (try_execute_value P S _ data_doc col_name pkey index_name info t path value first found)
        ∙ ran in
      let (own, owned) = write_value_key S _ value pkey col_name index_name info t u run in
      let (tester, tested, inside) =
        make_index_key-tester col_name index_name value other key made in
      let after = write_value_lem S _ value pkey col_name index_name info t u own key owned run in
      elim (Bool-cases (str_eq own key)) [
        | inl same ↦
            same_pkey col_name index_name value pkey other own key hc hi hv hp ho owned made
              ((str_eq_iff own key).0 same)
        | inr differ ↦
            let before : lookup t key ≢ none = λ missing. stored (after ∙ rw (differ, missing)) in
            let has = (begins_iff S t tester).1 (key, before, inside) in
            let refused =
              unique_write S IndexHelperOperation.insert value pkey col_name index_name info t
                tester uniq tested has in
            absurd cc
      ]

  -- If a document has a value for a unique index and its entry is stored, then the deletion of the
  -- entry fails with `DuplicateKey`: the check for duplicates runs before, and finds the entry itself.
  pub unique_delete :
      (data_doc : Document) (col_name index_name path : Bytes) (pkey value : Bson)
      (info : IndexInfo) (t : Txn) (key : Bytes)
      → is_unique info ≡ true
      → first_path info ≡ ok path
      → try_get_document_value P data_doc path ≡ some value
      → make_index_key col_name index_name value (some pkey) ≡ ok key
      → lookup t key ≢ none
      → try_execute_with_index_info P S IndexHelperOperation.delete data_doc col_name pkey
          index_name info t
        ≡ err (duplicate_key index_name col_name)
  unique_delete data_doc col_name index_name path pkey value info t key uniq first found made
        stored =
      let (tester, tested, inside) =
        make_index_key-tester col_name index_name value pkey key made in
      try_execute_value P S _ data_doc col_name pkey index_name info t path value first found
      ∙ unique_write S _ value pkey col_name index_name info t tester uniq tested
          ((begins_iff S t tester).1 (key, stored, inside))
