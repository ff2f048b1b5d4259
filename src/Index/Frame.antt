-- ===== src/Index/Frame.antt =====
-- Where the entries stand that src/polodb_core/index writes: under keys that begin with "$I".
use polo_db.Prelude.{
  ℕ, zero, suc, ◌≡◌, sym, ap, ◌∙◌, true, false, Bool-cases, some, Option-cases, inl, inr, List, [],
  ◌∷◌, ◌++◌, append_assoc, append-nil,
}
use polo_db.Prelude.Bytes.{Bytes, str, str_eq, str_eq_iff, starts_with, starts_with-append}
use polo_db.Errors.{Outcome, ok, unwrap, >>=-eq-ok}
use polo_db.Errors.Kept.{Done, written, written-Done, given-Done, behind-Done}
use polo_db.Bson.{Bson, Document, string}
use polo_db.Bson.ElementType
use polo_db.Bson.Platform.{Platform}
use polo_db.Keys.{write_key, stacked_key, stack_all, stacked_key_bytes}
use polo_db.FieldPath.{try_get_document_value}
use polo_db.Scan.{Cursor, has_next, copy_data, next, reset, new_with_str_prefix}
use polo_db.Store.{Store}
use polo_db.Index.{
  IndexInfo, IndexHelperOperation, first_path, make_index_key, write_value,
  try_execute_with_index_info, execute_index_item, build_loop, build,
}
use polo_db.Index.Laws.{write_value_key, write_value_lem}

abbrev pub index_bytes : Bytes
index_bytes = ElementType.string ∷ (str "$I" ++ 0 ∷ [])

pub stack_all-more :
    (r : Bytes) (keys : List Bson) (out : Bytes)
    → stack_all r keys ≡ ok out
    → (more : Bytes) × (out ≡ r ++ more)
unfolding stack_all stacked_key_bytes
stack_all-more r [] out h = let e : r ≡ out = cc in ([], sym e ∙ sym (append-nil r))
stack_all-more r (key ∷ keys) out h =
    let (w, appended, rest) = >>=-eq-ok (stacked_key_bytes r key) (λ w. stack_all w keys) h in
    let (bytes, wrote, whole) = >>=-eq-ok (write_key key) (λ b. ok (r ++ b)) appended in
    let same : r ++ bytes ≡ w = cc in
    let (more, e) = stack_all-more w keys out rest in
    (bytes ++ more, e ∙ ap (λ v. v ++ more) (sym same) ∙ append_assoc r bytes more)

make_index_key-begins :
    (col_name index_name : Bytes) (value pkey : Bson) (key : Bytes)
    → make_index_key col_name index_name value (some pkey) ≡ ok key
    → starts_with key index_bytes ≡ true
unfolding make_index_key stacked_key
make_index_key-begins col_name index_name value pkey key made =
    let (more, e) =
      stack_all-more index_bytes (string col_name ∷ string index_name ∷ value ∷ pkey ∷ []) key
        made in
    ap (λ k. starts_with k index_bytes) e ∙ starts_with-append index_bytes more

module _ (P : Platform) (S : Store) where
  open S use {Txn, lookup}

  outside_key :
      (j key : Bytes)
      → starts_with key index_bytes ≡ true
      → starts_with j index_bytes ≡ false
      → str_eq key j ≡ false
  outside_key j key inside outside = elim (Bool-cases (str_eq key j)) [
    | inl e ↦
        let same = (str_eq_iff key j).0 e in
        let wrong = ap (λ k. starts_with k index_bytes) (sym same) ∙ inside in absurd cc
    | inr e ↦ e
  ]

  pub try_execute_with_index_info-outside :
      (op : IndexHelperOperation) (doc : Document) (col_name : Bytes) (pkey : Bson)
      (index_name : Bytes) (info : IndexInfo) (t u : Txn) (j : Bytes)
      → try_execute_with_index_info P S op doc col_name pkey index_name info t ≡ ok u
      → starts_with j index_bytes ≡ false
      → lookup u j ≡ lookup t j
  unfolding try_execute_with_index_info
  try_execute_with_index_info-outside op doc col_name pkey index_name info t u j ran outside =
      let (path, first, rest) = >>=-eq-ok (first_path info) _ ran in
      elim (Option-cases (try_get_document_value P doc path)) [
        | inl gone ↦
            let h =
              ap (λ o. write_value S op o col_name pkey index_name info t) (sym gone) ∙ rest in
            let same : t ≡ u = cc in ap (λ v. lookup v j) (sym same)
        | inr (value, found) ↦
            let h =
              ap (λ o. write_value S op o col_name pkey index_name info t) (sym found) ∙ rest in
            let (key, made) = write_value_key S op value pkey col_name index_name info t u h in
            let e =
              outside_key j key (make_index_key-begins col_name index_name value pkey key made)
                outside in
            rw e at (write_value_lem S op value pkey col_name index_name info t u key j made h)
      ]

  module _ (from_slice : Bytes → Outcome Document) (op : IndexHelperOperation)
      (col_name index_name : Bytes) (info : IndexInfo) (j : Bytes)
      (outside : starts_with j index_bytes ≡ false) where
    item-outside :
        (value : Bytes) (t u : Txn)
        → execute_index_item P S from_slice op col_name index_name info value t ≡ ok u
        → lookup u j ≡ lookup t j
    unfolding execute_index_item
    item-outside value t u ran =
        let (doc, read, ran1) = >>=-eq-ok (from_slice value) _ ran in
        let (pkey, has_id, ran2) = >>=-eq-ok (unwrap (P.get doc (str "_id"))) _ ran1 in
        try_execute_with_index_info-outside op doc col_name pkey index_name info t u j ran2 outside

    build_loop-outside :
        (fuel : ℕ) (t u : Txn) (c : Cursor)
        → Done (build_loop P S from_slice fuel op col_name index_name info t c) u
        → lookup u j ≡ lookup t j
    unfolding build_loop
    build_loop-outside zero t u c ran = elim (Bool-cases (has_next c)) [
      | inl e ↦ let wrong = ap (λ kept. kept.1) (rw e at ran) in absurd cc
      | inr e ↦ ap (λ kept. lookup kept.0 j) (sym (rw e at ran))
    ]
    build_loop-outside (suc fuel) t u c ran = elim (Bool-cases (has_next c)) [
      | inl e ↦
          let (value, copied, ran1) = given-Done t (copy_data S t c) _ (rw e at ran) in
          let item = execute_index_item P S from_slice op col_name index_name info value t in
          let (v, did, ran2) = behind-Done (written t item) _ ran1 in
          let (d, moved, ran3) = given-Done v (next S v c) _ ran2 in
          build_loop-outside fuel v u d ran3 ∙ item-outside value t v (written-Done t item did)
      | inr e ↦ ap (λ kept. lookup kept.0 j) (sym (rw e at ran))
    ]

    -- The loop of the index builder writes entries of indexes only.
    pub build-outside :
        (fuel : ℕ) (t u : Txn)
        → Done (build P S from_slice fuel op col_name index_name info t) u
        → lookup u j ≡ lookup t j
    unfolding build
    build-outside fuel t u ran =
        let (c, made, ran1) = given-Done t (new_with_str_prefix col_name) _ ran in
        build_loop-outside fuel t u (reset S t c) ran1
