-- ===== src/Db/Write/Frame.antt =====
-- The keys that an insertion of src/polodb_core/db/db_inner.rs writes, and those of the indexes.
use polo_db.Prelude.{
  ℕ, ◌==◌, ◌≡◌, refl, sym, ap, ◌∙◌, false, Bool-cases, some, inl, inr, List, [], ◌∷◌, ◌++◌,
}
use polo_db.Prelude.Bytes.{Bytes, str_eq, starts_with}
use polo_db.Errors.{Outcome, Error, ok, err, panic, illegal_collection_name}
use polo_db.Bson.{Bson, Document, string}
use polo_db.Bson.ElementType
use polo_db.Keys.{stacked_key}
use polo_db.Index.{IndexInfo, IndexHelperOperation, try_execute_with_index_info}
use polo_db.Index.Frame.{index_bytes, stack_all-more, try_execute_with_index_info-outside}
use polo_db.Db.Backend.{Backend}
use polo_db.Db.Names.{is_illegal, check_chars, validate_col_name}
use polo_db.Db.Transaction.{Db, continued}
use polo_db.Errors.Kept.{written}
use polo_db.Db.Collections.Laws.{meta_bytes}
use polo_db.Db.Write.{insert_indexes}

legal_head :
    (e : Error) (c : ℕ) (rest : Bytes) → check_chars e (c ∷ rest) ≡ ok tt → (c == 36) ≡ false
unfolding check_chars is_illegal
legal_head e c rest valid = elim (Bool-cases (c == 36)) [
  | inl dollar ↦ let wrong = rw dollar at valid in absurd cc
  | inr other ↦ other
]

-- The key of a document in a collection with a legal name does not begin like an entry of an index.
pub document_key-outside :
    (name : Bytes) (id : Bson) (key : Bytes)
    → validate_col_name name ≡ ok tt
    → stacked_key (string name ∷ id ∷ []) ≡ ok key
    → starts_with key index_bytes ≡ false
unfolding validate_col_name stacked_key starts_with
document_key-outside [] id key valid made =
    let (more, e) = stack_all-more (ElementType.string ∷ 0 ∷ []) (id ∷ []) key made in
    ap (λ k. starts_with k index_bytes) e
document_key-outside (c ∷ name) id key valid made =
    let (more, e) = stack_all-more (ElementType.string ∷ (c ∷ name ++ 0 ∷ [])) (id ∷ []) key made in
    ap (λ k. starts_with k index_bytes) e
    ∙ (let other = legal_head (illegal_collection_name (c ∷ name)) c name valid in rw other)

-- Nor is it the key of a specification.
pub document_key-meta :
    (name : Bytes) (id : Bson) (key : Bytes)
    → validate_col_name name ≡ ok tt
    → stacked_key (string name ∷ id ∷ []) ≡ ok key
    → str_eq key (meta_bytes name) ≡ false
unfolding validate_col_name stacked_key str_eq
document_key-meta [] id key valid made =
    let (more, e) = stack_all-more (ElementType.string ∷ 0 ∷ []) (id ∷ []) key made in
    ap (λ k. str_eq k (meta_bytes [])) e
document_key-meta (c ∷ name) id key valid made =
    let (more, e) = stack_all-more (ElementType.string ∷ (c ∷ name ++ 0 ∷ [])) (id ∷ []) key made in
    ap (λ k. str_eq k (meta_bytes (c ∷ name))) e
    ∙ (let other = legal_head (illegal_collection_name (c ∷ name)) c name valid in rw other)

module _ (B : Backend) where
  open B use {world}
  open world use {platform, store, to_vec, from_slice}
  open store use {Txn, lookup}

  after_index :
      (doc : Document) (col_name : Bytes) (pkey : Bson) (index_name : Bytes) (info : IndexInfo)
      (o : Outcome Txn) (next : Db Txn (Unit {0})) (t u : Txn) (r : Outcome (Unit {0})) (j : Bytes)
      → try_execute_with_index_info platform store IndexHelperOperation.insert doc col_name pkey
          index_name info t
        ≡ o
      → ((v : Txn) → next v ≡ some (u, r) → lookup u j ≡ lookup v j)
      → continued (some (written t o)) (λ _. next) ≡ some (u, r)
      → starts_with j index_bytes ≡ false
      → lookup u j ≡ lookup t j
  after_index doc col_name pkey index_name info (ok v) next t u r j did later ran outside =
      later v ran
      ∙ try_execute_with_index_info-outside platform store IndexHelperOperation.insert doc col_name
          pkey index_name info t v j did outside
  after_index doc col_name pkey index_name info (err e) next t u r j did later ran outside =
      let same : t ≡ u = cc in ap (λ v. lookup v j) (sym same)
  after_index doc col_name pkey index_name info panic next t u r j did later ran outside =
      let same : t ≡ u = cc in ap (λ v. lookup v j) (sym same)

  -- The entries of the indexes are written elsewhere, also where one of them is refused.
  pub insert_indexes-outside :
      (doc : Document) (col_name : Bytes) (pkey : Bson) (indexes : List (Bytes × IndexInfo))
      (t u : Txn) (r : Outcome (Unit {0})) (j : Bytes)
      → insert_indexes B doc col_name pkey indexes t ≡ some (u, r)
      → starts_with j index_bytes ≡ false
      → lookup u j ≡ lookup t j
  unfolding insert_indexes
  insert_indexes-outside doc col_name pkey [] t u r j ran outside =
      let same : t ≡ u = cc in ap (λ v. lookup v j) (sym same)
  insert_indexes-outside doc col_name pkey ((index_name, info) ∷ indexes) t u r j ran outside =
      after_index doc col_name pkey index_name info _ (insert_indexes B doc col_name pkey indexes) t
        u r j refl (λ v more. insert_indexes-outside doc col_name pkey indexes v u r j more outside)
        ran outside
