-- ===== src/Db/Read/Count.antt =====
-- The count of the documents of a collection against the loop over the cursor of Scan/Loop.
use polo_db.Prelude.{
  ℕ, zero, suc, ◌≡◌, refl, sym, ap, ◌∙◌, Bool, true, false, Option, none, some, List, [], ◌∷◌, map,
  length,
}
use polo_db.Prelude.Bytes.{Bytes}
use polo_db.Errors.{Outcome, ok, err, panic, ◌>>=◌, >>=-eq-ok}
use polo_db.Bson.{Bson, Document, document}
use polo_db.Index.{CollectionSpecification}
use polo_db.Vm.Program.{SubProgram}
use polo_db.Vm.Machine.{Vm, new}
use polo_db.Vm.Codegen.Compile.{compile_query_all}
use polo_db.Db.ClientCursor.{advance, rows, row, collected, get}
use polo_db.Db.QueryAll.{query_all-scan, decoded, scanned}
use polo_db.Db.QueryAll.Turns.{closed}
use polo_db.Db.Backend.{Backend}
use polo_db.Db.Names.{validate_col_name}
use polo_db.Db.Transaction.{continued}
use polo_db.Db.Collections.{
  read_spec, get_collection_meta_by_name_advanced, internal_get_collection_id_by_name,
}
use polo_db.Db.Read.{
  stepped, map_answer, count_rows, count, count_in, count_documents, find_internal, make_handle,
}

length_map : (docs : List Document) → length (map document docs) ≡ length docs
length_map [] = refl
length_map (doc ∷ docs) = ap suc (length_map docs)

module _ (B : Backend) where
  open B use {world}
  open world use {store}
  open store use {Txn}

  row-eq-ok :
      (vm : Vm world) (rest : Option (Outcome (List Bson))) (values : List Bson)
      → row world vm rest ≡ some (ok values)
      → (value : Bson) × (more : List Bson) × (rest ≡ some (ok more)) × (values ≡ value ∷ more)
  row-eq-ok vm none values h = absurd cc
  row-eq-ok vm (some rest) values h =
      let given : (get world vm >>= λ value. rest >>= λ more. ok (value ∷ more)) ≡ ok values = cc in
      let (value, top, ran1) = >>=-eq-ok (get world vm) _ given in
      let (more, later, ran2) = >>=-eq-ok rest _ ran1 in (value, more, ap some later, cc)

  abbrev Counted : Option (Txn × Outcome ℕ) → ℕ → Type 0
  Counted answer n = (u : Txn) × (answer ≡ some (u, ok n))

  -- One call, with what is known of the calls behind it.
  step-Counted :
      (step : Vm world × Option (Outcome Bool)) (values : List Bson)
      (later : Vm world → Option (Outcome (List Bson)))
      (count_later : Vm world → Option (Txn × Outcome ℕ))
      → ((vm : Vm world) (more : List Bson)
          → later vm ≡ some (ok more)
          → Counted (count_later vm) (length more))
      → collected world step later ≡ some (ok values)
      → Counted (stepped B step 0 (λ next. map_answer B suc (count_later next))) (length values)
  step-Counted (vm, none) values later count_later ih h = absurd cc
  step-Counted (vm, some panic) values later count_later ih h = absurd cc
  step-Counted (vm, some (err e)) values later count_later ih h = absurd cc
  step-Counted (vm, some (ok false)) values later count_later ih h =
      let e : [] ≡ values = cc in (vm.txn, ap (λ vs. some (vm.txn, ok (length vs))) e)
  step-Counted (vm, some (ok true)) values later count_later ih h =
      let (value, more, rest, split) = row-eq-ok vm (later vm) values h in
      let (u, counts) = ih vm more rest in
      (u, ap (map_answer B suc) counts ∙ ap (λ vs. some (u, ok (length vs))) (sym split))

  -- The loop of `count` counts the rows that the iterator gives.
  count_rows-rows :
      (fuel calls : ℕ) (vm : Vm world) (values : List Bson)
      → rows world calls fuel vm ≡ some (ok values)
      → Counted (count_rows B calls fuel vm) (length values)
  unfolding rows count_rows
  count_rows-rows fuel zero vm values h = absurd cc
  count_rows-rows fuel (suc calls) vm values h =
      step-Counted (advance world fuel vm) values (rows world calls fuel) (count_rows B calls fuel)
        (count_rows-rows fuel calls) h

  -- The count in a collection that is found, with the code of the query and the count of its rows.
  counted_in :
      (calls n : ℕ) (auto : Bool) (t v : Txn) (spec : CollectionSpecification) (code : SubProgram)
      → compile_query_all spec true ≡ ok code
      → count_rows B calls 7 (new world t auto code) ≡ some (v, ok n)
      → count_in B calls 7 auto (some spec) t ≡ some (v, ok n)
  unfolding find_internal make_handle
  counted_in calls n auto t v spec code compiled counts =
      ap
        (λ r.
          continued (continued (some (t, r)) (make_handle B auto))
            (λ handle _. count_rows B calls 7 handle))
        compiled
      ∙ counts

  -- The documents of a legal name that is a collection's are counted as the loop over the cursor finds them: where
  -- every entry of the loop decodes and the transaction closes, the count is the number of its documents. Seven
  -- instructions for a call and a call more than there are keys are enough.
  pub count_documents-scan :
      (auto : Bool) (name : Bytes) (t u : Txn) (spec : CollectionSpecification)
      (entries : List (Bytes × Bytes)) (docs : List Document)
      → validate_col_name name ≡ ok tt
      → read_spec B name t ≡ ok spec
      → closed world t auto spec._id ≡ ok u
      → scanned world t u auto spec._id ≡ ok entries
      → decoded world entries ≡ ok docs
      → (v : Txn) × (count_documents B (suc (length (store.keys t))) 7 auto name t
          ≡ some (v, ok (length docs)))
  unfolding count_documents count find_internal make_handle get_collection_meta_by_name_advanced
      internal_get_collection_id_by_name compile_query_all
  count_documents-scan auto name t u spec entries docs valid found done ran read =
      let (code, compiled, answers) =
        query_all-scan world t u auto spec._id true entries docs done ran read in
      let (v, counts) =
        count_rows-rows 7 (suc (length (store.keys t))) (new world t auto code) (map document docs)
          answers in
      let sized =
        counted_in (suc (length (store.keys t))) (length docs) auto t v spec code compiled
          (counts ∙ ap (λ n. some (v, ok n)) (length_map docs)) in
      (v, rw (valid, found, sized))
