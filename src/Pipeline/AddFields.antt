-- ===== src/Pipeline/AddFields.antt =====
-- src/polodb_core/vm/vm_add_fields.rs. The fields are a map that keeps its order, so they are the list of
-- its entries; the keys of the document that it is built from are different already.
use polo_db.Prelude.{◌≡◌, ap, sym, ◌∙◌, arith, false, none, some, List, [], ◌∷◌, ◌++◌}
use polo_db.Prelude.Bytes.{Bytes, str}
use polo_db.Errors.{Outcome, ok, err, ◌>>=◌, >>=-eq-ok, unknown_aggregation_operation}
use polo_db.Bson.{Bson, Document, end, entry, string, null, document}
use polo_db.Bson.Platform.{Platform}
use polo_db.UpdateOperators.Assign.Laws.{contains}
use polo_db.Pipeline.{Status, first_argument, mk_invalid_aggregate_field}
use polo_db.Pipeline.Operators.{OperatorExpr, compile_doc, next_value, strip_dollar, field_or_null}

abbrev pub Fields : Type 0
Fields = List (Bytes × OperatorExpr)

-- A string is an alias behind a dollar sign, and a constant otherwise.
unfoldable pub add_string : Bytes → OperatorExpr
add_string name = elim (strip_dollar name) [
  | none ↦ OperatorExpr.constant (string name)
  | some field ↦ OperatorExpr.alias field
]

module _ (P : Platform) where
  unfoldable pub add_expr : List Bytes → Bson → Outcome OperatorExpr
  unfolding add_string
  add_expr paths (document doc) = do op ← compile_doc P paths doc; ok (OperatorExpr.expr op)
  add_expr paths (string name) = ok (add_string name)
  add_expr paths v = ok (OperatorExpr.constant v)

  unfoldable pub add_entries : List Bytes → Document → Outcome Fields
  unfolding add_expr
  add_entries paths end = ok []
  add_entries paths (entry k v rest) = do
    op ← add_expr (paths ++ k ∷ []) v
    ops ← add_entries paths rest
    ok ((k, op) ∷ ops)

  unfoldable pub add_compile : List Bytes → Bson → Outcome Fields
  unfolding add_entries
  add_compile paths (document doc) = add_entries paths doc
  add_compile paths _ = err (mk_invalid_aggregate_field paths)

  -- The value of a field: an operator reads the argument, an alias the document as it is by then.
  unfoldable pub add_value : OperatorExpr → Bson → Document → Outcome (OperatorExpr × Bson)
  add_value (OperatorExpr.expr op) arg0 doc = do
    (op', value) ← next_value P op arg0
    ok (OperatorExpr.expr op', value)
  add_value (OperatorExpr.constant v) arg0 doc = ok (OperatorExpr.constant v, v)
  add_value (OperatorExpr.alias name) arg0 doc =
      ok (OperatorExpr.alias name, field_or_null P (document doc) name)

  -- for (k, v) in &self.fields
  unfoldable pub add_all : Fields → Bson → Document → Outcome (Fields × Document)
  unfolding add_value
  add_all [] arg0 doc = ok ([], doc)
  add_all ((k, v) ∷ fields) arg0 doc = do
    (op, value) ← add_value v arg0 doc
    (ops, after) ← add_all fields arg0 (P.insert doc k value)
    ok ((k, op) ∷ ops, after)

  unfoldable pub add_fields_value : Fields → Bson → Outcome (Fields × Status)
  unfolding add_all
  add_fields_value fields null = ok (fields, Status.next null)
  add_fields_value fields (document doc) = do
    (ops, after) ← add_all fields (document doc) doc
    ok (ops, Status.next (document after))
  add_fields_value fields _ =
      err (unknown_aggregation_operation (str "Invalid argument for $addFields"))

  unfoldable pub add_fields_call : Fields → List Bson → Outcome (Fields × Status)
  unfolding add_fields_value
  add_fields_call fields args = do arg0 ← first_argument args; add_fields_value fields arg0

  abbrev pub names : Fields → List Bytes
  names [] = []
  names ((k, _) ∷ fields) = k ∷ names fields

  -- The stage `$addFields` keeps its fields in their order, and every field of the document that it
  -- does not name.
  pub add_all-get :
      (fields ops : Fields) (arg0 : Bson) (doc after : Document) (j : Bytes)
      → contains (names fields) j ≡ false
      → add_all fields arg0 doc ≡ ok (ops, after)
      → (names ops ≡ names fields) × (P.get after j ≡ P.get doc j)
  unfolding add_all
  add_all-get [] ops arg0 doc after j h ran =
      let e : ◌≡◌ {A = Fields × Document} ([], doc) (ops, after) = cc in
      (ap (λ r. names r.0) (sym e), ap (λ r. P.get r.1 j) (sym e))
  add_all-get ((k, v) ∷ fields) ops arg0 doc after j h ran =
      let ((op, value), first, rest) = >>=-eq-ok (add_value v arg0 doc) _ ran in
      let ((ops', after'), more, done) =
        >>=-eq-ok (add_all fields arg0 (P.insert doc k value)) _ rest in
      let (kept, got) =
        add_all-get fields ops' arg0 (P.insert doc k value) after' j (ground arith) more in
      let e : ◌≡◌ {A = Fields × Document} ((k, op) ∷ ops', after') (ops, after) = cc in
      let other : P.get (P.insert doc k value) j ≡ P.get doc j =
        ground (arith, P.get-insert doc k value j) in
      (
        ap (λ r. names r.0) (sym e) ∙ ap (λ ks. k ∷ ks) kept,
        ap (λ r. P.get r.1 j) (sym e) ∙ got ∙ other,
      )
