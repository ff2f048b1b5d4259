-- ===== src/UpdateOperators/PrimaryKey.antt =====
-- Which operators can change the primary key `_id`.
use polo_db.Prelude.{
  ◌≡◌, refl, arith, ap, ◌∙◌, sym, true, false, none, Bool-cases, Option-cases, inl, inr,
}
use polo_db.Prelude.Bytes.{Bytes, str, str_eq}
use polo_db.Errors.{Outcome, ok, ◌>>=◌, ◌>>◌, >>=-eq-ok}
use polo_db.Bson.{Bson, Document, end, entry, null}
use polo_db.Bson.Platform.{Platform}
use polo_db.Compare.{CmpOp, generic_cmp, greater, less}
use polo_db.UpdateOperators.{UpdateOperator, OperatorName, compile, update_document}
use polo_db.UpdateOperators.Loop.{State, validate_key, for_each}
use polo_db.UpdateOperators.Arithmetic.{
  inc_field, inc_existing, mul_field, inc_numeric, mul_numeric, inc_fields, mul_fields,
}
use polo_db.UpdateOperators.Assign.{set_fields, keys}
use polo_db.UpdateOperators.Assign.Laws.{unset_fields_lem, contains}
use polo_db.UpdateOperators.Extremes.{replace_if, max_fields, min_fields, or_null}
use polo_db.UpdateOperators.Arrays.{push_step, push_value, push_fields}

abbrev pub id : Bytes
id = str "_id"

module _ (P : Platform) where
  -- A step of the loop that writes the operator's key and no other.
  abbrev WritesItsKey : (Bytes → Bson → State → Outcome State) → Type 0
  WritesItsKey step =
      (k j : Bytes) (v : Bson) (s t : State)
      → step k v s ≡ ok t
      → str_eq k j ≡ false
      → P.get t.0 j ≡ P.get s.0 j

  for_each-id :
      (step : Bytes → Bson → State → Outcome State)
      → WritesItsKey step
      → (ops : Document) (s t : State) → validate_key ops ≡ ok tt
      → for_each step ops s ≡ ok t
      → P.get t.0 id ≡ P.get s.0 id
  unfolding for_each validate_key
  for_each-id step writes end s t valid h = cc
  for_each-id step writes (entry k v rest) s t valid h =
      let (u, first, more) = >>=-eq-ok (step k v s) (for_each step rest) h in
      for_each-id step writes rest u t (ground arith) more ∙ writes k id v s u first (ground arith)

  -- The document with a value for one key, seen at another.
  inserts :
      (doc after : Document) (k j : Bytes) (v : Bson)
      → P.insert doc k v ≡ after
      → str_eq k j ≡ false
      → P.get after j ≡ P.get doc j
  inserts doc after k j v e h = rw (← e) (P.get-insert doc k v j ∙ rw h)

  inc_existing_key :
      (doc after : Document) (k j : Bytes) (original value : Bson)
      → inc_existing P doc k original value ≡ ok after
      → str_eq k j ≡ false
      → P.get after j ≡ P.get doc j
  unfolding inc_existing
  inc_existing_key doc after k j null value e h = cc
  inc_existing_key doc after k j original value e h =
      let (r, made, done) = >>=-eq-ok (inc_numeric P k original value) _ e in
      inserts doc after k j r (cc) h

  inc_field_key :
      (doc after : Document) (k j : Bytes) (value : Bson)
      → inc_field P doc k value ≡ ok after
      → str_eq k j ≡ false
      → P.get after j ≡ P.get doc j
  unfolding inc_field
  inc_field_key doc after k j value e h = elim (Option-cases (P.get doc k)) [
    | inl missing ↦ inserts doc after k j value (ground arith) h
    | inr (original, found) ↦ inc_existing_key doc after k j original value (ground arith) h
  ]

  mul_field_key :
      (doc after : Document) (k j : Bytes) (value : Bson)
      → mul_field P doc k value ≡ ok after
      → str_eq k j ≡ false
      → P.get after j ≡ P.get doc j
  unfolding mul_field
  mul_field_key doc after k j value e h = elim (Option-cases (P.get doc k)) [
    | inl missing ↦ inserts doc after k j value (ground arith) h
    | inr (original, found) ↦
        let (r, made, done) =
          >>=-eq-ok (mul_numeric P k original value) _ (rw (found, mul_field) at e) in
        inserts doc after k j r (cc) h
  ]

  replace_if-WritesItsKey : (op : CmpOp) → WritesItsKey (replace_if P op)
  unfolding replace_if
  replace_if-WritesItsKey op k j v s t e h =
      let (cmp, compared, done) = >>=-eq-ok (generic_cmp P op v (or_null (P.get s.0 k))) _ e in
      elim (Bool-cases cmp) [
        | inl yes_ ↦ inserts s.0 t.0 k j v (ground arith) h
        | inr no_ ↦ ground arith
      ]

  push_step-WritesItsKey : WritesItsKey (push_step P)
  unfolding push_step
  push_step-WritesItsKey k j v s t e h =
      let (r, made, done) = >>=-eq-ok (push_value P k v (or_null (P.get s.0 k))) _ e in
      inserts s.0 t.0 k j r (ground arith) h

  inc-WritesItsKey : WritesItsKey (λ k v s. do doc ← inc_field P s.0 k v; ok (doc, true))
  inc-WritesItsKey k j v s t e h =
      let (doc, made, done) = >>=-eq-ok (inc_field P s.0 k v) _ e in
      inc_field_key s.0 t.0 k j v (cc) h

  mul-WritesItsKey : WritesItsKey (λ k v s. do doc ← mul_field P s.0 k v; ok (doc, true))
  mul-WritesItsKey k j v s t e h =
      let (doc, made, done) = >>=-eq-ok (mul_field P s.0 k v) _ e in
      mul_field_key s.0 t.0 k j v (cc) h

  set-WritesItsKey : WritesItsKey (λ k v s. ok (P.insert s.0 k v, true))
  set-WritesItsKey k j v s t e h = inserts s.0 t.0 k j v (ground arith) h

  -- The six operators whose `compile` checks the keys.
  abbrev pub ChecksKeys : OperatorName → Type 0
  ChecksKeys OperatorName.rename = ⊥
  ChecksKeys OperatorName.pop = ⊥
  ChecksKeys OperatorName.unset = ⊥
  ChecksKeys _ = Unit

  -- A checked operator that runs the loop over its fields.
  kept :
      (step : Bytes → Bson → State → Outcome State)
      → WritesItsKey step
      → (ops : Document) (checked op : UpdateOperator) (s t : State)
      → (validate_key ops >> ok checked) ≡ ok op
      → update_document P op s ≡ ok t
      → update_document P checked s ≡ for_each step ops s
      → P.get t.0 id ≡ P.get s.0 id
  kept step writes ops checked op s t made done same =
      let (u, valid, e) = >>=-eq-ok (validate_key ops) _ made in
      let e' : checked ≡ op = cc in
      for_each-id step writes ops s t valid (sym same ∙ ap (λ o. update_document P o s) e' ∙ done)

  -- Once compiled, `$inc`, `$mul`, `$set`, `$max`, `$min` and `$push` leave the primary key of every
  -- document as it was.
  pub update_document-id :
      (name : OperatorName) (ops : Document) (n p : Bytes) (op : UpdateOperator) (s t : State)
      → ChecksKeys name
      → compile name ops n p ≡ ok op
      → update_document P op s ≡ ok t
      → P.get t.0 id ≡ P.get s.0 id
  unfolding compile update_document inc_fields mul_fields set_fields max_fields min_fields
      push_fields
  update_document-id OperatorName.inc ops n p op s t c made done =
      kept _ inc-WritesItsKey ops (UpdateOperator.inc ops) op s t made done refl
  update_document-id OperatorName.mul ops n p op s t c made done =
      kept _ mul-WritesItsKey ops (UpdateOperator.mul ops) op s t made done refl
  update_document-id OperatorName.set ops n p op s t c made done =
      kept _ set-WritesItsKey ops (UpdateOperator.set ops) op s t made done refl
  update_document-id OperatorName.max ops n p op s t c made done =
      kept _ (replace_if-WritesItsKey greater) ops (UpdateOperator.max ops) op s t made done refl
  update_document-id OperatorName.min ops n p op s t c made done =
      kept _ (replace_if-WritesItsKey less) ops (UpdateOperator.min ops) op s t made done refl
  update_document-id OperatorName.push ops n p op s t c made done =
      kept _ push_step-WritesItsKey ops (UpdateOperator.push ops) op s t made done refl
  update_document-id _ ops n p op s t c made done = absurd c

  -- `$unset` has no such check: naming `_id` compiles, and the update removes the primary key.
  pub unset_id :
      (ops doc : Document) (n p : Bytes)
      → contains (keys ops) id ≡ true
      → (op : UpdateOperator) × (t : State) × (compile OperatorName.unset ops n p ≡ ok op)
        × (update_document P op (doc, false) ≡ ok t)
        × (P.get t.0 id ≡ none)
  unfolding compile update_document
  unset_id ops doc n p h =
      let (after, flag, done, values) = unset_fields_lem P (keys ops) doc false in
      (UpdateOperator.unset (keys ops), (after, flag), refl, done, values id ∙ rw h)
