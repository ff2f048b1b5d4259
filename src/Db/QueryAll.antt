-- ===== src/Db/QueryAll.antt =====
-- A query for all documents (`compile_query_all` of subprogram.rs, run through client_cursor.rs) against the
-- loop over the cursor of Scan/Loop.
pub mod Turns
mod Examples
use polo_db.Prelude.{
  ℕ, zero, suc, ◌≡◌, ◌≢◌, refl, sym, ap, ◌∙◌, arith, Bool, true, false, Option, none, some, List,
  [], ◌∷◌, map, if◌then◌else◌, length, Bool-cases, inl, inr,
}
use polo_db.Prelude.Int.{ℤ, pos}
use polo_db.Prelude.Bytes.{Bytes}
use polo_db.Errors.{Outcome, ok, ◌>>=◌, >>=-eq-ok, unwrap}
use polo_db.Bson.{Bson, Document, document}
use polo_db.Scan.{Cursor, has_next, reset, copy_data}
use polo_db.Scan
use polo_db.Scan.Loop.{scan, scan_end}
use polo_db.Vm.Program.{SubProgram}
use polo_db.Vm.World.{World}
use polo_db.Vm.Machine.{Vm, VmState, Signal, new}
use polo_db.Vm.Execute.{execute, is_halt}
use polo_db.Vm.Codegen.Compile.{compile_query_all_by_name}
use polo_db.Db.ClientCursor.{advance, rows, get, has_row}
use Turns.{
  program, prefix_of, at_row, halted, closed, opened, compile_lem, next_lem, last_lem, first_lem,
  empty_lem,
}

module _ (W : World) where
  open W use {platform, store, from_slice}

  -- The documents that the entries hold.
  unfoldable pub decoded : List (Bytes × Bytes) → Outcome (List Document)
  decoded [] = ok []
  decoded ((key, value) ∷ entries) = do
    doc ← from_slice value
    docs ← decoded entries
    ok (doc ∷ docs)

  advance_lem :
      (vm next : Vm W)
      → is_halt vm.state ≡ false
      → execute W 7 vm ≡ (next, Signal.stop)
      → advance W 7 vm ≡ (next, some (ok (has_row next.state)))
  unfolding advance
  advance_lem vm next alive ran = rw (ran, alive)

  -- A call that gives a row, and the last one.
  rows_more :
      (calls : ℕ) (vm next : Vm W) (doc : Document) (docs : List Document)
      → is_halt vm.state ≡ false
      → execute W 7 vm ≡ (next, Signal.stop)
      → has_row next.state ≡ true
      → get W next ≡ ok (document doc)
      → rows W calls 7 next ≡ some (ok (map document docs))
      → rows W (suc calls) 7 vm ≡ some (ok (map document (doc ∷ docs)))
  unfolding rows
  rows_more calls vm next doc docs alive ran more top rest =
      rw (rows, advance_lem vm next alive ran, more, rest, top)

  rows_done :
      (calls : ℕ) (vm next : Vm W)
      → is_halt vm.state ≡ false
      → execute W 7 vm ≡ (next, Signal.stop)
      → has_row next.state ≡ false
      → rows W (suc calls) 7 vm ≡ some (ok [])
  unfolding rows
  rows_done calls vm next alive ran less = rw (rows, advance_lem vm next alive ran, less)

  module _ (t u : store.Txn) (auto : Bool) (name : Bytes) where
    -- One entry of the loop, taken apart.
    Visited : ℕ → Cursor → List (Bytes × Bytes) → List Document → Type 0
    Visited n d entries docs =
        (item : Bytes) × (doc : Document) × (more : List (Bytes × Bytes)) × (rest : List Document)
        × (copy_data store t d ≡ ok item)
        × (from_slice item ≡ ok doc)
        × (docs ≡ doc ∷ rest)
        × ((Scan.next store t d >>= λ e. scan store n t e) ≡ ok more)
        × (decoded more ≡ ok rest)

    visited_lem :
        (n : ℕ) (d : Cursor) (entries : List (Bytes × Bytes)) (docs : List Document)
        → has_next d ≡ true
        → scan store (suc n) t d ≡ ok entries
        → decoded entries ≡ ok docs
        → Visited n d entries docs
    unfolding scan decoded Visited
    visited_lem n d entries docs inside ran read =
        let (at, _, ran1) = >>=-eq-ok (unwrap d.current_key) _ (rw inside at ran) in
        let (item, copied, ran2) = >>=-eq-ok (copy_data store t d) _ ran1 in
        let (more, after, ran3) =
          >>=-eq-ok (Scan.next store t d >>= λ e. scan store n t e) _ ran2 in
        let made : (at, item) ∷ more ≡ entries = cc in
        let read' : decoded ((at, item) ∷ more) ≡ ok docs = ap decoded made ∙ read in
        let (doc, one, read1) = >>=-eq-ok (from_slice item) _ read' in
        let (rest, others, read2) = >>=-eq-ok (decoded more) _ read1 in
        (item, doc, more, rest, copied, one, cc, after, others)

    no_entry :
        (n : ℕ) (d : Cursor) (entries : List (Bytes × Bytes)) (docs : List Document)
        → has_next d ≡ false
        → scan store n t d ≡ ok entries
        → decoded entries ≡ ok docs
        → docs ≡ []
    unfolding decoded
    no_entry n d entries docs outside ran read =
        let none_left : entries ≡ [] = let e = scan_end store n t d outside in cc in
        let e : decoded [] ≡ ok docs = ap decoded (sym none_left) ∙ read in cc

    entry_needs :
        (d : Cursor) (entries : List (Bytes × Bytes))
        → has_next d ≡ true
        → scan store 0 t d ≢ ok entries
    unfolding scan
    entry_needs d entries inside ran = let e = rw inside at ran in cc

    rows_last :
        (n : ℕ) (r0 : ℤ) (c d : Cursor) (doc : Document) (entries : List (Bytes × Bytes))
        (docs : List Document)
        → closed W t auto name ≡ ok u
        → Scan.next store t c ≡ ok d
        → has_next d ≡ false
        → scan store n t d ≡ ok entries
        → decoded entries ≡ ok docs
        → rows W (suc n) 7 (at_row W t auto name r0 c doc) ≡ some (ok (map document docs))
    unfolding is_halt has_row
    rows_last n r0 c d doc entries docs done moved outside ran read =
        rows_done n (at_row W t auto name r0 c doc) (halted W t auto name u (pos 0)) refl
          (last_lem W t auto name u r0 c d doc moved outside done) refl
        ∙ ap (λ ds. some (ok (map document ds))) (sym (no_entry n d entries docs outside ran read))

    -- The rows behind a row, against the rest of the loop.
    rows_from :
        (n : ℕ) (r0 : ℤ) (c d : Cursor) (doc : Document) (entries : List (Bytes × Bytes))
        (docs : List Document)
        → closed W t auto name ≡ ok u
        → Scan.next store t c ≡ ok d
        → scan store n t d ≡ ok entries
        → decoded entries ≡ ok docs
        → rows W (suc n) 7 (at_row W t auto name r0 c doc) ≡ some (ok (map document docs))
    unfolding is_halt has_row get Visited
    rows_from zero r0 c d doc entries docs done moved ran read = elim (Bool-cases (has_next d)) [
      | inr outside ↦ rows_last zero r0 c d doc entries docs done moved outside ran read
      | inl inside ↦ absurd (entry_needs d entries inside ran)
    ]
    rows_from (suc m) r0 c d doc entries docs done moved ran read = elim (Bool-cases (has_next d)) [
      | inr outside ↦ rows_last (suc m) r0 c d doc entries docs done moved outside ran read
      | inl inside ↦
          let (item, next, more, rest, copied, one, split, after, others) =
            visited_lem m d entries docs inside ran read in
          let (e, moved', ran') = >>=-eq-ok (Scan.next store t d) _ after in
          let here = at_row W t auto name r0 c doc in
          let there = at_row W t auto name (pos 1) d next in
          let step = next_lem W t auto name item r0 c d doc next moved inside copied one in
          let ih = rows_from m (pos 1) d e next more rest done moved' ran' others in
          rows_more (suc m) here there next rest refl step refl refl ih
          ∙ ap (λ ds. some (ok (map document ds))) (sym split)
    ]

    first_row :
        (n : ℕ) (entries : List (Bytes × Bytes)) (docs : List Document)
        → closed W t auto name ≡ ok u
        → has_next (reset store t (opened W t auto name)) ≡ true
        → scan store n t (reset store t (opened W t auto name)) ≡ ok entries
        → decoded entries ≡ ok docs
        → rows W (suc n) 7 (new W t auto (program name)) ≡ some (ok (map document docs))
    unfolding is_halt has_row get Visited new
    first_row zero entries docs done inside ran read = absurd (entry_needs _ entries inside ran)
    first_row (suc m) entries docs done inside ran read =
        let c = reset store t (opened W t auto name) in
        let (item, doc, more, rest, copied, one, split, after, others) =
          visited_lem m c entries docs inside ran read in
        let (d, moved, ran') = >>=-eq-ok (Scan.next store t c) _ after in
        let start = new W t auto (program name) in
        let row = at_row W t auto name (pos 0) c doc in
        let step = first_lem W t auto name item doc inside copied one in
        let ih = rows_from m (pos 0) c d doc more rest done moved ran' others in
        rows_more (suc m) start row doc rest refl step refl refl ih
        ∙ ap (λ ds. some (ok (map document ds))) (sym split)

    -- The rows from the start on, against the loop from its reset.
    rows_start :
        (n : ℕ) (entries : List (Bytes × Bytes)) (docs : List Document)
        → closed W t auto name ≡ ok u
        → scan store n t (reset store t (opened W t auto name)) ≡ ok entries
        → decoded entries ≡ ok docs
        → rows W (suc n) 7 (new W t auto (program name)) ≡ some (ok (map document docs))
    unfolding is_halt has_row get Visited new
    rows_start n entries docs done ran read =
        let c = reset store t (opened W t auto name) in
        let start = new W t auto (program name) in
        elim (Bool-cases (has_next c)) [
          | inr outside ↦
              rows_done n start (halted W t auto name u (pos 0)) refl
                (empty_lem W t auto name u outside done) refl
              ∙ ap (λ ds. some (ok (map document ds)))
                  (sym (no_entry n c entries docs outside ran read))
          | inl inside ↦ first_row n entries docs done inside ran read
        ]

    -- The loop over the cursor of the collection.
    abbrev pub scanned : Outcome (List (Bytes × Bytes))
    scanned = scan store (length (store.keys t)) t (reset store t (Scan.new (prefix_of name)))

    -- The code of a query for all documents answers with the documents of the loop over the cursor, in their
    -- order, and then ends: where every entry of the loop decodes and the transaction closes, the rows
    -- that the client's iterator gives are exactly these documents. Seven instructions for a call and a
    -- call more than there are keys are enough.
    pub query_all-scan :
        (skip : Bool) (entries : List (Bytes × Bytes)) (docs : List Document)
        → closed W t auto name ≡ ok u
        → scanned ≡ ok entries
        → decoded entries ≡ ok docs
        → (code : SubProgram) × (compile_query_all_by_name name skip ≡ ok code)
          × (rows W (suc (length (store.keys t))) 7 (new W t auto code)
              ≡ some (ok (map document docs)))
    unfolding reset Scan.new
    query_all-scan skip entries docs done ran read = (
      program name,
      compile_lem name skip,
      rows_start (length (store.keys t)) entries docs done ran read,
    )
