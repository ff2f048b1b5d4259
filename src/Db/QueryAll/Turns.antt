-- ===== src/Db/QueryAll/Turns.antt =====
-- The turns of the machine on the code of `compile_query_all`.
use polo_db.Vm.Label.{LabelSlot}
use polo_db.Vm.Codegen.Compile.{compile_query_all_by_name}
use polo_db.Errors.{Outcome, ok}
use polo_db.Vm.Program.{SubProgram}
use polo_db.Vm.Machine.{Signal, default_frame, VmState, u32_at, new, Vm}
use polo_db.Prelude.{
  ap, ℕ, suc, ◌≡◌, refl, Bool, true, false, Option, none, some, List, [], ◌∷◌, ◌++◌, if◌then◌else◌,
  Bool-cases, inl, inr,
}
use polo_db.Prelude.Int.{ℤ, pos}
use polo_db.Prelude.Bytes.{Bytes}
use polo_db.Bson.{Bson, Document, document, string}
use polo_db.Bson.ElementType
use polo_db.Keys.{stacked_key_bytes}
use polo_db.Scan.{Cursor, has_next, reset, copy_data}
use polo_db.Scan
use polo_db.Vm.World.{World}
use polo_db.Vm.Cursors.{
  next_row, push_current, reset_cursor, close_txn, open_cursor, prefix_bytes_from_bson,
}
use polo_db.Vm.Arms.{next_arm, rewind_arm, close_arm, open_arm}
use polo_db.Vm.Execute.{step, turn, run, execute}
use polo_db.Vm.Steps.{run_go, run_stop}

-- The program: open, rewind, the loop, and the end.
abbrev pub code : Bytes
code =
    43 ∷ 0 ∷ 0 ∷ 0 ∷ 0 ∷ 7 ∷ 25 ∷ 0 ∷ 0 ∷ 0 ∷ 4 ∷ 32 ∷ 0 ∷ 0 ∷ 0 ∷ 1 ∷ 1 ∷ 0 ∷ 0 ∷ 0 ∷ 10 ∷ 32 ∷ 0
    ∷ 0 ∷ 0 ∷ 1 ∷ 2 ∷ 0 ∷ 0 ∷ 0 ∷ 46 ∷ 58 ∷ 1 ∷ 0 ∷ 0 ∷ 0 ∷ 0 ∷ 45 ∷ 32 ∷ 4 ∷ 15 ∷ 0 ∷ 0 ∷ 0 ∷ []

-- The key of the collection, which its documents' keys begin with.
abbrev pub prefix_of : Bytes → Bytes
prefix_of name = ElementType.string ∷ (name ++ 0 ∷ [])

abbrev pub program : Bytes → SubProgram
program name = record {
  static_values = string name ∷ [];
  instructions = code;
  global_variables = [];
  label_slots =
      LabelSlot.unnamed_label 32 ∷ LabelSlot.unnamed_label 15 ∷ LabelSlot.unnamed_label 25 ∷ [];
  index_infos = [];
  external_funcs = [];
  update_operators = [];
}

pub compile_lem :
    (name : Bytes) (skip : Bool) → compile_query_all_by_name name skip ≡ ok (program name)
unfolding compile_query_all_by_name
compile_lem name skip = refl

module _ (W : World) where
  open W use {platform, store, from_slice}

  -- The machine of this program.
  abbrev pub machine : store.Txn → Bool → Bytes → VmState → ℕ → ℤ → Option Cursor → List Bson → Vm W
  machine t auto name state pc r0 r1 stack = record {
    txn = t;
    auto_commit = auto;
    state = state;
    pc = pc;
    r0 = r0;
    r1 = r1;
    r2 = pos 0;
    r3 = 0;
    r4 = pos 0;
    stack = stack;
    frames = default_frame ∷ [];
    program = program name;
    global_vars = [];
    index_value = none;
  }

  module _ (t : store.Txn) (auto : Bool) (name : Bytes) where
    abbrev pub running : ℕ → ℤ → Option Cursor → List Bson → Vm W
    running pc r0 r1 stack = machine t auto name VmState.running pc r0 r1 stack

    -- Behind `ResultRow`, with the document on the stack and the cursor on its key.
    abbrev pub at_row : ℤ → Cursor → Document → Vm W
    at_row r0 cursor doc =
        machine t auto name VmState.has_row 38 r0 (some cursor) (document doc ∷ [])

    goto_loop :
        (r0 : ℤ) (c : Option Cursor) (doc : Document)
        → turn W (running 38 r0 c (document doc ∷ [])) ≡ (running 39 r0 c [], Signal.go)
    unfolding turn u32_at
    goto_loop r0 c doc = refl

    to_loop :
        (r0 : ℤ) (c : Option Cursor) → turn W (running 39 r0 c []) ≡ (running 15 r0 c [], Signal.go)
    unfolding turn u32_at
    to_loop r0 c = refl

    at_loop :
        (r0 : ℤ) (c : Option Cursor) → turn W (running 15 r0 c []) ≡ (running 20 r0 c [], Signal.go)
    unfolding turn u32_at
    at_loop r0 c = refl

    next_more :
        (item : Bytes) (r0 : ℤ) (c d : Cursor) (doc : Document)
        → Scan.next store t c ≡ ok d
        → has_next d ≡ true
        → copy_data store t d ≡ ok item
        → from_slice item ≡ ok doc
        → turn W (running 20 r0 (some c) [])
          ≡ (running 32 (pos 1) (some d) (document doc ∷ []), Signal.go)
    unfolding turn next_arm next_row push_current step u32_at default_frame
    next_more item r0 c d doc moved more read decoded = elim (Bool-cases platform.overflow_checks) [
      | inl checked ↦ rw (moved, more, read, decoded, checked)
      | inr unchecked ↦ rw (moved, more, read, decoded, unchecked)
    ]

    at_result :
        (r0 : ℤ) (c : Option Cursor) (doc : Document)
        → turn W (running 32 r0 c (document doc ∷ []))
          ≡ (running 37 r0 c (document doc ∷ []), Signal.go)
    unfolding turn u32_at
    at_result r0 c doc = refl

    result_row :
        (r0 : ℤ) (c : Cursor) (doc : Document)
        → turn W (running 37 r0 (some c) (document doc ∷ [])) ≡ (at_row r0 c doc, Signal.stop)
    unfolding turn
    result_row r0 c doc = refl

    -- From a row to the next, and how a run gets to it.
    to_next :
        (fuel : ℕ) (r0 : ℤ) (c : Cursor) (doc : Document) (result : Vm W × Signal)
        → run W fuel (running 20 r0 (some c) []) ≡ result
        → execute W (suc (suc (suc fuel))) (at_row r0 c doc) ≡ result
    unfolding execute
    to_next fuel r0 c doc result ran =
        let a = running 38 r0 (some c) (document doc ∷ []) in
        let b = running 39 r0 (some c) [] in
        let d = running 15 r0 (some c) [] in
        let e = running 20 r0 (some c) [] in
        run_go W (suc (suc fuel)) a b result (goto_loop r0 (some c) doc) (
          run_go W (suc fuel) b d result (to_loop r0 (some c))
            (run_go W fuel d e result (at_loop r0 (some c)) ran))

    pub next_lem :
        (item : Bytes) (r0 : ℤ) (c d : Cursor) (doc next : Document)
        → Scan.next store t c ≡ ok d
        → has_next d ≡ true
        → copy_data store t d ≡ ok item
        → from_slice item ≡ ok next
        → execute W 7 (at_row r0 c doc) ≡ (at_row (pos 1) d next, Signal.stop)
    next_lem item r0 c d doc next moved more read decoded =
        let a = running 20 r0 (some c) [] in
        let b = running 32 (pos 1) (some d) (document next ∷ []) in
        let e = running 37 (pos 1) (some d) (document next ∷ []) in
        let result : Vm W × Signal = (at_row (pos 1) d next, Signal.stop) in
        to_next 4 r0 c doc result (
          run_go W 3 a b result (next_more item r0 c d next moved more read decoded) (
            run_go W 2 b e result (at_result (pos 1) (some d) next)
              (run_stop W 1 e (at_row (pos 1) d next) (result_row (pos 1) d next))))

    next_end :
        (r0 : ℤ) (c d : Cursor)
        → Scan.next store t c ≡ ok d
        → has_next d ≡ false
        → turn W (running 20 r0 (some c) []) ≡ (running 25 (pos 0) (some d) [], Signal.go)
    unfolding turn next_arm next_row push_current step u32_at default_frame
    next_end r0 c d moved less = rw (moved, less)

    at_close :
        (r0 : ℤ) (c : Option Cursor) → turn W (running 25 r0 c []) ≡ (running 30 r0 c [], Signal.go)
    unfolding turn u32_at
    at_close r0 c = refl

    ok-injective : (v u : store.Txn) → ◌≡◌ {A = Outcome store.Txn} (ok v) (ok u) → v ≡ u
    ok-injective v u h = cc

    -- What `Close` does with the transaction.
    abbrev pub closed : Outcome store.Txn
    closed = if auto then store.commit t else ok t

    close_lem :
        (u : store.Txn) (r0 : ℤ) (c : Option Cursor)
        → closed ≡ ok u
        → turn W (running 30 r0 c [])
          ≡ (machine u auto name VmState.running 31 r0 none [], Signal.go)
    unfolding turn close_arm close_txn step
    close_lem u r0 c done = elim (Bool-cases auto) [
      | inl e ↦ let committed : store.commit t ≡ ok u = rw e at done in rw (e, committed)
      | inr e ↦
          let same : t ≡ u = ok-injective t u (rw e at done) in
          rw e (ap (λ v. (machine v false name VmState.running 31 r0 none [], Signal.go)) same)
    ]

    abbrev pub halted : store.Txn → ℤ → Vm W
    halted u r0 = machine u auto name VmState.halt 31 r0 none []

    halt_lem :
        (u : store.Txn) (r0 : ℤ)
        → turn W (machine u auto name VmState.running 31 r0 none []) ≡ (halted u r0, Signal.stop)
    unfolding turn
    halt_lem u r0 = refl

    end_lem :
        (fuel : ℕ) (u : store.Txn) (r0 : ℤ) (c : Option Cursor)
        → closed ≡ ok u
        → run W (suc (suc (suc fuel))) (running 25 r0 c []) ≡ (halted u r0, Signal.stop)
    end_lem fuel u r0 c done =
        let a = running 25 r0 c [] in
        let b = running 30 r0 c [] in
        let d = machine u auto name VmState.running 31 r0 none [] in
        let result : Vm W × Signal = (halted u r0, Signal.stop) in
        run_go W (suc (suc fuel)) a b result (at_close r0 c) (
          run_go W (suc fuel) b d result (close_lem u r0 c done)
            (run_stop W fuel d (halted u r0) (halt_lem u r0)))

    pub last_lem :
        (u : store.Txn) (r0 : ℤ) (c d : Cursor) (doc : Document)
        → Scan.next store t c ≡ ok d
        → has_next d ≡ false
        → closed ≡ ok u
        → execute W 7 (at_row r0 c doc) ≡ (halted u (pos 0), Signal.stop)
    last_lem u r0 c d doc moved less done =
        let a = running 20 r0 (some c) [] in
        let b = running 25 (pos 0) (some d) [] in
        let result : Vm W × Signal = (halted u (pos 0), Signal.stop) in
        to_next 4 r0 c doc result
          (run_go W 3 a b result (next_end r0 c d moved less) (end_lem 0 u (pos 0) (some d) done))

    -- The cursor that a query begins with.
    abbrev pub opened : Cursor
    opened = record {
      prefix_bytes = prefix_of name;
      position = store.seek t [];
      current_key = none;
    }

    open_lem : turn W (running 0 (pos 0) none []) ≡ (running 5 (pos 0) (some opened) [], Signal.go)
    unfolding turn u32_at open_arm open_cursor prefix_bytes_from_bson step stacked_key_bytes
        default_frame
    open_lem = refl

    rewind_row :
        (item : Bytes) (c : Cursor) (doc : Document)
        → has_next (reset store t c) ≡ true
        → copy_data store t (reset store t c) ≡ ok item
        → from_slice item ≡ ok doc
        → turn W (running 5 (pos 0) (some c) [])
          ≡ (running 10 (pos 0) (some (reset store t c)) (document doc ∷ []), Signal.go)
    unfolding turn u32_at rewind_arm reset_cursor push_current step
    rewind_row item c doc more read decoded = rw (more, read, decoded)

    rewind_end :
        (c : Cursor)
        → has_next (reset store t c) ≡ false
        → turn W (running 5 (pos 0) (some c) [])
          ≡ (running 25 (pos 0) (some (reset store t c)) [], Signal.go)
    unfolding turn u32_at rewind_arm reset_cursor push_current step
    rewind_end c less = rw less

    first_goto :
        (c : Cursor) (doc : Document)
        → turn W (running 10 (pos 0) (some c) (document doc ∷ []))
          ≡ (running 32 (pos 0) (some c) (document doc ∷ []), Signal.go)
    unfolding turn u32_at
    first_goto c doc = refl

    pub first_lem :
        (item : Bytes) (doc : Document)
        → has_next (reset store t opened) ≡ true
        → copy_data store t (reset store t opened) ≡ ok item
        → from_slice item ≡ ok doc
        → execute W 7 (new W t auto (program name))
          ≡ (at_row (pos 0) (reset store t opened) doc, Signal.stop)
    unfolding execute new
    first_lem item doc more read decoded =
        let c = reset store t opened in
        let result : Vm W × Signal = (at_row (pos 0) c doc, Signal.stop) in
        let a = running 0 (pos 0) none [] in
        let b = running 5 (pos 0) (some opened) [] in
        let d = running 10 (pos 0) (some c) (document doc ∷ []) in
        let e = running 32 (pos 0) (some c) (document doc ∷ []) in
        let f = running 37 (pos 0) (some c) (document doc ∷ []) in
        run_go W 6 a b result open_lem (
          run_go W 5 b d result (rewind_row item opened doc more read decoded) (
            run_go W 4 d e result (first_goto c doc) (
              run_go W 3 e f result (at_result (pos 0) (some c) doc)
                (run_stop W 2 f (at_row (pos 0) c doc) (result_row (pos 0) c doc)))))

    pub empty_lem :
        (u : store.Txn)
        → has_next (reset store t opened) ≡ false
        → closed ≡ ok u
        → execute W 7 (new W t auto (program name)) ≡ (halted u (pos 0), Signal.stop)
    unfolding execute new
    empty_lem u less done =
        let c = reset store t opened in
        let result : Vm W × Signal = (halted u (pos 0), Signal.stop) in
        let a = running 0 (pos 0) none [] in
        let b = running 5 (pos 0) (some opened) [] in
        let d = running 25 (pos 0) (some c) [] in
        run_go W 6 a b result open_lem
          (run_go W 5 b d result (rewind_end opened less) (end_lem 2 u (pos 0) (some c) done))
