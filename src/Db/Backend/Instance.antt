-- ===== src/Db/Backend/Instance.antt =====
-- A backend to run the code on: the list store, documents of small numbers under `_id` and names of one letter, and
-- specifications of collections without an index. It shows that the laws of `Backend` can hold.
use polo_db.Prelude.{
  Bool, ℕ, zero, suc, ◌≡◌, refl, sym, ap, ◌∙◌, true, Bool-cases, Option, none, some, inl, inr, List,
  [], ◌∷◌, if◌then◌else◌,
}
use polo_db.Prelude.Int.{ℤ, pos, negsuc}
use polo_db.Prelude.Bytes.{Bytes, str, str_eq, str_eq_iff}
use polo_db.Errors.{Error, Outcome, ok, err, panic, ◌>>=◌, bson_err}
use polo_db.Bson.{
  Bson, Document, end, entry, array, binary, boolean, date_time, db_pointer, decimal128, document,
  double, int32, int64, java_script_code, java_script_code_with_scope, max_key, min_key, null,
  object_id, regular_expression, string, symbol, timestamp, undefined,
}
use polo_db.Bson.Entries.{entries}
use polo_db.Index.{CollectionSpecification, IndexInfo, IndexOptions}
use polo_db.Store.Durable.Instance.{layered_store}
use polo_db.Vm.World.{World}
use polo_db.Vm.World.Instance.{list_world}
use polo_db.Db.Backend.{Backend}

-- A byte for a name: 0 for `_id`, the letter for a name of one letter.
abbrev pub name_code : Bytes → Option ℕ
unfolding str_eq
name_code (suc k ∷ []) = some (suc k)
name_code name = if str_eq name (str "_id") then some 0 else none

abbrev pub code_name : ℕ → Bytes
code_name zero = str "_id"
code_name (suc k) = suc k ∷ []

abbrev pub value_code : Bson → Option ℕ
value_code (int32 (pos v)) = some v
value_code _ = none

unfoldable pub read_bytes : Bytes → Outcome Document
read_bytes [] = ok end
read_bytes (k ∷ []) = err bson_err
read_bytes (k ∷ v ∷ rest) = do doc ← read_bytes rest; ok (entry (code_name k) (int32 (pos v)) doc)

abbrev pub coded : Option ℕ → Option ℕ → Outcome Bytes → Outcome Bytes
coded (some k) (some v) (ok rest) = ok (k ∷ v ∷ rest)
coded _ _ _ = err bson_err

unfoldable pub write_bytes : Document → Outcome Bytes
write_bytes end = ok []
write_bytes (entry name value rest) = coded (name_code name) (value_code value) (write_bytes rest)

id_lem :
    (name : Bytes) (k : ℕ)
    → (if str_eq name (str "_id") then some 0 else none) ≡ some k
    → code_name k ≡ name
id_lem name k h = elim (Bool-cases (str_eq name (str "_id"))) [
  | inl yes' ↦
      let e = (str_eq_iff name (str "_id")).0 yes' in
      let h' = rw yes' at h in let zero_is : 0 ≡ k = cc in ap code_name (sym zero_is) ∙ sym e
  | inr no' ↦ let h' = rw no' at h in absurd cc
]

code_name_lem : (name : Bytes) (k : ℕ) → name_code name ≡ some k → code_name k ≡ name
unfolding str_eq
code_name_lem [] k h = absurd cc
code_name_lem (zero ∷ name) k h = absurd cc
code_name_lem (suc j ∷ []) k h = let e : suc j ≡ k = cc in ap code_name (sym e)
code_name_lem (suc j ∷ c ∷ name) k h = id_lem (suc j ∷ c ∷ name) k h

value_code_lem : (value : Bson) (v : ℕ) → value_code value ≡ some v → int32 (pos v) ≡ value
value_code_lem (int32 (pos m)) v h = cc
value_code_lem (double x) v h = absurd cc
value_code_lem (string s) v h = absurd cc
value_code_lem (array a) v h = absurd cc
value_code_lem (document d) v h = absurd cc
value_code_lem (boolean b) v h = absurd cc
value_code_lem null v h = absurd cc
value_code_lem (regular_expression p o) v h = absurd cc
value_code_lem (java_script_code c) v h = absurd cc
value_code_lem (java_script_code_with_scope c s) v h = absurd cc
value_code_lem (int32 (negsuc m)) v h = absurd cc
value_code_lem (int64 n) v h = absurd cc
value_code_lem (timestamp t i) v h = absurd cc
value_code_lem (binary b s) v h = absurd cc
value_code_lem (object_id o) v h = absurd cc
value_code_lem (date_time t) v h = absurd cc
value_code_lem (symbol s) v h = absurd cc
value_code_lem (decimal128 d) v h = absurd cc
value_code_lem undefined v h = absurd cc
value_code_lem max_key v h = absurd cc
value_code_lem min_key v h = absurd cc
value_code_lem (db_pointer a b) v h = absurd cc

coded-eq-ok :
    (name value : Option ℕ) (rest : Outcome Bytes) (bytes : Bytes)
    → coded name value rest ≡ ok bytes
    → (k : ℕ) × (v : ℕ) × (more : Bytes) × (name ≡ some k)
      × (value ≡ some v)
      × (rest ≡ ok more)
      × (k ∷ v ∷ more ≡ bytes)
coded-eq-ok (some k) (some v) (ok more) bytes h = (k, v, more, refl, refl, refl, cc)
coded-eq-ok (some k) (some v) (err e) bytes h = absurd cc
coded-eq-ok (some k) (some v) panic bytes h = absurd cc
coded-eq-ok (some k) none rest bytes h = absurd cc
coded-eq-ok none value rest bytes h = absurd cc

pub read-write :
    (doc : Document) (bytes : Bytes) → write_bytes doc ≡ ok bytes → read_bytes bytes ≡ ok doc
unfolding read_bytes write_bytes
read-write end bytes h = let e : [] ≡ bytes = cc in ap read_bytes (sym e)
read-write (entry name value rest) bytes h =
    let (k, v, more, named, valued, others, made) =
      coded-eq-ok (name_code name) (value_code value) (write_bytes rest) bytes h in
    let ih = read-write rest more others in
    ap read_bytes (sym made) ∙ (rw (ih, code_name_lem name k named, value_code_lem value v valued))

-- The specification of a collection with no index, or with one on a key of one letter under a name of one letter.
abbrev pub index_spec_bytes :
    Bytes
    → List (Bytes × ℤ)
    → (name : Option Bytes) → (unique : Option Bool) → Bytes
    → Outcome Bytes
index_spec_bytes (n ∷ []) ((k ∷ [], pos (suc zero)) ∷ []) (some (m ∷ [])) none id =
    ok (1 ∷ n ∷ m ∷ k ∷ id)
index_spec_bytes _ _ _ _ _ = err bson_err

abbrev pub info_bytes : Bytes → List (Bytes × ℤ) → Option IndexOptions → Bytes → Outcome Bytes
info_bytes name keys none id = err bson_err
info_bytes name keys (some options) id = index_spec_bytes name keys options.name options.unique id

abbrev pub spec_bytes : CollectionSpecification → Outcome Bytes
spec_bytes spec = elim spec.indexes [
  | [] ↦ ok (0 ∷ spec._id)
  | (name, info) ∷ more ↦ elim more [
    | [] ↦ info_bytes name info.keys info.options spec._id
    | _ ∷ _ ↦ err bson_err
  ]
]

abbrev pub bytes_spec : Bytes → Outcome CollectionSpecification
bytes_spec (zero ∷ id) = ok (record { _id = id; indexes = [] })
bytes_spec (suc zero ∷ n ∷ m ∷ k ∷ id) = ok record {
  _id = id;
  indexes =
      (
        n ∷ [],
        record {
          keys = (k ∷ [], pos 1) ∷ [];
          options = some record { name = some (m ∷ []); unique = none };
        },
      )
      ∷ [];
}
bytes_spec _ = err bson_err

bytes_spec-parts :
    (n : Bytes) (keys : List (Bytes × ℤ)) (name : Option Bytes) (unique : Option Bool)
    (id bytes : Bytes)
    → index_spec_bytes n keys name unique id ≡ ok bytes
    → bytes_spec bytes
      ≡ ok record {
        _id = id;
        indexes =
            (n, record { keys = keys; options = some record { name = name; unique = unique } })
            ∷ [];
      }
bytes_spec-parts (n ∷ []) ((k ∷ [], pos (suc zero)) ∷ []) (some (m ∷ [])) none id bytes h =
    let e : 1 ∷ n ∷ m ∷ k ∷ id ≡ bytes = cc in ap bytes_spec (sym e)
bytes_spec-parts _ _ _ _ id bytes h = absurd cc

bytes_spec-info :
    (n : Bytes) (keys : List (Bytes × ℤ)) (options : Option IndexOptions) (id bytes : Bytes)
    → info_bytes n keys options id ≡ ok bytes
    → bytes_spec bytes
      ≡ ok record { _id = id; indexes = (n, record { keys = keys; options = options }) ∷ [] }
bytes_spec-info n keys none id bytes h = absurd cc
bytes_spec-info n keys (some options) id bytes h =
    bytes_spec-parts n keys options.name options.unique id bytes h

pub bytes_spec-spec_bytes :
    (name : Bytes) (indexes : List (Bytes × IndexInfo)) (bytes : Bytes)
    → spec_bytes (record { _id = name; indexes = indexes }) ≡ ok bytes
    → bytes_spec bytes ≡ ok (record { _id = name; indexes = indexes })
bytes_spec-spec_bytes name [] bytes h = let e : 0 ∷ name ≡ bytes = cc in ap bytes_spec (sym e)
bytes_spec-spec_bytes name ((n, info) ∷ []) bytes h =
    bytes_spec-info n info.keys info.options name bytes h
bytes_spec-spec_bytes name (_ ∷ _ ∷ _) bytes h = absurd cc

pub bytes_spec-err : (bytes : Bytes) (e : Error) → bytes_spec bytes ≡ err e → e ≡ bson_err
bytes_spec-err (zero ∷ id) e h = absurd cc
bytes_spec-err (suc zero ∷ n ∷ m ∷ k ∷ id) e h = absurd cc
bytes_spec-err _ e h = cc

abbrev pub small_world : World
small_world = record {
  platform = entries true;
  store = list_world.store;
  from_slice = read_bytes;
  to_vec = write_bytes;
  regex_match = list_world.regex_match;
  to_string = list_world.to_string;
  sort_by = list_world.sort_by;
  iteration = list_world.iteration;
}

abbrev pub small_backend : Backend
small_backend = record {
  world = small_world;
  spec_to_vec = spec_bytes;
  spec_from_slice = bytes_spec;
  spec_from_slice-to_vec = λ spec bytes h. bytes_spec-spec_bytes spec._id spec.indexes bytes h;
  spec_from_slice-err = bytes_spec-err;
  from_slice-to_vec = read-write;
}

-- The same with a store that tells what is durable.
abbrev pub durable_world : World
durable_world = record small_world { store = layered_store }

abbrev pub durable_backend : Backend
durable_backend = record {
  world = durable_world;
  spec_to_vec = spec_bytes;
  spec_from_slice = bytes_spec;
  spec_from_slice-to_vec = small_backend.spec_from_slice-to_vec;
  spec_from_slice-err = small_backend.spec_from_slice-err;
  from_slice-to_vec = read-write;
}
