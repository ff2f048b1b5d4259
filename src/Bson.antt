-- ===== src/Bson.antt =====
-- The values that the database stores: the `Bson` enum and the ordered documents of the bson crate,
-- and the element types that src/polodb_core/utils/bson.rs writes. Integers are ℤ, an f64 is its bit
-- pattern, a string is its UTF-8 bytes, a date its milliseconds, an object id its 12 bytes.
pub mod ElementType
pub mod Platform
pub mod Valid
pub mod Entries
use polo_db.Prelude.{ℕ, Bool, List, [], ◌∷◌}
use polo_db.Prelude.Int.{ℤ}
use polo_db.Prelude.Bytes.{Bytes}

mutual
  pub data Bson : Type 0 where
    double : ℕ → Bson
    string : Bytes → Bson
    array : Items → Bson
    document : Document → Bson
    boolean : Bool → Bson
    null : Bson
    regular_expression : (pattern options : Bytes) → Bson
    java_script_code : Bytes → Bson
    java_script_code_with_scope : Bytes → Document → Bson
    int32 : ℤ → Bson
    int64 : ℤ → Bson
    timestamp : (time increment : ℕ) → Bson
    binary : (subtype : ℕ) → Bytes → Bson
    object_id : Bytes → Bson
    date_time : ℤ → Bson
    symbol : Bytes → Bson
    decimal128 : Bytes → Bson
    undefined : Bson
    max_key : Bson
    min_key : Bson
    db_pointer : Bytes → Bytes → Bson

  -- `Vec<Bson>`
  pub data Items : Type 0 where
    nil : Items
    cons : Bson → Items → Items

  -- The entries of a document in the order of its iterator.
  pub data Document : Type 0 where
    end : Document
    entry : Bytes → Bson → Document → Document

abbrev pub to_items : List Bson → Items
to_items [] = nil
to_items (x ∷ xs) = cons x (to_items xs)

abbrev pub of_items : Items → List Bson
of_items nil = []
of_items (cons x xs) = x ∷ of_items xs

unfoldable pub element_type : Bson → ℕ
element_type (Bson.double _) = ElementType.double
element_type (Bson.string _) = ElementType.string
element_type (document _) = ElementType.document
element_type (array _) = ElementType.array
element_type (binary _ _) = ElementType.binary
element_type Bson.undefined = ElementType.undefined
element_type (Bson.object_id _) = ElementType.object_id
element_type (Bson.boolean _) = ElementType.boolean
element_type (Bson.date_time _) = ElementType.date_time
element_type Bson.null = ElementType.null
element_type (regular_expression _ _) = ElementType.regular_expression
element_type (db_pointer _ _) = ElementType.db_pointer
element_type (java_script_code _) = ElementType.java_script_code
element_type (Bson.symbol _) = ElementType.symbol
element_type (java_script_code_with_scope _ _) = ElementType.java_script_code_with_scope
element_type (Bson.int32 _) = ElementType.int32
element_type (Bson.timestamp _ _) = ElementType.timestamp
element_type (Bson.int64 _) = ElementType.int64
element_type (Bson.decimal128 _) = ElementType.decimal128
element_type max_key = ElementType.max_key
element_type min_key = ElementType.min_key
