-- ===== src/Vm/World.antt =====
-- What the machine takes from outside: the platform, the store, the bson crate's encoding of documents,
-- the regex crate, the standard library's sort, and the order in which a hash map is iterated.
pub mod Instance
use polo_db.Prelude.{Bool}
use polo_db.Prelude.Bytes.{Bytes}
use polo_db.Errors.{Outcome}
use polo_db.Bson.{Bson, Document}
use polo_db.Bson.Platform.{Platform}
use polo_db.Store.{Store}
use polo_db.Pipeline.Sort.{SortBy, Orders}

pub record World : Type 1 where
  pub platform : Platform
  pub store : Store
  -- `bson::from_slice` and `bson::to_vec`
  pub from_slice : Bytes → Outcome Document
  pub to_vec : Document → Outcome Bytes
  -- `RegexBuilder::build` with the flags, and `is_match`; `Bson::to_string`
  pub regex_match : (pattern flags text : Bytes) → Outcome Bool
  pub to_string : Bson → Bytes
  -- `sort_by`, and the iteration over a `HashMap` with these entries
  pub sort_by : SortBy
  pub iteration : Orders → Orders
