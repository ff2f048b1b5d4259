-- ===== src/Db/Backend.antt =====
-- What src/polodb_core/db/db_inner.rs takes from outside besides the machine: the encoding of a collection's
-- specification by serde and bson, and that what was encoded is read back.
pub mod Instance
use polo_db.Prelude.{◌≡◌}
use polo_db.Prelude.Bytes.{Bytes}
use polo_db.Errors.{Error, Outcome, ok, err, bson_err}
use polo_db.Bson.{Document}
use polo_db.Index.{CollectionSpecification}
use polo_db.Vm.World.{World}

pub record Backend : Type 1 where
  pub world : World
  pub spec_to_vec : CollectionSpecification → Outcome Bytes
  pub spec_from_slice : Bytes → Outcome CollectionSpecification
  pub spec_from_slice-to_vec :
      (spec : CollectionSpecification) (bytes : Bytes)
      → spec_to_vec spec ≡ ok bytes
      → spec_from_slice bytes ≡ ok spec
  -- What does not decode is an error of bson.
  pub spec_from_slice-err :
      (bytes : Bytes) (e : Error) → spec_from_slice bytes ≡ err e → e ≡ bson_err
  pub from_slice-to_vec :
      (doc : Document) (bytes : Bytes)
      → world.to_vec doc ≡ ok bytes
      → world.from_slice bytes ≡ ok doc
