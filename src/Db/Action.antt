-- ===== src/Db/Action.antt =====
-- The queries under construction in src/polodb_core/action: find.rs and aggregate.rs. `auto` is the flag of the
-- transaction: `false` for one that the client has begun, `true` for one that starts with the query. The database is
-- open.
use polo_db.Prelude.{ℕ, Bool, Option, none, some, List, [], ◌∷◌, ◌++◌}
use polo_db.Prelude.Int.{of_word}
use polo_db.Prelude.Bytes.{Bytes, str}
use polo_db.Bson.{Bson, Document, end, entry, document, int64}
use polo_db.Vm.Machine.{Vm}
use polo_db.Db.Backend.{Backend}
use polo_db.Db.Transaction.{Db}
use polo_db.Db.Read.{find_with_owned_session, aggregate_with_owned_session}

pub record Find : Type 0 where
  pub name : Bytes
  pub filter : Document
  pub skip : Option ℕ
  pub limit : Option ℕ
  pub sort : Option Document

unfoldable pub new_find : Bytes → Document → Find
new_find name filter = record {
  name = name;
  filter = filter;
  skip = none;
  limit = none;
  sort = none;
}

unfoldable pub skip : Find → ℕ → Find
skip self n = record self { skip = some n }

unfoldable pub limit : Find → ℕ → Find
limit self n = record self { limit = some n }

unfoldable pub sort : Find → Document → Find
sort self keys = record self { sort = some keys }

abbrev stage : Bytes → Bson → Document
stage name value = entry name value end

-- `as i64`
unfoldable pub count_stage : Bytes → Option ℕ → List Document
count_stage name none = []
count_stage name (some n) = stage name (int64 (of_word 63 n)) ∷ []

abbrev sort_stage : Option Document → List Document
sort_stage none = []
sort_stage (some keys) = stage (str "$sort") (document keys) ∷ []

unfoldable pub find_pipeline : Find → List Document
unfolding count_stage of_word
find_pipeline self =
    stage (str "$match") (document self.filter) ∷ sort_stage self.sort
    ++ count_stage (str "$skip") self.skip
    ++ count_stage (str "$limit") self.limit

module _ (B : Backend) where
  open B use {world}
  open world use {store}
  open store use {Txn}

  abbrev run_with : Bool → Find → Option ℕ → Option ℕ → Option Document → Db Txn (Vm world)
  unfolding find_with_owned_session aggregate_with_owned_session find_pipeline
  run_with auto self none none none = find_with_owned_session B auto self.name (some self.filter)
  run_with auto self _ _ _ = aggregate_with_owned_session B auto self.name (find_pipeline self)

  -- `Find::run`
  unfoldable pub run : Bool → Find → Db Txn (Vm world)
  unfolding find_with_owned_session aggregate_with_owned_session find_pipeline
  run auto self = run_with auto self self.skip self.limit self.sort

  -- `Aggregate::run`
  unfoldable pub run_aggregate : Bool → Bytes → List Document → Db Txn (Vm world)
  unfolding aggregate_with_owned_session
  run_aggregate auto name pipeline = aggregate_with_owned_session B auto name pipeline
