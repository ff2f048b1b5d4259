-- ===== src/UpdateOperators/Loop.antt =====
-- `validate_key`, and the loop over the fields of an operator.
use polo_db.Prelude.{Bool, if◌then◌else◌}
use polo_db.Prelude.Bytes.{Bytes, str, str_eq}
use polo_db.Errors.{Outcome, ok, err, ◌>>=◌, unable_to_update_primary_key}
use polo_db.Bson.{Bson, Document, end, entry}

-- The document, and `updated`.
abbrev pub State : Type 0
State = Document × Bool

unfoldable pub validate_key : Document → Outcome (Unit {0})
validate_key end = ok tt
validate_key (entry k _ rest) =
    if str_eq k (str "_id") then err unable_to_update_primary_key else validate_key rest

-- for (k, v) in self.doc.iter() { step }
unfoldable pub for_each : (Bytes → Bson → State → Outcome State) → Document → State → Outcome State
for_each step end s = ok s
for_each step (entry k v rest) s = do t ← step k v s; for_each step rest t
