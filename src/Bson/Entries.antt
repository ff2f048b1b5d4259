-- ===== src/Bson/Entries.antt =====
-- A platform to run the code on: documents are searched entry by entry, floats are zero bits. It shows
-- that the laws of `Platform` can hold, and serves the tests.
use polo_db.Prelude.{◌≡◌, refl, arith, Bool, Option, none, some, if◌then◌else◌}
use polo_db.Prelude.Bytes.{Bytes, str_eq, str_eq_iff}
use polo_db.Bson.{Bson, Document, end, entry}
use polo_db.Bson.Platform.{Platform}

unfoldable pub get : Document → Bytes → Option Bson
unfolding str_eq
get end j = none
get (entry k v d) j = if str_eq k j then some v else get d j

unfoldable pub insert : Document → Bytes → Bson → Document
unfolding str_eq
insert end k v = entry k v end
insert (entry i w d) k v = if str_eq i k then entry k v d else entry i w (insert d k v)

unfoldable pub remove : Document → Bytes → Document
unfolding str_eq
remove end k = end
remove (entry i w d) k = let rest = remove d k in if str_eq i k then rest else entry i w rest

pub get-empty : (j : Bytes) → get end j ≡ none
unfolding get
get-empty j = refl

pub get-insert :
    (d : Document) (k : Bytes) (v : Bson) (j : Bytes)
    → get (insert d k v) j ≡ (if str_eq k j then some v else get d j)
unfolding get insert
get-insert end k v j = refl
get-insert (entry i w d) k v j =
    ground (arith, get-insert d k v j, str_eq_iff i k, str_eq_iff i j, str_eq_iff k j)

pub get-remove :
    (d : Document) (k j : Bytes) → get (remove d k) j ≡ (if str_eq k j then none else get d j)
unfolding get remove
get-remove end k j = ground arith
get-remove (entry i w d) k j =
    ground (arith, get-remove d k j, str_eq_iff i k, str_eq_iff i j, str_eq_iff k j)

abbrev pub entries : Bool → Platform
entries checks = record {
  get = get;
  insert = insert;
  remove = remove;
  get-empty = get-empty;
  get-insert = get-insert;
  get-remove = get-remove;
  f64_add = λ a b. 0;
  f64_mul = λ a b. 0;
  f64_of_int = λ i. 0;
  overflow_checks = checks;
}
