-- ===== src/UpdateOperators/Assign/Laws.antt =====
-- What `$set`, `$unset` and `$rename` leave at every key.
use polo_db.Prelude.{
  ◌≡◌, refl, arith, ap, ◌∙◌, Bool, true, false, Option, none, some, List, [], ◌∷◌, if◌then◌else◌,
  Option-cases, inl, inr,
}
use polo_db.Prelude.Bytes.{Bytes, str_eq}
use polo_db.Errors.{ok}
use polo_db.Bson.{Bson, Document, end, entry, null}
use polo_db.Bson.Platform.{Platform}
use polo_db.UpdateOperators.Loop.{for_each}
use polo_db.UpdateOperators.Extremes.{or_null}
use polo_db.UpdateOperators.Assign.{set_fields, unset_fields, rename_field}

-- The last value that the entries give for a key, or else `old`.
abbrev pub last_value : Document → Bytes → Option Bson → Option Bson
last_value end j old = old
last_value (entry k v rest) j old = last_value rest j (if str_eq k j then some v else old)

abbrev pub contains : List Bytes → Bytes → Bool
contains [] j = false
contains (k ∷ ks) j = if str_eq k j then true else contains ks j

module _ (P : Platform) where
  -- `$set` never fails; every key then has the last value that the operator gives for it, and a key
  -- that the operator does not name keeps its own.
  pub set_fields_lem :
      (ops doc : Document) (updated : Bool)
      → (after : Document) × (flag : Bool) × (set_fields P ops (doc, updated) ≡ ok (after, flag))
        × ((j : Bytes) → P.get after j ≡ last_value ops j (P.get doc j))
  unfolding set_fields for_each
  set_fields_lem end doc updated = (doc, updated, refl, λ j. refl)
  set_fields_lem (entry k v rest) doc updated =
      let (after, flag, done, values) = set_fields_lem rest (P.insert doc k v) true in
      (after, flag, done, λ j. values j ∙ ap (last_value rest j) (P.get-insert doc k v j))

  -- `$unset` never fails; its fields are missing then, and every other key keeps its value.
  pub unset_fields_lem :
      (fields : List Bytes) (doc : Document) (updated : Bool)
      → (after : Document) × (flag : Bool) × (unset_fields P fields (doc, updated)
          ≡ ok (after, flag))
        × ((j : Bytes) → P.get after j ≡ (if contains fields j then none else P.get doc j))
  unfolding unset_fields
  unset_fields_lem [] doc updated = (doc, updated, refl, λ j. refl)
  unset_fields_lem (k ∷ ks) doc updated =
      let (after, flag, done, values) = unset_fields_lem ks (P.remove doc k) true in
      (after, flag, done, λ j. values j ∙ ground (arith, P.get-remove doc k j))

  moved :
      (doc : Document) (old new j : Bytes) (v : Bson)
      → P.get (P.insert (P.remove doc old) new v) j
        ≡ (if str_eq new j then some v else if str_eq old j then none else P.get doc j)
  moved doc old new j v =
      ground (arith, P.get-remove doc old j, P.get-insert (P.remove doc old) new v j)

  -- `$rename` moves the value of the old key, or null if there is none, to the new key; the old key is
  -- missing then unless it is the new one, and the other keys keep their values.
  pub rename_field_lem :
      (doc : Document) (old new j : Bytes)
      → P.get (rename_field P doc old new) j ≡ (
          if str_eq new j
          then some (or_null (P.get doc old))
          else if str_eq old j
          then none
          else P.get doc j)
  unfolding rename_field
  rename_field_lem doc old new j = elim (Option-cases (P.get doc old)) [
    | inl e ↦ rw (e, rename_field) (moved doc old new j null)
    | inr (v, e) ↦ rw (e, rename_field) (moved doc old new j v)
  ]
