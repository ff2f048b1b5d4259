-- ===== src/UpdateOperators/Arrays/Laws.antt =====
-- `$push` and `$pop` on an array field.
use polo_db.Prelude.{◌≡◌, refl, ap, ◌∙◌, true, false, some}
use polo_db.Prelude.Int.{pos, negsuc}
use polo_db.Prelude.Bytes.{Bytes, str_eq_refl}
use polo_db.Errors.{Outcome, ok, ◌>>=◌}
use polo_db.Bson.{Bson, Document, end, entry, Items, nil, cons, array, int32}
use polo_db.Bson.Platform.{Platform}
use polo_db.UpdateOperators.Loop.{State, for_each}
use polo_db.UpdateOperators.Arrays.{
  push_back, drop_last, pop_map, push_step, push_fields, pop_value, pop_fields,
}

drop_last-push_back : (xs : Items) (v : Bson) → drop_last (push_back xs v) ≡ xs
unfolding drop_last push_back
drop_last-push_back nil v = refl
drop_last-push_back (cons x nil) v = refl
drop_last-push_back (cons x (cons y xs)) v = ap (cons x) (drop_last-push_back (cons y xs) v)

module _ (P : Platform) where
  -- `$pop: { k: n }` as the user writes it.
  abbrev pub pop_one : Bytes → Bson → (name path : Bytes) → State → Outcome State
  pop_one k n name path s = do map ← pop_map (entry k n end) name path; pop_fields P map s

  -- On an array that is not empty, `$pop` with 1 drops the first element and `$pop` with -1 the last.
  pub pop_ends :
      (k name path : Bytes) (x : Bson) (xs : Items) (s : State)
      → P.get s.0 k ≡ some (array (cons x xs))
      → (pop_one k (int32 (pos 1)) name path s ≡ ok (P.insert s.0 k (array xs), true))
        × (pop_one k (int32 (negsuc 0)) name path s
            ≡ ok (P.insert s.0 k (array (drop_last (cons x xs))), true))
  unfolding pop_map pop_fields
  pop_ends k name path x xs s h = (rw h, rw h)

  push_array :
      (k : Bytes) (v : Bson) (xs : Items) (s : State)
      → P.get s.0 k ≡ some (array xs)
      → push_step P k v s ≡ ok (P.insert s.0 k (array (push_back xs v)), true)
  unfolding push_step
  push_array k v xs s h = rw h

  pop_last :
      (k : Bytes) (xs : Items) (v : Bson) (s : State)
      → pop_value P k false (array (push_back xs v)) s ≡ ok (P.insert s.0 k (array xs), true)
  unfolding pop_value push_back drop_last
  pop_last k nil v s = refl
  pop_last k (cons x xs) v s = rw (drop_last-push_back (cons x xs) v)

  -- Pushing a value to an array and popping at the end gives the array back.
  pub pop-push :
      (k name path : Bytes) (v : Bson) (xs : Items) (s : State)
      → P.get s.0 k ≡ some (array xs)
      → (t : State) × ((push_fields P (entry k v end) s >>= pop_one k (int32 (negsuc 0)) name path)
          ≡ ok t)
        × (P.get t.0 k ≡ some (array xs))
  unfolding pop_map pop_fields push_fields for_each
  pop-push k name path v xs s h =
      let pushed : Document = P.insert s.0 k (array (push_back xs v)) in
      let found : P.get pushed k ≡ some (array (push_back xs v)) =
        P.get-insert s.0 k (array (push_back xs v)) k ∙ rw (str_eq_refl k) in
      (
        (P.insert pushed k (array xs), true),
        rw (push_array k v xs s h, found, pop_last k xs v (pushed, true)),
        P.get-insert pushed k (array xs) k ∙ rw (str_eq_refl k),
      )
