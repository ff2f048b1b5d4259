-- ===== src/Pipeline/Sort.antt =====
-- src/polodb_core/vm/vm_sort.rs. The order of the fields is a hash map: the order in which it is iterated
-- and the stable sort of the standard library are arguments.
use polo_db.Prelude.{
  ℕ, zero, suc, ◌+◌, ◌%◌, ◌^◌, leb, length, get_elem?, Bool, Option, none, some, List, [], ◌∷◌,
  ◌++◌, Ordering,
}
use polo_db.Prelude.Int.{ℤ, pos, negsuc, of_word, to_word}
use polo_db.Prelude.Bytes.{Bytes, str}
use polo_db.Errors.{Outcome, ok, err, panic, ◌>>=◌, map_ok, validation_error}
use polo_db.Bson.{Bson, Document, end, entry, int32, int64, null, document}
use polo_db.Bson.Platform.{Platform}
use polo_db.Compare.{value_cmp}
use polo_db.UpdateOperators.Arithmetic.{machine_int}
use polo_db.Pipeline.{Status, first_argument, mk_invalid_aggregate_field}

-- `sort_by` with a comparison that may panic
abbrev pub SortBy : Type 0
SortBy = (Document → Document → Outcome Ordering) → List Document → Outcome (List Document)

abbrev pub Orders : Type 0
Orders = List (Bytes × ℤ)

pub record VmFuncSort : Type 0 where
  pub order_map : Orders
  pub buffer : List Document
  pub idx : ℕ

-- `val as i8`
abbrev as_i8 : ℤ → ℤ
as_i8 val = of_word 7 (to_word 63 val % 2 ^ 8)

unfoldable pub sort_orders : Document → Outcome Orders
sort_orders end = ok []
sort_orders (entry k (int32 val) rest) =
    map_ok (λ orders. (k, as_i8 val) ∷ orders) (sort_orders rest)
sort_orders (entry k (int64 val) rest) =
    map_ok (λ orders. (k, as_i8 val) ∷ orders) (sort_orders rest)
sort_orders (entry k _ rest) = err (validation_error (str "Invalid sort value"))

unfoldable pub i8_to_ordering : ℤ → Ordering
i8_to_ordering (pos (suc zero)) = Ordering.lt
i8_to_ordering (negsuc zero) = Ordering.gt
i8_to_ordering _ = Ordering.eq

abbrev negated : ℤ → ℤ
negated (pos zero) = pos 0
negated (pos (suc n)) = negsuc n
negated (negsuc n) = pos (suc n)

unfoldable pub sort_compile : (Orders → Orders) → List Bytes → Bson → Outcome VmFuncSort
unfolding sort_orders
sort_compile iteration paths (document doc) = do
  orders ← sort_orders doc
  ok record { order_map = iteration orders; buffer = []; idx = 0 }
sort_compile iteration paths _ = err (mk_invalid_aggregate_field paths)

module _ (P : Platform) where
  -- `-*v`, an overflow for -128.
  abbrev reversed : ℤ → Outcome Ordering
  reversed v = map_ok i8_to_ordering (machine_int P 7 (negated v))

  -- The order of two values under a field, or the rest of the fields if they are equal.
  abbrev by_values : ℤ → Bson → Bson → Outcome Ordering → Outcome Ordering
  by_values v a b rest = elim (value_cmp P a b) [
    | ok Ordering.eq ↦ rest
    | ok Ordering.lt ↦ ok (i8_to_ordering v)
    | ok Ordering.gt ↦ reversed v
    | _ ↦ panic
  ]

  abbrev by_field : ℤ → Option Bson → Option Bson → Outcome Ordering → Outcome Ordering
  by_field v (some a) (some b) rest = by_values v a b rest
  by_field v (some _) none rest = ok (i8_to_ordering v)
  by_field v none (some _) rest = reversed v
  by_field v none none rest = rest

  unfoldable pub sort_cmp : Orders → Document → Document → Outcome Ordering
  unfolding i8_to_ordering
  sort_cmp [] a b = ok Ordering.eq
  sort_cmp ((k, v) ∷ orders) a b = by_field v (P.get a k) (P.get b k) (sort_cmp orders a b)

  abbrev row_or_null : Option Document → Bson
  row_or_null none = null
  row_or_null (some doc) = document doc

  module _ (sort_by : SortBy) where
    -- Every call with null sorts the buffer, and takes the next of its documents.
    unfoldable pub sort_value : VmFuncSort → Bson → Outcome (VmFuncSort × Status)
    unfolding sort_cmp
    sort_value s (document doc) = ok (record s { buffer = s.buffer ++ doc ∷ [] }, Status.continue)
    sort_value s null = do
      sorted ← sort_by (sort_cmp s.order_map) s.buffer
      ok (
        record s { buffer = sorted; idx = (s.idx + 1) % 2 ^ 64 },
        Status.next (row_or_null (get_elem? sorted s.idx)),
      )
    sort_value s _ = err (validation_error (str "Invalid sort value"))

    unfoldable pub sort_call : VmFuncSort → List Bson → Outcome (VmFuncSort × Status)
    unfolding sort_value
    sort_call s args = do arg0 ← first_argument args; sort_value s arg0

unfoldable pub sort_is_completed : VmFuncSort → Bool
sort_is_completed s = leb (length s.buffer) s.idx
