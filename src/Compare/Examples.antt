-- ===== src/Compare/Examples.antt =====
-- Tests of the order, from the tests of utils/bson.rs, and the theorems at concrete values.
use polo_db.Prelude.{◌≡◌, refl, true, not, Ordering}
use polo_db.Prelude.Int.{pos, negsuc}
use polo_db.Prelude.Bytes.{str}
use polo_db.Errors.{ok, err, map_ok, bson_err}
use polo_db.Bson.{int32, int64, double, string, symbol, element_type}
use polo_db.Bson.Entries.{entries}
use polo_db.Compare.{
  value_cmp, generic_cmp, cmp_types, equal, greater, greater_equal, less, less_equal,
}
use polo_db.Compare.Order.{generic_cmp_laws}
use polo_db.Compare.Numbers.{value_cmp_cycle}

widths_do_not_matter : value_cmp (entries true) (int32 (pos 2)) (int64 (pos 3)) ≡ ok Ordering.lt
unfolding value_cmp
widths_do_not_matter = refl

symbols_are_not_compared :
    generic_cmp (entries true) less (symbol (str "a")) (symbol (str "b")) ≡ err bson_err
unfolding generic_cmp value_cmp cmp_types element_type
symbols_are_not_compared = refl

generic_cmp_laws_example :
    let P = entries true in
    let a = int32 (negsuc 4) in
    let b = int64 (pos 2) in
    (generic_cmp P greater_equal a b ≡ map_ok not (generic_cmp P less a b))
    × (generic_cmp P less_equal a b ≡ map_ok not (generic_cmp P greater a b))
    × (generic_cmp P greater a b ≡ generic_cmp P less b a)
    × (generic_cmp P greater_equal a b ≡ generic_cmp P less_equal b a)
    × (generic_cmp P equal a b ≡ generic_cmp P equal b a)
generic_cmp_laws_example = generic_cmp_laws (entries true) (int32 (negsuc 4)) (int64 (pos 2))

value_cmp_cycle_example :
    let P = entries true in
    (value_cmp P (double 5) (string (str "x")) ≡ ok Ordering.lt)
    × (value_cmp P (string (str "x")) (int32 (pos 0)) ≡ ok Ordering.lt)
    × (value_cmp P (int32 (pos 0)) (double 5) ≡ ok Ordering.lt)
value_cmp_cycle_example = value_cmp_cycle (entries true) 5 (str "x") (pos 0) refl
