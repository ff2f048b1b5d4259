-- ===== src/LineDiff/Distance.antt =====
-- The matrix of the line diff against the edit distance by its recursion.
use polo_db.Prelude.{
  ℕ, zero, suc, ◌+◌, ◌≡◌, refl, ap, sym, ◌∙◌, arith, ltb, Option, some, none, List, [], ◌∷◌,
  if◌then◌else◌, length, get_elem?, Bool-cases, inl, inr,
}
use polo_db.Prelude.Bytes.{Bytes, str_eq}
use polo_db.LineDiff.{DiffOp, Item, minimum, cell, first_row, fill_row, fill_matrix}

-- The least of three.
abbrev least : ℕ → ℕ → ℕ → ℕ
least a b c = if ltb a b then (if ltb a c then a else c) else (if ltb b c then b else c)

-- The least number of lines to delete, to insert or to replace; the texts are given from the end.
pub edit_distance : List Bytes → List Bytes → ℕ
edit_distance [] ms = length ms
edit_distance (a ∷ ls) [] = suc (length ls)
edit_distance (a ∷ ls) (b ∷ ms) =
    least (edit_distance ls (b ∷ ms) + 1) (edit_distance (a ∷ ls) ms + 1)
      (edit_distance ls ms + (if str_eq a b then 0 else 1))

edit_distance-nil : (ls : List Bytes) → edit_distance ls [] ≡ length ls
unfolding edit_distance
edit_distance-nil [] = refl
edit_distance-nil (a ∷ ls) = refl

abbrev pub rev_onto : List Bytes → List Bytes → List Bytes
rev_onto [] acc = acc
rev_onto (x ∷ xs) acc = rev_onto xs (x ∷ acc)

-- A row holds the distances of the lines `ls` to the lines `ms` with more and more of `rest`.
abbrev IsRow : List Bytes → List Bytes → List Bytes → List Item → Type 0
IsRow ls ms rest [] = ⊥
IsRow ls ms [] (item ∷ row) = item.distance ≡ edit_distance ls ms
IsRow ls ms (b ∷ rest) (item ∷ row) =
    (item.distance ≡ edit_distance ls ms) × IsRow ls (b ∷ ms) rest row

minimum_distance : (a b c : ℕ) (op : DiffOp) → (minimum a b c op).distance ≡ least a b c
unfolding minimum
minimum_distance a b c op = ground arith

cell_distance :
    (line1 line2 : Bytes) (above left corner : Item)
    → (cell line1 line2 above left corner).distance
      ≡ least
          (above.distance + 1)
          (left.distance + 1)
          (corner.distance + (if str_eq line1 line2 then 0 else 1))
unfolding cell
cell_distance line1 line2 above left corner = elim (Bool-cases (str_eq line1 line2)) [
  | inl same ↦ ground arith
  | inr differ ↦ ground arith
]

cell-edit_distance :
    (a b : Bytes) (ls ms : List Bytes) (above left corner : Item)
    → above.distance ≡ edit_distance ls (b ∷ ms)
    → left.distance ≡ edit_distance (a ∷ ls) ms
    → corner.distance ≡ edit_distance ls ms
    → (cell a b above left corner).distance ≡ edit_distance (a ∷ ls) (b ∷ ms)
unfolding edit_distance
cell-edit_distance a b ls ms above left corner h k l =
    cell_distance a b above left corner ∙ rw (h, k, l)

first_row-IsRow :
    (j : ℕ) (ms rest : List Bytes) → length ms ≡ j → IsRow [] ms rest (first_row j rest)
unfolding first_row edit_distance
first_row-IsRow j ms [] h = sym h
first_row-IsRow j ms (b ∷ rest) h = (sym h, first_row-IsRow (suc j) (b ∷ ms) rest (omega arith))

head_distance :
    (ls ms rest : List Bytes) (item : Item) (row : List Item)
    → IsRow ls ms rest (item ∷ row)
    → item.distance ≡ edit_distance ls ms
head_distance ls ms [] item row h = h
head_distance ls ms (b ∷ rest) item row (h, hs) = h

fill_row-IsRow :
    (a : Bytes) (ls ms rest : List Bytes) (row : List Item) (left : Item)
    → IsRow ls ms rest row
    → left.distance ≡ edit_distance (a ∷ ls) ms
    → IsRow (a ∷ ls) ms rest (fill_row a rest row left)
unfolding fill_row
fill_row-IsRow a ls ms [] row left h e = e
fill_row-IsRow a ls ms (b ∷ rest) [] left h e = absurd h
fill_row-IsRow a ls ms (b ∷ rest) (corner ∷ []) left (h, hs) e = absurd hs
fill_row-IsRow a ls ms (b ∷ rest) (corner ∷ above ∷ row) left (h, hs) e = (
  e,
  fill_row-IsRow a ls (b ∷ ms) rest (above ∷ row) (cell a b above left corner) hs (
      cell-edit_distance a b ls ms above left corner (head_distance ls (b ∷ ms) rest above row hs) e
        h),
)

-- The distance in a cell, if there is one.
abbrev pub distance_at : List (List Item) → ℕ → ℕ → Option ℕ
distance_at matrix i j = elim (get_elem? matrix i) [
  | none ↦ none
  | some row ↦ elim (get_elem? row j) [ none ↦ none | some item ↦ some item.distance ]
]

distance_at-some :
    (matrix : List (List Item)) (row : List Item) (item : Item) (i j : ℕ)
    → get_elem? matrix i ≡ some row
    → get_elem? row j ≡ some item
    → distance_at matrix i j ≡ some item.distance
distance_at-some matrix row item i j h k = ground (arith, h, k)

row_last :
    (ls ms rest : List Bytes) (row : List Item)
    → IsRow ls ms rest row
    → (item : Item) × (get_elem? row (length rest) ≡ some item)
      × (item.distance ≡ edit_distance ls (rev_onto rest ms))
row_last ls ms [] [] h = absurd h
row_last ls ms [] (item ∷ row) h = (item, refl, h)
row_last ls ms (b ∷ rest) [] h = absurd h
row_last ls ms (b ∷ rest) (item ∷ row) (h, hs) = row_last ls (b ∷ ms) rest row hs

matrix_last :
    (i : ℕ) (ls rest ms : List Bytes) (row : List Item)
    → length ls ≡ i
    → IsRow ls [] ms row
    → distance_at (fill_matrix i rest ms row) (length rest) (length ms)
      ≡ some (edit_distance (rev_onto rest ls) (rev_onto ms []))
unfolding fill_matrix
matrix_last i ls [] ms row e h =
    let (item, at, d) = row_last ls [] ms row h in
    distance_at-some (row ∷ []) row item zero (length ms) refl at ∙ ap some d
matrix_last i ls (a ∷ rest) ms row e h =
    matrix_last (suc i) (a ∷ ls) rest ms _ (omega arith)
      (fill_row-IsRow a ls [] ms row _ h (sym (ap suc e) ∙ sym (edit_distance-nil (a ∷ ls))))

-- The distance in the last cell of the matrix of two texts is their edit distance: the least number of
-- lines to delete, to insert or to replace, by the recursion on the last lines of both.
pub fill_matrix-edit_distance :
    (a_lines b_lines : List Bytes)
    → distance_at
        (fill_matrix 0 a_lines b_lines (first_row 0 b_lines))
        (length a_lines)
        (length b_lines)
      ≡ some (edit_distance (rev_onto a_lines []) (rev_onto b_lines []))
fill_matrix-edit_distance a_lines b_lines =
    matrix_last 0 [] a_lines b_lines (first_row 0 b_lines) refl (first_row-IsRow 0 [] b_lines refl)
