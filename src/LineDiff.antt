-- ===== src/LineDiff.antt =====
-- src/polodb_line_diff/lib.rs and line.rs: the difference of two texts by lines. The matrix is built row
-- by row; the code's has a row and a column more, which it never reads. `result` is kept with its last
-- element in front, so that the final `reverse` is the list itself. Backtracking has the number of
-- lines of both texts as fuel: a round takes one of them at least.
pub mod Laws
pub mod Distance
pub mod Total
mod Examples
use polo_db.Prelude.{
  ℕ, zero, suc, ◌+◌, ◌++◌, ◌==◌, ltb, Bool, true, false, List, [], ◌∷◌, if◌then◌else◌, length,
  get_elem?,
}
use polo_db.Prelude.Bytes.{Bytes, str_eq}
use polo_db.Errors.{Outcome, ok, panic, ◌>>=◌, unwrap}
use polo_db.FieldPath.{begin_with}

pub data DiffOp : Type 0 where
  preserve delete insert replace : DiffOp

pub record Item : Type 0 where
  pub distance : ℕ
  pub op : DiffOp

pub record Line : Type 0 where
  pub index : ℕ
  pub content : Bytes

pub record Diff : Type 0 where
  pub op : DiffOp
  pub in_lines : List Line
  pub de_lines : List Line

-- The least of three numbers, and the place of it: the op is the one that the place stands for.
unfoldable pub minimum : ℕ → ℕ → ℕ → DiffOp → Item
minimum a b c diagonal =
    if ltb a b
    then (if ltb a c
        then record { distance = a; op = DiffOp.delete }
        else record { distance = c; op = diagonal })
    else (if ltb b c
        then record { distance = b; op = DiffOp.insert }
        else record { distance = c; op = diagonal })

-- One cell from the ones above, to the left, and above that.
unfoldable pub cell : Bytes → Bytes → Item → Item → Item → Item
unfolding minimum
cell line1 line2 above left corner =
    if str_eq line1 line2
    then minimum (above.distance + 1) (left.distance + 1) corner.distance DiffOp.preserve
    else minimum (above.distance + 1) (left.distance + 1) (corner.distance + 1) DiffOp.replace

-- matrix[0][j]
unfoldable pub first_row : ℕ → List Bytes → List Item
first_row j [] = record { distance = j; op = DiffOp.preserve } ∷ []
first_row j (_ ∷ b_lines) =
    record { distance = j; op = DiffOp.preserve } ∷ first_row (suc j) b_lines

-- matrix[i][j..] from the row above and the cell to the left.
unfoldable pub fill_row : Bytes → List Bytes → List Item → Item → List Item
unfolding cell
fill_row line1 (line2 ∷ b_lines) (corner ∷ above ∷ row) left =
    left ∷ fill_row line1 b_lines (above ∷ row) (cell line1 line2 above left corner)
fill_row line1 _ _ left = left ∷ []

unfoldable pub fill_matrix : ℕ → List Bytes → List Bytes → List Item → List (List Item)
unfolding fill_row
fill_matrix i [] b_lines row = row ∷ []
fill_matrix i (line1 ∷ a_lines) b_lines row =
    row
    ∷ fill_matrix (suc i) a_lines b_lines
        (fill_row line1 b_lines row record { distance = suc i; op = DiffOp.preserve })

abbrev pub is_op : DiffOp → DiffOp → Bool
is_op DiffOp.preserve DiffOp.preserve = true
is_op DiffOp.delete DiffOp.delete = true
is_op DiffOp.insert DiffOp.insert = true
is_op DiffOp.replace DiffOp.replace = true
is_op _ _ = false

-- Lines in front of those of the last difference, if it is of the same kind, or a new difference.
unfoldable pub push_diff : DiffOp → List Line → List Line → List Diff → List Diff
push_diff op in_lines de_lines [] =
    record { op = op; in_lines = in_lines; de_lines = de_lines } ∷ []
push_diff op in_lines de_lines (last ∷ result) =
    if is_op last.op op
    then record {
      op = op;
      in_lines = in_lines ++ last.in_lines;
      de_lines = de_lines ++ last.de_lines;
    }
      ∷ result
    else record { op = op; in_lines = in_lines; de_lines = de_lines } ∷ last ∷ result

abbrev pub line_at : List Bytes → ℕ → Outcome (List Line)
line_at lines i = do
  content ← unwrap (get_elem? lines i)
  ok (record { index = i; content = content } ∷ [])

abbrev pub op_at : List (List Item) → ℕ → ℕ → Outcome DiffOp
op_at matrix i j = do row ← unwrap (get_elem? matrix i); item ← unwrap (get_elem? row j); ok item.op

unfoldable pub backtracking :
    ℕ → List (List Item) → List Bytes → List Bytes → ℕ → ℕ → List Diff → Outcome (List Diff)
unfolding push_diff
backtracking fuel matrix a_lines b_lines zero j result = ok result
backtracking fuel matrix a_lines b_lines (suc i) zero result = ok result
backtracking zero matrix a_lines b_lines (suc i) (suc j) result = panic
backtracking (suc fuel) matrix a_lines b_lines (suc i) (suc j) result = do
  op ← op_at matrix (suc i) (suc j)
  elim op [
    | DiffOp.preserve ↦ backtracking fuel matrix a_lines b_lines i j result
    | DiffOp.replace ↦ do
      in_line ← line_at a_lines i
      de_line ← line_at b_lines j
      backtracking fuel matrix a_lines b_lines i j (push_diff DiffOp.replace in_line de_line result)
    | DiffOp.insert ↦ do
      in_line ← line_at b_lines j
      backtracking fuel matrix a_lines b_lines (suc i) j (push_diff DiffOp.insert in_line [] result)
    | DiffOp.delete ↦ do
      de_line ← line_at a_lines i
      backtracking fuel matrix a_lines b_lines i (suc j) (push_diff DiffOp.delete [] de_line result)
  ]

-- `diff`, from the lines on.
unfoldable pub diff_lines : List Bytes → List Bytes → Outcome (List Diff)
unfolding fill_matrix first_row backtracking
diff_lines a_lines b_lines =
    backtracking (length a_lines + length b_lines)
      (fill_matrix 0 a_lines b_lines (first_row 0 b_lines)) a_lines b_lines (length a_lines)
      (length b_lines) []

-- `split("\n")`
unfoldable pub split_lines : Bytes → List Bytes
unfolding begin_with
split_lines [] = [] ∷ []
split_lines (c ∷ s) =
    let lines = split_lines s in if c == 10 then [] ∷ lines else begin_with c lines

unfoldable pub line_diff : Bytes → Bytes → Outcome (List Diff)
unfolding diff_lines split_lines
line_diff a b = diff_lines (split_lines a) (split_lines b)
