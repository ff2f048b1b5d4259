-- ===== src/LineDiff/Examples.antt =====
-- Tests like those of lib.rs, and the theorems at short texts.
use polo_db.Prelude.{List, ◌≡◌, refl, [], ◌∷◌, some}
use polo_db.Prelude.Bytes.{str, str_eq}
use polo_db.Errors.{ok}
use polo_db.LineDiff.Total.{line_diff-ok}
use polo_db.LineDiff.{Diff, DiffOp, diff_lines, line_diff, first_row, fill_matrix}
use polo_db.LineDiff.Laws.{diff_lines_head}
use polo_db.LineDiff.Distance.{distance_at, edit_distance, fill_matrix-edit_distance}

equal_texts : line_diff (97 ∷ 10 ∷ 98 ∷ []) (97 ∷ 10 ∷ 98 ∷ []) ≡ ok []
unfolding line_diff str_eq
equal_texts = refl

changed_line :
    line_diff (97 ∷ 10 ∷ 98 ∷ []) (97 ∷ 10 ∷ 99 ∷ [])
    ≡ ok (
        record {
          op = DiffOp.replace;
          in_lines = record { index = 1; content = str "b" } ∷ [];
          de_lines = record { index = 1; content = str "c" } ∷ [];
        }
        ∷ [])
unfolding line_diff str_eq
changed_line = refl

diff_lines_head_example : diff_lines ([] ∷ []) (str "b" ∷ [] ∷ []) ≡ ok []
diff_lines_head_example = diff_lines_head [] (str "b") (λ e. cc)

fill_matrix-edit_distance_example :
    distance_at
      (fill_matrix 0 (str "a" ∷ []) (str "b" ∷ str "a" ∷ []) (first_row 0 (str "b" ∷ str "a" ∷ [])))
      1
      2
    ≡ some (edit_distance (str "a" ∷ []) (str "a" ∷ str "b" ∷ []))
fill_matrix-edit_distance_example =
    fill_matrix-edit_distance (str "a" ∷ []) (str "b" ∷ str "a" ∷ [])

line_diff-ok_example : (diffs : List Diff) × (line_diff (97 ∷ 10 ∷ 98 ∷ []) (99 ∷ []) ≡ ok diffs)
line_diff-ok_example = line_diff-ok (97 ∷ 10 ∷ 98 ∷ []) (99 ∷ [])
