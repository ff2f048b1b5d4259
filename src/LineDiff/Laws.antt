-- ===== src/LineDiff/Laws.antt =====
-- Which differences the line diff reports.
use polo_db.Prelude.{◌≡◌, ◌≢◌, [], ◌∷◌, Bool-cases, inl, inr}
use polo_db.Prelude.Bytes.{Bytes, str_eq, str_eq_iff, str_eq_refl}
use polo_db.Errors.{ok}
use polo_db.LineDiff.{diff_lines}

-- The backtracking stops at the first line of either text, so what stands in front of it in the other
-- text is not reported: a text of one line and the same text behind any other line have no difference.
pub diff_lines_head : (x y : Bytes) → x ≢ y → diff_lines (x ∷ []) (y ∷ x ∷ []) ≡ ok []
unfolding diff_lines
diff_lines_head x y h = elim (Bool-cases (str_eq x y)) [
  | inl same ↦ absurd (h ((str_eq_iff x y).0 same))
  | inr differ ↦ rw (differ, str_eq_refl x)
]
