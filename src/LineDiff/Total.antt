-- ===== src/LineDiff/Total.antt =====
-- The line diff always ends with a result: no index is out of bounds, and the fuel is enough.
use mathlib.Core.Path.{subst}
use polo_db.Prelude.{
  ℕ, zero, suc, ◌+◌, ◌≤◌, ◌<◌, ◌≡◌, refl, ap, arith, some, List, [], ◌∷◌, length, get_elem?, All,
}
use polo_db.Prelude.Bytes.{Bytes}
use polo_db.Errors.{ok}
use polo_db.LineDiff.{
  DiffOp, Item, Line, Diff, first_row, fill_row, fill_matrix, cell, push_diff, line_at, op_at,
  backtracking, diff_lines, line_diff, split_lines,
}

get_elem?-lt :
    {A : Type 0} (xs : List A) (i : ℕ) → i < length xs → (x : A) × (get_elem? xs i ≡ some x)
get_elem?-lt [] i h = absurd (omega arith)
get_elem?-lt (x ∷ xs) zero h = (x, refl)
get_elem?-lt (x ∷ xs) (suc i) h = get_elem?-lt xs i (omega arith)

All-get_elem? :
    {A : Type 0} (P : A → Type 0) (xs : List A) (i : ℕ) (x : A)
    → All P xs
    → get_elem? xs i ≡ some x
    → P x
All-get_elem? P [] i x h e = cc
All-get_elem? P (y ∷ xs) zero x (h, hs) e = let same : y ≡ x = cc in subst P same h
All-get_elem? P (y ∷ xs) (suc i) x (h, hs) e = All-get_elem? P xs i x hs e

length-first_row : (j : ℕ) (ms : List Bytes) → length (first_row j ms) ≡ suc (length ms)
unfolding first_row
length-first_row j [] = refl
length-first_row j (b ∷ ms) = ap suc (length-first_row (suc j) ms)

length-fill_row :
    (a : Bytes) (ms : List Bytes) (row : List Item) (left : Item)
    → length row ≡ suc (length ms)
    → length (fill_row a ms row left) ≡ suc (length ms)
unfolding fill_row
length-fill_row a [] row left h = refl
length-fill_row a (b ∷ ms) [] left h = absurd (omega arith)
length-fill_row a (b ∷ ms) (c ∷ []) left h = absurd (omega arith)
length-fill_row a (b ∷ ms) (c ∷ d ∷ row) left h =
    ap suc (length-fill_row a ms (d ∷ row) (cell a b d left c) (omega arith))

-- As many rows as lines of the one text and one more, and as many cells in each as lines of the other
-- and one more.
fill_matrix-shape :
    (i : ℕ) (ls ms : List Bytes) (row : List Item)
    → length row ≡ suc (length ms)
    → (length (fill_matrix i ls ms row) ≡ suc (length ls))
      × All (λ r. length r ≡ suc (length ms)) (fill_matrix i ls ms row)
unfolding fill_matrix
fill_matrix-shape i [] ms row h = (refl, (h, tt))
fill_matrix-shape i (a ∷ ls) ms row h =
    let (rows, cells) = fill_matrix-shape (suc i) ls ms _ (length-fill_row a ms row _ h) in
    (ap suc rows, (h, cells))

op_at-some :
    (matrix : List (List Item)) (row : List Item) (item : Item) (i j : ℕ)
    → get_elem? matrix i ≡ some row
    → get_elem? row j ≡ some item
    → op_at matrix i j ≡ ok item.op
op_at-some matrix row item i j e f = ground (arith, e, f)

line_at-some :
    (lines : List Bytes) (i : ℕ) (x : Bytes)
    → get_elem? lines i ≡ some x
    → line_at lines i ≡ ok (record { index = i; content = x } ∷ [])
line_at-some lines i x e = ground (arith, e)

op_at-lt :
    (matrix : List (List Item)) (n m i j : ℕ)
    → length matrix ≡ suc n
    → All (λ r. length r ≡ suc m) matrix
    → i ≤ n
    → j ≤ m
    → (op : DiffOp) × (op_at matrix i j ≡ ok op)
op_at-lt matrix n m i j rows cells hi hj =
    let (row, e) = get_elem?-lt matrix i (omega arith) in
    let size = All-get_elem? (λ r. length r ≡ suc m) matrix i row cells e in
    let (item, f) = get_elem?-lt row j (omega arith) in
    (item.op, op_at-some matrix row item i j e f)

line_at-lt :
    (lines : List Bytes) (i : ℕ)
    → i < length lines
    → (found : List Line) × (line_at lines i ≡ ok found)
line_at-lt lines i h = let (x, e) = get_elem?-lt lines i h in (_, line_at-some lines i x e)

-- One round, if every further one ends.
backtracking-step :
    (fuel : ℕ) (matrix : List (List Item)) (ls ms : List Bytes) (i j : ℕ) (result : List Diff)
    (op : DiffOp)
    → op_at matrix (suc i) (suc j) ≡ ok op
    → i < length ls
    → j < length ms
    → i + j < fuel
    → ((i' j' : ℕ) (r : List Diff)
        → i' ≤ length ls
        → j' ≤ length ms
        → i' + j' ≤ fuel
        → (diffs : List Diff) × (backtracking fuel matrix ls ms i' j' r ≡ ok diffs))
    → (diffs : List Diff) × (backtracking (suc fuel) matrix ls ms (suc i) (suc j) result ≡ ok diffs)
unfolding backtracking
backtracking-step fuel matrix ls ms i j result DiffOp.preserve e hi hj enough ih =
    let (diffs, ran) = ih i j result (omega arith) (omega arith) (omega arith) in (diffs, rw e ran)
backtracking-step fuel matrix ls ms i j result DiffOp.replace e hi hj enough ih =
    let (la, ea) = line_at-lt ls i hi in
    let (lb, eb) = line_at-lt ms j hj in
    let (diffs, ran) =
      ih i j (push_diff DiffOp.replace la lb result) (omega arith) (omega arith) (omega arith) in
    (diffs, rw e (rw ea (rw eb ran)))
backtracking-step fuel matrix ls ms i j result DiffOp.insert e hi hj enough ih =
    let (lb, eb) = line_at-lt ms j hj in
    let (diffs, ran) =
      ih (suc i) j (push_diff DiffOp.insert lb [] result) (omega arith) (omega arith)
        (omega arith) in
    (diffs, rw e (rw eb ran))
backtracking-step fuel matrix ls ms i j result DiffOp.delete e hi hj enough ih =
    let (la, ea) = line_at-lt ls i hi in
    let (diffs, ran) =
      ih i (suc j) (push_diff DiffOp.delete [] la result) (omega arith) (omega arith)
        (omega arith) in
    (diffs, rw e (rw ea ran))

backtracking-ok :
    (fuel : ℕ) (matrix : List (List Item)) (ls ms : List Bytes) (i j : ℕ) (result : List Diff)
    → length matrix ≡ suc (length ls)
    → All (λ r. length r ≡ suc (length ms)) matrix
    → i ≤ length ls
    → j ≤ length ms
    → i + j ≤ fuel
    → (diffs : List Diff) × (backtracking fuel matrix ls ms i j result ≡ ok diffs)
unfolding backtracking
backtracking-ok fuel matrix ls ms zero j result rows cells hi hj enough = (result, refl)
backtracking-ok fuel matrix ls ms (suc i) zero result rows cells hi hj enough = (result, refl)
backtracking-ok zero matrix ls ms (suc i) (suc j) result rows cells hi hj enough =
    absurd (omega arith)
backtracking-ok (suc fuel) matrix ls ms (suc i) (suc j) result rows cells hi hj enough =
    let (op, e) = op_at-lt matrix (length ls) (length ms) (suc i) (suc j) rows cells hi hj in
    backtracking-step fuel matrix ls ms i j result op e (omega arith) (omega arith) (omega arith)
      (λ i' j' r hi' hj' less. backtracking-ok fuel matrix ls ms i' j' r rows cells hi' hj' less)

diff_lines-ok : (ls ms : List Bytes) → (diffs : List Diff) × (diff_lines ls ms ≡ ok diffs)
unfolding diff_lines
diff_lines-ok ls ms =
    let (rows, cells) = fill_matrix-shape 0 ls ms (first_row 0 ms) (length-first_row 0 ms) in
    backtracking-ok (length ls + length ms) _ ls ms (length ls) (length ms) [] rows cells
      (omega arith) (omega arith) (omega arith)

-- The difference of two texts is always found: the loops end, and no index is out of bounds.
pub line_diff-ok : (a b : Bytes) → (diffs : List Diff) × (line_diff a b ≡ ok diffs)
unfolding line_diff
line_diff-ok a b = diff_lines-ok (split_lines a) (split_lines b)
