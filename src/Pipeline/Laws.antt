-- ===== src/Pipeline/Laws.antt =====
-- What the stages answer to the documents of a pipeline.
use polo_db.Prelude.{
  ℕ, zero, suc, ◌+◌, ◌-◌, ◌^◌, ◌<◌, ◌≡◌, ◌≢◌, refl, ap, ◌∙◌, arith, Bool, true, false, none, List,
  [], ◌∷◌, ◌++◌, map, length, take, drop, replicate, All, if◌then◌else◌,
}
use polo_db.Prelude.Int.{pos, of_word}
use polo_db.Prelude.Bytes.{Bytes}
use polo_db.Errors.{ok}
use polo_db.Bson.{Bson, Document, end, null, int64, document}
use polo_db.Bson.Platform.{Platform}
use polo_db.UpdateOperators.Assign.Laws.{contains}
use polo_db.Pipeline.{Status, feed}
use polo_db.Pipeline.Stages.{
  VmFuncCount, new_count, count_value, count_call, limit_value, limit_call, skip_value, skip_call,
  remove_all,
}

limit_value-some :
    (n : ℕ) (arg : Bson) → arg ≢ null → limit_value (suc n) arg ≡ (n, Status.next arg)
unfolding limit_value
limit_value-some n null h = absurd (h refl)
limit_value-some n arg h = refl

limit_value-zero : (arg : Bson) → limit_value zero arg ≡ (0, Status.next null)
unfolding limit_value
limit_value-zero null = refl
limit_value-zero arg = refl

-- A limit answers the first documents, as many as its number, with themselves, and every further one
-- with null.
pub feed-limit_call :
    (n : ℕ) (args : List Bson)
    → All (λ arg. arg ≢ null) args
    → feed limit_call n args
      ≡ ok (
        n - length args,
        map Status.next (take n args) ++ replicate (length args - n) (Status.next null),
      )
unfolding feed limit_call
feed-limit_call zero [] h = refl
feed-limit_call (suc n) [] h =
    let all : suc n - 0 ≡ suc n = omega arith in
    let no_more : 0 - suc n ≡ 0 = omega arith in rw (all, no_more)
feed-limit_call zero (arg ∷ args) (h, hs) =
    let none_left : 0 - suc (length args) ≡ 0 - length args = omega arith in
    let one_more : suc (length args) - 0 ≡ suc (length args - 0) = omega arith in
    rw (limit_value-zero arg, feed-limit_call zero args hs, none_left, one_more)
feed-limit_call (suc n) (arg ∷ args) (h, hs) =
    let fewer : suc n - suc (length args) ≡ n - length args = omega arith in
    let rest : suc (length args) - suc n ≡ length args - n = omega arith in
    rw (limit_value-some n arg h, feed-limit_call n args hs, fewer, rest)

skip_value-some : (n : ℕ) (arg : Bson) → arg ≢ null → skip_value (suc n) arg ≡ (n, Status.continue)
unfolding skip_value
skip_value-some n null h = absurd (h refl)
skip_value-some n arg h = refl

skip_value-zero : (arg : Bson) → skip_value zero arg ≡ (0, Status.next arg)
unfolding skip_value
skip_value-zero null = refl
skip_value-zero arg = refl

-- A skip passes over the first documents, as many as its number, and answers the others with
-- themselves.
feed-skip_call :
    (n : ℕ) (args : List Bson)
    → All (λ arg. arg ≢ null) args
    → feed skip_call n args
      ≡ ok (
        n - length args,
        replicate (length (take n args)) Status.continue ++ map Status.next (drop n args),
      )
unfolding feed skip_call
feed-skip_call zero [] h = refl
feed-skip_call (suc n) [] h = let all : suc n - 0 ≡ suc n = omega arith in rw all
feed-skip_call zero (arg ∷ args) (h, hs) =
    let none_left : 0 - suc (length args) ≡ 0 - length args = omega arith in
    rw (skip_value-zero arg, feed-skip_call zero args hs, none_left)
feed-skip_call (suc n) (arg ∷ args) (h, hs) =
    let fewer : suc n - suc (length args) ≡ n - length args = omega arith in
    rw (skip_value-some n arg h, feed-skip_call n args hs, fewer)

module _ (P : Platform) where
  abbrev pub counting : Bytes → ℕ → Bool → VmFuncCount
  counting name n done = record { count_name = name; count = n; is_completed = done }

  count_value-some :
      (name : Bytes) (n : ℕ) (arg : Bson)
      → arg ≢ null
      → n < 2 ^ 63
      → count_value P (counting name n false) arg ≡ (counting name (n + 1) false, Status.continue)
  unfolding count_value
  count_value-some name n null h small = absurd (h refl)
  count_value-some name n arg h small =
      ap (λ m. (counting name m false, Status.continue)) (omega arith)

  count_from :
      (name : Bytes) (n : ℕ) (args : List Bson)
      → All (λ arg. arg ≢ null) args
      → n + length args < 2 ^ 63
      → feed (count_call P) (counting name n false) (args ++ null ∷ [])
        ≡ ok (
          counting name (n + length args) true,
          replicate (length args) Status.continue
              ++ Status.next (document (P.insert end name (int64 (pos (n + length args))))) ∷ [],
        )
  unfolding feed count_call count_value of_word
  count_from name n [] h small =
      let same : of_word 63 n ≡ pos (n + 0) = ground arith in
      let sum : n + 0 ≡ n = omega arith in rw (same, sum)
  count_from name n (arg ∷ args) (h, hs) small =
      let sum : n + 1 + length args ≡ n + suc (length args) = omega arith in
      rw (
        count_value-some name n arg h (omega arith),
        count_from name (n + 1) args hs (omega arith),
        sum,
      )

  -- A count of fewer than 2^63 documents is their number.
  pub feed-count_call :
      (name : Bytes) (args : List Bson)
      → All (λ arg. arg ≢ null) args
      → length args < 2 ^ 63
      → feed (count_call P) (new_count name) (args ++ null ∷ [])
        ≡ ok (
          counting name (length args) true,
          replicate (length args) Status.continue
              ++ Status.next (document (P.insert end name (int64 (pos (length args))))) ∷ [],
        )
  unfolding new_count
  feed-count_call name args h small =
      let sum : 0 + length args ≡ length args = omega arith in
      rw sum at (count_from name 0 args h (omega arith))

  -- The stage `$unset` removes exactly the fields that it names.
  pub remove_all-get :
      (fields : List Bytes) (doc : Document) (j : Bytes)
      → P.get (remove_all P fields doc) j ≡ (if contains fields j then none else P.get doc j)
  unfolding remove_all
  remove_all-get [] doc j = refl
  remove_all-get (field ∷ fields) doc j =
      remove_all-get fields (P.remove doc field) j ∙ ground (arith, P.get-remove doc field j)
