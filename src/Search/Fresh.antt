-- ===== src/Search/Fresh.antt =====
-- The restriction to settled ids in `_mean_recall` (research/replica_recall/metrics.py).
use nano_db.Common.{
  ℕ, ◌≡◌, refl, ap, List, [], ◌∷◌, map, arith, Key, Option, String, length, zip, if◌then◌else◌,
  is_empty,
}
use mathlib.Core.Path.{fun_ext}
use nano_db.Common.Frac.{Result, ok, ◌>>=◌, Float, nan, mean}
use nano_db.Search.{
  Numpy, Matrix, Corpus, exact_topk_rows, pick, not_nan, restrict_to, score_query, score_queries,
  mean_recall,
}

module _ {A : Type 0} ⦃e : Key A⦄ (c : Corpus A) (k : ℕ) (restrict : Option (List A)) where
  score_query-restrict :
      (rows trow : List ℕ) (o o' : List A)
      → restrict_to restrict o ≡ restrict_to restrict o'
      → score_query c rows restrict k o trow ≡ score_query c rows restrict k o' trow
  unfolding score_query
  score_query-restrict rows trow o o' same = rw same

  score_queries-restrict :
      (rows : List ℕ) (xs ys : List (List A)) (top : List (List ℕ))
      → map (restrict_to restrict) xs ≡ map (restrict_to restrict) ys
      → score_queries c rows restrict k (zip xs top) ≡ score_queries c rows restrict k (zip ys top)
  unfolding score_queries
  score_queries-restrict rows [] [] top same = refl
  score_queries-restrict rows [] (y ∷ ys) top same = absurd (omega (arith, ap length same))
  score_queries-restrict rows (x ∷ xs) [] top same = absurd (omega (arith, ap length same))
  score_queries-restrict rows (x ∷ xs) (y ∷ ys) [] same = refl
  score_queries-restrict rows (x ∷ xs) (y ∷ ys) (row ∷ top) same =
      rw (score_query-restrict rows row x y cc, score_queries-restrict rows xs ys top cc)

-- Two replicas whose answers have the same settled ids in the same order have the same recall:
-- newer ids among the answers, wherever they stand, cost nothing.
pub mean_recall-restrict :
    {A : Type 0} ⦃e : Key A⦄ (np : Numpy) (queries : Matrix) (xs ys : List (List A)) (c : Corpus A)
    (k : ℕ) (metric : String) (rows : List ℕ) (restrict : Option (List A))
    → map (restrict_to restrict) xs ≡ map (restrict_to restrict) ys
    → mean_recall np queries xs c k metric rows restrict
      ≡ mean_recall np queries ys c k metric rows restrict
unfolding mean_recall
mean_recall-restrict np queries xs ys c k metric rows restrict same =
    ap finish (fun_ext (λ top. score_queries-restrict c k restrict rows xs ys top same))
  where
    finish : (List (List ℕ) → Result (List Float)) → Result Float
    finish score = if is_empty rows then ok nan else (do
      sub ← pick c.mat rows
      top ← exact_topk_rows np queries sub k metric
      per_query ← score top
      ok (mean (not_nan per_query)))
