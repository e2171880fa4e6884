-- ===== src/Search/Replica.antt =====
-- `score_replica` (research/replica_recall/metrics.py).
use nano_db.Common.{
  ℕ, suc, ◌≤◌, ◌<◌, ◌≡◌, ◌≢◌, refl, ap, List, [], ◌∷◌, arith, Key, nat_key, string_key, Option,
  none, some, String, length, All, take, zip,
}
use nano_db.Common.Sets.{IsUnique}
use nano_db.Common.Frac.{Float, nan, ratio, ok, IsScore, IsProportion, mean, mean-IsScore}
use nano_db.Metrics.{recall_at_k, set_completeness}
use nano_db.Metrics.Recall.{recall_at_k_lem, set_completeness_lem}
use nano_db.Search.{
  Numpy, IsNumpy, Vector, Matrix, Corpus, not_nan, restrict_to, score_query, score_queries,
  mean_recall, score_replica, Scores, rows_for,
}
use nano_db.Search.TopK.{All-of_contains}
use nano_db.Search.Rows.{IsCorpus, rows_for_lem}
use nano_db.Search.Batch.{
  IsMetric, Answers, exact_topk_rows_returns, pick_lem, All-tt, Rank, Fit, Fit_of_rows, rows_of_Fit,
}

not_nan-All : (fs : List Float) → All IsScore fs → All IsProportion (not_nan fs)
not_nan-All [] h = tt
not_nan-All (nan ∷ fs) h = not_nan-All fs h.1
not_nan-All (ratio q ∷ fs) h = (h.0, not_nan-All fs h.1)

module _ {A : Type 0} ⦃e : Key A⦄ where
  recall_at_k-IsScore :
      (o t : List A) (k : ℕ) → (f : Float) × (recall_at_k o t (suc k) ≡ ok f) × IsScore f
  unfolding recall_at_k
  recall_at_k-IsScore o [] k = (nan, refl, tt)
  recall_at_k-IsScore o (t ∷ ts) k =
      let (q, returns, fine, _) = recall_at_k_lem o t ts k in (ratio q, returns, fine)

  set_completeness-IsScore :
      (s t : List A)
      → IsUnique s
      → IsUnique t
      → (f : Float) × (set_completeness s t ≡ ok f) × IsScore f
  unfolding set_completeness
  set_completeness-IsScore s [] u v = (nan, refl, tt)
  set_completeness-IsScore s (x ∷ t) u v =
      let (q, returns, fine, _, _) = set_completeness_lem s (x ∷ t) u v (λ p. cc) in
      (ratio q, returns, fine)

  module _ (np : Numpy) (laws : IsNumpy np) (c : Corpus A) (valid : IsCorpus c) (k : ℕ) where
    score_query_lem :
        (rows : List ℕ) (restrict : Option (List A)) (o : List A) (trow : List ℕ)
        → All (λ r. r < length c.ids) rows
        → All (λ j. j < length rows) trow
        → (f : Float) × (score_query c rows restrict (suc k) o trow ≡ ok f) × IsScore f
    unfolding score_query
    score_query_lem rows restrict o trow inside fits =
        let (js, e_js, _, in_ids) = pick_lem (λ r. r < length c.ids) rows trow inside fits in
        let (t, e_t, _, _) = pick_lem (λ _. Unit {0}) c.ids js (All-tt c.ids) in_ids in
        let (f, e_f, fine) = recall_at_k-IsScore (take (suc k) (restrict_to restrict o)) t k in
        (f, rw (e_js, e_t) e_f, fine)

    score_queries_lem :
        (rows : List ℕ) (restrict : Option (List A)) (rank : Vector → Rank)
        (vectors queries : Matrix) (observed : List (List A)) (top : List (List ℕ))
        → All (λ r. r < length c.ids) rows
        → length vectors ≡ length rows
        → Answers rank vectors queries (suc k) top
        → (fs : List Float) × (score_queries c rows restrict (suc k) (zip observed top) ≡ ok fs)
          × All IsScore fs
    unfolding score_queries
    score_queries_lem rows restrict rank vectors queries [] top inside same good = ([], refl, tt)
    score_queries_lem rows restrict rank vectors queries (o ∷ obs) [] inside same good =
        ([], refl, tt)
    score_queries_lem rows restrict rank vectors [] (o ∷ obs) (row ∷ top) inside same good =
        absurd good
    score_queries_lem rows restrict rank vectors (q ∷ queries) (o ∷ obs) (row ∷ top) inside same
          good =
        let fits =
          All-of_contains (λ j. j < length rows) row
            (λ j m. omega (arith, good.0.in_range j m, same)) in
        let (here, e_here, fine) = score_query_lem rows restrict o row inside fits in
        let (fs, e_fs, fines) =
          score_queries_lem rows restrict rank vectors queries obs top inside same good.1 in
        (here ∷ fs, rw (e_here, e_fs), (fine, fines))

    mean_recall_lem :
        (queries : Matrix) (observed : List (List A)) (metric : String) (rows : List ℕ)
        (restrict : Option (List A))
        → IsMetric metric
        → Fit queries c.mat
        → All (λ r. r < c.n) rows
        → (f : Float) × (mean_recall np queries observed c (suc k) metric rows restrict ≡ ok f)
          × IsScore f
    unfolding mean_recall
    mean_recall_lem queries observed metric [] restrict known fit inside = (nan, refl, tt)
    mean_recall_lem queries observed metric (r ∷ rows) restrict known fit inside =
        let all = r ∷ rows in
        let in_ids = weaken all c.n (length c.ids) valid.ids_fit inside in
        let in_mat = weaken all c.n (length c.mat) valid.mat_fit inside in
        let (sub, e_sub, size, sub_fit) =
          pick_lem (λ (v : Vector). All (λ (q : Vector). length v ≡ length q) queries) c.mat all
            (rows_of_Fit queries c.mat fit) in_mat in
        let some_row : sub ≢ [] = λ p. absurd (omega (arith, ap length p)) in
        let (rank, top, e_top, good) =
          exact_topk_rows_returns np queries sub (suc k) metric laws some_row known
            (Fit_of_rows queries sub sub_fit) in
        let (fs, e_fs, fine) =
          score_queries_lem all restrict rank sub queries observed top in_ids size good in
        (
          mean (not_nan fs),
          rw (e_sub, e_top, e_fs),
          mean-IsScore (not_nan fs) (not_nan-All fs fine),
        )
      where
        weaken : (xs : List ℕ) (a b : ℕ) → a ≤ b → All (λ r. r < a) xs → All (λ r. r < b) xs
        weaken [] a b h all = tt
        weaken (x ∷ xs) a b h all = (omega arith, weaken xs a b h all.1)

    rows_for-All : (wanted : List A) → All (λ r. r < c.n) (rows_for c wanted)
    rows_for-All wanted =
        All-of_contains (λ r. r < c.n) (rows_for c wanted)
          (λ r m. let (_, _, _, b) = ((rows_for_lem c wanted valid).1 r).0 m in b)

-- A replica is scored without an exception, for a valid snapshot whose vectors have the dimension of
-- the queries, sets of ids, a positive k and a known metric, whatever ids the replica returned; and each of the three scores is NaN or lies in
-- [0, 1].
pub score_replica_lem :
    {A : Type 0} ⦃e : Key A⦄ (np : Numpy) (queries : Matrix) (observed : List (List A))
    (c : Corpus A) (k : ℕ) (metric : String) (local_ids intended_ids : List A)
    → IsNumpy np
    → IsCorpus c
    → IsMetric metric
    → Fit queries c.mat
    → IsUnique local_ids
    → IsUnique intended_ids
    → (s : Scores) × (score_replica np queries observed c (suc k) metric local_ids intended_ids none
        ≡ ok s)
      × IsScore s.index_recall
      × IsScore s.e2e_recall
      × IsScore s.completeness
unfolding score_replica
score_replica_lem np queries observed c k metric local_ids intended_ids laws valid known fit u v =
    let (i, e_i, fine_i) =
      mean_recall_lem np laws c valid k queries observed metric (rows_for c local_ids) none known
        fit (rows_for-All np laws c valid k local_ids) in
    let (x, e_x, fine_x) =
      mean_recall_lem np laws c valid k queries observed metric (rows_for c intended_ids)
        (some intended_ids) known fit (rows_for-All np laws c valid k intended_ids) in
    let (m, e_m, fine_m) = set_completeness-IsScore local_ids intended_ids u v in
    (
      record {
        index_recall = i;
        e2e_recall = x;
        completeness = m;
        n_local = length local_ids;
        n_intended = length intended_ids;
      },
      rw (e_i, e_x, e_m),
      fine_i,
      fine_x,
      fine_m,
    )
