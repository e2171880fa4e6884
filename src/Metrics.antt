-- ===== src/Metrics.antt =====
-- research/replica_recall/metrics.py: the scores that need no ground-truth search, from the id
-- lists that the replicas returned. A Python set is a list without repetitions, a dict is an
-- association list with unique keys, and k is a natural number (the callers pass 10, 100, ...).
pub mod Recall
pub mod Agreement
pub mod Replicas
pub mod Tests
use nano_db.Common.{
  ℕ, max, List, [], ◌∷◌, ◌++◌, map, Bool, true, false, not, ◌&&◌, ◌||◌, Option, none, some, Key,
  Ord, ltb, ◌==◌, if◌then◌else◌, length, take, zip, is_empty,
}
use nano_db.Common.Sets.{to_set, inter, select}
use nano_db.Common.Sort.{sort}
use nano_db.Common.Frac.{
  Frac, Float, nan, ratio, Result, ok, raise, key_error, ◌>>=◌, true_div, mean,
}

abbrev pub push_score : Option Frac → List Frac → List Frac
push_score none scores = scores
push_score (some q) scores = q ∷ scores

module _ {ℓ} {A : Type ℓ} ⦃e : Key A⦄ where
  -- The fraction of the exact top-k that the search found.
  unfoldable pub recall_at_k : List A → List A → ℕ → Result Float
  recall_at_k observed truth k = if is_empty truth then ok nan else (do
    let t = to_set (take k truth)
    let o = to_set (take k observed)
    q ← true_div (length (inter o t)) (length t)
    ok (ratio q))

  unfoldable pub set_completeness : List A → List A → Result Float
  set_completeness locals intended =
      if is_empty intended
      then ok nan
      else (do q ← true_div (length (inter locals intended)) (length intended); ok (ratio q))

  -- The body of the loops over queries: `none` is the `continue` on two empty answers.
  unfoldable pub overlap : ℕ → List A → List A → Result (Option Frac)
  overlap k a b =
      let sa = to_set (take k a) in
      let sb = to_set (take k b) in
      if is_empty sa && is_empty sb
      then ok none
      else (do q ← true_div (length (inter sa sb)) (max (length sa) (length sb)); ok (some q))

  -- `for a, b in zip(...)`: the scores of one pair of replicas, in the order of the queries.
  unfoldable pub zip_scores : ℕ → List (List A × List A) → Result (List Frac)
  zip_scores k [] = ok []
  zip_scores k ((a, b) ∷ rest) = do
    score ← overlap k a b
    scores ← zip_scores k rest
    ok (push_score score scores)

-- `d[key]`.
unfoldable pub get_item {ℓ κ} : {N : Type ℓ} {V : Type κ} ⦃e : Key N⦄ → List (N × V) → N → Result V
get_item [] n = raise key_error
get_item ((m, v) ∷ d) n = if n == m then ok v else get_item d n

abbrev pub keys {ℓ κ} : {N : Type ℓ} {V : Type κ} → List (N × V) → List N
keys [] = []
keys ((n, v) ∷ d) = n ∷ keys d

-- Names of replicas, with the ids that each returned for each query.
abbrev pub Observations {ℓ} : Type 0 → Type ℓ → Type ℓ
Observations N A = List (N × List (List A))

module _ {ℓ} {N : Type 0} {A : Type ℓ} ⦃n_eq : Key N⦄ ⦃n_ord : Ord N⦄ ⦃a_eq : Key A⦄ where
  unfoldable pub pair_scores : Observations N A → ℕ → N → N → Result (List Frac)
  pair_scores obs k n m = do
    a_all ← get_item obs n
    b_all ← get_item obs m
    zip_scores k (zip a_all b_all)

  -- The scores of one replica with each of `others`, in their order.
  unfoldable pub scores_with : Observations N A → ℕ → N → List N → Result (List Frac)
  scores_with obs k n [] = ok []
  scores_with obs k n (m ∷ ms) = do
    here ← pair_scores obs k n m
    rest ← scores_with obs k n ms
    ok (here ++ rest)

  -- The two loops `for i`, `for j in range(i + 1, len(names))`.
  unfoldable pub all_pairs : Observations N A → ℕ → List N → Result (List Frac)
  all_pairs obs k [] = ok []
  all_pairs obs k (n ∷ ns) = do
    here ← scores_with obs k n ns
    rest ← all_pairs obs k ns
    ok (here ++ rest)

  unfoldable pub pairwise_agreement : Observations N A → ℕ → Result Float
  pairwise_agreement obs k =
      let names = sort (n_ord.le) (keys obs) in
      if ltb (length names) 2 then ok nan else (do scores ← all_pairs obs k names; ok (mean scores))

  -- `for n in names`, with the inner loop over the other names.
  unfoldable pub leave_each_out : Observations N A → ℕ → List N → List N → Result (List (N × Float))
  leave_each_out obs k names [] = ok []
  leave_each_out obs k names (n ∷ ns) = do
    scores ← scores_with obs k n (select (λ m. not (m == n)) names)
    rest ← leave_each_out obs k names ns
    ok ((n, mean scores) ∷ rest)

  unfoldable pub leave_one_out_agreement : Observations N A → ℕ → Result (List (N × Float))
  leave_one_out_agreement obs k =
      let names = sort (n_ord.le) (keys obs) in
      if ltb (length names) 3
      then ok (map (λ n. (n, nan)) names)
      else leave_each_out obs k names names
