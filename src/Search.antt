-- ===== src/Search.antt =====
-- research/replica_recall/metrics.py: the exact search that is the ground truth, and the scores of
-- a replica. Coordinates are exact integers (floats on a common scale, with no rounding), a matrix
-- is the list of its rows. numpy's sorting routines are a parameter, with the laws that its
-- documentation states.
pub mod Rows
pub mod TopK
pub mod Distance
pub mod Batch
pub mod Replica
pub mod Sorting
pub mod Fresh
pub mod Tests
use nano_db.Common.{
  ℕ, ◌+◌, ◌-◌, ◌≤◌, ◌<◌, min, suc, List, [], ◌∷◌, ◌++◌, map, Bool, true, false, not, ◌&&◌, ◌||◌,
  Option, none, some, Key, ◌==◌, nat_key, string_key, ◌≡◌, if◌then◌else◌, length, take, drop, zip,
  is_empty, ltb, leb, get_or, get_elem?, range, eqb, String,
}
use nano_db.Common.Int.{ℤ, pos, ◌+ℤ◌, ◌-ℤ◌, ◌*ℤ◌, leb_ℤ}
use nano_db.Common.Sets.{to_set, inter, contains, select, IsUnique}
use nano_db.Common.Sort.{sort, IsSorted}
use nano_db.Common.Frac.{
  Frac, Float, nan, ratio, Result, ok, raise, value_error, index_error, ◌>>=◌, mean,
}
use nano_db.Metrics.{recall_at_k, set_completeness}

abbrev pub Vector : Type 0
Vector = List ℤ

abbrev pub Matrix : Type 0
Matrix = List Vector

-- `xs[rows]`, for rows in range.
abbrev pub gather {ℓ} : {X : Type ℓ} → List X → X → List ℕ → List X
gather xs d [] = []
gather xs d (r ∷ rows) = get_or xs r d ∷ gather xs d rows

-- `d[i]`, a distance.
abbrev pub dist_at : List ℤ → ℕ → ℤ
dist_at d i = get_or d i (pos 0)

-- The order of two indices by what they point at.
abbrev pub by_dist : List ℤ → ℕ → ℕ → Bool
by_dist d i j = leb_ℤ (dist_at d i) (dist_at d j)

-- The indices below n, each once, in some order.
pub record IsIndices (n : ℕ) (xs : List ℕ) : Type 0 where
  pub unique : IsUnique xs
  pub size : length xs ≡ n
  pub exact : (i : ℕ) → contains i xs ≡ ltb i n

-- What the code calls of numpy, on one row.
pub record Numpy : Type 0 where
  pub argpartition : List ℤ → ℕ → List ℕ
  pub argsort : List ℤ → List ℕ

-- numpy's documentation: both return an index array of the input's shape; the element at kth is in
-- its sorted position, with no larger one before it and no smaller one behind it; argsort sorts.
pub record IsNumpy (np : Numpy) : Type 0 where
  pub partition_indices : (d : List ℤ) (kth : ℕ) → IsIndices (length d) (np.argpartition d kth)
  pub partition_le :
      (d : List ℤ) (kth i j : ℕ)
      → contains i (take (suc kth) (np.argpartition d kth)) ≡ true
      → contains j (drop (suc kth) (np.argpartition d kth)) ≡ true
      → by_dist d i j ≡ true
  pub sort_indices : (d : List ℤ) → IsIndices (length d) (np.argsort d)
  pub sort_ascends : (d : List ℤ) → IsSorted (by_dist d) (np.argsort d)

-- An entry of `queries @ vectors.T`, for rows that `fits_matmul` lets through.
unfoldable pub dot : Vector → Vector → ℤ
dot [] v = pos 0
dot (a ∷ u) [] = pos 0
dot (a ∷ u) (b ∷ v) = a *ℤ b +ℤ dot u v

-- `(vectors * vectors).sum(axis=1) - 2.0 * (queries @ vectors.T)`, one entry.
unfoldable pub l2_dist : Vector → Vector → ℤ
l2_dist q v = dot v v -ℤ pos 2 *ℤ dot q v

unfoldable pub ip_dist : Vector → Vector → ℤ
ip_dist q v = pos 0 -ℤ dot q v

-- `part = argpartition(d, k_eff - 1)[:k_eff]`, then `part[argsort(d[part])]`, for one query. With
-- k_eff = 0 the slice is empty whatever the partition is.
unfoldable pub top_row : Numpy → List ℤ → ℕ → List ℕ
top_row np d k_eff =
    let part = take k_eff (np.argpartition d (k_eff - 1)) in
    gather part 0 (np.argsort (gather d (pos 0) part))

-- Whether `queries @ vectors.T` is defined: the rows have one length.
unfoldable pub fits_rows : ℕ → Matrix → Bool
fits_rows dim [] = true
fits_rows dim (v ∷ vs) = eqb (length v) dim && fits_rows dim vs

unfoldable pub fits_matmul : Matrix → Matrix → Bool
unfolding fits_rows
fits_matmul [] vectors = true
fits_matmul (q ∷ queries) vectors = fits_rows (length q) vectors && fits_matmul queries vectors

-- The rows for the distances f; numpy raises ValueError on a product of other shapes.
unfoldable pub topk_by :
    (Vector → Vector → ℤ) → Numpy → Matrix → Matrix → ℕ → Result (List (List ℕ))
unfolding fits_matmul
topk_by f np queries vectors k_eff =
    if fits_matmul queries vectors
    then ok (map (λ q. top_row np (map (f q) vectors) k_eff) queries)
    else raise value_error

unfoldable pub exact_topk_rows : Numpy → Matrix → Matrix → ℕ → String → Result (List (List ℕ))
unfolding topk_by
exact_topk_rows np queries vectors k metric =
    if is_empty vectors
    then ok (map (λ _. []) queries)
    else (let k_eff = min k (length vectors) in
        if metric == "l2"
        then topk_by l2_dist np queries vectors k_eff
        else (if metric == "ip"
            then topk_by ip_dist np queries vectors k_eff
            else raise value_error))

-- `[xs[j] for j in rows]`.
unfoldable pub pick {ℓ} : {X : Type ℓ} → List X → List ℕ → Result (List X)
pick xs [] = ok []
pick xs (j ∷ rows) =
    let rest = pick xs rows in
    elim (get_elem? xs j) [ none ↦ raise index_error | some x ↦ (do ys ← rest; ok (x ∷ ys)) ]

unfoldable pub pick_rows {ℓ} : {X : Type ℓ} → List X → List (List ℕ) → Result (List (List X))
pick_rows xs [] = ok []
pick_rows xs (row ∷ top) = do here ← pick xs row; rest ← pick_rows xs top; ok (here ∷ rest)

unfoldable pub exact_topk {ℓ} :
    {X : Type ℓ} → Numpy → Matrix → List X → Matrix → ℕ → String → Result (List (List X))
exact_topk np queries ids vectors k metric =
    if is_empty ids
    then ok (map (λ _. []) queries)
    else (do top ← exact_topk_rows np queries vectors k metric; pick_rows ids top)

-- A snapshot of the confirmed vectors: the first n ids and rows belong to it.
pub record Corpus (A : Type 0) : Type 0 where
  pub ids : List A
  pub mat : Matrix
  pub row_of : List (A × ℕ)
  pub n : ℕ

module _ {A : Type 0} ⦃e : Key A⦄ where
  -- `d.get(key)`; the code's default -1 is `none`.
  unfoldable pub get_row : List (A × ℕ) → A → Option ℕ
  get_row [] a = none
  get_row ((b, r) ∷ d) a = if a == b then some r else get_row d a

  -- `{i: r for r, i in enumerate(ids, start)}`.
  unfoldable pub enumerate_from : ℕ → List A → List (A × ℕ)
  enumerate_from start [] = []
  enumerate_from start (a ∷ ids) = (a, start) ∷ enumerate_from (suc start) ids

  unfoldable pub from_dict : List (A × Vector) → Corpus A
  from_dict vector_of =
      let ids = map (λ p. p.0) vector_of in
      if is_empty ids then record { ids = []; mat = []; row_of = []; n = 0 } else record {
        ids = ids;
        mat = map (λ p. p.1) vector_of;
        row_of = enumerate_from 0 ids;
        n = length ids;
      }

  unfoldable pub known_rows : Corpus A → List A → List ℕ
  known_rows c [] = []
  known_rows c (i ∷ wanted) =
      let rest = known_rows c wanted in
      elim (get_row c.row_of i) [ none ↦ rest | some r ↦ if ltb r c.n then r ∷ rest else rest ]

  unfoldable pub rows_for : Corpus A → List A → List ℕ
  rows_for c wanted = sort leb (known_rows c wanted)

-- The scores of one replica at one instant.
pub record Scores : Type 0 where
  pub index_recall : Float
  pub e2e_recall : Float
  pub completeness : Float
  pub n_local : ℕ
  pub n_intended : ℕ

-- `[r for r in xs if not np.isnan(r)]`.
abbrev pub not_nan : List Float → List Frac
not_nan [] = []
not_nan (nan ∷ xs) = not_nan xs
not_nan (ratio q ∷ xs) = q ∷ not_nan xs

module _ {A : Type 0} ⦃e : Key A⦄ where
  -- `[i for i in o if i in restrict]`, unless `restrict` is None.
  abbrev pub restrict_to : Option (List A) → List A → List A
  restrict_to none o = o
  restrict_to (some allowed) o = select (λ i. contains i allowed) o

  unfoldable pub score_query :
      Corpus A → List ℕ → Option (List A) → ℕ → List A → List ℕ → Result Float
  score_query c rows restrict k o trow = do
    js ← pick rows trow
    t ← pick c.ids js
    recall_at_k (take k (restrict_to restrict o)) t k

  unfoldable pub score_queries :
      Corpus A → List ℕ → Option (List A) → ℕ → List (List A × List ℕ) → Result (List Float)
  score_queries c rows restrict k [] = ok []
  score_queries c rows restrict k ((o, trow) ∷ rest) = do
    here ← score_query c rows restrict k o trow
    there ← score_queries c rows restrict k rest
    ok (here ∷ there)

  module _ (np : Numpy) (queries : Matrix) (observed : List (List A)) (c : Corpus A) (k : ℕ)
      (metric : String) where
    unfoldable pub mean_recall : List ℕ → Option (List A) → Result Float
    mean_recall rows restrict = if is_empty rows then ok nan else (do
      sub ← pick c.mat rows
      top ← exact_topk_rows np queries sub k metric
      per_query ← score_queries c rows restrict k (zip observed top)
      ok (mean (not_nan per_query)))

    abbrev pub rows_or : List A → Option (List ℕ) → List ℕ
    rows_or intended_ids none = rows_for c intended_ids
    rows_or intended_ids (some rows) = rows

    unfoldable pub score_replica : List A → List A → Option (List ℕ) → Result Scores
    score_replica local_ids intended_ids intended_rows = do
      index_recall ← mean_recall (rows_for c local_ids) none
      e2e_recall ← mean_recall (rows_or intended_ids intended_rows) (some intended_ids)
      completeness ← set_completeness local_ids intended_ids
      ok (record {
        index_recall = index_recall;
        e2e_recall = e2e_recall;
        completeness = completeness;
        n_local = length local_ids;
        n_intended = length intended_ids;
      })
