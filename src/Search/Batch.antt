-- ===== src/Search/Batch.antt =====
-- `exact_topk_rows` and `exact_topk` over a batch of queries (research/replica_recall/metrics.py).
use nano_db.Common.{
  ℕ, zero, suc, ◌<◌, min, ◌≡◌, ◌≢◌, ◌⊎◌, ◌∙◌, ◌↔◌, refl, sym, ap, ap₂, subst, List, [], ◌∷◌, map,
  Bool, true, false, inl, inr, arith, ◌==◌, nat_key, string_key, some, String, length, All,
  get_elem?, get_or, length-map, eqb_iff, Bool-cases,
}
use nano_db.Common.Int.{ℤ, pos, leb_ℤ}
use nano_db.Common.Sets.{contains, IsUnique}
use nano_db.Common.Sort.{IsSorted}
use nano_db.Common.Frac.{Result, ok, raise, value_error}
use nano_db.Search.{
  Numpy, IsNumpy, Vector, Matrix, by_dist, top_row, l2_dist, ip_dist, fits_rows, fits_matmul,
  topk_by, exact_topk_rows, pick,
}
use nano_db.Search.Distance.{sq_dist, inner, l2_dist_ranks, ip_dist_ranks}
use nano_db.Search.TopK.{IsTopK, top_row-IsTopK, All-of_contains}

-- An order of vectors in which the first is not behind the second.
abbrev pub Rank : Type 0
Rank = Vector → Vector → Bool

-- `rows` are the first k rows of the vectors by the rank: of their number, distinct, in range, in
-- order, and none that is left out is before one of them.
pub record IsFirst (before : Rank) (vectors : Matrix) (k : ℕ) (rows : List ℕ) : Type 0 where
  pub size : length rows ≡ min k (length vectors)
  pub unique : IsUnique rows
  pub in_range : (r : ℕ) → contains r rows ≡ true → r < length vectors
  pub in_order : IsSorted (λ r s. before (get_or vectors r []) (get_or vectors s [])) rows
  pub best :
      (r s : ℕ)
      → contains r rows ≡ true
      → s < length vectors
      → contains s rows ≡ false
      → before (get_or vectors r []) (get_or vectors s []) ≡ true

-- The rows of the matrix have the dimension.
abbrev pub HasDim : ℕ → Matrix → Type 0
HasDim dim m = All (λ v. length v ≡ dim) m

fits_rows_iff : (dim : ℕ) (m : Matrix) → (fits_rows dim m ≡ true) ↔ HasDim dim m
unfolding fits_rows
fits_rows_iff dim [] = (λ _. tt, λ _. refl)
fits_rows_iff dim (v ∷ m) =
    let iff = eqb_iff (length v) dim in
    let ih = fits_rows_iff dim m in
    (
      λ h. (iff.0 (ground (arith, h)), ih.0 (ground (arith, h))),
      λ (e, k). ground (arith, iff.1 e, ih.1 k),
    )

fits_matmul_iff :
    (queries vectors : Matrix)
    → (fits_matmul queries vectors ≡ true) ↔ All (λ q. HasDim (length q) vectors) queries
unfolding fits_matmul
fits_matmul_iff [] vectors = (λ _. tt, λ _. refl)
fits_matmul_iff (q ∷ queries) vectors =
    let iff = fits_rows_iff (length q) vectors in
    let ih = fits_matmul_iff queries vectors in
    (
      λ h. (iff.0 (ground (arith, h)), ih.0 (ground (arith, h))),
      λ (e, k). ground (arith, iff.1 e, ih.1 k),
    )

-- By the squared distance from the query, and by the inner product with it.
abbrev pub nearer : Vector → Rank
nearer q u v = leb_ℤ (sq_dist q u) (sq_dist q v)

abbrev pub larger : Vector → Rank
larger q u v = leb_ℤ (inner q v) (inner q u)

-- One row of answers for each query.
abbrev pub Answers : (Vector → Rank) → Matrix → Matrix → ℕ → List (List ℕ) → Type 0
Answers rank vectors [] k [] = Unit
Answers rank vectors [] k (row ∷ top) = ⊥
Answers rank vectors (q ∷ queries) k [] = ⊥
Answers rank vectors (q ∷ queries) k (row ∷ top) =
    IsFirst (rank q) vectors k row × Answers rank vectors queries k top

get_or-map :
    (f : Vector → ℤ) (vs : Matrix) (i : ℕ)
    → i < length vs
    → get_or (map f vs) i (pos 0) ≡ f (get_or vs i [])
get_or-map f [] i h = absurd (omega arith)
get_or-map f (v ∷ vs) zero h = refl
get_or-map f (v ∷ vs) (suc i) h = get_or-map f vs i (omega arith)

get_or-HasDim :
    (dim : ℕ) (vs : Matrix) (i : ℕ) → HasDim dim vs → i < length vs → length (get_or vs i []) ≡ dim
get_or-HasDim dim [] i a h = absurd (omega arith)
get_or-HasDim dim (v ∷ vs) zero a h = a.0
get_or-HasDim dim (v ∷ vs) (suc i) a h = get_or-HasDim dim vs i a.1 (omega arith)

-- What a computed distance ranks as the rank of the specification does.
module _ (f : Vector → ℤ) (before : Rank) (vectors : Matrix)
    (agree : (i j : ℕ)
      → i < length vectors
      → j < length vectors
      → leb_ℤ (f (get_or vectors i [])) (f (get_or vectors j []))
        ≡ before (get_or vectors i []) (get_or vectors j [])) where
  by_dist-rank :
      (i j : ℕ)
      → i < length vectors
      → j < length vectors
      → by_dist (map f vectors) i j ≡ before (get_or vectors i []) (get_or vectors j [])
  by_dist-rank i j a b =
      ap₂ leb_ℤ (get_or-map f vectors i a) (get_or-map f vectors j b) ∙ agree i j a b

  rank_row :
      (i : ℕ) (rows : List ℕ)
      → i < length vectors
      → All (λ r. r < length vectors) rows
      → All (λ r. by_dist (map f vectors) i r ≡ true) rows
      → All (λ r. before (get_or vectors i []) (get_or vectors r []) ≡ true) rows
  rank_row i [] a fits h = tt
  rank_row i (r ∷ rows) a fits h =
      (sym (by_dist-rank i r a fits.0) ∙ h.0, rank_row i rows a fits.1 h.1)

  rank-IsSorted :
      (rows : List ℕ)
      → All (λ r. r < length vectors) rows
      → IsSorted (by_dist (map f vectors)) rows
      → IsSorted (λ r s. before (get_or vectors r []) (get_or vectors s [])) rows
  rank-IsSorted [] fits h = tt
  rank-IsSorted (r ∷ rows) fits h =
      (rank_row r rows fits.0 fits.1 h.0, rank-IsSorted rows fits.1 h.1)

  IsTopK-IsFirst :
      (k : ℕ) (rows : List ℕ) → IsTopK (map f vectors) k rows → IsFirst before vectors k rows
  IsTopK-IsFirst k rows t =
      let same = length-map f vectors in
      let fits : (r : ℕ) → contains r rows ≡ true → r < length vectors =
        λ r m. subst (λ n. r < n) same (t.in_range r m) in
      record {
        size = t.size ∙ ap (min k) same;
        unique = t.unique;
        in_range = fits;
        in_order = rank-IsSorted rows (All-of_contains _ rows fits) t.nearest_first;
        best = λ r s m l out.
            sym (by_dist-rank r s (fits r m) l)
            ∙ t.best r s m (subst (λ n. s < n) (sym same) l) out;
      }

top_row-IsFirst :
    (np : Numpy) (f : Vector → Vector → ℤ) (rank : Vector → Rank) (vectors : Matrix) (q : Vector)
    (k : ℕ)
    → IsNumpy np
    → ((i j : ℕ)
        → i < length vectors
        → j < length vectors
        → leb_ℤ (f q (get_or vectors i [])) (f q (get_or vectors j []))
          ≡ rank q (get_or vectors i []) (get_or vectors j []))
    → IsFirst (rank q) vectors k (top_row np (map (f q) vectors) (min k (length vectors)))
top_row-IsFirst np f rank vectors q k laws agree = IsTopK-IsFirst (f q) (rank q) vectors agree k _ (
    subst (λ n. IsTopK (map (f q) vectors) k (top_row np (map (f q) vectors) (min k n)))
      (length-map (f q) vectors) (top_row-IsTopK np (map (f q) vectors) k laws))

Answers-l2 :
    (np : Numpy) (vectors queries : Matrix) (k : ℕ)
    → IsNumpy np
    → All (λ q. HasDim (length q) vectors) queries
    → Answers nearer vectors queries k
        (map (λ q. top_row np (map (l2_dist q) vectors) (min k (length vectors))) queries)
Answers-l2 np vectors [] k laws fits = tt
Answers-l2 np vectors (q ∷ queries) k laws fits = (
  top_row-IsFirst np l2_dist nearer vectors q k laws (λ i j a b.
      l2_dist_ranks q (get_or vectors i []) (get_or vectors j [])
        (sym (get_or-HasDim (length q) vectors i fits.0 a))
        (sym (get_or-HasDim (length q) vectors j fits.0 b))),
  Answers-l2 np vectors queries k laws fits.1,
)

Answers-ip :
    (np : Numpy) (vectors queries : Matrix) (k : ℕ)
    → IsNumpy np
    → Answers larger vectors queries k
        (map (λ q. top_row np (map (ip_dist q) vectors) (min k (length vectors))) queries)
Answers-ip np vectors [] k laws = tt
Answers-ip np vectors (q ∷ queries) k laws = (
  top_row-IsFirst np ip_dist larger vectors q k laws
      (λ i j a b. ip_dist_ranks q (get_or vectors i []) (get_or vectors j [])),
  Answers-ip np vectors queries k laws,
)

-- The vectors have the dimension of each query.
abbrev pub Fit : Matrix → Matrix → Type 0
Fit queries vectors = All (λ q. HasDim (length q) vectors) queries

-- What a search comes to.
pub data IsSearched (queries vectors : Matrix) (k : ℕ) (metric : String)
    : Result (List (List ℕ)) → Type 0 where
  nearest :
      metric ≡ "l2"
      → Fit queries vectors
      → (top : List (List ℕ)) → Answers nearer vectors queries k top
      → IsSearched queries vectors k metric (ok top)
  largest :
      metric ≡ "ip"
      → Fit queries vectors
      → (top : List (List ℕ)) → Answers larger vectors queries k top
      → IsSearched queries vectors k metric (ok top)
  unknown :
      (metric ≡ "l2" → ⊥)
      → (metric ≡ "ip" → ⊥)
      → IsSearched queries vectors k metric (raise value_error)
  misfit : (Fit queries vectors → ⊥) → IsSearched queries vectors k metric (raise value_error)

-- With a vector to search, the search of metric "l2" answers every query with the first k rows by the
-- squared euclidean distance, that of "ip" with the first k by the inner product, the largest first.
-- It raises ValueError exactly if the metric is another one or some vector and query differ in
-- dimension.
pub exact_topk_rows_lem :
    (np : Numpy) (queries vectors : Matrix) (k : ℕ) (metric : String)
    → IsNumpy np
    → vectors ≢ []
    → IsSearched queries vectors k metric (exact_topk_rows np queries vectors k metric)
unfolding exact_topk_rows topk_by
exact_topk_rows_lem np queries [] k metric laws some_row = absurd (some_row refl)
exact_topk_rows_lem np queries (v ∷ vs) k metric laws some_row =
    let l2 = string_key.same_iff metric "l2" in
    let ip = string_key.same_iff metric "ip" in
    let fit = fits_matmul_iff queries (v ∷ vs) in
    elim (Bool-cases (metric == "l2")) [
      | inl a ↦ elim (Bool-cases (fits_matmul queries (v ∷ vs))) [
        | inl h ↦
            rw (a, h)
              (nearest (l2.0 a) (fit.0 h) _ (Answers-l2 np (v ∷ vs) queries k laws (fit.0 h)))
        | inr h ↦ rw (a, h) (misfit (λ f. cc (h, fit.1 f)))
      ]
      | inr a ↦ elim (Bool-cases (metric == "ip")) [
        | inl b ↦ elim (Bool-cases (fits_matmul queries (v ∷ vs))) [
          | inl h ↦
              rw (a, b, h) (largest (ip.0 b) (fit.0 h) _ (Answers-ip np (v ∷ vs) queries k laws))
          | inr h ↦ rw (a, b, h) (misfit (λ f. cc (h, fit.1 f)))
        ]
        | inr b ↦ rw (a, b) (unknown (λ e. cc (a, l2.1 e)) (λ e. cc (b, ip.1 e)))
      ]
    ]

module _ {ℓ} {X : Type ℓ} (P : X → Type 0) where
  get_elem_All :
      (xs : List X) (j : ℕ) → All P xs → j < length xs → (x : X) × (get_elem? xs j ≡ some x) × P x
  get_elem_All [] j a h = absurd (omega arith)
  get_elem_All (x ∷ xs) zero a h = (x, refl, a.0)
  get_elem_All (x ∷ xs) (suc j) a h = get_elem_All xs j a.1 (omega arith)

  -- Places in range pick one element each, with what is known of all elements.
  pub pick_lem :
      (xs : List X) (rows : List ℕ)
      → All P xs
      → All (λ j. j < length xs) rows
      → (ys : List X) × (pick xs rows ≡ ok ys) × (length ys ≡ length rows) × All P ys
  unfolding pick
  pick_lem xs [] a h = ([], refl, refl, tt)
  pick_lem xs (j ∷ rows) a h =
      let (x, found, px) = get_elem_All xs j a h.0 in
      let (ys, e, same, pys) = pick_lem xs rows a h.1 in
      (x ∷ ys, ground arith, ap suc same, (px, pys))

pub All-tt {ℓ} : {X : Type ℓ} (xs : List X) → All (λ _. Unit {0}) xs
All-tt [] = tt
All-tt (x ∷ xs) = (tt, All-tt xs)

-- The metrics that the code knows.
abbrev pub IsMetric : String → Type 0
IsMetric metric = (metric ≡ "l2") ⊎ (metric ≡ "ip")

pub exact_topk_rows_returns :
    (np : Numpy) (queries vectors : Matrix) (k : ℕ) (metric : String)
    → IsNumpy np
    → vectors ≢ []
    → IsMetric metric
    → Fit queries vectors
    → (rank : Vector → Rank) × (top : List (List ℕ)) × (exact_topk_rows np queries vectors k metric
        ≡ ok top)
      × Answers rank vectors queries k top
exact_topk_rows_returns np queries vectors k metric laws some_row known fit =
    go (exact_topk_rows np queries vectors k metric) refl
      (exact_topk_rows_lem np queries vectors k metric laws some_row)
  where
    go :
        (r : Result (List (List ℕ)))
        → exact_topk_rows np queries vectors k metric ≡ r
        → IsSearched queries vectors k metric r
        → (rank : Vector → Rank) × (top : List (List ℕ)) × (exact_topk_rows np queries vectors k
              metric
            ≡ ok top)
          × Answers rank vectors queries k top
    go (ok _) e (nearest _ _ top a) = (nearer, top, e, a)
    go (ok _) e (largest _ _ top a) = (larger, top, e, a)
    go (raise _) e (unknown a b) = elim known [ inl l2 ↦ absurd (a l2) | inr ip ↦ absurd (b ip) ]
    go (raise _) e (misfit h) = absurd (h fit)

-- The vectors fit the queries if each fits all of them.
fit_none : (queries : Matrix) → Fit queries []
fit_none [] = tt
fit_none (q ∷ queries) = (tt, fit_none queries)

fit_more :
    (queries : Matrix) (v : Vector) (vs : Matrix)
    → All (λ q. length v ≡ length q) queries
    → Fit queries vs
    → Fit queries (v ∷ vs)
fit_more [] v vs h k = tt
fit_more (q ∷ queries) v vs h k = ((h.0, k.0), fit_more queries v vs h.1 k.1)

pub Fit_of_rows :
    (queries vs : Matrix) → All (λ v. All (λ q. length v ≡ length q) queries) vs → Fit queries vs
Fit_of_rows queries [] h = fit_none queries
Fit_of_rows queries (v ∷ vs) h = fit_more queries v vs h.0 (Fit_of_rows queries vs h.1)

fit_head :
    (queries : Matrix) (v : Vector) (vs : Matrix)
    → Fit queries (v ∷ vs)
    → All (λ q. length v ≡ length q) queries × Fit queries vs
fit_head [] v vs h = (tt, tt)
fit_head (q ∷ queries) v vs h = let (a, b) = fit_head queries v vs h.1 in ((h.0.0, a), (h.0.1, b))

pub rows_of_Fit :
    (queries vs : Matrix) → Fit queries vs → All (λ v. All (λ q. length v ≡ length q) queries) vs
rows_of_Fit queries [] h = tt
rows_of_Fit queries (v ∷ vs) h =
    let (a, b) = fit_head queries v vs h in (a, rows_of_Fit queries vs b)
