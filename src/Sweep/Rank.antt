-- ===== src/Sweep/Rank.antt =====
-- The U statistic of `mann_whitney` (research/replica_recall/aggregate.py).
use nano_db.Common.{◌+◌, ◌*◌, ◌≤◌, ◌≡◌, refl, List, [], ◌∷◌, arith, length}
use nano_db.Common.Int.{ℤ}
use nano_db.Sweep.{pair_score, row_score, double_u}

pair_score_sum : (x y : ℤ) → pair_score x y + pair_score y x ≡ 2
unfolding pair_score
pair_score_sum x y = ground arith

row_score-le : (x : ℤ) (ys : List ℤ) → row_score x ys ≤ 2 * length ys
unfolding row_score
row_score-le x [] = omega arith
row_score-le x (y ∷ ys) = omega (arith, row_score-le x ys, pair_score_sum x y)

double_u-cons :
    (x : ℤ) (xs ys : List ℤ)
    → double_u ys (x ∷ xs) + row_score x ys ≡ double_u ys xs + 2 * length ys
unfolding double_u row_score
double_u-cons x xs [] = omega arith
double_u-cons x xs (y ∷ ys) = omega (arith, double_u-cons x xs ys, pair_score_sum x y)

double_u-nil : (ys : List ℤ) → double_u ys [] ≡ 0
unfolding double_u row_score
double_u-nil [] = refl
double_u-nil (y ∷ ys) = omega (arith, double_u-nil ys)

-- The statistics of the two samples add up to all pairs: U of the first and U of the second sum to
-- n1 * n2 (both are doubled here).
pub double_u-sum : (xs ys : List ℤ) → double_u xs ys + double_u ys xs ≡ 2 * (length xs * length ys)
unfolding double_u
double_u-sum [] ys = omega (arith, double_u-nil ys)
double_u-sum (x ∷ xs) ys = grind (arith, double_u-cons x xs ys, double_u-sum xs ys)
