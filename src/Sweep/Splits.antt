-- ===== src/Sweep/Splits.antt =====
-- The exact null distribution of `mann_whitney` (research/replica_recall/aggregate.py).
use nano_db.Common.{
  ℕ, zero, suc, ◌+◌, ◌≤◌, ◌<◌, ◌≡◌, refl, List, [], ◌∷◌, map, arith, length, length-append,
  length-map,
}
use nano_db.Common.Int.{ℤ}
use nano_db.Sweep.{put_left, put_right, splits, count_extreme}

-- The binomial coefficient.
abbrev pub choose : ℕ → ℕ → ℕ
choose n zero = 1
choose zero (suc k) = 0
choose (suc n) (suc k) = choose n k + choose n (suc k)

-- There are as many splits as ways to choose k of the values.
pub length-splits : (k : ℕ) (pool : List ℤ) → length (splits k pool) ≡ choose (length pool) k
unfolding splits
length-splits zero pool = refl
length-splits (suc k) [] = refl
length-splits (suc k) (x ∷ pool) =
    let with_x = length-map (put_left x) (splits k pool) in
    let without_x = length-map (put_right x) (splits (suc k) pool) in
    omega (
      arith,
      length-splits k pool,
      length-splits (suc k) pool,
      with_x,
      without_x,
      length-append (map (put_left x) (splits k pool)) (map (put_right x) (splits (suc k) pool)),
    )

pub choose_pos : (n k : ℕ) → k ≤ n → 0 < choose n k
choose_pos n zero h = omega arith
choose_pos zero (suc k) h = absurd (omega arith)
choose_pos (suc n) (suc k) h = omega (arith, choose_pos n k (omega arith))

pub count_extreme-le :
    (n observed : ℕ) (ss : List (List ℤ × List ℤ)) → count_extreme n observed ss ≤ length ss
unfolding count_extreme
count_extreme-le n observed [] = omega arith
count_extreme-le n observed (s ∷ ss) = ground (arith, count_extreme-le n observed ss)
