-- ===== src/Sweep/Pvalue.antt =====
-- The result of `mann_whitney` (research/replica_recall/aggregate.py).
use nano_db.Common.{
  ℕ, ◌+◌, ◌*◌, ◌≤◌, ◌<◌, ◌≡◌, ap, ◌∙◌, List, ◌++◌, true, false, ◌||◌, arith, length, leb, eqb, inl,
  inr, Bool-cases, length-append, Option,
}
use nano_db.Common.Int.{ℤ, leb_ℤ}
use nano_db.Common.Frac.{Frac, IsProportion}
use nano_db.Common.Sort.{sort, length-sort}
use nano_db.Sweep.{
  RankTest, no_test, test, rank_test, mann_whitney, without_nan, at_most_one, splits, double_u,
  count_extreme,
}
use nano_db.Sweep.Rank.{double_u-sum}
use nano_db.Sweep.Splits.{choose, length-splits, choose_pos, count_extreme-le}
use nano_db.Sweep.Observed.{observed_lem}

-- What a test of samples of n1 and n2 values may give: U is at most n1 * n2 (both doubled), and p
-- is a proportion; for at most 20 values p is positive, and a fraction of the number of splits.
abbrev pub IsTested : ℕ → ℕ → RankTest → Type 0
IsTested n1 n2 no_test = (eqb n1 0 || eqb n2 0) ≡ true
IsTested n1 n2 (test u p) =
    ((eqb n1 0 || eqb n2 0) ≡ false)
    × (u ≤ 2 * (n1 * n2))
    × IsProportion p
    × (n1 + n2 ≤ 20 → (0 < p.num) × (p.den ≡ choose (n1 + n2) n1))

at_most_one-IsProportion : (p : Frac) → 0 < p.den → IsProportion (at_most_one p)
unfolding at_most_one
at_most_one-IsProportion p h = elim (Bool-cases (leb p.num p.den)) [
  | inl small ↦ simp small (record { positive = h; at_most_one = ground arith })
  | inr large ↦ simp large (record { positive = omega arith; at_most_one = omega arith })
]

module _ (tail : ℕ → ℕ → ℕ → Frac) (tail_pos : (n1 n2 u : ℕ) → 0 < (tail n1 n2 u).den) where
  exact_lem :
      (a b : List ℤ)
      → IsProportion (record {
        num =
            count_extreme
              (length a * length b)
              (double_u a b)
              (splits (length a) (sort leb_ℤ (a ++ b)));
        den = length (splits (length a) (sort leb_ℤ (a ++ b)));
      })
        × (length (splits (length a) (sort leb_ℤ (a ++ b)))
            ≡ choose (length a + length b) (length a))
  exact_lem a b =
      let all = splits (length a) (sort leb_ℤ (a ++ b)) in
      let size : length (sort leb_ℤ (a ++ b)) ≡ length a + length b =
        length-sort leb_ℤ (a ++ b) ∙ length-append a b in
      let many : length all ≡ choose (length a + length b) (length a) =
        length-splits (length a) (sort leb_ℤ (a ++ b)) ∙ ap (λ n. choose n (length a)) size in
      let pos = choose_pos (length a + length b) (length a) (omega arith) in
      (
        record {
          positive = omega (arith, many, pos);
          at_most_one = count_extreme-le (length a * length b) (double_u a b) all;
        },
        many,
      )

  rank_test_lem : (a b : List ℤ) → IsTested (length a) (length b) (rank_test tail a b)
  unfolding rank_test
  rank_test_lem a b = elim (Bool-cases (eqb (length a) 0 || eqb (length b) 0)) [
    | inl empty ↦ rw empty empty
    | inr full ↦
        let below : double_u a b ≤ 2 * (length a * length b) = omega (arith, double_u-sum a b) in
        elim (Bool-cases (leb (length a + length b) 20)) [
          | inl few ↦
              let (prop, many) = exact_lem a b in
              rw (full, few) (full, below, prop, λ _. (observed_lem a b, many))
          | inr lots ↦
              rw (full, lots)
                (
                  full,
                  below,
                  at_most_one-IsProportion (tail (length a) (length b) (double_u a b))
                      (tail_pos (length a) (length b) (double_u a b)),
                  λ q. absurd (ground arith),
                )
        ]
  ]

  -- The test gives no result exactly if a sample has no value that is not NaN. Otherwise U is at
  -- most the number of pairs and p lies in [0, 1]; for at most 20 values p is positive, and its
  -- denominator is the number of ways to choose the first sample. The approximation's denominator
  -- is not 0.
  pub mann_whitney_lem :
      (a b : List (Option ℤ))
      → IsTested (length (without_nan a)) (length (without_nan b)) (mann_whitney tail a b)
  unfolding mann_whitney
  mann_whitney_lem a b = rank_test_lem (without_nan a) (without_nan b)
