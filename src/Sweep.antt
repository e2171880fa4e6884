-- ===== src/Sweep.antt =====
-- research/replica_recall/aggregate.py: the rank test between two conditions and the verdict on
-- healing. A float that the test compares is an integer on a common scale, or none for NaN.
pub mod Rank
pub mod Splits
pub mod Observed
pub mod Pvalue
pub mod Discover
pub mod Healing
pub mod Tests
use nano_db.Common.{
  ℕ, zero, suc, ◌+◌, ◌-◌, ◌*◌, ◌≤◌, ◌≡◌, List, [], ◌∷◌, ◌++◌, map, Bool, true, false, not, ◌&&◌,
  ◌||◌, Option, none, some, arith, if◌then◌else◌, length, ltb, leb, eqb,
}
use nano_db.Common.Int.{ℤ, leb_ℤ}
use nano_db.Common.Frac.{Frac}
use nano_db.Common.Sort.{sort}

-- The values that are not NaN.
unfoldable pub without_nan : List (Option ℤ) → List ℤ
without_nan [] = []
without_nan (none ∷ xs) = without_nan xs
without_nan (some x ∷ xs) = x ∷ without_nan xs

-- Twice what a pair adds to U: 2 for x > y, 1 for x == y.
unfoldable pub pair_score : ℤ → ℤ → ℕ
pair_score x y = if leb_ℤ x y then (if leb_ℤ y x then 1 else 0) else 2

unfoldable pub row_score : ℤ → List ℤ → ℕ
unfolding pair_score
row_score x [] = 0
row_score x (y ∷ ys) = pair_score x y + row_score x ys

-- Twice `_u(xs, ys)`.
unfoldable pub double_u : List ℤ → List ℤ → ℕ
unfolding row_score
double_u [] ys = 0
double_u (x ∷ xs) ys = row_score x ys + double_u xs ys

-- Twice the distance of U from its centre `n1 * n2 / 2`.
unfoldable pub off_centre : ℕ → ℕ → ℕ
off_centre u n = (u - n) + (n - u)

-- The value is selected, or left to the others.
abbrev pub put_left : ℤ → List ℤ × List ℤ → List ℤ × List ℤ
put_left x s = (x ∷ s.0, s.1)

abbrev pub put_right : ℤ → List ℤ × List ℤ → List ℤ × List ℤ
put_right x s = (s.0, x ∷ s.1)

-- `combinations(idx, n1)`: the selected values and the others, in the order of the pool.
unfoldable pub splits : ℕ → List ℤ → List (List ℤ × List ℤ)
splits zero pool = ([], pool) ∷ []
splits (suc k) [] = []
splits (suc k) (x ∷ pool) =
    map (put_left x) (splits k pool) ++ map (put_right x) (splits (suc k) pool)

-- A split is as far from the centre as the observed one. All values are multiples of 1/2, so the
-- tolerance of 1e-12 changes nothing.
unfoldable pub is_extreme : ℕ → ℕ → List ℤ × List ℤ → Bool
unfolding double_u off_centre
is_extreme n observed s = leb (off_centre observed n) (off_centre (double_u (s.0) (s.1)) n)

unfoldable pub count_extreme : ℕ → ℕ → List (List ℤ × List ℤ) → ℕ
unfolding is_extreme
count_extreme n observed [] = 0
count_extreme n observed (s ∷ ss) =
    let rest = count_extreme n observed ss in if is_extreme n observed s then suc rest else rest

-- `min(1.0, p)`.
unfoldable pub at_most_one : Frac → Frac
at_most_one p = if leb (p.num) (p.den) then p else record { num = 1; den = 1 }

-- The result (U, p), with U doubled.
pub data RankTest : Type 0 where
  no_test : RankTest
  test : (double_u : ℕ) (p : Frac) → RankTest

module _ (tail : ℕ → ℕ → ℕ → Frac) where
  -- `math.erfc(z / sqrt(2))` from n1, n2 and 2 U is the argument `tail`. With n1 and n2 positive
  -- the deviation is not 0.
  unfoldable pub rank_test : List ℤ → List ℤ → RankTest
  unfolding double_u splits count_extreme at_most_one
  rank_test a b =
      let n1 = length a in
      let n2 = length b in
      let u = double_u a b in
      let all = splits n1 (sort leb_ℤ (a ++ b)) in
      if eqb n1 0 || eqb n2 0
      then no_test
      else (if leb (n1 + n2) 20
          then test u (record { num = count_extreme (n1 * n2) u all; den = length all })
          else test u (at_most_one (tail n1 n2 u)))

  unfoldable pub mann_whitney : List (Option ℤ) → List (Option ℤ) → RankTest
  unfolding without_nan rank_test
  mann_whitney a b = rank_test (without_nan a) (without_nan b)

-- What `heal_stats` says of a phase after the stop: the samples in it and the missing ids.
pub record Phase : Type 0 where
  pub n : ℕ
  pub missing : Frac

-- What `report_healing` reads of a run: its phases, `healed` and the recovered fraction.
pub record Heal : Type 0 where
  pub post0_30 : Phase
  pub post30_60 : Phase
  pub post60p : Phase
  pub healed : Option Bool
  pub recovered_frac : Frac

-- The last phase with samples.
unfoldable pub last_phase : Heal → Option Phase
last_phase h =
    if ltb 0 (h.post60p.n)
    then some (h.post60p)
    else (if ltb 0 (h.post30_60.n)
        then some (h.post30_60)
        else (if ltb 0 (h.post0_30.n) then some (h.post0_30) else none))

-- A row of the table.
pub record HealRow : Type 0 where
  pub seed : ℕ
  pub at_stop : Frac
  pub at_end : Frac
  pub recovered : Frac
  pub flag : Bool

unfoldable pub heal_row : ℕ → Heal → Option HealRow
unfolding last_phase
heal_row seed h = elim (last_phase h) [
  | none ↦ none
  | some last ↦ elim (h.healed) [
    | none ↦ none
    | some flag ↦ some (record {
      seed = seed;
      at_stop = if ltb 0 (h.post0_30.n) then h.post0_30.missing else last.missing;
      at_end = last.missing;
      recovered = h.recovered_frac;
      flag = flag;
    })
  ]
]

-- The loop over the quiesce runs.
unfoldable pub heal_rows : List (ℕ × Heal) → List HealRow
unfolding heal_row
heal_rows [] = []
heal_rows ((seed, h) ∷ runs) =
    let rest = heal_rows runs in elim (heal_row seed h) [ none ↦ rest | some row ↦ row ∷ rest ]

unfoldable pub sum_flags : List HealRow → ℕ
sum_flags [] = 0
sum_flags (r ∷ rows) = (if r.flag then 1 else 0) + sum_flags rows

pub data Verdict : Type 0 where
  silent no_damage heals does_not_heal mixed : Verdict

unfoldable pub verdict_of : List HealRow → Verdict
unfolding sum_flags
verdict_of [] = no_damage
verdict_of (r ∷ rows) =
    let n_healed = sum_flags (r ∷ rows) in
    if eqb n_healed (length (r ∷ rows))
    then heals
    else (if eqb n_healed 0 then does_not_heal else mixed)

-- `report_healing`: the verdict that it prints; it says nothing without quiesce runs.
unfoldable pub report_healing : List (ℕ × Heal) → Verdict
unfolding heal_rows verdict_of
report_healing [] = silent
report_healing (run ∷ runs) = verdict_of (heal_rows (run ∷ runs))
