-- ===== src/Sweep/Tests.antt =====
-- The aggregation of a sweep on small inputs.
use nano_db.Common.{ℕ, ◌≡◌, refl, List, [], ◌∷◌, true, false, arith, length, Option, none, some}
use nano_db.Common.Int.{ℤ, pos, negsuc}
use nano_db.Common.Sort.{sort}
use nano_db.Common.Frac.{Frac}
use nano_db.Sweep.{test, mann_whitney, without_nan, Heal, Phase, report_healing, mixed}
use nano_db.Sweep.Pvalue.{IsTested, mann_whitney_lem}
use nano_db.Sweep.Discover.{baseline, chaos, RunDir, discover}
use nano_db.Sweep.Discover.Accepted.{IsDiscovered, discover_lem}

abbrev half : ℕ → ℕ → ℕ → Frac
half n1 n2 u = record { num = 1; den = 2 }

abbrev low : List (Option ℤ)
low = some (pos 1) ∷ none ∷ some (pos 2) ∷ some (negsuc 4) ∷ []

abbrev high : List (Option ℤ)
high = some (pos 7) ∷ some (pos 2) ∷ some (pos 9) ∷ []

mann_whitney_lem_example :
    IsTested (length (without_nan low)) (length (without_nan high)) (mann_whitney half low high)
mann_whitney_lem_example = mann_whitney_lem half (λ n1 n2 u. omega arith) low high

small_samples : mann_whitney half low high ≡ test 1 (record { num = 4; den = 20 })
unfolding mann_whitney sort
small_samples = refl

abbrev phase : ℕ → ℕ → Phase
phase n m = record { n = n; missing = record { num = m; den = 1 } }

abbrev healed_run : Heal
healed_run = record {
  post0_30 = phase 3 40;
  post30_60 = phase 3 10;
  post60p = phase 2 1;
  healed = some true;
  recovered_frac = record { num = 39; den = 40 };
}

abbrev lost_run : Heal
lost_run = record {
  post0_30 = phase 3 40;
  post30_60 = phase 0 0;
  post60p = phase 0 0;
  healed = some false;
  recovered_frac = record { num = 0; den = 1 };
}

two_runs_mixed : report_healing ((1, healed_run) ∷ (2, lost_run) ∷ []) ≡ mixed
unfolding report_healing
two_runs_mixed = refl

abbrev three_dirs : List (RunDir ℕ)
three_dirs =
    record { seed = 1; condition = baseline; has_samples = true; dist = some "sift"; summary = 10 }
    ∷ record { seed = 2; condition = chaos; has_samples = false; dist = none; summary = 20 }
    ∷ record { seed = 3; condition = chaos; has_samples = true; dist = some "sift"; summary = 30 }
    ∷ []

discover_lem_example : IsDiscovered three_dirs (discover three_dirs)
discover_lem_example = discover_lem three_dirs
