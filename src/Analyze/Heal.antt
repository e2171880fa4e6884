-- ===== src/Analyze/Heal.antt =====
-- `heal_stats` of research/replica_recall/analyze.py: does what is missing come back once the
-- faults stop? Missing ids are in millionths; a product with a completeness is exact.
pub mod Healed
use nano_db.Common.Int.{ℤ, sub_ℕ, pos_part, neg_part}
use nano_db.Common.{
  ap, ap₂, ◌↔◌, ◌≢◌, ◌<◌, refl, sym, ◌∙◌, inl, inr, Bool-cases, Option-cases, ◌⊎◌, append-nil,
  append_assoc, length-append, length-map, All, ℕ, zero, suc, ◌+◌, ◌-◌, ◌*◌, ◌/◌, ◌≤◌, ◌≡◌, List,
  [], ◌∷◌, ◌++◌, map, Bool, true, false, not, ◌&&◌, ◌||◌, Option, none, some, arith, if◌then◌else◌,
  length, ltb, leb, eqb, String, Key, ◌==◌, min, max, nat_key, string_key,
}
use nano_db.Common.Frac.{Frac, IsProportion}
use nano_db.Analyze.{Row, mean_of, nanmean}

pub data Phase : Type 0 where
  pre during post0_30 post30_60 post60p : Phase

-- The meta data of the run: whether it has a quiesce window, and when the chaos started and
-- stopped (in thousandths).
pub record Meta : Type 0 where
  pub quiesce : Bool
  pub chaos_start_rel : Option ℕ
  pub chaos_stop_rel : Option ℕ

-- The phase of an instant.
unfoldable pub phase_at : ℕ → ℕ → ℕ → Phase
phase_at t0 t1 t =
    if ltb t t0
    then pre
    else (if ltb t t1
        then during
        else (if ltb (t - t1) 30000
            then post0_30
            else (if ltb (t - t1) 60000 then post30_60 else post60p)))

-- What is kept of a row: completeness, recall, and the missing ids. Completeness is at most 1.
pub record Sample : Type 0 where
  pub completeness : ℕ
  pub e2e : Option ℕ
  pub missing : Option ℕ

unfoldable pub missing_ids : ℕ → Option ℕ → Option ℕ
missing_ids c none = none
missing_ids c (some ni) = some ((1000000 - c) * ni)

-- The body of the loop over the rows.
unfoldable pub sample_of : ℕ → ℕ → Row → Option (Phase × Sample)
unfolding phase_at missing_ids
sample_of t0 t1 r = if not (r.reachable) then none else elim (r.t_rel) [
  | none ↦ none
  | some t ↦ elim (r.completeness) [
    | none ↦ none
    | some c ↦ some (
      phase_at t0 t1 t,
      record { completeness = c; e2e = r.e2e_recall; missing = missing_ids c (r.n_intended) },
    )
  ]
]

abbrev pub is_phase : Phase → Phase → Bool
is_phase pre pre = true
is_phase during during = true
is_phase post0_30 post0_30 = true
is_phase post30_60 post30_60 = true
is_phase post60p post60p = true
is_phase _ _ = false

-- `phases[k]`.
unfoldable pub samples_in : Phase → ℕ → ℕ → List Row → List Sample
unfolding sample_of
samples_in k t0 t1 [] = []
samples_in k t0 t1 (r ∷ rows) =
    let rest = samples_in k t0 t1 rows in
    elim (sample_of t0 t1 r) [
      | none ↦ rest
      | some ks ↦ if is_phase k (ks.0) then ks.1 ∷ rest else rest
    ]

-- The means of a phase.
pub record PhaseStats : Type 0 where
  pub completeness : Option Frac
  pub e2e_recall : Option Frac
  pub missing : Option Frac
  pub n : ℕ

unfoldable pub phase_stats : List Sample → PhaseStats
unfolding mean_of nanmean
phase_stats vals = record {
  completeness = mean_of (map (λ v. v.completeness) vals);
  e2e_recall = nanmean (map (λ v. v.e2e) vals);
  missing = nanmean (map (λ v. v.missing) vals);
  n = length vals;
}

-- A fraction with a sign.
pub record SignedFrac : Type 0 where
  pub num : ℤ
  pub den : ℕ

-- `healed`, `recovered_frac` and `residual_missing`.
pub record Recovery : Type 0 where
  pub healed : Option Bool
  pub recovered_frac : Option SignedFrac
  pub residual_missing : Option SignedFrac

-- x - y.
unfoldable pub minus : Frac → Frac → SignedFrac
minus x y = record { num = sub_ℕ (x.num * y.den) (y.num * x.den); den = x.den * y.den }

-- `damage > 1e-9`, for values in millionths.
unfoldable pub is_damaged : Frac → Frac → Bool
is_damaged at_stop before =
    ltb (before.num * at_stop.den * 1000 + at_stop.den * before.den)
      (at_stop.num * before.den * 1000)

-- `1 - residual / damage`, which is (at_stop - last) / (at_stop - before).
unfoldable pub recovered : Frac → Frac → Frac → SignedFrac
recovered at_stop last before = record {
  num = sub_ℕ (at_stop.num * last.den * before.den) (last.num * at_stop.den * before.den);
  den = (at_stop.num * before.den - before.num * at_stop.den) * last.den;
}

-- `recovered_frac >= 0.9`.
unfoldable pub is_recovered : SignedFrac → Bool
is_recovered q = leb (9 * q.den + 10 * neg_part q.num) (10 * pos_part q.num)

-- The branches at the end, on the means of the missing ids; a mean that is NaN fails each of the
-- comparisons.
unfoldable pub judge : Frac → Option Frac → Option Frac → Recovery
unfolding minus is_damaged recovered is_recovered
judge before none none = record {
  healed = some false;
  recovered_frac = none;
  residual_missing = none;
}
judge before none (some last) = record {
  healed = some false;
  recovered_frac = none;
  residual_missing = some (minus last before);
}
judge before (some at_stop) none =
    if is_damaged at_stop before
    then record { healed = some false; recovered_frac = none; residual_missing = none }
    else record { healed = none; recovered_frac = none; residual_missing = none }
judge before (some at_stop) (some last) =
    if is_damaged at_stop before
    then record {
      healed = some (is_recovered (recovered at_stop last before));
      recovered_frac = some (recovered at_stop last before);
      residual_missing = some (minus last before);
    }
    else record {
      healed = none;
      recovered_frac = none;
      residual_missing = some (minus last before);
    }

-- The last phase with samples.
unfoldable pub last_stats : PhaseStats → PhaseStats → PhaseStats → Option PhaseStats
last_stats p0 p30 p60 =
    if ltb 0 (p60.n)
    then some p60
    else (if ltb 0 (p30.n) then some p30 else (if ltb 0 (p0.n) then some p0 else none))

unfoldable pub recovery_of : PhaseStats → PhaseStats → PhaseStats → PhaseStats → Recovery
unfolding judge last_stats
recovery_of before p0 p30 p60 = elim (last_stats p0 p30 p60) [
  | none ↦ record { healed = none; recovered_frac = none; residual_missing = none }
  | some last ↦ elim (before.missing) [
    | none ↦ record { healed = none; recovered_frac = none; residual_missing = none }
    | some pre_m ↦ judge pre_m (if ltb 0 (p0.n) then p0.missing else last.missing) (last.missing)
  ]
]

pub record HealStats : Type 0 where
  pub before : PhaseStats
  pub within : PhaseStats
  pub after0 : PhaseStats
  pub after30 : PhaseStats
  pub after60 : PhaseStats
  pub recovery : Recovery

unfoldable pub stats_between : ℕ → ℕ → List Row → HealStats
unfolding samples_in phase_stats recovery_of
stats_between t0 t1 rows =
    let stats = λ (k : Phase). phase_stats (samples_in k t0 t1 rows) in
    record {
      before = stats pre;
      within = stats during;
      after0 = stats post0_30;
      after30 = stats post30_60;
      after60 = stats post60p;
      recovery = recovery_of (stats pre) (stats post0_30) (stats post30_60) (stats post60p);
    }

-- `heal_stats`.
unfoldable pub heal_stats : Meta → List Row → Option HealStats
unfolding stats_between
heal_stats meta rows = if not (meta.quiesce) then none else elim (meta.chaos_start_rel) [
  | none ↦ none
  | some t0 ↦ elim (meta.chaos_stop_rel) [ none ↦ none | some t1 ↦ some (stats_between t0 t1 rows) ]
]
