-- ===== src/Sweep/Discover.antt =====
-- `discover` of research/replica_recall/aggregate.py: the runs of a sweep, by condition. A
-- directory is given by what its name and its files say; the order is that of the sorted names.
pub mod Accepted
use nano_db.Common.{
  ℕ, zero, suc, ◌+◌, ◌≤◌, ◌<◌, ◌≡◌, refl, sym, ◌↔◌, List, [], All, ◌∙◌, append-nil, append_assoc,
  ◌∷◌, ◌++◌, Bool, true, false, arith, if◌then◌else◌, length, leb, ltb, eqb, inl, inr, Bool-cases,
  Option, none, some, String, string_key, ◌==◌, Key, ◌||◌, not,
}
use nano_db.Common.Sets.{contains, contains-append, IsUnique, eq_refl}

pub data Condition : Type 0 where
  baseline chaos quiesce : Condition

-- A directory whose name matches RUN_RE: its groups, whether it holds samples.csv, the
-- distribution in its meta data ("unknown" when that is missing), and its summary.
pub record RunDir (S : Type 0) : Type 0 where
  pub seed : ℕ
  pub condition : Condition
  pub has_samples : Bool
  pub dist : Option String
  pub summary : S

-- `out`.
pub record Found (S : Type 0) : Type 0 where
  pub baseline_runs : List (ℕ × S)
  pub chaos_runs : List (ℕ × S)
  pub quiesce_runs : List (ℕ × S)

unfoldable pub dist_of : Option String → String
dist_of none = "unknown"
dist_of (some d) = d

unfoldable pub add_run : {S : Type 0} → Condition → ℕ × S → Found S → Found S
add_run baseline r f = record f { baseline_runs = f.baseline_runs ++ r ∷ [] }
add_run chaos r f = record f { chaos_runs = f.chaos_runs ++ r ∷ [] }
add_run quiesce r f = record f { quiesce_runs = f.quiesce_runs ++ r ∷ [] }

-- The keys of `dists` in the order of their first run.
unfoldable pub add_dist : String → List String → List String
add_dist d ds = if contains d ds then ds else ds ++ d ∷ []

-- The loop over the directories.
unfoldable pub scan : {S : Type 0} → List (RunDir S) → List String → Found S → List String × Found S
unfolding dist_of add_run add_dist
scan [] ds f = (ds, f)
scan (r ∷ dirs) ds f =
    let skipped = scan dirs ds f in
    let taken =
      scan dirs (add_dist (dist_of (r.dist)) ds) (add_run (r.condition) (r.seed, r.summary) f) in
    if not (r.has_samples) then skipped else taken

-- Runs of several distributions are refused (`sys.exit(1)`).
unfoldable pub discover : {S : Type 0} → List (RunDir S) → Option (Found S)
unfolding scan
discover dirs =
    let (ds, out) =
      scan dirs [] (record { baseline_runs = []; chaos_runs = []; quiesce_runs = [] }) in
    if ltb 1 (length ds) then none else some out
