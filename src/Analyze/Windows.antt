-- ===== src/Analyze/Windows.antt =====
-- The table of recall around a failover (Q2) of research/replica_recall/analyze.py. Times are in
-- thousandths.
pub mod Placed
use nano_db.Common.{
  ap, ap₂, ◌↔◌, ◌≢◌, ◌<◌, refl, sym, ◌∙◌, inl, inr, Bool-cases, Option-cases, ◌⊎◌, append-nil,
  append_assoc, length-append, length-map, All, ℕ, zero, suc, ◌+◌, ◌-◌, ◌*◌, ◌/◌, ◌≤◌, ◌≡◌, List,
  [], ◌∷◌, ◌++◌, map, Bool, true, false, not, ◌&&◌, ◌||◌, Option, none, some, arith, if◌then◌else◌,
  length, ltb, leb, eqb, String, Key, ◌==◌, min, max, nat_key, string_key,
}
use nano_db.Common.Frac.{Frac, IsProportion}
use nano_db.Common.Sets.{select, count_if}
use nano_db.Analyze.{
  Row, known, mean_of, nanmean, Spread, intra_shard_spreads, SizeBin, recall_by_size,
}
use nano_db.Analyze.Detection.{Detection, detection_stats, resolution_eps, MetaInt}

-- A kill of a process.
pub record Kill : Type 0 where
  pub target : String
  pub t_rel : ℕ

-- `kills_by_target.get(name, [])`, in order.
unfoldable pub kills_of : String → List Kill → List ℕ
kills_of name [] = []
kills_of name (k ∷ kills) =
    let rest = kills_of name kills in if k.target == name then k.t_rel ∷ rest else rest

-- `max(prior)` of the kills up to t.
unfoldable pub last_kill : ℕ → List ℕ → Option ℕ
last_kill t [] = none
last_kill t (k ∷ ks) =
    let rest = last_kill t ks in
    if leb k t then (elim rest [ none ↦ some k | some m ↦ some (max k m) ]) else rest

pub data Window : Type 0 where
  before_any in_0_5 in_5_15 in_15_30 after_30 : Window

-- The first bucket that holds dt; without a kill dt is -1e9, the lower end of the first bucket.
unfoldable pub window_of : Option ℕ → Window
window_of none = before_any
window_of (some dt) =
    if ltb dt 5000
    then in_0_5
    else (if ltb dt 15000 then in_5_15 else (if ltb dt 30000 then in_15_30 else after_30))

-- The window of a row with a time; times lie within 10^9 seconds.
unfoldable pub placed : List Kill → Row → ℕ → Window
unfolding kills_of last_kill window_of
placed events r t =
    window_of
      (elim (last_kill t (kills_of (r.name) events)) [ none ↦ none | some k ↦ some (t - k) ])

-- A time that is NaN has no kill before it.
unfoldable pub window_for : List Kill → Row → Window
unfolding placed
window_for events r = elim (r.t_rel) [ none ↦ before_any | some t ↦ placed events r t ]

abbrev pub is_window : Window → Window → Bool
is_window before_any before_any = true
is_window in_0_5 in_0_5 = true
is_window in_5_15 in_5_15 = true
is_window in_15_30 in_15_30 = true
is_window after_30 after_30 = true
is_window _ _ = false

-- A line of the table.
pub record WindowRow : Type 0 where
  pub n : ℕ
  pub e2e : Option Frac
  pub index : Option Frac
  pub complete : Option Frac

-- The rows that `q2_recall_around_failover` puts into a window.
unfoldable pub rows_in : Window → List Kill → List Row → List Row
unfolding window_for
rows_in w events [] = []
rows_in w events (r ∷ rows) =
    let rest = rows_in w events rows in
    if not (r.reachable)
    then rest
    else (if is_window w (window_for events r) then r ∷ rest else rest)

-- The line of a window, none if it has no recall.
unfoldable pub window_row : List Row → Option WindowRow
unfolding known nanmean
window_row rows =
    let n = length (known (map (λ r. r.e2e_recall) rows)) in
    if eqb n 0
    then none
    else some (record {
      n = n;
      e2e = nanmean (map (λ r. r.e2e_recall) rows);
      index = nanmean (map (λ r. r.index_recall) rows);
      complete = nanmean (map (λ r. r.completeness) rows);
    })

-- `q2_recall_around_failover`: the lines in the order of the windows; nothing without events.
unfoldable pub q2_recall_around_failover : List Row → List Kill → Option (List (Option WindowRow))
unfolding rows_in window_row
q2_recall_around_failover rows [] = none
q2_recall_around_failover rows (e ∷ events) = some (
    map (λ w. window_row (rows_in w (e ∷ events) rows))
      (before_any ∷ in_0_5 ∷ in_5_15 ∷ in_15_30 ∷ after_30 ∷ []))
