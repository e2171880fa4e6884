-- ===== src/Qdrant/Schedule/Realized.antt =====
-- research/qdrant_kill_scheduler/check_realized_schedule.py: a run's events against its request
-- (check_run) and the verdicts over the runs (main). Times are in milliseconds.
use nano_db.Common.{
  ℕ, ◌+◌, ◌-◌, List, [], ◌∷◌, ◌++◌, map, Bool, false, not, Option, none, some, if◌then◌else◌,
  length, ltb, leb, eqb, String, string_key,
}
use nano_db.Common.Sets.{to_set, count_if}
use nano_db.Common.Int.{ℤ, pos, ◌-ℤ◌, pos_part, neg_part}
use nano_db.Qdrant.Schedule.{KillEvent, is_spread}

-- An entry of events.json: one without a condition, or one of a scheduled kill.
pub data Event : Type 0 where
  random_kill : Event
  scheduled_kill : KillEvent → Event

abbrev pub drift_tolerance : ℕ
drift_tolerance = 2000

abbrev pub scheduled_of : List Event → List KillEvent
scheduled_of [] = []
scheduled_of (random_kill ∷ events) = scheduled_of events
scheduled_of (scheduled_kill e ∷ events) = e ∷ scheduled_of events

abbrev pub gap_drift : Option ℕ → Option ℤ → Option ℤ
gap_drift none realized = none
gap_drift (some requested) none = none
gap_drift (some requested) (some realized) = some (realized -ℤ pos requested)

abbrev pub present {ℓ} : {A : Type ℓ} → List (Option A) → List A
present [] = []
present (none ∷ xs) = present xs
present (some x ∷ xs) = x ∷ present xs

pub record Row : Type 0 where
  pub seq : ℕ
  pub target : String
  pub req_at : ℕ
  pub real_at : ℕ
  pub at_drift : ℤ
  pub req_gap : Option ℕ
  pub real_gap : Option ℤ
  pub drift : Option ℤ
  pub down_for : ℕ
  pub killed_while_down : Option Bool
  pub alive_after_restart : Option Bool

abbrev pub row_of : KillEvent → Row
row_of e = record {
  seq = e.seq;
  target = e.target;
  req_at = e.requested_at;
  real_at = e.realized_at;
  at_drift = pos e.realized_at -ℤ pos e.requested_at;
  req_gap = e.requested_gap;
  real_gap = e.realized_gap;
  drift = gap_drift e.requested_gap e.realized_gap;
  down_for = e.down_for;
  killed_while_down = e.killed_while_down;
  alive_after_restart = e.alive_after_restart;
}

-- `x is True` and `x is False` of a value that may be None.
abbrev pub is_true : Option Bool → Bool
is_true none = false
is_true (some b) = b

abbrev pub is_false : Option Bool → Bool
is_false none = false
is_false (some b) = not b

-- What `check_run` returns: None, a run without a schedule, or a scheduled one.
pub record Checked : Type 0 where
  pub condition : String
  pub rows : List Row
  pub drifts : List ℤ
  pub targets : List String
  pub n_killed_while_down : ℕ
  pub n_dead_after_restart : ℕ

pub data RunCheck : Type 0 where
  no_events : RunCheck
  unscheduled : ℕ → RunCheck
  checked : Checked → RunCheck

unfoldable pub check_scheduled : ℕ → List KillEvent → RunCheck
check_scheduled n_events [] = unscheduled n_events
check_scheduled n_events (first ∷ others) =
    let scheduled = first ∷ others in
    checked (record {
      condition = first.condition;
      rows = map row_of scheduled;
      drifts = present (map (λ r. r.drift) (map row_of scheduled));
      targets = to_set (map (λ (e : KillEvent). e.target) scheduled);
      n_killed_while_down = count_if (λ e. is_true e.killed_while_down) scheduled;
      n_dead_after_restart = count_if (λ e. is_false e.alive_after_restart) scheduled;
    })

unfoldable pub check_run : List Event → RunCheck
unfolding check_scheduled
check_run [] = no_events
check_run (e ∷ events) = check_scheduled (length (e ∷ events)) (scheduled_of (e ∷ events))

-- `by_seq.get(seq)`: the last row of that number.
abbrev pub by_seq : ℕ → List Row → Option Row
by_seq seq [] = none
by_seq seq (r ∷ rows) = elim (by_seq seq rows) [
  | some later ↦ some later
  | none ↦ if eqb r.seq seq then some r else none
]

-- The row before, by number; the first has none.
abbrev pub previous : Row → List Row → Option Row
previous w rows = if eqb w.seq 0 then none else by_seq (w.seq - 1) rows

abbrev pub latency_since : Row → ℤ → Row → ℤ
latency_since w gap prev = pos w.real_at -ℤ gap -ℤ pos (prev.real_at + prev.down_for)

-- The implied restart latency of a row.
abbrev pub latency_of : List Row → Row → Option ℤ
latency_of rows w = elim (previous w rows) [
  | none ↦ none
  | some prev ↦ elim w.real_gap [ none ↦ none | some gap ↦ some (latency_since w gap prev) ]
]

unfoldable pub targeting_ok : Checked → Bool
targeting_ok r =
    if is_spread r.condition
    then eqb (length r.targets) (length r.rows)
    else eqb (length r.targets) 1

-- The entries of `problems`.
pub data Problem : Type 0 where
  no_kills targeting_wrong : Problem
  killed_down : ℕ → Problem

pub record Totals : Type 0 where
  pub all_drift : List ℤ
  pub all_latency : List ℤ
  pub problems : List Problem

abbrev pub problems_of : Checked → List Problem
problems_of r =
    (if targeting_ok r then [] else targeting_wrong ∷ [])
    ++ (if eqb r.n_killed_while_down 0 then [] else killed_down r.n_killed_while_down ∷ [])

unfoldable pub add_run : Totals → RunCheck → Totals
unfolding targeting_ok
add_run t no_events = record t { problems = t.problems ++ (no_kills ∷ []) }
add_run t (unscheduled n) = t
add_run t (checked r) = record {
  all_drift = t.all_drift ++ r.drifts;
  all_latency = t.all_latency ++ present (map (latency_of r.rows) r.rows);
  problems = t.problems ++ problems_of r;
}

unfoldable pub add_runs : Totals → List (List Event) → Totals
unfolding check_run add_run
add_runs t [] = t
add_runs t (events ∷ runs) = add_runs (add_run t (check_run events)) runs

abbrev pub abs_ℤ : ℤ → ℕ
abs_ℤ z = pos_part z + neg_part z

-- `max(xs, key=abs)`: the first of the greatest.
abbrev pub worst_of : ℤ → List ℤ → ℤ
worst_of w [] = w
worst_of w (x ∷ xs) = worst_of (if ltb (abs_ℤ w) (abs_ℤ x) then x else w) xs

-- What is said of the drift: nothing was measured, or it is within tolerance or not.
pub data DriftVerdict : Type 0 where
  unmeasured within_tolerance outside_tolerance : DriftVerdict

unfoldable pub drift_verdict : List ℤ → DriftVerdict
drift_verdict [] = unmeasured
drift_verdict (d ∷ drifts) =
    if leb (abs_ℤ (worst_of d drifts)) drift_tolerance then within_tolerance else outside_tolerance

pub record Report : Type 0 where
  pub exit_code : ℕ
  pub totals : Totals
  pub verdict : DriftVerdict

unfoldable pub main : List (List Event) → Report
unfolding add_runs drift_verdict
main [] = record {
  exit_code = 1;
  totals = record { all_drift = []; all_latency = []; problems = [] };
  verdict = unmeasured;
}
main (run ∷ runs) =
    let totals =
      add_runs (record { all_drift = []; all_latency = []; problems = [] }) (run ∷ runs) in
    record { exit_code = 0; totals = totals; verdict = drift_verdict totals.all_drift }
