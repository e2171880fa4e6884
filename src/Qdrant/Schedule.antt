-- ===== src/Qdrant/Schedule.antt =====
-- research/cross_system_replication/qdrant_docker_harness.py: the requested kill schedule
-- (build_kill_schedule) and the loop that runs it (chaos_loop_scheduled). Times are in milliseconds
-- since the chaos started; what docker and the stop event do in a step is an argument.
pub mod Steps
pub mod Spacing
pub mod Ran
pub mod Realized
pub mod Targets
pub mod Judged
pub mod Drift
pub mod Tests
use nano_db.Common.{
  ℕ, zero, suc, ◌+◌, List, [], ◌∷◌, ◌++◌, Bool, true, false, not, ◌&&◌, ◌||◌, Option, none, some,
  if◌then◌else◌, length, take, replicate, ltb, eqb, ◌==◌, string_key, String,
}
use nano_db.Common.Sets.{contains}
use nano_db.Common.Int.{ℤ, sub_ℕ}
use nano_db.Common.Frac.{Result, ok, raise, value_error, index_error, key_error, ◌>>=◌}

abbrev pub short_gap : ℕ
short_gap = 5000

abbrev pub long_gap : ℕ
long_gap = 40000

abbrev pub fixed_down : ℕ
fixed_down = 4500

abbrev pub kill_conditions : List String
kill_conditions = "short-gap-same-node" ∷ "long-gap-same-node" ∷ "spread" ∷ []

pub record Step : Type 0 where
  pub seq : ℕ
  pub target : String
  pub at : ℕ
  pub gap : Option ℕ
  pub down_for : ℕ

-- The loop over range(n_kills), whose targets are the rest of the list.
unfoldable pub steps_from : ℕ → List String → ℕ → ℕ → List Step
steps_from gap [] i at = []
steps_from gap (t ∷ targets) i at =
    let at' = if ltb 0 i then at + (fixed_down + gap) else at in
    record {
      seq = i;
      target = t;
      at = at';
      gap = if ltb 0 i then some gap else none;
      down_for = fixed_down;
    }
    ∷ steps_from gap targets (suc i) at'

-- `schedule[-1]["at_s"] + FIXED_DOWN_S`.
abbrev pub span_of : List Step → ℕ
span_of [] = 0
span_of (s ∷ []) = s.at + fixed_down
span_of (s ∷ t ∷ steps) = span_of (t ∷ steps)

-- `target_node or node_names[0]`.
abbrev pub first_of : List String → Result String
first_of [] = raise index_error
first_of (name ∷ names) = ok name

abbrev pub chosen_of : Option String → List String → Result String
chosen_of none names = first_of names
chosen_of (some t) names = if t == "" then first_of names else ok t

-- The gap and the targets of a condition.
pub record Plan : Type 0 where
  pub gap : ℕ
  pub targets : List String

abbrev pub is_spread : String → Bool
is_spread condition = condition == "spread"

abbrev pub gap_of : String → ℕ
gap_of condition =
    if is_spread condition
    then long_gap
    else (if condition == "short-gap-same-node" then short_gap else long_gap)

abbrev pub same_node : String → ℕ → List String → String → Result Plan
same_node condition n_kills names chosen =
    if not (contains chosen names)
    then raise value_error
    else ok (record { gap = gap_of condition; targets = replicate n_kills chosen })

unfoldable pub plan_of : String → List String → ℕ → Option String → Result Plan
plan_of condition names n_kills target_node =
    if is_spread condition
    then (if ltb (length names) n_kills
        then raise value_error
        else ok (record { gap = long_gap; targets = take n_kills names }))
    else chosen_of target_node names >>= same_node condition n_kills names

abbrev pub fit : ℕ → List Step → Result (List Step)
fit window steps = if ltb window (span_of steps) then raise value_error else ok steps

unfoldable pub build_kill_schedule :
    String → List String → ℕ → ℕ → Option String → Result (List Step)
unfolding plan_of steps_from
build_kill_schedule condition names n_kills window target_node =
    if not (contains condition kill_conditions)
    then raise value_error
    else (if ltb n_kills 2
        then raise value_error
        else plan_of condition names n_kills target_node >>= λ (p : Plan).
            fit window (steps_from p.gap p.targets 0 0))

-- What the docker calls of a step come to: one raises (a timeout or not), the stop event is set
-- while the container is down, or the container was alive or not and came back or not.
pub data Calls : Type 0 where
  hung : Bool → Calls
  stopped : Calls
  done : Bool → Bool → Calls

-- A step as the world has it: whether the stop event is set while waiting or when looked at, when
-- the kill begins, what becomes of it and when it is over.
pub record Moment : Type 0 where
  pub now : ℕ
  pub stop_in_wait : Bool
  pub is_set : Bool
  pub t0 : ℕ
  pub calls : Calls
  pub restarted_at : ℕ

pub record KillEvent : Type 0 where
  pub t : ℕ
  pub target : String
  pub alive_after_restart : Option Bool
  pub down_for : ℕ
  pub condition : String
  pub seq : ℕ
  pub requested_at : ℕ
  pub realized_at : ℕ
  pub requested_gap : Option ℕ
  pub realized_gap : Option ℤ
  pub killed_while_down : Option Bool
  pub failed : Bool
  pub timed_out : Bool

-- `last_restart_at`, the latest entry in front.
abbrev pub Restarts : Type 0
Restarts = List (String × ℕ)

unfoldable pub get_restart : String → Restarts → Option ℕ
get_restart name [] = none
get_restart name ((n, t) ∷ rest) =
    let found = get_restart name rest in if name == n then some t else found

abbrev pub gap_since : ℕ → Option ℕ → Option ℤ
gap_since t none = none
gap_since t (some prev) = some (sub_ℕ t prev)

-- The step's event, with what is known of the kill.
unfoldable pub event_of :
    String → Step → Moment → Restarts → Option Bool → Option Bool → Bool → Bool → KillEvent
unfolding get_restart
event_of condition step m last alive down failed timed_out = record {
  t = m.t0;
  target = step.target;
  alive_after_restart = alive;
  down_for = step.down_for;
  condition = condition;
  seq = step.seq;
  requested_at = step.at;
  realized_at = m.t0;
  requested_gap = step.gap;
  realized_gap = gap_since m.t0 (get_restart step.target last);
  killed_while_down = down;
  failed = failed;
  timed_out = timed_out;
}

-- The stop event ends the loop before the kill.
abbrev pub leaves : Step → Moment → Bool
leaves step m = (ltb m.now step.at && m.stop_in_wait) || m.is_set

-- How a step ends: the loop is left, or an event is appended and the restarts change.
pub data Stepped : Type 0 where
  left : Stepped
  appended : KillEvent → Restarts → Stepped

unfoldable pub run_step : String → Step → Moment → Restarts → Stepped
unfolding event_of
run_step condition step m last = if leaves step m then left else elim m.calls [
  | stopped ↦ left
  | hung timeout ↦ appended (event_of condition step m last none none true timeout) last
  | done was_alive alive ↦
      appended (event_of condition step m last (some alive) (some (not was_alive)) false false)
        ((step.target, m.restarted_at) ∷ last)
]

-- The loop over the schedule; the events it appends.
unfoldable pub chaos_loop_scheduled : String → (ℕ → Moment) → List Step → Restarts → List KillEvent
unfolding run_step
chaos_loop_scheduled condition world [] last = []
chaos_loop_scheduled condition world (step ∷ steps) last =
    elim (run_step condition step (world step.seq) last) [
      | left ↦ []
      | appended e last' ↦ e ∷ chaos_loop_scheduled condition world steps last'
    ]
