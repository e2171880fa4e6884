-- ===== src/Qdrant/Run/Measured.antt =====
-- What a run of research/cross_system_replication/qdrant_run_experiment.py ends in.
use nano_db.Common.{ℕ, ◌+◌, ◌<◌, ◌≡◌, ◌↔◌, true, false, none, some, List, Option, String}
use nano_db.Common.Int.{pos, leb_ℤ, ◌≤ℤ◌}
use nano_db.Common.Frac.{ok}
use nano_db.Qdrant.Schedule.{Step, build_kill_schedule}
use nano_db.Qdrant.Run.{
  Args, World, Phase, goes_on, stuck, raises, exits, Outcome, is_given, is_scheduled,
  container_names,
}
use nano_db.Qdrant.Run.Prepared.{IsPrepared}

-- The arguments are consistent.
pub record IsValid (args : Args) : Type 0 where
  pub consecutive : args.index_gate ≡ true → pos 1 ≤ℤ args.index_gate_consecutive
  pub tol_low : args.index_gate ≡ true → pos 0 ≤ℤ args.index_gate_tol
  pub tol_high : args.index_gate ≡ true → leb_ℤ (pos 1000000) args.index_gate_tol ≡ false
  pub one_schedule : is_scheduled args.kill_schedule ≡ true → args.no_chaos ≡ false
  pub one_duration : is_given args.chaos_duration ≡ true → args.no_chaos ≡ false

-- For how long the chaos goes on.
abbrev pub window_of : Args → ℕ
window_of args = elim args.chaos_duration [ none ↦ args.duration | some d ↦ d ]

-- A kill schedule that is asked for can be built.
abbrev pub HasSchedule : Args → ℕ → Option String → Type 0
HasSchedule args window none = Unit
HasSchedule args window (some condition) =
    (condition ≡ "" → ⊥)
    → (steps : List Step) × (build_kill_schedule condition container_names args.kill_count window
          args.kill_target_node
        ≡ ok steps)

-- A run that is measured.
pub record IsMeasured (w : World) (args : Args) : Type 0 where
  pub valid : IsValid args
  pub prepared : IsPrepared w args
  pub window : (d : ℕ) → args.chaos_duration ≡ some d → args.pre_chaos_s + d < args.duration
  pub schedule : HasSchedule args (window_of args) args.kill_schedule

-- The run is over, with a code or an exception.
abbrev pub IsOver : Phase → Type 0
IsOver goes_on = ⊥
IsOver stuck = ⊥
IsOver (raises e) = Unit
IsOver (exits code) = Unit

-- How a run ends.
pub record IsEnd (w : World) (args : Args) (o : Outcome) : Type 0 where
  pub over : IsOver o.end
  pub success : (o.end ≡ exits 0) ↔ IsMeasured w args
  pub samples : (o.samples_written ≡ true) ↔ IsMeasured w args
  pub sampler : o.sampler_started ≡ true → IsPrepared w args
  pub torn_down : IsValid args → 0 < o.teardowns
