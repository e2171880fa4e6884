-- ===== src/Qdrant/Schedule/Judged.antt =====
-- What research/qdrant_kill_scheduler/check_realized_schedule.py says of the runs of
-- research/cross_system_replication/qdrant_docker_harness.py.
use nano_db.Common.{
  ℕ, suc, ◌<◌, ◌≡◌, inl, inr, ap, sym, subst, ◌∙◌, List, [], ◌∷◌, map, true, Option, if◌then◌else◌,
  length, take, eqb, arith, length-map, String, string_key,
}
use nano_db.Common.Sets.{to_set, count_if, IsUnique}
use nano_db.Common.Frac.{ok}
use nano_db.Qdrant.Schedule.{
  Step, KillEvent, Moment, chaos_loop_scheduled, build_kill_schedule, is_spread, gap_of,
}
use nano_db.Qdrant.Schedule.Spacing.{IsSchedule, build_kill_schedule_lem}
use nano_db.Qdrant.Schedule.Ran.{AreKillsOf, chaos_loop_scheduled_lem}
use nano_db.Qdrant.Schedule.Realized.{
  scheduled_kill, Checked, checked, check_run, check_scheduled, row_of, targeting_ok, Row, present,
  is_true, is_false,
}
use nano_db.Qdrant.Schedule.Targets.{
  targets_of, steps_from-targets, AreKillsOf-targets, targets_lem, scheduled_of-map,
  first_condition,
}

-- The run is taken for a scheduled one of the condition, with the targets as requested.
pub record IsAsRequested (condition : String) (events : List KillEvent) : Type 0 where
  pub run : Checked
  pub checked_eq : check_run (map scheduled_kill events) ≡ checked run
  pub condition_eq : run.condition ≡ condition
  pub on_target : targeting_ok run ≡ true

module _ (condition : String) (names : List String) (n window : ℕ) (steps : List Step)
    (e : KillEvent) (es : List KillEvent) where
  run_of : Checked
  run_of = record {
    condition = e.condition;
    rows = map row_of (e ∷ es);
    drifts = present (map (λ (r : Row). r.drift) (map row_of (e ∷ es)));
    targets = to_set (targets_of (e ∷ es));
    n_killed_while_down = count_if (λ (x : KillEvent). is_true x.killed_while_down) (e ∷ es);
    n_dead_after_restart = count_if (λ (x : KillEvent). is_false x.alive_after_restart) (e ∷ es);
  }

  check_run-scheduled : check_run (map scheduled_kill (e ∷ es)) ≡ checked run_of
  unfolding check_run check_scheduled run_of targets_of
  check_run-scheduled =
      ap (check_scheduled (suc (length (map scheduled_kill es)))) (scheduled_of-map (e ∷ es))

  schedule-on_target :
      (target : Option String)
      → IsUnique names
      → IsSchedule condition names n window target steps
      → AreKillsOf condition steps (e ∷ es)
      → targeting_ok run_of ≡ true
  unfolding targeting_ok run_of targets_of
  schedule-on_target target u s k =
      let targets = targets_of (e ∷ es) in
      let start : targets ≡ take (suc (length es)) s.targets =
        AreKillsOf-targets condition steps (e ∷ es) k
        ∙ ap (take (suc (length es))) (
            ap (map (λ (x : Step). x.target)) s.built
            ∙ steps_from-targets (gap_of condition) s.targets 0 0) in
      let sizes : length targets ≡ length (map row_of (e ∷ es)) =
        length-map _ (e ∷ es) ∙ sym (length-map row_of (e ∷ es)) in
      subst
        (λ c.
          (if is_spread c
            then eqb (length (to_set targets)) (length (map row_of (e ∷ es)))
            else eqb (length (to_set targets)) 1)
          ≡ true)
        (sym (first_condition condition steps e es k))
        (subst
          (λ m.
            (if is_spread condition
              then eqb (length (to_set targets)) m
              else eqb (length (to_set targets)) 1)
            ≡ true)
          sizes
          (targets_lem condition names s.targets n e.target (map (λ (x : KillEvent). x.target) es)
            (suc (length es)) target u s.are_targets start))

  schedule-IsAsRequested :
      (target : Option String)
      → IsUnique names
      → IsSchedule condition names n window target steps
      → AreKillsOf condition steps (e ∷ es)
      → IsAsRequested condition (e ∷ es)
  unfolding run_of
  schedule-IsAsRequested target u s k = record {
    run = run_of;
    checked_eq = check_run-scheduled;
    condition_eq = first_condition condition steps e es k;
    on_target = schedule-on_target target u s k;
  }

-- A schedule that is built for distinct nodes and run, however docker and the stop event behave, is
-- judged as requested as soon as one kill of it was recorded: one node for the same-node
-- conditions, as many nodes as kills for "spread".
pub chaos_loop_scheduled-IsAsRequested :
    (condition : String) (names : List String) (n window : ℕ) (target : Option String)
    (steps : List Step) (world : ℕ → Moment)
    → IsUnique names
    → build_kill_schedule condition names n window target ≡ ok steps
    → 0 < length (chaos_loop_scheduled condition world steps [])
    → IsAsRequested condition (chaos_loop_scheduled condition world steps [])
chaos_loop_scheduled-IsAsRequested condition names n window target steps world u built some_kill =
    go (chaos_loop_scheduled condition world steps []) some_kill
      (chaos_loop_scheduled_lem condition world steps []).0
  where
    schedule : IsSchedule condition names n window target steps
    schedule = elim (build_kill_schedule_lem condition names n window target) [
      | inl (x, refused, _) ↦ absurd (cc (refused, built))
      | inr (steps', built', s) ↦
          let same : steps' ≡ steps = cc (built', built) in
          subst (IsSchedule condition names n window target) same s
    ]

    go :
        (events : List KillEvent)
        → 0 < length events
        → AreKillsOf condition steps events
        → IsAsRequested condition events
    go [] h k = absurd (omega arith)
    go (e ∷ es) h k = schedule-IsAsRequested condition names n window steps e es target u schedule k
