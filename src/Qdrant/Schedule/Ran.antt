-- ===== src/Qdrant/Schedule/Ran.antt =====
-- What `chaos_loop_scheduled` of research/cross_system_replication/qdrant_docker_harness.py records.
use nano_db.Common.{
  ℕ, suc, ◌≡◌, refl, ap, List, [], ◌∷◌, Bool, true, false, length, String, Bool-cases, inl, inr,
  ◌⊎◌,
}
use nano_db.Qdrant.Schedule.{
  Step, Calls, hung, stopped, done, Moment, KillEvent, Restarts, leaves, Stepped, left, appended,
  event_of, run_step, chaos_loop_scheduled,
}

-- The event is that of the step's kill, and tells what was requested.
pub record IsKillOf (condition : String) (s : Step) (e : KillEvent) : Type 0 where
  pub condition_eq : e.condition ≡ condition
  pub target_eq : e.target ≡ s.target
  pub seq_eq : e.seq ≡ s.seq
  pub at_eq : e.requested_at ≡ s.at
  pub gap_eq : e.requested_gap ≡ s.gap
  pub down_eq : e.down_for ≡ s.down_for

-- One event for each of the first steps of the schedule.
pub data AreKillsOf (condition : String) : List Step → List KillEvent → Type 0 where
  no_more : (steps : List Step) → AreKillsOf condition steps []
  and_then :
      (s : Step) (e : KillEvent) (steps : List Step) (events : List KillEvent)
      → IsKillOf condition s e
      → AreKillsOf condition steps events
      → AreKillsOf condition (s ∷ steps) (e ∷ events)

abbrev pub is_stopped : Calls → Bool
is_stopped stopped = true
is_stopped (hung timeout) = false
is_stopped (done was_alive alive) = false

-- The stop event is set in no step.
pub record NeverStopped (world : ℕ → Moment) : Type 0 where
  pub not_before : (s : Step) → leaves s (world s.seq) ≡ false
  pub not_down : (i : ℕ) → is_stopped (world i).calls ≡ false

data IsStepped (condition : String) (s : Step) (m : Moment) : Stepped → Type 0 where
  was_left : (leaves s m ≡ true) ⊎ (is_stopped m.calls ≡ true) → IsStepped condition s m left
  was_killed :
      (e : KillEvent) (last : Restarts)
      → IsKillOf condition s e
      → IsStepped condition s m (appended e last)

calls-cases :
    (condition : String) (s : Step) (m : Moment) (last : Restarts) (calls : Calls)
    → m.calls ≡ calls
    → leaves s m ≡ false
    → IsStepped condition s m (run_step condition s m last)
unfolding run_step event_of
calls-cases condition s m last stopped e go = rw (run_step, go, e) (was_left (inr refl))
calls-cases condition s m last (hung timeout) e go =
    rw (run_step, go, e)
      (was_killed _ _ (record {
        condition_eq = refl;
        target_eq = refl;
        seq_eq = refl;
        at_eq = refl;
        gap_eq = refl;
        down_eq = refl;
      }))
calls-cases condition s m last (done was_alive alive) e go =
    rw (run_step, go, e)
      (was_killed _ _ (record {
        condition_eq = refl;
        target_eq = refl;
        seq_eq = refl;
        at_eq = refl;
        gap_eq = refl;
        down_eq = refl;
      }))

run_step-IsStepped :
    (condition : String) (s : Step) (m : Moment) (last : Restarts)
    → IsStepped condition s m (run_step condition s m last)
unfolding run_step
run_step-IsStepped condition s m last = elim (Bool-cases (leaves s m)) [
  | inl out ↦ rw (run_step, out) (was_left (inl out))
  | inr go ↦ calls-cases condition s m last m.calls refl go
]

chaos_loop_scheduled-AreKillsOf :
    (condition : String) (world : ℕ → Moment) (steps : List Step) (last : Restarts)
    → AreKillsOf condition steps (chaos_loop_scheduled condition world steps last)
unfolding chaos_loop_scheduled
chaos_loop_scheduled-AreKillsOf condition world [] last = no_more []
chaos_loop_scheduled-AreKillsOf condition world (s ∷ steps) last =
    step_lem (run_step condition s (world s.seq) last)
      (run_step-IsStepped condition s (world s.seq) last)
      (λ last'. chaos_loop_scheduled-AreKillsOf condition world steps last')
  where
    step_lem :
        (r : Stepped)
        → IsStepped condition s (world s.seq) r
        → ((last' : Restarts)
            → AreKillsOf condition steps (chaos_loop_scheduled condition world steps last'))
        → AreKillsOf condition (s ∷ steps) (elim r [
          | left ↦ []
          | appended e last' ↦ e ∷ chaos_loop_scheduled condition world steps last'
        ])
    step_lem left (was_left _) ih = no_more (s ∷ steps)
    step_lem (appended e last') (was_killed e₂ last₂ k) ih = and_then s e steps _ k (ih last')

length-chaos_loop_scheduled :
    (condition : String) (world : ℕ → Moment) (steps : List Step) (last : Restarts)
    → NeverStopped world
    → length (chaos_loop_scheduled condition world steps last) ≡ length steps
unfolding chaos_loop_scheduled
length-chaos_loop_scheduled condition world [] last never = refl
length-chaos_loop_scheduled condition world (s ∷ steps) last never =
    step_lem (run_step condition s (world s.seq) last)
      (run_step-IsStepped condition s (world s.seq) last)
      (λ last'. length-chaos_loop_scheduled condition world steps last' never)
  where
    step_lem :
        (r : Stepped)
        → IsStepped condition s (world s.seq) r
        → ((last' : Restarts)
            → length (chaos_loop_scheduled condition world steps last') ≡ length steps)
        → length (elim r [
          | left ↦ []
          | appended e last' ↦ e ∷ chaos_loop_scheduled condition world steps last'
        ])
          ≡ suc (length steps)
    step_lem left (was_left (inl h)) ih = absurd (cc (h, never.not_before s))
    step_lem left (was_left (inr h)) ih = absurd (cc (h, never.not_down s.seq))
    step_lem (appended e last') k ih = ap suc (ih last')

-- The loop records one event for each of the first steps of its schedule, in order, with the
-- target, number, offset and gap that were requested, also for a kill whose docker calls fail; and
-- one for every step if the stop event is never set.
pub chaos_loop_scheduled_lem :
    (condition : String) (world : ℕ → Moment) (steps : List Step) (last : Restarts)
    → AreKillsOf condition steps (chaos_loop_scheduled condition world steps last)
      × (NeverStopped world
          → length (chaos_loop_scheduled condition world steps last) ≡ length steps)
chaos_loop_scheduled_lem condition world steps last = (
  chaos_loop_scheduled-AreKillsOf condition world steps last,
  length-chaos_loop_scheduled condition world steps last,
)
