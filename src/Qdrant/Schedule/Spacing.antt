-- ===== src/Qdrant/Schedule/Spacing.antt =====
-- What `build_kill_schedule` of research/cross_system_replication/qdrant_docker_harness.py
-- returns and refuses.
use nano_db.Common.{
  ℕ, ◌+◌, ◌-◌, ◌≤◌, ◌<◌, ◌≡◌, ◌⊎◌, inl, inr, refl, ◌↔◌, sym, ap, subst, List-cases, ◌∙◌, List, [],
  ◌∷◌, true, false, Option, none, some, length, take, replicate, ltb, arith, get_elem?, Bool-cases,
  length-take, length-replicate, String, string_key, ◌==◌, ltb→lt,
}
use nano_db.Common.Sets.{contains}
use nano_db.Common.Frac.{Result, ok, raise, ◌>>=◌, Exception, value_error, index_error}
use nano_db.Qdrant.Schedule.{
  Step, steps_from, span_of, chosen_of, Plan, is_spread, gap_of, same_node, plan_of,
  build_kill_schedule, fixed_down, long_gap, kill_conditions,
}
use nano_db.Qdrant.Schedule.Steps.{at_of, IsStep, steps_from-IsStep, span_of-steps_from, zero_at}

-- The node of a request: the one it names, or else the first.
pub data IsChosen (names : List String) : Option String → String → Type 0 where
  by_name : (t : String) → (t ≡ "" → ⊥) → IsChosen names (some t) t
  by_blank : (t : String) (rest : List String) → names ≡ t ∷ rest → IsChosen names (some "") t
  by_default : (t : String) (rest : List String) → names ≡ t ∷ rest → IsChosen names none t

-- Whom a schedule hits: with "spread" the first nodes, one kill each, else the node of the request
-- every time, which is one of the cluster.
pub data AreTargets (condition : String) (names : List String) (n : ℕ) (target : Option String)
    : List String → Type 0 where
  spread_out :
      condition ≡ "spread" → n ≤ length names → AreTargets condition names n target (take n names)
  same_target :
      (condition ≡ "spread" → ⊥)
      → (chosen : String) → IsChosen names target chosen
      → contains chosen names ≡ true
      → AreTargets condition names n target (replicate n chosen)

length-AreTargets :
    {condition : String} {names : List String} {n : ℕ} {target : Option String}
    {targets : List String}
    → AreTargets condition names n target targets
    → length targets ≡ n
length-AreTargets {names = names} {n = n} (spread_out _ h) = omega (arith, length-take n names)
length-AreTargets {n = n} (same_target _ chosen _ _) = length-replicate n chosen

-- A schedule that honours its request: the condition is one of the three, there are two kills at
-- least, kill `i` of its targets is exactly i gaps and outages after
-- the start, and the last kill is over within the window.
pub record IsSchedule (condition : String) (names : List String) (n window : ℕ)
    (target : Option String) (steps : List Step) : Type 0 where
  pub known : contains condition kill_conditions ≡ true
  pub enough : 2 ≤ n
  pub targets : List String
  pub are_targets : AreTargets condition names n target targets
  pub built : steps ≡ steps_from (gap_of condition) targets 0 0
  pub spaced :
      (i : ℕ) (t : String)
      → get_elem? targets i ≡ some t
      → (s : Step) × (get_elem? steps i ≡ some s) × IsStep (gap_of condition) i t s
  pub fits : at_of (gap_of condition) (n - 1) + fixed_down ≤ window

-- Why a request is refused.
pub data IsRefused (condition : String) (names : List String) (n window : ℕ)
    (target : Option String) : Exception → Type 0 where
  unknown :
      contains condition kill_conditions ≡ false
      → IsRefused condition names n window target value_error
  few : n < 2 → IsRefused condition names n window target value_error
  crowded :
      condition ≡ "spread"
      → length names < n
      → IsRefused condition names n window target value_error
  nameless :
      (condition ≡ "spread" → ⊥)
      → names ≡ []
      → IsRefused condition names n window target index_error
  missing :
      (chosen : String)
      → (condition ≡ "spread" → ⊥)
      → IsChosen names target chosen
      → contains chosen names ≡ false
      → IsRefused condition names n window target value_error
  too_long :
      window < at_of (gap_of condition) (n - 1) + fixed_down
      → IsRefused condition names n window target value_error

chosen_of-cases :
    (target : Option String) (names : List String)
    → ((chosen_of target names ≡ raise index_error) × (names ≡ []))
      ⊎ ((chosen : String) × (chosen_of target names ≡ ok chosen) × IsChosen names target chosen)
chosen_of-cases none [] = inl (refl, refl)
chosen_of-cases none (name ∷ names) = inr (name, refl, by_default name names refl)
chosen_of-cases (some t) names = elim (Bool-cases (t == "")) [
  | inl blank ↦
      let e_t : t ≡ "" = (string_key.same_iff t "").0 blank in
      elim (List-cases names) [
        | inl e ↦ inl (rw (blank, e) refl, e)
        | inr (name, rest, e) ↦ inr (
          name,
          rw (blank, e) refl,
          subst (λ u. IsChosen names (some u) name) (sym e_t) (by_blank name rest e),
        )
      ]
  | inr named ↦
      inr (t, rw named refl, by_name t (λ e. absurd (cc (named, (string_key.same_iff t "").1 e))))
]

pub is_spread_iff : (condition : String) → (is_spread condition ≡ true) ↔ (condition ≡ "spread")
is_spread_iff condition = string_key.same_iff condition "spread"

not_lt : (a b : ℕ) → ltb a b ≡ false → b ≤ a
not_lt a b h = ground arith

module _ (condition : String) (names : List String) (n window : ℕ) (target : Option String) where
  abbrev Refusal : {A : Type 0} → Result A → Type 0
  Refusal r = (e : Exception) × (r ≡ raise e) × IsRefused condition names n window target e

  plan_of-chosen :
      is_spread condition ≡ false
      → plan_of condition names n target ≡ (chosen_of target names >>= same_node condition n names)
  unfolding plan_of
  plan_of-chosen one = rw one refl

  plan_of-cases :
      Refusal (plan_of condition names n target)
      ⊎ ((p : Plan) × (plan_of condition names n target ≡ ok p)
          × (p.gap ≡ gap_of condition)
          × AreTargets condition names n target p.targets)
  unfolding plan_of
  plan_of-cases = elim (Bool-cases (is_spread condition)) [
    | inl spread ↦ elim (Bool-cases (ltb (length names) n)) [
      | inl crowd ↦ inl (
        value_error,
        rw (spread, crowd) refl,
        crowded ((is_spread_iff condition).0 spread) (ground arith),
      )
      | inr room ↦ inr (
        record { gap = long_gap; targets = take n names },
        rw (spread, room) refl,
        rw spread refl,
        spread_out ((is_spread_iff condition).0 spread) (ground arith),
      )
    ]
    | inr one ↦
        let other : condition ≡ "spread" → ⊥ =
          λ c. absurd (cc (one, (is_spread_iff condition).1 c)) in
        elim (chosen_of-cases target names) [
          | inl (e, no_names) ↦
              inl (index_error, plan_of-chosen one ∙ rw e refl, nameless other no_names)
          | inr (chosen, e, is_chosen) ↦ elim (Bool-cases (contains chosen names)) [
            | inr absent ↦ inl (
              value_error,
              plan_of-chosen one ∙ rw (e, absent) refl,
              missing chosen other is_chosen absent,
            )
            | inl known ↦ inr (
              record { gap = gap_of condition; targets = replicate n chosen },
              plan_of-chosen one ∙ rw (e, known) refl,
              refl,
              same_target other chosen is_chosen known,
            )
          ]
        ]
  ]

  span_of-AreTargets :
      (targets : List String)
      → 0 < n
      → AreTargets condition names n target targets
      → span_of (steps_from (gap_of condition) targets 0 0)
        ≡ at_of (gap_of condition) (n - 1) + fixed_down
  span_of-AreTargets [] h a = absurd (omega (arith, length-AreTargets a))
  span_of-AreTargets (t ∷ targets) h a =
      let k : 0 + length targets ≡ n - 1 = omega (arith, length-AreTargets a) in
      span_of-steps_from (gap_of condition) t targets 0 0 (zero_at (gap_of condition))
      ∙ ap (λ i. at_of (gap_of condition) i + fixed_down) k

  -- A request is refused for one of the reasons listed, or the schedule honours it, and then none of
  -- these reasons is there: a known condition, at least two kills, one step per kill on the node that
  -- the request names (or the first) or, spread out, on the first nodes, kill i exactly i gaps and outages after the start, and
  -- the last one over within the window.
  pub build_kill_schedule_lem :
      Refusal (build_kill_schedule condition names n window target)
      ⊎ ((steps : List Step) × (build_kill_schedule condition names n window target ≡ ok steps)
          × IsSchedule condition names n window target steps)
  unfolding build_kill_schedule
  build_kill_schedule_lem = elim (Bool-cases (contains condition kill_conditions)) [
    | inr unk ↦ inl (value_error, rw unk refl, unknown unk)
    | inl known ↦ elim (Bool-cases (ltb n 2)) [
      | inl fewer ↦ inl (value_error, rw (known, fewer) refl, few (ground arith))
      | inr enough ↦ elim plan_of-cases [
        | inl (e, plan, why) ↦ inl (e, rw (known, enough, plan) refl, why)
        | inr (p, plan, gap_eq, a) ↦
            let steps = steps_from (gap_of condition) p.targets 0 0 in
            let same : steps_from p.gap p.targets 0 0 ≡ steps =
              ap (λ g. steps_from g p.targets 0 0) gap_eq in
            let span = span_of-AreTargets p.targets (ground arith) a in
            elim (Bool-cases (ltb window (span_of steps))) [
              | inl over ↦ inl (
                value_error,
                rw (known, enough, plan, same, over) refl,
                too_long (subst (λ x. window < x) span (ltb→lt _ _ over)),
              )
              | inr within ↦ inr (
                steps,
                rw (known, enough, plan, same, within) refl,
                record {
                  known = known;
                  enough = ground arith;
                  targets = p.targets;
                  are_targets = a;
                  built = refl;
                  spaced = λ i t h.
                      let r =
                        steps_from-IsStep (gap_of condition) p.targets 0 0 i t
                          (zero_at (gap_of condition)) h in
                      let k : 0 + i ≡ i = omega arith in
                      (r.0, r.1, subst (λ m. IsStep (gap_of condition) m t r.0) k r.2);
                  fits = subst (λ x. x ≤ window) span (not_lt window (span_of steps) within);
                },
              )
            ]
      ]
    ]
  ]
