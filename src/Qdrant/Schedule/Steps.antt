-- ===== src/Qdrant/Schedule/Steps.antt =====
-- The steps that `build_kill_schedule` of
-- research/cross_system_replication/qdrant_docker_harness.py lays out.
use nano_db.Common.{
  ℕ, zero, suc, ◌+◌, ◌*◌, ◌≡◌, refl, ap, subst, ◌∙◌, List, [], ◌∷◌, none, some, if◌then◌else◌,
  length, ltb, arith, get_elem?, String, string_key,
}
use nano_db.Qdrant.Schedule.{Step, steps_from, span_of, fixed_down}

-- When kill `i` is to come, and when the last one is over.
abbrev pub at_of : ℕ → ℕ → ℕ
at_of gap i = i * (fixed_down + gap)

suc_mul : (i w : ℕ) → suc i * w ≡ i * w + w
suc_mul i w = grind arith

abbrev pub this_at : ℕ → ℕ → ℕ → ℕ
this_at gap i at = if ltb 0 i then at + (fixed_down + gap) else at

next_at : (gap i at : ℕ) → at ≡ at_of gap i → this_at gap (suc i) at ≡ at_of gap (suc i)
next_at gap i at e = ground (arith, e, suc_mul i (fixed_down + gap))

-- A step as its place in the schedule makes it.
pub record IsStep (gap i : ℕ) (target : String) (s : Step) : Type 0 where
  pub seq_eq : s.seq ≡ i
  pub target_eq : s.target ≡ target
  pub at_eq : s.at ≡ at_of gap i
  pub gap_eq : s.gap ≡ (if ltb 0 i then some gap else none)
  pub down_eq : s.down_for ≡ fixed_down

pub steps_from-IsStep :
    (gap : ℕ) (targets : List String) (i at j : ℕ) (t : String)
    → this_at gap i at ≡ at_of gap i
    → get_elem? targets j ≡ some t
    → (s : Step) × (get_elem? (steps_from gap targets i at) j ≡ some s) × IsStep gap (i + j) t s
unfolding steps_from
steps_from-IsStep gap [] i at j t e h = absurd (cc)
steps_from-IsStep gap (t' ∷ targets) i at zero t e h =
    let k : i ≡ i + 0 = omega arith in
    let first : Step = record {
      seq = i;
      target = t';
      at = this_at gap i at;
      gap = if ltb 0 i then some gap else none;
      down_for = fixed_down;
    } in
    (
      first,
      refl,
      subst (λ n. IsStep gap n t first) k
          (record { seq_eq = refl; target_eq = cc; at_eq = e; gap_eq = refl; down_eq = refl }),
    )
steps_from-IsStep gap (t' ∷ targets) i at (suc j) t e h =
    let k : suc i + j ≡ i + suc j = omega arith in
    let rest =
      steps_from-IsStep gap targets (suc i) (this_at gap i at) j t
        (next_at gap i (this_at gap i at) e) h in
    (rest.0, rest.1, subst (λ n. IsStep gap n t rest.0) k rest.2)

pub span_of-steps_from :
    (gap : ℕ) (t : String) (targets : List String) (i at : ℕ)
    → this_at gap i at ≡ at_of gap i
    → span_of (steps_from gap (t ∷ targets) i at) ≡ at_of gap (i + length targets) + fixed_down
unfolding steps_from
span_of-steps_from gap t [] i at e =
    let k : i ≡ i + 0 = omega arith in
    ap (λ a. a + fixed_down) e ∙ ap (λ n. at_of gap n + fixed_down) k
span_of-steps_from gap t (u ∷ targets) i at e =
    let k : suc i + length targets ≡ i + suc (length targets) = omega arith in
    span_of-steps_from gap u targets (suc i) (this_at gap i at) (next_at gap i (this_at gap i at) e)
    ∙ ap (λ n. at_of gap n + fixed_down) k

pub zero_at : (gap : ℕ) → this_at gap 0 0 ≡ at_of gap 0
zero_at gap = grind arith
