-- ===== src/Harness/Validator/Alarm.antt =====
-- The violations that `validator_loop` of chaos_harness.py adds for an answer.
use nano_db.Common.{
  ℕ, ◌+◌, ◌≤◌, ◌≡◌, refl, ap, ◌↔◌, ◌∙◌, [], ◌∷◌, Bool, true, false, arith, nat_key, length, Option,
  none, some, eqb, Bool-cases, length-append, inl, inr,
}
use nano_db.Harness.Counters.{Reply, failure, response}
use nano_db.Harness.Validator.{
  Body, Watch, lost_write, check_total, group_reps, check_body, check_node, IsHealthy, IsQuiet,
}
use nano_db.Harness.Validator.Shards.{
  group_reps_lem, one_primary_of_split, split_of_one_primary, length-check_shards,
  check_shards_same, group_reps-IsUnique,
}

-- The total has nothing to object to.
abbrev IsCovered : ℕ → Option ℕ → Bool → Type 0
IsCovered confirmed total degraded = (t : ℕ) → total ≡ some t → degraded ≡ false → confirmed ≤ t

some_inj : (a b : ℕ) → (some a ≡ some b) → a ≡ b
some_inj a b q = cc

covered_same :
    (n confirmed : ℕ) (total : Option ℕ) (degraded : Bool) (w : Watch)
    → IsCovered confirmed total degraded
    → (check_total n confirmed total degraded w).violations ≡ w.violations
unfolding check_total
covered_same n confirmed none degraded w h = refl
covered_same n confirmed (some t) true w h = ground arith
covered_same n confirmed (some t) false w h = ground (arith, h t refl refl)

length-check_total :
    (n confirmed : ℕ) (total : Option ℕ) (degraded : Bool) (w : Watch)
    → length w.violations ≤ length (check_total n confirmed total degraded w).violations
unfolding check_total
length-check_total n confirmed none degraded w = omega arith
length-check_total n confirmed (some t) true w = ground arith
length-check_total n confirmed (some t) false w =
    ground (arith, length-append w.violations (lost_write n t confirmed ∷ []))

IsCovered-of_length :
    (n confirmed : ℕ) (total : Option ℕ) (degraded : Bool) (w : Watch)
    → length (check_total n confirmed total degraded w).violations ≡ length w.violations
    → IsCovered confirmed total degraded
unfolding check_total
IsCovered-of_length n confirmed none degraded w q t e d = absurd (cc)
IsCovered-of_length n confirmed (some u) true w q t e d = absurd (cc)
IsCovered-of_length n confirmed (some u) false w q t e d =
    let same : u ≡ t = some_inj u t e in
    ground (arith, length-append w.violations (lost_write n u confirmed ∷ []))

IsHealthy-iff :
    (confirmed n : ℕ) (b : Body) (w : Watch)
    → ((check_body confirmed n b w).violations ≡ w.violations) ↔ IsHealthy confirmed b
unfolding check_body
IsHealthy-iff confirmed n b w =
    let groups = group_reps b.replicas [] in
    let counted : Watch = record w { checks_run = w.checks_run + 1 } in
    let w' = check_total n confirmed b.total_element_count b.degraded counted in
    let keep = group_reps_lem in
    let shards_length = length-check_shards n groups w'.violations in
    let total_length = length-check_total n confirmed b.total_element_count b.degraded counted in
    (
      λ q.
          let lengths = ap length q in
          record {
            covered =
                IsCovered-of_length n confirmed b.total_element_count b.degraded counted
                  (omega arith);
            one_primary = λ sid. omega (
              arith,
              group_reps_lem sid b.replicas [],
              one_primary_of_split groups sid (group_reps-IsUnique b.replicas [] tt) (omega arith),
            );
          },
      λ h.
          check_shards_same n groups w'.violations (
            split_of_one_primary groups
              (λ sid. omega (arith, group_reps_lem sid b.replicas [], h.one_primary sid)))
          ∙ covered_same n confirmed b.total_element_count b.degraded counted h.covered,
    )

-- An answer adds no violation exactly if it failed, has another status than 200, or is healthy:
-- the total, if it is there and not declared incomplete, is at least the number of confirmed
-- writes, and no shard has two primaries in it.
pub check_node_lem :
    (confirmed n : ℕ) (reply : Reply Body) (w : Watch)
    → ((check_node confirmed n reply w).violations ≡ w.violations) ↔ IsQuiet confirmed reply
unfolding check_node
check_node_lem confirmed n failure w = (λ q. tt, λ q. refl)
check_node_lem confirmed n (response status body) w = elim (Bool-cases (eqb status 200)) [
  | inl fine ↦ let h = IsHealthy-iff confirmed n body w in rw fine (λ q _. h.0 q, λ q. h.1 (q refl))
  | inr other ↦ rw other (λ q e. absurd (cc), λ q. refl)
]
