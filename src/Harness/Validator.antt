-- ===== src/Harness/Validator.antt =====
-- `validator_loop` of chaos_harness.py: when an answer to GET /stats is a violation.
pub mod Shards
pub mod Alarm
use nano_db.Common.{
  ℕ, zero, suc, ◌+◌, ◌≤◌, ◌≡◌, refl, sym, ap, ◌↔◌, ◌∙◌, List, [], ◌∷◌, ◌++◌, Bool, true, false,
  arith, nat_key, length, Option, none, some, eqb, ltb, leb, Bool-cases, if◌then◌else◌,
  length-append, inl, inr, ◌⊎◌, ◌&&◌, ◌||◌, ◌==◌, All, Key, append-nil, append_assoc,
}
use nano_db.Common.Sets.{count_if, select, contains, IsUnique}
use nano_db.Harness.Counters.{Reply, failure, response}

-- An entry of "replicas" in the body; a missing "is_primary" is false.
pub record Rep : Type 0 where
  pub shard_id : ℕ
  pub is_primary : Bool

-- The body of an answer to GET /stats.
pub record Body : Type 0 where
  pub total_element_count : Option ℕ
  pub degraded : Bool
  pub replicas : List Rep

pub data Violation : Type 0 where
  lost_write : (node total confirmed_before : ℕ) → Violation
  double_primary : (node shard primaries : ℕ) → Violation

-- The lists and counters that the validator shares with `main`.
pub record Watch : Type 0 where
  pub violations : List Violation
  pub checks_run : ℕ
  pub degraded_dips : ℕ

-- The branches on the total.
unfoldable pub check_total : ℕ → ℕ → Option ℕ → Bool → Watch → Watch
check_total n confirmed none degraded w = w
check_total n confirmed (some total) degraded w =
    if ltb total confirmed
    then if degraded
      then record w { degraded_dips = w.degraded_dips + 1 }
      else record w { violations = w.violations ++ lost_write n total confirmed ∷ [] }
    else w

-- `by_shard.setdefault(sid, []).append(rep)`.
unfoldable pub append_rep : Rep → List (ℕ × List Rep) → List (ℕ × List Rep)
append_rep rep [] = (rep.shard_id, rep ∷ []) ∷ []
append_rep rep ((sid, reps) ∷ groups) =
    let rest = append_rep rep groups in
    if eqb sid (rep.shard_id) then (sid, reps ++ rep ∷ []) ∷ groups else (sid, reps) ∷ rest

unfoldable pub group_reps : List Rep → List (ℕ × List Rep) → List (ℕ × List Rep)
unfolding append_rep
group_reps [] groups = groups
group_reps (rep ∷ reps) groups = group_reps reps (append_rep rep groups)

-- The loop over `by_shard.items()`.
unfoldable pub check_shards : ℕ → List (ℕ × List Rep) → List Violation → List Violation
check_shards n [] vs = vs
check_shards n ((sid, reps) ∷ groups) vs =
    let primaries = count_if (λ r. r.is_primary) reps in
    check_shards n groups
      (if ltb 1 primaries then vs ++ double_primary n sid primaries ∷ [] else vs)

-- The body of the loop over the coordinators.
unfoldable pub check_body : ℕ → ℕ → Body → Watch → Watch
unfolding check_total group_reps check_shards
check_body confirmed n body w =
    let counted : Watch = record w { checks_run = w.checks_run + 1 } in
    let w' = check_total n confirmed (body.total_element_count) (body.degraded) counted in
    record w' { violations = check_shards n (group_reps (body.replicas) []) (w'.violations) }

unfoldable pub check_node : ℕ → ℕ → Reply Body → Watch → Watch
unfolding check_body
check_node confirmed n failure w = w
check_node confirmed n (response status body) w =
    if eqb status 200 then check_body confirmed n body w else w

-- A body without an objection: the total covers the confirmed writes, is missing or is declared
-- incomplete, and no shard has two primaries.
pub record IsHealthy (confirmed : ℕ) (b : Body) : Type 0 where
  pub covered :
      (total : ℕ) → b.total_element_count ≡ some total → b.degraded ≡ false → confirmed ≤ total
  pub one_primary :
      (sid : ℕ) → count_if (λ r. eqb (r.shard_id) sid && r.is_primary) (b.replicas) ≤ 1

-- A failed exchange and another status say nothing.
abbrev pub IsQuiet : ℕ → Reply Body → Type 0
IsQuiet confirmed failure = Unit
IsQuiet confirmed (response status body) = eqb status 200 ≡ true → IsHealthy confirmed body
