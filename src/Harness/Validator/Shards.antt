-- ===== src/Harness/Validator/Shards.antt =====
-- The grouping of replicas by shard in `validator_loop` of chaos_harness.py.
use nano_db.Common.{
  ℕ, ◌+◌, ◌≤◌, ◌≡◌, refl, List, [], ◌∷◌, ◌++◌, false, arith, nat_key, length, eqb, ltb, Bool-cases,
  if◌then◌else◌, length-append, inl, inr, ◌&&◌, ◌||◌,
}
use nano_db.Common.Sets.{count_if-append, count_if, contains, IsUnique}
use nano_db.Harness.Validator.{Rep, Violation, double_primary, append_rep, group_reps, check_shards}

-- The primaries of a shard among the groups.
abbrev pub primaries_in : ℕ → List (ℕ × List Rep) → ℕ
primaries_in sid [] = 0
primaries_in sid ((s, reps) ∷ groups) =
    (if eqb s sid then count_if (λ r. r.is_primary) reps else 0) + primaries_in sid groups

append_rep_lem :
    (sid : ℕ) (rep : Rep) (groups : List (ℕ × List Rep))
    → primaries_in sid (append_rep rep groups)
      ≡ (if eqb (rep.shard_id) sid && rep.is_primary then 1 else 0) + primaries_in sid groups
unfolding append_rep
append_rep_lem sid rep [] = ground arith
append_rep_lem sid rep ((s, reps) ∷ groups) =
    ground
      (arith, append_rep_lem sid rep groups, count_if-append (λ r. r.is_primary) reps (rep ∷ []))

-- Grouping keeps the primaries of each shard.
pub group_reps_lem :
    (sid : ℕ) (reps : List Rep) (groups : List (ℕ × List Rep))
    → primaries_in sid (group_reps reps groups)
      ≡ count_if (λ r. eqb (r.shard_id) sid && r.is_primary) reps + primaries_in sid groups
unfolding group_reps
group_reps_lem sid [] groups = omega arith
group_reps_lem sid (rep ∷ reps) groups =
    ground (arith, group_reps_lem sid reps (append_rep rep groups), append_rep_lem sid rep groups)

abbrev pub keys_of : List (ℕ × List Rep) → List ℕ
keys_of [] = []
keys_of ((s, reps) ∷ groups) = s ∷ keys_of groups

append_rep-keys :
    (a : ℕ) (rep : Rep) (groups : List (ℕ × List Rep))
    → contains a (keys_of (append_rep rep groups))
      ≡ (contains a (keys_of groups) || eqb a (rep.shard_id))
unfolding append_rep
append_rep-keys a rep [] = ground arith
append_rep-keys a rep ((s, reps) ∷ groups) = ground (arith, append_rep-keys a rep groups)

append_rep-IsUnique :
    (rep : Rep) (groups : List (ℕ × List Rep))
    → IsUnique (keys_of groups)
    → IsUnique (keys_of (append_rep rep groups))
unfolding append_rep
append_rep-IsUnique rep [] h = (refl, tt)
append_rep-IsUnique rep ((s, reps) ∷ groups) h = elim (Bool-cases (eqb s (rep.shard_id))) [
  | inl same ↦ rw same h
  | inr other ↦
      rw other
        (ground (arith, append_rep-keys s rep groups, h.0), append_rep-IsUnique rep groups h.1)
]

pub group_reps-IsUnique :
    (reps : List Rep) (groups : List (ℕ × List Rep))
    → IsUnique (keys_of groups)
    → IsUnique (keys_of (group_reps reps groups))
unfolding group_reps
group_reps-IsUnique [] groups h = h
group_reps-IsUnique (rep ∷ reps) groups h =
    group_reps-IsUnique reps (append_rep rep groups) (append_rep-IsUnique rep groups h)

-- The groups with more than one primary.
abbrev pub split_groups : List (ℕ × List Rep) → ℕ
split_groups [] = 0
split_groups ((s, reps) ∷ groups) =
    (if ltb 1 (count_if (λ r. r.is_primary) reps) then 1 else 0) + split_groups groups

primaries_in_absent :
    (sid : ℕ) (groups : List (ℕ × List Rep))
    → contains sid (keys_of groups) ≡ false
    → primaries_in sid groups ≡ 0
primaries_in_absent sid [] h = refl
primaries_in_absent sid ((s, reps) ∷ groups) h =
    ground (arith, primaries_in_absent sid groups (ground arith))

pub one_primary_of_split :
    (groups : List (ℕ × List Rep)) (sid : ℕ)
    → IsUnique (keys_of groups)
    → split_groups groups ≡ 0
    → primaries_in sid groups ≤ 1
one_primary_of_split [] sid u h = omega arith
one_primary_of_split ((s, reps) ∷ groups) sid u h = elim (Bool-cases (eqb s sid)) [
  | inl same ↦
      let q : s ≡ sid = ground arith in
      let none_left = primaries_in_absent sid groups (rw q at u.0) in ground (arith, none_left)
  | inr other ↦ ground (arith, one_primary_of_split groups sid u.1 (omega arith))
]

pub split_of_one_primary :
    (groups : List (ℕ × List Rep))
    → ((sid : ℕ) → primaries_in sid groups ≤ 1)
    → split_groups groups ≡ 0
split_of_one_primary [] h = refl
split_of_one_primary ((s, reps) ∷ groups) h =
    let rest = split_of_one_primary groups (λ sid. omega (arith, h sid)) in
    ground (arith, h s, rest)

pub length-check_shards :
    (n : ℕ) (groups : List (ℕ × List Rep)) (vs : List Violation)
    → length (check_shards n groups vs) ≡ length vs + split_groups groups
unfolding check_shards
length-check_shards n [] vs = omega arith
length-check_shards n ((s, reps) ∷ groups) vs =
    let p = count_if (λ r. r.is_primary) reps in
    elim (Bool-cases (ltb 1 p)) [
      | inl many ↦ rw many (
          omega (
            arith,
            length-check_shards n groups (vs ++ double_primary n s p ∷ []),
            length-append vs (double_primary n s p ∷ []),
          ))
      | inr few ↦ rw few (omega (arith, length-check_shards n groups vs))
    ]

pub check_shards_same :
    (n : ℕ) (groups : List (ℕ × List Rep)) (vs : List Violation)
    → split_groups groups ≡ 0
    → check_shards n groups vs ≡ vs
unfolding check_shards
check_shards_same n [] vs h = refl
check_shards_same n ((s, reps) ∷ groups) vs h =
    let p = count_if (λ r. r.is_primary) reps in
    elim (Bool-cases (ltb 1 p)) [
      | inl many ↦ absurd (ground arith)
      | inr few ↦ rw few (check_shards_same n groups vs (ground arith))
    ]
