-- ===== src/Harness/Run/Waits.antt =====
-- What the two waits of chaos_harness.py before the run wait for.
use nano_db.Common.{
  ℕ, ◌≡◌, refl, ◌↔◌, List, [], ◌∷◌, Bool, true, false, not, arith, nat_key, Option, none, some,
  Bool-cases, inl, inr, is_empty, ◌==◌,
}
use nano_db.Common.Sets.{any, contains, select}
use nano_db.Harness.Counters.{Reply}
use nano_db.Harness.Validator.{Body}
use nano_db.Harness.Run.{
  is_ok, is_leader, wait_for_coordinators_ready, first_leader, wait_for_raft_leader,
}
use nano_db.Common.Sets.{contains-select}
use nano_db.Common.Members.{not-contains_of_empty, is_empty_of_none}

-- The coordinator has answered with 200 in some round.
abbrev pub has_answered : List (ℕ → Reply Body) → ℕ → Bool
has_answered rounds n = any (λ answers. is_ok (answers n)) rounds

-- The wait succeeds exactly if every coordinator answers with 200 in one of the rounds.
pub wait_for_coordinators_ready_lem :
    (rounds : List (ℕ → Reply Body)) (node_ids : List ℕ)
    → (wait_for_coordinators_ready rounds node_ids ≡ true)
      ↔ ((n : ℕ) → contains n node_ids ≡ true → has_answered rounds n ≡ true)
unfolding wait_for_coordinators_ready
wait_for_coordinators_ready_lem [] node_ids =
    (λ h n m. absurd (cc (not-contains_of_empty node_ids h n)), λ h. is_empty_of_none node_ids h)
wait_for_coordinators_ready_lem (answers ∷ rounds) node_ids =
    let left = select (λ n. not (is_ok (answers n))) node_ids in
    let ih = wait_for_coordinators_ready_lem rounds left in
    elim (Bool-cases (is_empty node_ids)) [
      | inl over ↦ rw over (λ h n m. absurd (cc (not-contains_of_empty node_ids over n)), λ h. refl)
      | inr more ↦ rw more (
        λ h n m.
            ground (arith, ih.0 h n, contains-select n (λ x. not (is_ok (answers x))) node_ids),
        λ h.
            ih.1 (λ n m.
              ground (arith, h n, contains-select n (λ x. not (is_ok (answers x))) node_ids)),
      )
    ]

-- The coordinator has said in some round that it leads.
abbrev pub has_led : List (ℕ → Reply Bool) → ℕ → Bool
has_led rounds n = any (λ leads. is_leader (leads n)) rounds

-- What the result of the wait says.
abbrev pub IsElected : List (ℕ → Reply Bool) → List ℕ → Option ℕ → Type 0
IsElected rounds node_ids none = (n : ℕ) → contains n node_ids ≡ true → has_led rounds n ≡ false
IsElected rounds node_ids (some n) = (contains n node_ids ≡ true) × (has_led rounds n ≡ true)

more_nodes :
    (rounds : List (ℕ → Reply Bool)) (x : ℕ) (xs : List ℕ) (o : Option ℕ)
    → has_led rounds x ≡ false
    → IsElected rounds xs o
    → IsElected rounds (x ∷ xs) o
more_nodes rounds x xs (some n) h e = (ground (arith, e.0), e.1)
more_nodes rounds x xs none h e = λ n m. elim (Bool-cases (n == x)) [
  | inl same ↦ let q : n ≡ x = (nat_key.same_iff n x).0 same in rw q h
  | inr other ↦ e n (rw other at m)
]

first_leader_lem :
    (leads : ℕ → Reply Bool) (node_ids : List ℕ)
    → IsElected (leads ∷ []) node_ids (first_leader leads node_ids)
unfolding first_leader
first_leader_lem leads [] = λ n m. absurd (cc)
first_leader_lem leads (x ∷ xs) = elim (Bool-cases (is_leader (leads x))) [
  | inl leader ↦ rw leader (ground (arith, nat_key.same_iff x x), ground arith)
  | inr other ↦ rw other (
      more_nodes (leads ∷ []) x xs (first_leader leads xs) (ground arith)
        (first_leader_lem leads xs))
]

-- One round before the others.
join_rounds :
    (leads : ℕ → Reply Bool) (rounds : List (ℕ → Reply Bool)) (node_ids : List ℕ) (o : Option ℕ)
    → IsElected (leads ∷ []) node_ids none
    → IsElected rounds node_ids o
    → IsElected (leads ∷ rounds) node_ids o
join_rounds leads rounds node_ids none h e = λ n m. ground (arith, h n m, e n m)
join_rounds leads rounds node_ids (some n) h e = (e.0, ground (arith, e.1))

-- A coordinator that the wait returns is one of those asked and has said that it leads; if the
-- wait returns none, then none of those asked has said so in any of the rounds.
pub wait_for_raft_leader_lem :
    (rounds : List (ℕ → Reply Bool)) (node_ids : List ℕ)
    → IsElected rounds node_ids (wait_for_raft_leader rounds node_ids)
unfolding wait_for_raft_leader
wait_for_raft_leader_lem [] node_ids = λ n m. refl
wait_for_raft_leader_lem (leads ∷ rounds) node_ids =
    split_lem (first_leader leads node_ids) (first_leader_lem leads node_ids)
      (wait_for_raft_leader_lem rounds node_ids)
  where
    split_lem :
        (o : Option ℕ)
        → IsElected (leads ∷ []) node_ids o
        → IsElected rounds node_ids (wait_for_raft_leader rounds node_ids)
        → IsElected
            (leads ∷ rounds)
            node_ids
            (elim o [ some n ↦ some n | none ↦ wait_for_raft_leader rounds node_ids ])
    split_lem none h e =
        join_rounds leads rounds node_ids (wait_for_raft_leader rounds node_ids) h e
    split_lem (some n) h e = (h.0, ground (arith, h.1))
