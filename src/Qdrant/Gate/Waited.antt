-- ===== src/Qdrant/Gate/Waited.antt =====
-- When `wait_for_index_gate` of research/cross_system_replication/qdrant_index_gate.py returns.
use nano_db.Common.{
  ℕ, zero, suc, ◌+◌, ◌-◌, ◌*◌, ◌≤◌, ◌<◌, ◌≡◌, refl, ap, subst, ◌∙◌, List, [], ◌∷◌, ◌++◌, drop, ltb,
  leb, max, arith, Bool, Bool-cases, inl, inr, false, true, ◌||◌, if◌then◌else◌,
}
use nano_db.Common.Frac.{Frac}
use nano_db.Qdrant.Gate.{Poll, last_n, Decision, decide, gate_decision, decided, poll_index_state}
use nano_db.Qdrant.Gate.Wait.{
  Round, gate_record, GateEnd, returned, gate_loop, after_poll, wait_for_index_gate,
}
use nano_db.Qdrant.Gate.Trim.{trim-last_n, decide-last_n}

-- The polls of the first rounds.
abbrev pub seen : (ℕ → Round) → List ℕ → ℕ → List Poll
seen world node_ids zero = []
seen world node_ids (suc i) =
    seen world node_ids i ++ (poll_index_state (world i).ask node_ids ∷ [])

-- What is decided in round `i` on all polls so far.
abbrev pub verdict : (ℕ → Round) → List ℕ → Frac → ℕ → ℕ → Decision
verdict world node_ids tol consecutive i = decide (seen world node_ids (suc i)) tol consecutive

-- Round `i` closes the gate or is past the timeout.
abbrev pub is_last : (ℕ → Round) → List ℕ → Frac → ℕ → ℕ → ℕ → Bool
is_last world node_ids tol consecutive timeout i =
    (verdict world node_ids tol consecutive i).closed || leb timeout (world i).elapsed

-- The wait returned in round `last`, and in no round before.
pub record IsWaited (world : ℕ → Round) (node_ids : List ℕ) (tol : Frac)
    (consecutive timeout first : ℕ) (e : GateEnd) : Type 0 where
  pub last : ℕ
  pub from_first : first ≤ last
  pub ends : is_last world node_ids tol consecutive timeout last ≡ true
  pub not_before :
      (i : ℕ) → first ≤ i → i < last → is_last world node_ids tol consecutive timeout i ≡ false
  pub result :
      e
      ≡ returned (
          gate_record
            (verdict world node_ids tol consecutive last)
            (last_n (max consecutive 3) (seen world node_ids (suc last))))

or_true : (b : Bool) → (b || true) ≡ true
or_true true = refl
or_true false = refl

last_n_nil : (n : ℕ) → last_n {A = Poll} n [] ≡ []
last_n_nil n = let e : 0 - n ≡ 0 = omega arith in ap (λ k. drop {A = Poll} k []) e

module _ (world : ℕ → Round) (node_ids : List ℕ) (tol : Frac) (consecutive timeout : ℕ)
    (some_polls : 0 < consecutive) where
  abbrev kept : ℕ → List Poll
  kept i = last_n (max consecutive 3) (seen world node_ids i)

  gate_decision-kept :
      (i : ℕ)
      → gate_decision (kept (suc i)) tol consecutive
        ≡ decided (verdict world node_ids tol consecutive i)
  unfolding gate_decision
  gate_decision-kept i =
      let e : ltb consecutive 1 ≡ false = ground arith in
      rw e (
        ap decided (
          decide-last_n (seen world node_ids (suc i)) tol consecutive (max consecutive 3) some_polls
            (omega arith)))

  after_poll-kept :
      (i : ℕ) (rest : List Poll → GateEnd)
      → after_poll world node_ids tol consecutive timeout i rest (kept (suc i)) ≡ (
          if is_last world node_ids tol consecutive timeout i
          then returned (gate_record (verdict world node_ids tol consecutive i) (kept (suc i)))
          else rest (kept (suc i)))
  unfolding after_poll
  after_poll-kept i rest = rw (after_poll, gate_decision-kept i) refl

  gate_loop_step :
      (fuel i : ℕ)
      → gate_loop world node_ids tol consecutive timeout (suc fuel) i (kept i) ≡ (
          if is_last world node_ids tol consecutive timeout i
          then returned (gate_record (verdict world node_ids tol consecutive i) (kept (suc i)))
          else gate_loop world node_ids tol consecutive timeout fuel (suc i) (kept (suc i)))
  unfolding gate_loop
  gate_loop_step fuel i =
      let rest = gate_loop world node_ids tol consecutive timeout fuel (suc i) in
      ap (after_poll world node_ids tol consecutive timeout i rest)
        (trim-last_n consecutive (seen world node_ids i) (poll_index_state (world i).ask node_ids))
      ∙ after_poll-kept i rest

  returns_now :
      (fuel i : ℕ)
      → is_last world node_ids tol consecutive timeout i ≡ true
      → IsWaited world node_ids tol consecutive timeout i
          (gate_loop world node_ids tol consecutive timeout (suc fuel) i (kept i))
  returns_now fuel i now = record {
    last = i;
    from_first = omega arith;
    ends = now;
    not_before = λ k a b. absurd (omega arith);
    result = gate_loop_step fuel i ∙ rw now refl;
  }

  not_before_suc :
      (i : ℕ) (e : GateEnd)
      → is_last world node_ids tol consecutive timeout i ≡ false
      → (w : IsWaited world node_ids tol consecutive timeout (suc i) e) → (k : ℕ) → i ≤ k
      → k < w.last
      → is_last world node_ids tol consecutive timeout k ≡ false
  not_before_suc i e later w k a b = elim (Bool-cases (leb (suc i) k)) [
    | inl h ↦ w.not_before k (ground arith) b
    | inr h ↦
        let same : i ≡ k = ground arith in
        subst (λ j. is_last world node_ids tol consecutive timeout j ≡ false) same later
  ]

  gate_loop_lem :
      (fuel i : ℕ)
      → is_last world node_ids tol consecutive timeout (i + fuel) ≡ true
      → IsWaited world node_ids tol consecutive timeout i
          (gate_loop world node_ids tol consecutive timeout (suc fuel) i (kept i))
  gate_loop_lem zero i h =
      let e : i + 0 ≡ i = omega arith in
      returns_now zero i (subst (λ j. is_last world node_ids tol consecutive timeout j ≡ true) e h)
  gate_loop_lem (suc fuel) i h =
      elim (Bool-cases (is_last world node_ids tol consecutive timeout i)) [
        | inl now ↦ returns_now (suc fuel) i now
        | inr later ↦
            let e : i + suc fuel ≡ suc i + fuel = omega arith in
            let w =
              gate_loop_lem fuel (suc i)
                (subst (λ j. is_last world node_ids tol consecutive timeout j ≡ true) e h) in
            record {
              last = w.last;
              from_first = omega (arith, w.from_first);
              ends = w.ends;
              not_before = not_before_suc i _ later w;
              result = gate_loop_step (suc fuel) i ∙ rw later w.result;
            }
      ]

  -- Where a round takes at least poll_s, the wait is over within timeout / poll_s + 1 rounds: it
  -- returns in the first round in which the gate is closed, judged by all polls since the start, or
  -- the timeout has passed, and reports that judgement. The short history it keeps makes no odds.
  pub wait_for_index_gate_lem :
      (poll_s n : ℕ)
      → ((i : ℕ) → i * poll_s ≤ (world i).elapsed)
      → timeout ≤ n * poll_s
      → IsWaited world node_ids tol consecutive timeout 0
          (wait_for_index_gate world node_ids tol consecutive timeout (suc n))
  unfolding wait_for_index_gate
  wait_for_index_gate_lem poll_s n clock enough =
      let e : n ≡ 0 + n = omega arith in
      let late : leb timeout (world n).elapsed ≡ true = ground (arith, clock n) in
      let none_kept : kept 0 ≡ [] = last_n_nil (max consecutive 3) in
      subst
        (λ h.
          IsWaited world node_ids tol consecutive timeout 0
            (gate_loop world node_ids tol consecutive timeout (suc n) 0 h))
        none_kept
        (gate_loop_lem n 0 (
          subst (λ j. is_last world node_ids tol consecutive timeout j ≡ true) e
            (rw late (or_true _))))
