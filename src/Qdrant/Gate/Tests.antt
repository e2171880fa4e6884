-- ===== src/Qdrant/Gate/Tests.antt =====
-- Two nodes whose indexes catch up, and the gate over their polls.
use nano_db.Common.{
  ℕ, ◌*◌, ◌≤◌, ◌≡◌, ◌↔◌, refl, List, [], ◌∷◌, true, some, arith, All, length, eqb, ltb,
  if◌then◌else◌,
}
use nano_db.Common.Frac.{Frac, value_error}
use nano_db.Qdrant.Gate.{
  View, answered, Poll, poll_index_state, poll_node, decide, gate_decision, polls_reason,
  rows_reason, row_reason, node_fraction, poll_min_fraction, behind, no_reason, last_n, is_clear,
}
use nano_db.Qdrant.Gate.Closing.{IsGood, HasPoints, decide_lem, decide-HasPoints}
use nano_db.Qdrant.Gate.Wait.{Round, returned, raised, gate_loop, after_poll, wait_for_index_gate}
use nano_db.Qdrant.Gate.Waited.{IsWaited, wait_for_index_gate_lem}

abbrev exactly : Frac
exactly = record { num = 0; den = 1 }

abbrev view : ℕ → View
view idx = record {
  indexed = some idx;
  points = some 10;
  segments = some 2;
  status = some "green";
  optimizer_status = some "ok";
}

-- Node 0 is indexed, node 1 from the second round on.
abbrev world : ℕ → Round
world i = record {
  ask = λ n.
      if eqb n 1
      then (if ltb i 1 then answered 200 (view 4) else answered 200 (view 10))
      else answered 200 (view 10);
  elapsed = i * 1000;
}

abbrev nodes : List ℕ
nodes = 0 ∷ 1 ∷ []

abbrev full_poll : Poll
full_poll =
    record {
      node = 0;
      reachable = true;
      indexed_vectors_count = some 10;
      points_count = some 10;
      segments_count = some 2;
      status = some "green";
      optimizer_status = some "ok";
    }
    ∷ []

-- The record counts the polls that are kept, three, where four were made.
closes :
    wait_for_index_gate world nodes exactly 3 600000 8
    ≡ returned (record {
      closed = true;
      polls = some 3;
      min_fraction_at_end = record { num = 10; den = 10 };
      last_reason = no_reason;
      per_node_at_end = poll_index_state (world 3).ask nodes;
    })
unfolding wait_for_index_gate gate_loop after_poll poll_index_state poll_node gate_decision decide
    polls_reason rows_reason row_reason node_fraction poll_min_fraction
closes = refl

no_polls_wanted : wait_for_index_gate world nodes exactly 0 600000 8 ≡ raised value_error
unfolding wait_for_index_gate gate_loop after_poll gate_decision
no_polls_wanted = refl

abbrev lagging : List Poll
lagging = poll_index_state (world 0).ask nodes ∷ []

names_the_node : (decide lagging exactly 1).reason ≡ behind 1 (record { num = 4; den = 10 })
unfolding poll_index_state poll_node decide polls_reason rows_reason row_reason node_fraction
names_the_node = refl

decide_lem_example :
    (((decide lagging exactly 1).closed ≡ true)
      ↔ ((1 ≤ length lagging) × All (IsGood exactly) (last_n 1 lagging)))
    × (is_clear (decide lagging exactly 1).reason ≡ (decide lagging exactly 1).closed)
decide_lem_example = decide_lem lagging exactly 1 (omega arith)

full_closed : (decide (full_poll ∷ []) exactly 1).closed ≡ true
unfolding decide polls_reason rows_reason row_reason node_fraction
full_closed = refl

decide-HasPoints_example : All (All (HasPoints exactly)) (last_n 1 (full_poll ∷ []))
decide-HasPoints_example =
    decide-HasPoints (full_poll ∷ []) exactly 1 (omega arith) (omega arith) full_closed

wait_for_index_gate_lem_example :
    IsWaited world nodes exactly 3 2000 0 (wait_for_index_gate world nodes exactly 3 2000 3)
wait_for_index_gate_lem_example =
    wait_for_index_gate_lem world nodes exactly 3 2000 (omega arith) 1000 2 (λ i. omega arith)
      (omega arith)
