-- ===== src/Qdrant/Gate/Wait.antt =====
-- research/cross_system_replication/qdrant_index_gate.py, `wait_for_index_gate`. What the nodes
-- answer in each round and what the clock shows then, in milliseconds since the start, are an
-- argument; the log and the time of the record are left out.
use nano_db.Common.{
  ℕ, zero, suc, List, [], ◌∷◌, ◌++◌, Bool, ◌||◌, Option, none, some, if◌then◌else◌, length, drop,
  ltb, leb, max,
}
use nano_db.Common.Frac.{Frac, Exception}
use nano_db.Qdrant.Gate.{
  Answer, Poll, poll_index_state, Decision, Reason, decided, refused, gate_decision, last_poll,
}

pub record Round : Type 0 where
  pub ask : ℕ → Answer
  pub elapsed : ℕ

-- `history.pop(0)` where the history is longer than the decision can use.
abbrev pub trim : ℕ → List Poll → List Poll
trim consecutive history =
    if ltb (max consecutive 3) (length history) then drop 1 history else history

-- The record for run_meta.json.
pub record GateRecord : Type 0 where
  pub closed : Bool
  pub polls : Option ℕ
  pub min_fraction_at_end : Frac
  pub last_reason : Reason
  pub per_node_at_end : Poll

abbrev pub gate_record : Decision → List Poll → GateRecord
gate_record d history = record {
  closed = d.closed;
  polls = if d.closed then some (length history) else none;
  min_fraction_at_end = d.min_fraction;
  last_reason = d.reason;
  per_node_at_end = last_poll history;
}

pub data GateEnd : Type 0 where
  running : GateEnd
  raised : Exception → GateEnd
  returned : GateRecord → GateEnd

module _ (world : ℕ → Round) (node_ids : List ℕ) (tol : Frac) (consecutive timeout : ℕ) where
  -- A round behind its poll: the loop is left, or goes on with `rest`.
  unfoldable pub after_poll : ℕ → (List Poll → GateEnd) → List Poll → GateEnd
  after_poll i rest history = elim (gate_decision history tol consecutive) [
    | refused e ↦ raised e
    | decided d ↦
        if d.closed || leb timeout (world i).elapsed
        then returned (gate_record d history)
        else rest history
  ]

  -- `i` rounds have passed; on fuel.
  unfoldable pub gate_loop : ℕ → ℕ → List Poll → GateEnd
  unfolding after_poll
  gate_loop zero i history = running
  gate_loop (suc fuel) i history =
      let poll = poll_index_state (world i).ask node_ids in
      after_poll i (gate_loop fuel (suc i)) (trim consecutive (history ++ (poll ∷ [])))

  unfoldable pub wait_for_index_gate : ℕ → GateEnd
  unfolding gate_loop
  wait_for_index_gate fuel = gate_loop fuel 0 []
