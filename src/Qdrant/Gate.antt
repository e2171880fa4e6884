-- ===== src/Qdrant/Gate.antt =====
-- research/cross_system_replication/qdrant_index_gate.py: the polls of the nodes, the decision over
-- them and the wait. An indexed fraction is exact; what a node answers and what the clock shows are
-- arguments.
pub mod Closing
pub mod Wait
pub mod Trim
pub mod Waited
pub mod Tests
use nano_db.Common.{
  ℕ, zero, suc, ◌+◌, ◌-◌, ◌*◌, List, [], ◌∷◌, ◌++◌, map, Bool, true, false, not, ◌||◌, Option, none,
  some, if◌then◌else◌, length, drop, ltb, leb, eqb, min, max, String, is_empty, ◌==◌, string_key,
}
use nano_db.Common.Frac.{Frac, Exception, value_error}

-- A row of a poll: a node's own view of the collection.
pub record NodeRow : Type 0 where
  pub node : ℕ
  pub reachable : Bool
  pub indexed_vectors_count : Option ℕ
  pub points_count : Option ℕ
  pub segments_count : Option ℕ
  pub status : Option String
  pub optimizer_status : Option String

-- `body.get("result", {})`.
pub record View : Type 0 where
  pub indexed : Option ℕ
  pub points : Option ℕ
  pub segments : Option ℕ
  pub status : Option String
  pub optimizer_status : Option String

-- A request raises, or it answers with a status code.
pub data Answer : Type 0 where
  unanswered : Answer
  answered : ℕ → View → Answer

abbrev pub Poll : Type 0
Poll = List NodeRow

abbrev pub silent_row : ℕ → NodeRow
silent_row n = record {
  node = n;
  reachable = false;
  indexed_vectors_count = none;
  points_count = none;
  segments_count = none;
  status = none;
  optimizer_status = none;
}

unfoldable pub poll_node : ℕ → Answer → NodeRow
poll_node n unanswered = silent_row n
poll_node n (answered code v) =
    if eqb code 200
    then record {
      node = n;
      reachable = true;
      indexed_vectors_count = v.indexed;
      points_count = v.points;
      segments_count = v.segments;
      status = v.status;
      optimizer_status = v.optimizer_status;
    }
    else silent_row n

unfoldable pub poll_index_state : (ℕ → Answer) → List ℕ → Poll
unfolding poll_node
poll_index_state ask node_ids = map (λ n. poll_node n (ask n)) node_ids

abbrev pub zero_frac : Frac
zero_frac = record { num = 0; den = 1 }

-- `min(1.0, max(0.0, idx / pts))` on counts, where `idx` is there and `pts` is not 0.
abbrev pub fraction_of : Option ℕ → Option ℕ → Frac
fraction_of none pts = zero_frac
fraction_of (some idx) none = zero_frac
fraction_of (some idx) (some pts) =
    if eqb pts 0 then zero_frac else record { num = min idx pts; den = pts }

unfoldable pub node_fraction : NodeRow → Frac
node_fraction row =
    if not row.reachable then zero_frac else fraction_of row.indexed_vectors_count row.points_count

abbrev pub lt_frac : Frac → Frac → Bool
lt_frac x y = ltb (x.num * y.den) (y.num * x.den)

abbrev pub min_frac : Frac → List Frac → Frac
min_frac x [] = x
min_frac x (y ∷ ys) = min_frac (if lt_frac y x then y else x) ys

unfoldable pub poll_min_fraction : Poll → Frac
unfolding node_fraction
poll_min_fraction [] = zero_frac
poll_min_fraction (r ∷ rows) = min_frac (node_fraction r) (map node_fraction rows)

-- The reasons that the decision gives; `no_reason` stands for "".
pub data Reason : Type 0 where
  no_reason no_polls : Reason
  few_polls : ℕ → ℕ → Reason
  no_nodes : ℕ → Reason
  unreachable : ℕ → Reason
  has_status : ℕ → Option String → Reason
  behind : ℕ → Frac → Reason

abbrev pub is_green : Option String → Bool
is_green none = false
is_green (some s) = s == "green"

-- `f < 1.0 - tol`.
abbrev pub is_behind : Frac → Frac → Bool
is_behind tol f = ltb (f.num * tol.den + tol.num * f.den) (f.den * tol.den)

-- The conditions on one node's row, in order.
unfoldable pub row_reason : Frac → NodeRow → Reason
row_reason tol r =
    if not r.reachable
    then unreachable r.node
    else (if not (is_green r.status)
        then has_status r.node r.status
        else (if is_behind tol (node_fraction r)
            then behind r.node (node_fraction r)
            else no_reason))

abbrev pub is_clear : Reason → Bool
is_clear no_reason = true
is_clear _ = false

abbrev pub or_else : Reason → Reason → Reason
or_else first rest = if is_clear first then rest else first

unfoldable pub rows_reason : Frac → Poll → Reason
unfolding row_reason
rows_reason tol [] = no_reason
rows_reason tol (r ∷ rows) = or_else (row_reason tol r) (rows_reason tol rows)

-- The loop over the last polls; `k` polls are still to come.
unfoldable pub polls_reason : Frac → List Poll → Reason
unfolding rows_reason
polls_reason tol [] = no_reason
polls_reason tol (poll ∷ polls) =
    or_else (if is_empty poll then no_nodes (length (poll ∷ polls)) else rows_reason tol poll)
      (polls_reason tol polls)

-- `xs[-n:]` for a positive n.
abbrev pub last_n {ℓ} : {A : Type ℓ} → ℕ → List A → List A
last_n n xs = drop (length xs - n) xs

abbrev pub last_poll : List Poll → Poll
last_poll [] = []
last_poll (p ∷ []) = p
last_poll (p ∷ q ∷ polls) = last_poll (q ∷ polls)

-- The decision: whether the gate is closed, the least fraction in the last poll, and why not.
pub record Decision : Type 0 where
  pub closed : Bool
  pub min_fraction : Frac
  pub reason : Reason

unfoldable pub decide : List Poll → Frac → ℕ → Decision
unfolding polls_reason poll_min_fraction
decide history tol consecutive =
    let least = poll_min_fraction (last_poll history) in
    let reason = polls_reason tol (last_n consecutive history) in
    if is_empty history
    then record { closed = false; min_fraction = zero_frac; reason = no_polls }
    else (if ltb (length history) consecutive
        then record {
          closed = false;
          min_fraction = least;
          reason = few_polls (length history) consecutive;
        }
        else record { closed = is_clear reason; min_fraction = least; reason = reason })

-- What `gate_decision` gives, or the ValueError that it raises.
pub data Gated : Type 0 where
  decided : Decision → Gated
  refused : Exception → Gated

unfoldable pub gate_decision : List Poll → Frac → ℕ → Gated
unfolding decide
gate_decision history tol consecutive =
    if ltb consecutive 1 then refused value_error else decided (decide history tol consecutive)
