-- ===== src/Graph/Tests.antt =====
-- A small graph, and the theorems about the report at it.
use nano_db.Common.{
  ℕ, ◌≡◌, ◌↔◌, refl, subst, List, [], ◌∷◌, map, arith, Bool, true, false, some, nat_key, length,
  range,
}
use nano_db.Common.Int.{ℤ, pos, negsuc}
use nano_db.Common.Sets.{contains}
use nano_db.Common.Sort.{sort}
use nano_db.Common.Frac.{nan}
use nano_db.Index.{Node, Loaded}
use nano_db.Graph.{
  Edge, clip, valid_slots, edges_from, good_edges, is_unreachable, by_source, cumsum_from,
  adj_start, targets, targets_of, seen_at, mark, next_frontier, bfs, reached,
}
use nano_db.Graph.Report.{Statistics, Report, Reachability, analyse}
use nano_db.Graph.Csr.{has_edge, targets_lem}
use nano_db.Graph.Reached.{Reach, reached_lem, InGraph}
use nano_db.Graph.Degrees.{IsConsistent, analyse_lem, good_edges-InGraph}

abbrev node : ℕ → ℤ → List ℕ → Node
node i layer targets = record {
  id = i;
  max_layer = layer;
  is_deleted = 0;
  vector = [];
  neighbors = targets ∷ [];
  neighbor_counts = pos (length targets) ∷ [];
}

-- 0 and 1 are linked, 2 and 3 are linked with one another only, 4 has no edge to it, and one edge
-- dangles.
abbrev nodes : List Node
nodes =
    node 0 (pos 0) (1 ∷ [])
    ∷ node 1 (pos 1) (0 ∷ 9 ∷ [])
    ∷ node 2 (pos 0) (3 ∷ [])
    ∷ node 3 (negsuc 0) (2 ∷ [])
    ∷ node 4 (pos 7) (0 ∷ [])
    ∷ []

abbrev index : Loaded
index = record {
  header = record {
    magic = 0x4E444200;
    element_count = 5;
    entry_point_id = pos 0;
    max_layer = pos 1;
  };
  nodes = nodes;
  capacity = 8;
}

abbrev statistics : Statistics
statistics = record { median = λ _. nan; percentile = λ _ _. nan }

abbrev good : List Edge
good = (0, 1) ∷ (1, 0) ∷ (2, 3) ∷ (3, 2) ∷ (4, 0) ∷ []

good-eq : good_edges 5 (edges_from 0 nodes) ≡ good
unfolding good_edges edges_from valid_slots clip
good-eq = refl

reached-good : reached 5 good 0 ≡ some (true ∷ true ∷ false ∷ false ∷ false ∷ [])
unfolding reached bfs adj_start cumsum_from by_source sort targets_of targets mark next_frontier
reached-good = refl

-- Only node 4 has no edge to it, and three nodes are out of reach.
hidden_by_degree :
    map (is_unreachable good (pos 0)) (range 5) ≡ false ∷ false ∷ false ∷ false ∷ true ∷ []
unfolding is_unreachable
hidden_by_degree = refl

good-InGraph : InGraph 5 good
good-InGraph = subst (InGraph 5) good-eq (good_edges-InGraph nodes)

reached_lem_example :
    (t : List Bool) × (reached 5 good 0 ≡ some t)
    × (length t ≡ 5)
    × ((v : ℕ) → (seen_at t v ≡ true) ↔ Reach good 0 v)
reached_lem_example = reached_lem 5 good 0 (omega arith) good-InGraph

targets_lem_example : contains 3 (targets (adj_start 5 good) (by_source good) 2) ≡ has_edge good 2 3
targets_lem_example = targets_lem 5 good 2 3 (omega arith)

analyse_lem_example :
    (r : Report) × (x : Reachability) × (analyse statistics index ≡ some r)
    × (r.reachability ≡ some x)
    × IsConsistent 5 r x
analyse_lem_example = analyse_lem statistics index 0 refl (omega arith)
