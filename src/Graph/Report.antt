-- ===== src/Graph/Report.antt =====
-- research/replica_recall/graph_forensics.py: the report that `analyse` makes of the graph.
use nano_db.Common.{
  ℕ, suc, ◌+◌, ◌-◌, ◌*◌, min, List, [], ◌∷◌, map, Bool, true, false, not, ◌&&◌, Option, none, some,
  nat_key, if◌then◌else◌, length, ltb, eqb, get_or, range,
}
use nano_db.Common.Int.{ℤ, pos, negsuc, sub_ℕ}
use nano_db.Common.Sets.{contains, count_if}
use nano_db.Common.Frac.{Frac, Float, ratio, mean}
use nano_db.Index.{Node, Loaded, m_max0, max_layers}
use nano_db.Graph.{Edge, clip, edges_from, is_good, good_edges, in_degree, is_unreachable, reached}

-- numpy's statistics of a list of numbers, which the code only reports.
pub record Statistics : Type 0 where
  pub median : List ℕ → Float
  pub percentile : List ℕ → ℕ → Float

-- What is reported of reachability, if the entry point is one of the nodes.
pub record Reachability : Type 0 where
  pub reachable_from_entry : ℕ
  pub unreachable_from_entry : ℕ
  pub unreachable_from_entry_frac : Frac

pub record Report : Type 0 where
  pub deg0_mean : Float
  pub deg0_median : Float
  pub deg0_p5 : Float
  pub deg0_min : ℕ
  pub out_degree_0 : ℕ
  pub edges_total : ℕ
  pub dangling_edges : ℕ
  pub self_loops : ℕ
  pub in_degree_0 : ℕ
  pub indeg_mean : Float
  pub isolated_both_ways : ℕ
  pub reachability : Option Reachability
  pub edges_scored : ℕ
  pub asymmetric_edges : ℕ
  pub asymmetric_frac : Float
  pub layer_hist : List ℕ
  pub deleted : ℕ

-- The layer-0 degrees, clipped.
unfoldable pub degrees0 : List Node → List ℕ
unfolding clip
degrees0 [] = []
degrees0 (node ∷ nodes) = clip m_max0 (get_or (node.neighbor_counts) 0 (pos 0)) ∷ degrees0 nodes

abbrev pub frac_of : ℕ → Frac
frac_of k = record { num = k; den = 1 }

abbrev pub minimum : List ℕ → ℕ
minimum [] = 0
minimum (x ∷ []) = x
minimum (x ∷ y ∷ xs) = min x (minimum (y ∷ xs))

-- `edge = src * n + dst`, and the key of the edge in the other direction.
abbrev pub edge_key : ℕ → Edge → ℕ
edge_key n e = e.0 * n + e.1

abbrev pub reverse_key : ℕ → Edge → ℕ
reverse_key n e = e.1 * n + e.0

-- `~mutual`.
unfoldable pub is_asymmetric : ℕ → List Edge → Edge → Bool
is_asymmetric n good e = not (contains (reverse_key n e) (map (edge_key n) good))

-- `[(ml == i).sum() for i in range(MAX_LAYERS)]`.
unfoldable pub layer_hist_of : List Node → List ℕ
unfolding clip
layer_hist_of nodes =
    map (λ i. count_if (λ (node : Node). eqb (clip (max_layers - 1) (node.max_layer)) i) nodes)
      (range max_layers)

unfoldable pub sum_of : List ℕ → ℕ
sum_of [] = 0
sum_of (x ∷ xs) = x + sum_of xs

-- `0 <= entry < n`.
abbrev pub entry_in : ℕ → ℤ → Option ℕ
entry_in n (negsuc e) = none
entry_in n (pos e) = if ltb e n then some e else none

abbrev pub count_true : List Bool → ℕ
count_true [] = 0
count_true (true ∷ bs) = suc (count_true bs)
count_true (false ∷ bs) = count_true bs

unfoldable pub reachability_of : ℕ → List Edge → ℤ → Option Reachability
unfolding reached
reachability_of n good entry = elim (entry_in n entry) [
  | none ↦ none
  | some e ↦ elim (reached n good e) [
    | none ↦ none
    | some seen ↦ some (record {
      reachable_from_entry = count_true seen;
      unreachable_from_entry = n - count_true seen;
      unreachable_from_entry_frac = record { num = n - count_true seen; den = n };
    })
  ]
]

-- `uncounted_nodes`, `n - element_count`, may be negative.
unfoldable pub uncounted_nodes : Loaded → ℤ
uncounted_nodes l = sub_ℕ (length (l.nodes)) (l.header.element_count)

-- What `out` holds at the end, for an index with a node.
unfoldable pub full_report : Statistics → Loaded → Report
full_report np l =
    let n = length (l.nodes) in
    let l0 = degrees0 (l.nodes) in
    let edges = edges_from 0 (l.nodes) in
    let good = good_edges n edges in
    let entry = l.header.entry_point_id in
    let indeg = map (in_degree good) (range n) in
    let asymmetric = count_if (is_asymmetric n good) good in
    record {
      deg0_mean = mean (map frac_of l0);
      deg0_median = np.median l0;
      deg0_p5 = np.percentile l0 5;
      deg0_min = minimum l0;
      out_degree_0 = count_if (λ k. eqb k 0) l0;
      edges_total = length edges;
      dangling_edges = count_if (λ (e : Edge). not (is_good n e)) edges;
      self_loops = count_if (λ (e : Edge). eqb e.1 e.0) edges;
      in_degree_0 = count_if (is_unreachable good entry) (range n);
      indeg_mean = mean (map frac_of indeg);
      isolated_both_ways =
          count_if (λ v. is_unreachable good entry v && eqb (get_or l0 v 0) 0) (range n);
      reachability = reachability_of n good entry;
      edges_scored = length good;
      asymmetric_edges = asymmetric;
      asymmetric_frac =
          if eqb (length good) 0
          then ratio (record { num = 0; den = 1 })
          else ratio (record { num = asymmetric; den = length good });
      layer_hist = layer_hist_of (l.nodes);
      deleted = sum_of (map (λ (node : Node). node.is_deleted) (l.nodes));
    }

-- The part of `analyse` behind `load_index`; `none` is the early return on an empty index.
unfoldable pub analyse : Statistics → Loaded → Option Report
unfolding full_report
analyse np l = if eqb (length (l.nodes)) 0 then none else some (full_report np l)
