-- ===== src/Graph/Layers.antt =====
-- The histogram of the layers in `analyse` (research/replica_recall/graph_forensics.py).
use nano_db.Common.{ℕ, ◌≤◌, ◌≡◌, refl, List, [], ◌∷◌, arith, length}
use nano_db.Common.Int.{ℤ, pos, negsuc}
use nano_db.Index.{Node}
use nano_db.Graph.{clip}
use nano_db.Graph.Report.{layer_hist_of, sum_of}

clip-le : (hi : ℕ) (z : ℤ) → clip hi z ≤ hi
unfolding clip
clip-le hi (pos n) = omega arith
clip-le hi (negsuc n) = omega arith

-- Each node stands in exactly one of the layers of the histogram, also if its recorded layer is
-- negative or too high.
pub layer_hist-sum : (nodes : List Node) → sum_of (layer_hist_of nodes) ≡ length nodes
unfolding layer_hist_of sum_of
layer_hist-sum [] = refl
layer_hist-sum (node ∷ nodes) = ground (arith, layer_hist-sum nodes, clip-le 3 node.max_layer)
