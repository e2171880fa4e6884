-- ===== src/Graph.antt =====
-- research/replica_recall/graph_forensics.py, `analyse`: degrees, edges, reachability, symmetry and
-- layers of the nodes of an index. An edge is a pair of node numbers; the edges are taken of all
-- layers, as the code does. numpy's median and percentile are parameters.
pub mod Report
pub mod Csr
pub mod Bfs
pub mod Reached
pub mod Degrees
pub mod Symmetry
pub mod Layers
pub mod Tests
use nano_db.Common.{
  ℕ, zero, suc, ◌+◌, ◌-◌, ◌*◌, ◌≤◌, ◌<◌, min, List, [], ◌∷◌, ◌++◌, map, Bool, true, false, not,
  ◌&&◌, ◌||◌, Option, none, some, nat_key, ◌==◌, if◌then◌else◌, length, take, drop, ltb, leb, eqb,
  get_or, set, range, replicate,
}
use nano_db.Common.Int.{ℤ, pos, negsuc, sub_ℕ, leb_ℤ}
use nano_db.Common.Sets.{select, contains, to_set, count_if, any}
use nano_db.Common.Sort.{sort}
use nano_db.Common.Frac.{Frac, Float, nan, ratio, mean, Result, ok, raise, ◌>>=◌}
use nano_db.Index.{Node, Header, Loaded, m_max0, max_layers}

abbrev pub Edge : Type 0
Edge = ℕ × ℕ

-- `np.clip(c, 0, hi)`.
unfoldable pub clip : ℕ → ℤ → ℕ
clip hi (pos n) = min n hi
clip hi (negsuc n) = 0

-- The valid slots of one node: in each layer the first `neighbor_counts[layer]` ones.
unfoldable pub valid_slots : List ℤ → List (List ℕ) → List ℕ
valid_slots [] rows = []
valid_slots (c ∷ counts) [] = []
valid_slots (c ∷ counts) (row ∷ rows) = take (clip m_max0 c) row ++ valid_slots counts rows

-- `src[valid]`, `dst[valid]`, from the node with number `i` on.
unfoldable pub edges_from : ℕ → List Node → List Edge
edges_from i [] = []
edges_from i (node ∷ nodes) =
    map (λ d. (i, d)) (valid_slots (node.neighbor_counts) (node.neighbors))
    ++ edges_from (suc i) nodes

-- `~dangling`.
abbrev pub is_good : ℕ → Edge → Bool
is_good n e = ltb e.1 n

unfoldable pub good_edges : ℕ → List Edge → List Edge
good_edges n = select (is_good n)

-- `np.bincount(dst_g, minlength=n)[v]`.
unfoldable pub in_degree : List Edge → ℕ → ℕ
in_degree good v = count_if (λ e. eqb e.1 v) good

-- `unreachable`, with the entry point taken out.
unfoldable pub is_unreachable : List Edge → ℤ → ℕ → Bool
unfolding in_degree
is_unreachable good (pos entry) v = eqb (in_degree good v) 0 && not (eqb v entry)
is_unreachable good (negsuc entry) v = eqb (in_degree good v) 0

-- `order = np.argsort(src_g, kind="stable")`, applied to the edges.
unfoldable pub by_source : List Edge → List Edge
by_source = sort (λ e f. leb e.0 f.0)

-- `np.cumsum(np.bincount(s_sorted, minlength=n), out=adj_start[1:])`, behind the leading 0.
unfoldable pub cumsum_from : ℕ → List ℕ → List ℕ
cumsum_from acc [] = acc ∷ []
cumsum_from acc (b ∷ bins) = acc ∷ cumsum_from (acc + b) bins

unfoldable pub adj_start : ℕ → List Edge → List ℕ
adj_start n good = cumsum_from 0 (map (λ u. count_if (λ e. eqb e.0 u) good) (range n))

-- The targets in `d_sorted[adj_start[u]:adj_start[u + 1]]`.
unfoldable pub targets : List ℕ → List Edge → ℕ → List ℕ
targets starts sorted u =
    let a = get_or starts u 0 in map (λ e. e.1) (take (get_or starts (suc u) 0 - a) (drop a sorted))

unfoldable pub targets_of : List ℕ → List Edge → List ℕ → List ℕ
targets_of starts sorted [] = []
targets_of starts sorted (u ∷ frontier) =
    targets starts sorted u ++ targets_of starts sorted frontier

abbrev pub seen_at : List Bool → ℕ → Bool
seen_at seen v = get_or seen v false

-- `seen[nxt] = True`.
unfoldable pub mark : List Bool → List ℕ → List Bool
mark seen [] = seen
mark seen (v ∷ vs) = mark (set seen v true) vs

-- `nxt = np.unique(d_sorted[idx])`, then `nxt[~seen[nxt]]`.
unfoldable pub next_frontier : List Bool → List ℕ → List ℕ
next_frontier seen found = select (λ v. not (seen_at seen v)) (sort leb (to_set found))

-- The loop over frontiers. An empty `take` (no target) is the `break`; `none` says that the fuel
-- ran out.
unfoldable pub bfs : ℕ → List ℕ → List Edge → List Bool → List ℕ → Option (List Bool)
unfolding mark next_frontier targets_of
bfs zero starts sorted seen frontier = none
bfs (suc fuel) starts sorted seen [] = some seen
bfs (suc fuel) starts sorted seen (u ∷ frontier) =
    let found = targets_of starts sorted (u ∷ frontier) in
    let nxt = next_frontier seen found in
    let rest = bfs fuel starts sorted (mark seen nxt) nxt in
    elim found [ [] ↦ some seen | _ ∷ _ ↦ rest ]

-- The flags of the nodes that are reached from the entry point.
unfoldable pub reached : ℕ → List Edge → ℕ → Option (List Bool)
unfolding bfs adj_start by_source
reached n good entry =
    bfs (suc (suc n)) (adj_start n good) (by_source good) (set (replicate n false) entry true)
      (entry ∷ [])
