-- ===== src/Graph/Degrees.antt =====
-- The counts of the report of `analyse` (research/replica_recall/graph_forensics.py).
use nano_db.Common.{
  ℕ, zero, suc, ◌+◌, ◌-◌, ◌≤◌, ◌<◌, ◌≡◌, ◌↔◌, ◌∙◌, refl, ap, sym, subst, List, [], ◌∷◌, ◌++◌, map,
  Bool, true, false, not, ◌&&◌, ◌||◌, inl, inr, arith, nat_key, some, length, eqb, ltb, Bool-cases,
  All, get_or, range, range_from,
}
use nano_db.Common.Int.{pos}
use nano_db.Common.Sets.{any, count_if, length-select_complement}
use nano_db.Index.{Node, Loaded}
use nano_db.Graph.{
  Edge, edges_from, valid_slots, is_good, good_edges, in_degree, is_unreachable, seen_at,
}
use nano_db.Graph.Report.{
  Statistics, Report, Reachability, analyse, full_report, reachability_of, degrees0, count_true,
}
use nano_db.Graph.Csr.{has_edge}
use nano_db.Graph.Reached.{Reach, here, step, InGraph, reached_lem}

-- Splitting `any` and counts.
module _ {ℓ} {A : Type ℓ} where
  any-append : (p : A → Bool) (xs ys : List A) → any p (xs ++ ys) ≡ (any p xs || any p ys)
  any-append p [] ys = refl
  any-append p (x ∷ xs) ys = ground (arith, any-append p xs ys)

  count_if_mono :
      (p q : A → Bool) (xs : List A)
      → All (λ x. p x ≡ true → q x ≡ true) xs
      → count_if p xs ≤ count_if q xs
  count_if_mono p q [] h = omega arith
  count_if_mono p q (x ∷ xs) h = ground (arith, count_if_mono p q xs h.1, h.0)

  count_if-zero : (p : A → Bool) (xs : List A) → count_if p xs ≡ 0 → any p xs ≡ false
  count_if-zero p [] h = refl
  count_if-zero p (x ∷ xs) h = ground (arith, count_if-zero p xs)

has_edge-map : (i : ℕ) (ds : List ℕ) (u v : ℕ) → has_edge (map (λ d. (i, d)) ds) u v ≡ true → u ≡ i
has_edge-map i [] u v h = absurd (cc)
has_edge-map i (d ∷ ds) u v h = ground (arith, has_edge-map i ds u v)

-- The sources of the edges are the numbers of the nodes.
edges_from-source :
    (i : ℕ) (nodes : List Node) (u v : ℕ)
    → has_edge (edges_from i nodes) u v ≡ true
    → (i ≤ u) × (u < i + length nodes)
unfolding edges_from
edges_from-source i [] u v h = absurd (cc)
edges_from-source i (node ∷ nodes) u v h =
    let ds = valid_slots node.neighbor_counts node.neighbors in
    let split =
      any-append (λ (e : Edge). eqb e.0 u && eqb e.1 v) (map (λ d. (i, d)) ds)
        (edges_from (suc i) nodes) in
    elim (Bool-cases (has_edge (map (λ d. (i, d)) ds) u v)) [
      | inl own ↦ omega (arith, has_edge-map i ds u v own)
      | inr other ↦ omega (arith, edges_from-source (suc i) nodes u v (ground arith))
    ]

has_edge-good :
    (n : ℕ) (es : List Edge) (u v : ℕ)
    → has_edge (good_edges n es) u v ≡ (ltb v n && has_edge es u v)
unfolding good_edges
has_edge-good n [] u v = ground arith
has_edge-good n (e ∷ es) u v = ground (arith, has_edge-good n es u v)

-- The edges of an index that are not dangling stay among its nodes.
pub good_edges-InGraph :
    (nodes : List Node) → InGraph (length nodes) (good_edges (length nodes) (edges_from 0 nodes))
good_edges-InGraph nodes u v h =
    let n = length nodes in
    let split = has_edge-good n (edges_from 0 nodes) u v in
    let (_, fits) = edges_from-source 0 nodes u v (ground arith) in (omega arith, ground arith)

-- A node without an edge to it, other than the entry point, is on no path.
unreachable-not-Reach :
    (good : List Edge) (entry v : ℕ)
    → is_unreachable good (pos entry) v ≡ true
    → ¬ Reach good entry v
unfolding is_unreachable in_degree
unreachable-not-Reach good entry v h here = ground arith
unreachable-not-Reach good entry v h (step {u} {v = w} p e) =
    let none_in = count_if-zero (λ (f : Edge). eqb f.1 w) good (ground arith) in
    absurd (cc (none_in, edge_in good u w e))
  where
    edge_in :
        (es : List Edge) (a b : ℕ)
        → has_edge es a b ≡ true
        → any (λ (f : Edge). eqb f.1 b) es ≡ true
    edge_in [] a b m = m
    edge_in (f ∷ es) a b m = ground (arith, edge_in es a b)

All-All {ℓ} : {A : Type ℓ} (P : A → Type 0) (xs : List A) → ((x : A) → P x) → All P xs
All-All P [] h = tt
All-All P (x ∷ xs) h = (h x, All-All P xs h)

count_if-shift :
    (p : ℕ → Bool) (s n : ℕ)
    → count_if p (range_from (suc s) n) ≡ count_if (λ v. p (suc v)) (range_from s n)
count_if-shift p s zero = refl
count_if-shift p s (suc n) = ground (arith, count_if-shift p (suc s) n)

count_unseen :
    (t : List Bool) → count_true t + count_if (λ v. not (seen_at t v)) (range (length t)) ≡ length t
count_unseen [] = omega arith
count_unseen (true ∷ t) =
    ground (arith, count_unseen t, count_if-shift (λ v. not (seen_at (true ∷ t) v)) 0 (length t))
count_unseen (false ∷ t) =
    ground (arith, count_unseen t, count_if-shift (λ v. not (seen_at (false ∷ t) v)) 0 (length t))

-- What the report says of reachability: the two counts make up the nodes, and the nodes with no
-- edge to them are among those that no path reaches.
pub record IsConsistent (n : ℕ) (r : Report) (x : Reachability) : Type 0 where
  pub adds_up : x.reachable_from_entry + x.unreachable_from_entry ≡ n
  pub in_degree_0-le : r.in_degree_0 ≤ x.unreachable_from_entry
  pub isolated-le : r.isolated_both_ways ≤ r.in_degree_0
  pub edges_add_up : r.dangling_edges + r.edges_scored ≡ r.edges_total

reachability_of_lem :
    (n : ℕ) (good : List Edge) (entry : ℕ)
    → entry < n
    → InGraph n good
    → (x : Reachability) × (reachability_of n good (pos entry) ≡ some x)
      × (x.reachable_from_entry + x.unreachable_from_entry ≡ n)
      × (count_if (is_unreachable good (pos entry)) (range n) ≤ x.unreachable_from_entry)
unfolding reachability_of
reachability_of_lem n good entry h inside =
    let (t, ends, size, exact) = reached_lem n good entry h inside in
    let total = count_unseen t in
    let hidden =
      λ (v : ℕ) (m : is_unreachable good (pos entry) v ≡ true). unseen_of v t good entry exact m in
    let fewer =
      count_if_mono (is_unreachable good (pos entry)) (λ v. not (seen_at t v)) (range n)
        (All-All (λ v. is_unreachable good (pos entry) v ≡ true → not (seen_at t v) ≡ true)
          (range n) hidden) in
    let resized = ap (λ (m : ℕ). count_if (λ v. not (seen_at t v)) (range m)) size in
    (
      record {
        reachable_from_entry = count_true t;
        unreachable_from_entry = n - count_true t;
        unreachable_from_entry_frac = record { num = n - count_true t; den = n };
      },
      ground arith,
      omega arith,
      omega arith,
    )
  where
    unseen_of :
        (v : ℕ) (t : List Bool) (es : List Edge) (src : ℕ)
        → ((w : ℕ) → (seen_at t w ≡ true) ↔ Reach es src w)
        → is_unreachable es (pos src) v ≡ true
        → not (seen_at t v) ≡ true
    unseen_of v t es src exact m = elim (Bool-cases (seen_at t v)) [
      | inl seen ↦ absurd (unreachable-not-Reach es src v m ((exact v).0 seen))
      | inr unseen_v ↦ rw unseen_v
    ]

-- An index with nodes whose entry point is one of them has a report with reachability counts. The
-- reached and unreached nodes add up to all nodes, the nodes that no edge points at are at most
-- the unreached ones, those isolated both ways at most the former, and the dangling and the other
-- edges add up to all edges.
pub analyse_lem :
    (np : Statistics) (l : Loaded) (entry : ℕ)
    → l.header.entry_point_id ≡ pos entry
    → entry < length l.nodes
    → (r : Report) × (x : Reachability) × (analyse np l ≡ some r)
      × (r.reachability ≡ some x)
      × IsConsistent (length l.nodes) r x
unfolding analyse full_report good_edges
analyse_lem np l entry e h =
    let n = length l.nodes in
    let edges = edges_from 0 l.nodes in
    let good = good_edges n edges in
    let (x, ends, adds_up, fewer) =
      reachability_of_lem n good entry h (good_edges-InGraph l.nodes) in
    (
      full_report np l,
      x,
      ground arith,
      ap (reachability_of n good) e ∙ ends,
      record {
        adds_up = adds_up;
        in_degree_0-le =
            subst (λ p. count_if (is_unreachable good p) (range n) ≤ x.unreachable_from_entry)
              (sym e) fewer;
        isolated-le =
            count_if_mono
              (λ v.
                is_unreachable good l.header.entry_point_id v
                && eqb (get_or (degrees0 l.nodes) v 0) 0)
              (is_unreachable good l.header.entry_point_id) (range n)
              (All-All
                (λ v.
                  (is_unreachable good l.header.entry_point_id v
                      && eqb (get_or (degrees0 l.nodes) v 0) 0)
                    ≡ true
                  → is_unreachable good l.header.entry_point_id v ≡ true)
                (range n) (λ v m. ground arith));
        edges_add_up = omega (arith, length-select_complement (is_good n) edges);
      },
    )
