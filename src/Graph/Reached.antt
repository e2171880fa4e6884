-- ===== src/Graph/Reached.antt =====
-- The breadth-first search of `analyse` (research/replica_recall/graph_forensics.py) as a whole.
use nano_db.Common.{
  ℕ, zero, suc, ◌+◌, ◌<◌, ◌≡◌, ◌≢◌, ◌↔◌, ◌⊎◌, ◌∙◌, refl, ap, List, [], ◌∷◌, Bool, true, false, ◌||◌,
  inl, inr, arith, nat_key, some, length, eqb, Bool-cases, List-cases, All, set, length-set,
  replicate, length-replicate,
}
use nano_db.Common.Sets.{contains}
use nano_db.Search.TopK.{All-of_contains}
use nano_db.Graph.{
  Edge, by_source, adj_start, targets_of, seen_at, mark, next_frontier, bfs, reached,
}
use nano_db.Graph.Csr.{has_edge}
use nano_db.Graph.Bfs.{
  unseen, seen_at-set, seen_at-lt, unseen-set-lt, length-mark, seen_at-mark, unseen-mark-lt,
  contains-next, targets_of_sound, targets_of_complete,
}

-- A path of edges leads from the entry point to the node.
pub data Reach (es : List Edge) (entry : ℕ) : ℕ → Type 0 where
  here : Reach es entry entry
  step : {u v : ℕ} → Reach es entry u → has_edge es u v ≡ true → Reach es entry v

-- The edges stay among the n nodes.
abbrev pub InGraph : ℕ → List Edge → Type 0
InGraph n es = (u v : ℕ) → has_edge es u v ≡ true → (u < n) × (v < n)

module _ (n : ℕ) (good : List Edge) (entry : ℕ) where
  record Inv (seen : List Bool) (frontier : List ℕ) : Type 0 where
    size : length seen ≡ n
    source : seen_at seen entry ≡ true
    queued : (v : ℕ) → contains v frontier ≡ true → seen_at seen v ≡ true
    sound : (v : ℕ) → seen_at seen v ≡ true → Reach good entry v
    closed :
        (u v : ℕ)
        → seen_at seen u ≡ true
        → has_edge good u v ≡ true
        → (contains u frontier ≡ true) ⊎ (seen_at seen v ≡ true)

  module _ (inside : InGraph n good) (seen : List Bool) (frontier : List ℕ)
      (inv : Inv seen frontier) where
    open inv use {size, source, queued, sound, closed}

    frontier_fits : All (λ u. u < n) frontier
    frontier_fits =
        All-of_contains (λ u. u < n) frontier (λ u m. omega (arith, seen_at-lt seen u (queued u m)))

    abbrev found : List ℕ
    found = targets_of (adj_start n good) (by_source good) frontier

    abbrev nxt : List ℕ
    nxt = next_frontier seen found

    next-edge :
        (v : ℕ)
        → contains v nxt ≡ true
        → (u : ℕ) × (contains u frontier ≡ true) × (has_edge good u v ≡ true)
    next-edge v m =
        targets_of_sound n good frontier v frontier_fits
          (ground (arith, contains-next seen found v))

    next_fits : All (λ v. v < length seen) nxt
    next_fits =
        All-of_contains (λ v. v < length seen) nxt
          (λ v m. let (u, _, e) = next-edge v m in omega (arith, (inside u v e).1))

    seen_next : (v : ℕ) → seen_at (mark seen nxt) v ≡ (seen_at seen v || contains v nxt)
    seen_next v = seen_at-mark seen nxt v next_fits

    Inv-next : Inv (mark seen nxt) nxt
    Inv-next = record {
      size = length-mark seen nxt ∙ size;
      source = ground (arith, seen_next entry);
      queued = λ v m. ground (arith, seen_next v);
      sound = λ v m. elim (Bool-cases (seen_at seen v)) [
        | inl old ↦ sound v old
        | inr new ↦
            let (u, q, e) = next-edge v (ground (arith, seen_next v)) in
            step (sound u (queued u q)) e
      ];
      closed = λ u v m e. elim (Bool-cases (seen_at seen u)) [
        | inl old ↦ elim (closed u v old e) [
          | inl waiting ↦
              let hit = targets_of_complete n good frontier u v frontier_fits waiting e in
              inr (ground (arith, seen_next v, contains-next seen found v))
          | inr known ↦ inr (ground (arith, seen_next v))
        ]
        | inr new ↦ inl (ground (arith, seen_next u))
      ];
    }

    -- If the frontier has no target the flags are closed under edges.
    closed_at_break : found ≡ [] → Inv seen []
    closed_at_break none_found = record {
      size = size;
      source = source;
      queued = λ v m. absurd (cc);
      sound = sound;
      closed = λ u v m e. elim (closed u v m e) [
        | inl waiting ↦
            let hit = targets_of_complete n good frontier u v frontier_fits waiting e in absurd (cc)
        | inr known ↦ inr known
      ];
    }

    progress : nxt ≢ [] → unseen (mark seen nxt) < unseen seen
    progress some_new = elim (List-cases nxt) [
      | inl empty ↦ absurd (some_new empty)
      | inr (v, vs, e) ↦
          let m : contains v nxt ≡ true = rw e (ground arith) in
          let fits : All (λ w. w < length seen) (v ∷ vs) = rw e at next_fits in
          let fresh : seen_at seen v ≡ false = ground (arith, contains-next seen found v) in
          rw e (unseen-mark-lt seen v vs fits.0 fresh)
    ]

  -- The fuel that the rounds which are left may use.
  abbrev Enough : ℕ → List Bool → List ℕ → Type 0
  Enough fuel seen frontier = (frontier ≡ []) × (0 < fuel) ⊎ (unseen seen + 1 < fuel)

  bfs_lem :
      (fuel : ℕ) (seen : List Bool) (frontier : List ℕ)
      → InGraph n good
      → Inv seen frontier
      → Enough fuel seen frontier
      → (t : List Bool) × (bfs fuel (adj_start n good) (by_source good) seen frontier ≡ some t)
        × Inv t []
  unfolding bfs
  bfs_lem zero seen frontier inside inv enough = absurd (omega arith)
  bfs_lem (suc fuel) seen [] inside inv enough = (seen, refl, inv)
  bfs_lem (suc fuel) seen (u ∷ frontier) inside inv enough =
      let new = nxt inside seen (u ∷ frontier) inv in
      elim (List-cases (found inside seen (u ∷ frontier) inv)) [
        | inl empty ↦ (seen, ground arith, closed_at_break inside seen (u ∷ frontier) inv empty)
        | inr (w, ws, e) ↦
            let (t, ends, final) =
              bfs_lem fuel (mark seen new) new inside (Inv-next inside seen (u ∷ frontier) inv)
                (next_enough fuel seen u frontier inside inv enough) in
            (t, ground arith, final)
      ]
    where
      next_enough :
          (f : ℕ) (s : List Bool) (w : ℕ) (rest : List ℕ) (ins : InGraph n good)
          (i : Inv s (w ∷ rest))
          → Enough (suc f) s (w ∷ rest)
          → Enough f (mark s (nxt ins s (w ∷ rest) i)) (nxt ins s (w ∷ rest) i)
      next_enough f s w rest ins i (inl (p, h)) = absurd (cc)
      next_enough f s w rest ins i (inr h) = elim (List-cases (nxt ins s (w ∷ rest) i)) [
        | inl none_new ↦ inl (none_new, omega arith)
        | inr (v, vs, e) ↦ inr (omega (arith, progress ins s (w ∷ rest) i (λ p. cc)))
      ]

seen_at-replicate : (n v : ℕ) → seen_at (replicate n false) v ≡ false
seen_at-replicate zero v = refl
seen_at-replicate (suc n) zero = refl
seen_at-replicate (suc n) (suc v) = seen_at-replicate n v

unseen-replicate : (n : ℕ) → unseen (replicate n false) ≡ n
unseen-replicate zero = refl
unseen-replicate (suc n) = ap suc (unseen-replicate n)

module _ (n : ℕ) (good : List Edge) (entry : ℕ) (in_range : entry < n) where
  abbrev first_flags : List Bool
  first_flags = set (replicate n false) entry true

  only_entry : (v : ℕ) → seen_at first_flags v ≡ eqb v entry
  only_entry v = ground (
    arith,
    seen_at-set (replicate n false) entry v (omega (arith, length-replicate n false)),
    seen_at-replicate n v,
  )

  Inv-first : Inv n good entry first_flags (entry ∷ [])
  Inv-first = record {
    size = length-set (replicate n false) entry true ∙ length-replicate n false;
    source = ground (arith, only_entry entry);
    queued = λ v m. ground (arith, only_entry v);
    sound = λ v m. let same : v ≡ entry = ground (arith, only_entry v) in rw same here;
    closed = λ u v m e. inl (ground (arith, only_entry u));
  }

Reach-marked :
    (n : ℕ) (good : List Edge) (entry : ℕ) (t : List Bool)
    → Inv n good entry t []
    → {v : ℕ} → Reach good entry v
    → seen_at t v ≡ true
Reach-marked n good entry t inv here = inv.source
Reach-marked n good entry t inv (step {u} {v} p e) =
    elim (inv.closed u v (Reach-marked n good entry t inv p) e) [
      | inl waiting ↦ absurd (cc)
      | inr known ↦ known
    ]

-- From an entry point among the nodes the search ends within its rounds, with a flag for each
-- node, and the flag of a node is set exactly if a path of edges leads to it from the entry point.
pub reached_lem :
    (n : ℕ) (good : List Edge) (entry : ℕ)
    → entry < n
    → InGraph n good
    → (t : List Bool) × (reached n good entry ≡ some t)
      × (length t ≡ n)
      × ((v : ℕ) → (seen_at t v ≡ true) ↔ Reach good entry v)
unfolding reached
reached_lem n good entry in_range inside =
    let fewer =
      unseen-set-lt (replicate n false) entry (omega (arith, length-replicate n false))
        (seen_at-replicate n entry) in
    let (t, ends, inv) =
      bfs_lem n good entry (suc (suc n)) (first_flags n good entry in_range) (entry ∷ []) inside
        (Inv-first n good entry in_range) (inr (omega (arith, unseen-replicate n))) in
    (t, ends, inv.size, λ v. (inv.sound v, Reach-marked n good entry t inv))
