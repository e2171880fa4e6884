-- ===== src/Graph/Bfs.antt =====
-- One round of the breadth-first search of `analyse` (research/replica_recall/graph_forensics.py).
use nano_db.Common.{
  ℕ, zero, suc, ◌≤◌, ◌<◌, ◌≡◌, ◌∙◌, refl, ap, sym, List, [], ◌∷◌, Bool, true, false, not, ◌&&◌,
  ◌||◌, inl, inr, arith, nat_key, ◌==◌, length, eqb, leb, Bool-cases, All, set, length-set,
}
use nano_db.Common.Sets.{contains, to_set, contains-to_set, contains-select, contains-append}
use nano_db.Common.Sort.{sort, contains-sort}
use nano_db.Graph.{Edge, by_source, adj_start, targets, targets_of, seen_at, mark, next_frontier}
use nano_db.Graph.Csr.{has_edge, targets_lem}

-- The flags that are still false.
abbrev pub unseen : List Bool → ℕ
unseen [] = 0
unseen (true ∷ seen) = unseen seen
unseen (false ∷ seen) = suc (unseen seen)

pub seen_at-set :
    (seen : List Bool) (i v : ℕ)
    → i < length seen
    → seen_at (set seen i true) v ≡ (seen_at seen v || eqb v i)
seen_at-set [] i v h = absurd (omega arith)
seen_at-set (b ∷ seen) zero zero h = ground arith
seen_at-set (b ∷ seen) zero (suc v) h = ground arith
seen_at-set (b ∷ seen) (suc i) zero h = ground arith
seen_at-set (b ∷ seen) (suc i) (suc v) h = ground (arith, seen_at-set seen i v (omega arith))

pub seen_at-lt : (seen : List Bool) (v : ℕ) → seen_at seen v ≡ true → v < length seen
seen_at-lt [] v h = absurd (cc)
seen_at-lt (b ∷ seen) zero h = omega arith
seen_at-lt (b ∷ seen) (suc v) h = omega (arith, seen_at-lt seen v h)

unseen-set-le : (seen : List Bool) (i : ℕ) → unseen (set seen i true) ≤ unseen seen
unseen-set-le [] i = omega arith
unseen-set-le (true ∷ seen) zero = omega arith
unseen-set-le (false ∷ seen) zero = omega arith
unseen-set-le (true ∷ seen) (suc i) = unseen-set-le seen i
unseen-set-le (false ∷ seen) (suc i) = omega (arith, unseen-set-le seen i)

pub unseen-set-lt :
    (seen : List Bool) (i : ℕ)
    → i < length seen
    → seen_at seen i ≡ false
    → unseen (set seen i true) < unseen seen
unseen-set-lt [] i h e = absurd (omega arith)
unseen-set-lt (true ∷ seen) zero h e = absurd (cc)
unseen-set-lt (false ∷ seen) zero h e = omega arith
unseen-set-lt (true ∷ seen) (suc i) h e = unseen-set-lt seen i (omega arith) e
unseen-set-lt (false ∷ seen) (suc i) h e = omega (arith, unseen-set-lt seen i (omega arith) e)

pub length-mark : (seen : List Bool) (vs : List ℕ) → length (mark seen vs) ≡ length seen
unfolding mark
length-mark seen [] = refl
length-mark seen (v ∷ vs) = length-mark (set seen v true) vs ∙ length-set seen v true

pub seen_at-mark :
    (seen : List Bool) (vs : List ℕ) (v : ℕ)
    → All (λ w. w < length seen) vs
    → seen_at (mark seen vs) v ≡ (seen_at seen v || contains v vs)
unfolding mark
seen_at-mark seen [] v h = ground arith
seen_at-mark seen (w ∷ vs) v h =
    ground
      (arith, seen_at-set seen w v h.0, seen_at-mark (set seen w true) vs v (still seen w vs h.1))
  where
    still :
        (xs : List Bool) (i : ℕ) (ws : List ℕ)
        → All (λ u. u < length xs) ws
        → All (λ u. u < length (set xs i true)) ws
    still xs i [] a = tt
    still xs i (u ∷ ws) a = (omega (arith, length-set xs i true), still xs i ws a.1)

unseen-mark-le : (seen : List Bool) (vs : List ℕ) → unseen (mark seen vs) ≤ unseen seen
unfolding mark
unseen-mark-le seen [] = omega arith
unseen-mark-le seen (v ∷ vs) =
    omega (arith, unseen-mark-le (set seen v true) vs, unseen-set-le seen v)

pub unseen-mark-lt :
    (seen : List Bool) (v : ℕ) (vs : List ℕ)
    → v < length seen
    → seen_at seen v ≡ false
    → unseen (mark seen (v ∷ vs)) < unseen seen
unfolding mark
unseen-mark-lt seen v vs h e =
    omega (arith, unseen-mark-le (set seen v true) vs, unseen-set-lt seen v h e)

pub contains-next :
    (seen : List Bool) (found : List ℕ) (v : ℕ)
    → contains v (next_frontier seen found) ≡ (not (seen_at seen v) && contains v found)
unfolding next_frontier
contains-next seen found v =
    contains-select v (λ w. not (seen_at seen w)) (sort leb (to_set found))
    ∙ ap (λ b. not (seen_at seen v) && b)
        (contains-sort leb v (to_set found) ∙ contains-to_set v found)

-- The targets of a frontier are what its edges lead to.
module _ (n : ℕ) (good : List Edge) where
  abbrev starts : List ℕ
  starts = adj_start n good

  abbrev sorted : List Edge
  sorted = by_source good

  pub targets_of_sound :
      (frontier : List ℕ) (v : ℕ)
      → All (λ u. u < n) frontier
      → contains v (targets_of starts sorted frontier) ≡ true
      → (u : ℕ) × (contains u frontier ≡ true) × (has_edge good u v ≡ true)
  unfolding targets_of
  targets_of_sound [] v h m = absurd (cc)
  targets_of_sound (u ∷ frontier) v h m =
      let parts = contains-append v (targets starts sorted u) (targets_of starts sorted frontier) in
      elim (Bool-cases (contains v (targets starts sorted u))) [
        | inl here ↦ (u, ground arith, sym (targets_lem n good u v h.0) ∙ here)
        | inr there ↦
            let (w, inside, e) = targets_of_sound frontier v h.1 (ground arith) in
            (w, ground arith, e)
      ]

  pub targets_of_complete :
      (frontier : List ℕ) (u v : ℕ)
      → All (λ w. w < n) frontier
      → contains u frontier ≡ true
      → has_edge good u v ≡ true
      → contains v (targets_of starts sorted frontier) ≡ true
  unfolding targets_of
  targets_of_complete [] u v h m e = absurd (cc)
  targets_of_complete (w ∷ frontier) u v h m e =
      let parts = contains-append v (targets starts sorted w) (targets_of starts sorted frontier) in
      elim (Bool-cases (u == w)) [
        | inl here ↦
            let same : u ≡ w = ground arith in
            let e' : has_edge good w v ≡ true = rw same at e in
            ground (arith, targets_lem n good w v h.0)
        | inr there ↦ ground (arith, targets_of_complete frontier u v h.1 (ground arith) e)
      ]
