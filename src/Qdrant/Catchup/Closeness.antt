-- ===== src/Qdrant/Catchup/Closeness.antt =====
-- When research/qdrant_kill_scheduler/derive_catchup_time.py takes a node for level with its peers.
use nano_db.Common.{
  ℕ, zero, suc, ◌+◌, ◌≤◌, ◌≡◌, ◌↔◌, refl, ap, List, [], ◌∷◌, map, Bool, true, false, not, ◌&&◌,
  some, inl, inr, ltb, is_empty, get_elem?, eqb, eqb_iff, arith, Bool-cases,
}
use nano_db.Common.Sets.{select}
use nano_db.Qdrant.Catchup.{Seen, max_of, is_behind, no_one, is_level}

-- Some replica of the node is in the round, and each that is has at least the completeness of every
-- replica of another node in its shard, less eps.
pub record IsLevel (node eps : ℕ) (rows : List Seen) : Type 0 where
  pub present : (i : ℕ) × (r : Seen) × (get_elem? rows i ≡ some r) × (r.replica ≡ node)
  pub close :
      (i j : ℕ) (r p : Seen)
      → get_elem? rows i ≡ some r
      → get_elem? rows j ≡ some p
      → r.replica ≡ node
      → p.shard ≡ r.shard
      → (p.replica ≡ node → ⊥)
      → p.completeness ≤ r.completeness + eps

module _ (q : Seen → Bool) where
  selected_iff :
      (rows : List Seen)
      → (not (is_empty (select q rows)) ≡ true)
        ↔ ((i : ℕ) × (r : Seen) × (get_elem? rows i ≡ some r) × (q r ≡ true))
  selected_iff [] = (λ h. absurd (cc), λ (i, r, e, h). absurd (cc))
  selected_iff (x ∷ rows) =
      let ih = selected_iff rows in
      elim (Bool-cases (q x)) [
        | inl here ↦ (λ _. (0, x, refl, here), λ _. rw here refl)
        | inr other ↦ rw other (
          λ h. let (i, r, e, k) = ih.0 h in (suc i, r, e, k),
          λ (i, r, e, k). later x rows other ih.1 i r e k,
        )
      ]
    where
      later :
          (x : Seen) (rows : List Seen)
          → q x ≡ false
          → ((i : ℕ) × (r : Seen) × (get_elem? rows i ≡ some r) × (q r ≡ true)
              → not (is_empty (select q rows)) ≡ true)
          → (i : ℕ) (r : Seen) → get_elem? (x ∷ rows) i ≡ some r
          → q r ≡ true
          → not (is_empty (select q rows)) ≡ true
      later x rows other h zero r e k = let same : x ≡ r = cc in absurd (cc (ap q same, other, k))
      later x rows other h (suc i) r e k = h (i, r, e, k)

  no_one_of :
      (test : Seen → Bool) (rows : List Seen)
      → no_one test (select q rows) ≡ true
      → (i : ℕ) (r : Seen) → get_elem? rows i ≡ some r
      → q r ≡ true
      → test r ≡ false
  no_one_of test [] h i r e k = absurd (cc)
  no_one_of test (x ∷ rows) h zero r e k =
      let same : x ≡ r = cc in ground (arith, h, k, ap q same, ap test same)
  no_one_of test (x ∷ rows) h (suc i) r e k = elim (Bool-cases (q x)) [
    | inl here ↦ no_one_of test rows (ground (arith, h, here)) i r e k
    | inr other ↦ no_one_of test rows (ground (arith, h, other)) i r e k
  ]

  of_no_one :
      (test : Seen → Bool) (rows : List Seen)
      → ((i : ℕ) (r : Seen) → get_elem? rows i ≡ some r → q r ≡ true → test r ≡ false)
      → no_one test (select q rows) ≡ true
  of_no_one test [] h = refl
  of_no_one test (x ∷ rows) h =
      let rest = of_no_one test rows (λ i r e k. h (suc i) r e k) in
      elim (Bool-cases (q x)) [
        | inl here ↦ rw here (ground (arith, h 0 x refl here, rest))
        | inr other ↦ rw other rest
      ]

  max_of-le :
      (b : ℕ) (rows : List Seen)
      → max_of (map (λ (p : Seen). p.completeness) (select q rows)) ≤ b
      → (i : ℕ) (r : Seen) → get_elem? rows i ≡ some r
      → q r ≡ true
      → r.completeness ≤ b
  max_of-le b [] h i r e k = absurd (cc)
  max_of-le b (x ∷ rows) h zero r e k =
      let same : x ≡ r = cc in
      let fits : x.completeness ≤ b = ground (arith, h, k, ap q same) in
      omega (arith, fits, ap (λ (p : Seen). p.completeness) same)
  max_of-le b (x ∷ rows) h (suc i) r e k = max_of-le b rows (ground (arith, h)) i r e k

  le-max_of :
      (b : ℕ) (rows : List Seen)
      → ((i : ℕ) (r : Seen) → get_elem? rows i ≡ some r → q r ≡ true → r.completeness ≤ b)
      → max_of (map (λ (p : Seen). p.completeness) (select q rows)) ≤ b
  le-max_of b [] h = omega arith
  le-max_of b (x ∷ rows) h =
      let rest = le-max_of b rows (λ i r e k. h (suc i) r e k) in
      elim (Bool-cases (q x)) [
        | inl here ↦ rw here (omega (arith, h 0 x refl here, rest))
        | inr other ↦ rw other rest
      ]

-- The test for one replica.
is_behind_iff :
    (node eps : ℕ) (rows : List Seen) (r : Seen)
    → (is_behind node eps rows r ≡ false) ↔ (
        (j : ℕ) (p : Seen)
        → get_elem? rows j ≡ some p
        → p.shard ≡ r.shard
        → (p.replica ≡ node → ⊥)
        → p.completeness ≤ r.completeness + eps)
is_behind_iff node eps rows r =
    let q : Seen → Bool = λ p. eqb p.shard r.shard && not (eqb p.replica node) in
    let peers = select q rows in
    (
      λ h j p e s n.
          max_of-le q (r.completeness + eps) rows (small peers h) j p e
            (ground (arith, s, n, eqb_iff p.replica node)),
      λ h. not_behind peers (
          le-max_of q (r.completeness + eps) rows
            (λ j p e k. h j p e (ground (arith, k)) (λ s. absurd (ground (arith, s, k))))),
    )
  where
    small :
        (peers : List Seen)
        → (not (is_empty (map (λ (p : Seen). p.completeness) peers))
            && ltb (r.completeness + eps) (max_of (map (λ (p : Seen). p.completeness) peers)))
          ≡ false
        → max_of (map (λ (p : Seen). p.completeness) peers) ≤ r.completeness + eps
    small [] h = omega arith
    small (x ∷ peers) h = ground (arith, h)

    not_behind :
        (peers : List Seen)
        → max_of (map (λ (p : Seen). p.completeness) peers) ≤ r.completeness + eps
        → (not (is_empty (map (λ (p : Seen). p.completeness) peers))
            && ltb (r.completeness + eps) (max_of (map (λ (p : Seen). p.completeness) peers)))
          ≡ false
    not_behind [] h = refl
    not_behind (x ∷ peers) h = ground (arith, h)

pub is_level_iff :
    (node eps : ℕ) (rows : List Seen) → (is_level node eps rows ≡ true) ↔ IsLevel node eps rows
unfolding is_level
is_level_iff node eps rows =
    let mine : Seen → Bool = λ r. eqb r.replica node in
    let some_row = selected_iff mine rows in
    (
      λ h.
          let all = no_one_of mine (is_behind node eps rows) rows (ground (arith, h)) in
          let (i, r, e, k) = some_row.0 (ground (arith, h)) in
          record {
            present = (i, r, e, (eqb_iff r.replica node).0 k);
            close = λ i j r p e f k s n.
                (is_behind_iff node eps rows r).0 (all i r e ((eqb_iff r.replica node).1 k)) j p f s
                  n;
          },
      λ l.
          let (i, r, e, k) = l.present in
          let here = some_row.1 (i, r, e, (eqb_iff r.replica node).1 k) in
          let all = of_no_one mine (is_behind node eps rows) rows (λ i r e k.
            (is_behind_iff node eps rows r).1
              (λ j p f s n. l.close i j r p e f ((eqb_iff r.replica node).0 k) s n)) in
          ground (arith, here, all),
    )
