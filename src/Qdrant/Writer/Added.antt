-- ===== src/Qdrant/Writer/Added.antt =====
-- What a confirmed batch adds to the corpus of
-- research/cross_system_replication/qdrant_run_experiment.py.
use nano_db.Common.{
  ℕ, ◌+◌, ◌≤◌, ◌≡◌, refl, sym, ap, ◌∙◌, List, [], ◌∷◌, ◌++◌, map, false, arith, inl, inr,
  Bool-cases, length, eqb, nat_key, append_assoc, append-nil,
}
use nano_db.Common.Sets.{contains, count_if, count_if-append, IsUnique}
use nano_db.Search.{Vector}
use nano_db.Retain.{Writer, put, array_at, grow, write_row, append_corpus, confirm, confirm_all}

-- How often the id occurs.
abbrev pub occurs : ℕ → List ℕ → ℕ
occurs v xs = count_if (eqb v) xs

not-contains_of_occurs : (v : ℕ) (xs : List ℕ) → occurs v xs ≡ 0 → contains v xs ≡ false
not-contains_of_occurs v [] h = refl
not-contains_of_occurs v (x ∷ xs) h = elim (Bool-cases (eqb v x)) [
  | inl same ↦ absurd (ground arith)
  | inr other ↦ ground (arith, not-contains_of_occurs v xs (ground arith))
]

pub IsUnique_of_occurs : (xs : List ℕ) → ((v : ℕ) → occurs v xs ≤ 1) → IsUnique xs
IsUnique_of_occurs [] h = tt
IsUnique_of_occurs (x ∷ xs) h = (
  not-contains_of_occurs x xs (ground (arith, h x)),
  IsUnique_of_occurs xs (λ v. ground (arith, h v)),
)

-- The keys of a dict, in the order of their insertion.
abbrev pub keys_of : {V : Type 0} → List (ℕ × V) → List ℕ
keys_of d = map (λ p. p.0) d

keys_of-put :
    {V : Type 0} (v : ℕ) (t : V) (d : List (ℕ × V))
    → occurs v (keys_of d) ≡ 0
    → keys_of (put v t d) ≡ keys_of d ++ (v ∷ [])
unfolding put
keys_of-put v t [] h = refl
keys_of-put v t ((u, s) ∷ d) h = elim (Bool-cases (eqb v u)) [
  | inl same ↦ absurd (ground arith)
  | inr other ↦ rw other (ap (λ k. u ∷ k) (keys_of-put v t d (ground arith)))
]

-- A confirmed id is the last of the corpus, and dated by the answer.
pub record IsAdded (w : Writer ℕ) (ids : List ℕ) (w' : Writer ℕ) : Type 0 where
  pub corpus_ids : w'.corpus_ids ≡ w.corpus_ids ++ ids
  pub corpus_n : w'.corpus_n ≡ w.corpus_n + length ids

module _ (junk : Vector) where
  append_corpus_lem :
      (v : ℕ) (vec : Vector) (w : Writer ℕ)
      → let w' = append_corpus junk v vec w in
        IsAdded w (v ∷ []) w' × (w'.confirmed_at ≡ w.confirmed_at)
  unfolding append_corpus write_row grow array_at
  append_corpus_lem v vec w =
      elim (Bool-cases (eqb w.corpus_n (length (array_at w.store w.corpus_mat)))) [
        | inl full ↦ rw full (record { corpus_ids = refl; corpus_n = omega arith }, refl)
        | inr free ↦ rw free (record { corpus_ids = refl; corpus_n = omega arith }, refl)
      ]

  confirm_lem :
      (v : ℕ) (vec : Vector) (t : ℕ) (w : Writer ℕ)
      → let w' = confirm junk v vec t w in
        IsAdded w (v ∷ []) w' × (w'.confirmed_at ≡ put v t w.confirmed_at)
  unfolding confirm
  confirm_lem v vec t w =
      let dated : Writer ℕ = record w {
        vector_of = put v vec w.vector_of;
        confirmed_at = put v t w.confirmed_at;
      } in
      let (a, d) = append_corpus_lem v vec dated in
      (record { corpus_ids = a.corpus_ids; corpus_n = a.corpus_n }, d)

  -- A batch is added in its order; if the dict of the times has the ids of the corpus for its keys and
  -- no id is there twice, it has them afterwards.
  pub confirm_all_lem :
      (writes : List (ℕ × (Vector × ℕ))) (w : Writer ℕ)
      → ((v : ℕ) → occurs v w.corpus_ids + occurs v (keys_of writes) ≤ 1)
      → keys_of w.confirmed_at ≡ w.corpus_ids
      → let w' = confirm_all junk writes w in
        IsAdded w (keys_of writes) w' × (keys_of w'.confirmed_at ≡ w'.corpus_ids)
  unfolding confirm_all
  confirm_all_lem [] w h k =
      (record { corpus_ids = sym (append-nil w.corpus_ids); corpus_n = omega arith }, k)
  confirm_all_lem ((v, (vec, t)) ∷ writes) w h k =
      let w1 = confirm junk v vec t w in
      let (a, d) = confirm_lem v vec t w in
      let fresh : occurs v (keys_of w.confirmed_at) ≡ 0 = rw k (ground (arith, h v)) in
      let keys : keys_of w1.confirmed_at ≡ w1.corpus_ids =
        ap keys_of d
        ∙ keys_of-put v t w.confirmed_at fresh
        ∙ ap (λ ids. ids ++ (v ∷ [])) k
        ∙ sym a.corpus_ids in
      let once : (u : ℕ) → occurs u w1.corpus_ids + occurs u (keys_of writes) ≤ 1 =
        λ u. rw a.corpus_ids (ground (arith, count_if-append (eqb u) w.corpus_ids (v ∷ []), h u)) in
      let (b, q) = confirm_all_lem writes w1 once keys in
      (
        record {
          corpus_ids =
              b.corpus_ids
              ∙ ap (λ ids. ids ++ keys_of writes) a.corpus_ids
              ∙ append_assoc w.corpus_ids (v ∷ []) (keys_of writes);
          corpus_n = omega (arith, a.corpus_n, b.corpus_n);
        },
        q,
      )
