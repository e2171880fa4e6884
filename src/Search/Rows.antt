-- ===== src/Search/Rows.antt =====
-- The rows of a corpus: `from_dict` and `rows_for` (research/replica_recall/metrics.py).
use nano_db.Common.{
  ℕ, zero, suc, ◌+◌, ◌≤◌, ◌<◌, ◌≡◌, ◌↔◌, ◌∙◌, refl, ap, sym, List, [], ◌∷◌, map, true, ◌&&◌, inl,
  inr, arith, Key, ◌==◌, nat_key, string_key, some, length, ltb, leb, Bool-cases, Option-cases,
  get_elem?, length-map,
}
use nano_db.Common.Sets.{contains, IsUnique}
use nano_db.Common.Sort.{contains-sort, sort-IsSorted, IsSorted}
use nano_db.Search.{Corpus, get_row, enumerate_from, from_dict, known_rows, rows_for, Vector}

get_elem?-map {ℓ κ} :
    {X : Type ℓ} {Y : Type κ} (f : X → Y) (xs : List X) (r : ℕ) {x : X}
    → get_elem? xs r ≡ some x
    → get_elem? (map f xs) r ≡ some (f x)
get_elem?-map f [] r h = absurd (cc)
get_elem?-map f (y ∷ xs) zero h = ground arith
get_elem?-map f (y ∷ xs) (suc r) h = get_elem?-map f xs r h

module _ {A : Type 0} ⦃e : Key A⦄ where
  -- `row_of` inverts `ids` on the snapshot.
  pub record IsCorpus (c : Corpus A) : Type 0 where
    pub ids_fit : c.n ≤ length c.ids
    pub mat_fit : c.n ≤ length c.mat
    pub row_id :
        (i : A) (r : ℕ) → get_row c.row_of i ≡ some r → r < c.n → get_elem? c.ids r ≡ some i
    pub id_row :
        (i : A) (r : ℕ) → get_elem? c.ids r ≡ some i → r < c.n → get_row c.row_of i ≡ some r

  -- Some wanted id has the row.
  abbrev pub Wanted : Corpus A → List A → ℕ → Type 0
  Wanted c wanted r =
      (i : A) × (contains i wanted ≡ true) × (get_row c.row_of i ≡ some r) × (r < c.n)

  weaken :
      (c : Corpus A) (j : A) (wanted : List A) (r : ℕ) → Wanted c wanted r → Wanted c (j ∷ wanted) r
  weaken c j wanted r (i, m, g, h) = (i, ground arith, g, h)

  known_rows_sound :
      (c : Corpus A) (wanted : List A) (r : ℕ)
      → contains r (known_rows c wanted) ≡ true
      → Wanted c wanted r
  unfolding known_rows
  known_rows_sound c [] r h = absurd (cc)
  known_rows_sound c (i ∷ wanted) r h = elim (Option-cases (get_row c.row_of i)) [
    | inl missing ↦ weaken c i wanted r (known_rows_sound c wanted r (ground arith))
    | inr (s, found) ↦ elim (Bool-cases (r == s && ltb s c.n)) [
      | inl here ↦
          let same : s ≡ r = ground arith in
          (i, ground (arith, e.same_iff i i), found ∙ ap some same, ground arith)
      | inr other ↦ weaken c i wanted r (known_rows_sound c wanted r (ground arith))
    ]
  ]

  known_rows_complete :
      (c : Corpus A) (wanted : List A) (i : A) (r : ℕ)
      → contains i wanted ≡ true
      → get_row c.row_of i ≡ some r
      → r < c.n
      → contains r (known_rows c wanted) ≡ true
  unfolding known_rows
  known_rows_complete c [] i r m g h = absurd (cc)
  known_rows_complete c (j ∷ wanted) i r m g h = elim (Bool-cases (i == j)) [
    | inl same ↦
        let q : i ≡ j = (e.same_iff i j).0 same in
        let g' : get_row c.row_of j ≡ some r = rw q at g in ground arith
    | inr other ↦ ground (arith, known_rows_complete c wanted i r (ground arith) g h)
  ]

  -- The rows are ascending, and a row is among them exactly if it is a row of the snapshot whose id
  -- is wanted.
  pub rows_for_lem :
      (c : Corpus A) (wanted : List A)
      → IsCorpus c
      → IsSorted leb (rows_for c wanted)
        × ((r : ℕ)
            → (contains r (rows_for c wanted) ≡ true)
              ↔ ((i : A) × (contains i wanted ≡ true) × (get_elem? c.ids r ≡ some i) × (r < c.n)))
  unfolding rows_for
  rows_for_lem c wanted v = (
    sort-IsSorted leb (λ a b. ground arith) (λ a b c' p q. ground arith) (known_rows c wanted),
    λ r.
        let keeps = contains-sort leb r (known_rows c wanted) in
        (
          λ h.
              let (i, m, g, b) = known_rows_sound c wanted r (sym keeps ∙ h) in
              (i, m, v.row_id i r g b, b),
          λ (i, m, g, b). keeps ∙ known_rows_complete c wanted i r m (v.id_row i r g b) b,
        ),
  )

  enumerate_sound :
      (s : ℕ) (ids : List A) (i : A) (r : ℕ)
      → get_row (enumerate_from s ids) i ≡ some r
      → (j : ℕ) × (r ≡ s + j) × (get_elem? ids j ≡ some i) × (j < length ids)
  unfolding get_row enumerate_from
  enumerate_sound s [] i r h = absurd (cc)
  enumerate_sound s (a ∷ ids) i r h = elim (Bool-cases (i == a)) [
    | inl here ↦ (0, ground arith, ap some (sym ((e.same_iff i a).0 here)), omega arith)
    | inr there ↦
        let (j, at, found, fits) = enumerate_sound (suc s) ids i r (rw there at h) in
        (suc j, omega arith, found, omega arith)
  ]

  contains-get_elem :
      (ids : List A) (j : ℕ) (i : A) → get_elem? ids j ≡ some i → contains i ids ≡ true
  contains-get_elem [] j i h = absurd (cc)
  contains-get_elem (a ∷ ids) zero i h = ground (arith, e.same_iff i a)
  contains-get_elem (a ∷ ids) (suc j) i h = ground (arith, contains-get_elem ids j i h)

  enumerate_complete :
      (s : ℕ) (ids : List A) (i : A) (j : ℕ)
      → IsUnique ids
      → get_elem? ids j ≡ some i
      → get_row (enumerate_from s ids) i ≡ some (s + j)
  unfolding get_row enumerate_from
  enumerate_complete s [] i j u h = absurd (cc)
  enumerate_complete s (a ∷ ids) i zero u h = ground (arith, e.same_iff i a)
  enumerate_complete s (a ∷ ids) i (suc j) u h =
      ground (
        arith,
        e.same_iff i a,
        contains-get_elem ids j i h,
        enumerate_complete (suc s) ids i j u.1 h,
      )

  -- `from_dict` builds a snapshot whose `row_of` inverts `ids`, with the vector of each id in its
  -- row.
  pub from_dict-IsCorpus :
      (vector_of : List (A × Vector))
      → IsUnique (map (λ p. p.0) vector_of)
      → IsCorpus (from_dict vector_of)
        × ((from_dict vector_of).n ≡ length vector_of)
        × ((r : ℕ) (i : A) (v : Vector)
            → get_elem? vector_of r ≡ some (i, v)
            → (get_elem? (from_dict vector_of).ids r ≡ some i)
              × (get_elem? (from_dict vector_of).mat r ≡ some v))
  unfolding from_dict
  from_dict-IsCorpus [] u = (
    record {
      ids_fit = omega arith;
      mat_fit = omega arith;
      row_id = λ i r g h. absurd (omega arith);
      id_row = λ i r g h. absurd (omega arith);
    },
    refl,
    λ r i v h. absurd (cc),
  )
  from_dict-IsCorpus (p ∷ ps) u =
      let ids = map (λ (q : A × Vector). q.0) (p ∷ ps) in
      (
        record {
          ids_fit = omega arith;
          mat_fit = omega (
            arith,
            length-map (λ (q : A × Vector). q.1) ps,
            length-map (λ (q : A × Vector). q.0) ps,
          );
          row_id = λ i r g h.
              let (j, at, found, _) = enumerate_sound 0 ids i r g in
              let same : r ≡ j = omega arith in rw same found;
          id_row = λ i r g h. enumerate_complete 0 ids i r u g ∙ ap some (omega arith);
        },
        omega (arith, length-map (λ (q : A × Vector). q.0) ps),
        λ r i v h. (get_elem?-map (λ q. q.0) (p ∷ ps) r h, get_elem?-map (λ q. q.1) (p ∷ ps) r h),
      )
