-- ===== src/Graph/Csr.antt =====
-- The adjacency that `analyse` reads out of the sorted edges by offsets
-- (research/replica_recall/graph_forensics.py).
use nano_db.Common.{
  ℕ, zero, suc, ◌+◌, ◌-◌, ◌≤◌, ◌<◌, ◌≡◌, ◌∙◌, refl, ap, sym, List, [], ◌∷◌, map, Bool, true, false,
  ◌&&◌, inl, inr, arith, nat_key, eqb, ltb, leb, Bool-cases, All, get_or, take, drop, range_from,
}
use nano_db.Common.Sets.{contains, select, count_if, any}
use nano_db.Common.Sort.{sort, IsSorted, sort-IsSorted, count_if-sort, any-sort}
use nano_db.Graph.{Edge, by_source, cumsum_from, adj_start, targets}

abbrev from_before : Edge → Edge → Bool
from_before e f = leb e.0 f.0

abbrev leaves : ℕ → Edge → Bool
leaves u e = eqb e.0 u

abbrev before : ℕ → Edge → Bool
before u e = ltb e.0 u

-- Some edge leads from u to v.
abbrev pub has_edge : List Edge → ℕ → ℕ → Bool
has_edge es u v = any (λ e. eqb e.0 u && eqb e.1 v) es

count_before-suc :
    (u : ℕ) (es : List Edge)
    → count_if (before (suc u)) es ≡ count_if (before u) es + count_if (leaves u) es
count_before-suc u [] = omega arith
count_before-suc u (e ∷ es) = ground (arith, count_before-suc u es)

count_before_zero : (es : List Edge) → count_if (before 0) es ≡ 0
count_before_zero [] = refl
count_before_zero (e ∷ es) = ground (arith, count_before_zero es)

-- The offsets count the edges of the earlier nodes.
get_or-cumsum :
    (es : List Edge) (n s j acc : ℕ)
    → j ≤ n
    → acc ≡ count_if (before s) es
    → get_or (cumsum_from acc (map (λ u. count_if (leaves u) es) (range_from s n))) j 0
      ≡ count_if (before (s + j)) es
unfolding cumsum_from
get_or-cumsum es zero s zero acc h e = e ∙ ap (λ t. count_if (before t) es) (omega arith)
get_or-cumsum es zero s (suc j) acc h e = absurd (omega arith)
get_or-cumsum es (suc n) s zero acc h e = e ∙ ap (λ t. count_if (before t) es) (omega arith)
get_or-cumsum es (suc n) s (suc j) acc h e =
    get_or-cumsum es n (suc s) j (acc + count_if (leaves s) es) (omega arith)
      (omega (arith, count_before-suc s es))
    ∙ ap (λ t. count_if (before t) es) (omega arith)

none_before :
    (u : ℕ) (x : Edge) (es : List Edge)
    → u ≤ x.0
    → All (λ f. from_before x f ≡ true) es
    → count_if (before u) es ≡ 0
none_before u x [] h a = refl
none_before u x (e ∷ es) h a = ground (arith, none_before u x es h a.1)

none_leave :
    (u : ℕ) (x : Edge) (es : List Edge)
    → u < x.0
    → All (λ f. from_before x f ≡ true) es
    → select (leaves u) es ≡ []
none_leave u x [] h a = refl
none_leave u x (e ∷ es) h a = ground (arith, none_leave u x es h a.1)

-- In sorted edges those of a node stand together, behind those of the earlier nodes.
slice_lem :
    (u : ℕ) (es : List Edge)
    → IsSorted from_before es
    → take (count_if (leaves u) es) (drop (count_if (before u) es) es) ≡ select (leaves u) es
slice_lem u [] s = refl
slice_lem u (x ∷ es) s = elim (Bool-cases (ltb x.0 u)) [
  | inl less ↦ let apart : eqb x.0 u ≡ false = ground arith in rw (less, apart) (slice_lem u es s.1)
  | inr more ↦ elim (Bool-cases (eqb x.0 u)) [
    | inl here ↦
        let ih = slice_lem u es s.1 in
        let first = none_before u x es (ground arith) s.0 in
        rw (more, here, first) (ap (λ t. x ∷ t) (rw first at ih))
    | inr there ↦ rw (more, there, none_leave u x es (ground arith) s.0) refl
  ]
]

contains-leaves :
    (u v : ℕ) (es : List Edge)
    → contains v (map (λ (e : Edge). e.1) (select (leaves u) es)) ≡ has_edge es u v
contains-leaves u v [] = refl
contains-leaves u v (e ∷ es) = ground (arith, contains-leaves u v es)

slice_at :
    (u a b : ℕ) (es : List Edge)
    → IsSorted from_before es
    → a ≡ count_if (before u) es
    → b ≡ count_if (before (suc u)) es
    → take (b - a) (drop a es) ≡ select (leaves u) es
slice_at u a b es s ea eb =
    let width : b - a ≡ count_if (leaves u) es = omega (arith, count_before-suc u es) in
    rw (width, ea) (slice_lem u es s)

-- A node's targets, as the code slices them, are the targets of its edges.
pub targets_lem :
    (n : ℕ) (good : List Edge) (u v : ℕ)
    → u < n
    → contains v (targets (adj_start n good) (by_source good) u) ≡ has_edge good u v
unfolding targets adj_start by_source
targets_lem n good u v h =
    let es = sort from_before good in
    let offset = λ (j : ℕ) (fits : j ≤ n).
      get_or-cumsum good n 0 j 0 fits (sym (count_before_zero good))
      ∙ ap (λ t. count_if (before t) good) (omega arith)
      ∙ sym (count_if-sort from_before (before j) good) in
    let sorted = sort-IsSorted from_before (λ e f. ground arith) (λ e f g p q. ground arith) good in
    let slice = slice_at u _ _ es sorted (offset u (omega arith)) (offset (suc u) h) in
    ap (λ xs. contains v (map (λ (e : Edge). e.1) xs)) slice
    ∙ contains-leaves u v es
    ∙ any-sort from_before (λ e. eqb e.0 u && eqb e.1 v) good
