-- ===== src/Search/Distance.antt =====
-- The expanded form of the squared distance in `exact_topk_rows`
-- (research/replica_recall/metrics.py).
use nano_db.Common.{ℕ, ◌+◌, ◌*◌, ◌-◌, ◌≡◌, refl, ap, [], ◌∷◌, arith, length}
use native.Mathlib.Decide.{dec_le}
use nano_db.Common.Int.{
  ℤ, pos, pos_part, neg_part, leb_ℤ, ◌+ℤ◌, ◌-ℤ◌, ◌*ℤ◌, +ℤ_parts, -ℤ_parts, *ℤ_parts, eq_of_parts,
}
use nano_db.Search.{Vector, dot, l2_dist, ip_dist}

-- The squared euclidean distance, as its definition says.
unfoldable pub sq_dist : Vector → Vector → ℤ
sq_dist [] v = pos 0
sq_dist (a ∷ u) [] = pos 0
sq_dist (a ∷ u) (b ∷ v) = (a -ℤ b) *ℤ (a -ℤ b) +ℤ sq_dist u v

sq_up :
    (p n c e t : ℕ)
    → p ≡ n + t
    → e ≡ c + t
    → p * p + n * n + (c * e + e * c) ≡ p * n + n * p + (c * c + e * e)
sq_up p n c e t hp he = rw (hp, he) (omega arith)

sq_parts :
    (p n c e : ℕ)
    → p + c ≡ n + e
    → p * p + n * n + (c * e + e * c) ≡ p * n + n * p + (c * c + e * e)
sq_parts p n c e h = elim (dec_le n p) [
  | yes up ↦ sq_up p n c e (p - n) (omega arith) (omega arith)
  | no down ↦ omega (arith, sq_up n p e c (n - p) (omega arith) (omega arith))
]

-- (a - b)² = a² + b² - 2ab, in the parts of the integers.
sq_diff : (a b : ℤ) → (a -ℤ b) *ℤ (a -ℤ b) +ℤ pos 2 *ℤ (a *ℤ b) ≡ a *ℤ a +ℤ b *ℤ b
sq_diff a b =
    let x = a -ℤ b in
    eq_of_parts _ _ (
      omega (
        arith,
        +ℤ_parts (x *ℤ x) (pos 2 *ℤ (a *ℤ b)),
        +ℤ_parts (a *ℤ a) (b *ℤ b),
        *ℤ_parts x x,
        *ℤ_parts (pos 2) (a *ℤ b),
        *ℤ_parts a b,
        *ℤ_parts a a,
        *ℤ_parts b b,
        sq_parts (pos_part x) (neg_part x) (neg_part a + pos_part b) (pos_part a + neg_part b)
            (omega (arith, -ℤ_parts a b)),
      ))

nil_lem : pos 0 ≡ pos 0 -ℤ pos 2 *ℤ pos 0 +ℤ pos 0
unfolding ◌+ℤ◌ ◌-ℤ◌ ◌*ℤ◌
nil_lem = refl

-- For vectors of one length the squared distance is the computed value plus the squared length of
-- the query, which is the same for every row.
pub sq_dist-l2_dist : (q v : Vector) → length q ≡ length v → sq_dist q v ≡ l2_dist q v +ℤ dot q q
unfolding sq_dist l2_dist dot
sq_dist-l2_dist [] [] h = nil_lem
sq_dist-l2_dist [] (b ∷ v) h = absurd (omega arith)
sq_dist-l2_dist (a ∷ q) [] h = absurd (omega arith)
sq_dist-l2_dist (a ∷ q) (b ∷ v) h = eq_of_parts _ _ (
    omega (
      arith,
      +ℤ_parts,
      -ℤ_parts,
      *ℤ_parts (pos 2) (a *ℤ b),
      *ℤ_parts (pos 2) (dot q v),
      *ℤ_parts (pos 2) (a *ℤ b +ℤ dot q v),
      ap pos_part (sq_diff a b),
      ap neg_part (sq_diff a b),
      ap pos_part (sq_dist-l2_dist q v (omega arith)),
      ap neg_part (sq_dist-l2_dist q v (omega arith)),
    ))

-- So the ranking of the rows is the ranking by squared distance.
pub l2_dist_ranks :
    (q u v : Vector)
    → length q ≡ length u
    → length q ≡ length v
    → leb_ℤ (l2_dist q u) (l2_dist q v) ≡ leb_ℤ (sq_dist q u) (sq_dist q v)
l2_dist_ranks q u v hu hv = rw (sq_dist-l2_dist q u hu, sq_dist-l2_dist q v hv) (shift _ _ _)
  where
    shift : (a b c : ℤ) → leb_ℤ a b ≡ leb_ℤ (a +ℤ c) (b +ℤ c)
    shift a b c = ground (arith, +ℤ_parts a c, +ℤ_parts b c)

-- The sum of the products of the coordinates.
unfoldable pub inner : Vector → Vector → ℤ
inner [] v = pos 0
inner (a ∷ u) [] = pos 0
inner (a ∷ u) (b ∷ v) = a *ℤ b +ℤ inner u v

dot-inner : (u v : Vector) → dot u v ≡ inner u v
unfolding dot inner
dot-inner [] v = refl
dot-inner (a ∷ u) [] = refl
dot-inner (a ∷ u) (b ∷ v) = ap (λ x. a *ℤ b +ℤ x) (dot-inner u v)

-- The ranking by the computed value is that by the inner product, the largest first.
pub ip_dist_ranks :
    (q u v : Vector) → leb_ℤ (ip_dist q u) (ip_dist q v) ≡ leb_ℤ (inner q v) (inner q u)
unfolding ip_dist
ip_dist_ranks q u v =
    ground
      (arith, dot-inner q u, dot-inner q v, -ℤ_parts (pos 0) (dot q u), -ℤ_parts (pos 0) (dot q v))
