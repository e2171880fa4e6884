-- ===== src/Analyze/Detection/Worst.antt =====
-- Ties and the worst replica of a group in `_detection_stats`
-- (research/replica_recall/analyze.py).
use nano_db.Common.{
  ◌≢◌, ◌<◌, refl, sym, ◌∙◌, inl, inr, Bool-cases, All, ℕ, zero, suc, ◌+◌, ◌-◌, ◌*◌, ◌≤◌, ◌≡◌, List,
  [], ◌∷◌, map, Bool, true, false, arith, if◌then◌else◌, ltb, leb, eqb, nat_key, string_key,
}
use nano_db.Common.Sets.{count_if}
use nano_db.Common.Frac.{Frac}
use nano_db.Common.Sort.{sort}
use nano_db.Analyze.{instant_key}
use nano_db.Common.Sort.{IsSorted, sort-IsSorted, count_if-sort, sort}
use nano_db.Analyze.Detection.{
  number, int_or, resolution_eps, Member, gap_of_sorted, worst_gap, is_tied, min_by,
}

-- The value is attained and has none below it.
abbrev IsLeast : ℕ → List ℕ → Type 0
IsLeast k xs = (count_if (λ v. ltb v k) xs ≡ 0) × (0 < count_if (λ v. eqb v k) xs)

-- A value more that is not below one of the list.
IsLeast-second : (k n a : ℕ) (xs : List ℕ) → n ≤ a → IsLeast k (n ∷ xs) → IsLeast k (n ∷ a ∷ xs)
IsLeast-second k n a xs l h = (ground (arith, h.0), ground (arith, h.1))

IsLeast-first : (k n a : ℕ) (xs : List ℕ) → n ≤ a → IsLeast k (n ∷ xs) → IsLeast k (a ∷ n ∷ xs)
IsLeast-first k n a xs l h = (ground (arith, h.0), ground (arith, h.1))

-- No key is below the least one, and one is equal to it.
min_by-IsLeast :
    (key : Member → ℕ) (m : Member) (ms : List Member)
    → IsLeast (key (min_by key m ms)) (map key (m ∷ ms))
unfolding min_by
min_by-IsLeast key m [] = (ground arith, ground arith)
min_by-IsLeast key m (x ∷ xs) = step_lem (ltb (key x) (key m)) refl (λ n. min_by-IsLeast key n xs)
  where
    step_lem :
        (b : Bool)
        → ltb (key x) (key m) ≡ b
        → ((n : Member) → IsLeast (key (min_by key n xs)) (key n ∷ map key xs))
        → IsLeast (key (min_by key (if b then x else m) xs)) (key m ∷ key x ∷ map key xs)
    step_lem true q ih =
        IsLeast-first (key (min_by key x xs)) (key x) (key m) (map key xs) (ground arith) (ih x)
    step_lem false q ih =
        IsLeast-second (key (min_by key m xs)) (key m) (key x) (map key xs) (ground arith) (ih m)

none_equal :
    (b v : ℕ) (xs : List ℕ) → v < b → All (λ y. leb b y ≡ true) xs → count_if (λ y. eqb y v) xs ≡ 0
none_equal b v [] l h = refl
none_equal b v (x ∷ xs) l h = ground (arith, none_equal b v xs l h.1)

-- In a sorted list with a gap after the first value, a value that is attained and has none below
-- it is attained once.
sorted_lem :
    (v : ℕ) (xs : List ℕ)
    → IsSorted leb xs
    → 0 < gap_of_sorted xs
    → count_if (λ y. ltb y v) xs ≡ 0
    → 0 < count_if (λ y. eqb y v) xs
    → count_if (λ y. eqb y v) xs ≡ 1
unfolding gap_of_sorted
sorted_lem v [] s g n p = absurd (omega arith)
sorted_lem v (a ∷ []) s g n p = absurd (omega arith)
sorted_lem v (a ∷ b ∷ xs) s g n p = elim (Bool-cases (eqb a v)) [
  | inl same ↦
      let rest = none_equal b v (b ∷ xs) (ground arith) (ground arith, s.1.0) in
      ground (arith, rest)
  | inr other ↦
      let rest = none_equal a v (b ∷ xs) (ground arith) s.0 in absurd (ground (arith, rest))
]

positive_gap : (gap : ℕ) (eps : Frac) → leb (gap * eps.den) (eps.num * 1000000) ≡ false → 0 < gap
positive_gap zero eps h = absurd (ground arith)
positive_gap (suc gap) eps h = omega arith

-- In a group that is not tied exactly one replica has the least recall, so the worst replica is
-- unique.
pub worst_lem :
    (eps : Frac) (m : Member) (ms : List Member)
    → is_tied eps (m ∷ ms) ≡ false
    → count_if (λ v. eqb v ((min_by (λ x. x.e2e) m ms).e2e)) (map (λ x. x.e2e) (m ∷ ms)) ≡ 1
unfolding is_tied worst_gap
worst_lem eps m ms h =
    let es = map (λ (x : Member). x.e2e) (m ∷ ms) in
    let v = (min_by (λ x. x.e2e) m ms).e2e in
    let (below, attained) = min_by-IsLeast (λ x. x.e2e) m ms in
    let sorted = sort-IsSorted leb (λ a b. ground arith) (λ a b c p q. ground arith) es in
    let gap : 0 < gap_of_sorted (sort leb es) = positive_gap (gap_of_sorted (sort leb es)) eps h in
    let once : count_if (λ y. eqb y v) (sort leb es) ≡ 1 =
      sorted_lem v (sort leb es) sorted gap (count_if-sort leb (λ y. ltb y v) es ∙ below)
        (omega (arith, count_if-sort leb (λ y. eqb y v) es, attained)) in
    sym (count_if-sort leb (λ y. eqb y v) es) ∙ once

-- The distance of two numbers.
abbrev pub dist : ℕ → ℕ → ℕ
dist a b = (a - b) + (b - a)

twice_lem : (t d : ℕ) → 0 < t → 1 ≤ d → suc (1 * t) ≤ d * (2 * t)
twice_lem t d h l = grind arith

-- The tolerance separates what the measurement can represent: two recalls a / (k * nq) and
-- b / (k * nq) that differ are further apart than the tolerance that is derived from k and nq.
pub resolution_eps_lem :
    (k nq a b : ℕ)
    → 0 < k
    → 0 < nq
    → a ≢ b
    → (resolution_eps (number k) (number nq)).num * (k * nq)
      < dist a b * (resolution_eps (number k) (number nq)).den
unfolding resolution_eps int_or
resolution_eps_lem k nq a b hk hn h =
    let far : 1 ≤ dist a b = far_lem a b h in
    let pos : 0 < k * nq = grind arith in
    let positive : (eqb k 0 ≡ false) × (eqb nq 0 ≡ false) = (ground arith, ground arith) in
    rw (positive.0, positive.1) (twice_lem (k * nq) (dist a b) pos far)
  where
    far_lem : (a b : ℕ) → a ≢ b → 1 ≤ dist a b
    far_lem a b h = ground arith
