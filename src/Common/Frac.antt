-- ===== src/Common/Frac.antt =====
-- The results that Python code computes: floats that are quotients of counts (or NaN), and the
-- exceptions that leave a function (`request_error` is what an HTTP request raises). A quotient is kept exact, as a numerator and a denominator.
use Prim.Native.Nat.{ℕ, ◌+◌, ◌*◌, ◌/◌, ◌≤◌, ◌<◌}
use mathlib.Core.Path.{◌≡◌, refl, ap, sym, ◌∙◌}
use mathlib.Core.Logic.{◌↔◌, ◌⊎◌, inl, inr}
use mathlib.Core.List.{List, [], ◌∷◌}
use native.Mathlib.Omega.{arith}
use native.Mathlib.Nat.{mul-div_cancel}
use nano_db.Common.Tests.{eqb, if◌then◌else◌}
use nano_db.Common.Lists.{length, All}

pub record Frac : Type 0 where
  pub num : ℕ
  pub den : ℕ

pub data Float : Type 0 where
  nan : Float
  ratio : Frac → Float

pub data Exception : Type 0 where
  zero_division_error value_error key_error index_error request_error : Exception

pub data Result {ℓ} (A : Type ℓ) : Type ℓ where
  ok : A → Result A
  raise : Exception → Result A

pub Result-cases {ℓ} :
    {A : Type ℓ} (r : Result A) → ((a : A) × (r ≡ ok a)) ⊎ ((e : Exception) × (r ≡ raise e))
Result-cases (ok a) = inl (a, refl)
Result-cases (raise e) = inr (e, refl)

-- The first exception leaves the block.
infixl 5 ◌>>=◌
abbrev pub ◌>>=◌ {ℓ κ} : {X : Type ℓ} {Y : Type κ} → Result X → (X → Result Y) → Result Y
raise e >>= next = raise e
ok x >>= next = next x

-- `a / b` on two counts.
abbrev pub true_div : ℕ → ℕ → Result Frac
true_div a b = if eqb b 0 then raise zero_division_error else ok (record { num = a; den = b })

abbrev pub add_frac : Frac → Frac → Frac
add_frac x y = record { num = x.num * y.den + y.num * x.den; den = x.den * y.den }

unfoldable pub sum_frac : List Frac → Frac
sum_frac [] = record { num = 0; den = 1 }
sum_frac (x ∷ xs) = add_frac x (sum_frac xs)

-- `float(np.mean(xs)) if xs else float("nan")`.
unfoldable pub mean : List Frac → Float
mean [] = nan
mean (x ∷ xs) =
    let s = sum_frac (x ∷ xs) in ratio (record { num = s.num; den = s.den * length (x ∷ xs) })

-- A proportion: a fraction in [0, 1].
pub record IsProportion (x : Frac) : Type 0 where
  pub positive : 0 < x.den
  pub at_most_one : x.num ≤ x.den

-- The fraction is 1.
abbrev pub IsOne : Frac → Type 0
IsOne x = x.num ≡ x.den

-- A float is NaN or a proportion.
abbrev pub IsScore : Float → Type 0
IsScore nan = Unit
IsScore (ratio x) = IsProportion x

abbrev pub IsPerfect : Float → Type 0
IsPerfect nan = ⊥
IsPerfect (ratio x) = IsOne x

pub mul_pos : (a b : ℕ) → 0 < a → 0 < b → 0 < a * b
mul_pos a b h k = grind arith

sum_frac_pos : (xs : List Frac) → All IsProportion xs → 0 < (sum_frac xs).den
unfolding sum_frac
sum_frac_pos [] h = omega arith
sum_frac_pos (x ∷ xs) h = mul_pos _ _ h.0.positive (sum_frac_pos xs h.1)

pub mul_le : (a b c : ℕ) → a ≤ b → a * c ≤ b * c
mul_le a b c h = grind arith

sum_frac-le :
    (xs : List Frac) → All IsProportion xs → (sum_frac xs).num ≤ (sum_frac xs).den * length xs
unfolding sum_frac
sum_frac-le [] h = omega arith
sum_frac-le (x ∷ xs) h =
    let s = sum_frac xs in
    omega (
      arith,
      mul_le x.num x.den s.den h.0.at_most_one,
      mul_le s.num (s.den * length xs) x.den (sum_frac-le xs h.1),
    )

pub mean-IsScore : (xs : List Frac) → All IsProportion xs → IsScore (mean xs)
unfolding mean
mean-IsScore [] h = tt
mean-IsScore (x ∷ xs) h = record {
  positive = mul_pos _ _ (sum_frac_pos (x ∷ xs) h) (omega arith);
  at_most_one = sum_frac-le (x ∷ xs) h;
}

mul_cancel : (a b c : ℕ) → 0 < c → a * c ≡ b * c → a ≡ b
mul_cancel a b c h e = sym (mul-div_cancel a h) ∙ ap (λ (t : ℕ). t / c) e ∙ mul-div_cancel b h

-- The sum of proportions reaches their number only if each of them is 1.
sum_frac_full :
    (xs : List Frac)
    → All IsProportion xs
    → (sum_frac xs).num ≡ (sum_frac xs).den * length xs
    → All IsOne xs
unfolding sum_frac
sum_frac_full [] h e = tt
sum_frac_full (x ∷ xs) h e =
    let s = sum_frac xs in
    let a = mul_le x.num x.den s.den h.0.at_most_one in
    let b = mul_le s.num (s.den * length xs) x.den (sum_frac-le xs h.1) in
    (
      mul_cancel _ _ s.den (sum_frac_pos xs h.1) (omega arith),
      sum_frac_full xs h.1 (mul_cancel _ _ x.den h.0.positive (omega arith)),
    )

sum_frac_of_ones :
    (xs : List Frac) → All IsOne xs → (sum_frac xs).num ≡ (sum_frac xs).den * length xs
unfolding sum_frac
sum_frac_of_ones [] h = omega arith
sum_frac_of_ones (x ∷ xs) h =
    let s = sum_frac xs in
    omega
      (arith, ap (λ (t : ℕ). t * s.den) h.0, ap (λ (t : ℕ). t * x.den) (sum_frac_of_ones xs h.1))

-- The mean of proportions is 1 exactly if there is one and each of them is 1.
pub mean-IsPerfect_iff :
    (x : Frac) (xs : List Frac)
    → All IsProportion (x ∷ xs)
    → IsPerfect (mean (x ∷ xs)) ↔ All IsOne (x ∷ xs)
unfolding mean
mean-IsPerfect_iff x xs h = (sum_frac_full (x ∷ xs) h, sum_frac_of_ones (x ∷ xs))
