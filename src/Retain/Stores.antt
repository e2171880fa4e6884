-- ===== src/Retain/Stores.antt =====
-- Reads after writes, on lists that stand for arrays.
use nano_db.Common.{
  ℕ, zero, suc, ◌<◌, ◌≡◌, ◌≢◌, refl, ap, List, [], ◌∷◌, ◌++◌, arith, length, get_or, get_elem?, set,
}

pub get_or-set_ne {ℓ} :
    {A : Type ℓ} (xs : List A) (i j : ℕ) (v d : A) → i ≢ j → get_or (set xs i v) j d ≡ get_or xs j d
get_or-set_ne [] i j v d h = refl
get_or-set_ne (x ∷ xs) zero zero v d h = absurd (h refl)
get_or-set_ne (x ∷ xs) zero (suc j) v d h = refl
get_or-set_ne (x ∷ xs) (suc i) zero v d h = refl
get_or-set_ne (x ∷ xs) (suc i) (suc j) v d h = get_or-set_ne xs i j v d (λ q. h (ap suc q))

pub get_or-set_eq {ℓ} :
    {A : Type ℓ} (xs : List A) (i : ℕ) (v d : A) → i < length xs → get_or (set xs i v) i d ≡ v
get_or-set_eq [] i v d h = absurd (omega arith)
get_or-set_eq (x ∷ xs) zero v d h = refl
get_or-set_eq (x ∷ xs) (suc i) v d h = get_or-set_eq xs i v d (omega arith)

pub get_elem?-set_below {ℓ} :
    {A : Type ℓ} (xs : List A) (i r : ℕ) (v : A) → r < i → get_elem? (set xs i v) r ≡ get_elem? xs r
get_elem?-set_below [] i r v h = refl
get_elem?-set_below (x ∷ xs) zero r v h = absurd (omega arith)
get_elem?-set_below (x ∷ xs) (suc i) zero v h = refl
get_elem?-set_below (x ∷ xs) (suc i) (suc r) v h = get_elem?-set_below xs i r v (omega arith)

pub get_or-append_left {ℓ} :
    {A : Type ℓ} (xs ys : List A) (i : ℕ) (d : A)
    → i < length xs
    → get_or (xs ++ ys) i d ≡ get_or xs i d
get_or-append_left [] ys i d h = absurd (omega arith)
get_or-append_left (x ∷ xs) ys zero d h = refl
get_or-append_left (x ∷ xs) ys (suc i) d h = get_or-append_left xs ys i d (omega arith)

pub get_or-append_end {ℓ} :
    {A : Type ℓ} (xs : List A) (y d : A) → get_or (xs ++ y ∷ []) (length xs) d ≡ y
get_or-append_end [] y d = refl
get_or-append_end (x ∷ xs) y d = get_or-append_end xs y d

pub get_elem?-append_left {ℓ} :
    {A : Type ℓ} (xs ys : List A) (i : ℕ) → i < length xs → get_elem? (xs ++ ys) i ≡ get_elem? xs i
get_elem?-append_left [] ys i h = absurd (omega arith)
get_elem?-append_left (x ∷ xs) ys zero h = refl
get_elem?-append_left (x ∷ xs) ys (suc i) h = get_elem?-append_left xs ys i (omega arith)
