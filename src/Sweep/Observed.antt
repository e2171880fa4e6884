-- ===== src/Sweep/Observed.antt =====
-- The observed samples and the splits that `mann_whitney` enumerates
-- (research/replica_recall/aggregate.py).
use nano_db.Common.{
  ℕ, suc, ◌*◌, ◌<◌, ◌≡◌, refl, ap, List, [], ◌∷◌, ◌++◌, map, Bool, true, ◌||◌, arith, length, inl,
  inr, Bool-cases,
}
use nano_db.Common.Int.{ℤ, leb_ℤ}
use nano_db.Common.Sets.{any}
use nano_db.Common.Sort.{sort, place}
use nano_db.Sweep.{put_left, put_right, splits, count_extreme, is_extreme, double_u, row_score}

-- The pool is the two samples, interleaved.
pub data Split : List ℤ → List ℤ → List ℤ → Type 0 where
  done : Split [] [] []
  left : (x : ℤ) (a b p : List ℤ) → Split a b p → Split (x ∷ a) b (x ∷ p)
  right : (x : ℤ) (a b p : List ℤ) → Split a b p → Split a (x ∷ b) (x ∷ p)

-- The samples have the same U against any other, from either side.
pub record Same (a a' : List ℤ) : Type 0 where
  pub size : length a ≡ length a'
  pub rows : (y : ℤ) → row_score y a ≡ row_score y a'
  pub scores : (ys : List ℤ) → double_u a ys ≡ double_u a' ys

any-append {ℓ} :
    {A : Type ℓ} (p : A → Bool) (xs ys : List A) → any p (xs ++ ys) ≡ (any p xs || any p ys)
any-append p [] ys = refl
any-append p (x ∷ xs) ys = ground (arith, any-append p xs ys)

any-map {ℓ κ} :
    {A : Type ℓ} {B : Type κ} (p : B → Bool) (f : A → B) (xs : List A)
    → any p (map f xs) ≡ any (λ x. p (f x)) xs
any-map p f [] = refl
any-map p f (x ∷ xs) = ground (arith, any-map p f xs)

-- Every interleaving is enumerated.
splits_complete :
    {a b pool : List ℤ} (p : List ℤ × List ℤ → Bool)
    → Split a b pool
    → p (a, b) ≡ true
    → any p (splits (length a) pool) ≡ true
unfolding splits
splits_complete p done h = ground arith
splits_complete p (left x a b pool s) h =
    let ih = splits_complete (λ t. p (put_left x t)) s h in
    ground (
      arith,
      any-append p (map (put_left x) (splits (length a) pool))
          (map (put_right x) (splits (suc (length a)) pool)),
      any-map p (put_left x) (splits (length a) pool),
    )
splits_complete p (right x [] b pool s) h =
    let ih = splits_complete (λ t. p (put_right x t)) s h in ih
splits_complete p (right x (y ∷ a) b pool s) h =
    let ih = splits_complete (λ t. p (put_right x t)) s h in
    ground (
      arith,
      any-append p (map (put_left x) (splits (length a) pool))
          (map (put_right x) (splits (suc (length a)) pool)),
      any-map p (put_right x) (splits (suc (length a)) pool),
    )

Same-refl : (a : List ℤ) → Same a a
Same-refl a = record { size = refl; rows = λ y. refl; scores = λ ys. refl }

-- A value more in front, and two values in either order.
Same-cons : (x : ℤ) (a a' : List ℤ) → Same a a' → Same (x ∷ a) (x ∷ a')
unfolding double_u row_score
Same-cons x a a' h = record {
  size = ap suc h.size;
  rows = λ y. omega (arith, h.rows y);
  scores = λ ys. omega (arith, h.scores ys);
}

Same-swap : (x y : ℤ) (a a' : List ℤ) → Same a (x ∷ a') → Same (y ∷ a) (x ∷ y ∷ a')
unfolding double_u row_score
Same-swap x y a a' h = record {
  size = omega (arith, h.size);
  rows = λ z. omega (arith, h.rows z);
  scores = λ ys. omega (arith, h.scores ys);
}

Same-trans : (a b c : List ℤ) → Same a b → Same b c → Same a c
Same-trans a b c h k = record {
  size = omega (arith, h.size, k.size);
  rows = λ y. omega (arith, h.rows y, k.rows y);
  scores = λ ys. omega (arith, h.scores ys, k.scores ys);
}

-- An interleaving of samples that are as good as a and b.
record SplitLike (a b pool : List ℤ) : Type 0 where
  first : List ℤ
  second : List ℤ
  split : Split first second pool
  first_same : Same first a
  second_same : Same second b

place_left : (x : ℤ) (a b pool : List ℤ) → Split a b pool → SplitLike (x ∷ a) b (place leb_ℤ x pool)
unfolding place
place_left x a b pool done = record {
  first = x ∷ [];
  second = [];
  split = left x [] [] [] done;
  first_same = Same-refl (x ∷ []);
  second_same = Same-refl [];
}
place_left x _ _ _ (left y a b pool s) = elim (Bool-cases (leb_ℤ x y)) [
  | inl small ↦ rw small (record {
    first = x ∷ y ∷ a;
    second = b;
    split = left x (y ∷ a) b (y ∷ pool) (left y a b pool s);
    first_same = Same-refl (x ∷ y ∷ a);
    second_same = Same-refl b;
  })
  | inr large ↦
      let h = place_left x a b pool s in
      rw large (record {
        first = y ∷ h.first;
        second = h.second;
        split = left y h.first h.second (place leb_ℤ x pool) h.split;
        first_same = Same-swap x y h.first a h.first_same;
        second_same = h.second_same;
      })
]
place_left x _ _ _ (right y a b pool s) = elim (Bool-cases (leb_ℤ x y)) [
  | inl small ↦ rw small (record {
    first = x ∷ a;
    second = y ∷ b;
    split = left x a (y ∷ b) (y ∷ pool) (right y a b pool s);
    first_same = Same-refl (x ∷ a);
    second_same = Same-refl (y ∷ b);
  })
  | inr large ↦
      let h = place_left x a b pool s in
      rw large (record {
        first = h.first;
        second = y ∷ h.second;
        split = right y h.first h.second (place leb_ℤ x pool) h.split;
        first_same = h.first_same;
        second_same = Same-cons y h.second b h.second_same;
      })
]

-- The two sides change places.
swap_sides : (a b pool : List ℤ) → Split a b pool → Split b a pool
swap_sides _ _ _ done = done
swap_sides _ _ _ (left x a b pool s) = right x b a pool (swap_sides a b pool s)
swap_sides _ _ _ (right x a b pool s) = left x b a pool (swap_sides a b pool s)

place_right :
    (x : ℤ) (a b pool : List ℤ) → Split a b pool → SplitLike a (x ∷ b) (place leb_ℤ x pool)
place_right x a b pool s =
    let h = place_left x b a pool (swap_sides a b pool s) in
    record {
      first = h.second;
      second = h.first;
      split = swap_sides h.first h.second (place leb_ℤ x pool) h.split;
      first_same = h.second_same;
      second_same = h.first_same;
    }

sort_second : (b : List ℤ) → SplitLike [] b (sort leb_ℤ b)
unfolding sort
sort_second [] = record {
  first = [];
  second = [];
  split = done;
  first_same = Same-refl [];
  second_same = Same-refl [];
}
sort_second (x ∷ b) =
    let h = sort_second b in
    let k = place_right x h.first h.second (sort leb_ℤ b) h.split in
    record {
      first = k.first;
      second = k.second;
      split = k.split;
      first_same = Same-trans k.first h.first [] k.first_same h.first_same;
      second_same =
          Same-trans k.second (x ∷ h.second) (x ∷ b) k.second_same
            (Same-cons x h.second b h.second_same);
    }

-- The sorted pool is an interleaving of samples as good as the two.
sort_both : (a b : List ℤ) → SplitLike a b (sort leb_ℤ (a ++ b))
unfolding sort
sort_both [] b = sort_second b
sort_both (x ∷ a) b =
    let h = sort_both a b in
    let k = place_left x h.first h.second (sort leb_ℤ (a ++ b)) h.split in
    record {
      first = k.first;
      second = k.second;
      split = k.split;
      first_same =
          Same-trans k.first (x ∷ h.first) (x ∷ a) k.first_same
            (Same-cons x h.first a h.first_same);
      second_same = Same-trans k.second h.second b k.second_same h.second_same;
    }

rows-double_u : (xs b b' : List ℤ) → Same b b' → double_u xs b ≡ double_u xs b'
unfolding double_u
rows-double_u [] b b' h = refl
rows-double_u (x ∷ xs) b b' h = omega (arith, h.rows x, rows-double_u xs b b' h)

double_u-Same : (a a' b b' : List ℤ) → Same a a' → Same b b' → double_u a b ≡ double_u a' b'
double_u-Same a a' b b' h k = omega (arith, h.scores b, rows-double_u a' b b' k)

count_extreme-pos :
    (n observed : ℕ) (ss : List (List ℤ × List ℤ))
    → any (is_extreme n observed) ss ≡ true
    → 0 < count_extreme n observed ss
unfolding count_extreme
count_extreme-pos n observed [] h = absurd (cc)
count_extreme-pos n observed (s ∷ ss) h = elim (Bool-cases (is_extreme n observed s)) [
  | inl yes' ↦ rw yes' (omega arith)
  | inr no' ↦ rw no' (count_extreme-pos n observed ss (rw no' at h))
]

is_extreme_self :
    (n u : ℕ) (s : List ℤ × List ℤ) → double_u (s.0) (s.1) ≡ u → is_extreme n u s ≡ true
unfolding is_extreme
is_extreme_self n u s q = rw q (ground arith)

-- At least one split is as extreme as the observed one: the observed one.
pub observed_lem :
    (a b : List ℤ)
    → 0
      < count_extreme (length a * length b) (double_u a b) (splits (length a) (sort leb_ℤ (a ++ b)))
observed_lem a b =
    let h = sort_both a b in
    let same = double_u-Same h.first a h.second b h.first_same h.second_same in
    let n = length a * length b in
    let hit : is_extreme n (double_u a b) (h.first, h.second) ≡ true =
      is_extreme_self n (double_u a b) (h.first, h.second) same in
    let found = splits_complete (is_extreme n (double_u a b)) h.split hit in
    count_extreme-pos n (double_u a b) (splits (length a) (sort leb_ℤ (a ++ b)))
      (rw h.first_same.size at found)
