-- ===== src/Qdrant/Gate/Trim.antt =====
-- The short history that research/cross_system_replication/qdrant_index_gate.py keeps, against the
-- history of all polls.
use nano_db.Common.{
  ℕ, zero, suc, ◌+◌, ◌-◌, ◌≤◌, ◌<◌, ◌≡◌, refl, ap, ap₂, sym, ◌∙◌, List, [], ◌∷◌, ◌++◌, length, drop,
  ltb, max, arith, is_empty, length-append, length-drop, drop-drop, drop-append_le, Bool-cases, inl,
  inr, false,
}
use nano_db.Common.Frac.{Frac}
use nano_db.Qdrant.Gate.{Poll, last_n, last_poll, decide, is_clear, poll_min_fraction, polls_reason}
use nano_db.Qdrant.Gate.Wait.{trim}

module _ {A : Type 0} where
  last_n_short : (n : ℕ) (xs : List A) → length xs ≤ n → last_n n xs ≡ xs
  last_n_short n xs h = let e : length xs - n ≡ 0 = omega arith in ap (λ k. drop k xs) e

  last_n_twice :
      (n m : ℕ) (xs : List A) → n ≤ m → m ≤ length xs → last_n n (last_n m xs) ≡ last_n n xs
  last_n_twice n m xs h k =
      let e : length xs - m + (length (last_n m xs) - n) ≡ length xs - n =
        omega (arith, length-drop (length xs - m) xs) in
      drop-drop (length xs - m) (length (last_n m xs) - n) xs ∙ ap (λ i. drop i xs) e

  is_empty-drop : (k : ℕ) (xs : List A) → k < length xs → is_empty (drop k xs) ≡ false
  is_empty-drop k [] h = absurd (omega arith)
  is_empty-drop zero (x ∷ xs) h = refl
  is_empty-drop (suc k) (x ∷ xs) h = is_empty-drop k xs (omega arith)

last_poll-drop : (k : ℕ) (xs : List Poll) → k < length xs → last_poll (drop k xs) ≡ last_poll xs
last_poll-drop k [] h = absurd (omega arith)
last_poll-drop zero (x ∷ xs) h = refl
last_poll-drop (suc k) (x ∷ []) h = absurd (omega arith)
last_poll-drop (suc k) (x ∷ y ∷ xs) h = last_poll-drop k (y ∷ xs) (omega arith)

trim_short :
    (consecutive : ℕ) (h : List Poll) → length h ≤ max consecutive 3 → trim consecutive h ≡ h
trim_short consecutive h k = ground arith

trim_long :
    (consecutive : ℕ) (h : List Poll) → max consecutive 3 < length h → trim consecutive h ≡ drop 1 h
trim_long consecutive h k = ground arith

-- A round's trimming keeps the last polls.
pub trim-last_n :
    (consecutive : ℕ) (xs : List Poll) (p : Poll)
    → let m = max consecutive 3 in
      trim consecutive (last_n m xs ++ (p ∷ [])) ≡ last_n m (xs ++ (p ∷ []))
trim-last_n consecutive xs p =
    let m = max consecutive 3 in
    let size = length-append xs (p ∷ []) in
    elim (Bool-cases (ltb (length xs) m)) [
      | inl short ↦
          ap (λ h. trim consecutive (h ++ (p ∷ []))) (last_n_short m xs (ground arith))
          ∙ trim_short consecutive (xs ++ (p ∷ [])) (ground (arith, size))
          ∙ sym (last_n_short m (xs ++ (p ∷ [])) (ground (arith, size)))
      | inr long ↦
          let cut = length xs - m in
          let kept = drop cut xs in
          let e : cut + 1 ≡ length (xs ++ (p ∷ [])) - m = ground (arith, size) in
          trim_long consecutive (kept ++ (p ∷ []))
            (ground (arith, length-append kept (p ∷ []), length-drop cut xs))
          ∙ ap (drop 1) (sym (drop-append_le cut xs (p ∷ []) (omega arith)))
          ∙ drop-drop cut 1 (xs ++ (p ∷ []))
          ∙ ap (λ k. drop k (xs ++ (p ∷ []))) e
    ]

decide_eq :
    (a b : List Poll) (tol : Frac) (consecutive : ℕ)
    → 0 < length a
    → consecutive ≤ length a
    → 0 < length b
    → consecutive ≤ length b
    → last_poll a ≡ last_poll b
    → last_n consecutive a ≡ last_n consecutive b
    → decide a tol consecutive ≡ decide b tol consecutive
unfolding decide
decide_eq [] b tol consecutive ha ka hb kb p q = absurd (omega arith)
decide_eq (x ∷ a) [] tol consecutive ha ka hb kb p q = absurd (omega arith)
decide_eq (x ∷ a) (y ∷ b) tol consecutive ha ka hb kb p q =
    let ea : ltb (length (x ∷ a)) consecutive ≡ false = ground arith in
    let eb : ltb (length (y ∷ b)) consecutive ≡ false = ground arith in
    rw (ea, eb)
      (ap₂
        (λ least reason. record {
          closed = is_clear reason;
          min_fraction = poll_min_fraction least;
          reason = reason;
        })
        p (ap (polls_reason tol) q))

-- The decision depends only on the last polls.
pub decide-last_n :
    (history : List Poll) (tol : Frac) (consecutive m : ℕ)
    → 0 < consecutive
    → consecutive ≤ m
    → decide (last_n m history) tol consecutive ≡ decide history tol consecutive
decide-last_n history tol consecutive m h k = elim (Bool-cases (ltb m (length history))) [
  | inr short ↦ ap (λ xs. decide xs tol consecutive) (last_n_short m history (ground arith))
  | inl long ↦
      let cut = length history - m in
      let size = length-drop cut history in
      decide_eq (last_n m history) history tol consecutive (ground (arith, size))
        (ground (arith, size)) (ground arith) (ground arith)
        (last_poll-drop cut history (ground arith))
        (last_n_twice consecutive m history k (ground arith))
]
