-- ===== src/Metrics/Replicas.antt =====
-- The agreement of the replicas of a shard (research/replica_recall/metrics.py).
use nano_db.Common.{
  ℕ, ◌≡◌, ◌<◌, ◌≤◌, ◌⊎◌, ◌&&◌, ◌↔◌, ◌∙◌, refl, ap, sym, subst, List, [], ◌∷◌, ◌++◌, map, true, not,
  inl, inr, arith, Key, Ord, ◌==◌, length, ltb, Bool-cases, All, zip,
}
use nano_db.Common.Sets.{
  contains, select, IsSubset, IsUnique, eq_refl, contains-select, select-IsUnique,
}
use nano_db.Common.Sort.{sort, contains-sort, length-sort, sort-IsUnique}
use nano_db.Common.Frac.{Frac, Float, nan, ok, IsProportion, IsScore, IsOne, mean, mean-IsScore}
use nano_db.Metrics.{
  zip_scores, get_item, keys, Observations, pair_scores, scores_with, all_pairs, pairwise_agreement,
  leave_each_out, leave_one_out_agreement,
}
use nano_db.Metrics.Agreement.{SameTop, zip_scores_lem, zip_scores-swap, get_item_lem}

All-append {ℓ κ} :
    {A : Type ℓ} (P : A → Type κ) (xs ys : List A) → All P xs → All P ys → All P (xs ++ ys)
All-append P [] ys h k = k
All-append P (x ∷ xs) ys h k = (h.0, All-append P xs ys h.1 k)

keys-map : {N : Type 0} {V : Type 0} (v : V) (ns : List N) → keys (map (λ n. (n, v)) ns) ≡ ns
keys-map v [] = refl
keys-map v (n ∷ ns) = ap (λ t. n ∷ t) (keys-map v ns)

module _ {ℓ} {N : Type 0} {A : Type ℓ} ⦃n_eq : Key N⦄ ⦃n_ord : Ord N⦄ ⦃a_eq : Key A⦄
    (obs : Observations N A) (k : ℕ) where
  -- The name is a key of the dict.
  abbrev Known : N → Type 0
  Known n = contains n (keys obs) ≡ true

  -- The answers of two replicas of the dict have a list of scores, which are proportions and are
  -- all 1 exactly if the two replicas agree on every query that both answered.
  pub pair_scores_lem :
      (n m : N)
      → Known n
      → Known m
      → (xs ys : List (List A)) × (scores : List Frac) × (get_item obs n ≡ ok xs)
        × (get_item obs m ≡ ok ys)
        × (pair_scores obs k n m ≡ ok scores)
        × All IsProportion scores
        × (All IsOne scores ↔ All (λ p. SameTop k p.0 p.1) (zip xs ys))
  unfolding pair_scores
  pair_scores_lem n m hn hm =
      let (xs, ex) = get_item_lem obs n hn in
      let (ys, ey) = get_item_lem obs m hm in
      let (scores, es, fine, iff) = zip_scores_lem k (zip xs ys) in
      (xs, ys, scores, ex, ey, rw (ex, ey) es, fine, iff)

  pair_scores-eq :
      (n m : N) (xs ys : List (List A))
      → get_item obs n ≡ ok xs
      → get_item obs m ≡ ok ys
      → pair_scores obs k n m ≡ zip_scores k (zip xs ys)
  unfolding pair_scores
  pair_scores-eq n m xs ys ex ey = rw (ex, ey)

  -- A pair of replicas has the same scores in either order, so with two replicas both would get
  -- the same leave-one-out score and neither could be singled out.
  pub pair_scores_comm :
      (n m : N) → Known n → Known m → pair_scores obs k n m ≡ pair_scores obs k m n
  pair_scores_comm n m hn hm =
      let (xs, ex) = get_item_lem obs n hn in
      let (ys, ey) = get_item_lem obs m hm in
      pair_scores-eq n m xs ys ex ey
      ∙ zip_scores-swap k xs ys
      ∙ sym (pair_scores-eq m n ys xs ey ex)

  scores_with_lem :
      (n : N) (ms : List N)
      → Known n
      → IsSubset ms (keys obs)
      → (scores : List Frac) × (scores_with obs k n ms ≡ ok scores) × All IsProportion scores
  unfolding scores_with
  scores_with_lem n [] hn hs = ([], refl, tt)
  scores_with_lem n (m ∷ ms) hn hs =
      let hm : Known m = hs m (ground (arith, eq_refl m)) in
      let (_, _, here, _, _, e_here, fine, _) = pair_scores_lem n m hn hm in
      let (rest, e_rest, good) = scores_with_lem n ms hn (λ x h. hs x (ground arith)) in
      (here ++ rest, rw (e_here, e_rest), All-append IsProportion here rest fine good)

  all_pairs_lem :
      (ns : List N)
      → IsSubset ns (keys obs)
      → (scores : List Frac) × (all_pairs obs k ns ≡ ok scores) × All IsProportion scores
  unfolding all_pairs
  all_pairs_lem [] hs = ([], refl, tt)
  all_pairs_lem (n ∷ ns) hs =
      let hn : Known n = hs n (ground (arith, eq_refl n)) in
      let later : IsSubset ns (keys obs) = λ x h. hs x (ground arith) in
      let (here, e_here, fine) = scores_with_lem n ns hn later in
      let (rest, e_rest, good) = all_pairs_lem ns later in
      (here ++ rest, rw (e_here, e_rest), All-append IsProportion here rest fine good)

  names-subset : IsSubset (sort n_ord.le (keys obs)) (keys obs)
  names-subset x h = sym (contains-sort n_ord.le x (keys obs)) ∙ h

  -- The shard-level agreement raises no exception, and it is NaN or lies in [0, 1].
  pub pairwise_agreement_lem : (f : Float) × (pairwise_agreement obs k ≡ ok f) × IsScore f
  unfolding pairwise_agreement
  pairwise_agreement_lem =
      let names = sort n_ord.le (keys obs) in
      elim (Bool-cases (ltb (length names) 2)) [
        | inl few ↦ (nan, rw few, tt)
        | inr enough ↦
            let (scores, e, fine) = all_pairs_lem names names-subset in
            (mean scores, rw (enough, e), mean-IsScore scores fine)
      ]

  -- The scores of `n` with each of `peers`, in their order: those of the answers that both replicas
  -- gave, proportions that are all 1 exactly if the two agree on every query.
  pub data ArePooled (n : N) : List N → List Frac → Type ℓ where
    pooled_none : ArePooled n [] []
    pooled :
        (m : N) (peers : List N) (xs ys : List (List A)) (here rest : List Frac)
        → get_item obs n ≡ ok xs
        → get_item obs m ≡ ok ys
        → zip_scores k (zip xs ys) ≡ ok here
        → All IsProportion here
        → (All IsOne here ↔ All (λ p. SameTop k p.0 p.1) (zip xs ys))
        → ArePooled n peers rest
        → ArePooled n (m ∷ peers) (here ++ rest)

  -- The signal of one replica: the mean of its scores with every other replica, itself left out.
  pub record IsLeaveOneOut (n : N) (f : Float) : Type ℓ where
    pub peers : List N
    pub scores : List Frac
    pub others : (m : N) → contains m peers ≡ (contains m (keys obs) && not (m == n))
    pub no_repetition : IsUnique (keys obs) → IsUnique peers
    pub are_pooled : ArePooled n peers scores
    pub is_mean : f ≡ mean scores
    pub in_range : IsScore f

  scores_with-ArePooled :
      (n : N) (ms : List N)
      → Known n
      → IsSubset ms (keys obs)
      → (scores : List Frac) × (scores_with obs k n ms ≡ ok scores)
        × All IsProportion scores
        × ArePooled n ms scores
  unfolding scores_with
  scores_with-ArePooled n [] hn hs = ([], refl, tt, pooled_none)
  scores_with-ArePooled n (m ∷ ms) hn hs =
      let hm : Known m = hs m (ground (arith, eq_refl m)) in
      let (xs, ys, here, ex, ey, e_here, fine, iff) = pair_scores_lem n m hn hm in
      let (rest, e_rest, good, more) = scores_with-ArePooled n ms hn (λ x h. hs x (ground arith)) in
      (
        here ++ rest,
        rw (e_here, e_rest),
        All-append IsProportion here rest fine good,
        pooled m ms xs ys here rest ex ey (sym (pair_scores-eq n m xs ys ex ey) ∙ e_here) fine iff
            more,
      )

  abbrev sorted_names : List N
  sorted_names = sort n_ord.le (keys obs)

  leave_one-IsLeaveOneOut :
      (n : N)
      → Known n
      → (scores : List Frac) × (scores_with obs k n (select (λ m. not (m == n)) sorted_names)
          ≡ ok scores)
        × IsLeaveOneOut n (mean scores)
  leave_one-IsLeaveOneOut n known =
      let other = λ (m : N). not (m == n) in
      let peers = select other sorted_names in
      let (scores, e, fine, all_pooled) =
        scores_with-ArePooled n peers known
          (λ x h. names-subset x (ground (arith, contains-select x other sorted_names))) in
      (
        scores,
        e,
        record {
          peers = peers;
          scores = scores;
          others = λ m.
              ground
                (arith, contains-select m other sorted_names, contains-sort n_ord.le m (keys obs));
          no_repetition =
              λ u. select-IsUnique other sorted_names (sort-IsUnique n_ord.le (keys obs) u);
          are_pooled = all_pooled;
          is_mean = refl;
          in_range = mean-IsScore scores fine;
        },
      )

  leave_each_out_lem :
      (ns : List N)
      → IsSubset ns (keys obs)
      → (out : List (N × Float)) × (leave_each_out obs k sorted_names ns ≡ ok out)
        × (keys out ≡ ns)
        × All (λ p. IsLeaveOneOut p.0 p.1) out
  unfolding leave_each_out
  leave_each_out_lem [] hn = ([], refl, refl, tt)
  leave_each_out_lem (n ∷ ns) hn =
      let known : Known n = hn n (ground (arith, eq_refl n)) in
      let (scores, e, one) = leave_one-IsLeaveOneOut n known in
      let (rest, e_rest, named, good) = leave_each_out_lem ns (λ x h. hn x (ground arith)) in
      ((n, mean scores) ∷ rest, rw (e, e_rest), ap (λ t. n ∷ t) named, (one, good))

  All-nan : (ns : List N) → All (λ (p : N × Float). p.1 ≡ nan) (map (λ n. (n, nan)) ns)
  All-nan [] = tt
  All-nan (n ∷ ns) = (refl, All-nan ns)

  -- The leave-one-out signal raises no exception and has one entry for each replica, in the order of
  -- the names. With fewer than three replicas each entry is NaN. With three or more, each is the
  -- mean of the scores of that replica with all the other replicas and not with itself, which is
  -- NaN or lies in [0, 1]; the scores with one peer are all 1 exactly if the two agree on every
  -- query that both answered.
  pub leave_one_out_agreement_lem :
      (out : List (N × Float)) × (leave_one_out_agreement obs k ≡ ok out)
      × (keys out ≡ sort n_ord.le (keys obs))
      × (((length (keys obs) < 3) × All (λ p. p.1 ≡ nan) out)
          ⊎ ((3 ≤ length (keys obs)) × All (λ p. IsLeaveOneOut p.0 p.1) out))
  unfolding leave_one_out_agreement
  leave_one_out_agreement_lem =
      let same_length = length-sort n_ord.le (keys obs) in
      elim (Bool-cases (ltb (length sorted_names) 3)) [
        | inl few ↦ (
          map (λ n. (n, nan)) sorted_names,
          rw few,
          keys-map nan sorted_names,
          inl (ground (arith, same_length, few), All-nan sorted_names),
        )
        | inr enough ↦
            let (out, e, named, good) = leave_each_out_lem sorted_names names-subset in
            (out, rw enough e, named, inr (ground (arith, same_length, enough), good))
      ]

  All-IsScore-nan : (out : List (N × Float)) → All (λ p. p.1 ≡ nan) out → All (λ p. IsScore p.1) out
  All-IsScore-nan [] h = tt
  All-IsScore-nan (p ∷ out) h = (subst IsScore (sym h.0) tt, All-IsScore-nan out h.1)

  All-IsScore-IsLeaveOneOut :
      (out : List (N × Float)) → All (λ p. IsLeaveOneOut p.0 p.1) out → All (λ p. IsScore p.1) out
  All-IsScore-IsLeaveOneOut [] h = tt
  All-IsScore-IsLeaveOneOut (p ∷ out) h = (h.0.in_range, All-IsScore-IsLeaveOneOut out h.1)

  -- Each entry of the signal is NaN or lies in [0, 1].
  pub leave_one_out_agreement-IsScore :
      (out : List (N × Float)) × (leave_one_out_agreement obs k ≡ ok out)
      × All (λ p. IsScore p.1) out
  leave_one_out_agreement-IsScore =
      let (out, e, named, cases) = leave_one_out_agreement_lem in
      (
        out,
        e,
        elim cases [
          | inl few ↦ All-IsScore-nan out few.1
          | inr enough ↦ All-IsScore-IsLeaveOneOut out enough.1
        ],
      )
