-- ===== src/Metrics/Tests.antt =====
-- Small inputs to the scores, and the theorems about them at such inputs.
use nano_db.Common.{
  ℕ, ◌≡◌, ◌↔◌, refl, List, [], ◌∷◌, String, string_key, nat_key, nat_ord, take, All, length, ◌<◌,
  ◌≤◌, ◌⊎◌,
}
use nano_db.Common.Sets.{IsSubset}
use nano_db.Common.Sort.{sort}
use nano_db.Common.Frac.{Frac, Float, nan, ratio, ok, IsProportion, IsOne, mean, sum_frac}
use nano_db.Metrics.{
  recall_at_k, set_completeness, overlap, zip_scores, get_item, keys, Observations, pair_scores,
  scores_with, leave_each_out, leave_one_out_agreement,
}
use nano_db.Metrics.Recall.{recall_at_k_lem}
use nano_db.Metrics.Replicas.{IsLeaveOneOut, leave_one_out_agreement_lem}

abbrev frac : ℕ → ℕ → Frac
frac a b = record { num = a; den = b }

abbrev truth : List String
truth = "a" ∷ "b" ∷ "c" ∷ []

abbrev answer : List String
answer = "a" ∷ "x" ∷ "b" ∷ []

abbrev nothing : List String
nothing = []

recall_half : recall_at_k answer truth 2 ≡ ok (ratio (frac 1 2))
unfolding recall_at_k
recall_half = refl

recall_no_truth : recall_at_k answer nothing 2 ≡ ok nan
unfolding recall_at_k
recall_no_truth = refl

completeness_two_thirds : set_completeness answer truth ≡ ok (ratio (frac 2 3))
unfolding set_completeness
completeness_two_thirds = refl

-- Three replicas, of which the last one has lost an id.
abbrev sample : Observations ℕ ℕ
sample =
    (2, (1 ∷ 2 ∷ []) ∷ (3 ∷ 4 ∷ []) ∷ [])
    ∷ (0, (2 ∷ 1 ∷ []) ∷ (3 ∷ 4 ∷ []) ∷ [])
    ∷ (1, (1 ∷ 7 ∷ []) ∷ (3 ∷ 4 ∷ []) ∷ [])
    ∷ []

scores_0_1 : pair_scores sample 2 0 1 ≡ ok (frac 1 2 ∷ frac 2 2 ∷ [])
unfolding pair_scores get_item zip_scores overlap
scores_0_1 = refl

leave_one_out_sample :
    leave_one_out_agreement sample 2
    ≡ ok ((0, ratio (frac 56 64)) ∷ (1, ratio (frac 48 64)) ∷ (2, ratio (frac 56 64)) ∷ [])
unfolding leave_one_out_agreement leave_each_out scores_with pair_scores get_item zip_scores overlap
    sort mean sum_frac
leave_one_out_sample = refl

recall_at_k_lem_example :
    (q : Frac) × (recall_at_k answer truth 3 ≡ ok (ratio q))
    × IsProportion q
    × (IsOne q ↔ IsSubset (take 3 truth) (take 3 answer))
recall_at_k_lem_example = recall_at_k_lem answer "a" ("b" ∷ "c" ∷ []) 2

leave_one_out_agreement_lem_example :
    (out : List (ℕ × Float)) × (leave_one_out_agreement sample 2 ≡ ok out)
    × (keys out ≡ sort nat_ord.le (keys sample))
    × (((length (keys sample) < 3) × All (λ p. p.1 ≡ nan) out)
        ⊎ ((3 ≤ length (keys sample)) × All (λ p. IsLeaveOneOut sample 2 p.0 p.1) out))
leave_one_out_agreement_lem_example = leave_one_out_agreement_lem sample 2
