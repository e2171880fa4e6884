-- ===== src/Search/Tests.antt =====
-- Small inputs to the exact search, and the theorems about it at such inputs.
use nano_db.Common.{
  ℕ, ◌<◌, ◌≡◌, ◌↔◌, refl, subst, List, [], ◌∷◌, String, string_key, nat_key, none, some, inl,
  get_elem?, leb, true, map,
}
use nano_db.Common.Int.{pos, negsuc, ◌+ℤ◌, ◌-ℤ◌, ◌*ℤ◌}
use nano_db.Common.Sets.{contains}
use nano_db.Common.Sort.{sort, IsSorted}
use nano_db.Common.Frac.{ok, raise, value_error, IsScore}
use nano_db.Search.{
  Vector, Corpus, from_dict, enumerate_from, get_row, rows_for, known_rows, top_row,
  exact_topk_rows, l2_dist, dot, topk_by, fits_matmul, fits_rows, Scores, score_replica,
}
use nano_db.Search.Rows.{IsCorpus, rows_for_lem, from_dict-IsCorpus}
use nano_db.Search.TopK.{IsTopK, top_row-IsTopK}
use nano_db.Search.Batch.{IsSearched, exact_topk_rows_lem}
use nano_db.Search.Replica.{score_replica_lem}
use nano_db.Search.Sorting.{sorting, sorting-IsNumpy, index_sort}

abbrev cosine : String
cosine = "cosine"

abbrev at : ℕ → ℕ → Vector
at x y = pos x ∷ pos y ∷ []

abbrev vectors : List (ℕ × Vector)
vectors = (10, at 0 0) ∷ (20, at 3 4) ∷ (30, at 1 1) ∷ []

abbrev corpus : Corpus ℕ
corpus = record {
  ids = 10 ∷ 20 ∷ 30 ∷ [];
  mat = at 0 0 ∷ at 3 4 ∷ at 1 1 ∷ [];
  row_of = (10, 0) ∷ (20, 1) ∷ (30, 2) ∷ [];
  n = 3;
}

corpus-eq : from_dict vectors ≡ corpus
unfolding from_dict enumerate_from
corpus-eq = refl

corpus-IsCorpus : IsCorpus corpus
corpus-IsCorpus = subst IsCorpus corpus-eq (from_dict-IsCorpus vectors (refl, (refl, (refl, tt)))).0

rows_of_two : rows_for corpus (30 ∷ 77 ∷ 10 ∷ []) ≡ 0 ∷ 2 ∷ []
unfolding rows_for known_rows get_row sort
rows_of_two = refl

nearest_two : top_row sorting (map (l2_dist (at 1 1)) corpus.mat) 2 ≡ 2 ∷ 0 ∷ []
unfolding top_row index_sort l2_dist dot ◌+ℤ◌ ◌-ℤ◌ ◌*ℤ◌ sort
nearest_two = refl

rows_for_lem_example :
    IsSorted leb (rows_for corpus (30 ∷ 77 ∷ []))
    × ((r : ℕ)
        → (contains r (rows_for corpus (30 ∷ 77 ∷ [])) ≡ true) ↔ (
            (i : ℕ) × (contains i (30 ∷ 77 ∷ []) ≡ true)
            × (get_elem? corpus.ids r ≡ some i)
            × (r < 3)))
rows_for_lem_example = rows_for_lem corpus (30 ∷ 77 ∷ []) corpus-IsCorpus

top_row-IsTopK_example :
    IsTopK (pos 5 ∷ negsuc 2 ∷ pos 0 ∷ []) 2 (top_row sorting (pos 5 ∷ negsuc 2 ∷ pos 0 ∷ []) 2)
top_row-IsTopK_example = top_row-IsTopK sorting (pos 5 ∷ negsuc 2 ∷ pos 0 ∷ []) 2 sorting-IsNumpy

exact_topk_rows_lem_example :
    IsSearched
      (at 1 1 ∷ [])
      corpus.mat
      2
      "l2"
      (exact_topk_rows sorting (at 1 1 ∷ []) corpus.mat 2 "l2")
exact_topk_rows_lem_example =
    exact_topk_rows_lem sorting (at 1 1 ∷ []) corpus.mat 2 "l2" sorting-IsNumpy (λ p. cc)

-- A query of another dimension.
refuses_dim : exact_topk_rows sorting ((pos 1 ∷ []) ∷ []) corpus.mat 2 "ip" ≡ raise value_error
unfolding exact_topk_rows topk_by fits_matmul fits_rows
refuses_dim = refl

refuses_metric : exact_topk_rows sorting (at 1 1 ∷ []) corpus.mat 2 cosine ≡ raise value_error
unfolding exact_topk_rows
refuses_metric = refl

score_replica_lem_example :
    (s : Scores) × (score_replica sorting
        (at 1 1 ∷ [])
        ((30 ∷ 20 ∷ []) ∷ [])
        corpus
        2
        "l2"
        (30 ∷ 20 ∷ [])
        (10 ∷ 20 ∷ 30 ∷ [])
        none
      ≡ ok s)
    × IsScore s.index_recall
    × IsScore s.e2e_recall
    × IsScore s.completeness
score_replica_lem_example =
    score_replica_lem sorting (at 1 1 ∷ []) ((30 ∷ 20 ∷ []) ∷ []) corpus 1 "l2" (30 ∷ 20 ∷ [])
      (10 ∷ 20 ∷ 30 ∷ []) sorting-IsNumpy corpus-IsCorpus (inl refl)
      ((refl, (refl, (refl, tt))), tt) (refl, (refl, tt)) (refl, (refl, (refl, tt)))
