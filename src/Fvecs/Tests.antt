-- ===== src/Fvecs/Tests.antt =====
-- Two small fvecs files, the reader and the cache on them.
use nano_db.Common.{
  ◌/◌, ◌≡◌, ◌⊎◌, refl, ℕ, List, [], ◌∷◌, ◌++◌, none, some, arith, All, false, true, take,
}
use nano_db.Common.Frac.{ok, raise, value_error}
use nano_db.Index.{Bytes, i4, u4, u4s}
use nano_db.Fvecs.{record_bytes, read_bytes, wanted, read_fvecs, parse_buffer, read_records}
use nano_db.Fvecs.Words.{fvecs, IsVector}
use nano_db.Fvecs.Parse.{IsFile, read_fvecs-fvecs, read_fvecs_lem}
use nano_db.Fvecs.Fetch.{
  Cache, Reply, answer, failed, ensure, Files, load, arrays, scaled, download,
}
use nano_db.Fvecs.Cached.{IsEnsured, ensure_lem}
use nano_db.Fvecs.Loads.{warm, load_lem}

abbrev base : List (List ℕ)
base = (1 ∷ 1000 ∷ []) ∷ (0x3f800000 ∷ 7 ∷ []) ∷ []

abbrev queries : List (List ℕ)
queries = (5 ∷ 6 ∷ []) ∷ []

abbrev base_vectors : All (IsVector 2) base
base_vectors = (
  record { dims = refl; in_range = (omega arith, (omega arith, tt)) },
  (record { dims = refl; in_range = (omega arith, (omega arith, tt)) }, tt),
)

abbrev query_vectors : All (IsVector 2) queries
query_vectors = (record { dims = refl; in_range = (omega arith, (omega arith, tt)) }, tt)

reads_back : read_fvecs (fvecs 2 base) none 2 ≡ ok base
unfolding read_fvecs parse_buffer read_records i4 u4 u4s
reads_back = refl

refuses_partial : read_fvecs (take 23 (fvecs 2 base)) none 2 ≡ raise value_error
unfolding read_fvecs parse_buffer
refuses_partial = refl

refuses_dimension : read_fvecs (fvecs 2 base) none 5 ≡ raise value_error
unfolding read_fvecs parse_buffer read_records i4 u4 u4s
refuses_dimension = refl

abbrev cold : Cache
cold = record { path = none; tmp = none }

-- A mirror that ignores the range request leaves the cache as it was.
refuses_whole_file :
    ensure (some 24) (answer 200 ((1 ∷ []) ∷ []) false) cold ≡ (record cold { tmp = none }, failed)
unfolding ensure download
refuses_whole_file = refl

read_fvecs-fvecs_example :
    (read_fvecs (fvecs 2 base) none 2 ≡ ok base)
    × ((rest : Bytes) → read_fvecs (fvecs 2 base ++ rest) (some 2) 2 ≡ ok base)
read_fvecs-fvecs_example = read_fvecs-fvecs 2 base (omega arith) (omega arith) base_vectors

abbrev two_bytes : Bytes
two_bytes = 1 ∷ 255 ∷ []

read_fvecs_lem_example :
    (read_fvecs two_bytes (some 1) 2 ≡ raise value_error)
    ⊎ ((vs : List (List ℕ)) × (read_fvecs two_bytes (some 1) 2 ≡ ok vs)
        × IsFile 2 (some 1) (read_bytes two_bytes (wanted (some 1) (record_bytes 2))) vs)
read_fvecs_lem_example = read_fvecs_lem two_bytes (some 1) 2 (omega arith, (omega arith, tt))

abbrev cut_off : Reply
cut_off = answer 206 ((1 ∷ 2 ∷ []) ∷ []) true

ensure_lem_example : IsEnsured (some 24) cold (ensure (some 24) cut_off cold)
ensure_lem_example = ensure_lem (some 24) cut_off cold

abbrev base_reply : Reply
base_reply = answer 206 (fvecs 2 base ∷ []) false

abbrev query_reply : Reply
query_reply = answer 200 (fvecs 2 queries ∷ []) false

abbrev empty_cache : Files
empty_cache = record { base = cold; query = cold }

abbrev halve : ℕ → ℕ
halve x = x / 2

load_lem_example :
    (load halve 2 2 base_reply query_reply empty_cache
      ≡ (warm 2 base queries, arrays (scaled halve base) (scaled halve queries)))
    × ((b q : Reply)
        → load halve 2 2 b q (warm 2 base queries)
          ≡ (warm 2 base queries, arrays (scaled halve base) (scaled halve queries)))
load_lem_example =
    load_lem halve 2 base queries base_reply query_reply (omega arith) (omega arith) (omega arith)
      base_vectors query_vectors empty_cache refl refl
      (record {
        chunks = fvecs 2 base ∷ [];
        is_answer = refl;
        none_empty = (omega arith, tt);
        content_eq = refl;
      })
      (record {
        chunks = fvecs 2 queries ∷ [];
        is_answer = refl;
        none_empty = (omega arith, tt);
        content_eq = refl;
      })
