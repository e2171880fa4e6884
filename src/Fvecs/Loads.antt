-- ===== src/Fvecs/Loads.antt =====
-- `load` of research/replica_recall/sift.py against a mirror that serves two fvecs files.
use nano_db.Common.{
  ℕ, ◌*◌, ◌<◌, ◌^◌, ◌≡◌, refl, ap, sym, ◌∙◌, List, [], ◌∷◌, ◌++◌, true, false, Option, none, some,
  length, arith, All, append-nil, append_assoc,
}
use nano_db.Index.{Bytes}
use nano_db.Fvecs.Fetch.{
  Cache, Reply, answer, cached, wrote, size_of, is_enough, has_range, is_complete, copy_chunks,
  commit, download, ensure, fetch, load, Files, arrays, scaled,
}
use nano_db.Fvecs.{record_bytes, read_fvecs}
use nano_db.Common.Frac.{mul_pos, ok}
use nano_db.Fvecs.Records.{length-fvecs}
use nano_db.Fvecs.Parse.{read_fvecs-fvecs}
use nano_db.Fvecs.Words.{fvecs, IsVector}

abbrev pub joined : List Bytes → Bytes
joined [] = []
joined (chunk ∷ chunks) = chunk ++ joined chunks

-- A mirror's answer: the content in chunks, none of them empty, with the status.
pub record Serves (status : ℕ) (raw : Bytes) (reply : Reply) : Type 0 where
  pub chunks : List Bytes
  pub is_answer : reply ≡ answer status chunks false
  pub none_empty : All (λ (c : Bytes). 0 < length c) chunks
  pub content_eq : joined chunks ≡ raw

copy_chunks-joined :
    (out : Bytes) (chunks : List Bytes)
    → All (λ (c : Bytes). 0 < length c) chunks
    → copy_chunks out chunks false ≡ (out ++ joined chunks, false)
unfolding copy_chunks
copy_chunks-joined out [] h = ap (λ x. (x, false)) (sym (append-nil out))
copy_chunks-joined out ([] ∷ chunks) h = absurd (omega (arith, h.0))
copy_chunks-joined out ((b ∷ chunk) ∷ chunks) h =
    copy_chunks-joined (out ++ (b ∷ chunk)) chunks h.1
    ∙ ap (λ x. (x, false)) (append_assoc out (b ∷ chunk) (joined chunks))

copy_chunks-Serves :
    {status : ℕ} {raw : Bytes} {reply : Reply} (s : Serves status raw reply)
    → copy_chunks [] s.chunks false ≡ (raw, false)
copy_chunks-Serves s =
    copy_chunks-joined [] s.chunks s.none_empty ∙ ap (λ x. (x, false)) s.content_eq

-- With nothing cached, what the mirror serves in full is what is cached.
ensure-Serves :
    (want : Option ℕ) (status : ℕ) (raw : Bytes) (reply : Reply) (c : Cache)
    → size_of c.path ≡ 0
    → has_range status want ≡ true
    → is_complete (length raw) want ≡ true
    → Serves status raw reply
    → ensure want reply c ≡ (record { path = some raw; tmp = none }, wrote)
unfolding ensure download commit
ensure-Serves want status raw reply c miss range full s =
    rw (miss, s.is_answer, range, copy_chunks-Serves s, full) refl

ensure_hit :
    (want : Option ℕ) (reply : Reply) (c : Cache)
    → 0 < size_of c.path
    → is_enough (size_of c.path) want ≡ true
    → ensure want reply c ≡ (c, cached)
unfolding ensure
ensure_hit want reply c h enough = ground arith

-- The cache that holds both files.
abbrev pub warm : ℕ → List (List ℕ) → List (List ℕ) → Files
warm dim base queries = record {
  base = record { path = some (fvecs dim base); tmp = none };
  query = record { path = some (fvecs dim queries); tmp = none };
}

module _ (scale : ℕ → ℕ) (dim : ℕ) (base queries : List (List ℕ)) (base_reply query_reply : Reply)
    (small : dim < 2 ^ 31) (base_full : 0 < length base) (query_full : 0 < length queries)
    (base_vectors : All (IsVector dim) base) (query_vectors : All (IsVector dim) queries) where
  load_of_fetch :
      (b q : Reply) (files : Files)
      → fetch (length base) dim b q files ≡ ((warm dim base queries), true)
      → load scale (length base) dim b q files
        ≡ (warm dim base queries, arrays (scaled scale base) (scaled scale queries))
  unfolding load
  load_of_fetch b q files e =
      rw (e, prefix_read, (read_fvecs-fvecs dim queries small query_full query_vectors).0) refl
    where
      prefix_read : read_fvecs (fvecs dim base) (some (length base)) dim ≡ ok base
      prefix_read =
          ap (λ raw. read_fvecs raw (some (length base)) dim) (sym (append-nil (fvecs dim base)))
          ∙ (read_fvecs-fvecs dim base small base_full base_vectors).1 []

  base_size : length (fvecs dim base) ≡ length base * record_bytes dim
  base_size = length-fvecs dim base base_vectors

  fetch-warm :
      (b q : Reply)
      → fetch (length base) dim b q (warm dim base queries) ≡ ((warm dim base queries), true)
  unfolding fetch
  fetch-warm b q =
      rw
        (
          ensure_hit (some (length base * record_bytes dim)) b (warm dim base queries).base
              (rw base_size (mul_pos (length base) (record_bytes dim) base_full (omega arith)))
              (ground (arith, base_size)),
          ensure_hit none q (warm dim base queries).query
              (rw (length-fvecs dim queries query_vectors)
                (mul_pos (length queries) (record_bytes dim) query_full (omega arith)))
              refl,
        )
        refl

  fetch-cold :
      (files : Files)
      → size_of files.base.path ≡ 0
      → size_of files.query.path ≡ 0
      → Serves 206 (fvecs dim base) base_reply
      → Serves 200 (fvecs dim queries) query_reply
      → fetch (length base) dim base_reply query_reply files ≡ ((warm dim base queries), true)
  unfolding fetch
  fetch-cold files cold_base cold_query sb sq =
      rw
        (
          ensure-Serves (some (length base * record_bytes dim)) 206 (fvecs dim base) base_reply
              files.base cold_base refl (ground (arith, base_size)) sb,
          ensure-Serves none 200 (fvecs dim queries) query_reply files.query cold_query refl refl
              sq,
        )
        refl

  -- With an empty cache, a mirror that serves the first n_base records of a base file on a range
  -- request and a whole query file: load returns exactly their vectors, scaled, and caches the bytes
  -- it was served. A second load returns the same and changes no file, whatever a mirror answers.
  pub load_lem :
      (files : Files)
      → size_of files.base.path ≡ 0
      → size_of files.query.path ≡ 0
      → Serves 206 (fvecs dim base) base_reply
      → Serves 200 (fvecs dim queries) query_reply
      → (load scale (length base) dim base_reply query_reply files
          ≡ (warm dim base queries, arrays (scaled scale base) (scaled scale queries)))
        × ((b q : Reply)
            → load scale (length base) dim b q (warm dim base queries)
              ≡ (warm dim base queries, arrays (scaled scale base) (scaled scale queries)))
  load_lem files cold_base cold_query sb sq = (
    load_of_fetch base_reply query_reply files (fetch-cold files cold_base cold_query sb sq),
    λ b q. load_of_fetch b q (warm dim base queries) (fetch-warm b q),
  )
