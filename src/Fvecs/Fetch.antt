-- ===== src/Fvecs/Fetch.antt =====
-- research/replica_recall/sift.py, `_ensure`, `fetch` and `load`: the two cached files, each beside
-- its `.part`. What the mirror answers is an argument.
use nano_db.Common.{
  ℕ, ◌*◌, List, [], ◌∷◌, ◌++◌, Bool, true, false, not, ◌&&◌, Option, none, some, if◌then◌else◌,
  length, leb, eqb, is_empty, map,
}
use nano_db.Common.Frac.{Result, ok, raise}
use nano_db.Index.{Bytes}
use nano_db.Fvecs.{record_bytes, read_fvecs}

-- `path` and `path + ".part"`: absent, or with a content.
pub record Cache : Type 0 where
  pub path : Option Bytes
  pub tmp : Option Bytes

-- What comes of a request: `urlopen` raises, or it answers with a status and chunks; `broken` says
-- that the read behind the last chunk raises (a timeout, a Ctrl-C) where it could end the stream.
pub data Reply : Type 0 where
  refused : Reply
  answer : ℕ → List Bytes → Bool → Reply

-- How `_ensure` ends: it returns with the file cached or written, or it raises.
pub data Outcome : Type 0 where
  cached wrote failed : Outcome

abbrev pub size_of : Option Bytes → ℕ
size_of none = 0
size_of (some raw) = length raw

abbrev pub is_enough : ℕ → Option ℕ → Bool
is_enough n none = true
is_enough n (some want) = leb want n

abbrev pub has_range : ℕ → Option ℕ → Bool
has_range status none = true
has_range status (some want) = eqb status 206

abbrev pub is_complete : ℕ → Option ℕ → Bool
is_complete got none = true
is_complete got (some want) = eqb got want

-- The loop that copies chunks to the open file; an empty chunk ends it. The flag says whether the
-- read after the chunks so far has raised.
unfoldable pub copy_chunks : Bytes → List Bytes → Bool → Bytes × Bool
copy_chunks out [] broken = (out, broken)
copy_chunks out (chunk ∷ chunks) broken =
    let rest = copy_chunks (out ++ chunk) chunks broken in
    if is_empty chunk then (out, false) else rest

-- The except branch: the partial file is removed.
abbrev pub clean_up : Cache → Cache × Outcome
clean_up c = (record c { tmp = none }, failed)

-- `os.replace(tmp, path)` behind the size check.
unfoldable pub commit : Option ℕ → Cache → Cache × Outcome
commit want c =
    if is_complete (size_of c.tmp) want
    then (record { path = c.tmp; tmp = none }, wrote)
    else clean_up c

unfoldable pub download : Option ℕ → Reply → Cache → Cache × Outcome
unfolding commit copy_chunks
download want refused c = clean_up c
download want (answer status chunks broken) c =
    let copied = copy_chunks [] chunks broken in
    let c' : Cache = record c { tmp = some copied.0 } in
    if not (has_range status want)
    then clean_up c
    else (if copied.1 then clean_up c' else commit want c')

unfoldable pub ensure : Option ℕ → Reply → Cache → Cache × Outcome
unfolding download
ensure want reply c =
    let have = size_of c.path in
    if not (eqb have 0) && is_enough have want then (c, cached) else download want reply c

-- The cache directory.
pub record Files : Type 0 where
  pub base : Cache
  pub query : Cache

abbrev pub is_failed : Outcome → Bool
is_failed failed = true
is_failed _ = false

-- The base prefix, then the whole query set; the flag says whether both are there.
unfoldable pub fetch : ℕ → ℕ → Reply → Reply → Files → Files × Bool
unfolding ensure
fetch n_base dim base_reply query_reply files =
    let b = ensure (some (n_base * record_bytes dim)) base_reply files.base in
    let q = ensure none query_reply files.query in
    if is_failed b.1
    then (record files { base = b.0 }, false)
    else (record { base = b.0; query = q.0 }, not (is_failed q.1))

-- What `load` raises: what the fetch raised, or the reader's ValueError.
pub data LoadOutcome : Type 0 where
  not_fetched malformed : LoadOutcome
  arrays : List (List ℕ) → List (List ℕ) → LoadOutcome

abbrev pub content : Option Bytes → Bytes
content none = []
content (some raw) = raw

abbrev pub scaled : (ℕ → ℕ) → List (List ℕ) → List (List ℕ)
scaled f = map (map f)

abbrev pub read_both : (ℕ → ℕ) → Result (List (List ℕ)) → Result (List (List ℕ)) → LoadOutcome
read_both f (raise _) q = malformed
read_both f (ok b) (raise _) = malformed
read_both f (ok b) (ok q) = arrays (scaled f b) (scaled f q)

-- `scale` is the product with the scale on float32 patterns.
unfoldable pub load : (ℕ → ℕ) → ℕ → ℕ → Reply → Reply → Files → Files × LoadOutcome
unfolding fetch read_fvecs
load scale n_base dim base_reply query_reply files =
    let r = fetch n_base dim base_reply query_reply files in
    if not r.1 then (r.0, not_fetched) else (
      r.0,
      read_both scale (read_fvecs (content r.0.base.path) (some n_base) dim)
          (read_fvecs (content r.0.query.path) none dim),
    )
