-- ===== src/Fvecs/Cached.antt =====
-- What `_ensure`, `fetch` and `load` of research/replica_recall/sift.py leave in the cache.
use nano_db.Common.{
  ℕ, ◌<◌, ◌≡◌, inl, inr, [], true, not, ◌&&◌, Option, none, some, length, eqb, Bool-cases, arith,
}
use nano_db.Index.{Bytes}
use nano_db.Fvecs.Fetch.{
  Cache, Reply, refused, answer, Outcome, cached, wrote, failed, size_of, is_enough, has_range,
  is_complete, copy_chunks, commit, download, ensure,
}

-- How a call of `_ensure` can leave the cache.
pub data IsEnsured (want : Option ℕ) (c : Cache) : Cache × Outcome → Type 0 where
  -- The file was there, large enough: nothing changes.
  hit : 0 < size_of c.path → is_enough (size_of c.path) want ≡ true → IsEnsured want c (c, cached)
  -- The file is replaced by a complete one, and no partial file is left.
  replaced :
      (raw : Bytes)
      → is_complete (length raw) want ≡ true
      → IsEnsured want c (record { path = some raw; tmp = none }, wrote)
  -- It raises: the file is as before, and no partial file is left.
  untouched : IsEnsured want c (record c { tmp = none }, failed)

commit-IsEnsured :
    (want : Option ℕ) (c : Cache) (raw : Bytes)
    → IsEnsured want c (commit want (record c { tmp = some raw }))
unfolding commit
commit-IsEnsured want c raw = elim (Bool-cases (is_complete (length raw) want)) [
  | inl full ↦ rw full (replaced raw full)
  | inr part ↦ rw part untouched
]

download-IsEnsured :
    (want : Option ℕ) (reply : Reply) (c : Cache) → IsEnsured want c (download want reply c)
unfolding download
download-IsEnsured want refused c = untouched
download-IsEnsured want (answer status chunks broken) c =
    let copied = copy_chunks [] chunks broken in
    elim (Bool-cases (has_range status want)) [
      | inr refuse ↦ rw refuse untouched
      | inl range ↦ elim (Bool-cases copied.1) [
        | inl cut ↦ rw (range, cut) untouched
        | inr whole ↦ rw (range, whole) (commit-IsEnsured want c copied.0)
      ]
    ]

-- However the mirror answers, _ensure finds a file that is large enough and changes nothing, or
-- replaces the file by one of exactly the wanted size, or raises and leaves the file as it was;
-- in the last two cases no partial file is left.
pub ensure_lem :
    (want : Option ℕ) (reply : Reply) (c : Cache) → IsEnsured want c (ensure want reply c)
unfolding ensure
ensure_lem want reply c =
    elim (Bool-cases (not (eqb (size_of c.path) 0) && is_enough (size_of c.path) want)) [
      | inl h ↦ rw h (hit (ground arith) (ground arith))
      | inr h ↦ rw h (download-IsEnsured want reply c)
    ]
