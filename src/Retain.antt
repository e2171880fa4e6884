-- ===== src/Retain.antt =====
-- `RetainingWriter` of research/replica_recall/run_experiment.py: the corpus that grows while
-- snapshots of it are read. The arrays are kept in a store, since a snapshot shares the writer's
-- array, ids and row index.
pub mod Stores
pub mod Stable
pub mod Tests
use nano_db.Common.{
  ℕ, zero, suc, ◌+◌, ◌-◌, ◌*◌, max, List, [], ◌∷◌, ◌++◌, Bool, if◌then◌else◌, length, leb, eqb,
  take, replicate, get_or, set, Key, ◌==◌, Option, none, some,
}
use nano_db.Search.{Vector, Matrix, Corpus}

module _ {A : Type 0} ⦃e : Key A⦄ where
  -- `d[key] = v`.
  unfoldable pub put : {V : Type 0} → A → V → List (A × V) → List (A × V)
  put a v [] = (a, v) ∷ []
  put a v ((b, w) ∷ d) = let rest = put a v d in if a == b then (b, v) ∷ d else (b, w) ∷ rest

-- The state of the writer: the store of arrays, the address of the current one, the shared list
-- of ids and row index, the row count, and the times of the confirmations.
pub record Writer (A : Type 0) : Type 0 where
  pub store : List Matrix
  pub corpus_mat : ℕ
  pub corpus_ids : List A
  pub corpus_row : List (A × ℕ)
  pub corpus_n : ℕ
  pub vector_of : List (A × Vector)
  pub confirmed_at : List (A × ℕ)

unfoldable pub array_at : List Matrix → ℕ → Matrix
array_at store i = get_or store i []

-- The Corpus that a snapshot holds: the address of the array, and the row count. Its ids and row
-- index are the writer's own.
pub record Snapshot : Type 0 where
  pub mat : ℕ
  pub n : ℕ

module _ {A : Type 0} ⦃e : Key A⦄ (junk : Vector) where
  -- `np.empty` leaves the rows beyond the copied ones unset: `junk`.
  unfoldable pub grow : Writer A → Writer A
  unfolding array_at
  grow w =
      let mat = array_at (w.store) (w.corpus_mat) in
      let new_cap = max 1024 (length mat * 2) in
      let grown = take (w.corpus_n) mat ++ replicate (new_cap - w.corpus_n) junk in
      record w { store = w.store ++ grown ∷ []; corpus_mat = length (w.store) }

  unfoldable pub write_row : A → Vector → Writer A → Writer A
  unfolding array_at put
  write_row vid vec w = record w {
    store = set (w.store) (w.corpus_mat) (set (array_at (w.store) (w.corpus_mat)) (w.corpus_n) vec);
    corpus_row = put vid (w.corpus_n) (w.corpus_row);
    corpus_ids = w.corpus_ids ++ vid ∷ [];
    corpus_n = w.corpus_n + 1;
  }

  -- `_append_corpus`.
  unfoldable pub append_corpus : A → Vector → Writer A → Writer A
  unfolding grow write_row array_at
  append_corpus vid vec w =
      if eqb (w.corpus_n) (length (array_at (w.store) (w.corpus_mat)))
      then write_row vid vec (grow w)
      else write_row vid vec w

  -- A confirmed write in `loop`.
  unfoldable pub confirm : A → Vector → ℕ → Writer A → Writer A
  unfolding append_corpus put
  confirm vid vec now w =
      let dated : Writer A = record w {
        vector_of = put vid vec w.vector_of;
        confirmed_at = put vid now w.confirmed_at;
      } in
      append_corpus vid vec dated

  unfoldable pub confirm_all : List (A × (Vector × ℕ)) → Writer A → Writer A
  unfolding confirm
  confirm_all [] w = w
  confirm_all ((vid, (vec, now)) ∷ writes) w = confirm_all writes (confirm vid vec now w)

module _ {A : Type 0} where
  -- `snapshot_corpus`.
  unfoldable pub snapshot_corpus : Writer A → Snapshot
  snapshot_corpus w = record { mat = w.corpus_mat; n = w.corpus_n }

  -- What a reader of the snapshot sees when the writer has come to w.
  unfoldable pub view : Writer A → Snapshot → Corpus A
  unfolding array_at
  view w s = record {
    ids = w.corpus_ids;
    mat = array_at (w.store) (s.mat);
    row_of = w.corpus_row;
    n = s.n;
  }

  -- `intended_set`: the ids confirmed up to the cutoff.
  unfoldable pub intended_set : ℕ → List (A × ℕ) → List A
  intended_set cutoff [] = []
  intended_set cutoff ((i, t) ∷ d) =
      let rest = intended_set cutoff d in if leb t cutoff then i ∷ rest else rest
