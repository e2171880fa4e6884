-- ===== src/Qdrant/Writer.antt =====
-- The writers of research/cross_system_replication/qdrant_run_experiment.py: several threads run
-- RetainingWriter.loop and share its counters and its corpus. A thread's turn goes from one of its
-- locked parts to the next; what the events, the vectors and the nodes give is an argument.
pub mod Added
pub mod Claimed
pub mod Handed
pub mod Tests
use nano_db.Common.{
  ℕ, zero, suc, ◌+◌, ◌-◌, min, List, [], ◌∷◌, map, Bool, true, false, Option, none, some,
  if◌then◌else◌, length, eqb, is_empty, get_elem?, set, replicate, nat_key, ◌||◌,
}
use nano_db.Search.{Vector}
use nano_db.Retain.{Writer, confirm_all}

-- Ids with their vectors. An id is a numeral, which the corpus keeps as text; here it is its number.
abbrev pub Batch : Type 0
Batch = List (ℕ × Vector)

unfoldable pub vid : ℕ → ℕ
vid i = 100000000 + i

-- Where a thread stands: at the head of its loop, with a batch made or counted, or returned.
pub data Phase : Type 0 where
  idle : Phase
  made : Batch → Phase
  sent : Batch → Phase
  returned : Phase

pub record Shared : Type 0 where
  pub next : ℕ
  pub exhausted : Bool
  pub attempted : ℕ
  pub failed : ℕ
  pub kept : Writer ℕ
  pub threads : List Phase

-- What a thread meets in its turn: the two events, the vectors that it draws, and the status of the
-- request with the time of the answer, or that it raises.
pub record Turn : Type 0 where
  pub thread : ℕ
  pub is_set : Bool
  pub paused : Bool
  pub draw : ℕ → Vector
  pub answer : Option (ℕ × ℕ)

-- How many ids a batch claims: the pool is the length of a finite corpus.
unfoldable pub claim_of : Option ℕ → ℕ → ℕ → ℕ
claim_of none n start = n
claim_of (some pool) n start = min n (pool - start)

unfoldable pub batch_from : (ℕ → Vector) → ℕ → ℕ → Batch
unfolding vid
batch_from draw start zero = []
batch_from draw start (suc n) = (vid start, draw start) ∷ batch_from draw (suc start) n

abbrev pub is_finite : Option ℕ → Bool
is_finite none = false
is_finite (some pool) = true

module _ (pool : Option ℕ) (batch_size : ℕ) where
  -- `_make_batch`: the batch, the next id, and whether a finite corpus is exhausted.
  unfoldable pub make_batch : (ℕ → Vector) → Shared → Shared × Batch
  unfolding claim_of batch_from
  make_batch draw w =
      let n = claim_of pool batch_size w.next in
      let claimed : Shared = record w { next = w.next + n } in
      if eqb n 0
      then (record claimed { exhausted = w.exhausted || is_finite pool }, [])
      else (claimed, batch_from draw w.next n)

  unfoldable pub begin : Turn → Shared → Shared × Phase
  unfolding make_batch
  begin turn w =
      let (w', batch) = make_batch turn.draw w in
      if turn.is_set
      then (w, returned)
      else (if turn.paused
          then (w, idle)
          else (if is_empty batch then (w', returned) else (w', made batch)))

abbrev pub dated : ℕ → Batch → List (ℕ × (Vector × ℕ))
dated t batch = map (λ p. (p.0, (p.1, t))) batch

-- The end of a request: a confirmed batch is kept under the time of the answer.
unfoldable pub finish : Vector → Option (ℕ × ℕ) → Batch → Shared → Shared
finish junk none batch w = record w { failed = w.failed + length batch }
finish junk (some (status, t)) batch w =
    if eqb status 200
    then record w { kept = confirm_all junk (dated t batch) w.kept }
    else record w { failed = w.failed + length batch }

module _ (junk : Vector) (pool : Option ℕ) (batch_size : ℕ) where
  -- A turn of `loop` in a phase, and the phase that it ends in.
  unfoldable pub advance : Turn → Phase → Shared → Shared × Phase
  unfolding begin finish
  advance turn idle w = begin pool batch_size turn w
  advance turn (made batch) w =
      let counted : Shared = record w { attempted = w.attempted + length batch } in
      (counted, sent batch)
  advance turn (sent batch) w = (finish junk turn.answer batch w, idle)
  advance turn returned w = (w, returned)

  unfoldable pub take_turn : Turn → Shared → Shared
  unfolding advance
  take_turn turn w = elim (get_elem? w.threads turn.thread) [
    | none ↦ w
    | some phase ↦
        let (w', after) = advance turn phase w in
        record w' { threads = set w.threads turn.thread after }
  ]

  unfoldable pub run_turns : List Turn → Shared → Shared
  unfolding take_turn
  run_turns [] w = w
  run_turns (turn ∷ turns) w = run_turns turns (take_turn turn w)

-- The writers before their first turn: an empty corpus, and so many threads.
unfoldable pub start_writers : ℕ → Shared
start_writers n = record {
  next = 0;
  exhausted = false;
  attempted = 0;
  failed = 0;
  kept = record {
    store = [] ∷ [];
    corpus_mat = 0;
    corpus_ids = [];
    corpus_row = [];
    corpus_n = 0;
    vector_of = [];
    confirmed_at = [];
  };
  threads = replicate n idle;
}
