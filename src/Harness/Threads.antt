-- ===== src/Harness/Threads.antt =====
-- The writers and the validator of chaos_harness.py side by side, as `main` runs them.
use nano_db.Common.{
  ℕ, ◌≤◌, ◌≡◌, refl, ◌∙◌, List, [], ◌∷◌, Bool, true, false, arith, Bool-cases, if◌then◌else◌, inl,
  inr,
}
use nano_db.Harness.Counters.{
  Reply, failure, response, Writers, Move, move, snapshot_confirmed, IsBalanced, open_requests,
  move_lem,
}
use nano_db.Harness.Validator.{Body, Watch, check_node, IsQuiet}
use nano_db.Harness.Validator.Alarm.{check_node_lem}

-- What the threads share, and where the validator stands: its snapshot, the coordinators that it
-- still has to ask in this round, and whether the question to the first of them is on its way.
pub record Threads : Type 0 where
  pub writers : Writers
  pub watch : Watch
  pub confirmed_before : ℕ
  pub pending : List ℕ
  pub asked : Bool

-- A step of a writer; of the validator, with what it sees of the stop event, up to its next question;
-- or the end of the request that is on its way.
pub data Tick : Type 0 where
  write : Move → Tick
  go_on : (stop : Bool) → Tick
  answer : (reply : Reply Body) → Tick

-- A round of `validator_loop` begins with the test and the snapshot; then each coordinator is
-- asked in turn.
unfoldable pub validator_step : List ℕ → Bool → List ℕ → Threads → Threads
unfolding snapshot_confirmed
validator_step node_ids stop [] t = if stop then t else record t {
  confirmed_before = snapshot_confirmed (t.writers.stats);
  pending = node_ids;
  asked = false;
}
validator_step node_ids stop (n ∷ ns) t = record t { asked = true }

-- The answer to a question that is on its way.
unfoldable pub take_answer : Reply Body → Bool → List ℕ → Threads → Threads
unfolding check_node
take_answer reply false pending t = t
take_answer reply true [] t = t
take_answer reply true (n ∷ ns) t = record t {
  watch = check_node (t.confirmed_before) n reply (t.watch);
  pending = ns;
  asked = false;
}

unfoldable pub tick : List ℕ → Tick → Threads → Threads
unfolding move validator_step take_answer
tick node_ids (write m) t = record t { writers = move m (t.writers) }
tick node_ids (go_on stop) t = if t.asked then t else validator_step node_ids stop (t.pending) t
tick node_ids (answer reply) t = take_answer reply (t.asked) (t.pending) t

unfoldable pub run_threads : List ℕ → List Tick → Threads → Threads
unfolding tick
run_threads node_ids [] t = t
run_threads node_ids (x ∷ ticks) t = run_threads node_ids ticks (tick node_ids x t)

-- How many writes were confirmed when the question on its way was sent; `sent` is that number before
-- the tick.
abbrev pub sent_after : Tick → Threads → ℕ → ℕ
sent_after (write m) t sent = sent
sent_after (go_on stop) t sent = if t.asked then sent else t.writers.stats.confirmed
sent_after (answer reply) t sent = sent

-- An answer is without objection against the writes that were confirmed when its question was sent.
abbrev pub IsFair : Tick → Bool → List ℕ → ℕ → Type 0
IsFair (write m) asked pending sent = Unit
IsFair (go_on stop) asked pending sent = Unit
IsFair (answer reply) false pending sent = Unit
IsFair (answer reply) true [] sent = Unit
IsFair (answer reply) true (n ∷ ns) sent = IsQuiet sent reply

-- Every answer of the run is.
abbrev pub AllFair : List ℕ → List Tick → Threads → ℕ → Type 0
AllFair node_ids [] t sent = Unit
AllFair node_ids (x ∷ ticks) t sent =
    IsFair x (t.asked) (t.pending) sent
    × AllFair node_ids ticks (tick node_ids x t) (sent_after x t sent)

-- The counters add up, and the snapshot is not ahead of them, nor of the writes that were confirmed
-- when the question on its way was sent.
pub record IsSettled (sent : ℕ) (t : Threads) : Type 0 where
  pub balanced : IsBalanced (open_requests (t.writers.positions)) (t.writers.stats)
  pub behind : t.confirmed_before ≤ t.writers.stats.confirmed
  pub before_sent : t.asked ≡ true → t.confirmed_before ≤ sent

IsQuiet-mono : (a b : ℕ) (reply : Reply Body) → a ≤ b → IsQuiet b reply → IsQuiet a reply
IsQuiet-mono a b failure l h = tt
IsQuiet-mono a b (response status body) l h = λ q.
    let g = h q in
    record { covered = λ t e d. omega (arith, l, g.covered t e d); one_primary = g.one_primary }

-- What a tick leaves.
abbrev Kept : ℕ → Threads → Threads → Type 0
Kept sent t t' = IsSettled sent t' × (t'.watch.violations ≡ t.watch.violations)

validator_step_lem :
    (node_ids : List ℕ) (stop : Bool) (pending : List ℕ) (sent : ℕ) (t : Threads)
    → IsSettled sent t
    → t.asked ≡ false
    → Kept t.writers.stats.confirmed t (validator_step node_ids stop pending t)
unfolding validator_step snapshot_confirmed
validator_step_lem node_ids stop [] sent t h off = elim (Bool-cases stop) [
  | inl over ↦
      rw over
        (record { balanced = h.balanced; behind = h.behind; before_sent = λ a. h.behind }, refl)
  | inr on ↦
      rw on (
        record { balanced = h.balanced; behind = omega arith; before_sent = λ a. omega arith },
        refl,
      )
]
validator_step_lem node_ids stop (n ∷ ns) sent t h off =
    (record { balanced = h.balanced; behind = h.behind; before_sent = λ a. h.behind }, refl)

take_answer_lem :
    (reply : Reply Body) (asked : Bool) (pending : List ℕ) (sent : ℕ) (t : Threads)
    → t.asked ≡ asked
    → IsSettled sent t
    → IsFair (answer reply) asked pending sent
    → Kept sent t (take_answer reply asked pending t)
unfolding take_answer
take_answer_lem reply false pending sent t e h f = (h, refl)
take_answer_lem reply true [] sent t e h f = (h, refl)
take_answer_lem reply true (n ∷ ns) sent t e h f = (
  record { balanced = h.balanced; behind = h.behind; before_sent = λ a. absurd (cc) },
  (check_node_lem t.confirmed_before n reply t.watch).1
      (IsQuiet-mono t.confirmed_before sent reply (h.before_sent e) f),
)

tick_lem :
    (node_ids : List ℕ) (x : Tick) (sent : ℕ) (t : Threads)
    → IsSettled sent t
    → IsFair x (t.asked) (t.pending) sent
    → Kept (sent_after x t sent) t (tick node_ids x t)
unfolding tick
tick_lem node_ids (write m) sent t h f =
    let (a, b) = move_lem m t.writers h.balanced in
    (
      record {
        balanced = a;
        behind = omega (arith, h.behind, b.confirmed_le);
        before_sent = h.before_sent;
      },
      refl,
    )
tick_lem node_ids (go_on stop) sent t h f = elim (Bool-cases t.asked) [
  | inl waiting ↦ simp waiting (h, refl)
  | inr off ↦ simp off (validator_step_lem node_ids stop t.pending sent t h off)
]
tick_lem node_ids (answer reply) sent t h f =
    take_answer_lem reply t.asked t.pending sent t refl h f

-- No false alarm: however the steps of the writers and of the validator interleave, also while a
-- question is on its way, if each answer is without objection against the writes that were confirmed
-- when its question was sent, then the validator adds no violation. The writers' counters add up at
-- the start, and the snapshot is not ahead of them, nor of the writes confirmed when the question that
-- may be on its way was sent.
pub run_threads_lem :
    (node_ids : List ℕ) (ticks : List Tick) (sent : ℕ) (t : Threads)
    → IsSettled sent t
    → AllFair node_ids ticks t sent
    → (sent' : ℕ) × IsSettled sent' (run_threads node_ids ticks t)
      × ((run_threads node_ids ticks t).watch.violations ≡ t.watch.violations)
unfolding run_threads
run_threads_lem node_ids [] sent t h f = (sent, h, refl)
run_threads_lem node_ids (x ∷ ticks) sent t h f =
    let (a, b) = tick_lem node_ids x sent t h f.0 in
    let (s, c, d) =
      run_threads_lem node_ids ticks (sent_after x t sent) (tick node_ids x t) a f.1 in
    (s, c, d ∙ b)
