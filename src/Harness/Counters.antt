-- ===== src/Harness/Counters.antt =====
-- `Stats` and `writer_loop` of chaos_harness.py: the writers' counters under any interleaving.
use nano_db.Common.{
  ℕ, zero, suc, ◌+◌, ◌-◌, ◌≤◌, ◌≡◌, List, [], ◌∷◌, ◌++◌, Bool, true, false, arith, nat_key, length,
  eqb, Bool-cases, if◌then◌else◌, length-append, inl, inr,
}
use nano_db.Common.Sets.{to_set}

-- An HTTP exchange: it fails (with any exception), or it gives a status and a body.
pub data Reply (B : Type 0) : Type 0 where
  failure : Reply B
  response : ℕ → B → Reply B

-- The id `chaos-i` is the number i.
pub record Stats : Type 0 where
  pub attempted : ℕ
  pub confirmed : ℕ
  pub failed : ℕ
  pub confirmed_ids : List ℕ

unfoldable pub empty_stats : Stats
empty_stats = record { attempted = 0; confirmed = 0; failed = 0; confirmed_ids = [] }

unfoldable pub record_attempt : Stats → Stats
record_attempt s = record s { attempted = s.attempted + 1 }

unfoldable pub record_confirmed : ℕ → Stats → Stats
record_confirmed vec_id s = record s {
  confirmed = s.confirmed + 1;
  confirmed_ids = s.confirmed_ids ++ vec_id ∷ [];
}

unfoldable pub record_failed : Stats → Stats
record_failed s = record s { failed = s.failed + 1 }

unfoldable pub duplicate_id_count : Stats → ℕ
duplicate_id_count s = length (s.confirmed_ids) - length (to_set (s.confirmed_ids))

unfoldable pub snapshot_confirmed : Stats → ℕ
snapshot_confirmed s = s.confirmed

-- Where a writer stands: before the test of the stop event, after it has formed its id from the
-- shared counter, after it has read the counter again to add 1, after it has stored the sum,
-- waiting for the answer to its request, or at its end.
pub data Position : Type 0 where
  at_test finished : Position
  named counted waiting : (vec_id : ℕ) → Position
  loaded : (vec_id old : ℕ) → Position

pub record Writers : Type 0 where
  pub positions : List Position
  pub id_counter : ℕ
  pub stats : Stats

-- The answer to the POST of a vector, of which only the status is read.
unfoldable pub record_reply : Reply Unit → ℕ → Stats → Stats
unfolding record_confirmed record_failed
record_reply failure v s = record_failed s
record_reply (response status _) v s =
    if eqb status 201 then record_confirmed v s else record_failed s

-- One step of one writer: the new position, the counter and the statistics.
unfoldable pub writer_step : Bool → Reply Unit → Position → ℕ → Stats → Position × ℕ × Stats
unfolding record_attempt record_reply
writer_step stop reply at_test c s = (if stop then finished else named c, c, s)
writer_step stop reply (named v) c s = (loaded v c, c, s)
writer_step stop reply (loaded v old) c s = (counted v, old + 1, s)
writer_step stop reply (counted v) c s = (waiting v, c, record_attempt s)
writer_step stop reply (waiting v) c s = (at_test, c, record_reply reply v s)
writer_step stop reply finished c s = (finished, c, s)

-- Which writer moves, what it sees of the stop event, and what answer it gets.
pub record Move : Type 0 where
  pub writer : ℕ
  pub stop : Bool
  pub reply : Reply Unit

unfoldable pub step_at :
    Bool → Reply Unit → ℕ → List Position → ℕ → Stats → List Position × ℕ × Stats
unfolding writer_step
step_at stop reply i [] c s = ([], c, s)
step_at stop reply zero (p ∷ ps) c s =
    let (q, c', s') = writer_step stop reply p c s in (q ∷ ps, c', s')
step_at stop reply (suc i) (p ∷ ps) c s =
    let (qs, c', s') = step_at stop reply i ps c s in (p ∷ qs, c', s')

unfoldable pub move : Move → Writers → Writers
unfolding step_at
move m w =
    let (ps, c, s) = step_at (m.stop) (m.reply) (m.writer) (w.positions) (w.id_counter) (w.stats) in
    record { positions = ps; id_counter = c; stats = s }

-- The writers' threads, one step after another.
unfoldable pub writer_loop : List Move → Writers → Writers
unfolding move
writer_loop [] w = w
writer_loop (m ∷ moves) w = writer_loop moves (move m w)

abbrev pub is_waiting : Position → Bool
is_waiting (waiting v) = true
is_waiting _ = false

-- Each attempt is confirmed, failed or open, and each confirmation has stored its id.
pub record IsBalanced (pending : ℕ) (s : Stats) : Type 0 where
  pub attempts : s.attempted ≡ s.confirmed + s.failed + pending
  pub ids : length s.confirmed_ids ≡ s.confirmed

-- Nothing that was confirmed or attempted is taken back.
pub record IsLater (s s' : Stats) : Type 0 where
  pub attempted_le : s.attempted ≤ s'.attempted
  pub confirmed_le : s.confirmed ≤ s'.confirmed

pub IsLater-trans : (a b c : Stats) → IsLater a b → IsLater b c → IsLater a c
IsLater-trans a b c h k = record {
  attempted_le = omega (arith, h.attempted_le, k.attempted_le);
  confirmed_le = omega (arith, h.confirmed_le, k.confirmed_le);
}

abbrev open_of : Position → ℕ
open_of (waiting v) = 1
open_of _ = 0

reply-IsBalanced :
    (reply : Reply Unit) (v n : ℕ) (s : Stats)
    → IsBalanced (suc n) s
    → IsBalanced n (record_reply reply v s) × IsLater s (record_reply reply v s)
unfolding record_reply record_confirmed record_failed
reply-IsBalanced failure v n s h = (
  record { attempts = omega (arith, h.attempts); ids = h.ids },
  record { attempted_le = omega arith; confirmed_le = omega arith },
)
reply-IsBalanced (response status b) v n s h = elim (Bool-cases (eqb status 201)) [
  | inl hit ↦ rw hit (
    record {
      attempts = omega (arith, h.attempts);
      ids = omega (arith, h.ids, length-append s.confirmed_ids (v ∷ []));
    },
    record { attempted_le = omega arith; confirmed_le = omega arith },
  )
  | inr miss ↦ rw miss (
    record { attempts = omega (arith, h.attempts); ids = h.ids },
    record { attempted_le = omega arith; confirmed_le = omega arith },
  )
]

-- One step of one writer, with n requests open at the others.
writer_step_lem :
    (stop : Bool) (reply : Reply Unit) (p : Position) (c n : ℕ) (s : Stats)
    → IsBalanced (open_of p + n) s
    → IsBalanced (open_of ((writer_step stop reply p c s).0) + n) ((writer_step stop reply p c s).2)
      × IsLater s ((writer_step stop reply p c s).2)
unfolding writer_step record_attempt
writer_step_lem stop reply at_test c n s h = elim (Bool-cases stop) [
  | inl hit ↦ rw hit (h, record { attempted_le = omega arith; confirmed_le = omega arith })
  | inr miss ↦ rw miss (h, record { attempted_le = omega arith; confirmed_le = omega arith })
]
writer_step_lem stop reply finished c n s h =
    (h, record { attempted_le = omega arith; confirmed_le = omega arith })
writer_step_lem stop reply (named v) c n s h =
    (h, record { attempted_le = omega arith; confirmed_le = omega arith })
writer_step_lem stop reply (loaded v old) c n s h =
    (h, record { attempted_le = omega arith; confirmed_le = omega arith })
writer_step_lem stop reply (counted v) c n s h = (
  record { attempts = omega (arith, h.attempts); ids = h.ids },
  record { attempted_le = omega arith; confirmed_le = omega arith },
)
writer_step_lem stop reply (waiting v) c n s h =
    let before : IsBalanced (suc n) s = record {
      attempts = omega (arith, h.attempts);
      ids = h.ids;
    } in
    let (a, b) = reply-IsBalanced reply v n s before in
    (record { attempts = omega (arith, a.attempts); ids = a.ids }, b)

-- How many writers wait for an answer.
abbrev pub open_requests : List Position → ℕ
open_requests [] = 0
open_requests (p ∷ ps) = open_of p + open_requests ps

step_at_lem :
    (stop : Bool) (reply : Reply Unit) (i : ℕ) (ps : List Position) (c n : ℕ) (s : Stats)
    → IsBalanced (open_requests ps + n) s
    → IsBalanced
        (open_requests ((step_at stop reply i ps c s).0) + n)
        ((step_at stop reply i ps c s).2)
      × IsLater s ((step_at stop reply i ps c s).2)
unfolding step_at
step_at_lem stop reply i [] c n s h =
    (h, record { attempted_le = omega arith; confirmed_le = omega arith })
step_at_lem stop reply zero (p ∷ ps) c n s h =
    let q : open_of p + open_requests ps + n ≡ open_of p + (open_requests ps + n) = omega arith in
    let (a, b) = writer_step_lem stop reply p c (open_requests ps + n) s (rw q at h) in
    (record { attempts = omega (arith, a.attempts); ids = a.ids }, b)
step_at_lem stop reply (suc i) (p ∷ ps) c n s h =
    let q : open_of p + open_requests ps + n ≡ open_requests ps + (open_of p + n) = omega arith in
    let (a, b) = step_at_lem stop reply i ps c (open_of p + n) s (rw q at h) in
    (record { attempts = omega (arith, a.attempts); ids = a.ids }, b)

pub move_lem :
    (m : Move) (w : Writers)
    → IsBalanced (open_requests (w.positions)) (w.stats)
    → IsBalanced (open_requests ((move m w).positions)) ((move m w).stats)
      × IsLater (w.stats) ((move m w).stats)
unfolding move
move_lem m w h =
    let (a, b) =
      step_at_lem m.stop m.reply m.writer w.positions w.id_counter 0 w.stats
        (record { attempts = omega (arith, h.attempts); ids = h.ids }) in
    (record { attempts = omega (arith, a.attempts); ids = a.ids }, b)

-- Under every interleaving of the writers' steps: if at the start each attempt is confirmed,
-- failed or open at a writer and each confirmation has stored its id, then so it is at the end,
-- and the counters of attempts and confirmations have not fallen.
pub writer_loop-IsBalanced :
    (moves : List Move) (w : Writers)
    → IsBalanced (open_requests (w.positions)) (w.stats)
    → IsBalanced (open_requests ((writer_loop moves w).positions)) ((writer_loop moves w).stats)
      × IsLater (w.stats) ((writer_loop moves w).stats)
unfolding writer_loop
writer_loop-IsBalanced [] w h =
    (h, record { attempted_le = omega arith; confirmed_le = omega arith })
writer_loop-IsBalanced (m ∷ moves) w h =
    let (a, b) = move_lem m w h in
    let (c, d) = writer_loop-IsBalanced moves (move m w) a in
    (c, IsLater-trans w.stats (move m w).stats (writer_loop moves (move m w)).stats b d)
