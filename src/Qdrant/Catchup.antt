-- ===== src/Qdrant/Catchup.antt =====
-- research/qdrant_kill_scheduler/derive_catchup_time.py: how long a killed node takes to be level
-- with its peers. Times are in milliseconds, completeness in millionths; a kill has its time from
-- events.json, and the statistics printed over the results are left out.
pub mod Closeness
pub mod Level
pub mod Counted
pub mod Tests
use nano_db.Common.{
  ℕ, zero, suc, ◌+◌, ◌-◌, List, [], ◌∷◌, ◌++◌, map, Bool, true, false, not, ◌&&◌, ◌||◌, Option,
  none, some, if◌then◌else◌, ltb, leb, eqb, max, is_empty, nat_key,
}
use nano_db.Common.Sets.{select}
use nano_db.Common.Sort.{sort}
use nano_db.Analyze.{append_at}

abbrev pub eps_default : ℕ
eps_default = 5000

pub record Kill : Type 0 where
  pub node : ℕ
  pub t_rel : ℕ

-- A row of samples.csv.
pub record Sample : Type 0 where
  pub t_rel : ℕ
  pub reachable : Bool
  pub shard : ℕ
  pub replica : ℕ
  pub completeness : Option ℕ

pub record Seen : Type 0 where
  pub shard : ℕ
  pub replica : ℕ
  pub completeness : ℕ

abbrev pub Rounds : Type 0
Rounds = List (ℕ × List Seen)

-- The row as a round keeps it, or none if it is skipped.
abbrev pub seen_of : Sample → Option Seen
seen_of r = if not r.reachable then none else elim r.completeness [
  | none ↦ none
  | some c ↦ some (record { shard = r.shard; replica = r.replica; completeness = c })
]

abbrev pub add_sample : Sample → Rounds → Rounds
add_sample r rounds = elim (seen_of r) [ none ↦ rounds | some s ↦ append_at r.t_rel s rounds ]

unfoldable pub group_samples : List Sample → Rounds → Rounds
group_samples [] rounds = rounds
group_samples (r ∷ samples) rounds = group_samples samples (add_sample r rounds)

abbrev pub by_time : ℕ × List Seen → ℕ × List Seen → Bool
by_time x y = leb x.0 y.0

unfoldable pub rounds_by_time : List Sample → Rounds
unfolding group_samples
rounds_by_time samples = sort by_time (group_samples samples [])

-- The completeness of the other replicas of the row's shard.
abbrev pub peers_of : ℕ → Seen → List Seen → List ℕ
peers_of node r rows =
    map (λ (p : Seen). p.completeness)
      (select (λ (p : Seen). eqb p.shard r.shard && not (eqb p.replica node)) rows)

abbrev pub max_of : List ℕ → ℕ
max_of [] = 0
max_of (x ∷ xs) = max x (max_of xs)

-- `r["completeness"] < max(peers) - eps`, where there is a peer.
abbrev pub is_behind : ℕ → ℕ → List Seen → Seen → Bool
is_behind node eps rows r =
    let peers = peers_of node r rows in
    not (is_empty peers) && ltb (r.completeness + eps) (max_of peers)

abbrev pub no_one : (Seen → Bool) → List Seen → Bool
no_one test [] = true
no_one test (r ∷ rows) = not (test r) && no_one test rows

-- The rows of the node are there, and level with their peers.
unfoldable pub is_level : ℕ → ℕ → List Seen → Bool
is_level node eps rows =
    let mine = select (λ (r : Seen). eqb r.replica node) rows in
    not (is_empty mine) && no_one (is_behind node eps rows) mine

pub data Catchup : Type 0 where
  caught_up : ℕ → Catchup
  censored : ℕ → Catchup

abbrev pub is_over : Option ℕ → ℕ → Bool
is_over none t = false
is_over (some next) t = leb next t

-- The loop over the rounds, with the last one seen.
unfoldable pub catchup_loop : Kill → Option ℕ → ℕ → ℕ → Rounds → Catchup
unfolding is_level
catchup_loop kill next eps last_seen [] = censored (last_seen - kill.t_rel)
catchup_loop kill next eps last_seen ((t, rows) ∷ rounds) =
    let before = catchup_loop kill next eps last_seen rounds in
    let later = catchup_loop kill next eps t rounds in
    if leb t kill.t_rel
    then before
    else (if is_over next t
        then censored (last_seen - kill.t_rel)
        else (if is_level kill.node eps rows then caught_up (t - kill.t_rel) else later))

unfoldable pub catchup_for_kill : Kill → Option ℕ → Rounds → ℕ → Catchup
unfolding catchup_loop
catchup_for_kill kill next rounds eps = catchup_loop kill next eps kill.t_rel rounds

-- `next((x["t_rel"] for x in kills[i + 1:] if x["node"] == k["node"]), None)`.
abbrev pub next_kill : ℕ → List Kill → Option ℕ
next_kill node [] = none
next_kill node (k ∷ kills) = if eqb k.node node then some k.t_rel else next_kill node kills

pub record Tally : Type 0 where
  pub measured : List ℕ
  pub interrupted : List ℕ

abbrev pub add_catchup : Tally → Catchup → Tally
add_catchup t (caught_up secs) = record t { measured = t.measured ++ (secs ∷ []) }
add_catchup t (censored secs) = record t { interrupted = t.interrupted ++ (secs ∷ []) }

-- The loop over the kills of a run.
unfoldable pub tally_run : Rounds → ℕ → List Kill → Tally → Tally
unfolding catchup_for_kill
tally_run rounds eps [] t = t
tally_run rounds eps (k ∷ kills) t =
    tally_run rounds eps kills
      (add_catchup t (catchup_for_kill k (next_kill k.node kills) rounds eps))

-- A run: the kills of its events in order of time, and its samples.
pub record Run : Type 0 where
  pub kills : List Kill
  pub samples : List Sample

abbrev pub sorted_kills : List Kill → List Kill
sorted_kills kills = sort (λ (a b : Kill). leb a.t_rel b.t_rel) kills

unfoldable pub tally_runs : ℕ → List Run → Tally → Tally
unfolding tally_run rounds_by_time
tally_runs eps [] t = t
tally_runs eps (r ∷ runs) t =
    tally_runs eps runs (tally_run (rounds_by_time r.samples) eps (sorted_kills r.kills) t)
