-- ===== src/Qdrant/Cluster.antt =====
-- research/cross_system_replication/qdrant_docker_harness.py: a container, the loop that kills
-- containers at random (chaos_loop) and the watch for a split brain (validator_loop). What docker,
-- the random generator, the nodes and the stop event do is an argument.
pub mod Watched
pub mod Tests
use nano_db.Common.{
  ℕ, zero, suc, ◌+◌, List, [], ◌∷◌, ◌++◌, map, Bool, true, false, not, ◌&&◌, Option, none, some,
  ◌≡◌, ◌↔◌, refl, ap, if◌then◌else◌, length, ltb, eqb, eqb_iff, String, string_key, nat_key, ◌==◌,
  Key,
}
use nano_db.Common.Sets.{to_set}
use nano_db.Retain.{put}

-- A ManagedContainer's counters.
pub record Container : Type 0 where
  pub restart_count : ℕ
  pub crash_on_restart_count : ℕ

-- `docker inspect`: its return code and what it prints, without the white space around it.
pub record Inspected : Type 0 where
  pub returncode : ℕ
  pub stdout : String

unfoldable pub is_alive : Inspected → Bool
is_alive r = eqb r.returncode 0 && r.stdout == "true"

-- `start`: what the container is inspected as after the grace period.
unfoldable pub start : Inspected → Bool
unfolding is_alive
start after = is_alive after

unfoldable pub restart : Inspected → Container → Container × Bool
unfolding start
restart after c =
    let alive = start after in
    let counted : Container = record c { restart_count = c.restart_count + 1 } in
    if not alive
    then (record counted { crash_on_restart_count = counted.crash_on_restart_count + 1 }, alive)
    else (counted, alive)

-- What becomes of a random kill: a docker call raises (a timeout or not), the stop event is set
-- when the container has been down, or it is started and inspected.
pub data Calls : Type 0 where
  hung : Bool → Calls
  stopped : Calls
  started : ℕ → Inspected → Calls

-- A round of chaos_loop: whether the stop event is set after the pause, and the kill.
pub record Round : Type 0 where
  pub is_set : Bool
  pub target : String
  pub t0 : ℕ
  pub calls : Calls

pub record RandomKill : Type 0 where
  pub t : ℕ
  pub target : String
  pub alive_after_restart : Option Bool
  pub down_for : Option ℕ
  pub failed : Bool
  pub timed_out : Bool

unfoldable pub kill_round : Round → Option RandomKill
unfolding start
kill_round r = if r.is_set then none else elim r.calls [
  | stopped ↦ none
  | hung timeout ↦ some (record {
    t = r.t0;
    target = r.target;
    alive_after_restart = none;
    down_for = none;
    failed = true;
    timed_out = timeout;
  })
  | started down_for after ↦ some (record {
    t = r.t0;
    target = r.target;
    alive_after_restart = some (start after);
    down_for = some down_for;
    failed = false;
    timed_out = false;
  })
]

-- The rounds up to the one in which the loop is left.
unfoldable pub chaos_loop : List Round → List RandomKill
unfolding kill_round
chaos_loop [] = []
chaos_loop (r ∷ rounds) =
    let rest = chaos_loop rounds in elim (kill_round r) [ none ↦ [] | some e ↦ e ∷ rest ]

-- `raft.get("term")`.
abbrev pub Term : Type 0
Term = Option ℕ

abbrev pub same_term : Term → Term → Bool
same_term none none = true
same_term none (some u) = false
same_term (some t) none = false
same_term (some t) (some u) = eqb t u

pub same_term_iff : (t u : Term) → (same_term t u ≡ true) ↔ (t ≡ u)
same_term_iff none none = (λ _. refl, λ _. refl)
same_term_iff none (some u) = (λ h. absurd (cc), λ h. absurd (cc))
same_term_iff (some t) none = (λ h. absurd (cc), λ h. absurd (cc))
same_term_iff (some t) (some u) = (λ h. ap some ((eqb_iff t u).0 h), λ e. (eqb_iff t u).1 (cc e))

instance abbrev pub term_key : Key Term
term_key = record { same = same_term; same_iff = same_term_iff }

-- A node's answer to GET /cluster, with the role and the term of its raft_info.
pub data ClusterAnswer : Type 0 where
  unanswered : ClusterAnswer
  answered : ℕ → Option String → Term → ClusterAnswer

abbrev pub Leaders : Type 0
Leaders = List (ℕ × Term)

-- `violations`, `checks_run` and `last_leader_term`; a violation is its leaders.
pub record Watch : Type 0 where
  pub violations : List Leaders
  pub checks_run : ℕ
  pub last_leader_term : Leaders

abbrev pub is_leader : Option String → Bool
is_leader none = false
is_leader (some role) = role == "Leader"

abbrev pub claim_of : ClusterAnswer → Option Term
claim_of unanswered = none
claim_of (answered code role term) = if eqb code 200 && is_leader role then some term else none

abbrev pub was_checked : ClusterAnswer → ℕ
was_checked unanswered = 0
was_checked (answered code role term) = if eqb code 200 then 1 else 0

-- `leaders_this_round`, over distinct nodes.
unfoldable pub leaders_of : (ℕ → ClusterAnswer) → List ℕ → Leaders
leaders_of ask [] = []
leaders_of ask (n ∷ node_ids) =
    let rest = leaders_of ask node_ids in
    elim (claim_of (ask n)) [ none ↦ rest | some term ↦ (n, term) ∷ rest ]

unfoldable pub checks_of : (ℕ → ClusterAnswer) → List ℕ → ℕ
checks_of ask [] = 0
checks_of ask (n ∷ node_ids) = was_checked (ask n) + checks_of ask node_ids

abbrev pub terms_of : Leaders → List Term
terms_of leaders = map (λ l. l.1) leaders

unfoldable pub is_split : Leaders → Bool
is_split leaders = ltb 1 (length leaders) && eqb (length (to_set (terms_of leaders))) 1

unfoldable pub update_terms : Leaders → Leaders → Leaders
unfolding put
update_terms [] last = last
update_terms (l ∷ leaders) last = update_terms leaders (put l.0 l.1 last)

unfoldable pub watch_round : (ℕ → ClusterAnswer) → List ℕ → Watch → Watch
unfolding leaders_of checks_of is_split update_terms
watch_round ask node_ids w =
    let leaders = leaders_of ask node_ids in
    record {
      violations = if is_split leaders then w.violations ++ (leaders ∷ []) else w.violations;
      checks_run = w.checks_run + checks_of ask node_ids;
      last_leader_term = update_terms leaders w.last_leader_term;
    }

-- The rounds up to the stop event.
unfoldable pub validator_loop : List (ℕ → ClusterAnswer) → List ℕ → Watch → Watch
unfolding watch_round
validator_loop [] node_ids w = w
validator_loop (ask ∷ rounds) node_ids w =
    validator_loop rounds node_ids (watch_round ask node_ids w)
