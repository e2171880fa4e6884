-- ===== src/Qdrant/Topology/Ready.antt =====
-- When the cluster of research/cross_system_replication/qdrant_run_experiment.py is brought up.
use nano_db.Common.{
  ℕ, ◌≡◌, ◌↔◌, refl, sym, ap, subst, ◌∙◌, List, [], ◌∷◌, ◌++◌, Bool, true, false, not, arith,
  nat_key, Bool-cases, inl, inr, is_empty, length, eqb, eqb_iff, string_key, String, All, ◌≤◌, ◌*◌,
  ◌+◌, Option, some, none, get_elem?, length-append,
}
use nano_db.Common.Sets.{any, contains, select, contains-select}
use nano_db.Common.Members.{not-contains_of_empty, is_empty_of_none, any_iff}
use nano_db.Common.Frac.{Result, ok, raise, request_error}
use nano_db.Qdrant.Topology.{
  Reply, failed, replied, is_ok, is_enabled, all_active, ready_loop, wait_for_nodes_ready,
  ClusterView, sees_cluster, all_of, wait_for_cluster_formed, ShardView, sees_shards,
  wait_for_shards_active, BringUp, bring_up_cluster, create_collection,
}

-- The node has answered with 200 in some round.
abbrev has_answered : List (ℕ → Reply Unit) → ℕ → Bool
has_answered rounds n = any (λ ask. is_ok (ask n)) rounds

ready_iff :
    (rounds : List (ℕ → Reply Unit)) (pending : List ℕ)
    → (is_empty (ready_loop rounds pending) ≡ true)
      ↔ ((n : ℕ) → contains n pending ≡ true → has_answered rounds n ≡ true)
unfolding ready_loop
ready_iff [] pending =
    (λ h n m. absurd (cc (not-contains_of_empty pending h n)), λ h. is_empty_of_none pending h)
ready_iff (ask ∷ rounds) pending =
    let left = select (λ n. not (is_ok (ask n))) pending in
    let ih = ready_iff rounds left in
    elim (Bool-cases (is_empty pending)) [
      | inl over ↦ rw over (λ h n m. absurd (cc (not-contains_of_empty pending over n)), λ h. over)
      | inr more ↦ rw more (
        λ h n m. ground (arith, ih.0 h n, contains-select n (λ x. not (is_ok (ask x))) pending),
        λ h.
            ih.1 (λ n m. ground (arith, h n, contains-select n (λ x. not (is_ok (ask x))) pending)),
      )
    ]

formed_eq :
    (rounds : List (ℕ → Reply ClusterView)) (node_ids : List ℕ)
    → wait_for_cluster_formed rounds node_ids
      ≡ any (λ ask. all_of (λ n. sees_cluster (length node_ids) (ask n)) node_ids) rounds
unfolding wait_for_cluster_formed
formed_eq [] node_ids = refl
formed_eq (ask ∷ rounds) node_ids = ground (arith, formed_eq rounds node_ids)

active_eq :
    (rounds : List (Reply ShardView)) → wait_for_shards_active rounds ≡ any sees_shards rounds
unfolding wait_for_shards_active
active_eq [] = refl
active_eq (answer ∷ rounds) = ground (arith, active_eq rounds)

all_of_iff :
    (test : ℕ → Bool) (ns : List ℕ)
    → (all_of test ns ≡ true) ↔ ((n : ℕ) → contains n ns ≡ true → test n ≡ true)
all_of_iff test [] = (λ h n m. absurd (cc), λ h. refl)
all_of_iff test (x ∷ ns) =
    let ih = all_of_iff test ns in
    (
      λ h n m. elim (Bool-cases (eqb n x)) [
        | inl same ↦ let e : n ≡ x = ground arith in ground (arith, h, ap test e)
        | inr other ↦ ih.0 (ground (arith, h)) n (ground (arith, m))
      ],
      λ h.
          let first = h x (ground (arith, eqb_iff x x)) in
          let rest = ih.1 (λ n m. h n (ground (arith, m))) in ground (arith, first, rest),
    )

-- The node is ready.
abbrev pub IsReady : Reply Unit → Type 0
IsReady r = r ≡ replied 200 tt

-- The node takes part in a cluster of at least so many peers.
abbrev pub SeesCluster : ℕ → Reply ClusterView → Type 0
SeesCluster n r =
    (v : ClusterView) × (r ≡ replied 200 v) × (v.status ≡ some "enabled") × (n ≤ v.peers)

-- Three replicas of each of the two shards are there, all of them active.
abbrev pub SeesShards : Reply ShardView → Type 0
SeesShards r =
    (v : ShardView) × (r ≡ replied 200 v)
    × (2 * 3 ≤ length v.local_shards + length v.remote_shards)
    × All (λ s. s ≡ "Active") v.local_shards
    × All (λ s. s ≡ "Active") v.remote_shards

is_ok_iff : (r : Reply Unit) → (is_ok r ≡ true) ↔ IsReady r
is_ok_iff failed = (λ h. absurd (cc), λ h. absurd (cc))
is_ok_iff (replied code u) = (
  λ h. ap (λ c. replied c u) ((eqb_iff code 200).0 h),
  λ e. let c : code ≡ 200 = cc in (eqb_iff code 200).1 c,
)

is_enabled_iff : (s : Option String) → (is_enabled s ≡ true) ↔ (s ≡ some "enabled")
is_enabled_iff none = (λ h. absurd (cc), λ h. absurd (cc))
is_enabled_iff (some s) =
    let iff = string_key.same_iff s "enabled" in
    (λ h. ap some (iff.0 h), λ e. let same : s ≡ "enabled" = cc in iff.1 same)

sees_cluster_iff : (n : ℕ) (r : Reply ClusterView) → (sees_cluster n r ≡ true) ↔ SeesCluster n r
sees_cluster_iff n failed = (λ h. absurd (cc), λ h. absurd (cc (h.1)))
sees_cluster_iff n (replied code v) =
    let status = is_enabled_iff v.status in
    (
      λ h.
          let c : code ≡ 200 = ground (arith, h) in
          (v, ap (λ x. replied x v) c, status.0 (ground (arith, h)), ground (arith, h)),
      λ (u, e, s, l).
          let c : code ≡ 200 = cc in
          let same : v ≡ u = cc in
          let s' : v.status ≡ some "enabled" = rw same s in
          let l' : n ≤ v.peers = rw same l in ground (arith, c, status.1 s', l'),
    )

all_active_iff :
    (xs ys : List String)
    → (all_active (xs ++ ys) ≡ true) ↔ (All (λ s. s ≡ "Active") xs × All (λ s. s ≡ "Active") ys)
all_active_iff [] [] = (λ h. (tt, tt), λ h. refl)
all_active_iff [] (y ∷ ys) =
    let iff = string_key.same_iff y "Active" in
    let ih = all_active_iff [] ys in
    (
      λ h. (tt, (iff.0 (ground (arith, h)), (ih.0 (ground (arith, h))).1)),
      λ (_, (e, k)). ground (arith, iff.1 e, ih.1 (tt, k)),
    )
all_active_iff (x ∷ xs) ys =
    let iff = string_key.same_iff x "Active" in
    let ih = all_active_iff xs ys in
    (
      λ h. let (a, b) = ih.0 (ground (arith, h)) in ((iff.0 (ground (arith, h)), a), b),
      λ ((e, k), b). ground (arith, iff.1 e, ih.1 (k, b)),
    )

sees_shards_iff : (r : Reply ShardView) → (sees_shards r ≡ true) ↔ SeesShards r
sees_shards_iff failed = (λ h. absurd (cc), λ h. absurd (cc (h.1)))
sees_shards_iff (replied code v) =
    let size = length-append v.local_shards v.remote_shards in
    let active = all_active_iff v.local_shards v.remote_shards in
    (
      λ h.
          let c : code ≡ 200 = ground (arith, h) in
          let (a, b) = active.0 (ground (arith, h)) in
          (v, ap (λ x. replied x v) c, ground (arith, h, size), a, b),
      λ (u, e, l, a, b).
          let c : code ≡ 200 = cc in
          let same : v ≡ u = cc in
          let k : all_active (v.local_shards ++ v.remote_shards) ≡ true =
            active.1 (rw same (a, b)) in
          let l' : 2 * 3 ≤ length v.local_shards + length v.remote_shards = rw same l in
          ground (arith, c, size, k, l'),
    )

-- What a cluster that is up has shown.
pub record IsUp (b : BringUp) (node_ids : List ℕ) : Type 0 where
  pub started : b.returncode ≡ 0
  -- Each node was ready in some round.
  pub ready :
      (n : ℕ)
      → contains n node_ids ≡ true
      → (i : ℕ) × (ask : ℕ → Reply Unit) × (get_elem? b.ready_rounds i ≡ some ask) × IsReady (ask n)
  -- In one round all of them saw the whole cluster.
  pub formed :
      (i : ℕ) × (ask : ℕ → Reply ClusterView) × (get_elem? b.cluster_rounds i ≡ some ask)
      × ((n : ℕ) → contains n node_ids ≡ true → SeesCluster (length node_ids) (ask n))
  pub created : IsReady b.created
  -- In one round all shards were active.
  pub active :
      (i : ℕ) × (r : Reply ShardView) × (get_elem? b.shard_rounds i ≡ some r) × SeesShards r

ready_lem :
    (rounds : List (ℕ → Reply Unit)) (node_ids : List ℕ)
    → (wait_for_nodes_ready rounds node_ids ≡ true) ↔ (
        (n : ℕ)
        → contains n node_ids ≡ true
        → (i : ℕ) × (ask : ℕ → Reply Unit) × (get_elem? rounds i ≡ some ask) × IsReady (ask n))
unfolding wait_for_nodes_ready
ready_lem rounds node_ids =
    let iff = ready_iff rounds node_ids in
    let place = λ (n : ℕ). any_iff (λ (ask : ℕ → Reply Unit). is_ok (ask n)) rounds in
    (
      λ h n m.
          let (i, ask, e, k) = (place n).0 (iff.0 h n m) in (i, ask, e, (is_ok_iff (ask n)).0 k),
      λ h.
          iff.1
            (λ n m. let (i, ask, e, k) = h n m in (place n).1 (i, ask, e, (is_ok_iff (ask n)).1 k)),
    )

formed_lem :
    (rounds : List (ℕ → Reply ClusterView)) (node_ids : List ℕ)
    → (wait_for_cluster_formed rounds node_ids ≡ true) ↔ (
        (i : ℕ) × (ask : ℕ → Reply ClusterView) × (get_elem? rounds i ≡ some ask)
        × ((n : ℕ) → contains n node_ids ≡ true → SeesCluster (length node_ids) (ask n)))
formed_lem rounds node_ids =
    let size = length node_ids in
    let place = any_iff (λ ask. all_of (λ n. sees_cluster size (ask n)) node_ids) rounds in
    (
      λ h.
          let (i, ask, e, k) = place.0 (sym (formed_eq rounds node_ids) ∙ h) in
          (i, ask, e, λ n m. (sees_cluster_iff size (ask n)).0 ((all_of_iff _ node_ids).0 k n m)),
      λ (i, ask, e, k).
          let all : (n : ℕ) → contains n node_ids ≡ true → sees_cluster size (ask n) ≡ true =
            λ n m. (sees_cluster_iff size (ask n)).1 (k n m) in
          formed_eq rounds node_ids ∙ place.1 (i, ask, e, (all_of_iff _ node_ids).1 all),
    )

active_lem :
    (rounds : List (Reply ShardView))
    → (wait_for_shards_active rounds ≡ true)
      ↔ ((i : ℕ) × (r : Reply ShardView) × (get_elem? rounds i ≡ some r) × SeesShards r)
active_lem rounds =
    let place = any_iff sees_shards rounds in
    (
      λ h.
          let (i, r, e, k) = place.0 (sym (active_eq rounds) ∙ h) in
          (i, r, e, (sees_shards_iff r).0 k),
      λ (i, r, e, k). active_eq rounds ∙ place.1 (i, r, e, (sees_shards_iff r).1 k),
    )

-- How a bring-up ends.
pub data IsBroughtUp (b : BringUp) (node_ids : List ℕ) : Result Bool → Type 0 where
  is_up : IsUp b node_ids → IsBroughtUp b node_ids (ok true)
  is_down : (IsUp b node_ids → ⊥) → IsBroughtUp b node_ids (ok false)
  -- The request that creates the collection raised.
  has_raised : b.created ≡ failed → IsBroughtUp b node_ids (raise request_error)

created_lem :
    (b : BringUp) (node_ids : List ℕ) (r : Reply Unit)
    → b.created ≡ r
    → b.returncode ≡ 0
    → wait_for_nodes_ready b.ready_rounds node_ids ≡ true
    → wait_for_cluster_formed b.cluster_rounds node_ids ≡ true
    → IsBroughtUp b node_ids (bring_up_cluster b node_ids)
unfolding bring_up_cluster create_collection
created_lem b node_ids failed e s r f =
    let started : eqb b.returncode 0 ≡ true = (eqb_iff b.returncode 0).1 s in
    let end : bring_up_cluster b node_ids ≡ raise request_error = rw (started, r, f, e) refl in
    subst (IsBroughtUp b node_ids) (sym end) (has_raised e)
created_lem b node_ids (replied code u) e s r f =
    let started : eqb b.returncode 0 ≡ true = (eqb_iff b.returncode 0).1 s in
    elim (Bool-cases (eqb code 200)) [
      | inr bad ↦
          let end : bring_up_cluster b node_ids ≡ ok false = rw (started, r, f, e, bad) refl in
          subst (IsBroughtUp b node_ids) (sym end) (
            is_down
              (λ up. let c : code ≡ 200 = cc (e, up.created) in cc (bad, (eqb_iff code 200).1 c)))
      | inl good ↦ elim (Bool-cases (wait_for_shards_active b.shard_rounds)) [
        | inr not_yet ↦
            let end : bring_up_cluster b node_ids ≡ ok false =
              rw (started, r, f, e, good, not_yet) refl in
            subst (IsBroughtUp b node_ids) (sym end)
              (is_down (λ up. cc (not_yet, (active_lem b.shard_rounds).1 up.active)))
        | inl a ↦
            let end : bring_up_cluster b node_ids ≡ ok true = rw (started, r, f, e, good, a) refl in
            subst (IsBroughtUp b node_ids) (sym end) (
              is_up (record {
                started = s;
                ready = (ready_lem b.ready_rounds node_ids).0 r;
                formed = (formed_lem b.cluster_rounds node_ids).0 f;
                created = e ∙ ap (λ c. replied c u) ((eqb_iff code 200).0 good);
                active = (active_lem b.shard_rounds).0 a;
              }))
      ]
    ]

-- The bring-up returns true exactly if docker starts the containers and, before the deadlines, each
-- node answers that it is ready in some round, in one round every node says that it is enabled and
-- sees as many peers as there are nodes, the collection is created, and in one round at least six
-- replicas of shards are listed and all are active. It raises only if the request that creates the
-- collection does, and returns false in all other cases.
pub bring_up_cluster_lem :
    (b : BringUp) (node_ids : List ℕ) → IsBroughtUp b node_ids (bring_up_cluster b node_ids)
unfolding bring_up_cluster
bring_up_cluster_lem b node_ids = elim (Bool-cases (eqb b.returncode 0)) [
  | inr s ↦ rw s (is_down (λ up. cc (s, (eqb_iff b.returncode 0).1 up.started)))
  | inl s ↦ elim (Bool-cases (wait_for_nodes_ready b.ready_rounds node_ids)) [
    | inr r ↦ rw (s, r) (is_down (λ up. cc (r, (ready_lem b.ready_rounds node_ids).1 up.ready)))
    | inl r ↦ elim (Bool-cases (wait_for_cluster_formed b.cluster_rounds node_ids)) [
      | inr f ↦
          rw (s, r, f) (is_down (λ up. cc (f, (formed_lem b.cluster_rounds node_ids).1 up.formed)))
      | inl f ↦ created_lem b node_ids b.created refl ((eqb_iff b.returncode 0).0 s) r f
    ]
  ]
]
