-- ===== src/Qdrant/Gate/Closing.antt =====
-- When the decision of research/cross_system_replication/qdrant_index_gate.py closes the gate.
use nano_db.Common.{
  subst, ℕ, ◌+◌, ◌*◌, ◌≤◌, ◌<◌, ◌≡◌, ◌↔◌, refl, ap, ◌∙◌, List, [], ◌∷◌, true, Option, none, some,
  length, ltb, eqb, min, is_empty, arith, All, Bool-cases, inl, inr, if◌then◌else◌, String,
  string_key,
}
use nano_db.Common.Sets.{eq_refl}
use nano_db.Common.Frac.{Frac, mul_le}
use nano_db.Qdrant.Gate.{
  NodeRow, Poll, fraction_of, is_green, Reason, row_reason, rows_reason, polls_reason, is_clear,
  last_n, decide, or_else, no_nodes, node_fraction,
}

-- A node's row that does not keep the gate open.
pub record IsIndexed (tol : Frac) (r : NodeRow) : Type 0 where
  pub is_reachable : r.reachable ≡ true
  pub green : r.status ≡ some "green"
  -- indexed / points >= 1 - tol
  pub indexed :
      (node_fraction r).den * tol.den
      ≤ (node_fraction r).num * tol.den + tol.num * (node_fraction r).den

is_green_iff : (s : Option String) → (is_green s ≡ true) ↔ (s ≡ some "green")
is_green_iff none = (λ h. absurd (cc), λ h. absurd (cc))
is_green_iff (some s) = (
  λ h. ap some ((string_key.same_iff s "green").0 h),
  λ e. ap is_green e ∙ eq_refl {A = String} "green",
)

row_reason_iff : (tol : Frac) (r : NodeRow) → (is_clear (row_reason tol r) ≡ true) ↔ IsIndexed tol r
unfolding row_reason
row_reason_iff tol r = (
  λ h. record {
    is_reachable = ground arith;
    green = (is_green_iff r.status).0 (ground arith);
    indexed = ground arith;
  },
  λ g. ground (arith, g.is_reachable, (is_green_iff r.status).1 g.green, g.indexed),
)

or_else_iff :
    (a b : Reason) → (is_clear (or_else a b) ≡ true) ↔ ((is_clear a ≡ true) × (is_clear b ≡ true))
or_else_iff a b = elim (Bool-cases (is_clear a)) [
  | inl h ↦ (λ k. (h, ground arith), λ k. ground (arith, k.1))
  | inr h ↦ (λ k. absurd (ground arith), λ k. absurd (ground (arith, k.0)))
]

rows_reason_iff :
    (tol : Frac) (rows : Poll) → (is_clear (rows_reason tol rows) ≡ true) ↔ All (IsIndexed tol) rows
unfolding rows_reason
rows_reason_iff tol [] = (λ _. tt, λ _. refl)
rows_reason_iff tol (r ∷ rows) =
    let both = or_else_iff (row_reason tol r) (rows_reason tol rows) in
    let head = row_reason_iff tol r in
    let tail = rows_reason_iff tol rows in
    (λ h. (head.0 (both.0 h).0, tail.0 (both.0 h).1), λ h. both.1 (head.1 h.0, tail.1 h.1))

-- A poll that does not keep the gate open: some node is in it, and each is indexed.
pub record IsGood (tol : Frac) (poll : Poll) : Type 0 where
  pub has_nodes : 0 < length poll
  pub all_indexed : All (IsIndexed tol) poll

poll_reason_iff :
    (tol : Frac) (k : ℕ) (poll : Poll)
    → (is_clear (if is_empty poll then no_nodes k else rows_reason tol poll) ≡ true)
      ↔ IsGood tol poll
poll_reason_iff tol k [] = (λ h. absurd (cc), λ g. absurd (omega (arith, g.has_nodes)))
poll_reason_iff tol k (r ∷ rows) =
    let rows_iff = rows_reason_iff tol (r ∷ rows) in
    (
      λ h. record { has_nodes = omega arith; all_indexed = rows_iff.0 h },
      λ g. rows_iff.1 g.all_indexed,
    )

polls_reason_iff :
    (tol : Frac) (polls : List Poll)
    → (is_clear (polls_reason tol polls) ≡ true) ↔ All (IsGood tol) polls
unfolding polls_reason
polls_reason_iff tol [] = (λ _. tt, λ _. refl)
polls_reason_iff tol (p ∷ polls) =
    let k = length (p ∷ polls) in
    let both =
      or_else_iff (if is_empty p then no_nodes k else rows_reason tol p) (polls_reason tol polls) in
    let head = poll_reason_iff tol k p in
    let tail = polls_reason_iff tol polls in
    (λ h. (head.0 (both.0 h).0, tail.0 (both.0 h).1), λ h. both.1 (head.1 h.0, tail.1 h.1))

-- With at least one poll wanted, the gate is closed exactly if there are that many polls and in
-- each of the last of them some node reports, and every node is reachable, green and indexed up
-- to the tolerance; and the reason is empty exactly if the gate is closed.
pub decide_lem :
    (history : List Poll) (tol : Frac) (consecutive : ℕ)
    → 0 < consecutive
    → let d = decide history tol consecutive in
      ((d.closed ≡ true)
        ↔ ((consecutive ≤ length history) × All (IsGood tol) (last_n consecutive history)))
      × (is_clear d.reason ≡ d.closed)
unfolding decide
decide_lem [] tol consecutive h = ((λ e. absurd (cc), λ k. absurd (omega (arith, k.0))), refl)
decide_lem (p ∷ polls) tol consecutive h =
    let history = p ∷ polls in
    let iff = polls_reason_iff tol (last_n consecutive history) in
    elim (Bool-cases (ltb (length history) consecutive)) [
      | inl few ↦ rw few ((λ e. absurd (cc), λ k. absurd (ground (arith, k.0))), refl)
      | inr many ↦ rw many ((λ e. (ground arith, iff.0 e), λ k. iff.1 k.1), refl)
    ]

-- The node holds points, and all but a fraction `tol` of them are indexed.
pub record HasPoints (tol : Frac) (r : NodeRow) : Type 0 where
  pub idx : ℕ
  pub pts : ℕ
  pub idx_eq : r.indexed_vectors_count ≡ some idx
  pub pts_eq : r.points_count ≡ some pts
  pub some_points : 0 < pts
  pub most_indexed : pts * tol.den ≤ idx * tol.den + tol.num * pts

min_le : (a b t : ℕ) → min a b * t ≤ a * t
min_le a b t = grind (arith, mul_le (min a b) a t (omega arith))

fraction_of-points :
    (tol : Frac) (i p : Option ℕ)
    → tol.num < tol.den
    → (fraction_of i p).den * tol.den
      ≤ (fraction_of i p).num * tol.den + tol.num * (fraction_of i p).den
    → (idx : ℕ) × (pts : ℕ) × (i ≡ some idx)
      × (p ≡ some pts)
      × (0 < pts)
      × (pts * tol.den ≤ idx * tol.den + tol.num * pts)
fraction_of-points tol none p small h = absurd (omega arith)
fraction_of-points tol (some i) none small h = absurd (omega arith)
fraction_of-points tol (some i) (some p) small h = elim (Bool-cases (eqb p 0)) [
  | inl zero' ↦ absurd (ground arith)
  | inr pos' ↦ (i, p, refl, refl, ground arith, ground (arith, min_le i p tol.den))
]

IsIndexed-HasPoints :
    (tol : Frac) (r : NodeRow) → tol.num < tol.den → IsIndexed tol r → HasPoints tol r
unfolding node_fraction
IsIndexed-HasPoints tol r small g =
    let e : node_fraction r ≡ fraction_of r.indexed_vectors_count r.points_count =
      rw g.is_reachable refl in
    let f =
      fraction_of-points tol r.indexed_vectors_count r.points_count small
        (subst (λ (x : Frac). x.den * tol.den ≤ x.num * tol.den + tol.num * x.den) e g.indexed) in
    record {
      idx = f.0;
      pts = f.1;
      idx_eq = f.2;
      pts_eq = f.3;
      some_points = f.4;
      most_indexed = f.5;
    }

All_imp :
    {A : Type 0} (P Q : A → Type 0) → ((a : A) → P a → Q a) → (xs : List A) → All P xs → All Q xs
All_imp P Q f [] h = tt
All_imp P Q f (x ∷ xs) h = (f x h.0, All_imp P Q f xs h.1)

-- A gate that is closed with a tolerance below 1 has seen points on every node in each of the last
-- polls, all but that fraction of them indexed: a collection without points does not close it.
pub decide-HasPoints :
    (history : List Poll) (tol : Frac) (consecutive : ℕ)
    → 0 < consecutive
    → tol.num < tol.den
    → (decide history tol consecutive).closed ≡ true
    → All (All (HasPoints tol)) (last_n consecutive history)
decide-HasPoints history tol consecutive some_polls small h =
    All_imp (IsGood tol) (All (HasPoints tol))
      (λ poll g.
        All_imp (IsIndexed tol) (HasPoints tol) (λ r. IsIndexed-HasPoints tol r small) poll
          g.all_indexed)
      (last_n consecutive history) ((decide_lem history tol consecutive some_polls).0.0 h).1
