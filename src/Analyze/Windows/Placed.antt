-- ===== src/Analyze/Windows/Placed.antt =====
-- Which kill a row of the table around a failover is measured from
-- (research/replica_recall/analyze.py).
use nano_db.Common.{
  ◌<◌, refl, inl, inr, Bool-cases, All, ℕ, ◌-◌, ◌≤◌, ◌≡◌, List, [], ◌∷◌, Bool, true, false, ◌||◌,
  Option, none, some, arith, if◌then◌else◌, leb, ◌==◌, max, nat_key, string_key,
}
use nano_db.Common.Sets.{contains}
use nano_db.Analyze.{Row}
use nano_db.Analyze.Windows.{Kill, kills_of, last_kill, window_of, placed}

-- The last kill up to t: none if all are later, else the greatest that is not.
abbrev pub IsLast : ℕ → List ℕ → Option ℕ → Type 0
IsLast t ks none = All (λ k. t < k) ks
IsLast t ks (some m) = (m ≤ t) × (contains m ks ≡ true) × All (λ k. k ≤ t → k ≤ m) ks

All-later : (t k : ℕ) (ks : List ℕ) → All (λ j. t < j) ks → All (λ j. j ≤ t → j ≤ k) ks
All-later t k [] h = tt
All-later t k (j ∷ ks) h = (λ l. absurd (omega (arith, h.0)), All-later t k ks h.1)

All-max :
    (t k m : ℕ) (ks : List ℕ) → All (λ j. j ≤ t → j ≤ m) ks → All (λ j. j ≤ t → j ≤ max k m) ks
All-max t k m [] h = tt
All-max t k m (j ∷ ks) h = (λ l. let below : j ≤ m = h.0 l in omega arith, All-max t k m ks h.1)

max_le : (k m t : ℕ) → k ≤ t → m ≤ t → max k m ≤ t
max_le k m t h l = omega arith

contains-max :
    (k m : ℕ) (ks : List ℕ) → contains m ks ≡ true → (max k m == k || contains (max k m) ks) ≡ true
contains-max k m ks h = elim (Bool-cases (leb m k)) [
  | inl small ↦ let q : max k m ≡ k = ground arith in ground arith
  | inr large ↦ let q : max k m ≡ m = ground arith in rw q (ground arith)
]

last_kill-IsLast : (t : ℕ) (ks : List ℕ) → IsLast t ks (last_kill t ks)
unfolding last_kill
last_kill-IsLast t [] = tt
last_kill-IsLast t (k ∷ ks) = step_lem (last_kill t ks) (last_kill-IsLast t ks) (leb k t) refl
  where
    step_lem :
        (o : Option ℕ)
        → IsLast t ks o
        → (b : Bool) → leb k t ≡ b
        → IsLast t (k ∷ ks) (if b then (elim o [ none ↦ some k | some m ↦ some (max k m) ]) else o)
    step_lem none h false q = (ground arith, h)
    step_lem (some m) h false q = (h.0, ground (arith, h.1), (λ l. absurd (ground arith), h.2))
    step_lem none h true q = (ground arith, ground arith, (λ l. omega arith, All-later t k ks h))
    step_lem (some m) h true q = (
      max_le k m t (ground arith) h.0,
      contains-max k m ks h.1,
      (λ l. omega arith, All-max t k m ks h.2),
    )

-- A row is placed by the greatest kill of its process that is not after it, or before any kill if
-- there is none.
pub placed_lem :
    (events : List Kill) (r : Row) (t : ℕ)
    → (o : Option ℕ) × IsLast t (kills_of r.name events) o
      × (placed events r t ≡ window_of (elim o [ none ↦ none | some k ↦ some (t - k) ]))
unfolding placed
placed_lem events r t =
    (last_kill t (kills_of r.name events), last_kill-IsLast t (kills_of r.name events), refl)
