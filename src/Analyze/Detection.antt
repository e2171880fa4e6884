-- ===== src/Analyze/Detection.antt =====
-- `resolution_eps` and `_detection_stats` of research/replica_recall/analyze.py: does agreement
-- between replicas single out the worst one?
pub mod Worst
use nano_db.Common.{
  ap, ap₂, ◌↔◌, ◌≢◌, ◌<◌, refl, sym, ◌∙◌, inl, inr, Bool-cases, Option-cases, ◌⊎◌, append-nil,
  append_assoc, length-append, All, ℕ, zero, suc, ◌+◌, ◌-◌, ◌*◌, ◌/◌, ◌≤◌, ◌≡◌, List, [], ◌∷◌, ◌++◌,
  map, Bool, true, false, not, ◌&&◌, ◌||◌, Option, none, some, arith, if◌then◌else◌, length, ltb,
  leb, eqb, String, Key, ◌==◌, min, max, nat_key, string_key,
}
use nano_db.Common.Sets.{count_if, select, eq_refl}
use nano_db.Common.Frac.{Frac, IsProportion}
use nano_db.Common.Sort.{sort}
use nano_db.Analyze.{Row, total, mean_of, group_into, instant_key}

-- An entry of the meta data: missing, a number, or what `int` rejects.
pub data MetaInt : Type 0 where
  missing bad : MetaInt
  number : ℕ → MetaInt

-- `int(x or d)`.
unfoldable pub int_or : MetaInt → ℕ → Option ℕ
int_or missing d = some d
int_or bad d = none
int_or (number n) d = some (if eqb n 0 then d else n)

-- `resolution_eps`.
unfoldable pub resolution_eps : MetaInt → MetaInt → Frac
unfolding int_or
resolution_eps k queries = elim (int_or k 10) [
  | none ↦ record { num = 1; den = 2000 }
  | some k' ↦ elim (int_or queries 100) [
    | none ↦ record { num = 1; den = 2000 }
    | some nq ↦ record { num = 1; den = 2 * (k' * nq) }
  ]
]

-- A replica of a group: its name, its agreement and its recall.
pub record Member : Type 0 where
  pub name : String
  pub loo : ℕ
  pub e2e : ℕ

unfoldable pub member_entry : Row → Option ((String × String) × Member)
member_entry r = if not (r.reachable) then none else elim (r.loo_agreement) [
  | none ↦ none
  | some loo ↦ elim (r.e2e_recall) [
    | none ↦ none
    | some e2e ↦ some ((r.t_text, r.shard), record { name = r.name; loo = loo; e2e = e2e })
  ]
]

-- The groups of at least three replicas.
unfoldable pub candidates_of : List ((String × String) × List Member) → List (List Member)
candidates_of [] = []
candidates_of ((k, g) ∷ groups) =
    let rest = candidates_of groups in if leb 3 (length g) then g ∷ rest else rest

-- `srt[1] - srt[0]`; the candidates have three members.
unfoldable pub gap_of_sorted : List ℕ → ℕ
gap_of_sorted [] = 0
gap_of_sorted (a ∷ []) = 0
gap_of_sorted (a ∷ b ∷ rest) = b - a

unfoldable pub worst_gap : List Member → ℕ
unfolding gap_of_sorted
worst_gap g = gap_of_sorted (sort leb (map (λ m. m.e2e) g))

-- The gap in millionths is at most the tolerance.
unfoldable pub is_tied : Frac → List Member → Bool
unfolding worst_gap
is_tied eps g = leb (worst_gap g * eps.den) (eps.num * 1000000)

unfoldable pub scored_of : Frac → List (List Member) → List (List Member)
unfolding is_tied
scored_of eps [] = []
scored_of eps (g ∷ gs) = let rest = scored_of eps gs in if is_tied eps g then rest else g ∷ rest

unfoldable pub tied_in : Frac → List (List Member) → ℕ
unfolding is_tied
tied_in eps [] = 0
tied_in eps (g ∷ gs) = (if is_tied eps g then 1 else 0) + tied_in eps gs

-- `min(g, key=...)`: the first member with the least key.
unfoldable pub min_by : (Member → ℕ) → Member → List Member → Member
min_by key m [] = m
min_by key m (x ∷ xs) = min_by key (if ltb (key x) (key m) then x else m) xs

unfoldable pub is_hit : List Member → Bool
unfolding min_by
is_hit [] = false
is_hit (m ∷ ms) = (min_by (λ x. x.loo) m ms).name == (min_by (λ x. x.e2e) m ms).name

unfoldable pub count_hits : List (List Member) → ℕ
unfolding is_hit
count_hits [] = 0
count_hits (g ∷ gs) = (if is_hit g then 1 else 0) + count_hits gs

-- `std() > 1e-9`: in millionths, that the values are not all equal.
unfoldable pub is_varied : List ℕ → Bool
is_varied [] = false
is_varied (x ∷ []) = false
is_varied (x ∷ y ∷ ys) = not (eqb x y) || is_varied (y ∷ ys)

-- The result; C is the type of the correlations that numpy computes.
pub record Detection (C : Type 0) : Type 0 where
  pub groups : ℕ
  pub tied_excluded : ℕ
  pub candidates : ℕ
  pub n_replicas : Option Frac
  pub hit_rate : Option Frac
  pub chance : Option Frac
  pub rank_corr : Option C
  pub margin : Option Frac

unfoldable pub inverse : Option Frac → Option Frac
inverse none = none
inverse (some q) = some (record { num = q.den; den = q.num })

module _ {C : Type 0} (corr : List ℕ → List ℕ → C) (mean_corr : List C → C) where
  -- `np.corrcoef` of the two rankings is the argument `corr`, `np.mean` of them `mean_corr`.
  unfoldable pub correlations : List (List Member) → List C
  unfolding is_varied
  correlations [] = []
  correlations (g ∷ gs) =
      let loo_v = map (λ m. m.loo) g in
      let e2e_v = map (λ m. m.e2e) g in
      let rest = correlations gs in
      if is_varied loo_v && is_varied e2e_v then corr loo_v e2e_v ∷ rest else rest

  unfoldable pub mean_if_any : List C → Option C
  mean_if_any [] = none
  mean_if_any (c ∷ cs) = some (mean_corr (c ∷ cs))

  unfoldable pub detection_of : Frac → List (List Member) → Option (Detection C)
  unfolding scored_of tied_in count_hits correlations mean_if_any mean_of inverse worst_gap
  detection_of eps [] = none
  detection_of eps (c ∷ cs) =
      let scored = scored_of eps (c ∷ cs) in
      let n_rep = mean_of (map length scored) in
      some (
        if ltb (length scored) 5
        then record {
          groups = length scored;
          tied_excluded = tied_in eps (c ∷ cs);
          candidates = length (c ∷ cs);
          n_replicas = none;
          hit_rate = none;
          chance = none;
          rank_corr = none;
          margin = none;
        }
        else record {
          groups = length scored;
          tied_excluded = tied_in eps (c ∷ cs);
          candidates = length (c ∷ cs);
          n_replicas = n_rep;
          hit_rate = some (record { num = count_hits scored; den = length scored });
          chance = inverse n_rep;
          rank_corr = mean_if_any (correlations scored);
          margin = mean_of (map worst_gap scored);
        })

  -- `_detection_stats`.
  unfoldable pub detection_stats : List Row → Frac → Option (Detection C)
  unfolding member_entry group_into candidates_of detection_of
  detection_stats rows tie_eps =
      detection_of tie_eps (candidates_of (group_into member_entry rows []))
