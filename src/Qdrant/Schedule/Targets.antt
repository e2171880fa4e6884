-- ===== src/Qdrant/Schedule/Targets.antt =====
-- The targets of a schedule of research/cross_system_replication/qdrant_docker_harness.py and of the
-- kills that are recorded of it.
use nano_db.Common.{
  ℕ, zero, suc, ◌≡◌, refl, ap, ap₂, sym, subst, List, [], ◌∷◌, map, true, false, if◌then◌else◌,
  length, take, replicate, eqb, arith, All, String, string_key, Bool-cases, inl, inr, Option,
}
use nano_db.Common.Sets.{contains, to_set, IsUnique}
use nano_db.Common.Members.{to_set_of_equal, length-to_set}
use nano_db.Qdrant.Schedule.{Step, KillEvent, steps_from, is_spread}
use nano_db.Qdrant.Schedule.Spacing.{AreTargets, spread_out, same_target, is_spread_iff}
use nano_db.Qdrant.Schedule.Ran.{AreKillsOf, and_then}
use nano_db.Qdrant.Schedule.Realized.{scheduled_kill, scheduled_of}

unfoldable pub targets_of : List KillEvent → List String
targets_of events = map (λ (e : KillEvent). e.target) events

pub steps_from-targets :
    (gap : ℕ) (targets : List String) (i at : ℕ)
    → map (λ (s : Step). s.target) (steps_from gap targets i at) ≡ targets
unfolding steps_from
steps_from-targets gap [] i at = refl
steps_from-targets gap (t ∷ targets) i at =
    ap (λ rest. t ∷ rest) (steps_from-targets gap targets (suc i) _)

pub AreKillsOf-targets :
    (condition : String) (steps : List Step) (events : List KillEvent)
    → AreKillsOf condition steps events
    → targets_of events ≡ take (length events) (map (λ (s : Step). s.target) steps)
unfolding targets_of
AreKillsOf-targets condition steps [] k = refl
AreKillsOf-targets condition [] (e ∷ events) k = elim k [ ]
AreKillsOf-targets condition (s ∷ steps) (e ∷ events) (and_then s₂ e₂ steps₂ events₂ k rest) =
    ap₂ ◌∷◌ k.target_eq (AreKillsOf-targets condition steps events rest)

contains-take :
    (a : String) (n : ℕ) (xs : List String) → contains a xs ≡ false → contains a (take n xs) ≡ false
contains-take a zero xs h = refl
contains-take a (suc n) [] h = refl
contains-take a (suc n) (x ∷ xs) h = ground (arith, contains-take a n xs)

take-IsUnique : (n : ℕ) (xs : List String) → IsUnique xs → IsUnique (take n xs)
take-IsUnique zero xs h = tt
take-IsUnique (suc n) [] h = tt
take-IsUnique (suc n) (x ∷ xs) h = (contains-take x n xs h.0, take-IsUnique n xs h.1)

abbrev AllEqual : String → List String → Type 0
AllEqual c xs = All (λ x. x ≡ c) xs

take-AllEqual : (m n : ℕ) (c : String) → AllEqual c (take m (replicate n c))
take-AllEqual zero n c = tt
take-AllEqual (suc m) zero c = tt
take-AllEqual (suc m) (suc n) c = (refl, take-AllEqual m n c)

not_spread : (condition : String) → (condition ≡ "spread" → ⊥) → is_spread condition ≡ false
not_spread condition h = elim (Bool-cases (is_spread condition)) [
  | inl c ↦ absurd (h ((is_spread_iff condition).0 c))
  | inr c ↦ c
]

-- Every start of a schedule's targets is hit as its condition wants.
pub targets_lem :
    (condition : String) (names targets : List String) (n : ℕ) (x : String) (xs : List String)
    (m : ℕ) (target : Option String)
    → IsUnique names
    → AreTargets condition names n target targets
    → x ∷ xs ≡ take m targets
    → (if is_spread condition
        then eqb (length (to_set (x ∷ xs))) (length (x ∷ xs))
        else eqb (length (to_set (x ∷ xs))) 1)
      ≡ true
targets_lem condition names targets n x xs m target u (spread_out c h) e =
    let spread : is_spread condition ≡ true = (is_spread_iff condition).1 c in
    let unique =
      subst IsUnique (sym e) (take-IsUnique m (take n names) (take-IsUnique n names u)) in
    rw spread (ground (arith, length-to_set (x ∷ xs) unique))
targets_lem condition names targets n x xs m target u (same_target other chosen _ h) e =
    let one = not_spread condition other in
    let same = subst (AllEqual chosen) (sym e) (take-AllEqual m n chosen) in
    rw (one, to_set_of_equal chosen x xs same) refl

pub scheduled_of-map : (es : List KillEvent) → scheduled_of (map scheduled_kill es) ≡ es
scheduled_of-map [] = refl
scheduled_of-map (e ∷ es) = ap (λ t. e ∷ t) (scheduled_of-map es)

pub first_condition :
    (condition : String) (steps : List Step) (e : KillEvent) (es : List KillEvent)
    → AreKillsOf condition steps (e ∷ es)
    → e.condition ≡ condition
first_condition condition [] e es k = elim k [ ]
first_condition condition (s ∷ steps) e es (and_then s₂ e₂ steps₂ es₂ k rest) = k.condition_eq
