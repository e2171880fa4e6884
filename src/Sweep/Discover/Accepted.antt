-- ===== src/Sweep/Discover/Accepted.antt =====
-- Which sweeps `discover` accepts, and what it returns (research/replica_recall/aggregate.py).
use nano_db.Common.{
  ℕ, ◌≡◌, refl, sym, List, [], ◌∙◌, append-nil, append_assoc, ◌∷◌, ◌++◌, Bool, true, false, arith,
  if◌then◌else◌, length, ltb, inl, inr, Bool-cases, Option, none, some, String, string_key, ◌==◌,
  ◌||◌, not,
}
use nano_db.Common.Sets.{contains, contains-append, IsUnique, eq_refl}
use nano_db.Sweep.Discover.{
  Condition, baseline, chaos, quiesce, RunDir, Found, dist_of, add_run, add_dist, scan, discover,
}

one_dist :
    (ds : List String) (a b : String)
    → ltb 1 (length ds) ≡ false
    → contains a ds ≡ true
    → contains b ds ≡ true
    → a ≡ b
one_dist [] a b l m n = absurd (cc)
one_dist (d ∷ []) a b l m n =
    let p : a ≡ d = (string_key.same_iff a d).0 (ground arith) in
    let q : b ≡ d = (string_key.same_iff b d).0 (ground arith) in p ∙ sym q
one_dist (c ∷ d ∷ ds) a b l m n = absurd (ground arith)

old_lem :
    (e d : String) (ds : List String)
    → contains d ds ≡ true
    → contains e ds ≡ (contains e ds || e == d)
old_lem e d ds old = elim (Bool-cases (e == d)) [
  | inl same ↦
      let q : e ≡ d = (string_key.same_iff e d).0 same in
      let there : contains e ds ≡ true = rw q old in ground arith
  | inr other ↦ ground arith
]

contains-add_dist :
    (e d : String) (ds : List String) → contains e (add_dist d ds) ≡ (contains e ds || e == d)
unfolding add_dist
contains-add_dist e d ds = elim (Bool-cases (contains d ds)) [
  | inl old ↦ rw old (old_lem e d ds old)
  | inr new ↦ rw new (ground (arith, contains-append e ds (d ∷ [])))
]

add_dist-IsUnique : (d : String) (ds : List String) → IsUnique ds → IsUnique (add_dist d ds)
unfolding add_dist
add_dist-IsUnique d ds u = elim (Bool-cases (contains d ds)) [
  | inl old ↦ rw old u
  | inr new ↦ rw new (snoc_unique d ds new u)
]
  where
    snoc_unique :
        (d : String) (ds : List String)
        → contains d ds ≡ false
        → IsUnique ds
        → IsUnique (ds ++ d ∷ [])
    snoc_unique d [] h u = (refl, tt)
    snoc_unique d (x ∷ ds) h u = (
      ground
          (arith, contains-append x ds (d ∷ []), string_key.same_iff x d, string_key.same_iff d x),
      snoc_unique d ds (ground arith) u.1,
    )

abbrev pub is_condition : Condition → Condition → Bool
is_condition baseline baseline = true
is_condition chaos chaos = true
is_condition quiesce quiesce = true
is_condition _ _ = false

module _ {S : Type 0} where
  -- The distributions of the runs that have samples.
  abbrev pub dists_in : List (RunDir S) → List String
  unfolding dist_of
  dists_in [] = []
  dists_in (r ∷ dirs) =
      if not (r.has_samples) then dists_in dirs else dist_of (r.dist) ∷ dists_in dirs

  -- The runs of a condition that have samples, in order.
  abbrev pub runs_of : Condition → List (RunDir S) → List (ℕ × S)
  runs_of c [] = []
  runs_of c (r ∷ dirs) =
      let rest = runs_of c dirs in
      if not (r.has_samples)
      then rest
      else (if is_condition c (r.condition) then (r.seed, r.summary) ∷ rest else rest)

  abbrev pub runs_in : Condition → Found S → List (ℕ × S)
  runs_in baseline f = f.baseline_runs
  runs_in chaos f = f.chaos_runs
  runs_in quiesce f = f.quiesce_runs

  add_run_lem :
      (d c : Condition) (x : ℕ × S) (f : Found S) (rest : List (ℕ × S))
      → runs_in d (add_run c x f) ++ rest
        ≡ runs_in d f ++ (if is_condition d c then x ∷ rest else rest)
  unfolding add_run
  add_run_lem baseline baseline x f rest = append_assoc f.baseline_runs (x ∷ []) rest
  add_run_lem baseline chaos x f rest = refl
  add_run_lem baseline quiesce x f rest = refl
  add_run_lem chaos baseline x f rest = refl
  add_run_lem chaos chaos x f rest = append_assoc f.chaos_runs (x ∷ []) rest
  add_run_lem chaos quiesce x f rest = refl
  add_run_lem quiesce baseline x f rest = refl
  add_run_lem quiesce chaos x f rest = refl
  add_run_lem quiesce quiesce x f rest = append_assoc f.quiesce_runs (x ∷ []) rest

  scan_runs :
      (d : Condition) (dirs : List (RunDir S)) (ds : List String) (f : Found S)
      → runs_in d ((scan dirs ds f).1) ≡ runs_in d f ++ runs_of d dirs
  unfolding scan
  scan_runs d [] ds f = sym (append-nil (runs_in d f))
  scan_runs d (r ∷ dirs) ds f = elim (Bool-cases r.has_samples) [
    | inr bare ↦ simp bare (scan_runs d dirs ds f)
    | inl there ↦
        let x : ℕ × S = (r.seed, r.summary) in
        let f' = add_run r.condition x f in
        let h = scan_runs d dirs (add_dist (dist_of r.dist) ds) f' in
        simp there (h ∙ add_run_lem d r.condition x f (runs_of d dirs))
  ]

  contains-scan :
      (e : String) (dirs : List (RunDir S)) (ds : List String) (f : Found S)
      → contains e ((scan dirs ds f).0) ≡ (contains e ds || contains e (dists_in dirs))
  unfolding scan dists_in
  contains-scan e [] ds f = ground arith
  contains-scan e (r ∷ dirs) ds f = elim (Bool-cases r.has_samples) [
    | inr bare ↦ simp bare (contains-scan e dirs ds f)
    | inl there ↦
        let d = dist_of r.dist in
        let f' = add_run r.condition (r.seed, r.summary) f in
        simp there
          (ground (arith, contains-scan e dirs (add_dist d ds) f', contains-add_dist e d ds))
  ]

  scan-IsUnique :
      (dirs : List (RunDir S)) (ds : List String) (f : Found S)
      → IsUnique ds
      → IsUnique ((scan dirs ds f).0)
  unfolding scan
  scan-IsUnique [] ds f u = u
  scan-IsUnique (r ∷ dirs) ds f u = elim (Bool-cases r.has_samples) [
    | inr bare ↦ simp bare (scan-IsUnique dirs ds f u)
    | inl there ↦
        let d = dist_of r.dist in
        let f' = add_run r.condition (r.seed, r.summary) f in
        simp there (scan-IsUnique dirs (add_dist d ds) f' (add_dist-IsUnique d ds u))
  ]

  -- What the result says: runs of two distributions if it is refused, and otherwise runs of at
  -- most one distribution and, by condition and in order, exactly the runs with samples.
  abbrev pub IsDiscovered : List (RunDir S) → Option (Found S) → Type 0
  IsDiscovered dirs none =
      ((a : String) × (b : String) × (contains a (dists_in dirs) ≡ true)
        × (contains b (dists_in dirs) ≡ true)
        × ((a == b) ≡ false))
  IsDiscovered dirs (some out) =
      ((a b : String)
        → contains a (dists_in dirs) ≡ true
        → contains b (dists_in dirs) ≡ true
        → a ≡ b)
      × ((d : Condition) → runs_in d out ≡ runs_of d dirs)

  discover_none :
      (dirs : List (RunDir S)) (ds : List String)
      → ((e : String) → contains e ds ≡ contains e (dists_in dirs))
      → IsUnique ds
      → ltb 1 (length ds) ≡ true
      → IsDiscovered dirs none
  discover_none dirs [] h u l = absurd (ground arith)
  discover_none dirs (a ∷ []) h u l = absurd (ground arith)
  discover_none dirs (a ∷ b ∷ ds) h u l =
      (a, b, ground (arith, h a, eq_refl a), ground (arith, h b, eq_refl b), ground (arith, u.0))

  -- A sweep is refused only if two of its runs with samples have different distributions, and
  -- accepted only if they all have one; what is accepted is, by condition and in the order of the
  -- directories, exactly the runs with samples.
  pub discover_lem : (dirs : List (RunDir S)) → IsDiscovered dirs (discover dirs)
  unfolding discover
  discover_lem dirs =
      let start : Found S = record { baseline_runs = []; chaos_runs = []; quiesce_runs = [] } in
      let ds = (scan dirs [] start).0 in
      let keys = λ (e : String). contains-scan e dirs [] start in
      elim (Bool-cases (ltb 1 (length ds))) [
        | inl many ↦ rw many (discover_none dirs ds keys (scan-IsUnique dirs [] start tt) many)
        | inr one ↦ rw one (
          λ a b m n. one_dist ds a b one (keys a ∙ m) (keys b ∙ n),
          λ d. runs_lem d (scan_runs d dirs [] start),
        )
      ]
    where
      runs_lem :
          (d : Condition)
          → runs_in d
              ((scan dirs [] (record { baseline_runs = []; chaos_runs = []; quiesce_runs = [] })).1)
            ≡ runs_in d (record { baseline_runs = []; chaos_runs = []; quiesce_runs = [] })
              ++ runs_of d dirs
          → runs_in d
              ((scan dirs [] (record { baseline_runs = []; chaos_runs = []; quiesce_runs = [] })).1)
            ≡ runs_of d dirs
      runs_lem baseline h = h
      runs_lem chaos h = h
      runs_lem quiesce h = h
