-- ===== src/Qdrant/Catchup/Counted.antt =====
-- What research/qdrant_kill_scheduler/derive_catchup_time.py tallies over its runs.
use nano_db.Common.{
  ℕ, zero, suc, ◌<◌, ◌≡◌, refl, sym, ap, ◌∙◌, List, [], ◌∷◌, ◌++◌, append-nil, append_assoc, Option,
  none, some, get_elem?, eqb, eqb_iff, inl, inr, Bool-cases, arith,
}
use nano_db.Qdrant.Catchup.{
  Kill, Sample, Rounds, Catchup, caught_up, censored, catchup_for_kill, next_kill, Tally,
  add_catchup, tally_run, Run, sorted_kills, rounds_by_time, tally_runs,
}
use nano_db.Qdrant.Catchup.Level.{IsCatchup, catchup_for_kill_lem}

-- The time of the first of the kills that hits the node.
pub data IsNext (node : ℕ) (kills : List Kill) : Option ℕ → Type 0 where
  no_more :
      ((i : ℕ) (k : Kill) → get_elem? kills i ≡ some k → k.node ≡ node → ⊥) → IsNext node kills none
  next_at :
      (i : ℕ) (k : Kill)
      → get_elem? kills i ≡ some k
      → k.node ≡ node
      → ((j : ℕ) (x : Kill) → j < i → get_elem? kills j ≡ some x → x.node ≡ node → ⊥)
      → IsNext node kills (some k.t_rel)

later_kill :
    (node : ℕ) (x : Kill) (kills : List Kill) (o : Option ℕ)
    → (x.node ≡ node → ⊥)
    → IsNext node kills o
    → IsNext node (x ∷ kills) o
later_kill node x kills none h (no_more f) = no_more (go f)
  where
    go :
        ((i : ℕ) (k : Kill) → get_elem? kills i ≡ some k → k.node ≡ node → ⊥)
        → (i : ℕ) (k : Kill) → get_elem? (x ∷ kills) i ≡ some k
        → k.node ≡ node
        → ⊥
    go f zero k e n = h (let same : x ≡ k = cc in ap (λ (y : Kill). y.node) same ∙ n)
    go f (suc i) k e n = f i k e n
later_kill node x kills (some _) h (next_at i k e n f) = next_at (suc i) k e n (go f)
  where
    go :
        ((j : ℕ) (y : Kill) → j < i → get_elem? kills j ≡ some y → y.node ≡ node → ⊥)
        → (j : ℕ) (y : Kill) → j < suc i
        → get_elem? (x ∷ kills) j ≡ some y
        → y.node ≡ node
        → ⊥
    go f zero y l e n = h (let same : x ≡ y = cc in ap (λ (z : Kill). z.node) same ∙ n)
    go f (suc j) y l e n = f j y (omega arith) e n

next_kill-IsNext : (node : ℕ) (kills : List Kill) → IsNext node kills (next_kill node kills)
next_kill-IsNext node [] = no_more (λ i k e n. absurd (cc))
next_kill-IsNext node (x ∷ kills) = elim (Bool-cases (eqb x.node node)) [
  | inl here ↦
      rw here (next_at 0 x refl ((eqb_iff x.node node).0 here) (λ j y l e n. absurd (omega arith)))
  | inr other ↦ rw other (
      later_kill node x kills (next_kill node kills)
        (λ n. absurd (cc (other, (eqb_iff x.node node).1 n))) (next_kill-IsNext node kills))
]

-- One outcome for each kill of a run: its catch-up in the run's rounds, up to the next kill of its
-- node.
abbrev pub AreOutcomes : Rounds → ℕ → List Kill → List Catchup → Type 0
AreOutcomes rounds eps [] [] = Unit
AreOutcomes rounds eps [] (c ∷ cs) = ⊥
AreOutcomes rounds eps (k ∷ kills) [] = ⊥
AreOutcomes rounds eps (k ∷ kills) (c ∷ cs) =
    ((next : Option ℕ) × IsNext k.node kills next × IsCatchup k next eps rounds c)
    × AreOutcomes rounds eps kills cs

-- The outcomes of the runs in order, the kills of each in order of time.
abbrev pub AllOutcomes : ℕ → List Run → List Catchup → Type 0
AllOutcomes eps [] cs = cs ≡ []
AllOutcomes eps (r ∷ runs) cs =
    (here rest : List Catchup) × (cs ≡ here ++ rest)
    × AreOutcomes (rounds_by_time r.samples) eps (sorted_kills r.kills) here
    × AllOutcomes eps runs rest

-- The times of the outcomes that caught up, and of those that are censored.
abbrev pub caught_of : List Catchup → List ℕ
caught_of [] = []
caught_of (caught_up secs ∷ cs) = secs ∷ caught_of cs
caught_of (censored secs ∷ cs) = caught_of cs

abbrev pub censored_of : List Catchup → List ℕ
censored_of [] = []
censored_of (caught_up secs ∷ cs) = censored_of cs
censored_of (censored secs ∷ cs) = secs ∷ censored_of cs

-- The tally has gained the outcomes, each on its side.
pub record HasGained (cs : List Catchup) (t t' : Tally) : Type 0 where
  pub measured : t'.measured ≡ t.measured ++ caught_of cs
  pub interrupted : t'.interrupted ≡ t.interrupted ++ censored_of cs

gain_one :
    (c : Catchup) (cs : List Catchup) (t t' : Tally)
    → HasGained cs (add_catchup t c) t'
    → HasGained (c ∷ cs) t t'
gain_one (caught_up secs) cs t t' h = record {
  measured = h.measured ∙ append_assoc t.measured (secs ∷ []) (caught_of cs);
  interrupted = h.interrupted;
}
gain_one (censored secs) cs t t' h = record {
  measured = h.measured;
  interrupted = h.interrupted ∙ append_assoc t.interrupted (secs ∷ []) (censored_of cs);
}

caught_of-append : (cs ds : List Catchup) → caught_of (cs ++ ds) ≡ caught_of cs ++ caught_of ds
caught_of-append [] ds = refl
caught_of-append (caught_up secs ∷ cs) ds = ap (λ x. secs ∷ x) (caught_of-append cs ds)
caught_of-append (censored secs ∷ cs) ds = caught_of-append cs ds

censored_of-append :
    (cs ds : List Catchup) → censored_of (cs ++ ds) ≡ censored_of cs ++ censored_of ds
censored_of-append [] ds = refl
censored_of-append (caught_up secs ∷ cs) ds = censored_of-append cs ds
censored_of-append (censored secs ∷ cs) ds = ap (λ x. secs ∷ x) (censored_of-append cs ds)

gain_both :
    (cs ds : List Catchup) (t u v : Tally)
    → HasGained cs t u
    → HasGained ds u v
    → HasGained (cs ++ ds) t v
gain_both cs ds t u v h k = record {
  measured =
      k.measured
      ∙ ap (λ x. x ++ caught_of ds) h.measured
      ∙ append_assoc t.measured (caught_of cs) (caught_of ds)
      ∙ ap (λ x. t.measured ++ x) (sym (caught_of-append cs ds));
  interrupted =
      k.interrupted
      ∙ ap (λ x. x ++ censored_of ds) h.interrupted
      ∙ append_assoc t.interrupted (censored_of cs) (censored_of ds)
      ∙ ap (λ x. t.interrupted ++ x) (sym (censored_of-append cs ds));
}

tally_run_lem :
    (samples : List Sample) (eps : ℕ) (kills : List Kill) (t : Tally)
    → let rounds = rounds_by_time samples in
      (cs : List Catchup) × AreOutcomes rounds eps kills cs
      × HasGained cs t (tally_run rounds eps kills t)
unfolding tally_run
tally_run_lem samples eps [] t = (
  [],
  tt,
  record { measured = sym (append-nil t.measured); interrupted = sym (append-nil t.interrupted) },
)
tally_run_lem samples eps (k ∷ kills) t =
    let rounds = rounds_by_time samples in
    let next = next_kill k.node kills in
    let c = catchup_for_kill k next rounds eps in
    let (cs, a, g) = tally_run_lem samples eps kills (add_catchup t c) in
    (
      c ∷ cs,
      ((next, next_kill-IsNext k.node kills, catchup_for_kill_lem k next eps samples), a),
      gain_one c cs t (tally_run rounds eps kills (add_catchup t c)) g,
    )

-- Over the runs, the tally gains one outcome for each kill, in the order of the runs and of the kills'
-- times: the time to the first level round before the next kill of its node goes to the measured ones,
-- a kill without such a round to the censored ones.
pub tally_runs_lem :
    (eps : ℕ) (runs : List Run) (t : Tally)
    → (cs : List Catchup) × AllOutcomes eps runs cs × HasGained cs t (tally_runs eps runs t)
unfolding tally_runs
tally_runs_lem eps [] t = (
  [],
  refl,
  record { measured = sym (append-nil t.measured); interrupted = sym (append-nil t.interrupted) },
)
tally_runs_lem eps (r ∷ runs) t =
    let u = tally_run (rounds_by_time r.samples) eps (sorted_kills r.kills) t in
    let (here, a, g) = tally_run_lem r.samples eps (sorted_kills r.kills) t in
    let (rest, b, h) = tally_runs_lem eps runs u in
    (here ++ rest, (here, rest, refl, a, b), gain_both here rest t u (tally_runs eps runs u) g h)
