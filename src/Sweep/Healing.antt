-- ===== src/Sweep/Healing.antt =====
-- The verdict of `report_healing` (research/replica_recall/aggregate.py).
use nano_db.Common.{
  ◌≢◌, ℕ, ◌+◌, ◌≤◌, ◌<◌, ◌≡◌, refl, List, [], ◌||◌, ◌⊎◌, ◌∷◌, Bool, true, false, arith,
  if◌then◌else◌, length, ltb, eqb, inl, inr, Bool-cases, Option, none, some, Option-cases,
}
use nano_db.Sweep.{
  Heal, HealRow, Phase, last_phase, heal_row, heal_rows, sum_flags, verdict_of, report_healing,
  Verdict, silent, no_damage, heals, does_not_heal, mixed,
}

-- The run has samples after the stop.
abbrev pub has_after : Heal → Bool
has_after h = ltb 0 h.post60p.n || ltb 0 h.post30_60.n || ltb 0 h.post0_30.n

-- The run counts as healed (or as not healed): it has samples after the stop, and says so.
abbrev pub said : Bool → Option Bool → ℕ
said b none = 0
said true (some f) = if f then 1 else 0
said false (some f) = if f then 0 else 1

abbrev pub counts_as : Bool → Heal → ℕ
counts_as b h = if has_after h then said b h.healed else 0

abbrev pub runs_as : Bool → List (ℕ × Heal) → ℕ
runs_as b [] = 0
runs_as b ((seed, h) ∷ runs) = counts_as b h + runs_as b runs

-- What a verdict says of the numbers of runs that healed and that did not.
abbrev pub IsVerdict : List (ℕ × Heal) → Verdict → Type 0
IsVerdict runs silent = runs ≡ []
IsVerdict runs no_damage = (runs ≢ []) × (runs_as true runs ≡ 0) × (runs_as false runs ≡ 0)
IsVerdict runs heals = (0 < runs_as true runs) × (runs_as false runs ≡ 0)
IsVerdict runs does_not_heal = (runs_as true runs ≡ 0) × (0 < runs_as false runs)
IsVerdict runs mixed = (0 < runs_as true runs) × (0 < runs_as false runs)

last_phase_lem :
    (h : Heal)
    → ((last_phase h ≡ none) × (has_after h ≡ false))
      ⊎ ((p : Phase) × (last_phase h ≡ some p) × (has_after h ≡ true))
unfolding last_phase
last_phase_lem h = elim (Bool-cases (ltb 0 h.post60p.n)) [
  | inl a ↦ rw a (inr (h.post60p, refl, refl))
  | inr a ↦ elim (Bool-cases (ltb 0 h.post30_60.n)) [
    | inl b ↦ rw (a, b) (inr (h.post30_60, refl, refl))
    | inr b ↦ elim (Bool-cases (ltb 0 h.post0_30.n)) [
      | inl c ↦ rw (a, b, c) (inr (h.post0_30, refl, refl))
      | inr c ↦ rw (a, b, c) (inl (refl, refl))
    ]
  ]
]

-- What a run adds to the rows.
record Adds (h : Heal) (o : Option HealRow) : Type 0 where
  healed_rows : counts_as true h ≡ elim o [ none ↦ 0 | some r ↦ if r.flag then 1 else 0 ]
  all_rows : counts_as true h + counts_as false h ≡ elim o [ none ↦ 0 | some r ↦ 1 ]

heal_row_lem : (seed : ℕ) (h : Heal) → Adds h (heal_row seed h)
unfolding heal_row
heal_row_lem seed h = elim (last_phase_lem h) [
  | inl (nothing, quiet) ↦
      rw (heal_row, nothing) (record { healed_rows = simp quiet refl; all_rows = simp quiet refl })
  | inr (last, found, after) ↦ elim (Option-cases h.healed) [
    | inl unknown ↦
        rw (heal_row, found, unknown)
          (record { healed_rows = simp after refl; all_rows = simp after refl })
    | inr (flag, known) ↦
        rw (heal_row, found, known)
          (record { healed_rows = simp after refl; all_rows = simp after (ground arith) })
  ]
]

sum_nil : sum_flags [] ≡ 0
unfolding sum_flags
sum_nil = refl

sum_cons :
    (r : HealRow) (rows : List HealRow)
    → sum_flags (r ∷ rows) ≡ (if r.flag then 1 else 0) + sum_flags rows
unfolding sum_flags
sum_cons r rows = refl

flags_le : (rows : List HealRow) → sum_flags rows ≤ length rows
unfolding sum_flags
flags_le [] = omega arith
flags_le (r ∷ rows) = ground (arith, flags_le rows)

rows_lem :
    (runs : List (ℕ × Heal))
    → (sum_flags (heal_rows runs) ≡ runs_as true runs)
      × (length (heal_rows runs) ≡ runs_as true runs + runs_as false runs)
unfolding heal_rows
rows_lem [] = (sum_nil, refl)
rows_lem ((seed, h) ∷ runs) =
    let (a, b) = rows_lem runs in step_lem (heal_row seed h) (heal_row_lem seed h) a b
  where
    step_lem :
        (o : Option HealRow)
        → Adds h o
        → sum_flags (heal_rows runs) ≡ runs_as true runs
        → length (heal_rows runs) ≡ runs_as true runs + runs_as false runs
        → (sum_flags (elim o [ none ↦ heal_rows runs | some row ↦ row ∷ heal_rows runs ])
            ≡ runs_as true ((seed, h) ∷ runs))
          × (length (elim o [ none ↦ heal_rows runs | some row ↦ row ∷ heal_rows runs ])
              ≡ runs_as true ((seed, h) ∷ runs) + runs_as false ((seed, h) ∷ runs))
    step_lem none k a b = (omega (arith, k.all_rows, k.healed_rows), omega (arith, k.all_rows))
    step_lem (some r) k a b =
        (omega (arith, k.healed_rows, sum_cons r (heal_rows runs)), omega (arith, k.all_rows))

-- The verdict is silent exactly without quiesce runs; otherwise it says whether the runs that have
-- samples after the stop and a judgement healed all, not at all or in part, or that there are none.
pub report_healing_lem : (runs : List (ℕ × Heal)) → IsVerdict runs (report_healing runs)
unfolding report_healing
report_healing_lem [] = refl
report_healing_lem (run ∷ runs) =
    let (a, b) = rows_lem (run ∷ runs) in verdict_lem (heal_rows (run ∷ runs)) a b
  where
    verdict_lem :
        (rows : List HealRow)
        → sum_flags rows ≡ runs_as true (run ∷ runs)
        → length rows ≡ runs_as true (run ∷ runs) + runs_as false (run ∷ runs)
        → IsVerdict (run ∷ runs) (verdict_of rows)
    verdict_lem [] a b = ((λ q. cc), omega (arith, a, b, sum_nil), omega (arith, a, b, sum_nil))
    verdict_lem (r ∷ rows) a b =
        elim (Bool-cases (eqb (sum_flags (r ∷ rows)) (length (r ∷ rows)))) [
          | inl all ↦ rw all (ground arith, ground arith)
          | inr some_not ↦ elim (Bool-cases (eqb (sum_flags (r ∷ rows)) 0)) [
            | inl nothing ↦ rw (some_not, nothing) (ground arith, ground arith)
            | inr part ↦ rw (some_not, part) (ground arith, ground (arith, flags_le (r ∷ rows)))
          ]
        ]
