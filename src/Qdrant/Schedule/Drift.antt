-- ===== src/Qdrant/Schedule/Drift.antt =====
-- The verdict of research/qdrant_kill_scheduler/check_realized_schedule.py on the drift.
use nano_db.Common.{
  ℕ, ◌≤◌, ◌<◌, ◌≡◌, ◌↔◌, inl, inr, refl, List, [], ◌∷◌, true, length, ltb, leb, arith, All,
  Bool-cases, string_key,
}
use nano_db.Common.Int.{ℤ}
use nano_db.Qdrant.Schedule.Realized.{
  worst_of, abs_ℤ, drift_tolerance, drift_verdict, within_tolerance,
}

worst_of-bound :
    (t : ℕ) (w : ℤ) (ds : List ℤ)
    → (leb (abs_ℤ (worst_of w ds)) t ≡ true) ↔ ((abs_ℤ w ≤ t) × All (λ d. abs_ℤ d ≤ t) ds)
worst_of-bound t w [] = (λ h. (ground arith, tt), λ h. ground (arith, h.0))
worst_of-bound t w (d ∷ ds) = elim (Bool-cases (ltb (abs_ℤ w) (abs_ℤ d))) [
  | inl more ↦
      let ih = worst_of-bound t d ds in
      rw more
        (λ h. (ground (arith, (ih.0 h).0), ((ih.0 h).0, (ih.0 h).1)), λ h. ih.1 (h.1.0, h.1.1))
  | inr less ↦
      let ih = worst_of-bound t w ds in
      rw less (λ h. ((ih.0 h).0, (ground (arith, (ih.0 h).0), (ih.0 h).1)), λ h. ih.1 (h.0, h.1.1))
]

-- The gap drift is found within tolerance exactly if one was measured and each measured one is at
-- most the tolerance, early or late.
pub drift_verdict_lem :
    (drifts : List ℤ)
    → (drift_verdict drifts ≡ within_tolerance)
      ↔ ((0 < length drifts) × All (λ d. abs_ℤ d ≤ drift_tolerance) drifts)
unfolding drift_verdict
drift_verdict_lem [] = (λ h. absurd (cc), λ h. absurd (omega (arith, h.0)))
drift_verdict_lem (d ∷ ds) =
    let ih = worst_of-bound drift_tolerance d ds in
    elim (Bool-cases (leb (abs_ℤ (worst_of d ds)) drift_tolerance)) [
      | inl fine ↦ rw fine (λ _. (omega arith, ih.0 fine), λ _. refl)
      | inr far ↦ rw far (λ h. absurd (cc), λ h. absurd (cc (far, ih.1 h.1)))
    ]
