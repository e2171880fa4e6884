-- ===== src/Qdrant/Catchup/Level.antt =====
-- When research/qdrant_kill_scheduler/derive_catchup_time.py finds a killed node level again.
use nano_db.Common.{
  refl, suc, get_elem?, ℕ, ◌-◌, ◌≤◌, ◌<◌, ◌≡◌, inl, inr, List, [], ◌∷◌, true, false, Option, none,
  some, leb, leb→le, arith, All, Bool-cases,
}
use nano_db.Common.Sort.{IsSorted, sort-IsSorted}
use nano_db.Qdrant.Catchup.Closeness.{IsLevel, is_level_iff}
use nano_db.Qdrant.Catchup.{
  Kill, Sample, Seen, Rounds, by_time, group_samples, rounds_by_time, is_level, is_over, Catchup,
  caught_up, censored, catchup_loop, catchup_for_kill,
}

-- The round is after the kill and before the node's next one.
abbrev pub InWindow : Kill → Option ℕ → ℕ → Type 0
InWindow kill none t = kill.t_rel < t
InWindow kill (some next) t = (kill.t_rel < t) × (t < next)

-- No round of the window is level; up to a time, or at all.
abbrev pub NoneLevel : Kill → Option ℕ → ℕ → (ℕ → Type 0) → Rounds → Type 0
NoneLevel kill next eps early rounds =
    All (λ r. InWindow kill next r.0 → early r.0 → IsLevel kill.node eps r.1 → ⊥) rounds

-- How the search for the first level round ends.
pub data IsCatchup (kill : Kill) (next : Option ℕ) (eps : ℕ) (rounds : Rounds)
    : Catchup → Type 0 where
  -- Some round of the list is in the window and level, and none of it at an earlier time is both.
  level_at :
      (i t : ℕ) (rows : List Seen)
      → get_elem? rounds i ≡ some (t, rows)
      → InWindow kill next t
      → IsLevel kill.node eps rows
      → NoneLevel kill next eps (λ u. u < t) rounds
      → IsCatchup kill next eps rounds (caught_up (t - kill.t_rel))
  -- No round of the list is both.
  never :
      (s : ℕ)
      → NoneLevel kill next eps (λ u. Unit {0}) rounds
      → IsCatchup kill next eps rounds (censored s)

module _ (kill : Kill) (next : Option ℕ) (eps : ℕ) where
  over_later : (o : Option ℕ) (t u : ℕ) → is_over o t ≡ true → t ≤ u → InWindow kill o u → ⊥
  over_later none t u h k w = absurd (cc)
  over_later (some n) t u h k w = absurd (ground (arith, h, k, w.1))

  over_rest :
      (t : ℕ) (rows : List Seen) (rounds : Rounds)
      → is_over next t ≡ true
      → All (λ y. by_time (t, rows) y ≡ true) rounds
      → NoneLevel kill next eps (λ u. Unit {0}) rounds
  over_rest t rows [] h k = tt
  over_rest t rows (r ∷ rounds) h k =
      (λ w e l. over_later next t r.0 h (leb→le t r.0 k.0) w, over_rest t rows rounds h k.1)

  not_earlier :
      (t : ℕ) (rows : List Seen) (rounds : Rounds)
      → All (λ y. by_time (t, rows) y ≡ true) rounds
      → NoneLevel kill next eps (λ u. u < t) rounds
  not_earlier t rows [] k = tt
  not_earlier t rows (r ∷ rounds) k =
      (λ w e l. absurd (omega (arith, e, leb→le t r.0 k.0)), not_earlier t rows rounds k.1)

  window_lem : (o : Option ℕ) (t : ℕ) → kill.t_rel < t → is_over o t ≡ false → InWindow kill o t
  window_lem none t a b = a
  window_lem (some n) t a b = (a, ground arith)

  started : (o : Option ℕ) (t : ℕ) → InWindow kill o t → kill.t_rel < t
  started none t w = w
  started (some n) t w = w.0

  skip_lem :
      (t : ℕ) (rows : List Seen) (rounds : Rounds) (c : Catchup)
      → (InWindow kill next t → IsLevel kill.node eps rows → ⊥)
      → IsCatchup kill next eps rounds c
      → IsCatchup kill next eps ((t, rows) ∷ rounds) c
  skip_lem t rows rounds (caught_up _) skip (level_at i u rows' e w level before) =
      level_at (suc i) u rows' e w level (λ v _ l. skip v l, before)
  skip_lem t rows rounds (censored _) skip (never s none_level) =
      never s (λ v _ l. skip v l, none_level)

  catchup_loop-IsCatchup :
      (last_seen : ℕ) (rounds : Rounds)
      → IsSorted by_time rounds
      → IsCatchup kill next eps rounds (catchup_loop kill next eps last_seen rounds)
  unfolding catchup_loop
  catchup_loop-IsCatchup last_seen [] h = never _ tt
  catchup_loop-IsCatchup last_seen ((t, rows) ∷ rounds) h =
      let iff = is_level_iff kill.node eps rows in
      elim (Bool-cases (leb t kill.t_rel)) [
        | inl early ↦ rw early (
            skip_lem t rows rounds _ (λ w l. absurd (ground (arith, early, started next t w)))
              (catchup_loop-IsCatchup last_seen rounds h.1))
        | inr late ↦ elim (Bool-cases (is_over next t)) [
          | inl over ↦
              rw (late, over)
                (never _ (
                  λ w e l. over_later next t t over (omega arith) w,
                  over_rest t rows rounds over h.0,
                ))
          | inr open' ↦
              let here = window_lem next t (ground arith) open' in
              elim (Bool-cases (is_level kill.node eps rows)) [
                | inl level ↦
                    rw (late, open', level)
                      (level_at 0 t rows refl here (iff.0 level)
                        (λ w e l. absurd (omega (arith, e)), not_earlier t rows rounds h.0))
                | inr behind ↦
                    rw (late, open', behind)
                      (skip_lem t rows rounds _ (λ w l. absurd (cc (behind, iff.1 l)))
                        (catchup_loop-IsCatchup t rounds h.1))
              ]
        ]
      ]

-- A kill's catch-up is the time to the first of the run's rounds, after the kill and before the node's
-- next one, in which some replica of the node is there and each is at most eps below every replica of
-- another node in its shard; it is censored exactly if no round of the run is such.
pub catchup_for_kill_lem :
    (kill : Kill) (next : Option ℕ) (eps : ℕ) (samples : List Sample)
    → IsCatchup kill next eps
        (rounds_by_time samples)
        (catchup_for_kill kill next (rounds_by_time samples) eps)
unfolding catchup_for_kill rounds_by_time
catchup_for_kill_lem kill next eps samples =
    catchup_loop-IsCatchup kill next eps kill.t_rel (rounds_by_time samples) (
      sort-IsSorted by_time (λ a b. ground arith) (λ a b c p q. ground arith)
        (group_samples samples []))
