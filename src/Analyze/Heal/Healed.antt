-- ===== src/Analyze/Heal/Healed.antt =====
-- When `heal_stats` (research/replica_recall/analyze.py) says that a run healed.
use nano_db.Common.Int.{sub_ℕ, pos_part, neg_part}
use nano_db.Common.{
  ap, ap₂, ◌↔◌, ◌≢◌, ◌<◌, refl, sym, ◌∙◌, inl, inr, Bool-cases, Option-cases, ℕ, ◌+◌, ◌-◌, ◌*◌, ◌≤◌,
  ◌≡◌, Bool, true, false, Option, none, some, arith, if◌then◌else◌, ltb, leb, nat_key, string_key,
}
use nano_db.Common.Frac.{Frac}
use nano_db.Analyze.Heal.{
  PhaseStats, is_damaged, recovered, is_recovered, judge, last_stats, recovery_of,
}

sub_split : (x y z : ℕ) → y ≤ x → (x - y) * z + y * z ≡ x * z
sub_split x y z h = grind arith

cmp_lem :
    (x y d b : ℕ)
    → d + b ≡ x
    → (leb (9 * d + 10 * neg_part (sub_ℕ x y)) (10 * pos_part (sub_ℕ x y)) ≡ true)
      ↔ (10 * y ≤ x + 9 * b)
cmp_lem x y d b h = ground arith

-- Nine tenths of the damage are repaired exactly if ten times what remains is at most the damage.
recovered_iff :
    (at_stop last before : Frac)
    → is_damaged at_stop before ≡ true
    → (is_recovered (recovered at_stop last before) ≡ true) ↔ (
        10 * (last.num * at_stop.den * before.den)
        ≤ at_stop.num * last.den * before.den + 9 * (before.num * at_stop.den * last.den))
unfolding is_damaged recovered is_recovered
recovered_iff at_stop last before d =
    let x = at_stop.num * before.den in
    let y = before.num * at_stop.den in
    let below : y ≤ x = ground arith in
    let split = sub_split x y last.den below in
    let swap : at_stop.num * last.den * before.den ≡ x * last.den = grind arith in
    cmp_lem (at_stop.num * last.den * before.den) (last.num * at_stop.den * before.den)
      ((x - y) * last.den) (y * last.den) (split ∙ sym swap)

-- The verdict for a run with damage that has a mean of missing ids at the stop and at the end.
judge_lem :
    (before at_stop last : Frac)
    → ((judge before (some at_stop) (some last)).healed ≡ some true) ↔ (
        (is_damaged at_stop before ≡ true)
        × (10 * (last.num * at_stop.den * before.den)
            ≤ at_stop.num * last.den * before.den + 9 * (before.num * at_stop.den * last.den)))
unfolding judge
judge_lem before at_stop last = elim (Bool-cases (is_damaged at_stop before)) [
  | inl hurt ↦
      let h = recovered_iff at_stop last before hurt in
      rw hurt (λ q. (refl, h.0 (some_inj q)), λ q. ap some (h.1 q.1))
  | inr fine ↦ rw fine (λ q. absurd (cc), λ q. absurd (cc (q.0)))
]
  where
    some_inj : {a b : Bool} → some a ≡ some b → a ≡ b
    some_inj q = cc

-- What has to hold of a run that healed: the damage at the stop is more than a thousandth of a
-- millionth, and at most a tenth of it remains.
pub record IsHealed (before at_stop final : Frac) : Type 0 where
  pub damaged :
      before.num * at_stop.den * 1000 + at_stop.den * before.den < at_stop.num * before.den * 1000
  pub repaired :
      10 * (final.num * at_stop.den * before.den)
      ≤ at_stop.num * final.den * before.den + 9 * (before.num * at_stop.den * final.den)

-- The last of the three windows after the stop that has samples.
pub data IsLast (p0 p30 p60 last : PhaseStats) : Type 0 where
  in_60p : 0 < p60.n → last ≡ p60 → IsLast p0 p30 p60 last
  in_30_60 : p60.n ≡ 0 → 0 < p30.n → last ≡ p30 → IsLast p0 p30 p60 last
  in_0_30 : p60.n ≡ 0 → p30.n ≡ 0 → 0 < p0.n → last ≡ p0 → IsLast p0 p30 p60 last

-- The mean of the missing ids at the stop: that of the first window after it, or that of the last
-- window if the first one has no samples.
pub data IsAtStop (p0 last : PhaseStats) (at_stop : Frac) : Type 0 where
  first_window : 0 < p0.n → p0.missing ≡ some at_stop → IsAtStop p0 last at_stop
  last_window : p0.n ≡ 0 → last.missing ≡ some at_stop → IsAtStop p0 last at_stop

-- The three means of a run that healed.
pub record Healing (base p0 p30 p60 : PhaseStats) : Type 0 where
  pub last : PhaseStats
  pub before : Frac
  pub at_stop : Frac
  pub final : Frac
  pub is_last : IsLast p0 p30 p60 last
  pub before_eq : base.missing ≡ some before
  pub is_at_stop : IsAtStop p0 last at_stop
  pub final_eq : last.missing ≡ some final
  pub healed : IsHealed before at_stop final

IsHealed-iff :
    (before at_stop final : Frac)
    → ((judge before (some at_stop) (some final)).healed ≡ some true)
      ↔ IsHealed before at_stop final
unfolding is_damaged
IsHealed-iff before at_stop final =
    let h = judge_lem before at_stop final in
    (
      λ q. record { damaged = ground (arith, (h.0 q).0); repaired = (h.0 q).1 },
      λ q. h.1 (ground (arith, q.damaged), q.repaired),
    )

judge_unknown : (before : Frac) (final : Option Frac) → (judge before none final).healed ≢ some true
unfolding judge
judge_unknown before none = λ q. cc
judge_unknown before (some l) = λ q. cc

judge_open : (before s : Frac) → (judge before (some s) none).healed ≢ some true
unfolding judge
judge_open before s = elim (Bool-cases (is_damaged s before)) [
  | inl hurt ↦ rw hurt (λ q. cc)
  | inr fine ↦ rw fine (λ q. cc)
]

judge-IsHealed :
    (before : Frac) (stop final : Option Frac)
    → (judge before stop final).healed ≡ some true
    → (s l : Frac) × (stop ≡ some s) × (final ≡ some l) × IsHealed before s l
judge-IsHealed before none none h = absurd (judge_unknown before none h)
judge-IsHealed before none (some l) h = absurd (judge_unknown before (some l) h)
judge-IsHealed before (some s) none h = absurd (judge_open before s h)
judge-IsHealed before (some s) (some l) h = (s, l, refl, refl, (IsHealed-iff before s l).0 h)

module _ (p0 p30 p60 : PhaseStats) where
  last_stats-IsLast :
      (last : PhaseStats) → last_stats p0 p30 p60 ≡ some last → IsLast p0 p30 p60 last
  unfolding last_stats
  last_stats-IsLast last h = elim (Bool-cases (ltb 0 p60.n)) [
    | inl a ↦ in_60p (ground arith) (cc (rw a at h))
    | inr a ↦ elim (Bool-cases (ltb 0 p30.n)) [
      | inl b ↦ in_30_60 (ground arith) (ground arith) (cc (rw (a, b) at h))
      | inr b ↦ elim (Bool-cases (ltb 0 p0.n)) [
        | inl c ↦ in_0_30 (ground arith) (ground arith) (ground arith) (cc (rw (a, b, c) at h))
        | inr c ↦ absurd (cc (rw (a, b, c) at h))
      ]
    ]
  ]

  last_stats_eq : (last : PhaseStats) → IsLast p0 p30 p60 last → last_stats p0 p30 p60 ≡ some last
  unfolding last_stats
  last_stats_eq last (in_60p a q) = let a' : ltb 0 p60.n ≡ true = ground arith in rw (a', q)
  last_stats_eq last (in_30_60 a b q) =
      let a' : ltb 0 p60.n ≡ false = ground arith in
      let b' : ltb 0 p30.n ≡ true = ground arith in rw (a', b', q)
  last_stats_eq last (in_0_30 a b c q) =
      let a' : ltb 0 p60.n ≡ false = ground arith in
      let b' : ltb 0 p30.n ≡ false = ground arith in
      let c' : ltb 0 p0.n ≡ true = ground arith in rw (a', b', c', q)

  -- The value at the stop that `recovery_of` takes.
  abbrev stop_of : PhaseStats → Option Frac
  stop_of last = if ltb 0 p0.n then p0.missing else last.missing

  stop_of-IsAtStop : (last : PhaseStats) (s : Frac) → stop_of last ≡ some s → IsAtStop p0 last s
  stop_of-IsAtStop last s h = elim (Bool-cases (ltb 0 p0.n)) [
    | inl a ↦ first_window (ground arith) (rw a at h)
    | inr a ↦ last_window (ground arith) (rw a at h)
  ]

  stop_of_eq : (last : PhaseStats) (s : Frac) → IsAtStop p0 last s → stop_of last ≡ some s
  stop_of_eq last s (first_window a q) = let a' : ltb 0 p0.n ≡ true = ground arith in rw a' q
  stop_of_eq last s (last_window a q) = let a' : ltb 0 p0.n ≡ false = ground arith in rw a' q

  module _ (base : PhaseStats) where
    recovery_of_eq :
        (last : PhaseStats) (before : Frac)
        → last_stats p0 p30 p60 ≡ some last
        → base.missing ≡ some before
        → recovery_of base p0 p30 p60 ≡ judge before (stop_of last) last.missing
    unfolding recovery_of
    recovery_of_eq last before q r = rw (recovery_of, q, r)

    recovery_of-none :
        last_stats p0 p30 p60 ≡ none → (recovery_of base p0 p30 p60).healed ≢ some true
    unfolding recovery_of
    recovery_of-none q = rw (recovery_of, q) (λ h. cc)

    recovery_of_unknown :
        (last : PhaseStats)
        → last_stats p0 p30 p60 ≡ some last
        → base.missing ≡ none
        → (recovery_of base p0 p30 p60).healed ≢ some true
    unfolding recovery_of
    recovery_of_unknown last q r = rw (recovery_of, q, r) (λ h. cc)

    healed-Healing : (recovery_of base p0 p30 p60).healed ≡ some true → Healing base p0 p30 p60
    healed-Healing h = elim (Option-cases (last_stats p0 p30 p60)) [
      | inl q ↦ absurd (recovery_of-none q h)
      | inr (last, q) ↦ elim (Option-cases base.missing) [
        | inl r ↦ absurd (recovery_of_unknown last q r h)
        | inr (b, r) ↦
            let (s, l, es, el, healed) =
              judge-IsHealed b (stop_of last) last.missing
                (sym (ap (λ x. x.healed) (recovery_of_eq last b q r)) ∙ h) in
            record {
              last = last;
              before = b;
              at_stop = s;
              final = l;
              is_last = last_stats-IsLast last q;
              before_eq = r;
              is_at_stop = stop_of-IsAtStop last s es;
              final_eq = el;
              healed = healed;
            }
      ]
    ]

    Healing-healed : Healing base p0 p30 p60 → (recovery_of base p0 p30 p60).healed ≡ some true
    Healing-healed h =
        let q = recovery_of_eq h.last h.before (last_stats_eq h.last h.is_last) h.before_eq in
        let r = ap₂ (judge h.before) (stop_of_eq h.last h.at_stop h.is_at_stop) h.final_eq in
        ap (λ x. x.healed) (q ∙ r) ∙ (IsHealed-iff h.before h.at_stop h.final).1 h.healed

-- A run counts as healed exactly if a window after the stop has samples and three means of missing
-- ids are there (before the chaos, at the stop, and in the last window with samples), the second
-- exceeds the first by more than a thousandth of a millionth, and at most a tenth of that damage
-- is still missing in the last window. The mean at the stop is that of the first window, or that
-- of the last one with samples if the first has none.
pub recovery_of-Healing :
    (base p0 p30 p60 : PhaseStats)
    → ((recovery_of base p0 p30 p60).healed ≡ some true) ↔ Healing base p0 p30 p60
recovery_of-Healing base p0 p30 p60 =
    (healed-Healing p0 p30 p60 base, Healing-healed p0 p30 p60 base)
