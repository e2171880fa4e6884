-- ===== src/Qdrant/Run/Warmed.antt =====
-- When the extended warmup of research/cross_system_replication/qdrant_run_experiment.py goes on.
use nano_db.Common.{
  ℕ, zero, suc, ◌+◌, ◌≤◌, ◌<◌, ◌≡◌, refl, subst, ◌⊎◌, inl, inr, true, false, arith, Bool-cases, leb,
  if◌then◌else◌, ◌||◌,
}
use nano_db.Qdrant.Run.{Look, Phase, goes_on, exits, warmup_loop}

-- Some look from the given one on sees enough confirmed writes, and no look before it sees the corpus
-- exhausted or the cap reached.
pub record IsWritten (looks : ℕ → Look) (target first : ℕ) : Type 0 where
  pub at : ℕ
  pub from_first : first ≤ at
  pub enough : target ≤ (looks at).n_conf
  pub before : (i : ℕ) → first ≤ i → i < at → ((looks i).exhausted || (looks i).past_cap) ≡ false

-- The look is not the last one.
IsWritten-suc :
    (looks : ℕ → Look) (target i : ℕ)
    → ((looks i).exhausted || (looks i).past_cap) ≡ false
    → IsWritten looks target (suc i)
    → IsWritten looks target i
IsWritten-suc looks target i on h = record {
  at = h.at;
  from_first = omega (arith, h.from_first);
  enough = h.enough;
  before = λ k a b. elim (Bool-cases (leb (suc i) k)) [
    | inl later ↦ h.before k (ground arith) b
    | inr now ↦
        let same : i ≡ k = ground arith in
        subst (λ j. ((looks j).exhausted || (looks j).past_cap) ≡ false) same on
  ];
}

IsWritten-later :
    (looks : ℕ → Look) (target i : ℕ)
    → leb target (looks i).n_conf ≡ false
    → IsWritten looks target i
    → (((looks i).exhausted || (looks i).past_cap) ≡ false) × IsWritten looks target (suc i)
IsWritten-later looks target i few h =
    let apart : (i ≡ h.at) → ⊥ =
      λ e. let enough : target ≤ (looks i).n_conf = rw e h.enough in ground (arith, enough, few) in
    let lt : i < h.at = ground (arith, apart, h.from_first) in
    (
      h.before i (omega arith) lt,
      record {
        at = h.at;
        from_first = lt;
        enough = h.enough;
        before = λ k a b. h.before k (omega arith) b;
      },
    )

-- What a loop that starts at look `i` comes to.
abbrev pub IsWarmed : (ℕ → Look) → ℕ → ℕ → Phase → Type 0
IsWarmed looks target i end =
    ((end ≡ goes_on) × IsWritten looks target i)
    ⊎ ((end ≡ exits 4) × (IsWritten looks target i → ⊥))

-- A look that does not end the loop.
IsWarmed-suc :
    (looks : ℕ → Look) (target i : ℕ) (end : Phase)
    → leb target (looks i).n_conf ≡ false
    → ((looks i).exhausted || (looks i).past_cap) ≡ false
    → IsWarmed looks target (suc i) end
    → IsWarmed looks target i end
IsWarmed-suc looks target i end few on (inl (e, h)) = inl (e, IsWritten-suc looks target i on h)
IsWarmed-suc looks target i end few on (inr (e, h)) =
    inr (e, λ k. h (IsWritten-later looks target i few k).1)

-- A round of the loop, with `rest` for the rounds behind it.
warmup_round-IsWarmed :
    (looks : ℕ → Look) (target i : ℕ) (rest : Phase)
    → (((looks i).exhausted || (looks i).past_cap) ≡ false → IsWarmed looks target (suc i) rest)
    → IsWarmed looks target i (
        if leb target (looks i).n_conf
        then goes_on
        else (if (looks i).exhausted || (looks i).past_cap then exits 4 else rest))
warmup_round-IsWarmed looks target i rest h = elim (Bool-cases (leb target (looks i).n_conf)) [
  | inl full ↦
      let here : IsWritten looks target i = record {
        at = i;
        from_first = omega arith;
        enough = ground arith;
        before = λ k a b. absurd (omega arith);
      } in
      rw full (inl (refl, here))
  | inr few ↦ elim (Bool-cases ((looks i).exhausted || (looks i).past_cap)) [
    | inl over ↦
        rw (few, over)
          (inr (refl, λ k. absurd (cc ((IsWritten-later looks target i few k).0, over))))
    | inr on ↦ rw (few, on) (IsWarmed-suc looks target i rest few on (h on))
  ]
]

-- With a look past the cap within its fuel, the loop goes on exactly if enough is written, and else
-- exits with 4.
pub warmup_loop_lem :
    (looks : ℕ → Look) (target fuel i : ℕ)
    → (looks (i + fuel)).past_cap ≡ true
    → IsWarmed looks target i (warmup_loop looks target (suc fuel) i)
unfolding warmup_loop
warmup_loop_lem looks target zero i h =
    let e : i + 0 ≡ i = omega arith in
    let late : (looks i).past_cap ≡ true = subst (λ j. (looks j).past_cap ≡ true) e h in
    warmup_round-IsWarmed looks target i (warmup_loop looks target zero (suc i))
      (λ on. absurd (ground arith))
warmup_loop_lem looks target (suc fuel) i h =
    let e : i + suc fuel ≡ suc i + fuel = omega arith in
    let late = subst (λ j. (looks j).past_cap ≡ true) e h in
    warmup_round-IsWarmed looks target i (warmup_loop looks target (suc fuel) (suc i))
      (λ on. warmup_loop_lem looks target fuel (suc i) late)
