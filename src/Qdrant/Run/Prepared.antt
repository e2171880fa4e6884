-- ===== src/Qdrant/Run/Prepared.antt =====
-- When a run of research/cross_system_replication/qdrant_run_experiment.py comes to its sampler.
use nano_db.Common.{
  ℕ, suc, ◌*◌, ◌+◌, ◌≤◌, ◌<◌, ◌≡◌, refl, sym, List, ap, subst, ◌∙◌, ◌⊎◌, inl, inr, true, false,
  arith, Bool, Bool-cases, Option, none, some, ltb, range, if◌then◌else◌,
}
use nano_db.Common.Int.{pos_part}
use nano_db.Qdrant.Gate.Waited.{verdict, is_last, wait_for_index_gate_lem}
use nano_db.Common.Frac.{Result, ok, raise}
use nano_db.Qdrant.Topology.{replicas_per_shard, BringUp}
use nano_db.Qdrant.Topology.Ready.{IsUp, IsBroughtUp, is_up, is_down, has_raised}
use nano_db.Qdrant.Run.{
  Args, World, Phase, goes_on, exits, warm_up, of_gate, tol_of, stuck, raises, gate, gate_end,
  and_then, came_up,
}
use nano_db.Qdrant.Run.Warmed.{IsWritten, warmup_loop_lem}

-- A phase that ends the run: with a code that is not 0, or by an exception.
abbrev pub IsStop : Phase → Type 0
IsStop goes_on = ⊥
IsStop stuck = ⊥
IsStop (raises e) = Unit
IsStop (exits code) = 0 < code

-- The phase goes on exactly under the condition, and else ends the run.
abbrev pub IsDecided : Type 0 → Phase → Type 0
IsDecided P phase = ((phase ≡ goes_on) × P) ⊎ (IsStop phase × (P → ⊥))

pub and_then-IsDecided :
    {P Q : Type 0} (p q : Phase) → IsDecided P p → IsDecided Q q → IsDecided (P × Q) (and_then p q)
and_then-IsDecided goes_on q (inl (e, h)) (inl (f, k)) = inl (f, (h, k))
and_then-IsDecided goes_on q (inl (e, h)) (inr (s, k)) = inr (s, λ b. k b.1)
and_then-IsDecided goes_on q (inr (s, h)) d = absurd s
and_then-IsDecided stuck q (inl (e, h)) d = absurd (cc)
and_then-IsDecided stuck q (inr (s, h)) d = absurd s
and_then-IsDecided (raises x) q (inl (e, h)) d = absurd (cc)
and_then-IsDecided (raises x) q (inr (s, h)) d = inr (tt, λ b. h b.0)
and_then-IsDecided (exits code) q (inl (e, h)) d = absurd (cc)
and_then-IsDecided (exits code) q (inr (s, h)) d = inr (s, λ b. h b.0)

-- In some round the gate is closed, and it was neither closed nor out of time in a round before.
pub record IsClosed (w : World) (args : Args) : Type 0 where
  pub at : ℕ
  pub closed :
      (verdict w.polls
        (range replicas_per_shard)
        (tol_of args)
        (pos_part args.index_gate_consecutive)
        at).closed
      ≡ true
  pub before :
      (i : ℕ)
      → i < at
      → is_last w.polls
          (range replicas_per_shard)
          (tol_of args)
          (pos_part args.index_gate_consecutive)
          args.index_gate_timeout
          i
        ≡ false

-- The last look of the warmup is past its cap, and the clock of the gate's rounds reaches the timeout
-- by their last.
pub record IsClocked (w : World) (args : Args) (looks_n polls_n : ℕ) : Type 0 where
  pub cap : (w.looks looks_n).past_cap ≡ true
  pub poll_s : ℕ
  pub clock : (i : ℕ) → i * poll_s ≤ (w.polls i).elapsed
  pub enough : args.index_gate_timeout ≤ polls_n * poll_s

-- Enough is written, where that was asked for.
abbrev pub IsWarm : World → Option ℕ → Type 0
IsWarm w none = Unit
IsWarm w (some target) = IsWritten w.looks target 0

-- The cluster is up, enough is written and the gate is closed, where these were asked for.
abbrev pub IsPrepared : World → Args → Type 0
IsPrepared w args =
    IsUp w.bring_up (range replicas_per_shard)
    × (IsWarm w args.warmup_until_written × (args.index_gate ≡ true → IsClosed w args))

pub came_up-IsDecided :
    (b : BringUp) (node_ids : List ℕ) (r : Result Bool)
    → IsBroughtUp b node_ids r
    → IsDecided (IsUp b node_ids) (came_up r)
came_up-IsDecided b node_ids (ok _) (is_up up) = inl (refl, up)
came_up-IsDecided b node_ids (ok _) (is_down no_up) = inr (omega arith, no_up)
came_up-IsDecided b node_ids (raise _) (has_raised e) = inr (tt, λ up. absurd (cc (e, up.created)))

pub warm_up-IsDecided :
    (w : World) (n : ℕ) (asked : Option ℕ)
    → (w.looks n).past_cap ≡ true
    → IsDecided (IsWarm w asked) (warm_up w.looks (suc n) asked)
unfolding warm_up
warm_up-IsDecided w n none h = inl (refl, tt)
warm_up-IsDecided w n (some target) h = elim (warmup_loop_lem w.looks target n 0 (cap_at h)) [
  | inl (e, k) ↦ inl (e, k)
  | inr (e, k) ↦ let stop : IsStop (exits 4) = omega arith in inr (subst IsStop (sym e) stop, k)
]
  where
    cap_at : (w.looks n).past_cap ≡ true → (w.looks (0 + n)).past_cap ≡ true
    cap_at h = let e : n ≡ 0 + n = omega arith in subst (λ j. (w.looks j).past_cap ≡ true) e h

module _ (w : World) (args : Args) where
  abbrev closed_at : ℕ → Bool
  closed_at i =
      (verdict w.polls (range replicas_per_shard) (tol_of args)
        (pos_part args.index_gate_consecutive) i).closed

  abbrev last_at : ℕ → Bool
  last_at i =
      is_last w.polls (range replicas_per_shard) (tol_of args)
        (pos_part args.index_gate_consecutive) args.index_gate_timeout i

  -- The wait ends where the gate is closed, if it ever is.
  not-IsClosed :
      (last : ℕ)
      → last_at last ≡ true
      → ((i : ℕ) → 0 ≤ i → i < last → last_at i ≡ false)
      → closed_at last ≡ false
      → IsClosed w args
      → ⊥
  not-IsClosed last ends before unclosed c = elim (Bool-cases (ltb c.at last)) [
    | inl early ↦ let no = before c.at (omega arith) (ground arith) in ground (arith, no, c.closed)
    | inr late ↦ elim (Bool-cases (ltb last c.at)) [
      | inl after ↦ let no = c.before last (ground arith) in cc (no, ends)
      | inr same ↦ let e : c.at ≡ last = ground arith in cc (ap closed_at e, c.closed, unclosed)
    ]
  ]

  pub gate-IsDecided :
      (looks_n polls_n : ℕ)
      → IsClocked w args looks_n polls_n
      → (args.index_gate ≡ true → 0 < pos_part args.index_gate_consecutive)
      → IsDecided (args.index_gate ≡ true → IsClosed w args) (gate w (suc polls_n) args)
  unfolding gate gate_end
  gate-IsDecided looks_n polls_n k p = elim (Bool-cases args.index_gate) [
    | inr off ↦ rw off (inl (refl, λ e. absurd (cc)))
    | inl on ↦
        let i =
          wait_for_index_gate_lem w.polls (range replicas_per_shard) (tol_of args)
            (pos_part args.index_gate_consecutive) args.index_gate_timeout (p on) k.poll_s polls_n
            k.clock k.enough in
        let e : gate w (suc polls_n) args ≡ (if closed_at i.last then goes_on else exits 3) =
          rw on (ap of_gate i.result) in
        elim (Bool-cases (closed_at i.last)) [
          | inl closed ↦ inl (
            e ∙ rw closed refl,
            λ a. record {
              at = i.last;
              closed = closed;
              before = λ j l. i.not_before j (omega arith) l;
            },
          )
          | inr unclosed ↦
              let stop : IsStop (exits 3) = omega arith in
              let end : gate w (suc polls_n) args ≡ exits 3 = e ∙ rw unclosed refl in
              inr (
                subst IsStop (sym end) stop,
                λ c. not-IsClosed i.last i.ends i.not_before unclosed (c on),
              )
        ]
  ]
