-- ===== src/Sample/Collected.antt =====
-- The entries that `sample_once` of research/replica_recall/run_experiment.py collects by name.
use nano_db.Common.{
  ℕ, ◌+◌, ◌≡◌, refl, List, [], ◌∷◌, map, Bool, false, arith, All, Bool-cases, inl, inr, ◌==◌,
  nat_key, string_key, String,
}
use nano_db.Common.Sets.{count_if, contains, IsUnique}
use nano_db.Metrics.{keys}
use text.Mathlib.TextEquality.{eq_iff}
use nano_db.Retain.{put}
use nano_db.Sample.{Entries, Raw, Probe, Served, collect, probe_one}
use nano_db.Search.{Matrix}
use nano_db.Common.{Option}

module _ (P : Raw → Type 0) where
  put-All :
      (n : String) (r : Raw) (raw : Entries)
      → P r
      → All (λ x. P x.1) raw
      → All (λ x. P x.1) (put n r raw)
  unfolding put
  put-All n r [] h k = (h, tt)
  put-All n r ((m, r') ∷ raw) h k = elim (Bool-cases (n == m)) [
    | inl same ↦ rw same (h, k.1)
    | inr other ↦ rw other (k.0, put-All n r raw h k.1)
  ]

-- The ids of each replica are a set.
abbrev pub HasSet : Raw → Type 0
HasSet r = IsUnique r.local

pub collect-HasSet :
    (queries : Matrix) (loo_queries : Option Matrix) (k : ℕ) (serve : String → Served)
    (probes : List Probe) (raw : Entries)
    → ((n : String) → IsUnique (serve n).ids)
    → All (λ x. HasSet x.1) raw
    → All (λ x. HasSet x.1) (collect queries loo_queries k serve probes raw)
unfolding collect probe_one
collect-HasSet queries loo_queries k serve [] raw sets h = h
collect-HasSet queries loo_queries k serve (p ∷ probes) raw sets h =
    collect-HasSet queries loo_queries k serve probes _ sets
      (put-All HasSet p.name (probe_one queries loo_queries k p (serve p.name)) raw (sets p.name) h)

module _ (p : String → Bool) where
  count_if-put :
      (n : String) (r : Raw) (raw : Entries)
      → contains n (keys raw) ≡ false
      → count_if (λ x. p x.0) (put n r raw) ≡ count_if (λ x. p x.0) raw + count_if p (n ∷ [])
  unfolding put
  count_if-put n r [] h = ground arith
  count_if-put n r ((m, r') ∷ raw) h = ground (arith, count_if-put n r raw)

  contains-put :
      (a n : String) (r : Raw) (raw : Entries)
      → contains a (keys raw) ≡ false
      → (a == n) ≡ false
      → contains a (keys (put n r raw)) ≡ false
  unfolding put
  contains-put a n r [] h k = ground arith
  contains-put a n r ((m, r') ∷ raw) h k = ground (arith, contains-put a n r raw, eq_iff n m)

  -- The probes are not yet in the dict.
  abbrev AreNew : List Probe → Entries → Type 0
  AreNew probes raw = All (λ (q : Probe). contains q.name (keys raw) ≡ false) probes

  names_of : List Probe → List String
  names_of probes = map (λ (q : Probe). q.name) probes

  put-AreNew :
      (n : String) (r : Raw) (raw : Entries) (probes : List Probe)
      → contains n (names_of probes) ≡ false
      → AreNew probes raw
      → AreNew probes (put n r raw)
  unfolding names_of
  put-AreNew n r raw [] h k = tt
  put-AreNew n r raw (q ∷ probes) h k = (
    contains-put q.name n r raw k.0 (ground (arith, eq_iff n q.name, eq_iff q.name n)),
    put-AreNew n r raw probes (ground arith) k.1,
  )

  pub count_if-collect :
      (queries : Matrix) (loo_queries : Option Matrix) (k : ℕ) (serve : String → Served)
      (probes : List Probe) (raw : Entries)
      → IsUnique (map (λ (q : Probe). q.name) probes)
      → AreNew probes raw
      → count_if (λ x. p x.0) (collect queries loo_queries k serve probes raw)
        ≡ count_if (λ x. p x.0) raw + count_if (λ (q : Probe). p q.name) probes
  unfolding collect names_of
  count_if-collect queries loo_queries k serve [] raw u new = omega arith
  count_if-collect queries loo_queries k serve (q ∷ probes) raw u new =
      let r = probe_one queries loo_queries k q (serve q.name) in
      ground (
        arith,
        count_if-collect queries loo_queries k serve probes (put q.name r raw) u.1
            (put-AreNew q.name r raw probes u.0 new.1),
        count_if-put q.name r raw new.0,
      )

All-new :
    (probes : List Probe) → All (λ (q : Probe). contains q.name (keys {V = Raw} []) ≡ false) probes
All-new [] = tt
All-new (q ∷ probes) = (refl, All-new probes)

pub count_if-collect_all :
    (p : String → Bool) (queries : Matrix) (loo_queries : Option Matrix) (k : ℕ)
    (serve : String → Served) (probes : List Probe)
    → IsUnique (map (λ (q : Probe). q.name) probes)
    → count_if (λ x. p x.0) (collect queries loo_queries k serve probes [])
      ≡ count_if (λ (q : Probe). p q.name) probes
count_if-collect_all p queries loo_queries k serve probes u =
    omega (arith, count_if-collect p queries loo_queries k serve probes [] u (All-new probes))
