-- ===== src/Harness/Chaos.antt =====
-- The counters and the log of events of `chaos_loop` (chaos_harness.py).
use nano_db.Common.{
  ℕ, zero, suc, ◌+◌, ◌<◌, ◌≡◌, refl, ap, ◌∙◌, List, [], ◌∷◌, ◌++◌, Bool, true, false, not, inl, inr,
  arith, nat_key, length, All, eqb, Bool-cases, append-nil, append_assoc, ◌&&◌,
}
use nano_db.Common.Sets.{count_if-append, count_if}
use nano_db.Harness.{
  ManagedProcess, Event, Round, Cluster, update_at, restarts_of, bring_back, kill, start, is_alive,
  chaos_loop,
}

-- How many events hit the process, and how many of them left it dead.
abbrev pub hits : ℕ → List Event → ℕ
hits i events = count_if (λ e. eqb (e.target) i) events

abbrev pub crashes : ℕ → List Event → ℕ
crashes i events = count_if (λ e. eqb (e.target) i && not (e.alive_after_restart)) events

-- A process whose counters are the numbers of its events and of its failed restarts.
pub record IsCounted (i : ℕ) (events : List Event) (p : ManagedProcess) : Type 0 where
  pub restarts : p.restart_count ≡ hits i events
  pub failed : p.crash_on_restart_count ≡ crashes i events

-- The processes are numbered from i.
abbrev pub AllCounted : ℕ → List Event → List ManagedProcess → Type 0
AllCounted i events [] = Unit
AllCounted i events (p ∷ ps) = IsCounted i events p × AllCounted (suc i) events ps

-- Each event carries the number of the events of its process up to it.
abbrev pub IsNumbered : List Event → List Event → Type 0
IsNumbered before [] = Unit
IsNumbered before (e ∷ es) =
    (e.restart_count ≡ suc (hits (e.target) before)) × IsNumbered (before ++ e ∷ []) es

pub record IsAccounted (c : Cluster) : Type 0 where
  pub counted : AllCounted 0 (c.events) (c.procs)
  pub numbered : IsNumbered [] (c.events)

-- One event more.
snoc-IsCounted :
    (i : ℕ) (es : List Event) (e : Event) (p : ManagedProcess)
    → eqb (e.target) i ≡ false
    → IsCounted i es p
    → IsCounted i (es ++ e ∷ []) p
snoc-IsCounted i es e p other h = record {
  restarts = ground (arith, h.restarts, count_if-append (λ e. eqb (e.target) i) es (e ∷ []));
  failed = ground (
    arith,
    h.failed,
    count_if-append (λ e. eqb (e.target) i && not (e.alive_after_restart)) es (e ∷ []),
  );
}

later_counted :
    (k : ℕ) (es : List Event) (e : Event) (ps : List ManagedProcess)
    → e.target < k
    → AllCounted k es ps
    → AllCounted k (es ++ e ∷ []) ps
later_counted k es e [] l h = tt
later_counted k es e (p ∷ ps) l h =
    (snoc-IsCounted k es e p (ground arith) h.0, later_counted (suc k) es e ps (omega arith) h.1)

-- The process that is hit gets its counters in step with the longer log.
hit-IsCounted :
    (i : ℕ) (es : List Event) (e : Event) (p : ManagedProcess)
    → e.target ≡ i
    → IsCounted i es p
    → IsCounted i (es ++ e ∷ []) (bring_back (e.alive_after_restart) (kill p))
unfolding bring_back kill start is_alive
hit-IsCounted i es e p here h =
    let eq : eqb (e.target) i ≡ true = ground arith in
    let more = count_if-append (λ x. eqb (x.target) i) es (e ∷ []) in
    let worse =
      count_if-append (λ x. eqb (x.target) i && not (x.alive_after_restart)) es (e ∷ []) in
    record { restarts = ground (arith, h.restarts, more); failed = ground (arith, h.failed, worse) }

step_counted :
    (i j : ℕ) (es : List Event) (e : Event) (ps : List ManagedProcess)
    → e.target ≡ i + j
    → AllCounted i es ps
    → AllCounted i
        (es ++ e ∷ [])
        (update_at (update_at ps j kill) j (bring_back (e.alive_after_restart)))
step_counted i j es e [] q h = tt
step_counted i zero es e (p ∷ ps) q h =
    (hit-IsCounted i es e p (omega arith) h.0, later_counted (suc i) es e ps (omega arith) h.1)
step_counted i (suc j) es e (p ∷ ps) q h =
    (snoc-IsCounted i es e p (ground arith) h.0, step_counted (suc i) j es e ps (omega arith) h.1)

step_restarts :
    (i j : ℕ) (alive : Bool) (es : List Event) (ps : List ManagedProcess)
    → j < length ps
    → AllCounted i es ps
    → restarts_of (update_at (update_at ps j kill) j (bring_back alive)) j ≡ suc (hits (i + j) es)
unfolding bring_back kill start is_alive
step_restarts i j alive es [] l h = absurd (omega arith)
step_restarts i zero alive es (p ∷ ps) l h =
    let here : i + 0 ≡ i = omega arith in rw here (ground (arith, h.0.restarts))
step_restarts i (suc j) alive es (p ∷ ps) l h =
    let there : i + suc j ≡ suc i + j = omega arith in
    rw there (step_restarts (suc i) j alive es ps (omega arith) h.1)

snoc-IsNumbered :
    (before es : List Event) (e : Event)
    → e.restart_count ≡ suc (hits (e.target) (before ++ es))
    → IsNumbered before es
    → IsNumbered before (es ++ e ∷ [])
snoc-IsNumbered before [] e q h = (rw (append-nil before) at q, tt)
snoc-IsNumbered before (x ∷ es) e q h =
    (h.0, snoc-IsNumbered (before ++ x ∷ []) es e (rw (append_assoc before (x ∷ []) es) q) h.1)

length-update_at {ℓ} :
    {A : Type ℓ} (xs : List A) (i : ℕ) (f : A → A) → length (update_at xs i f) ≡ length xs
length-update_at [] i f = refl
length-update_at (x ∷ xs) zero f = refl
length-update_at (x ∷ xs) (suc i) f = ap suc (length-update_at xs i f)

-- The start at the end of the loop touches no counter.
ended_counted :
    (i j : ℕ) (alive : Bool) (es : List Event) (ps : List ManagedProcess)
    → AllCounted i es ps
    → AllCounted i es (update_at (update_at ps j kill) j (λ p. (start alive p).0))
unfolding kill start is_alive
ended_counted i j alive es [] h = tt
ended_counted i zero alive es (p ∷ ps) h =
    (record { restarts = ground (arith, h.0.restarts); failed = ground (arith, h.0.failed) }, h.1)
ended_counted i (suc j) alive es (p ∷ ps) h = (h.0, ended_counted (suc i) j alive es ps h.1)

-- Whatever the rounds are, as long as they hit processes of the cluster: if at the start the
-- counters of each process are the numbers of its events and of its failed restarts, and each
-- event is numbered among those of its process, then so they are when the loop ends.
pub chaos_loop-IsAccounted :
    (rounds : List Round) (c : Cluster)
    → All (λ r. r.target < length (c.procs)) rounds
    → IsAccounted c
    → IsAccounted (chaos_loop rounds c)
unfolding chaos_loop
chaos_loop-IsAccounted [] c t h = h
chaos_loop-IsAccounted (r ∷ rounds) c t h =
    let n = length-update_at c.procs r.target kill in
    let n' = length-update_at (update_at c.procs r.target kill) r.target (bring_back r.alive) in
    let restarts = step_restarts 0 r.target r.alive c.events c.procs t.0 h.counted in
    let here : 0 + r.target ≡ r.target = omega arith in
    let event : Event = record {
      t = r.t0;
      target = r.target;
      alive_after_restart = r.alive;
      down_for = r.down_for;
      restart_count =
          restarts_of (update_at (update_at c.procs r.target kill) r.target (bring_back r.alive))
            r.target;
    } in
    let next : Cluster = record {
      procs = update_at (update_at c.procs r.target kill) r.target (bring_back r.alive);
      events = c.events ++ event ∷ [];
    } in
    let counted : IsAccounted next = record {
      counted = step_counted 0 r.target c.events event c.procs (omega arith) h.counted;
      numbered = snoc-IsNumbered [] c.events event (rw here at restarts) h.numbered;
    } in
    let same : length next.procs ≡ length c.procs = n' ∙ n in
    let rest = chaos_loop-IsAccounted rounds next (rw same t.1) counted in
    elim (Bool-cases r.stop_before) [
      | inl stop ↦ rw stop h
      | inr go ↦ elim (Bool-cases r.stop_after) [
        | inl stop ↦
            rw (go, stop)
              (record {
                counted = ended_counted 0 r.target r.alive c.events c.procs h.counted;
                numbered = h.numbered;
              })
        | inr on ↦ rw (go, on) rest
      ]
    ]

-- Before the chaos starts nothing is counted.
pub build-IsAccounted :
    (procs : List ManagedProcess)
    → All (λ p. (p.restart_count ≡ 0) × (p.crash_on_restart_count ≡ 0)) procs
    → IsAccounted (record { procs = procs; events = [] })
build-IsAccounted procs h = record { counted = counted_lem 0 procs h; numbered = tt }
  where
    counted_lem :
        (i : ℕ) (ps : List ManagedProcess)
        → All (λ p. (p.restart_count ≡ 0) × (p.crash_on_restart_count ≡ 0)) ps
        → AllCounted i [] ps
    counted_lem i [] h = tt
    counted_lem i (p ∷ ps) h =
        (record { restarts = h.0.0; failed = h.0.1 }, counted_lem (suc i) ps h.1)
