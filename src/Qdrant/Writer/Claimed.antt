-- ===== src/Qdrant/Writer/Claimed.antt =====
-- The ids that RetainingWriter._make_batch of
-- research/cross_system_replication/qdrant_run_experiment.py claims, and the invariant of its threads.
use nano_db.Common.{
  ℕ, zero, suc, ◌+◌, ◌≤◌, ◌<◌, ◌≡◌, refl, ap, List, [], ◌∷◌, true, false, arith, inl, inr,
  Bool-cases, Option, none, some, length, eqb, ltb, leb, nat_key, if◌then◌else◌, ◌&&◌, get_elem?,
  set, ◌||◌, is_empty,
}
use nano_db.Search.{Vector}
use nano_db.Qdrant.Writer.Added.{occurs, keys_of}
use nano_db.Qdrant.Writer.{
  vid, Phase, idle, made, sent, returned, Shared, Turn, claim_of, batch_from, is_finite, make_batch,
  begin,
}

abbrev pub total : (Phase → ℕ) → List Phase → ℕ
total f [] = 0
total f (phase ∷ phases) = f phase + total f phases

pub total-set :
    (f : Phase → ℕ) (phases : List Phase) (i : ℕ) (old new : Phase)
    → get_elem? phases i ≡ some old
    → total f (set phases i new) + f old ≡ total f phases + f new
total-set f [] i old new h = absurd (cc)
total-set f (phase ∷ phases) zero old new h = let e : phase ≡ old = cc in omega (arith, ap f e)
total-set f (phase ∷ phases) (suc i) old new h = omega (arith, total-set f phases i old new h)

pub total-get :
    (f : Phase → ℕ) (phases : List Phase) (i : ℕ) (old : Phase)
    → get_elem? phases i ≡ some old
    → f old ≤ total f phases
total-get f [] i old h = absurd (cc)
total-get f (phase ∷ phases) zero old h = let e : phase ≡ old = cc in omega (arith, ap f e)
total-get f (phase ∷ phases) (suc i) old h = omega (arith, total-get f phases i old h)

-- How often the id is in the batch of a phase, and the size of a batch that is counted.
abbrev pub occurs_in : ℕ → Phase → ℕ
occurs_in v idle = 0
occurs_in v (made batch) = occurs v (keys_of batch)
occurs_in v (sent batch) = occurs v (keys_of batch)
occurs_in v returned = 0

abbrev pub sent_of : Phase → ℕ
sent_of idle = 0
sent_of (made batch) = 0
sent_of (sent batch) = length batch
sent_of returned = 0

-- 1 for an id of the numbers from the first to below the second.
abbrev pub claimed : ℕ → ℕ → ℕ → ℕ
claimed v a b = if leb (vid a) v && ltb v (vid b) then 1 else 0

occurs-batch_from :
    (v : ℕ) (draw : ℕ → Vector) (start n : ℕ)
    → occurs v (keys_of (batch_from draw start n)) ≡ claimed v start (start + n)
unfolding batch_from vid
occurs-batch_from v draw start zero = ground arith
occurs-batch_from v draw start (suc n) = ground (arith, occurs-batch_from v draw (suc start) n)

claimed-add : (v a n : ℕ) → claimed v 0 a + claimed v a (a + n) ≡ claimed v 0 (a + n)
unfolding vid
claimed-add v a n = ground arith

abbrev pub Fits : Option ℕ → ℕ → Type 0
Fits none next = Unit
Fits (some pool) next = next ≤ pool

abbrev pub IsAtEnd : Option ℕ → ℕ → Type 0
IsAtEnd none next = ⊥
IsAtEnd (some pool) next = next ≡ pool

-- No id is in the corpus or under way twice, and each is one of those numbered below the next; a
-- batch that is counted is confirmed, failed or under way; the corpus's ids are the keys of the dict
-- of times; and the numbers of a finite corpus are not exceeded, and all used when it is exhausted.
pub record IsHanded (pool : Option ℕ) (w : Shared) : Type 0 where
  pub once :
      (v : ℕ) → occurs v w.kept.corpus_ids + total (occurs_in v) w.threads ≤ claimed v 0 w.next
  pub counted : w.attempted ≡ w.kept.corpus_n + w.failed + total sent_of w.threads
  pub named : length w.kept.corpus_ids ≡ w.kept.corpus_n
  pub timed : keys_of w.kept.confirmed_at ≡ w.kept.corpus_ids
  pub fits : Fits pool w.next
  pub at_end : w.exhausted ≡ true → IsAtEnd pool w.next

-- What a turn of one thread leaves of it.
pub record IsAdvance (pool : Option ℕ) (old new : Phase) (w w' : Shared) : Type 0 where
  pub once :
      (v : ℕ)
      → occurs v w'.kept.corpus_ids + occurs_in v new + claimed v 0 w.next
        ≤ occurs v w.kept.corpus_ids + occurs_in v old + claimed v 0 w'.next
  pub counted :
      w'.attempted + (w.kept.corpus_n + w.failed + sent_of old)
      ≡ w.attempted + (w'.kept.corpus_n + w'.failed + sent_of new)
  pub named : length w'.kept.corpus_ids ≡ w'.kept.corpus_n
  pub timed : keys_of w'.kept.confirmed_at ≡ w'.kept.corpus_ids
  pub fits : Fits pool w'.next
  pub at_end : w'.exhausted ≡ true → IsAtEnd pool w'.next
  pub threads : w'.threads ≡ w.threads

-- A turn that changes nothing, and ends in a phase without a batch.
stay :
    (pool : Option ℕ) (new : Phase) (w : Shared)
    → IsHanded pool w
    → sent_of new ≡ 0
    → ((v : ℕ) → occurs_in v new ≡ 0)
    → IsAdvance pool idle new w w
stay pool new w h s o = record {
  once = λ v. omega (arith, o v);
  counted = omega (arith, s);
  named = h.named;
  timed = h.timed;
  fits = h.fits;
  at_end = h.at_end;
  threads = refl;
}

claim_of-Fits :
    (pool : Option ℕ) (n next : ℕ) → Fits pool next → Fits pool (next + claim_of pool n next)
unfolding claim_of
claim_of-Fits none n next h = tt
claim_of-Fits (some pool) n next h = omega arith

-- A claim of nothing is made at the end of a finite corpus.
claim_of-IsAtEnd :
    (pool : Option ℕ) (n next : ℕ)
    → 0 < n
    → Fits pool next
    → claim_of pool n next ≡ 0
    → IsAtEnd pool next
unfolding claim_of
claim_of-IsAtEnd none n next p h e = absurd (omega arith)
claim_of-IsAtEnd (some pool) n next p h e = omega arith

-- At the end nothing more is claimed.
IsAtEnd-claim_of :
    (pool : Option ℕ) (n next : ℕ) → IsAtEnd pool next → IsAtEnd pool (next + claim_of pool n next)
unfolding claim_of
IsAtEnd-claim_of none n next h = h
IsAtEnd-claim_of (some pool) n next h = omega arith

is_empty-batch_from :
    (draw : ℕ → Vector) (start n : ℕ) → eqb n 0 ≡ false → is_empty (batch_from draw start n) ≡ false
unfolding batch_from
is_empty-batch_from draw start zero h = absurd (ground arith)
is_empty-batch_from draw start (suc n) h = refl

module _ (pool : Option ℕ) (batch_size : ℕ) where
  -- An empty batch.
  drained :
      (w : Shared)
      → 0 < batch_size
      → IsHanded pool w
      → eqb (claim_of pool batch_size w.next) 0 ≡ true
      → IsAdvance pool idle returned w (record w {
        next = w.next + claim_of pool batch_size w.next;
        exhausted = w.exhausted || is_finite pool;
      })
  drained w p h e =
      let zero_claim : claim_of pool batch_size w.next ≡ 0 = ground arith in
      let same : w.next + claim_of pool batch_size w.next ≡ w.next = omega (arith, zero_claim) in
      record {
        once = λ v. rw same (omega arith);
        counted = omega arith;
        named = h.named;
        timed = h.timed;
        fits = claim_of-Fits pool batch_size w.next h.fits;
        at_end = λ x. rw same (at_end_of pool w h x zero_claim);
        threads = refl;
      }
    where
      at_end_of :
          (pool : Option ℕ) (w : Shared)
          → IsHanded pool w
          → (w.exhausted || is_finite pool) ≡ true
          → claim_of pool batch_size w.next ≡ 0
          → IsAtEnd pool w.next
      at_end_of none w h x e = h.at_end (ground arith)
      at_end_of (some size) w h x e = claim_of-IsAtEnd (some size) batch_size w.next p h.fits e

  claimed_batch :
      (draw : ℕ → Vector) (w : Shared)
      → IsHanded pool w
      → let n = claim_of pool batch_size w.next in
        IsAdvance pool idle (made (batch_from draw w.next n)) w (record w { next = w.next + n })
  claimed_batch draw w h =
      let n = claim_of pool batch_size w.next in
      record {
        once = λ v. omega (arith, occurs-batch_from v draw w.next n, claimed-add v w.next n);
        counted = omega arith;
        named = h.named;
        timed = h.timed;
        fits = claim_of-Fits pool batch_size w.next h.fits;
        at_end = λ x. IsAtEnd-claim_of pool batch_size w.next (h.at_end x);
        threads = refl;
      }

  pub begin-IsAdvance :
      (turn : Turn) (w : Shared)
      → 0 < batch_size
      → IsHanded pool w
      → let (w', new) = begin pool batch_size turn w in IsAdvance pool idle new w w'
  unfolding begin make_batch
  begin-IsAdvance turn w p h =
      let n = claim_of pool batch_size w.next in
      elim (Bool-cases turn.is_set) [
        | inl over ↦ rw over (stay pool returned w h refl (λ v. refl))
        | inr on ↦ elim (Bool-cases turn.paused) [
          | inl held ↦ rw (on, held) (stay pool idle w h refl (λ v. refl))
          | inr free ↦ elim (Bool-cases (eqb n 0)) [
            | inl none_left ↦ rw (on, free, none_left) (drained w p h none_left)
            | inr some_left ↦
                let filled = is_empty-batch_from turn.draw w.next n some_left in
                rw (on, free, some_left, filled) (claimed_batch turn.draw w h)
          ]
        ]
      ]
