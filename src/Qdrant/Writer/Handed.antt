-- ===== src/Qdrant/Writer/Handed.antt =====
-- The ids that the writers of research/cross_system_replication/qdrant_run_experiment.py hand out,
-- over the turns of all threads.
use nano_db.Common.{
  ℕ, zero, suc, ◌+◌, ◌≤◌, ◌<◌, ◌≡◌, refl, ap, List, [], ◌∷◌, arith, inl, inr, Bool-cases, Option,
  none, some, length, eqb, nat_key, get_elem?, Option-cases, length-append, length-map, replicate,
}
use nano_db.Common.Sets.{count_if-append, IsUnique}
use nano_db.Search.{Vector}
use nano_db.Retain.{confirm_all}
use nano_db.Qdrant.Writer.Added.{occurs, keys_of, IsUnique_of_occurs, confirm_all_lem}
use nano_db.Qdrant.Writer.Claimed.{
  total, total-set, total-get, occurs_in, sent_of, Fits, IsHanded, IsAdvance, begin-IsAdvance,
}
use nano_db.Qdrant.Writer.{
  Batch, Phase, idle, made, sent, returned, Shared, Turn, dated, finish, advance, take_turn,
  run_turns, start_writers,
}

module _ (junk : Vector) (pool : Option ℕ) where
  keys_of-dated : (t : ℕ) (batch : Batch) → keys_of (dated t batch) ≡ keys_of batch
  keys_of-dated t [] = refl
  keys_of-dated t (p ∷ batch) = ap (λ ids. p.0 ∷ ids) (keys_of-dated t batch)

  lost :
      (batch : Batch) (w : Shared)
      → IsHanded pool w
      → IsAdvance pool (sent batch) idle w (record w { failed = w.failed + length batch })
  lost batch w h = record {
    once = λ v. omega arith;
    counted = omega arith;
    named = h.named;
    timed = h.timed;
    fits = h.fits;
    at_end = h.at_end;
    threads = refl;
  }

  confirmed :
      (t : ℕ) (batch : Batch) (w : Shared)
      → IsHanded pool w
      → ((v : ℕ) → occurs v (keys_of batch) ≤ total (occurs_in v) w.threads)
      → IsAdvance pool
          (sent batch)
          idle
          w
          (record w { kept = confirm_all junk (dated t batch) w.kept })
  confirmed t batch w h l =
      let ids = keys_of-dated t batch in
      let once : (v : ℕ) → occurs v w.kept.corpus_ids + occurs v (keys_of (dated t batch)) ≤ 1 =
        λ v. ground (arith, ap (occurs v) ids, h.once v, l v) in
      let (a, k) = confirm_all_lem junk (dated t batch) w.kept once h.timed in
      let size : length (dated t batch) ≡ length batch = length-map (λ p. (p.0, (p.1, t))) batch in
      record {
        once = λ v. omega (
          arith,
          ap (occurs v) a.corpus_ids,
          count_if-append (eqb v) w.kept.corpus_ids (keys_of (dated t batch)),
          ap (occurs v) ids,
        );
        counted = omega (arith, a.corpus_n, length-map (λ p. p.0) (dated t batch), size);
        named = omega (
          arith,
          ap length a.corpus_ids,
          length-append w.kept.corpus_ids (keys_of (dated t batch)),
          a.corpus_n,
          h.named,
        );
        timed = k;
        fits = h.fits;
        at_end = h.at_end;
        threads = refl;
      }

  finish-IsAdvance :
      (answer : Option (ℕ × ℕ)) (batch : Batch) (w : Shared)
      → IsHanded pool w
      → ((v : ℕ) → occurs v (keys_of batch) ≤ total (occurs_in v) w.threads)
      → IsAdvance pool (sent batch) idle w (finish junk answer batch w)
  unfolding finish
  finish-IsAdvance none batch w h l = lost batch w h
  finish-IsAdvance (some (status, t)) batch w h l = elim (Bool-cases (eqb status 200)) [
    | inl ok ↦ rw ok (confirmed t batch w h l)
    | inr bad ↦ rw bad (lost batch w h)
  ]

module _ (junk : Vector) (pool : Option ℕ) (batch_size : ℕ) where
  advance-IsAdvance :
      (turn : Turn) (old : Phase) (w : Shared)
      → 0 < batch_size
      → IsHanded pool w
      → ((v : ℕ) → occurs_in v old ≤ total (occurs_in v) w.threads)
      → let (w', new) = advance junk pool batch_size turn old w in IsAdvance pool old new w w'
  unfolding advance
  advance-IsAdvance turn idle w p h l = begin-IsAdvance pool batch_size turn w p h
  advance-IsAdvance turn (made batch) w p h l = record {
    once = λ v. omega arith;
    counted = omega arith;
    named = h.named;
    timed = h.timed;
    fits = h.fits;
    at_end = h.at_end;
    threads = refl;
  }
  advance-IsAdvance turn (sent batch) w p h l = finish-IsAdvance junk pool turn.answer batch w h l
  advance-IsAdvance turn returned w p h l = record {
    once = λ v. omega arith;
    counted = omega arith;
    named = h.named;
    timed = h.timed;
    fits = h.fits;
    at_end = h.at_end;
    threads = refl;
  }

  take_turn-IsHanded :
      (turn : Turn) (w : Shared)
      → 0 < batch_size
      → IsHanded pool w
      → IsHanded pool (take_turn junk pool batch_size turn w)
  unfolding take_turn
  take_turn-IsHanded turn w p h = elim (Option-cases (get_elem? w.threads turn.thread)) [
    | inl out ↦ rw (take_turn, out) h
    | inr (old, here) ↦
        let (w', new) = advance junk pool batch_size turn old w in
        let a =
          advance-IsAdvance turn old w p h
            (λ v. total-get (occurs_in v) w.threads turn.thread old here) in
        rw (take_turn, here)
          (record {
            once = λ v. omega (
              arith,
              a.once v,
              h.once v,
              total-set (occurs_in v) w.threads turn.thread old new here,
            );
            counted =
                omega (
                  arith,
                  a.counted,
                  h.counted,
                  total-set sent_of w.threads turn.thread old new here,
                );
            named = a.named;
            timed = a.timed;
            fits = a.fits;
            at_end = a.at_end;
          })
  ]

  run_turns-IsHanded :
      (turns : List Turn) (w : Shared)
      → 0 < batch_size
      → IsHanded pool w
      → IsHanded pool (run_turns junk pool batch_size turns w)
  unfolding run_turns
  run_turns-IsHanded [] w p h = h
  run_turns-IsHanded (turn ∷ turns) w p h =
      run_turns-IsHanded turns (take_turn junk pool batch_size turn w) p
        (take_turn-IsHanded turn w p h)

total-replicate : (f : Phase → ℕ) (n : ℕ) → f idle ≡ 0 → total f (replicate n idle) ≡ 0
total-replicate f zero h = refl
total-replicate f (suc n) h = omega (arith, total-replicate f n h, h)

start_writers-IsHanded : (pool : Option ℕ) (n : ℕ) → IsHanded pool (start_writers n)
unfolding start_writers
start_writers-IsHanded pool n = record {
  once = λ v. omega (arith, total-replicate (occurs_in v) n refl);
  counted = omega (arith, total-replicate sent_of n refl);
  named = refl;
  timed = refl;
  fits = start_fits pool;
  at_end = λ x. absurd (cc);
}
  where
    start_fits : (pool : Option ℕ) → Fits pool 0
    start_fits none = tt
    start_fits (some size) = omega arith

-- However the turns of the threads interleave, and whatever the events, the vectors and the nodes give:
-- after any number of turns from an empty corpus, with a positive batch size, no id is twice in the
-- corpus; ids in the corpus and ids under way are distinct and numbered below the next one; every id
-- that is counted as attempted is confirmed, failed or under way; the ids of the corpus are, in its
-- order, the keys of the dict of times; a finite corpus is not exceeded, and all of it is handed out
-- when it is said to be exhausted.
pub run_turns_lem :
    (junk : Vector) (pool : Option ℕ) (batch_size : ℕ) (n_threads : ℕ) (turns : List Turn)
    → 0 < batch_size
    → let w = run_turns junk pool batch_size turns (start_writers n_threads) in
      IsHanded pool w × IsUnique w.kept.corpus_ids
run_turns_lem junk pool batch_size n_threads turns p =
    let h =
      run_turns-IsHanded junk pool batch_size turns (start_writers n_threads) p
        (start_writers-IsHanded pool n_threads) in
    (h, IsUnique_of_occurs _ (λ v. ground (arith, h.once v)))
