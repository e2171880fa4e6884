-- ===== src/Qdrant/Writer/Tests.antt =====
-- Two writer threads on a corpus of three vectors.
use nano_db.Common.{
  ℕ, ◌≡◌, refl, List, [], ◌∷◌, Bool, true, false, some, none, arith, Option, nat_key,
}
use nano_db.Common.Int.{pos}
use nano_db.Common.Sets.{IsUnique}
use nano_db.Search.{Vector}
use nano_db.Retain.{confirm_all, confirm, append_corpus, write_row, grow, put, array_at}
use nano_db.Qdrant.Writer.{
  Turn, Shared, vid, claim_of, batch_from, make_batch, begin, finish, advance, take_turn, run_turns,
  start_writers,
}
use nano_db.Qdrant.Writer.Claimed.{IsHanded}
use nano_db.Qdrant.Writer.Handed.{run_turns_lem}

abbrev junk : Vector
junk = pos 0 ∷ []

abbrev turn_of : ℕ → Option (ℕ × ℕ) → Turn
turn_of i reply = record {
  thread = i;
  is_set = false;
  paused = false;
  draw = λ n. pos n ∷ [];
  answer = reply;
}

-- Both threads claim a batch before either sends it; the second one's request fails; the first one
-- finds the corpus exhausted.
abbrev race : List Turn
race =
    turn_of 0 none
    ∷ turn_of 1 none
    ∷ turn_of 1 none
    ∷ turn_of 0 none
    ∷ turn_of 0 (some (200, 9))
    ∷ turn_of 1 (some (500, 9))
    ∷ turn_of 0 none
    ∷ []

run_turns_lem_example :
    IsHanded (some 3) (run_turns junk (some 3) 2 race (start_writers 2))
    × IsUnique (run_turns junk (some 3) 2 race (start_writers 2)).kept.corpus_ids
run_turns_lem_example = run_turns_lem junk (some 3) 2 2 race (omega arith)

abbrev raced : Shared
raced = run_turns junk (some 3) 2 race (start_writers 2)

-- The corpus, and the counts of attempted and failed ids.
abbrev ends : Shared → List ℕ × (ℕ × (ℕ × Bool))
ends w = (w.kept.corpus_ids, (w.attempted, (w.failed, w.exhausted)))

abbrev race_end : List ℕ × (ℕ × (ℕ × Bool))
race_end = (100000000 ∷ 100000001 ∷ [], (3, (1, true)))

race_ends : ends raced ≡ race_end
unfolding start_writers run_turns take_turn advance begin finish make_batch claim_of batch_from vid
    confirm_all confirm append_corpus write_row grow put array_at
race_ends = refl

-- The corpus is said to be exhausted while its last vector is still on its way to a node.
abbrev early : List Turn
early = turn_of 0 none ∷ turn_of 0 none ∷ turn_of 1 none ∷ []

abbrev early_end : List ℕ × (ℕ × (ℕ × Bool))
early_end = ([], (1, (0, true)))

exhausted_early : ends (run_turns junk (some 1) 1 early (start_writers 2)) ≡ early_end
unfolding start_writers run_turns take_turn advance begin make_batch claim_of batch_from vid
exhausted_early = refl
