-- ===== src/Retain/Tests.antt =====
-- A snapshot of the growing corpus on a small run.
use nano_db.Common.{ℕ, ◌≡◌, refl, List, [], ◌∷◌, arith, nat_key}
use nano_db.Common.Int.{pos}
use nano_db.Search.{Vector}
use nano_db.Retain.{Writer, Snapshot, array_at, confirm_all, intended_set}
use nano_db.Retain.Stable.{IsWriter, Keeps, confirm_all-Keeps}

abbrev zeros : Vector
zeros = pos 0 ∷ []

-- An array with one row, which the next write leaves.
abbrev one_row : Writer ℕ
one_row = record {
  store = ((pos 5 ∷ []) ∷ []) ∷ [];
  corpus_mat = 0;
  corpus_ids = 70 ∷ [];
  corpus_row = (70, 0) ∷ [];
  corpus_n = 1;
  vector_of = (70, pos 5 ∷ []) ∷ [];
  confirmed_at = (70, 3) ∷ [];
}

abbrev taken_now : Snapshot
taken_now = record { mat = 0; n = 1 }

one_row-IsWriter : IsWriter one_row
unfolding array_at
one_row-IsWriter = record { stored = omega arith; room = omega arith; named = refl }

confirm_all-Keeps_example :
    Keeps taken_now one_row
      (confirm_all zeros ((71, (pos 6 ∷ [], 4)) ∷ (72, (pos 7 ∷ [], 9)) ∷ []) one_row)
confirm_all-Keeps_example =
    confirm_all-Keeps zeros taken_now ((71, (pos 6 ∷ [], 4)) ∷ (72, (pos 7 ∷ [], 9)) ∷ []) one_row
      one_row-IsWriter (record { present = omega arith; behind = omega arith })

abbrev times : List (ℕ × ℕ)
times = (70, 3) ∷ (71, 4) ∷ (72, 9) ∷ []

settled_ids : intended_set 5 times ≡ 70 ∷ 71 ∷ []
unfolding intended_set
settled_ids = refl
