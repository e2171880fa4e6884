-- ===== src/Retain/Stable.antt =====
-- What a snapshot of the growing corpus reads (research/replica_recall/run_experiment.py).
use nano_db.Common.{
  ℕ, ◌-◌, ◌*◌, ◌≤◌, ◌<◌, ◌≡◌, ◌≢◌, refl, ap, sym, ◌∙◌, max, List, [], ◌∷◌, ◌++◌, false, arith,
  length, eqb, take, replicate, get_or, get_elem?, set, Key, inl, inr, Bool-cases, length-append,
  length-set, length-take, length-replicate,
}
use nano_db.Search.{Vector, Matrix}
use nano_db.Retain.Stores.{
  get_or-set_ne, get_or-set_eq, get_elem?-set_below, get_or-append_left, get_or-append_end,
  get_elem?-append_left,
}
use nano_db.Retain.{
  Writer, put, Snapshot, array_at, grow, write_row, append_corpus, confirm, confirm_all, view,
}

-- The current array exists and has room for the rows, each of which has its id.
pub record IsWriter {A : Type 0} (w : Writer A) : Type 0 where
  pub stored : w.corpus_mat < length (w.store)
  pub room : w.corpus_n ≤ length (array_at (w.store) (w.corpus_mat))
  pub named : length (w.corpus_ids) ≡ w.corpus_n

-- The snapshot's array exists, and it has at most the writer's rows.
pub record IsTaken {A : Type 0} (s : Snapshot) (w : Writer A) : Type 0 where
  pub present : s.mat < length (w.store)
  pub behind : s.n ≤ w.corpus_n

-- What a step of the writer keeps for a reader of the snapshot: its rows and their ids.
pub record Keeps {A : Type 0} (s : Snapshot) (w w' : Writer A) : Type 0 where
  pub writer : IsWriter w'
  pub taken : IsTaken s w'
  pub rows : (r : ℕ) → r < s.n → get_elem? ((view w' s).mat) r ≡ get_elem? ((view w s).mat) r
  pub ids : (r : ℕ) → r < s.n → get_elem? ((view w' s).ids) r ≡ get_elem? ((view w s).ids) r

Keeps-trans :
    {A : Type 0} (s : Snapshot) (a b c : Writer A) → Keeps s a b → Keeps s b c → Keeps s a c
Keeps-trans s a b c h k = record {
  writer = k.writer;
  taken = k.taken;
  rows = λ r l. k.rows r l ∙ h.rows r l;
  ids = λ r l. k.ids r l ∙ h.ids r l;
}

module _ {A : Type 0} ⦃e : Key A⦄ (junk : Vector) where
  -- The array of the writer after the new row is set.
  written : Writer A → Vector → List Matrix
  written w vec = set w.store w.corpus_mat (set (array_at w.store w.corpus_mat) w.corpus_n vec)

  written_rows :
      (s : Snapshot) (w : Writer A) (vec : Vector) (r : ℕ)
      → IsWriter w
      → s.n ≤ w.corpus_n
      → r < s.n
      → get_elem? (array_at (written w vec) s.mat) r ≡ get_elem? (array_at w.store s.mat) r
  unfolding written array_at
  written_rows s w vec r h l lt = elim (Bool-cases (eqb w.corpus_mat s.mat)) [
    | inl same ↦
        let q : w.corpus_mat ≡ s.mat = ground arith in
        let new = set (get_or w.store w.corpus_mat []) w.corpus_n vec in
        let here : get_or (set w.store w.corpus_mat new) w.corpus_mat [] ≡ new =
          get_or-set_eq w.store w.corpus_mat new [] h.stored in
        let below =
          get_elem?-set_below (get_or w.store w.corpus_mat []) w.corpus_n r vec (omega arith) in
        rw (sym q) (ap (λ m. get_elem? m r) here ∙ below)
    | inr other ↦
        let apart : w.corpus_mat ≢ s.mat = ground arith in
        ap (λ m. get_elem? m r)
          (get_or-set_ne w.store w.corpus_mat s.mat
            (set (get_or w.store w.corpus_mat []) w.corpus_n vec) [] apart)
  ]

  write_row-Keeps :
      (s : Snapshot) (vid : A) (vec : Vector) (w : Writer A)
      → IsWriter w
      → IsTaken s w
      → w.corpus_n < length (array_at w.store w.corpus_mat)
      → Keeps s w (write_row junk vid vec w)
  unfolding write_row view array_at written
  write_row-Keeps s vid vec w h t l =
      let new = set (get_or w.store w.corpus_mat []) w.corpus_n vec in
      let size = length-set w.store w.corpus_mat new in
      let here = get_or-set_eq w.store w.corpus_mat new [] h.stored in
      let same = length-set (get_or w.store w.corpus_mat []) w.corpus_n vec in
      record {
        writer = record {
          stored = omega (arith, size, h.stored);
          room = omega (arith, ap length here, same, l);
          named = omega (arith, length-append w.corpus_ids (vid ∷ []), h.named);
        };
        taken = record {
          present = omega (arith, size, t.present);
          behind = omega (arith, t.behind);
        };
        rows = λ r lt. written_rows s w vec r h t.behind lt;
        ids = λ r lt.
            get_elem?-append_left w.corpus_ids (vid ∷ []) r (omega (arith, lt, t.behind, h.named));
      }

  grow-Keeps :
      (s : Snapshot) (w : Writer A)
      → IsWriter w
      → IsTaken s w
      → w.corpus_n ≡ length (array_at w.store w.corpus_mat)
      → Keeps s w (grow junk w)
        × ((grow junk w).corpus_n < length (array_at (grow junk w).store (grow junk w).corpus_mat))
  unfolding grow view array_at
  grow-Keeps s w h t full =
      let mat = get_or w.store w.corpus_mat [] in
      let cap = max 1024 (length mat * 2) in
      let grown = take w.corpus_n mat ++ replicate (cap - w.corpus_n) junk in
      let end = get_or-append_end w.store grown [] in
      let parts = length-append (take w.corpus_n mat) (replicate (cap - w.corpus_n) junk) in
      let kept = length-take w.corpus_n mat in
      let added = length-replicate (cap - w.corpus_n) junk in
      let size : w.corpus_n < length grown = omega (arith, parts, kept, added, full) in
      let more = length-append w.store (grown ∷ []) in
      (
        record {
          writer = record {
            stored = omega (arith, more);
            room = omega (arith, ap length end, size);
            named = h.named;
          };
          taken = record { present = omega (arith, more, t.present); behind = t.behind };
          rows = λ r lt.
              ap (λ m. get_elem? m r) (get_or-append_left w.store (grown ∷ []) s.mat [] t.present);
          ids = λ r lt. refl;
        },
        omega (arith, ap length end, size),
      )

  append_corpus-Keeps :
      (s : Snapshot) (vid : A) (vec : Vector) (w : Writer A)
      → IsWriter w
      → IsTaken s w
      → Keeps s w (append_corpus junk vid vec w)
  unfolding append_corpus
  append_corpus-Keeps s vid vec w h t =
      elim (Bool-cases (eqb w.corpus_n (length (array_at w.store w.corpus_mat)))) [
        | inl full ↦
            let (k, l) = grow-Keeps s w h t (ground arith) in
            let next = write_row-Keeps s vid vec (grow junk w) k.writer k.taken l in
            simp full (Keeps-trans s w (grow junk w) (write_row junk vid vec (grow junk w)) k next)
        | inr free ↦
            let room : w.corpus_n < length (array_at w.store w.corpus_mat) =
              room_lem w.corpus_n (length (array_at w.store w.corpus_mat)) h.room free in
            simp free (write_row-Keeps s vid vec w h t room)
      ]
    where
      room_lem : (n m : ℕ) → n ≤ m → eqb n m ≡ false → n < m
      room_lem n m l q = ground arith

  confirm-Keeps :
      (s : Snapshot) (vid : A) (vec : Vector) (now : ℕ) (w : Writer A)
      → IsWriter w
      → IsTaken s w
      → Keeps s w (confirm junk vid vec now w)
  unfolding confirm view
  confirm-Keeps s vid vec now w h t =
      let dated : Writer A = record w {
        vector_of = put vid vec w.vector_of;
        confirmed_at = put vid now w.confirmed_at;
      } in
      let k =
        append_corpus-Keeps s vid vec dated
          (record { stored = h.stored; room = h.room; named = h.named })
          (record { present = t.present; behind = t.behind }) in
      record { writer = k.writer; taken = k.taken; rows = k.rows; ids = k.ids }

  -- However many confirmed writes follow, and however often the array is reallocated by them: a
  -- snapshot that was taken when its array existed and had at most the writer's rows reads the
  -- same vectors and ids in its rows as before, and the writer stays well formed.
  pub confirm_all-Keeps :
      (s : Snapshot) (writes : List (A × (Vector × ℕ))) (w : Writer A)
      → IsWriter w
      → IsTaken s w
      → Keeps s w (confirm_all junk writes w)
  unfolding confirm_all
  confirm_all-Keeps s [] w h t = record {
    writer = h;
    taken = t;
    rows = λ r l. refl;
    ids = λ r l. refl;
  }
  confirm_all-Keeps s ((vid, (vec, now)) ∷ writes) w h t =
      let k = confirm-Keeps s vid vec now w h t in
      Keeps-trans s w (confirm junk vid vec now w)
        (confirm_all junk writes (confirm junk vid vec now w)) k
        (confirm_all-Keeps s writes (confirm junk vid vec now w) k.writer k.taken)
