-- ===== src/Index/Load.antt =====
-- What `load_index` keeps of the file (research/replica_recall/graph_forensics.py).
use nano_db.Common.{
  ℕ, zero, suc, ◌+◌, ◌*◌, ◌≤◌, ◌<◌, ◌≡◌, ◌≢◌, ◌⊎◌, refl, ap, sym, subst, List, [], ◌∷◌, true, false,
  inl, inr, arith, some, length, eqb, ltb, Bool-cases, get_elem?, take, drop, length-take,
}
use nano_db.Common.Frac.{ok, raise, value_error}
use nano_db.Index.{
  Bytes, Node, Loaded, is_written, extent_of, read_nodes, read_header, capacity_of, load_index,
  nanodb_magic, header_size, node_size,
}

-- The extent is the end of the last written row.
pub record IsExtent (nodes : List Node) (n : ℕ) : Type 0 where
  pub fits : n ≤ length nodes
  pub last_written :
      (i : ℕ)
      → n ≡ suc i
      → (node : Node) × (get_elem? nodes i ≡ some node) × (is_written node ≡ true)
  pub rest_blank :
      (i : ℕ) (node : Node) → n ≤ i → get_elem? nodes i ≡ some node → is_written node ≡ false

extent_of-cases :
    (node : Node) (nodes : List Node)
    → ((extent_of (node ∷ nodes) ≡ suc (extent_of nodes)) × (0 < extent_of nodes))
      ⊎ ((extent_of nodes ≡ 0) × (extent_of (node ∷ nodes) ≡ 1) × (is_written node ≡ true))
      ⊎ ((extent_of nodes ≡ 0) × (extent_of (node ∷ nodes) ≡ 0) × (is_written node ≡ false))
unfolding extent_of
extent_of-cases node nodes = elim (Bool-cases (eqb (extent_of nodes) 0)) [
  | inl empty ↦ elim (Bool-cases (is_written node)) [
    | inl yes' ↦ inr (inl (ground arith, ground arith, yes'))
    | inr no' ↦ inr (inr (ground arith, ground arith, no'))
  ]
  | inr full ↦ inl (ground arith, ground arith)
]

module _ (node : Node) (nodes : List Node) (ih : IsExtent nodes (extent_of nodes)) where
  last_lem :
      (i : ℕ)
      → extent_of (node ∷ nodes) ≡ suc i
      → (x : Node) × (get_elem? (node ∷ nodes) i ≡ some x) × (is_written x ≡ true)
  last_lem zero h = elim (extent_of-cases node nodes) [
    | inl (e, positive) ↦ absurd (omega arith)
    | inr (inl (_, _, written)) ↦ (node, refl, written)
    | inr (inr (_, e, _)) ↦ absurd (omega arith)
  ]
  last_lem (suc i) h = elim (extent_of-cases node nodes) [
    | inl (e, positive) ↦ ih.last_written i (omega arith)
    | inr (inl (_, e, _)) ↦ absurd (omega arith)
    | inr (inr (_, e, _)) ↦ absurd (omega arith)
  ]

  rest_lem :
      (i : ℕ) (x : Node)
      → extent_of (node ∷ nodes) ≤ i
      → get_elem? (node ∷ nodes) i ≡ some x
      → is_written x ≡ false
  rest_lem zero x h e = elim (extent_of-cases node nodes) [
    | inl (e', positive) ↦ absurd (omega arith)
    | inr (inl (_, e', _)) ↦ absurd (omega arith)
    | inr (inr (_, _, blank)) ↦ cc
  ]
  rest_lem (suc i) x h e = elim (extent_of-cases node nodes) [
    | inl (e', positive) ↦ ih.rest_blank i x (omega arith) e
    | inr (inl (empty, _, _)) ↦ ih.rest_blank i x (omega arith) e
    | inr (inr (empty, _, _)) ↦ ih.rest_blank i x (omega arith) e
  ]

extent_of-IsExtent : (nodes : List Node) → IsExtent nodes (extent_of nodes)
unfolding extent_of
extent_of-IsExtent [] = record {
  fits = omega arith;
  last_written = λ i h. absurd (omega arith);
  rest_blank = λ i node h e. absurd (cc);
}
extent_of-IsExtent (node ∷ nodes) =
    let ih = extent_of-IsExtent nodes in
    record {
      fits = ground (arith, ih.fits);
      last_written = last_lem node nodes ih;
      rest_blank = rest_lem node nodes ih;
    }

length-read_nodes : (n : ℕ) (raw : Bytes) → length (read_nodes n raw) ≡ n
unfolding read_nodes
length-read_nodes zero raw = refl
length-read_nodes (suc n) raw = ap suc (length-read_nodes n (drop node_size raw))

-- What a file that loads has: room for `capacity` nodes behind the header, and as nodes its rows
-- up to the last written one.
pub record IsLoaded (raw : Bytes) (l : Loaded) : Type 0 where
  pub header_eq : l.header ≡ read_header raw
  pub room : header_size + l.capacity * node_size ≤ length raw
  pub full : length raw < header_size + suc l.capacity * node_size
  pub nodes_eq : l.nodes ≡ take (length l.nodes) (read_nodes l.capacity (drop header_size raw))
  pub extent : IsExtent (read_nodes l.capacity (drop header_size raw)) (length l.nodes)

-- The file is refused with ValueError exactly if it is shorter than the header or its magic number
-- is wrong. Otherwise every row of the file is either among the nodes or was never written, and
-- the last of the nodes was written: `element_count` of the header plays no part.
pub load_index_lem :
    (raw : Bytes)
    → ((load_index raw ≡ raise value_error)
        × ((length raw < header_size) ⊎ ((read_header raw).magic ≢ nanodb_magic)))
      ⊎ ((l : Loaded) × (load_index raw ≡ ok l)
          × (header_size ≤ length raw)
          × (l.header.magic ≡ nanodb_magic)
          × IsLoaded raw l)
unfolding load_index
load_index_lem raw = elim (Bool-cases (ltb (length raw) header_size)) [
  | inl short ↦ inl (rw short, inl (ground arith))
  | inr long ↦ elim (Bool-cases (eqb (read_header raw).magic nanodb_magic)) [
    | inr other ↦ inl (rw (long, other), inr (ground arith))
    | inl same ↦
        let capacity = capacity_of raw in
        let all_nodes = read_nodes capacity (drop header_size raw) in
        let extent = extent_of-IsExtent all_nodes in
        let size : length (take (extent_of all_nodes) all_nodes) ≡ extent_of all_nodes =
          omega (arith, length-take (extent_of all_nodes) all_nodes, extent.fits) in
        inr (
          record {
            header = read_header raw;
            nodes = take (extent_of all_nodes) all_nodes;
            capacity = capacity;
          },
          rw (long, same),
          ground arith,
          ground arith,
          record {
            header_eq = refl;
            room = ground arith;
            full = ground arith;
            nodes_eq = ap (λ n. take n all_nodes) (sym size);
            extent = subst (IsExtent all_nodes) (sym size) extent;
          },
        )
  ]
]
