-- ===== src/Index.antt =====
-- research/replica_recall/graph_forensics.py, `load_index`: the index file as bytes, its header and
-- the rows of nodes. A float of a vector stays its bit pattern, since only its being 0 is tested.
pub mod Load
pub mod Tests
use nano_db.Common.{
  ℕ, zero, suc, ◌+◌, ◌-◌, ◌*◌, ◌/◌, ◌%◌, ◌^◌, ◌≤◌, ◌<◌, ◌≡◌, List, [], ◌∷◌, ◌++◌, map, Bool, true,
  false, not, ◌&&◌, ◌||◌, if◌then◌else◌, length, take, drop, ltb, leb, eqb, get_or,
}
use nano_db.Common.Sets.{any}
use nano_db.Common.Int.{ℤ, pos, negsuc}
use nano_db.Common.Frac.{Result, ok, raise, value_error}

abbrev pub Bytes : Type 0
Bytes = List ℕ

abbrev pub header_size : ℕ
header_size = 64

abbrev pub max_layers : ℕ
max_layers = 4

abbrev pub m_max0 : ℕ
m_max0 = 32

abbrev pub vector_dim : ℕ
vector_dim = 128

abbrev pub nanodb_magic : ℕ
nanodb_magic = 0x4E444200

abbrev pub no_neighbor : ℕ
no_neighbor = 0xFFFFFFFF

abbrev pub node_size : ℕ
node_size = 1056

-- `NODE_DTYPE`, without its padding.
pub record Node : Type 0 where
  pub id : ℕ
  pub max_layer : ℤ
  pub is_deleted : ℕ
  pub vector : List ℕ
  pub neighbors : List (List ℕ)
  pub neighbor_counts : List ℤ

-- `HEADER_DTYPE`, without the reserved bytes.
pub record Header : Type 0 where
  pub magic : ℕ
  pub element_count : ℕ
  pub entry_point_id : ℤ
  pub max_layer : ℤ

-- `<u4` and `<i4` at an offset.
unfoldable pub u4 : Bytes → ℕ → ℕ
u4 raw at =
    let b = drop at raw in
    get_or b 0 0 + 256 * get_or b 1 0 + 65536 * get_or b 2 0 + 16777216 * get_or b 3 0

unfoldable pub i4 : Bytes → ℕ → ℤ
unfolding u4
i4 raw at = let u = u4 raw at in if ltb u (2 ^ 31) then pos u else negsuc (2 ^ 32 - u - 1)

-- `count` words from an offset.
unfoldable pub u4s : Bytes → ℕ → ℕ → List ℕ
unfolding u4
u4s raw at zero = []
u4s raw at (suc count) = u4 raw at ∷ u4s raw (at + 4) count

unfoldable pub i4s : Bytes → ℕ → ℕ → List ℤ
unfolding i4
i4s raw at zero = []
i4s raw at (suc count) = i4 raw at ∷ i4s raw (at + 4) count

unfoldable pub u4_rows : Bytes → ℕ → ℕ → List (List ℕ)
unfolding u4s
u4_rows raw at zero = []
u4_rows raw at (suc layers) = u4s raw at m_max0 ∷ u4_rows raw (at + 4 * m_max0) layers

unfoldable pub read_node : Bytes → Node
unfolding u4s i4s u4_rows
read_node raw = record {
  id = u4 raw 0;
  max_layer = i4 raw 4;
  is_deleted = get_or raw 8 0;
  vector = u4s raw 12 vector_dim;
  neighbors = u4_rows raw 524 max_layers;
  neighbor_counts = i4s raw 1036 max_layers;
}

unfoldable pub read_nodes : ℕ → Bytes → List Node
unfolding read_node
read_nodes zero raw = []
read_nodes (suc n) raw = read_node raw ∷ read_nodes n (drop node_size raw)

unfoldable pub read_header : Bytes → Header
unfolding i4
read_header raw = record {
  magic = u4 raw 0;
  element_count = u4 raw 4;
  entry_point_id = i4 raw 8;
  max_layer = i4 raw 12;
}

-- `(neighbors == NO_NEIGHBOR).any()` or `(vector != 0).any()`. The float bits of 0.0 and -0.0 are
-- those whose low 31 bits are 0.
unfoldable pub is_written : Node → Bool
is_written node =
    any (any (λ s. eqb s no_neighbor)) node.neighbors
    || any (λ x. not (eqb (x % 2 ^ 31) 0)) node.vector

-- `int(nz[-1]) + 1 if nz.size else 0` for the flags of the rows.
unfoldable pub extent_of : List Node → ℕ
extent_of [] = 0
extent_of (node ∷ nodes) =
    let rest = extent_of nodes in
    if eqb rest 0 then (if is_written node then 1 else 0) else suc rest

pub record Loaded : Type 0 where
  pub header : Header
  pub nodes : List Node
  pub capacity : ℕ

abbrev pub capacity_of : Bytes → ℕ
capacity_of raw = (length raw - header_size) / node_size

unfoldable pub load_index : Bytes → Result Loaded
load_index raw =
    if ltb (length raw) header_size
    then raise value_error
    else (let header = read_header raw in
        if not (eqb (header.magic) nanodb_magic)
        then raise value_error
        else (let capacity = capacity_of raw in
            let all_nodes = read_nodes capacity (drop header_size raw) in
            ok (record {
              header = header;
              nodes = take (extent_of all_nodes) all_nodes;
              capacity = capacity;
            })))
