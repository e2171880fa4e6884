-- ===== src/Index/Tests.antt =====
-- A small index file, and the theorem about loading at it.
use nano_db.Common.{◌≤◌, ◌<◌, ◌≡◌, ◌≢◌, ◌⊎◌, refl, [], ◌∷◌, ◌++◌, replicate, length, drop}
use nano_db.Common.Frac.{ok, raise, value_error}
use nano_db.Index.{
  Bytes, Loaded, load_index, read_header, read_nodes, nanodb_magic, header_size, extent_of,
  is_written, u4, read_node,
}
use nano_db.Index.Load.{IsLoaded, load_index_lem}

-- A header that counts no node, one row with some neighbour slots filled with -1, one blank row.
abbrev file : Bytes
file =
    (0 ∷ 0x42 ∷ 0x44 ∷ 0x4E ∷ [])
    ++ (replicate 60 0 ++ (replicate 600 0 ++ (replicate 456 255 ++ replicate 1056 0)))

reads_magic : (read_header file).magic ≡ nanodb_magic
unfolding read_header u4
reads_magic = refl

-- The row that `element_count` does not count is kept, the blank one is not.
extent_one : extent_of (read_nodes 2 (drop header_size file)) ≡ 1
unfolding extent_of read_nodes read_node is_written
extent_one = refl

refuses_short : load_index (1 ∷ 2 ∷ []) ≡ raise value_error
unfolding load_index
refuses_short = refl

load_index_lem_example :
    ((load_index file ≡ raise value_error)
      × ((length file < header_size) ⊎ ((read_header file).magic ≢ nanodb_magic)))
    ⊎ ((l : Loaded) × (load_index file ≡ ok l)
        × (header_size ≤ length file)
        × (l.header.magic ≡ nanodb_magic)
        × IsLoaded file l)
load_index_lem_example = load_index_lem file
