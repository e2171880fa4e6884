-- ===== src/Fvecs.antt =====
-- research/replica_recall/sift.py: the fvecs reader (record_bytes, _read_bytes, read_fvecs). A file
-- is its bytes and a float32 its bit pattern; an int32 is little-endian.
pub mod Words
pub mod Records
pub mod Parse
pub mod Fetch
pub mod Cached
pub mod Loads
pub mod Tests
use nano_db.Common.{
  ℕ, zero, suc, ◌+◌, ◌*◌, ◌/◌, ◌%◌, List, [], ◌∷◌, map, Bool, true, false, not, ◌&&◌, Option, none,
  some, if◌then◌else◌, length, take, drop, eqb, ltb, is_empty,
}
use nano_db.Common.Sets.{select}
use nano_db.Common.Int.{ℤ, pos, leb_ℤ}
use nano_db.Common.Frac.{Result, ok, raise, value_error}
use nano_db.Index.{Bytes, i4, u4s}

abbrev pub expected_dim : ℕ
expected_dim = 128

abbrev pub header_bytes : ℕ
header_bytes = 4

abbrev pub record_bytes : ℕ → ℕ
record_bytes dim = header_bytes + 4 * dim

-- One row of `words`: the header column and the data columns.
pub record Record : Type 0 where
  pub header : ℤ
  pub components : List ℕ

-- A path, a buffer or a stream, whose content is `src`, read up to `want` bytes.
abbrev pub read_bytes : Bytes → Option ℕ → Bytes
read_bytes src none = src
read_bytes src (some want) = take want src

abbrev pub wanted : Option ℕ → ℕ → Option ℕ
wanted none rec = none
wanted (some limit) rec = some (limit * rec)

abbrev pub is_short : Option ℕ → ℕ → Bool
is_short none n = false
is_short (some limit) n = ltb n limit

-- `np.frombuffer(buf, dtype=np.int32).reshape(n, dim + 1)`.
unfoldable pub read_records : ℕ → ℕ → Bytes → List Record
read_records dim zero buf = []
read_records dim (suc n) buf =
    record { header = i4 buf 0; components = u4s buf 4 dim }
    ∷ read_records dim n (drop (record_bytes dim) buf)

-- `words[:, 0] != dim`.
abbrev pub is_bad : ℕ → Record → Bool
is_bad dim r = not (leb_ℤ r.header (pos dim) && leb_ℤ (pos dim) r.header)

-- What is read of a buffer: first whether it is whole, then its records.
unfoldable pub parse_buffer : ℕ → Option ℕ → Bytes → Result (List (List ℕ))
unfolding read_records
parse_buffer dim limit buf =
    let rec = record_bytes dim in
    let n = length buf / rec in
    let words = read_records dim n buf in
    if eqb (length buf) 0
    then raise value_error
    else (if not (eqb (length buf % rec) 0)
        then raise value_error
        else (if is_short limit n
            then raise value_error
            else (if not (is_empty (select (is_bad dim) words))
                then raise value_error
                else ok (map (λ (r : Record). r.components) words))))

unfoldable pub read_fvecs : Bytes → Option ℕ → ℕ → Result (List (List ℕ))
unfolding parse_buffer
read_fvecs src limit dim = parse_buffer dim limit (read_bytes src (wanted limit (record_bytes dim)))
