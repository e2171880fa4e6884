-- ===== src/Fvecs/Records.antt =====
-- The records of an fvecs buffer, for the reader of research/replica_recall/sift.py.
use nano_db.Common.{
  drop-drop, length-drop, drop-append, ℕ, zero, suc, ◌+◌, ◌*◌, ◌^◌, ◌≤◌, ◌<◌, ◌≡◌, inl, inr, refl,
  ap, ap₂, sym, ◌∙◌, List, [], ◌∷◌, ◌++◌, map, append_assoc, arith, length, drop, All, false,
  Bool-cases, length-append, get_or,
}
use nano_db.Common.Sets.{select}
use nano_db.Common.Int.{pos}
use nano_db.Index.{Bytes, u4, i4, u4s}
use nano_db.Fvecs.{Record, record_bytes, read_records, is_bad}
use nano_db.Fvecs.Words.{
  put_u4, put_words, put_record, fvecs, IsVector, AreBytes, u4-put, u4s-put, u4s_behind,
  length-put_words, put_u4-u4, put_words-u4s, drop-AreBytes, length-u4s,
}

length-put_record :
    (dim : ℕ) (v : List ℕ) → IsVector dim v → length (put_record dim v) ≡ record_bytes dim
length-put_record dim v h =
    omega (arith, length-append (put_u4 dim) (put_words v), length-put_words v, h.dims)

pub length-fvecs :
    (dim : ℕ) (vs : List (List ℕ))
    → All (IsVector dim) vs
    → length (fvecs dim vs) ≡ length vs * record_bytes dim
length-fvecs dim [] h = omega arith
length-fvecs dim (v ∷ vs) h = grind (
  arith,
  length-append (put_record dim v) (fvecs dim vs),
  length-put_record dim v h.0,
  length-fvecs dim vs h.1,
)

-- The record that stands for a vector.
abbrev as_record : ℕ → List ℕ → Record
as_record dim v = record { header = pos dim; components = v }

i4-put : (w : ℕ) (rest : Bytes) → w < 2 ^ 31 → i4 (put_u4 w ++ rest) 0 ≡ pos w
unfolding i4
i4-put w rest h = ground (arith, u4-put w rest)

pub read_records-fvecs :
    (dim : ℕ) (vs : List (List ℕ))
    → dim < 2 ^ 31
    → All (IsVector dim) vs
    → read_records dim (length vs) (fvecs dim vs) ≡ map (as_record dim) vs
unfolding read_records
read_records-fvecs dim [] small h = refl
read_records-fvecs dim (v ∷ vs) small h =
    ap₂ ◌∷◌
      (ap₂ (λ x y. record { header = x; components = y })
        (ap (λ s. i4 s 0) shape ∙ i4-put dim _ small) (u4s_behind _ dim ∙ components_eq))
      (ap (λ n. read_records dim (length vs) (drop n (put_record dim v ++ fvecs dim vs)))
          (sym (length-put_record dim v h.0))
        ∙ ap (read_records dim (length vs)) (drop-append (put_record dim v) (fvecs dim vs))
        ∙ read_records-fvecs dim vs small h.1)
  where
    shape : fvecs dim (v ∷ vs) ≡ put_u4 dim ++ (put_words v ++ fvecs dim vs)
    shape = append_assoc (put_u4 dim) (put_words v) (fvecs dim vs)

    components_eq : u4s (drop 4 (fvecs dim (v ∷ vs))) 0 dim ≡ v
    components_eq =
        ap (λ n. u4s (put_words v ++ fvecs dim vs) 0 n) (sym h.0.dims)
        ∙ u4s-put v (fvecs dim vs) h.0.in_range

pub select_good : (dim : ℕ) (vs : List (List ℕ)) → select (is_bad dim) (map (as_record dim) vs) ≡ []
select_good dim [] = refl
select_good dim (v ∷ vs) = ground (arith, select_good dim vs)

pub map_components :
    (dim : ℕ) (vs : List (List ℕ))
    → map (λ (r : Record). r.components) (map (as_record dim) vs) ≡ vs
map_components dim [] = refl
map_components dim (v ∷ vs) = ap (λ t. v ∷ t) (map_components dim vs)

get_or_byte : (raw : Bytes) (i : ℕ) → AreBytes raw → get_or raw i 0 < 256
get_or_byte [] i h = omega arith
get_or_byte (b ∷ raw) zero h = h.0
get_or_byte (b ∷ raw) (suc i) h = get_or_byte raw i h.1

u4-lt : (raw : Bytes) (i : ℕ) → AreBytes raw → u4 raw i < 2 ^ 32
unfolding u4
u4-lt raw i h =
    let k = drop-AreBytes i raw h in
    let b = drop i raw in
    omega (arith, get_or_byte b 0 k, get_or_byte b 1 k, get_or_byte b 2 k, get_or_byte b 3 k)

u4s-in_range : (raw : Bytes) (i n : ℕ) → AreBytes raw → All (λ w. w < 2 ^ 32) (u4s raw i n)
unfolding u4s
u4s-in_range raw i zero h = tt
u4s-in_range raw i (suc n) h = (u4-lt raw i h, u4s-in_range raw (i + 4) n h)

-- A header that is not bad is the dimension.
u4-good :
    (dim : ℕ) (raw : Bytes) (c : List ℕ)
    → is_bad dim (record { header = i4 raw 0; components = c }) ≡ false
    → u4 raw 0 ≡ dim
unfolding i4
u4-good dim raw c h = ground arith

record_file :
    (dim : ℕ) (buf : Bytes)
    → AreBytes buf
    → record_bytes dim ≤ length buf
    → u4 buf 0 ≡ dim
    → put_u4 dim ++ (put_words (u4s buf 4 dim) ++ drop (record_bytes dim) buf) ≡ buf
record_file dim buf b long e =
    ap₂ (λ ws x. put_u4 dim ++ (put_words ws ++ x)) (u4s_behind buf dim)
      (sym (drop-drop 4 (4 * dim) buf))
    ∙ ap (λ x. put_u4 dim ++ x)
        (put_words-u4s dim (drop 4 buf) (drop-AreBytes 4 buf b) (omega (arith, length-drop 4 buf)))
    ∙ ap (λ w. put_u4 w ++ drop 4 buf) (sym e)
    ∙ put_u4-u4 buf b (omega arith)

pub read_records-good :
    (dim n : ℕ) (buf : Bytes)
    → AreBytes buf
    → length buf ≡ n * record_bytes dim
    → select (is_bad dim) (read_records dim n buf) ≡ []
    → let vs = map (λ (r : Record). r.components) (read_records dim n buf) in
      (fvecs dim vs ≡ buf) × (length vs ≡ n) × All (IsVector dim) vs
unfolding read_records
read_records-good dim zero [] b e good = (refl, refl, tt)
read_records-good dim zero (x ∷ buf) b e good = absurd (omega arith)
read_records-good dim (suc n) buf b e good =
    let r : Record = record { header = i4 buf 0; components = u4s buf 4 dim } in
    let tail = drop (record_bytes dim) buf in
    elim (Bool-cases (is_bad dim r)) [
      | inl bad ↦ absurd (ground (arith, good))
      | inr fine ↦
          let rest : select (is_bad dim) (read_records dim n tail) ≡ [] = ground (arith, good) in
          let size : length tail ≡ n * record_bytes dim =
            grind (arith, length-drop (record_bytes dim) buf) in
          let ih =
            read_records-good dim n tail (drop-AreBytes (record_bytes dim) buf b) size rest in
          (
            ap (λ x. put_u4 dim ++ (put_words (u4s buf 4 dim) ++ x)) ih.0
                ∙ record_file dim buf b (grind arith) (u4-good dim buf (u4s buf 4 dim) fine),
            ap suc ih.1,
            (record { dims = length-u4s buf 4 dim; in_range = u4s-in_range buf 4 dim b }, ih.2),
          )
    ]
