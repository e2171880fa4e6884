-- ===== src/Fvecs/Parse.antt =====
-- What `read_fvecs` of research/replica_recall/sift.py accepts.
use native.Mathlib.Nat.{mul-div_cancel, mul-mod_left, div-add-mod'}
use nano_db.Common.{
  take-append, ℕ, zero, suc, ◌*◌, ◌/◌, ◌%◌, ◌^◌, ◌<◌, ◌≡◌, ◌⊎◌, inl, inr, refl, ap, sym, ◌∙◌, List,
  [], ◌∷◌, ◌++◌, map, arith, length, take, All, Option, none, some, true, false, eqb, Bool-cases,
  is_empty,
}
use nano_db.Common.Sets.{select}
use nano_db.Common.Frac.{mul_pos, ok, raise, value_error}
use nano_db.Index.{Bytes}
use nano_db.Fvecs.{
  Record, record_bytes, read_bytes, wanted, is_short, read_records, is_bad, parse_buffer,
  read_fvecs,
}
use nano_db.Fvecs.Words.{fvecs, IsVector, AreBytes}
use nano_db.Fvecs.Records.{
  length-fvecs, read_records-fvecs, select_good, map_components, read_records-good,
}

mul_mod_self : (n rec : ℕ) → n * rec % rec ≡ 0
mul_mod_self n rec = mul-mod_left n rec

length-mod : (n rec len : ℕ) → 0 < rec → len ≡ n * rec → (len % rec ≡ 0) × (len / rec ≡ n)
length-mod n rec len h e = (rw e (mul_mod_self n rec), rw e (mul-div_cancel n h))

accepts :
    (dim : ℕ) (limit : Option ℕ) (vs : List (List ℕ))
    → dim < 2 ^ 31
    → 0 < length vs
    → All (IsVector dim) vs
    → is_short limit (length vs) ≡ false
    → parse_buffer dim limit (fvecs dim vs) ≡ ok vs
unfolding parse_buffer
accepts dim limit vs small full h long =
    let buf = fvecs dim vs in
    let n = length vs in
    let rec = record_bytes dim in
    let size = length-fvecs dim vs h in
    let sizes = length-mod n rec (length buf) (omega arith) size in
    let whole : eqb (length buf) 0 ≡ false = ground (arith, mul_pos n rec full (omega arith)) in
    rw
      (
        whole,
        sizes.0,
        sizes.1,
        long,
        read_records-fvecs dim vs small h,
        select_good dim vs,
        map_components dim vs,
      )
      refl

-- What a buffer that parses has: it is the file of at least one vector, and of no fewer than asked.
pub record IsFile (dim : ℕ) (limit : Option ℕ) (buf : Bytes) (vs : List (List ℕ)) : Type 0 where
  pub file : fvecs dim vs ≡ buf
  pub some_vector : 0 < length vs
  pub vectors : All (IsVector dim) vs
  pub enough : is_short limit (length vs) ≡ false

is_empty_lem : (xs : List Record) → is_empty xs ≡ true → xs ≡ []
is_empty_lem [] h = refl
is_empty_lem (x ∷ xs) h = absurd (cc)

pos_of_mul : (n rec len : ℕ) → len ≡ n * rec → 0 < len → 0 < n
pos_of_mul zero rec len e h = absurd (omega arith)
pos_of_mul (suc n) rec len e h = omega arith

take-AreBytes : (n : ℕ) (raw : Bytes) → AreBytes raw → AreBytes (take n raw)
take-AreBytes zero raw h = tt
take-AreBytes (suc n) [] h = tt
take-AreBytes (suc n) (x ∷ raw) h = (h.0, take-AreBytes n raw h.1)

read_bytes-AreBytes :
    (src : Bytes) (want : Option ℕ) → AreBytes src → AreBytes (read_bytes src want)
read_bytes-AreBytes src none h = h
read_bytes-AreBytes src (some n) h = take-AreBytes n src h

parse_buffer-cases :
    (dim : ℕ) (limit : Option ℕ) (buf : Bytes)
    → AreBytes buf
    → (parse_buffer dim limit buf ≡ raise value_error)
      ⊎ ((vs : List (List ℕ)) × (parse_buffer dim limit buf ≡ ok vs) × IsFile dim limit buf vs)
unfolding parse_buffer
parse_buffer-cases dim limit buf b =
    let rec = record_bytes dim in
    let n = length buf / rec in
    let words = read_records dim n buf in
    elim (Bool-cases (eqb (length buf) 0)) [
      | inl empty ↦ inl (rw empty refl)
      | inr full ↦ elim (Bool-cases (eqb (length buf % rec) 0)) [
        | inr partial ↦ inl (rw (full, partial) refl)
        | inl exact ↦ elim (Bool-cases (is_short limit n)) [
          | inl short ↦ inl (rw (full, exact, short) refl)
          | inr enough ↦ elim (Bool-cases (is_empty (select (is_bad dim) words))) [
            | inr bad ↦ inl (rw (full, exact, enough, bad) refl)
            | inl good ↦
                let size : length buf ≡ n * rec = ground (arith, div-add-mod' (length buf) rec) in
                let r = read_records-good dim n buf b size (is_empty_lem _ good) in
                inr (
                  map (λ (r : Record). r.components) words,
                  rw (full, exact, enough, good) refl,
                  record {
                    file = r.0;
                    some_vector = rw r.1 (pos_of_mul n rec (length buf) size (ground arith));
                    vectors = r.2;
                    enough = rw r.1 enough;
                  },
                )
          ]
        ]
      ]
    ]

-- The file of at least one vector of a dimension below 2^31 is read back as these vectors, and so
-- is the start of a longer file when as many vectors are asked for as it has.
pub read_fvecs-fvecs :
    (dim : ℕ) (vs : List (List ℕ))
    → dim < 2 ^ 31
    → 0 < length vs
    → All (IsVector dim) vs
    → (read_fvecs (fvecs dim vs) none dim ≡ ok vs)
      × ((rest : Bytes) → read_fvecs (fvecs dim vs ++ rest) (some (length vs)) dim ≡ ok vs)
unfolding read_fvecs
read_fvecs-fvecs dim vs small full h = (
  accepts dim none vs small full h refl,
  λ rest.
      ap (parse_buffer dim (some (length vs))) (
        ap (λ n. take n (fvecs dim vs ++ rest)) (sym (length-fvecs dim vs h))
        ∙ take-append (fvecs dim vs) rest)
      ∙ accepts dim (some (length vs)) vs small full h (ground arith),
)

-- read_fvecs either raises ValueError or returns vectors whose fvecs file is exactly the bytes it
-- was to read, at least one of them and no fewer than asked for: nothing is dropped or malformed.
pub read_fvecs_lem :
    (src : Bytes) (limit : Option ℕ) (dim : ℕ)
    → AreBytes src
    → (read_fvecs src limit dim ≡ raise value_error)
      ⊎ ((vs : List (List ℕ)) × (read_fvecs src limit dim ≡ ok vs)
          × IsFile dim limit (read_bytes src (wanted limit (record_bytes dim))) vs)
unfolding read_fvecs
read_fvecs_lem src limit dim b =
    parse_buffer-cases dim limit _ (read_bytes-AreBytes src (wanted limit (record_bytes dim)) b)
