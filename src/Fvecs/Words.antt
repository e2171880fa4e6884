-- ===== src/Fvecs/Words.antt =====
-- Little-endian words and records in a buffer, for the fvecs reader of
-- research/replica_recall/sift.py.
use nano_db.Common.{
  drop-drop, length-drop, ℕ, zero, suc, ◌+◌, ◌*◌, ◌/◌, ◌%◌, ◌^◌, ◌≤◌, ◌<◌, ◌≡◌, refl, ap, ap₂, sym,
  ◌∙◌, List, [], ◌∷◌, ◌++◌, arith, length, drop, All,
}
use nano_db.Index.{Bytes, u4, u4s}

-- The four bytes of a word.
abbrev pub put_u4 : ℕ → Bytes
put_u4 w = w % 256 ∷ w / 256 % 256 ∷ w / 65536 % 256 ∷ w / 16777216 % 256 ∷ []

abbrev pub put_words : List ℕ → Bytes
put_words [] = []
put_words (w ∷ ws) = put_u4 w ++ put_words ws

-- One record: the dimension, then the components.
abbrev pub put_record : ℕ → List ℕ → Bytes
put_record dim v = put_u4 dim ++ put_words v

-- The fvecs file of some vectors.
abbrev pub fvecs : ℕ → List (List ℕ) → Bytes
fvecs dim [] = []
fvecs dim (v ∷ vs) = put_record dim v ++ fvecs dim vs

-- A vector of `dim` float32 patterns.
pub record IsVector (dim : ℕ) (v : List ℕ) : Type 0 where
  pub dims : length v ≡ dim
  pub in_range : All (λ w. w < 2 ^ 32) v

abbrev pub AreBytes : Bytes → Type 0
AreBytes raw = All (λ b. b < 256) raw

u4-drop : (raw : Bytes) (i j : ℕ) → u4 (drop i raw) j ≡ u4 raw (i + j)
unfolding u4
u4-drop raw i j = simp (drop-drop i j raw)

u4s-drop : (raw : Bytes) (i j n : ℕ) → u4s (drop i raw) j n ≡ u4s raw (i + j) n
unfolding u4s
u4s-drop raw i j zero = refl
u4s-drop raw i j (suc n) =
    let e : i + (j + 4) ≡ i + j + 4 = omega arith in
    ap₂ ◌∷◌ (u4-drop raw i j) (u4s-drop raw i (j + 4) n ∙ ap (λ k. u4s raw k n) e)

pub u4-put : (w : ℕ) (rest : Bytes) → w < 2 ^ 32 → u4 (put_u4 w ++ rest) 0 ≡ w
unfolding u4
u4-put w rest h = omega arith

pub u4s-put :
    (ws : List ℕ) (rest : Bytes)
    → All (λ w. w < 2 ^ 32) ws
    → u4s (put_words ws ++ rest) 0 (length ws) ≡ ws
unfolding u4s
u4s-put [] rest h = refl
u4s-put (w ∷ ws) rest h =
    ap₂ ◌∷◌ (u4-put w (put_words ws ++ rest) h.0)
      (sym (u4s-drop (put_u4 w ++ (put_words ws ++ rest)) 4 0 (length ws)) ∙ u4s-put ws rest h.1)

pub u4s_behind : (raw : Bytes) (n : ℕ) → u4s raw 4 n ≡ u4s (drop 4 raw) 0 n
u4s_behind raw n = sym (u4s-drop raw 4 0 n)

pub length-put_words : (ws : List ℕ) → length (put_words ws) ≡ 4 * length ws
length-put_words [] = omega arith
length-put_words (w ∷ ws) = omega (arith, length-put_words ws)

-- The word that is read there is the one whose bytes stand there.
pub put_u4-u4 :
    (raw : Bytes) → AreBytes raw → 4 ≤ length raw → put_u4 (u4 raw 0) ++ drop 4 raw ≡ raw
unfolding u4
put_u4-u4 [] h k = absurd (omega arith)
put_u4-u4 (a ∷ []) h k = absurd (omega arith)
put_u4-u4 (a ∷ b ∷ []) h k = absurd (omega arith)
put_u4-u4 (a ∷ b ∷ c ∷ []) h k = absurd (omega arith)
put_u4-u4 (a ∷ b ∷ c ∷ d ∷ rest) (ha, (hb, (hc, (hd, _)))) k =
    let w = a + 256 * b + 65536 * c + 16777216 * d in
    let ea : w % 256 ≡ a = omega arith in
    let eb : w / 256 % 256 ≡ b = omega arith in
    let ec : w / 65536 % 256 ≡ c = omega arith in
    let ed : w / 16777216 % 256 ≡ d = omega arith in
    ap₂ ◌∷◌ ea (ap₂ ◌∷◌ eb (ap₂ ◌∷◌ ec (ap (λ x. x ∷ rest) ed)))

pub drop-AreBytes : (n : ℕ) (raw : Bytes) → AreBytes raw → AreBytes (drop n raw)
drop-AreBytes zero raw h = h
drop-AreBytes (suc n) [] h = tt
drop-AreBytes (suc n) (b ∷ raw) h = drop-AreBytes n raw h.1

pub length-u4s : (raw : Bytes) (i n : ℕ) → length (u4s raw i n) ≡ n
unfolding u4s
length-u4s raw i zero = refl
length-u4s raw i (suc n) = ap suc (length-u4s raw (i + 4) n)

pub put_words-u4s :
    (n : ℕ) (raw : Bytes)
    → AreBytes raw
    → 4 * n ≤ length raw
    → put_words (u4s raw 0 n) ++ drop (4 * n) raw ≡ raw
unfolding u4s
put_words-u4s zero raw h k = refl
put_words-u4s (suc n) raw h k =
    let tail = drop 4 raw in
    let ih = put_words-u4s n tail (drop-AreBytes 4 raw h) (omega (arith, length-drop 4 raw)) in
    let e : 4 + 4 * n ≡ 4 * suc n = omega arith in
    ap (λ ws. put_u4 (u4 raw 0) ++ (put_words ws ++ drop (4 * suc n) raw)) (u4s_behind raw n)
    ∙ ap (λ x. put_u4 (u4 raw 0) ++ (put_words (u4s tail 0 n) ++ x))
        (sym (drop-drop 4 (4 * n) raw ∙ ap (λ i. drop i raw) e))
    ∙ ap (λ x. put_u4 (u4 raw 0) ++ x) ih
    ∙ put_u4-u4 raw h (omega arith)
