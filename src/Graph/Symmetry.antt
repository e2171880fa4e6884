-- ===== src/Graph/Symmetry.antt =====
-- One-way edges, which `analyse` finds by numeric keys (research/replica_recall/graph_forensics.py).
use nano_db.Common.{
  ℕ, suc, ◌+◌, ◌*◌, ◌-◌, ◌<◌, ◌≡◌, refl, ap, sym, subst, List, [], ◌∷◌, map, not, arith, nat_key,
  All,
}
use native.Mathlib.Decide.{dec_lt}
use nano_db.Common.Sets.{contains}
use nano_db.Graph.{Edge}
use nano_db.Graph.Report.{edge_key, reverse_key, is_asymmetric}
use nano_db.Graph.Csr.{has_edge}

no_wrap : (n a b c d k : ℕ) → b < n → a * n + b ≡ (a + suc k) * n + d → ⊥
no_wrap n a b c d k h e = grind arith

not_above : (n a b c d : ℕ) → b < n → a < c → a * n + b ≡ c * n + d → ⊥
not_above n a b c d hb h e =
    let gap : c ≡ a + suc (c - a - 1) = omega arith in
    no_wrap n a b c d (c - a - 1) hb (subst (λ t. a * n + b ≡ t * n + d) gap e)

key-injective : (n a b c d : ℕ) → b < n → d < n → a * n + b ≡ c * n + d → (a ≡ c) × (b ≡ d)
key-injective n a b c d hb hd e = elim (dec_lt a c) [
  | yes low ↦ absurd (not_above n a b c d hb low e)
  | no not_low ↦ elim (dec_lt c a) [
    | yes high ↦ absurd (not_above n c d a b hd high (sym e))
    | no not_high ↦ let same : a ≡ c = omega arith in (same, omega (arith, ap (λ t. t * n) same))
  ]
]

contains-keys :
    (n s d : ℕ) (es : List Edge)
    → s < n
    → All (λ e. e.1 < n) es
    → contains (reverse_key n (s, d)) (map (edge_key n) es) ≡ has_edge es d s
contains-keys n s d [] hs h = refl
contains-keys n s d (e ∷ es) hs h =
    ground (
      arith,
      contains-keys n s d es hs h.1,
      key-injective n d s e.0 e.1 hs h.0,
      ap (λ t. t * n + s),
    )

-- Among n nodes an edge is counted as asymmetric exactly if no edge leads back.
pub is_asymmetric_lem :
    (n : ℕ) (good : List Edge) (s d : ℕ)
    → s < n
    → All (λ e. e.1 < n) good
    → is_asymmetric n good (s, d) ≡ not (has_edge good d s)
unfolding is_asymmetric
is_asymmetric_lem n good s d hs h = ap not (contains-keys n s d good hs h)
