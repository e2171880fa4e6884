-- ===== src/Qdrant/Cluster/Watched.antt =====
-- What `validator_loop` of research/cross_system_replication/qdrant_docker_harness.py reports.
use nano_db.Common.{
  ℕ, ◌+◌, ◌<◌, ◌≡◌, ◌↔◌, ◌⊎◌, inl, inr, refl, sym, subst, List, [], ◌∷◌, ◌++◌, true, arith, All, ap,
  some, none, eqb, eqb_iff, ◌&&◌, ◌==◌, string_key, get_elem?, zero, suc, Option-cases, Option, ◌≤◌,
  Bool-cases, length, length-append, nat_key, if◌then◌else◌,
}
use nano_db.Common.Sets.{count_if, contains}
use nano_db.Common.Members.{to_set_of_equal_iff}
use nano_db.Qdrant.Cluster.{
  ClusterAnswer, answered, unanswered, claim_of, Leaders, Term, term_key, terms_of, Watch,
  leaders_of, is_split, watch_round, validator_loop,
}

-- At least two nodes claim to lead, and all that do so claim the same term.
pub record IsSplit (leaders : Leaders) : Type 0 where
  pub several : 1 < length leaders
  pub term : Term
  pub one_term : All (λ t. t ≡ term) (terms_of leaders)

all_first : (t u : Term) (ts : List Term) → All (λ x. x ≡ t) (u ∷ ts) → All (λ x. x ≡ u) (u ∷ ts)
all_first t u ts h = subst (λ v. All (λ x. x ≡ v) (u ∷ ts)) (sym h.0) h

is_split_iff : (leaders : Leaders) → (is_split leaders ≡ true) ↔ IsSplit leaders
unfolding is_split
is_split_iff [] = (λ h. absurd (ground arith), λ s. absurd (omega (arith, s.several)))
is_split_iff (l ∷ leaders) =
    let iff = to_set_of_equal_iff l.1 (terms_of leaders) in
    (
      λ h. record { several = ground arith; term = l.1; one_term = iff.0 (ground arith) },
      λ s. ground (arith, s.several, iff.1 (all_first s.term l.1 (terms_of leaders) s.one_term)),
    )

-- The node answers with status 200 that it leads in the term.
abbrev pub Claims : (ℕ → ClusterAnswer) → ℕ → Term → Type 0
Claims ask n t = ask n ≡ answered 200 (some "Leader") t

claim_of_iff :
    (r : ClusterAnswer) (t : Term) → (claim_of r ≡ some t) ↔ (r ≡ answered 200 (some "Leader") t)
claim_of_iff unanswered t = (λ h. absurd (cc), λ h. absurd (cc))
claim_of_iff (answered code none u) t = (λ h. absurd (ground arith), λ h. absurd (cc))
claim_of_iff (answered code (some role) u) t =
    let code_iff = eqb_iff code 200 in
    let role_iff = string_key.same_iff role "Leader" in
    elim (Bool-cases (eqb code 200 && role == "Leader")) [
      | inl h ↦
          let c : code ≡ 200 = ground (arith, h) in
          let l : role ≡ "Leader" = role_iff.0 (ground (arith, h)) in
          rw h (
            λ e. let same : u ≡ t = cc in cc (c, l, same),
            λ e. let same : u ≡ t = cc in ap some same,
          )
      | inr h ↦ rw h (
        λ e. absurd (cc),
        λ e.
            let c : code ≡ 200 = cc in
            let l : role ≡ "Leader" = cc in absurd (ground (arith, h, code_iff.1 c, role_iff.1 l)),
      )
    ]

-- Some place of the nodes holds one that claims to lead.
abbrev One : (ℕ → ClusterAnswer) → List ℕ → Type 0
One ask node_ids = (j n : ℕ) × (t : Term) × (get_elem? node_ids j ≡ some n) × Claims ask n t

-- Two places do.
abbrev pub Two : (ℕ → ClusterAnswer) → List ℕ → Type 0
Two ask node_ids =
    (i j m n : ℕ) × (s t : Term) × (i < j)
    × (get_elem? node_ids i ≡ some m)
    × (get_elem? node_ids j ≡ some n)
    × Claims ask m s
    × Claims ask n t

-- A split brain, as the code takes it: two of the nodes claim to lead, and all claims are for one
-- term.
pub record SplitBrain (ask : ℕ → ClusterAnswer) (node_ids : List ℕ) : Type 0 where
  pub two : Two ask node_ids
  pub term : Term
  pub one_term : (n : ℕ) (t : Term) → contains n node_ids ≡ true → Claims ask n t → t ≡ term

module _ (ask : ℕ → ClusterAnswer) where
  leaders_of-claim :
      (n : ℕ) (node_ids : List ℕ) (o : Option Term)
      → claim_of (ask n) ≡ o
      → leaders_of ask (n ∷ node_ids) ≡ elim o [
        | none ↦ leaders_of ask node_ids
        | some term ↦ (n, term) ∷ leaders_of ask node_ids
      ]
  unfolding leaders_of
  leaders_of-claim n node_ids o e =
      ap
        (λ (x : Option Term). elim x [
          | none ↦ leaders_of ask node_ids
          | some term ↦ (n, term) ∷ leaders_of ask node_ids
        ])
        e

  silent_or_Claims : (n : ℕ) → (claim_of (ask n) ≡ none) ⊎ ((t : Term) × Claims ask n t)
  silent_or_Claims n = elim (Option-cases (claim_of (ask n))) [
    | inl e ↦ inl e
    | inr (t, e) ↦ inr (t, (claim_of_iff (ask n) t).0 e)
  ]

  leaders_of-Claims :
      (n : ℕ) (node_ids : List ℕ) (t : Term)
      → Claims ask n t
      → leaders_of ask (n ∷ node_ids) ≡ (n, t) ∷ leaders_of ask node_ids
  leaders_of-Claims n node_ids t c =
      leaders_of-claim n node_ids (some t) ((claim_of_iff (ask n) t).1 c)

  length-leaders_of-le :
      (n : ℕ) (node_ids : List ℕ)
      → length (leaders_of ask node_ids) ≤ length (leaders_of ask (n ∷ node_ids))
  length-leaders_of-le n node_ids = elim (silent_or_Claims n) [
    | inl e ↦ omega (arith, ap length (leaders_of-claim n node_ids none e))
    | inr (t, c) ↦ omega (arith, ap length (leaders_of-Claims n node_ids t c))
  ]

  One-of_leaders : (node_ids : List ℕ) → 0 < length (leaders_of ask node_ids) → One ask node_ids
  unfolding leaders_of
  One-of_leaders [] h = absurd (omega arith)
  One-of_leaders (n ∷ node_ids) h = elim (silent_or_Claims n) [
    | inr (t, c) ↦ (0, n, t, refl, c)
    | inl e ↦
        let same = ap length (leaders_of-claim n node_ids none e) in
        let (j, m, t, f, c) = One-of_leaders node_ids (omega (arith, same, h)) in
        (suc j, m, t, f, c)
  ]

  leaders_of_one :
      (node_ids : List ℕ) (j n : ℕ) (t : Term)
      → get_elem? node_ids j ≡ some n
      → Claims ask n t
      → 0 < length (leaders_of ask node_ids)
  leaders_of_one [] j n t e c = absurd (cc)
  leaders_of_one (m ∷ node_ids) zero n t e c =
      let same : m ≡ n = cc in
      let here = leaders_of-Claims m node_ids t (subst (λ k. Claims ask k t) (sym same) c) in
      omega (arith, ap length here)
  leaders_of_one (m ∷ node_ids) (suc j) n t e c =
      omega (arith, length-leaders_of-le m node_ids, leaders_of_one node_ids j n t e c)

  Two-of_leaders : (node_ids : List ℕ) → 1 < length (leaders_of ask node_ids) → Two ask node_ids
  unfolding leaders_of
  Two-of_leaders [] h = absurd (omega arith)
  Two-of_leaders (n ∷ node_ids) h = elim (silent_or_Claims n) [
    | inr (t, c) ↦
        let same = ap length (leaders_of-Claims n node_ids t c) in
        let (j, m, u, f, d) = One-of_leaders node_ids (omega (arith, same, h)) in
        (0, suc j, n, m, t, u, omega arith, refl, f, c, d)
    | inl e ↦
        let same = ap length (leaders_of-claim n node_ids none e) in
        let (i, j, a, b, s, t, l, f, g, c, d) = Two-of_leaders node_ids (omega (arith, same, h)) in
        (suc i, suc j, a, b, s, t, omega (arith, l), f, g, c, d)
  ]

  leaders_of_two :
      (node_ids : List ℕ) (i j m n : ℕ) (s t : Term)
      → i < j
      → get_elem? node_ids i ≡ some m
      → get_elem? node_ids j ≡ some n
      → Claims ask m s
      → Claims ask n t
      → 1 < length (leaders_of ask node_ids)
  leaders_of_two [] i j m n s t l e f c d = absurd (cc)
  leaders_of_two (k ∷ node_ids) i zero m n s t l e f c d = absurd (omega arith)
  leaders_of_two (k ∷ node_ids) zero (suc j) m n s t l e f c d =
      let same : k ≡ m = cc in
      let here = leaders_of-Claims k node_ids s (subst (λ x. Claims ask x s) (sym same) c) in
      omega (arith, ap length here, leaders_of_one node_ids j n t f d)
  leaders_of_two (k ∷ node_ids) (suc i) (suc j) m n s t l e f c d = omega (
    arith,
    length-leaders_of-le k node_ids,
    leaders_of_two node_ids i j m n s t (omega arith) e f c d,
  )

  Claims-of_terms :
      (term : Term) (node_ids : List ℕ)
      → All (λ t. t ≡ term) (terms_of (leaders_of ask node_ids))
      → (n : ℕ) (t : Term) → contains n node_ids ≡ true
      → Claims ask n t
      → t ≡ term
  Claims-of_terms term [] h n t m c = absurd (cc)
  Claims-of_terms term (k ∷ node_ids) h n t m c = elim (Bool-cases (eqb n k)) [
    | inl here ↦
        let same : n ≡ k = (eqb_iff n k).0 here in
        let eq = leaders_of-Claims k node_ids t (subst (λ x. Claims ask x t) same c) in
        (subst (λ l. All (λ x. x ≡ term) (terms_of l)) eq h).0
    | inr there ↦
        let later : contains n node_ids ≡ true = ground arith in
        elim (silent_or_Claims k) [
          | inl e ↦
              let eq = leaders_of-claim k node_ids none e in
              Claims-of_terms term node_ids (subst (λ l. All (λ x. x ≡ term) (terms_of l)) eq h) n t
                later c
          | inr (u, d) ↦
              let eq = leaders_of-Claims k node_ids u d in
              Claims-of_terms term node_ids (subst (λ l. All (λ x. x ≡ term) (terms_of l)) eq h).1 n
                t later c
        ]
  ]

  terms_of-Claims :
      (term : Term) (node_ids : List ℕ)
      → ((n : ℕ) (t : Term) → contains n node_ids ≡ true → Claims ask n t → t ≡ term)
      → All (λ t. t ≡ term) (terms_of (leaders_of ask node_ids))
  unfolding leaders_of
  terms_of-Claims term [] h = tt
  terms_of-Claims term (k ∷ node_ids) h =
      let rest = terms_of-Claims term node_ids (λ n t m. h n t (ground (arith, m))) in
      elim (silent_or_Claims k) [
        | inl e ↦
            subst (λ l. All (λ x. x ≡ term) (terms_of l)) (sym (leaders_of-claim k node_ids none e))
              rest
        | inr (t, c) ↦
            let first = h k t (ground (arith, eqb_iff k k)) c in
            subst (λ l. All (λ x. x ≡ term) (terms_of l)) (sym (leaders_of-Claims k node_ids t c))
              (first, rest)
      ]

  SplitBrain-iff : (node_ids : List ℕ) → IsSplit (leaders_of ask node_ids) ↔ SplitBrain ask node_ids
  SplitBrain-iff node_ids = (
    λ s. record {
      two = Two-of_leaders node_ids s.several;
      term = s.term;
      one_term = Claims-of_terms s.term node_ids s.one_term;
    },
    λ b.
        let (i, j, m, n, s, t, l, e, f, c, d) = b.two in
        record {
          several = leaders_of_two node_ids i j m n s t l e f c d;
          term = b.term;
          one_term = terms_of-Claims b.term node_ids b.one_term;
        },
  )

-- A round adds its leaders to the violations exactly if, at two places of the list of nodes, nodes
-- answer with status 200 that they lead, and all nodes of the list that answer so name one term:
-- claims for several terms are never reported, even where two of them agree.
pub watch_round_lem :
    (ask : ℕ → ClusterAnswer) (node_ids : List ℕ) (w : Watch)
    → let w' = watch_round ask node_ids w in
      ((w'.violations ≡ w.violations ++ (leaders_of ask node_ids ∷ [])) × SplitBrain ask node_ids)
      ⊎ ((w'.violations ≡ w.violations) × (SplitBrain ask node_ids → ⊥))
unfolding watch_round
watch_round_lem ask node_ids w =
    let leaders = leaders_of ask node_ids in
    let iff = is_split_iff leaders in
    let spec = SplitBrain-iff ask node_ids in
    elim (Bool-cases (is_split leaders)) [
      | inl split ↦ inl (rw split refl, spec.0 (iff.0 split))
      | inr fine ↦ inr (rw fine refl, λ b. absurd (cc (fine, iff.1 (spec.1 b))))
    ]

length-watch_round :
    (ask : ℕ → ClusterAnswer) (node_ids : List ℕ) (w : Watch)
    → length (watch_round ask node_ids w).violations
      ≡ length w.violations + (if is_split (leaders_of ask node_ids) then 1 else 0)
unfolding watch_round
length-watch_round ask node_ids w =
    ground (arith, length-append w.violations (leaders_of ask node_ids ∷ []))

-- Over the rounds of the loop there is one violation per round that shows a split.
pub length-validator_loop :
    (rounds : List (ℕ → ClusterAnswer)) (node_ids : List ℕ) (w : Watch)
    → length (validator_loop rounds node_ids w).violations
      ≡ length w.violations + count_if (λ ask. is_split (leaders_of ask node_ids)) rounds
unfolding validator_loop
length-validator_loop [] node_ids w = omega arith
length-validator_loop (ask ∷ rounds) node_ids w = ground (
  arith,
  length-validator_loop rounds node_ids (watch_round ask node_ids w),
  length-watch_round ask node_ids w,
)
