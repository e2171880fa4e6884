-- ===== src/Analyze/Tests.antt =====
-- The analysis of a run on small inputs.
use nano_db.Common.{
  ℕ, ◌≡◌, ◌↔◌, refl, List, [], ◌∷◌, map, true, false, eqb, none, some, String, string_key, nat_key,
}
use nano_db.Common.Sets.{count_if}
use nano_db.Common.Frac.{Frac}
use nano_db.Common.Sort.{sort}
use nano_db.Analyze.{Row, instant_key}
use nano_db.Analyze.Detection.{Member, is_tied, min_by}
use nano_db.Analyze.Detection.Worst.{worst_lem}
use nano_db.Analyze.Heal.{PhaseStats, recovery_of}
use nano_db.Analyze.Heal.Healed.{Healing, recovery_of-Healing}
use nano_db.Analyze.Windows.{Kill}

-- A row at 40 s with the given name, recall and agreement.
abbrev row : String → ℕ → ℕ → Row
row name e2e loo = record {
  reachable = true;
  t_text = "40.0";
  t_rel = some 40000;
  name = name;
  shard = "0";
  e2e_recall = some e2e;
  index_recall = some 900000;
  completeness = some 980000;
  loo_agreement = some loo;
  n_local = some 4100;
  n_intended = some 4000;
}

abbrev eps : Frac
eps = record { num = 1; den = 2000 }

abbrev member : String → ℕ → ℕ → Member
member name loo e2e = record { name = name; loo = loo; e2e = e2e }

abbrev first_member : Member
first_member = member "a" 910000 900000

abbrev others : List Member
others = member "b" 650000 700000 ∷ member "c" 905000 890000 ∷ []

not_tied : is_tied eps (first_member ∷ others) ≡ false
unfolding is_tied sort
not_tied = refl

worst_lem_example :
    count_if
      (λ v. eqb v ((min_by (λ x. x.e2e) first_member others).e2e))
      (map (λ x. x.e2e) (first_member ∷ others))
    ≡ 1
worst_lem_example = worst_lem eps first_member others not_tied

abbrev stats : ℕ → ℕ → PhaseStats
stats n missing = record {
  completeness = none;
  e2e_recall = none;
  missing = some (record { num = missing; den = 1 });
  n = n;
}

healed_there :
    (recovery_of (stats 4 0) (stats 2 80000000) (stats 0 0) (stats 3 4000000)).healed ≡ some true
unfolding recovery_of
healed_there = refl

recovery_of-Healing_example :
    ((recovery_of (stats 4 0) (stats 2 80000000) (stats 0 0) (stats 3 4000000)).healed ≡ some true)
    ↔ Healing (stats 4 0) (stats 2 80000000) (stats 0 0) (stats 3 4000000)
recovery_of-Healing_example =
    recovery_of-Healing (stats 4 0) (stats 2 80000000) (stats 0 0) (stats 3 4000000)

abbrev two_kills : List Kill
two_kills =
    record { target = "a"; t_rel = 12000 }
    ∷ record { target = "b"; t_rel = 31000 }
    ∷ record { target = "a"; t_rel = 37000 }
    ∷ []
