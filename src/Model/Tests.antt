-- ===== src/Model/Tests.antt =====
-- The laws of the page's rules on concrete ones.
use koul.Base.{
  all, ℕ, ◌≡◌, refl, true, false, none, some, List, [], ◌∷◌, map, find, map_option, Text, codes,
  ltb, leb, In, inl, inr, arith, ◌↔◌, if◌then◌else◌,
}
use koul.Model.Rules.{
  gte, idle_usdc, rate_gap, ActionKind, supply_from_wallet, move_to_best_pool, Condition,
  everything, Rule,
}
use koul.Model.Evaluate.{LiveValues, evaluate_rule, evaluate_autopilot}
use koul.Model.Evaluate.Laws.{can_run, firsts, evaluate_autopilot_lem}
use koul.Model.Engine.{World, walk, matches}
use koul.Model.Engine.Laws.{places, first_of, passes, passed_by, walk_lem}
use koul.Model.Mapping.{
  CoreMapping, rule_fits, condition_fits, amount_fits, to_core_condition, to_core_autopilot,
}
use koul.Model.Pairing.{amount_problem, pairing_problem}
use koul.Model.Pairing.Laws.{pairing_problem-mapped}
use koul.Model.Editing.{Json, count_changes, rules_equal}
use koul.Model.Editing.Laws.{count_changes-rules_equal}
use koul.Samples.{hundredths}

abbrev when_idle : Condition hundredths
when_idle = record { kind = idle_usdc; comparator = gte; value = 1000; pool = none; token = none }

abbrev when_gap : Condition hundredths
when_gap = record { kind = rate_gap; comparator = gte; value = 100; pool = none; token = none }

abbrev rule_of : Text → Condition hundredths → ActionKind → Rule hundredths
rule_of id c kind = record {
  id = id;
  name = id;
  conditions = c ∷ [];
  match_all = true;
  action = record { kind = kind; amount = everything; pool = none; token = none };
  cooldown_sec = 5;
  inferred = [];
  enabled = true;
}

abbrev rules : List (Rule hundredths)
rules =
    rule_of (codes "a") when_gap move_to_best_pool
    ∷ rule_of (codes "b") when_idle supply_from_wallet
    ∷ rule_of (codes "c") when_idle move_to_best_pool
    ∷ []

abbrev live : LiveValues hundredths
live = record {
  rate_a = some 400;
  rate_b = some 550;
  health_factor = none;
  has_loan = false;
  fx = none;
  fx_stale = false;
  idle_usdc = some 2000;
  supplied_a = none;
  supplied_b = none;
  prices = λ t. none;
  holdings = λ t. none;
}

evaluate_autopilot_lem_example :
    (map (λ e. e.would_run) (evaluate_autopilot hundredths live rules).rules
      ≡ firsts hundredths live rules)
    × ((evaluate_autopilot hundredths live rules).firing
        ≡ map_option (evaluate_rule hundredths live false) (find (can_run hundredths live) rules))
evaluate_autopilot_lem_example = evaluate_autopilot_lem hundredths live rules

abbrev world : World hundredths
world = record { gap = 150; price = 4879; wallet = 20000; balance_a = 0; balance_b = 0; debt = 0 }

walk_lem_example : walk hundredths rules world ≡ record {
  index = first_of none (places (passes hundredths world) 0 rules);
  matched = places (matches hundredths world) 0 rules;
  skipped = places (passed_by hundredths world) 0 rules;
}
walk_lem_example = walk_lem hundredths world rules

above_zero : (x : ℕ) → ltb 0 x ≡ true → leb x 0 ≡ false
above_zero x h = ground arith

one_or_more : (x : ℕ) → leb 100 x ≡ true → leb x 0 ≡ false
one_or_more x h = ground arith

abbrev idle_rule : Rule hundredths
idle_rule = rule_of (codes "b") when_idle supply_from_wallet

idle_fits : pairing_problem hundredths idle_rule ≡ none
unfolding pairing_problem amount_problem
idle_fits = refl

rules_fit : all (rule_fits hundredths) rules ≡ true
unfolding rule_fits condition_fits amount_fits to_core_condition
rules_fit = refl

pairing_problem-mapped_example :
    (m : CoreMapping hundredths) × (to_core_autopilot hundredths rules 7 ≡ some m)
    × In (codes "b") m.rule_ids
pairing_problem-mapped_example =
    pairing_problem-mapped hundredths above_zero one_or_more rules idle_rule 7 (inr (inl refl)) refl
      refl refl refl idle_fits rules_fit

-- The cooldown and whether it is enabled
abbrev json : Json hundredths
json = λ all enabled cooldown action conditions. cooldown ∷ (if enabled then 1 else 0) ∷ []

count_changes-rules_equal_example :
    (count_changes hundredths json rules (rule_of (codes "c") when_idle supply_from_wallet ∷ [])
      ≡ 0)
    ↔ (rules_equal hundredths json rules (rule_of (codes "c") when_idle supply_from_wallet ∷ [])
        ≡ true)
count_changes-rules_equal_example =
    count_changes-rules_equal hundredths json rules
      (rule_of (codes "c") when_idle supply_from_wallet ∷ [])

abbrev gap_rule : Rule hundredths
gap_rule = rule_of (codes "a") when_gap move_to_best_pool
