-- ===== src/Model/Evaluate/Laws.antt =====
-- web/lib/model/autopilot.ts, `evaluateAutopilot`: the first rule that can run is the one that does.
use koul.Base.{
  Bool, true, false, ◌&&◌, List, [], ◌∷◌, map, find, find-true, find-false, map_option,
  if◌then◌else◌, Num, ◌≡◌, refl, ap, ◌∙◌, sym, Bool-cases, inl, inr,
}
use koul.Model.Rules.{Rule}
use koul.Model.Evaluate.{
  LiveValues, RuleEval, conditions_met, is_clear, blocker_of, evaluate_rule, evaluate_rules,
  evaluate_autopilot,
}

module _ (num : Num) (live : LiveValues num) where
  -- Its conditions hold and its action has something to do.
  abbrev pub can_run : Rule num → Bool
  can_run r = conditions_met num live r && is_clear num (blocker_of num live r.action)

  -- For each rule, whether it is the first that can run.
  unfoldable pub firsts : List (Rule num) → List Bool
  firsts [] = []
  firsts (r ∷ rs) = if can_run r then true ∷ map (λ s. false) rs else false ∷ firsts rs

  evaluate_rules-fired :
      (rs : List (Rule num))
      → map (λ e. e.would_run) (evaluate_rules num live true rs) ≡ map (λ s. false) rs
  unfolding evaluate_rules
  evaluate_rules-fired [] = refl
  evaluate_rules-fired (r ∷ rs) = ap (λ l. false ∷ l) (evaluate_rules-fired rs)

  evaluate_rules-firsts :
      (rs : List (Rule num)) → map (λ e. e.would_run) (evaluate_rules num live false rs) ≡ firsts rs
  unfolding evaluate_rules firsts
  evaluate_rules-firsts [] = refl
  evaluate_rules-firsts (r ∷ rs) = elim (Bool-cases (can_run r)) [
    | inl e ↦ rw e (ap (λ l. true ∷ l) (evaluate_rules-fired rs))
    | inr e ↦ rw e (ap (λ l. false ∷ l) (evaluate_rules-firsts rs))
  ]

  evaluate_rules-find :
      (rs : List (Rule num))
      → find (λ e. e.would_run) (evaluate_rules num live false rs)
        ≡ map_option (evaluate_rule num live false) (find can_run rs)
  unfolding evaluate_rules
  evaluate_rules-find [] = refl
  evaluate_rules-find (r ∷ rs) =
      let tail = λ (b : Bool). evaluate_rules num live b rs in
      elim (Bool-cases (can_run r)) [
        | inl e ↦
            find-true (λ (x : RuleEval num). x.would_run) (evaluate_rule num live false r)
              (tail (can_run r)) e
            ∙ sym (ap (map_option (evaluate_rule num live false)) (find-true can_run r rs e))
        | inr e ↦
            find-false (λ (x : RuleEval num). x.would_run) (evaluate_rule num live false r)
              (tail (can_run r)) e
            ∙ ap (λ b. find (λ x. x.would_run) (tail b)) e
            ∙ evaluate_rules-find rs
            ∙ sym (ap (map_option (evaluate_rule num live false)) (find-false can_run r rs e))
      ]

  -- Of the rules, exactly the first whose conditions hold and whose action has something to do is marked
  -- to run, and it is the one that fires; none fires when there is no such rule.
  pub evaluate_autopilot_lem :
      (rules : List (Rule num))
      → (map (λ e. e.would_run) (evaluate_autopilot num live rules).rules ≡ firsts rules)
        × ((evaluate_autopilot num live rules).firing
            ≡ map_option (evaluate_rule num live false) (find can_run rules))
  unfolding evaluate_autopilot
  evaluate_autopilot_lem rules = (evaluate_rules-firsts rules, evaluate_rules-find rules)
