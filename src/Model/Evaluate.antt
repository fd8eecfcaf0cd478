-- ===== src/Model/Evaluate.antt =====
-- web/lib/model/autopilot.ts, `evaluateCondition`, `describeAction` and `evaluateAutopilot`: which rule
-- would run now. The sentences that the page shows (`nowLabel`, `wouldDo`) are left out, and a blocker
-- is a constructor in place of its text.
pub mod Laws
use koul.Base.{
  ℕ, Bool, true, false, not, ◌&&◌, ◌||◌, Option, none, some, List, [], ◌∷◌, ◌++◌, map, all, any,
  is_nil, find, Text, or_else, map_option, if◌then◌else◌, Num,
}
use koul.Model.Tokens.{Symbol, token_by_symbol}
use koul.Model.Rules.{
  PoolId, pool_a, pool_b, Comparator, gte, lte, ConditionKind, rate_gap, pool_rate, health_factor,
  fx_price, idle_usdc, token_price, token_balance, ActionKind, supply_from_wallet,
  move_to_best_pool, repay_from_wallet, withdraw_to_wallet, sell_token, buy_token,
  withdraw_to_token, token_of, pool_of, Condition, Action, Rule,
}

pub data Blocker : Type 0 where
  rates_unavailable no_loan no_idle_usdc nothing_supplied : Blocker
  already_in : PoolId → Blocker
  no_fresh_price pays_under_oracle too_little_token : Symbol → Blocker

module _ (num : Num) where
  open num use {F, lit, add, sub, mul, div, lt, le, abs, expm1}

  pub record Price : Type 0 where
    pub usd : F
    pub stale : Bool

  -- `null` means not available right now.
  pub record LiveValues : Type 0 where
    pub rate_a : Option F
    pub rate_b : Option F
    pub health_factor : Option F
    pub has_loan : Bool
    pub fx : Option F
    pub fx_stale : Bool
    pub idle_usdc : Option F
    pub supplied_a : Option F
    pub supplied_b : Option F
    pub prices : Symbol → Option Price
    pub holdings : Symbol → Option F

  pub record ConditionEval : Type 0 where
    pub met : Option Bool
    pub now : Option F

  abbrev pub apr_to_apy : F → F
  apr_to_apy apr = mul (expm1 (div apr (lit 100 0))) (lit 100 0)

  abbrev pub compare_now : Condition num → Option F → ConditionEval
  compare_now c none = record { met = none; now = none }
  compare_now c (some now) = record {
    met = some (elim c.comparator [ gte ↦ le c.value now | lte ↦ le now c.value ]);
    now = some now;
  }

  abbrev pub unless_stale : Bool → Condition num → Option F → ConditionEval
  unless_stale true c now = record { met = none; now = now }
  unless_stale false c now = compare_now c now

  abbrev pub gap_of : Option F → Option F → Option F
  gap_of (some a) (some b) = some (abs (sub b a))
  gap_of _ _ = none

  abbrev pub is_stale : Option Price → Bool
  is_stale none = false
  is_stale (some p) = p.stale

  unfoldable pub evaluate_condition : LiveValues → Condition num → ConditionEval
  evaluate_condition live c = elim c.kind [
    | rate_gap ↦ compare_now c (gap_of live.rate_a live.rate_b)
    | pool_rate ↦ compare_now c (
        map_option apr_to_apy
          (elim (pool_of c.pool) [ pool_a ↦ live.rate_a | pool_b ↦ live.rate_b ]))
    | health_factor ↦
        if live.has_loan
        then compare_now c live.health_factor
        else record { met = some (elim c.comparator [ gte ↦ true | lte ↦ false ]); now = none }
    | fx_price ↦ unless_stale live.fx_stale c live.fx
    | idle_usdc ↦ compare_now c live.idle_usdc
    | token_price ↦
        let p = live.prices (token_of c.token) in
        unless_stale (is_stale p) c (map_option (λ q. q.usd) p)
    | token_balance ↦ compare_now c (live.holdings (token_of c.token))
  ]

  abbrev pub zero_of : Option F → F
  zero_of o = or_else o (lit 0 0)

  -- `base < 1` gives the blocker.
  abbrev pub needs_one : F → Blocker → Option Blocker
  needs_one base b = if lt base (lit 1 0) then some b else none

  abbrev pub move_blocker : LiveValues → Option F → Option F → Option Blocker
  move_blocker live (some a) (some b) =
      if lt a b
      then needs_one (zero_of live.supplied_a) (already_in pool_b)
      else needs_one (zero_of live.supplied_b) (already_in pool_a)
  move_blocker live _ _ = some rates_unavailable

  -- A price that is there and fresh
  abbrev pub fresh : Option Price → Option F
  fresh none = none
  fresh (some p) = if p.stale then none else some p.usd

  abbrev pub sell_blocker : LiveValues → Symbol → Option F → Option Blocker
  sell_blocker live t none = some (no_fresh_price t)
  sell_blocker live t (some usd) =
      needs_one (mul (zero_of (live.holdings t)) usd) (too_little_token t)

  abbrev pub buy_blocker : Symbol → F → Blocker → Option F → Option Blocker
  buy_blocker t base b none = some (no_fresh_price t)
  buy_blocker t base b (some usd) =
      if (token_by_symbol t).buys then needs_one base b else some (pays_under_oracle t)

  -- `describeAction`: why the action would not run; none where it is actionable
  unfoldable pub blocker_of : LiveValues → Action num → Option Blocker
  blocker_of live action = elim action.kind [
    | move_to_best_pool ↦ move_blocker live live.rate_a live.rate_b
    | repay_from_wallet ↦
        if live.has_loan
        then if lt (zero_of live.idle_usdc) (lit 1 2) then some no_idle_usdc else none
        else some no_loan
    | supply_from_wallet ↦ needs_one (zero_of live.idle_usdc) no_idle_usdc
    | withdraw_to_wallet ↦
        needs_one (add (zero_of live.supplied_a) (zero_of live.supplied_b)) nothing_supplied
    | sell_token ↦
        sell_blocker live (token_of action.token) (fresh (live.prices (token_of action.token)))
    | buy_token ↦
        buy_blocker (token_of action.token) (zero_of live.idle_usdc) no_idle_usdc
          (fresh (live.prices (token_of action.token)))
    | withdraw_to_token ↦
        buy_blocker (token_of action.token)
          (add (zero_of live.supplied_a) (zero_of live.supplied_b)) nothing_supplied
          (fresh (live.prices (token_of action.token)))
  ]

  pub record RuleEval : Type 0 where
    pub rule_id : Text
    pub conditions : List ConditionEval
    pub conditions_met : Bool
    pub actionable : Bool
    pub blocker : Option Blocker
    pub would_run : Bool

  pub record AutopilotEval : Type 0 where
    pub rules : List RuleEval
    pub firing : Option RuleEval

  -- `c.met === true`
  abbrev pub is_met : ConditionEval → Bool
  is_met e = or_else e.met false

  unfoldable pub conditions_met : LiveValues → Rule num → Bool
  conditions_met live r =
      let evals = map (evaluate_condition live) r.conditions in
      r.enabled
      && not (is_nil evals)
      && (if r.match_all then all is_met evals else any is_met evals)

  abbrev pub is_clear : Option Blocker → Bool
  is_clear none = true
  is_clear (some b) = false

  -- One rule, `fired` being whether an earlier one would run.
  abbrev pub evaluate_rule : LiveValues → Bool → Rule num → RuleEval
  evaluate_rule live fired r = record {
    rule_id = r.id;
    conditions = map (evaluate_condition live) r.conditions;
    conditions_met = conditions_met live r;
    actionable = is_clear (blocker_of live r.action);
    blocker = blocker_of live r.action;
    would_run = not fired && conditions_met live r && is_clear (blocker_of live r.action);
  }

  unfoldable pub evaluate_rules : LiveValues → Bool → List (Rule num) → List RuleEval
  evaluate_rules live fired [] = []
  evaluate_rules live fired (r ∷ rs) =
      let e = evaluate_rule live fired r in e ∷ evaluate_rules live (fired || e.would_run) rs

  unfoldable pub evaluate_autopilot : LiveValues → List (Rule num) → AutopilotEval
  evaluate_autopilot live rules =
      let evals = evaluate_rules live false rules in
      record { rules = evals; firing = find (λ e. e.would_run) evals }
