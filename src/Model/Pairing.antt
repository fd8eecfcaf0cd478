-- ===== src/Model/Pairing.antt =====
-- web/lib/model/pairing.ts: which actions and conditions the router can pair. A problem is a
-- constructor in place of its text.
pub mod Laws
use koul.Base.{
  Bool, true, false, not, ◌&&◌, ◌||◌, Option, none, some, List, [], ◌∷◌, any, if◌then◌else◌, Num,
}
use koul.Model.Tokens.{Symbol, token_by_symbol}
use koul.Model.Rules.{
  Comparator, gte, lte, ConditionKind, rate_gap, ActionKind, move_to_best_pool, sell_token,
  buy_token, withdraw_to_token, token_of, Condition, Amount, everything, fixed, share, Action, Rule,
}

pub data Problem : Type 0 where
  move_needs_gap gap_only_moves gap_only_more_than level_above_zero : Problem
  pays_under_oracle : Symbol → Problem
  amount_above_zero amount_at_least_one share_whole_percent : Problem

abbrev pub is_move : ActionKind → Bool
is_move move_to_best_pool = true
is_move _ = false

abbrev pub is_sale : ActionKind → Bool
is_sale sell_token = true
is_sale _ = false

abbrev pub is_purchase : ActionKind → Bool
is_purchase buy_token = true
is_purchase withdraw_to_token = true
is_purchase _ = false

abbrev pub is_gte : Comparator → Bool
is_gte gte = true
is_gte lte = false

module _ (num : Num) where
  open num use {F, lit, lt, le, is_integer}

  abbrev pub min_amount_usdc : F
  min_amount_usdc = lit 1 0

  abbrev pub reads_gap : Condition num → Bool
  reads_gap c = elim c.kind [ rate_gap ↦ true | _ ↦ false ]

  -- The last three tests: on the amount
  unfoldable pub amount_problem : Bool → Amount num → Option Problem
  amount_problem sale everything = none
  amount_problem true (fixed n) = if lt (lit 0 0) n then none else some amount_above_zero
  amount_problem false (fixed n) = if le min_amount_usdc n then none else some amount_at_least_one
  amount_problem sale (share percent) =
      if is_integer percent && le (lit 1 0) percent && le percent (lit 100 0)
      then none
      else some share_whole_percent

  unfoldable pub pairing_problem : Rule num → Option Problem
  pairing_problem rule =
      let has_gap = any reads_gap rule.conditions in
      let token = token_of rule.action.token in
      if is_move rule.action.kind && not has_gap
      then some move_needs_gap
      else if not (is_move rule.action.kind) && has_gap
      then some gap_only_moves
      else if any (λ c. reads_gap c && not (is_gte c.comparator)) rule.conditions
      then some gap_only_more_than
      else if any (λ c. not (lt (lit 0 0) c.value)) rule.conditions
      then some level_above_zero
      else if is_purchase rule.action.kind && not (token_by_symbol token).buys
      then some (pays_under_oracle token)
      else amount_problem (is_sale rule.action.kind) rule.action.amount
