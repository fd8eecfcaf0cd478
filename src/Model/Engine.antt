-- ===== src/Model/Engine.antt =====
-- web/lib/landing/engine.ts: the playground's walk over the rules, on invented numbers.
pub mod Laws
use koul.Base.{
  ℕ, suc, ◌+◌, Bool, true, false, not, ◌&&◌, Option, none, some, List, [], ◌∷◌, ◌++◌, all, any,
  is_nil, is_some, or_else, if◌then◌else◌, Num,
}
use koul.Model.Rules.{
  PoolId, pool_a, pool_b, Comparator, gte, lte, ConditionKind, rate_gap, pool_rate, health_factor,
  fx_price, idle_usdc, token_price, token_balance, ActionKind, supply_from_wallet,
  move_to_best_pool, repay_from_wallet, withdraw_to_wallet, sell_token, buy_token,
  withdraw_to_token, pool_of, hub_of, Condition, Amount, everything, fixed, share, Action, Rule,
}

module _ (num : Num) where
  open num use {
    F, of_int, lit, add, sub, mul, div, lt, le, round, abs, min_of, max_of, infinity, nan,
  }

  pub record World : Type 0 where
    pub gap : F
    pub price : F
    pub wallet : F
    pub balance_a : F
    pub balance_b : F
    pub debt : F

  abbrev pub round2 : F → F
  round2 n = div (round (mul n (lit 100 0))) (lit 100 0)

  abbrev pub at_least_0 : F → F
  at_least_0 n = if lt n (lit 5 3) then lit 0 0 else round2 n

  abbrev pub base_rate : F
  base_rate = lit 4 0

  abbrev pub min_move : F
  min_move = lit 1 0

  abbrev pub ltv : F
  ltv = lit 8 1

  abbrev pub rate_of : World → PoolId → F
  rate_of w pool_a = base_rate
  rate_of w pool_b = add base_rate w.gap

  abbrev pub better_pool : World → PoolId
  better_pool w = if le (lit 0 0) w.gap then pool_b else pool_a

  abbrev pub collateral : World → F
  collateral w = add w.balance_a w.balance_b

  abbrev pub health : World → F
  health w = if le w.debt (lit 0 0) then infinity else div (mul (collateral w) ltv) w.debt

  unfoldable pub debt_for_health : World → F → F
  debt_for_health w target =
      if le (collateral w) (lit 0 0)
      then w.debt
      else if le target (lit 0 0)
      then w.debt
      else round2 (div (mul (collateral w) ltv) target)

  unfoldable pub reading : ConditionKind → World → PoolId → F
  reading health_factor w pool = health w
  reading rate_gap w pool = abs w.gap
  reading fx_price w pool = w.price
  reading idle_usdc w pool = w.wallet
  reading pool_rate w pool = rate_of w pool
  reading token_price w pool = nan
  reading token_balance w pool = nan

  abbrev pub compares : Comparator → F → F → Bool
  compares gte v level = le level v
  compares lte v level = le v level

  unfoldable pub holds : World → Condition num → Bool
  holds w c = compares c.comparator (reading c.kind w (pool_of c.pool)) c.value

  unfoldable pub conditions_hold : Rule num → World → Bool
  conditions_hold rule w =
      if is_nil rule.conditions
      then false
      else if rule.match_all
      then all (holds w) rule.conditions
      else any (holds w) rule.conditions

  unfoldable pub base : ActionKind → World → F
  base supply_from_wallet w = w.wallet
  base repay_from_wallet w = min_of w.wallet w.debt
  base withdraw_to_wallet w = add w.balance_a w.balance_b
  base move_to_best_pool w = elim (better_pool w) [ pool_b ↦ w.balance_a | pool_a ↦ w.balance_b ]
  base sell_token w = lit 0 0
  base buy_token w = lit 0 0
  base withdraw_to_token w = lit 0 0

  abbrev pub wanted : Amount num → F → F
  wanted everything pot = pot
  wanted (share percent) pot = div (mul pot percent) (lit 100 0)
  wanted (fixed n) pot = min_of n pot

  unfoldable pub amount_of : Action num → World → F
  amount_of action w =
      let pot = base action.kind w in
      max_of (lit 0 0) (min_of (round2 (wanted action.amount pot)) (round2 pot))

  -- The sentence of the source is the page's; the hub that it names is kept.
  pub data Told : Type 0 where
    supplied moved_to : (moved : F) (hub : ℕ) → Told
    repaid withdrew : (moved : F) → Told
    no_swaps : Told

  pub record Ran : Type 0 where
    pub world : World
    pub moved : F
    pub told : Told

  abbrev pub supply : PoolId → F → World → World
  supply pool_a moved w = record w {
    wallet = at_least_0 (sub w.wallet moved);
    balance_a = at_least_0 (add w.balance_a moved);
  }
  supply pool_b moved w = record w {
    wallet = at_least_0 (sub w.wallet moved);
    balance_b = at_least_0 (add w.balance_b moved);
  }

  abbrev pub move : PoolId → F → World → World
  move pool_b moved w = record w {
    balance_a = at_least_0 (sub w.balance_a moved);
    balance_b = at_least_0 (add w.balance_b moved);
  }
  move pool_a moved w = record w {
    balance_b = at_least_0 (sub w.balance_b moved);
    balance_a = at_least_0 (add w.balance_a moved);
  }

  -- `supplied === 0 ? 0 : …`
  abbrev pub from_a : World → F → F
  from_a w moved =
      let supplied = collateral w in
      if le supplied (lit 0 0) && le (lit 0 0) supplied
      then lit 0 0
      else div (mul moved w.balance_a) supplied

  abbrev pub run_kind : ActionKind → PoolId → F → World → Ran
  run_kind supply_from_wallet pool moved w = record {
    world = supply pool moved w;
    moved = moved;
    told = supplied moved (hub_of pool);
  }
  run_kind repay_from_wallet pool moved w = record {
    world = record w {
      wallet = at_least_0 (sub w.wallet moved);
      debt = at_least_0 (sub w.debt moved);
    };
    moved = moved;
    told = repaid moved;
  }
  run_kind withdraw_to_wallet pool moved w = record {
    world = record w {
      balance_a = at_least_0 (sub w.balance_a (from_a w moved));
      balance_b = at_least_0 (sub w.balance_b (sub moved (from_a w moved)));
      wallet = at_least_0 (add w.wallet moved);
    };
    moved = moved;
    told = withdrew moved;
  }
  run_kind move_to_best_pool pool moved w = record {
    world = move (better_pool w) moved w;
    moved = moved;
    told = moved_to moved (hub_of (better_pool w));
  }
  run_kind sell_token pool moved w = record { world = w; moved = lit 0 0; told = no_swaps }
  run_kind buy_token pool moved w = record { world = w; moved = lit 0 0; told = no_swaps }
  run_kind withdraw_to_token pool moved w = record { world = w; moved = lit 0 0; told = no_swaps }

  unfoldable pub run : Action num → World → Ran
  run action w = run_kind action.kind (pool_of action.pool) (amount_of action w) w

  pub record Walk : Type 0 where
    pub index : Option ℕ
    pub matched : List ℕ
    pub skipped : List ℕ

  abbrev pub matches : World → Rule num → Bool
  matches w r = r.enabled && conditions_hold r w

  abbrev pub too_small : World → Rule num → Bool
  too_small w r = lt (amount_of r.action w) min_move

  -- One round of the loop, for the rule at place i.
  abbrev pub visit : World → Rule num → ℕ → Walk → Walk
  visit w r i acc =
      if matches w r
      then if too_small w r
        then record acc { matched = acc.matched ++ i ∷ []; skipped = acc.skipped ++ i ∷ [] }
        else record acc {
          matched = acc.matched ++ i ∷ [];
          index = if is_some acc.index then acc.index else some i;
        }
      else acc

  unfoldable pub walk_from : World → ℕ → Walk → List (Rule num) → Walk
  walk_from w i acc [] = acc
  walk_from w i acc (r ∷ rs) = walk_from w (suc i) (visit w r i acc) rs

  unfoldable pub walk : List (Rule num) → World → Walk
  walk rules w = walk_from w 0 (record { index = none; matched = []; skipped = [] }) rules
