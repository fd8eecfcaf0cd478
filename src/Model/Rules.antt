-- ===== src/Model/Rules.antt =====
-- web/lib/model/autopilot.ts, the rules that the pages edit. Numbers are JavaScript's.
use koul.Base.{ℕ, Bool, Option, List, Text, or_else, Num}
use koul.Model.Tokens.{Symbol, xlm}

pub data PoolId : Type 0 where
  pool_a pool_b : PoolId

-- `POOLS[id].hub`
abbrev pub hub_of : PoolId → ℕ
hub_of pool_a = 1
hub_of pool_b = 2

pub data Comparator : Type 0 where
  gte lte : Comparator

pub data ConditionKind : Type 0 where
  rate_gap pool_rate health_factor fx_price idle_usdc token_price token_balance : ConditionKind

pub data ActionKind : Type 0 where
  supply_from_wallet move_to_best_pool repay_from_wallet withdraw_to_wallet : ActionKind
  sell_token buy_token withdraw_to_token : ActionKind

abbrev pub token_of : Option Symbol → Symbol
token_of t = or_else t xlm

abbrev pub pool_of : Option PoolId → PoolId
pool_of p = or_else p pool_b

module _ (num : Num) where
  open num use {F}

  pub record Condition : Type 0 where
    pub kind : ConditionKind
    pub comparator : Comparator
    pub value : F
    pub pool : Option PoolId
    pub token : Option Symbol

  pub data Amount : Type 0 where
    everything : Amount
    fixed : F → Amount
    share : (percent : F) → Amount

  pub record Action : Type 0 where
    pub kind : ActionKind
    pub amount : Amount
    pub pool : Option PoolId
    pub token : Option Symbol

  -- `match` is "all" or "any".
  pub record Rule : Type 0 where
    pub id : Text
    pub name : Text
    pub conditions : List Condition
    pub match_all : Bool
    pub action : Action
    pub cooldown_sec : ℕ
    pub inferred : List Text
    pub enabled : Bool
