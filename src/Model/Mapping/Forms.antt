-- ===== src/Model/Mapping/Forms.antt =====
-- web/lib/model/autopilot.ts, `toCoreAutopilot`: what the contract rules of one rule of the page do.
use koul.Base.{
  ℕ, false, Option, none, some, List, [], ◌∷◌, map, any, length, Text, Num, ◌≡◌, In, All,
}
use koul.Core.Schema as Core
use koul.Model.Tokens.{token_by_symbol, usdc}
use koul.Model.Rules.{
  Condition, Rule, ActionKind, supply_from_wallet, repay_from_wallet, withdraw_to_wallet,
  sell_token, buy_token, withdraw_to_token, token_of,
}
use koul.Model.Mapping.{Direction, a_to_b, b_to_a, to_core_condition, is_unsupported, pushed}

-- The hub that an action takes from, or works on
abbrev pub hub_at : Core.Action → Option ℕ
hub_at (Core.move_supply from to a) = some from
hub_at (Core.supply_from_wallet hub a) = some hub
hub_at (Core.repay_from_wallet hub a) = some hub
hub_at (Core.repay_with_collateral from to a) = some from
hub_at (Core.withdraw_to_wallet hub a) = some hub
hub_at (Core.swap_from_wallet tin tout a bps) = none
hub_at (Core.withdraw_and_swap hub tout a bps) = some hub

-- The tokens that an action gives and takes; what is withdrawn to be swapped is USDC.
abbrev pub trade : Core.Action → Option (Text × Text)
trade (Core.swap_from_wallet tin tout a bps) = some (tin, tout)
trade (Core.withdraw_and_swap hub tout a bps) = some (usdc, tout)
trade _ = none

-- The trade that a rule of the page speaks of
abbrev pub spoken_trade : ActionKind → Text → Option (Text × Text)
spoken_trade sell_token t = some (t, usdc)
spoken_trade buy_token t = some (usdc, t)
spoken_trade withdraw_to_token t = some (usdc, t)
spoken_trade _ t = none

-- The hubs that a rule of the page speaks of: moving, repaying and withdrawing, of both
abbrev pub spoken_hubs : ActionKind → (pool : ℕ) → List (Option ℕ)
spoken_hubs supply_from_wallet pool = some pool ∷ []
spoken_hubs sell_token pool = none ∷ []
spoken_hubs buy_token pool = none ∷ []
spoken_hubs _ pool = some 1 ∷ some 2 ∷ []

-- A move goes to a hub of which a condition says that it pays more than the one it leaves.
abbrev pub PaysMore : Core.Action → List Core.Condition → Type 0
PaysMore (Core.move_supply from to a) cs = (bps : ℕ) × In (Core.supply_rate_gap to from bps) cs
PaysMore _ cs = Unit

module _ (num : Num) where
  -- Each condition of the page's rule has one in the contract's; the action is the one spoken of.
  pub record IsFormOf (r : Rule num) (c : Core.Rule) : Type 0 where
    pub conditions : length c.conditions ≡ length r.conditions
    pub pays_more : PaysMore c.action c.conditions
    pub trades :
        trade c.action ≡ spoken_trade r.action.kind (token_by_symbol (token_of r.action.token)).id

  -- The gap condition of a direction: the hub that pays more, over the other
  abbrev gap_of : Direction → ℕ → Core.Condition
  gap_of a_to_b bps = Core.supply_rate_gap 2 1 bps
  gap_of b_to_a bps = Core.supply_rate_gap 1 2 bps

  abbrev HasGap : Direction → List Core.Condition → Type 0
  HasGap d cs = (bps : ℕ) × In (gap_of d bps) cs

  abbrev NoneUnsupported : Rule num → Type 0
  NoneUnsupported r = any (λ c. is_unsupported num (to_core_condition num c)) r.conditions ≡ false

  abbrev Forms : Rule num → List (Direction × Core.Action) → Type 0
  Forms r acts = All (λ m. IsFormOf r m.rule) (map (λ p. pushed num r p.0 p.1) acts)
