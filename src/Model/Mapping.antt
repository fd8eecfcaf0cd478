-- ===== src/Model/Mapping.antt =====
-- web/lib/model/autopilot.ts, from `toLedgers` to `toCoreAutopilot`, and `tryPerUsdToUsdPerTry` of
-- web/lib/koul.ts: the rules of the page as the router's.
pub mod Forms
pub mod Laws
use koul.Base.{
  ℕ, zero, suc, ◌+◌, ◌-◌, ◌*◌, ◌/◌, ◌^◌, max, min, Bool, true, false, not, ◌&&◌, ◌||◌, Option, none,
  some, List, [], ◌∷◌, ◌++◌, map, any, all, is_nil, or_else, join, Text, codes, if◌then◌else◌, ℤ,
  pos, negsuc, Num,
}
use koul.Core.Decimal.{to_text}
use koul.Core.Schema as Core
use koul.Model.Tokens.{Symbol, token_by_symbol, usdc}
use koul.Model.Rules.{
  PoolId, hub_of, Comparator, gte, lte, ConditionKind, rate_gap, pool_rate, health_factor, fx_price,
  idle_usdc, token_price, token_balance, ActionKind, supply_from_wallet, move_to_best_pool,
  repay_from_wallet, withdraw_to_wallet, sell_token, buy_token, withdraw_to_token, token_of,
  pool_of, Condition, Amount, everything, fixed, share, Action, Rule,
}

abbrev pub ledger_seconds : ℕ
ledger_seconds = 5

abbrev pub max_price_age_secs : Text
max_price_age_secs = codes "900"

abbrev pub swap_slippage_bps : ℕ
swap_slippage_bps = 100

-- `Math.max(1, Math.round(sec / LEDGER_SECONDS))`
unfoldable pub to_ledgers : ℕ → ℕ
to_ledgers sec = max 1 ((2 * sec + ledger_seconds) / (2 * ledger_seconds))

abbrev pub int_text : ℤ → Text
int_text (pos n) = to_text n
int_text (negsuc n) = b'-' ∷ to_text (suc n)

-- `Math.max(1, n)`
abbrev pub at_least_1 : ℤ → ℕ
at_least_1 (pos n) = max 1 n
at_least_1 (negsuc n) = 1

abbrev pub neg : ℕ → ℤ
neg zero = pos 0
neg (suc n) = negsuc n

-- `bigint` division cuts towards 0.
abbrev pub rescale : ℤ → ℕ → ℤ
rescale (pos n) decimals = pos (n * 10 ^ (decimals - 7) / 10 ^ (7 - decimals))
rescale (negsuc n) decimals = neg (suc n * 10 ^ (decimals - 7) / 10 ^ (7 - decimals))

abbrev pub above_cmp : Comparator → Core.Cmp
above_cmp gte = Core.at_or_above
above_cmp lte = Core.below

-- A price in USD per TRY falls as TRY per USD rises.
abbrev pub inverse_cmp : Comparator → Core.Cmp
inverse_cmp gte = Core.below
inverse_cmp lte = Core.at_or_above

-- A UI condition as contract conditions; the rate gap has one for each direction.
pub data Variants : Type 0 where
  one : Core.Condition → Variants
  directions : (forth back : Core.Condition) → Variants
  unsupported : Variants

pub data Direction : Type 0 where
  a_to_b b_to_a : Direction

module _ (num : Num) where
  open num use {F, lit, mul, div, le, is_finite, to_int, log1p}

  abbrev pub rounded : F → ℕ → ℤ
  rounded v k = to_int (mul v (lit (10 ^ k) 0))

  abbrev pub to_price : F → Text
  to_price usd = int_text (rounded usd 8) ++ codes "000000"

  abbrev pub to_units : F → ℕ → Text
  to_units value decimals = int_text (rescale (rounded value 7) decimals)

  unfoldable pub to_amount : Amount num → ℕ → Core.Amount
  to_amount everything decimals = Core.everything
  to_amount (fixed a) decimals = Core.fixed (to_units a decimals)
  to_amount (share percent) decimals = Core.percent (min 10000 (at_least_1 (rounded percent 2)))

  abbrev pub apy_to_apr : F → F
  apy_to_apr apy = mul (log1p (div apy (lit 100 0))) (lit 100 0)

  abbrev pub try_per_usd_to_usd_per_try : F → ℤ
  try_per_usd_to_usd_per_try v = to_int (div (lit (10 ^ 14) 0) v)

  unfoldable pub to_core_condition : Condition num → Variants
  to_core_condition c =
      let above = above_cmp c.comparator in
      let token = token_by_symbol (token_of c.token) in
      elim c.kind [
        | health_factor ↦
            one (Core.health_factor above (int_text (rounded c.value 6) ++ codes "000000000000"))
        | fx_price ↦ one (
            Core.fx_price (codes "TRY") (inverse_cmp c.comparator)
              (int_text (try_per_usd_to_usd_per_try c.value)) max_price_age_secs)
        | idle_usdc ↦ one (Core.idle_balance above (to_units c.value 7))
        | rate_gap ↦
            let bps = at_least_1 (rounded c.value 2) in
            elim c.comparator [
              | gte ↦ directions (Core.supply_rate_gap 2 1 bps) (Core.supply_rate_gap 1 2 bps)
              | lte ↦ unsupported
            ]
        | pool_rate ↦ one (
            Core.supply_rate (hub_of (pool_of c.pool)) above
              (at_least_1 (rounded (apy_to_apr c.value) 2)))
        | token_price ↦ one (Core.token_price token.id above (to_price c.value))
        | token_balance ↦ one (Core.token_balance token.id above (to_units c.value token.decimals))
      ]

  -- A contract rule and the page's rule that it is of.
  pub record Mapped : Type 0 where
    pub rule : Core.Rule
    pub rule_id : Text

  pub record CoreMapping : Type 0 where
    pub autopilot : Core.Autopilot
    pub unsupported_rules : List (Rule num)
    pub rule_ids : List Text

  abbrev pub is_gap : Condition num → Bool
  is_gap c = elim c.kind [ rate_gap ↦ true | _ ↦ false ]

  abbrev pub amount_ready : Amount num → Bool
  amount_ready everything = true
  amount_ready (share percent) = true
  amount_ready (fixed a) = is_finite a && not (le a (lit 0 0))

  abbrev pub value_ready : Condition num → Bool
  value_ready c = is_finite c.value && not (le c.value (lit 0 0))

  abbrev pub is_unsupported : Variants → Bool
  is_unsupported (one c) = false
  is_unsupported (directions forth back) = false
  is_unsupported unsupported = true

  abbrev pub scaled_is_finite : F → ℕ → Bool
  scaled_is_finite v k = is_finite (mul v (lit (10 ^ k) 0))

  -- Whether the numbers of a condition have an integer form. Where one is scaled out of the finite numbers,
  -- BigInt throws a RangeError, and basis points would be no integer.
  unfoldable pub condition_fits : Condition num → Bool
  condition_fits c = elim c.kind [
    | health_factor ↦ scaled_is_finite c.value 6
    | fx_price ↦ is_finite (div (lit (10 ^ 14) 0) c.value)
    | idle_usdc ↦ scaled_is_finite c.value 7
    | rate_gap ↦ elim c.comparator [ gte ↦ scaled_is_finite c.value 2 | lte ↦ true ]
    | pool_rate ↦ scaled_is_finite (apy_to_apr c.value) 2
    | token_price ↦ scaled_is_finite c.value 8
    | token_balance ↦ scaled_is_finite c.value 7
  ]

  unfoldable pub amount_fits : Amount num → Bool
  amount_fits everything = true
  amount_fits (fixed a) = scaled_is_finite a 7
  amount_fits (share percent) = scaled_is_finite percent 2

  -- `i === gapIndex ? m.variants[direction] : m.variants[0]`; `first` says that no gap has come before.
  abbrev pub variant_of : Direction → Bool → Variants → List Core.Condition
  variant_of d first (one c) = c ∷ []
  variant_of b_to_a true (directions forth back) = back ∷ []
  variant_of _ _ (directions forth back) = forth ∷ []
  variant_of d first unsupported = []

  unfoldable pub conditions_from : Direction → Bool → List (Condition num) → List Core.Condition
  conditions_from d first [] = []
  conditions_from d first (c ∷ cs) =
      variant_of d first (to_core_condition c) ++ conditions_from d (first && not (is_gap c)) cs

  abbrev pub conditions_for : Direction → Rule num → List Core.Condition
  conditions_for d r = conditions_from d true r.conditions

  -- `push`
  abbrev pub pushed : Rule num → Direction → Core.Action → Mapped
  pushed r d action = record {
    rule = record {
      conditions = conditions_for d r;
      match_all = r.match_all;
      action = action;
      cooldown_ledgers = to_ledgers r.cooldown_sec;
    };
    rule_id = r.id;
  }

  -- What the action pushes once the rule is known to be supported.
  abbrev pub actions_of : Rule num → ActionKind → List (Direction × Core.Action)
  actions_of r move_to_best_pool =
      (a_to_b, Core.move_supply 1 2 (to_amount r.action.amount 7))
      ∷ (b_to_a, Core.move_supply 2 1 (to_amount r.action.amount 7))
      ∷ []
  actions_of r repay_from_wallet =
      (a_to_b, Core.repay_from_wallet 1 (to_amount r.action.amount 7))
      ∷ (a_to_b, Core.repay_from_wallet 2 (to_amount r.action.amount 7))
      ∷ []
  actions_of r withdraw_to_wallet =
      (a_to_b, Core.withdraw_to_wallet 1 (to_amount r.action.amount 7))
      ∷ (a_to_b, Core.withdraw_to_wallet 2 (to_amount r.action.amount 7))
      ∷ []
  actions_of r supply_from_wallet =
      (
        a_to_b,
        Core.supply_from_wallet (hub_of (pool_of r.action.pool)) (to_amount r.action.amount 7),
      )
      ∷ []
  actions_of r sell_token =
      let t = token_by_symbol (token_of r.action.token) in
      (
        a_to_b,
        Core.swap_from_wallet t.id usdc (to_amount r.action.amount t.decimals) swap_slippage_bps,
      )
      ∷ []
  actions_of r buy_token =
      let t = token_by_symbol (token_of r.action.token) in
      (a_to_b, Core.swap_from_wallet usdc t.id (to_amount r.action.amount 7) swap_slippage_bps) ∷ []
  actions_of r withdraw_to_token =
      let t = token_by_symbol (token_of r.action.token) in
      (a_to_b, Core.withdraw_and_swap 1 t.id (to_amount r.action.amount 7) swap_slippage_bps)
      ∷ (a_to_b, Core.withdraw_and_swap 2 t.id (to_amount r.action.amount 7) swap_slippage_bps)
      ∷ []

  -- A move needs a rate gap, every other action refuses one.
  abbrev pub fits_gap : ActionKind → Bool → Bool
  fits_gap move_to_best_pool gap = gap
  fits_gap _ gap = not gap

  unfoldable pub is_supported : Rule num → Bool
  is_supported r =
      amount_ready r.action.amount
      && not (any (λ c. not (value_ready c)) r.conditions)
      && not (any (λ c. is_unsupported (to_core_condition c)) r.conditions)
      && not (is_nil r.conditions)
      && fits_gap r.action.kind (any is_gap r.conditions)

  unfoldable pub contract_rules : Rule num → List Mapped
  contract_rules r = map (λ p. pushed r p.0 p.1) (actions_of r r.action.kind)

  -- One round of the loop, on the pushed rules and the rules that have no contract form: by whether the
  -- rule is enabled, and whether it is supported.
  unfoldable pub place_rule :
      (enabled supported : Bool)
      → Rule num
      → List Mapped × List (Rule num)
      → List Mapped × List (Rule num)
  place_rule true true r (mapped, left) = (contract_rules r ++ mapped, left)
  place_rule true false r (mapped, left) = (mapped, r ∷ left)
  place_rule false supported r (mapped, left) = (mapped, left)

  unfoldable pub map_rules : List (Rule num) → List Mapped × List (Rule num)
  map_rules [] = ([], [])
  map_rules (r ∷ rs) = place_rule r.enabled (is_supported r) r (map_rules rs)

  -- The rules are read in order: a rule that is off, or whose numbers are being typed, converts nothing; the
  -- amount is converted only after the conditions are known to have a form.
  unfoldable pub rule_fits : Rule num → Bool
  rule_fits r =
      let typed =
        amount_ready r.action.amount && not (any (λ c. not (value_ready c)) r.conditions) in
      let formed =
        not (any (λ c. is_unsupported (to_core_condition c)) r.conditions)
        && not (is_nil r.conditions) in
      not (r.enabled && typed)
      || (all condition_fits r.conditions && (not formed || amount_fits r.action.amount))

  abbrev pub mapping_of : List Mapped × List (Rule num) → ℕ → CoreMapping
  mapping_of (mapped, left) account_id = record {
    autopilot = record { account_id = to_text account_id; rules = map (λ m. m.rule) mapped };
    unsupported_rules = left;
    rule_ids = map (λ m. m.rule_id) mapped;
  }

  -- None where a number has no integer form: an exception, or basis points that are NaN or infinite. A share
  -- that overflows when it is scaled, which the source cuts to 10000, is put there too.
  unfoldable pub to_core_autopilot : List (Rule num) → ℕ → Option CoreMapping
  to_core_autopilot rules account_id =
      if all rule_fits rules then some (mapping_of (map_rules rules) account_id) else none
