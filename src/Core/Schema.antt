-- ===== src/Core/Schema.antt =====
-- packages/core/src/schema.ts: the rule model and what its schema accepts. The shape (which keys an
-- object has, which type a value is of) is that of the data types here; the numbers are natural,
-- so the schema's refusal of a negative or fractional number has no counterpart.
use koul.Base.{
  ℕ, Bool, true, false, ◌&&◌, ◌||◌, List, [], ◌∷◌, leb, ◌==◌, ◌+◌, if◌then◌else◌, Text, length, all,
}
use koul.Core.Decimal.{is_decimal, is_positive}

pub data Cmp : Type 0 where
  below at_or_above : Cmp

pub data Amount : Type 0 where
  everything : Amount
  percent : (bps : ℕ) → Amount
  fixed : (value : Text) → Amount

pub data Condition : Type 0 where
  health_factor : (cmp : Cmp) (level_wad : Text) → Condition
  supply_rate_gap : (hub_over hub_under min_bps : ℕ) → Condition
  supply_rate : (hub : ℕ) (cmp : Cmp) (bps : ℕ) → Condition
  fx_price : (asset : Text) (cmp : Cmp) (level max_age_secs : Text) → Condition
  idle_balance : (cmp : Cmp) (amount : Text) → Condition
  token_price : (token : Text) (cmp : Cmp) (level : Text) → Condition
  token_balance : (token : Text) (cmp : Cmp) (amount : Text) → Condition

pub data Action : Type 0 where
  move_supply : (from_hub to_hub : ℕ) (amount : Amount) → Action
  supply_from_wallet : (hub : ℕ) (amount : Amount) → Action
  repay_from_wallet : (hub : ℕ) (amount : Amount) → Action
  repay_with_collateral : (withdraw_hub repay_hub : ℕ) (amount : Amount) → Action
  withdraw_to_wallet : (hub : ℕ) (amount : Amount) → Action
  swap_from_wallet : (token_in token_out : Text) (amount : Amount) (max_slippage_bps : ℕ) → Action
  withdraw_and_swap : (hub : ℕ) (token_out : Text) (amount : Amount) (max_slippage_bps : ℕ) → Action

pub record Rule : Type 0 where
  pub conditions : List Condition
  pub match_all : Bool
  pub action : Action
  pub cooldown_ledgers : ℕ

pub record Autopilot : Type 0 where
  pub account_id : Text
  pub rules : List Rule

abbrev pub uint_max : ℕ
uint_max = 0xffffffff

unfoldable pub is_uint : ℕ → Bool
is_uint n = leb n uint_max

-- a letter of /[A-Z2-7]/
unfoldable pub is_base32 : ℕ → Bool
is_base32 c = (leb 65 c && leb c 90) || (leb 50 c && leb c 55)

-- /^C[A-Z2-7]{55}$/
unfoldable pub is_contract_id : Text → Bool
unfolding is_base32
is_contract_id [] = false
is_contract_id (c ∷ s) = (c == 67) && (length s == 55) && all is_base32 s

unfoldable pub is_slippage : ℕ → Bool
is_slippage n = leb 1 n && leb n 2000

unfoldable pub amount_ok : Amount → Bool
unfolding is_uint is_positive
amount_ok everything = true
amount_ok (percent bps) = is_uint bps
amount_ok (fixed value) = is_positive value

-- `s.length`: a code point from 65536 on is two UTF-16 units.
unfoldable pub utf16_length : Text → ℕ
utf16_length [] = 0
utf16_length (c ∷ s) = (if leb 65536 c then 2 else 1) + utf16_length s

unfoldable pub condition_ok : Condition → Bool
unfolding is_uint is_positive is_decimal is_contract_id
condition_ok (health_factor cmp level) = is_positive level
condition_ok (supply_rate_gap over under bps) = is_uint over && is_uint under && is_uint bps
condition_ok (supply_rate hub cmp bps) = is_uint hub && is_uint bps
condition_ok (fx_price asset cmp level age) =
    leb 1 (utf16_length asset) && leb (utf16_length asset) 32 && is_positive level && is_decimal age
condition_ok (idle_balance cmp amount) = is_decimal amount
condition_ok (token_price token cmp level) = is_contract_id token && is_positive level
condition_ok (token_balance token cmp amount) = is_contract_id token && is_decimal amount

unfoldable pub action_ok : Action → Bool
unfolding is_uint is_contract_id is_slippage amount_ok
action_ok (move_supply from to a) = is_uint from && is_uint to && amount_ok a
action_ok (supply_from_wallet hub a) = is_uint hub && amount_ok a
action_ok (repay_from_wallet hub a) = is_uint hub && amount_ok a
action_ok (repay_with_collateral from to a) = is_uint from && is_uint to && amount_ok a
action_ok (withdraw_to_wallet hub a) = is_uint hub && amount_ok a
action_ok (swap_from_wallet tin tout a bps) =
    is_contract_id tin && is_contract_id tout && amount_ok a && is_slippage bps
action_ok (withdraw_and_swap hub tout a bps) =
    is_uint hub && is_contract_id tout && amount_ok a && is_slippage bps

abbrev pub within : ℕ → ℕ → ℕ → Bool
within lo hi n = leb lo n && leb n hi

unfoldable pub rule_ok : Rule → Bool
unfolding condition_ok action_ok
rule_ok r =
    within 1 3 (length r.conditions)
    && all condition_ok r.conditions
    && action_ok r.action
    && is_uint r.cooldown_ledgers

unfoldable pub autopilot_ok : Autopilot → Bool
unfolding rule_ok
autopilot_ok ap = is_decimal ap.account_id && within 1 32 (length ap.rules) && all rule_ok ap.rules
