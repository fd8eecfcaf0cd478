-- ===== src/Core/Validate.antt =====
-- packages/core/src/validate.ts: the limits of the router. An input that the schema refuses has one
-- error here, where the source has the list of the schema's issues, which is never empty; the texts
-- of the other errors are constructors, with the rule's and the condition's index.
pub mod Laws
use koul.Base.{
  ℕ, suc, ◌+◌, ◌-◌, ◌^◌, Bool, true, false, ◌&&◌, ◌||◌, List, [], ◌∷◌, ◌++◌, leb, ltb, ◌==◌, Text,
  text_eq, if◌then◌else◌,
}
use koul.Core.Decimal.{big}
use koul.Core.Schema.{
  Amount, everything, percent, fixed, Condition, health_factor, supply_rate_gap, supply_rate,
  fx_price, idle_balance, token_price, token_balance, Action, move_supply, supply_from_wallet,
  repay_from_wallet, repay_with_collateral, withdraw_to_wallet, swap_from_wallet, withdraw_and_swap,
  Rule, Autopilot, autopilot_ok,
}

abbrev pub i128_max : ℕ
i128_max = 2 ^ 127 - 1

abbrev pub u64_max : ℕ
u64_max = 2 ^ 64 - 1

abbrev pub min_move : ℕ
min_move = 10_000_000

pub data Invalid : Type 0 where
  shape : Invalid
  account_exceeds_u64 : Invalid
  cooldown_zero : (rule : ℕ) → Invalid
  condition_hubs_equal gap_zero rate_zero age_zero : (rule condition : ℕ) → Invalid
  level_exceeds_i128 age_exceeds_u64 : (rule condition : ℕ) → Invalid
  action_hubs_equal percent_out_of_range tokens_equal : (rule : ℕ) → Invalid
  under_min_move amount_exceeds_i128 : (rule : ℕ) → Invalid

-- `if (test) errors.push(e)`
abbrev pub when : Bool → Invalid → List Invalid
when true e = e ∷ []
when false e = []

unfoldable pub condition_errors : ℕ → ℕ → Condition → List Invalid
unfolding big
condition_errors i j (supply_rate_gap over under bps) =
    when (over == under) (condition_hubs_equal i j) ++ when (bps == 0) (gap_zero i j)
condition_errors i j (supply_rate hub cmp bps) = when (bps == 0) (rate_zero i j)
condition_errors i j (fx_price asset cmp level age) =
    when (big age == 0) (age_zero i j)
    ++ (when (ltb i128_max (big level)) (level_exceeds_i128 i j)
        ++ when (ltb u64_max (big age)) (age_exceeds_u64 i j))
condition_errors i j (health_factor cmp level) =
    when (ltb i128_max (big level)) (level_exceeds_i128 i j)
condition_errors i j (token_price token cmp level) =
    when (ltb i128_max (big level)) (level_exceeds_i128 i j)
condition_errors i j (idle_balance cmp amount) =
    when (ltb i128_max (big amount)) (level_exceeds_i128 i j)
condition_errors i j (token_balance token cmp amount) =
    when (ltb i128_max (big amount)) (level_exceeds_i128 i j)

unfoldable pub conditions_errors : ℕ → ℕ → List Condition → List Invalid
unfolding condition_errors
conditions_errors i j [] = []
conditions_errors i j (c ∷ cs) = condition_errors i j c ++ conditions_errors i (suc j) cs

abbrev pub amount_of : Action → Amount
amount_of (move_supply from to a) = a
amount_of (supply_from_wallet hub a) = a
amount_of (repay_from_wallet hub a) = a
amount_of (repay_with_collateral from to a) = a
amount_of (withdraw_to_wallet hub a) = a
amount_of (swap_from_wallet tin tout a bps) = a
amount_of (withdraw_and_swap hub tout a bps) = a

-- `action.type !== "SwapFromWallet"`
abbrev pub counts_usdc : Action → Bool
counts_usdc (swap_from_wallet tin tout a bps) = false
counts_usdc _ = true

abbrev pub percent_errors : ℕ → Amount → List Invalid
percent_errors i (percent bps) = when (ltb bps 1 || ltb 10_000 bps) (percent_out_of_range i)
percent_errors i _ = []

abbrev pub fixed_errors : ℕ → Bool → Amount → List Invalid
fixed_errors i usdc (fixed value) =
    when (usdc && ltb (big value) min_move) (under_min_move i)
    ++ when (ltb i128_max (big value)) (amount_exceeds_i128 i)
fixed_errors i usdc _ = []

abbrev pub hubs_errors : ℕ → Action → List Invalid
hubs_errors i (move_supply from to a) = when (from == to) (action_hubs_equal i)
hubs_errors i _ = []

abbrev pub tokens_errors : ℕ → Action → List Invalid
tokens_errors i (swap_from_wallet tin tout a bps) = when (text_eq tin tout) (tokens_equal i)
tokens_errors i _ = []

unfoldable pub action_errors : ℕ → Action → List Invalid
unfolding big text_eq
action_errors i a =
    hubs_errors i a
    ++ (percent_errors i (amount_of a)
        ++ (tokens_errors i a ++ fixed_errors i (counts_usdc a) (amount_of a)))

unfoldable pub rule_errors : ℕ → Rule → List Invalid
unfolding conditions_errors action_errors
rule_errors i r =
    when (r.cooldown_ledgers == 0) (cooldown_zero i)
    ++ (conditions_errors i 0 r.conditions ++ action_errors i r.action)

unfoldable pub rules_errors : ℕ → List Rule → List Invalid
unfolding rule_errors
rules_errors i [] = []
rules_errors i (r ∷ rs) = rule_errors i r ++ rules_errors (suc i) rs

unfoldable pub validate : Autopilot → List Invalid
unfolding rules_errors autopilot_ok
validate ap =
    if autopilot_ok ap
    then when (ltb u64_max (big ap.account_id)) account_exceeds_u64 ++ rules_errors 0 ap.rules
    else shape ∷ []
