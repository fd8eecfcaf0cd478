-- ===== src/Core/Codec/Encode.antt =====
-- packages/core/src/codec.ts, from `sym` to `encodeAutopilot`.
use koul.Base.{Option, none, some, List, [], ◌∷◌, Text, codes, is_nil, text_leb, if◌then◌else◌}
use koul.Core.Decimal.{big}
use koul.Core.Schema.{
  Cmp, below, at_or_above, Amount, everything, percent, fixed, Condition, health_factor,
  supply_rate_gap, supply_rate, fx_price, idle_balance, token_price, token_balance, Action,
  move_supply, supply_from_wallet, repay_from_wallet, repay_with_collateral, withdraw_to_wallet,
  swap_from_wallet, withdraw_and_swap, Rule, Autopilot,
}
use koul.Core.Validate.{validate}
use koul.Core.Codec.Native.{Sdk, Result, ok, err, ◌>>=◌, traverse, invalid_autopilot, bad_address}

module _ {A : Type 0} where
  unfoldable pub insert_entry : Text × A → List (Text × A) → List (Text × A)
  unfolding text_leb
  insert_entry e [] = e ∷ []
  insert_entry e (f ∷ fs) = if text_leb e.0 f.0 then e ∷ f ∷ fs else f ∷ insert_entry e fs

  unfoldable pub sort_entries : List (Text × A) → List (Text × A)
  unfolding insert_entry
  sort_entries [] = []
  sort_entries (e ∷ es) = insert_entry e (sort_entries es)

module _ (sdk : Sdk) where
  open sdk use {ScVal, symbol, u32, u64, i128, vec, map_of, bool, address}

  unfoldable pub sc_map : List (Text × ScVal) → ScVal
  unfolding sort_entries
  sc_map es = map_of (sort_entries es)

  abbrev pub variant : Text → List ScVal → ScVal
  variant tag values = vec (symbol tag ∷ values)

  unfoldable pub cmp_name : Cmp → Text
  cmp_name below = codes "Below"
  cmp_name at_or_above = codes "AtOrAbove"

  abbrev pub encode_cmp : Cmp → ScVal
  encode_cmp c = variant (cmp_name c) []

  abbrev pub address_of : Text → Option ScVal → Result ScVal
  address_of s none = err (bad_address s)
  address_of s (some v) = ok v

  abbrev pub encode_address : Text → Result ScVal
  encode_address s = address_of s (address s)

  unfoldable pub encode_amount : Amount → ScVal
  encode_amount everything = variant (codes "All") []
  encode_amount (percent bps) = variant (codes "Percent") (u32 bps ∷ [])
  encode_amount (fixed value) = variant (codes "Fixed") (i128 (big value) ∷ [])

  unfoldable pub encode_condition : Condition → Result ScVal
  encode_condition (health_factor cmp level) =
      ok (variant (codes "HealthFactor") (encode_cmp cmp ∷ i128 (big level) ∷ []))
  encode_condition (supply_rate_gap over under bps) =
      ok (variant (codes "SupplyRateGap") (u32 over ∷ u32 under ∷ u32 bps ∷ []))
  encode_condition (supply_rate hub cmp bps) =
      ok (variant (codes "SupplyRate") (u32 hub ∷ encode_cmp cmp ∷ u32 bps ∷ []))
  encode_condition (fx_price asset cmp level age) = ok (
      variant (codes "FxPrice")
        (symbol asset ∷ encode_cmp cmp ∷ i128 (big level) ∷ u64 (big age) ∷ []))
  encode_condition (idle_balance cmp amount) =
      ok (variant (codes "IdleBalance") (encode_cmp cmp ∷ i128 (big amount) ∷ []))
  encode_condition (token_price token cmp level) = do
    t ← encode_address token
    ok (variant (codes "TokenPrice") (t ∷ encode_cmp cmp ∷ i128 (big level) ∷ []))
  encode_condition (token_balance token cmp amount) = do
    t ← encode_address token
    ok (variant (codes "TokenBalance") (t ∷ encode_cmp cmp ∷ i128 (big amount) ∷ []))

  unfoldable pub encode_action : Action → Result ScVal
  encode_action (move_supply from to a) =
      ok (variant (codes "MoveSupply") (u32 from ∷ u32 to ∷ encode_amount a ∷ []))
  encode_action (supply_from_wallet hub a) =
      ok (variant (codes "SupplyFromWallet") (u32 hub ∷ encode_amount a ∷ []))
  encode_action (repay_from_wallet hub a) =
      ok (variant (codes "RepayFromWallet") (u32 hub ∷ encode_amount a ∷ []))
  encode_action (repay_with_collateral from to a) =
      ok (variant (codes "RepayWithCollateral") (u32 from ∷ u32 to ∷ encode_amount a ∷ []))
  encode_action (withdraw_to_wallet hub a) =
      ok (variant (codes "WithdrawToWallet") (u32 hub ∷ encode_amount a ∷ []))
  encode_action (swap_from_wallet tin tout a bps) = do
    i ← encode_address tin
    o ← encode_address tout
    ok (variant (codes "SwapFromWallet") (i ∷ o ∷ encode_amount a ∷ u32 bps ∷ []))
  encode_action (withdraw_and_swap hub tout a bps) = do
    o ← encode_address tout
    ok (variant (codes "WithdrawAndSwap") (u32 hub ∷ o ∷ encode_amount a ∷ u32 bps ∷ []))

  unfoldable pub encode_rule : Rule → Result ScVal
  encode_rule r = do
    action ← encode_action r.action
    conditions ← traverse encode_condition r.conditions
    ok (
        sc_map (
          (codes "action", action)
          ∷ (codes "conditions", vec conditions)
          ∷ (codes "cooldown_ledgers", u32 r.cooldown_ledgers)
          ∷ (codes "match_all", bool r.match_all)
          ∷ []))

  unfoldable pub encode_autopilot : Autopilot → Result ScVal
  encode_autopilot ap =
      if is_nil (validate ap)
      then (do
        rules ← traverse encode_rule ap.rules
        ok (
            sc_map
              ((codes "account_id", u64 (big ap.account_id)) ∷ (codes "rules", vec rules) ∷ [])))
      else err (invalid_autopilot (validate ap))
