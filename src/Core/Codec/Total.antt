-- ===== src/Core/Codec/Total.antt =====
-- Encoding succeeds: it throws only on an invalid autopilot or a token that is no address.
use koul.Base.{◌≡◌, refl, some, List, [], ◌∷◌, Text, All}
use koul.Core.Schema.{
  Condition, health_factor, supply_rate_gap, supply_rate, fx_price, idle_balance, token_price,
  token_balance, Action, move_supply, supply_from_wallet, repay_from_wallet, repay_with_collateral,
  withdraw_to_wallet, swap_from_wallet, withdraw_and_swap, Rule, Autopilot,
}
use koul.Core.Validate.{validate}
use koul.Core.Codec.Native.{Sdk, Result, ok, traverse}
use koul.Core.Codec.Encode.{encode_condition, encode_action, encode_rule, encode_autopilot}
use koul.Core.Codec.Decode.{decode_autopilot}
use koul.Core.Codec.RoundTrip.{decode-encode}

abbrev pub condition_tokens : Condition → List Text
condition_tokens (token_price token cmp level) = token ∷ []
condition_tokens (token_balance token cmp amount) = token ∷ []
condition_tokens _ = []

abbrev pub action_tokens : Action → List Text
action_tokens (swap_from_wallet tin tout a bps) = tin ∷ tout ∷ []
action_tokens (withdraw_and_swap hub tout a bps) = tout ∷ []
action_tokens _ = []

module _ (sdk : Sdk) where
  abbrev pub IsAddress : Text → Type 0
  IsAddress s = (v : sdk.ScVal) × (sdk.address s ≡ some v)

  abbrev pub HasAddresses : Rule → Type 0
  HasAddresses r =
      All (λ c. All IsAddress (condition_tokens c)) r.conditions
      × All IsAddress (action_tokens r.action)

  abbrev Returns : {A : Type 0} → Result A → Type 0
  Returns {A} m = (a : A) × (m ≡ ok a)

  condition_total :
      (c : Condition) → All IsAddress (condition_tokens c) → Returns (encode_condition sdk c)
  unfolding encode_condition
  condition_total (token_price token cmp level) ((t, at), _) = rw at (_, refl)
  condition_total (token_balance token cmp amount) ((t, at), _) = rw at (_, refl)
  condition_total (health_factor cmp level) h = (_, refl)
  condition_total (supply_rate_gap over under bps) h = (_, refl)
  condition_total (supply_rate hub cmp bps) h = (_, refl)
  condition_total (fx_price asset cmp level age) h = (_, refl)
  condition_total (idle_balance cmp amount) h = (_, refl)

  action_total : (a : Action) → All IsAddress (action_tokens a) → Returns (encode_action sdk a)
  unfolding encode_action
  action_total (swap_from_wallet tin tout a bps) ((i, at_in), ((o, at_out), _)) =
      rw (at_in, at_out) (_, refl)
  action_total (withdraw_and_swap hub tout a bps) ((o, at_out), _) = rw at_out (_, refl)
  action_total (move_supply from to a) h = (_, refl)
  action_total (supply_from_wallet hub a) h = (_, refl)
  action_total (repay_from_wallet hub a) h = (_, refl)
  action_total (repay_with_collateral from to a) h = (_, refl)
  action_total (withdraw_to_wallet hub a) h = (_, refl)

  traverse_total :
      {A B : Type 0} (P : A → Type 0) (f : A → Result B)
      → ((x : A) → P x → Returns (f x))
      → (xs : List A) → All P xs
      → Returns (traverse f xs)
  unfolding traverse
  traverse_total P f step [] h = ([], refl)
  traverse_total P f step (x ∷ xs) h =
      let (y, here) = step x h.0 in
      let (ys, later) = traverse_total P f step xs h.1 in (y ∷ ys, rw (here, later))

  rule_total : (r : Rule) → HasAddresses r → Returns (encode_rule sdk r)
  unfolding encode_rule
  rule_total r h =
      let (a, acts) = action_total r.action h.1 in
      let (cs, holds) =
        traverse_total (λ c. All IsAddress (condition_tokens c)) (encode_condition sdk)
          condition_total r.conditions h.0 in
      rw (acts, holds) (_, refl)

encode_rules :
    (sdk : Sdk) (auto : Autopilot) (rs : List sdk.ScVal)
    → validate auto ≡ []
    → traverse (encode_rule sdk) auto.rules ≡ ok rs
    → Returns sdk (encode_autopilot sdk auto)
unfolding encode_autopilot
encode_rules sdk auto rs valid at = rw (valid, at) (_, refl)

-- A valid autopilot whose tokens are addresses is encoded, and decoding the result gives it back.
pub encode_total :
    (sdk : Sdk) (auto : Autopilot)
    → validate auto ≡ []
    → All (HasAddresses sdk) auto.rules
    → (v : sdk.ScVal) × (encode_autopilot sdk auto ≡ ok v) × (decode_autopilot sdk v ≡ ok auto)
encode_total sdk auto valid h =
    let (rs, at) =
      traverse_total sdk (HasAddresses sdk) (encode_rule sdk) (rule_total sdk) auto.rules h in
    let (v, e) = encode_rules sdk auto rs valid at in (v, e, decode-encode sdk auto v e)
