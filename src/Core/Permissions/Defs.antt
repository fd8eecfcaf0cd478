-- ===== src/Core/Permissions/Defs.antt =====
-- packages/core/src/permissions.ts: the calls that the agent key needs for an autopilot, and
-- web/lib/model/access.ts: whether a key that is already granted covers them.
use koul.Base.{
  Bool, true, false, not, ◌&&◌, ◌||◌, Option, none, some, List, [], ◌∷◌, ◌++◌, map, String, Text,
  codes, text_eq, member, truthy, any, all, or_else, if◌then◌else◌, is_nil,
}
use koul.Core.Schema.{
  Action, move_supply, supply_from_wallet, repay_from_wallet, repay_with_collateral,
  withdraw_to_wallet, swap_from_wallet, withdraw_and_swap, Rule, Autopilot,
}
use koul.Core.Validate.{Invalid, validate}

abbrev pub Call : Type 0
Call = Text × Text

pub record Permissions : Type 0 where
  pub allowed_calls : List Call
  pub transfer_recipients : List Text
  pub descriptions : List String

pub record Contracts : Type 0 where
  pub router : Text
  pub controller : Text
  pub pool : Text
  pub usdc : Text
  pub aggregator : Option Text

pub data Failure : Type 0 where
  invalid : List Invalid → Failure
  no_aggregator : Failure

pub data Result (A : Type 0) : Type 0 where
  ok : A → Result A
  err : Failure → Result A

-- `kinds.has(…)`, over the actions of the rules
unfoldable pub withdraws : Action → Bool
withdraws (move_supply from to a) = true
withdraws (repay_with_collateral from to a) = true
withdraws (withdraw_to_wallet hub a) = true
withdraws (withdraw_and_swap hub tout a bps) = true
withdraws _ = false

unfoldable pub supplies : Action → Bool
supplies (move_supply from to a) = true
supplies (supply_from_wallet hub a) = true
supplies _ = false

unfoldable pub repays : Action → Bool
repays (repay_from_wallet hub a) = true
repays (repay_with_collateral from to a) = true
repays _ = false

unfoldable pub supplies_wallet : Action → Bool
supplies_wallet (supply_from_wallet hub a) = true
supplies_wallet _ = false

-- The token that an action hands to the aggregator.
unfoldable pub swap_input : Text → Action → List Text
swap_input usdc (swap_from_wallet tin tout a bps) = tin ∷ []
swap_input usdc (withdraw_and_swap hub tout a bps) = usdc ∷ []
swap_input usdc _ = []

unfoldable pub swap_inputs : Text → List Action → List Text
unfolding swap_input
swap_inputs usdc [] = []
swap_inputs usdc (a ∷ as_) = swap_input usdc a ++ swap_inputs usdc as_

-- `[...new Set(xs)]`: the first of each value, in order.
unfoldable pub unique_from : List Text → List Text → List Text
unfolding member
unique_from seen [] = []
unique_from seen (x ∷ xs) =
    let fresh = unique_from (x ∷ seen) xs in
    let old = unique_from seen xs in if member x seen then old else x ∷ fresh

unfoldable pub unique : List Text → List Text
unfolding unique_from
unique xs = unique_from [] xs

-- `test ? xs : []`
abbrev pub given {ℓ} : {A : Type ℓ} → Bool → List A → List A
given true xs = xs
given false xs = []

abbrev pub actions_of : List Rule → List Action
actions_of [] = []
actions_of (r ∷ rs) = r.action ∷ actions_of rs

abbrev pub call : Text → String → Call
call contract method = (contract, codes method)

abbrev pub transfer_of : Text → Call
transfer_of token = call token "transfer"

module _ (c : Contracts) (as_ : List Action) where
  -- the calls, from what the actions need and the tokens that swaps take
  unfoldable pub calls : Bool → Bool → Bool → List Text → List Call
  unfolding unique
  calls withdraw supply repay inputs =
      call c.router "tick"
      ∷ (given withdraw (call c.controller "withdraw" ∷ [])
          ++ (given supply (call c.controller "supply" ∷ [])
              ++ (given repay (call c.controller "repay" ∷ [])
                  ++ (given (not (is_nil inputs))
                        (call (or_else c.aggregator []) "execute_strategy" ∷ [])
                      ++ map transfer_of
                          (unique (given (supply || repay) (c.usdc ∷ []) ++ inputs))))))

  unfoldable pub recipients : Bool → List Text → List Text
  recipients to_pool inputs =
      given to_pool (c.pool ∷ []) ++ given (not (is_nil inputs)) (or_else c.aggregator [] ∷ [])

  unfoldable pub descriptions_of : Bool → Bool → Bool → List Text → List String
  descriptions_of withdraw supply repay inputs =
      "Check and run the first eligible autopilot rule"
      ∷ (given withdraw ("Withdraw USDC from your own XOXNO position to your wallet" ∷ [])
          ++ (given supply (
                (if any supplies_wallet as_
                  then "Put idle USDC from your wallet into your own XOXNO position"
                  else "Supply wallet USDC to your own XOXNO position")
                ∷ [])
              ++ (given repay ("Repay debt on your own XOXNO position" ∷ [])
                  ++ (given (not (is_nil inputs)) (
                        "Swap tokens in your wallet through the XOXNO aggregator, paid back to your wallet, never below the oracle price less your slippage"
                        ∷ [])
                      ++ (given (supply || repay)
                            ("Transfer USDC from your wallet to the XOXNO pool" ∷ [])
                          ++ given (not (is_nil inputs))
                              ("Hand a swap's input to the aggregator" ∷ []))))))

  unfoldable pub granted : Result Permissions
  unfolding calls recipients descriptions_of withdraws supplies repays supplies_wallet swap_inputs
  granted =
      let withdraw = any withdraws as_ in
      let supply = any supplies as_ in
      let repay = any repays as_ in
      let inputs = unique (swap_inputs c.usdc as_) in
      if not (is_nil inputs) && not (truthy c.aggregator)
      then err no_aggregator
      else ok (record {
        allowed_calls = calls withdraw supply repay inputs;
        transfer_recipients = recipients (supply || repay) inputs;
        descriptions = descriptions_of withdraw supply repay inputs;
      })

unfoldable pub permissions_for : Autopilot → Contracts → Result Permissions
unfolding granted
permissions_for ap c =
    let errors = validate ap in
    if is_nil errors then granted c (actions_of ap.rules) else err (invalid errors)

-- What the policy of a granted key allows, as the wallet reads it back.
pub record AgentParams : Type 0 where
  pub account_id : Text
  pub allowed_calls : List Call
  pub transfer_recipients : List Text

-- `${c}:${f}`
abbrev pub key : Call → Text
key (c, f) = c ++ 58 ∷ f

unfoldable pub covers : AgentParams → Permissions → Bool
covers p needed =
    all (λ k. member (key k) (map key p.allowed_calls)) needed.allowed_calls
    && all (λ r. member r p.transfer_recipients) needed.transfer_recipients

abbrev pub map_result : {A B : Type 0} → (A → B) → Result A → Result B
map_result f (ok a) = ok (f a)
map_result f (err e) = err e

-- An error here is the exception that `permissionsFor` throws.
unfoldable pub grant_covers : Option AgentParams → Autopilot → Contracts → Result Bool
grant_covers none ap c = ok false
grant_covers (some p) ap c =
    if is_nil (validate ap) && text_eq p.account_id ap.account_id
    then map_result (covers p) (permissions_for ap c)
    else ok false
