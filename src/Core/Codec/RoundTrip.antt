-- ===== src/Core/Codec/RoundTrip.antt =====
-- Decoding what was encoded gives the autopilot back.
mod Atoms
mod Conditions
mod Actions
use koul.Base.{
  ℕ, ◌≤◌, ◌≡◌, refl, ap, Bool, true, ◌&&◌, Option, none, some, List, [], ◌∷◌, map, arith, Text,
  codes, all, All, and-true, is_nil, Bool-cases, inl, inr,
}
use koul.Core.Decimal.{is_decimal, is_positive, big, to_text-big}
use koul.Core.Schema.{
  Cmp, below, at_or_above, Amount, everything, percent, fixed, Condition, health_factor,
  supply_rate_gap, supply_rate, fx_price, idle_balance, token_price, token_balance, Action,
  move_supply, supply_from_wallet, repay_from_wallet, repay_with_collateral, withdraw_to_wallet,
  swap_from_wallet, withdraw_and_swap, Rule, Autopilot, autopilot_ok, rule_ok, condition_ok,
  action_ok, amount_ok, uint_max, is_uint, is_slippage, is_contract_id,
}
use koul.Core.Validate.{i128_max, u64_max, validate}
use koul.Core.Validate.Laws.{ConditionFits, AmountFits, ActionFits, RuleFits, Fits, validate_sound}
use koul.Core.Codec.Native.{Native, Sdk, Result, ok, traverse, items-items_of, bind_split}
use koul.Core.Codec.Encode.{
  encode_amount, encode_condition, encode_action, encode_rule, encode_autopilot, cmp_name,
  encode_cmp, encode_address, sc_map, address_of,
}
use koul.Core.Codec.Decode.{
  decode_amount, decode_condition, decode_action, decode_rule, decode_native, decode_autopilot,
  decode_cmp, as_string, as_number,
}
use koul.Core.Codec.RoundTrip.Atoms.{
  uint_le, slippage_le, ok-injective, positive-decimal, cmp_trip, i128_trip, u32_trip, u64_trip,
  symbol_trip, address_of-ok, address_trip, amount_trip,
}
use koul.Core.Codec.RoundTrip.Conditions.{condition_trip}
use koul.Core.Codec.RoundTrip.Actions.{action_trip}

nil_of : {A : Type 0} (xs : List A) → is_nil xs ≡ true → xs ≡ []
nil_of [] h = refl
nil_of (x ∷ xs) h = cc

rule_parts :
    (r : Rule)
    → rule_ok r ≡ true
    → (all condition_ok r.conditions ≡ true)
      × (action_ok r.action ≡ true)
      × (is_uint r.cooldown_ledgers ≡ true)
unfolding rule_ok
rule_parts r h =
    let (front, cools) = and-true _ (is_uint r.cooldown_ledgers) h in
    let (front', acts) = and-true _ (action_ok r.action) front in
    let (_, held) = and-true _ (all condition_ok r.conditions) front' in (held, acts, cools)

autopilot_parts :
    (auto : Autopilot)
    → autopilot_ok auto ≡ true
    → (is_decimal auto.account_id ≡ true) × (all rule_ok auto.rules ≡ true)
unfolding autopilot_ok
autopilot_parts auto h =
    let (front, held) = and-true _ (all rule_ok auto.rules) h in
    let (decimal, _) = and-true (is_decimal auto.account_id) _ front in (decimal, held)

module _ {A : Type 0} (p : A → Bool) (Q : A → Type 0) where
  All_both : (xs : List A) → all p xs ≡ true → All Q xs → All (λ x. (p x ≡ true) × Q x) xs
  All_both [] h k = tt
  All_both (x ∷ xs) h k =
      let (here, later) = and-true (p x) (all p xs) h in ((here, k.0), All_both xs later k.1)

module _ (sdk : Sdk) where
  open sdk use {
    ScVal, symbol, u32, u64, i128, vec, map_of, bool, address, native, native_symbol, native_vec,
    native_u32, native_i128, native_u64, native_address, native_map, native_bool,
  }

  module _ {A : Type 0} (P : A → Type 0) (enc : A → Result ScVal) (dec : Native → Result A)
      (trip : (x : A) (v : ScVal) → P x → enc x ≡ ok v → dec (native v) ≡ ok x) where
    traverse_trip :
        (xs : List A) (vs : List ScVal)
        → All P xs
        → traverse enc xs ≡ ok vs
        → traverse dec (map native vs) ≡ ok xs
    unfolding traverse
    traverse_trip [] vs h e = rw (← ok-injective e)
    traverse_trip (x ∷ xs) vs h e =
        let (w, here, e1) = bind_split (enc x) _ e in
        let (ws, later, e2) = bind_split (traverse enc xs) _ e1 in
        rw (← ok-injective e2) (rw (trip x w h.0 here, traverse_trip xs ws h.1 later))

  abbrev RuleGood : Rule → Type 0
  RuleGood r = (rule_ok r ≡ true) × RuleFits r

  conditions_trip :
      (r : Rule) (cs : List ScVal)
      → RuleGood r
      → traverse (encode_condition sdk) r.conditions ≡ ok cs
      → traverse decode_condition (map native cs) ≡ ok r.conditions
  conditions_trip r cs (h, f) e =
      let (held, _, _) = rule_parts r h in
      traverse_trip (λ c. (condition_ok c ≡ true) × ConditionFits c) (encode_condition sdk)
        decode_condition (λ c v good. condition_trip sdk c v good.0 good.1) r.conditions cs
        (All_both condition_ok ConditionFits r.conditions held f.conditions) e

  rule_trip :
      (r : Rule) (v : ScVal) → RuleGood r → encode_rule sdk r ≡ ok v → decode_rule (native v) ≡ ok r
  unfolding encode_rule
  rule_trip r v (h, f) e =
      let (a, at_a, e1) = bind_split (encode_action sdk r.action) _ e in
      let (cs, at_cs, e2) = bind_split (traverse (encode_condition sdk) r.conditions) _ e1 in
      let (_, acts, cools) = rule_parts r h in
      rw (← ok-injective e2) (
        unfold sc_map in
        rw native_map (
          unfold decode_rule in
          rw native_vec (
            rw items-items_of (
              rw (
                conditions_trip r cs (h, f) at_cs,
                native_bool,
                action_trip sdk r.action a acts f.action at_a,
                native_u32 r.cooldown_ledgers (uint_le r.cooldown_ledgers cools),
              )))))

  native_trip :
      (auto : Autopilot) (rs : List ScVal)
      → Fits auto
      → traverse (encode_rule sdk) auto.rules ≡ ok rs
      → decode_native (
          native (
            sc_map sdk
              ((codes "account_id", u64 (big auto.account_id)) ∷ (codes "rules", vec rs) ∷ [])))
        ≡ ok auto
  unfolding sc_map
  native_trip auto rs f e =
      let (decimal, held) = autopilot_parts auto f.shape in
      let rules =
        traverse_trip RuleGood (encode_rule sdk) decode_rule rule_trip auto.rules rs
          (All_both rule_ok RuleFits auto.rules held f.rules) e in
      rw native_map (
        unfold decode_native in
        rw native_vec
          (rw items-items_of (rw (rules, u64_trip sdk auto.account_id decimal f.account, f.shape))))

encoded :
    (sdk : Sdk) (auto : Autopilot) (v : sdk.ScVal)
    → encode_autopilot sdk auto ≡ ok v
    → (validate auto ≡ [])
      × (rs : List sdk.ScVal) × (traverse (encode_rule sdk) auto.rules ≡ ok rs)
      × (sc_map sdk
            ((codes "account_id", sdk.u64 (big auto.account_id)) ∷ (codes "rules", sdk.vec rs) ∷ [])
          ≡ v)
unfolding encode_autopilot
encoded sdk auto v e = elim (Bool-cases (is_nil (validate auto))) [
  | inl none_ ↦
      let (rs, at, same) = bind_split (traverse (encode_rule sdk) auto.rules) _ (rw none_ at e) in
      (nil_of (validate auto) none_, rs, at, ok-injective same)
  | inr bad ↦ cc (rw bad at e)
]

-- Decoding what an autopilot was encoded to gives that autopilot back, for every autopilot that
-- `encodeAutopilot` accepts.
pub decode-encode :
    (sdk : Sdk) (auto : Autopilot) (v : sdk.ScVal)
    → encode_autopilot sdk auto ≡ ok v
    → decode_autopilot sdk v ≡ ok auto
unfolding decode_autopilot
decode-encode sdk auto v e =
    let (valid, rs, at, same) = encoded sdk auto v e in
    rw (← same) (native_trip sdk auto rs (validate_sound auto valid) at)
