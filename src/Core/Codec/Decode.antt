-- ===== src/Core/Codec/Decode.antt =====
-- packages/core/src/codec.ts, from `rawVariant` to `decodeAutopilot`. A text that is no digits, a
-- list or an object where a number is wanted gives no number here; JavaScript makes NaN of most.
use koul.Base.{
  ℕ, Bool, true, false, Option, none, some, List, [], ◌∷◌, ◌++◌, Text, codes, text_eq, get_elem?,
  all, if◌then◌else◌,
}
use koul.Core.Decimal.{is_digit, big, to_text}
use koul.Core.Schema.{
  Cmp, below, at_or_above, Amount, everything, percent, fixed, Condition, health_factor,
  supply_rate_gap, supply_rate, fx_price, idle_balance, token_price, token_balance, Action,
  move_supply, supply_from_wallet, repay_from_wallet, repay_with_collateral, withdraw_to_wallet,
  swap_from_wallet, withdraw_and_swap, Rule, Autopilot, autopilot_ok,
}
use koul.Core.Codec.Native.{
  Native, str, num, big_int, flag, arr, obj, Items, nil, cons, items, property, Sdk, Result, ok,
  err, ◌>>=◌, traverse, bad_enum, unknown_variant, not_an_array, schema_refused,
}

pub record RawVariant : Type 0 where
  pub tag : Text
  pub values : List Native

unfoldable pub raw_variant : Native → Result RawVariant
raw_variant (arr (cons (str tag) vs)) = ok (record { tag = tag; values = items vs })
raw_variant _ = err bad_enum

-- `String(value)`
unfoldable mutual
  pub text_of : Native → Text
  text_of (str s) = s
  text_of (num n) = to_text n
  text_of (big_int n) = to_text n
  text_of (flag true) = codes "true"
  text_of (flag false) = codes "false"
  text_of (arr vs) = texts_of vs
  text_of (obj fs) = codes "[object Object]"

  pub texts_of : Items → Text
  texts_of nil = []
  texts_of (cons v nil) = text_of v
  texts_of (cons v (cons w vs)) = text_of v ++ b',' ∷ texts_of (cons w vs)

unfoldable pub as_string : Option Native → Text
unfolding text_of
as_string none = codes "undefined"
as_string (some v) = text_of v

-- `Number(value)`; an error where the schema then refuses the value
unfoldable pub as_number : Option Native → Result ℕ
as_number (some (num n)) = ok n
as_number (some (big_int n)) = ok n
as_number (some (str s)) = if all is_digit s then ok (big s) else err schema_refused
as_number (some (flag true)) = ok 1
as_number (some (flag false)) = ok 0
as_number _ = err schema_refused

abbrev pub cmp_of : Text → Result Cmp
cmp_of tag =
    if text_eq tag (codes "Below")
    then ok below
    else if text_eq tag (codes "AtOrAbove")
    then ok at_or_above
    else err schema_refused

unfoldable pub decode_cmp : Option Native → Result Cmp
unfolding raw_variant text_eq
decode_cmp none = err bad_enum
decode_cmp (some v) = do r ← raw_variant v; cmp_of r.tag

abbrev amount_of : Text → List Native → Result Amount
amount_of tag a =
    if text_eq tag (codes "All")
    then ok everything
    else if text_eq tag (codes "Percent")
    then (do n ← as_number (get_elem? a 0); ok (percent n))
    else if text_eq tag (codes "Fixed")
    then ok (fixed (as_string (get_elem? a 0)))
    else err unknown_variant

unfoldable pub decode_amount : Option Native → Result Amount
unfolding raw_variant text_eq
decode_amount none = err bad_enum
decode_amount (some v) = do r ← raw_variant v; amount_of r.tag r.values

abbrev condition_of : Text → List Native → Result Condition
condition_of tag a =
    if text_eq tag (codes "HealthFactor")
    then (do c ← decode_cmp (get_elem? a 0); ok (health_factor c (as_string (get_elem? a 1))))
    else if text_eq tag (codes "SupplyRateGap")
    then (do
      over ← as_number (get_elem? a 0)
      under ← as_number (get_elem? a 1)
      bps ← as_number (get_elem? a 2)
      ok (supply_rate_gap over under bps))
    else if text_eq tag (codes "SupplyRate")
    then (do
      hub ← as_number (get_elem? a 0)
      c ← decode_cmp (get_elem? a 1)
      bps ← as_number (get_elem? a 2)
      ok (supply_rate hub c bps))
    else if text_eq tag (codes "FxPrice")
    then (do
      c ← decode_cmp (get_elem? a 1)
      ok (
          fx_price (as_string (get_elem? a 0)) c (as_string (get_elem? a 2))
            (as_string (get_elem? a 3))))
    else if text_eq tag (codes "IdleBalance")
    then (do c ← decode_cmp (get_elem? a 0); ok (idle_balance c (as_string (get_elem? a 1))))
    else if text_eq tag (codes "TokenPrice")
    then (do
      c ← decode_cmp (get_elem? a 1)
      ok (token_price (as_string (get_elem? a 0)) c (as_string (get_elem? a 2))))
    else if text_eq tag (codes "TokenBalance")
    then (do
      c ← decode_cmp (get_elem? a 1)
      ok (token_balance (as_string (get_elem? a 0)) c (as_string (get_elem? a 2))))
    else err unknown_variant

unfoldable pub decode_condition : Native → Result Condition
unfolding raw_variant text_eq
decode_condition v = do r ← raw_variant v; condition_of r.tag r.values

abbrev pool_action : (ℕ → Amount → Action) → List Native → Result Action
pool_action make a = do
  hub ← as_number (get_elem? a 0)
  amount ← decode_amount (get_elem? a 1)
  ok (make hub amount)

abbrev two_pool_action : (ℕ → ℕ → Amount → Action) → List Native → Result Action
two_pool_action make a = do
  from ← as_number (get_elem? a 0)
  to ← as_number (get_elem? a 1)
  amount ← decode_amount (get_elem? a 2)
  ok (make from to amount)

abbrev action_of : Text → List Native → Result Action
action_of tag a =
    if text_eq tag (codes "MoveSupply")
    then two_pool_action move_supply a
    else if text_eq tag (codes "SupplyFromWallet")
    then pool_action supply_from_wallet a
    else if text_eq tag (codes "RepayFromWallet")
    then pool_action repay_from_wallet a
    else if text_eq tag (codes "RepayWithCollateral")
    then two_pool_action repay_with_collateral a
    else if text_eq tag (codes "WithdrawToWallet")
    then pool_action withdraw_to_wallet a
    else if text_eq tag (codes "SwapFromWallet")
    then (do
      amount ← decode_amount (get_elem? a 2)
      bps ← as_number (get_elem? a 3)
      ok (swap_from_wallet (as_string (get_elem? a 0)) (as_string (get_elem? a 1)) amount bps))
    else if text_eq tag (codes "WithdrawAndSwap")
    then (do
      hub ← as_number (get_elem? a 0)
      amount ← decode_amount (get_elem? a 2)
      bps ← as_number (get_elem? a 3)
      ok (withdraw_and_swap hub (as_string (get_elem? a 1)) amount bps))
    else err unknown_variant

unfoldable pub decode_action : Option Native → Result Action
unfolding raw_variant text_eq
decode_action none = err bad_enum
decode_action (some v) = do r ← raw_variant v; action_of r.tag r.values

-- `value.map(…)` and the schema's checks on a raw property
unfoldable pub array_of : Option Native → Result (List Native)
array_of (some (arr vs)) = ok (items vs)
array_of _ = err not_an_array

unfoldable pub flag_of : Option Native → Result Bool
flag_of (some (flag b)) = ok b
flag_of _ = err schema_refused

unfoldable pub number_of : Option Native → Result ℕ
number_of (some (num n)) = ok n
number_of _ = err schema_refused

unfoldable pub decode_rule : Native → Result Rule
unfolding property array_of flag_of number_of
decode_rule (obj raw) = do
  values ← array_of (property (codes "conditions") raw)
  conditions ← traverse decode_condition values
  match_all ← flag_of (property (codes "match_all") raw)
  action ← decode_action (property (codes "action") raw)
  cooldown ← number_of (property (codes "cooldown_ledgers") raw)
  ok (record {
    conditions = conditions;
    match_all = match_all;
    action = action;
    cooldown_ledgers = cooldown;
  })
decode_rule _ = err not_an_array

-- `autopilotSchema.parse`
abbrev pub parse : Autopilot → Result Autopilot
parse ap = if autopilot_ok ap then ok ap else err schema_refused

unfoldable pub decode_native : Native → Result Autopilot
unfolding property array_of as_string
decode_native (obj raw) = do
  values ← array_of (property (codes "rules") raw)
  rules ← traverse decode_rule values
  parse (record { account_id = as_string (property (codes "account_id") raw); rules = rules })
decode_native _ = err not_an_array

unfoldable pub decode_autopilot : (sdk : Sdk) → sdk.ScVal → Result Autopilot
unfolding decode_native
decode_autopilot sdk v = decode_native (sdk.native v)
