-- ===== src/Core/Tests.antt =====
-- The laws of the core on concrete autopilots, with an SDK whose contract values are native ones.
use koul.Base.{
  ◌≤◌, ◌≡◌, refl, ap, ◌↔◌, ◌⊎◌, inl, true, none, some, List, [], ◌∷◌, map, Text, codes, text_eq,
  member, All, In, arith,
}
use koul.Core.Swap.{SwapHop}
use koul.Core.Decimal.{big, is_decimal, to_text, to_text-big}
use koul.Core.Schema.{repay_from_wallet, everything}
use koul.Core.Validate.{validate, u64_max}
use koul.Core.Validate.Laws.{Fits, validate_iff}
use koul.Core.Permissions.Defs.{
  Call, Permissions, Contracts, ok, call, actions_of, calls, recipients, descriptions_of, granted,
  permissions_for, AgentParams, grant_covers, covers, withdraws, supplies, repays, swap_inputs,
  unique, unique_from,
}
use koul.Core.Permissions.Calls.{calls_of, paid_by}
use koul.Core.Permissions.Actions.{Made}
use koul.Core.Permissions.Exact.{permissions_for-exact}
use koul.Core.Permissions.Grant.{grant_covers_sound}
use koul.Core.Templates.{lira_shield, health_guard, templates_accepted}
use koul.Core.Codec.Native.{
  Native, str, num, big_int, flag, arr, obj, items_of, fields_of, Sdk, ok as coded,
}
use koul.Core.Codec.Encode.{encode_autopilot}
use koul.Core.Codec.Decode.{decode_autopilot}
use koul.Core.Codec.RoundTrip.{decode-encode}
use koul.Core.Codec.Total.{HasAddresses, encode_total}

map-id : (vs : List Native) → vs ≡ map (λ v. v) vs
map-id [] = refl
map-id (v ∷ vs) = ap (λ l. v ∷ l) (map-id vs)

map-pairs : (es : List (Text × Native)) → es ≡ map (λ e. (e.0, e.1)) es
map-pairs [] = refl
map-pairs (e ∷ es) = ap (λ l. e ∷ l) (map-pairs es)

str_of : (s : Text) {v : Native} → some (str s) ≡ some v → v ≡ str s
str_of s h = cc

abbrev native_sdk : Sdk
native_sdk = record {
  ScVal = Native;
  symbol = str;
  u32 = num;
  u64 = big_int;
  i128 = big_int;
  vec = λ vs. arr (items_of vs);
  map_of = λ es. obj (fields_of es);
  bool = flag;
  address = λ s. some (str s);
  native = λ v. v;
  native_symbol = λ s. refl;
  native_u32 = λ n h. refl;
  native_u64 = λ n h. refl;
  native_i128 = λ n h. refl;
  native_vec = λ vs. ap (λ l. arr (items_of l)) (map-id vs);
  native_map = λ es. ap (λ l. obj (fields_of l)) (map-pairs es);
  native_bool = λ b. refl;
  native_address = str_of;
}

abbrev seven : Text
seven = codes "7"

seven_decimal : is_decimal seven ≡ true
unfolding is_decimal
seven_decimal = refl

seven_fits : big seven ≤ u64_max
unfolding big
seven_fits = omega arith

to_text-big_example : to_text (big (codes "120")) ≡ codes "120"
to_text-big_example = to_text-big (codes "120") (unfold is_decimal in refl)

guard_valid : validate (health_guard seven) ≡ []
guard_valid = (templates_accepted seven seven_decimal seven_fits).2

validate_iff_example : (validate (health_guard seven) ≡ []) ↔ Fits (health_guard seven)
validate_iff_example = validate_iff (health_guard seven)

guard_addresses : All (HasAddresses native_sdk) (health_guard seven).rules
unfolding health_guard lira_shield
guard_addresses = (((tt, tt), tt), tt)

encode_total_example :
    (v : Native) × (encode_autopilot native_sdk (health_guard seven) ≡ coded v)
    × (decode_autopilot native_sdk v ≡ coded (health_guard seven))
encode_total_example = encode_total native_sdk (health_guard seven) guard_valid guard_addresses

abbrev guard_encoded : (v : Native) × (encode_autopilot native_sdk (health_guard seven) ≡ coded v)
guard_encoded =
    let (v, e, d) = encode_total native_sdk (health_guard seven) guard_valid guard_addresses in
    (v, e)

decode-encode_example : decode_autopilot native_sdk guard_encoded.0 ≡ coded (health_guard seven)
decode-encode_example =
    decode-encode native_sdk (health_guard seven) guard_encoded.0 guard_encoded.1

abbrev contracts : Contracts
contracts = record {
  router = codes "R";
  controller = codes "C";
  pool = codes "P";
  usdc = codes "U";
  aggregator = none;
}

abbrev needed : Permissions
needed = record {
  allowed_calls =
      call (codes "R") "tick" ∷ call (codes "C") "repay" ∷ call (codes "U") "transfer" ∷ [];
  transfer_recipients = codes "P" ∷ [];
  descriptions =
      "Check and run the first eligible autopilot rule" ∷ "Repay debt on your own XOXNO position"
      ∷ "Transfer USDC from your wallet to the XOXNO pool" ∷ [];
}

guard_needs : permissions_for (health_guard seven) contracts ≡ ok needed
unfolding permissions_for granted calls recipients descriptions_of withdraws supplies repays
    swap_inputs unique unique_from health_guard lira_shield
guard_needs = rw guard_valid refl

permissions_for-exact_example : In (call (codes "C") "repay") needed.allowed_calls ↔ (
    (call (codes "C") "repay" ≡ call contracts.router "tick")
    ⊎ Made contracts (actions_of (health_guard seven).rules) (call (codes "C") "repay"))
permissions_for-exact_example =
    permissions_for-exact (health_guard seven) contracts needed (call (codes "C") "repay")
      guard_needs

abbrev agent : AgentParams
agent = record {
  account_id = seven;
  allowed_calls = needed.allowed_calls;
  transfer_recipients = needed.transfer_recipients;
}

agent_covers : grant_covers (some agent) (health_guard seven) contracts ≡ ok true
unfolding grant_covers health_guard lira_shield covers text_eq member
agent_covers = rw (guard_valid, guard_needs) refl

guard_acts : In (repay_from_wallet 1 everything) (actions_of (health_guard seven).rules)
unfolding health_guard lira_shield
guard_acts = inl refl

grant_covers_sound_example :
    (agent.account_id ≡ (health_guard seven).account_id)
    × ((k : Call)
        → In k (calls_of contracts (repay_from_wallet 1 everything))
        → In k agent.allowed_calls)
    × ((r : Text)
        → In r (paid_by contracts (repay_from_wallet 1 everything))
        → In r agent.transfer_recipients)
grant_covers_sound_example =
    grant_covers_sound agent (health_guard seven) contracts (repay_from_wallet 1 everything)
      (refl, (refl, (refl, tt))) (refl, (refl, tt)) guard_acts agent_covers

abbrev two_hops : List SwapHop
two_hops =
    record {
      dex = codes "Soroswap";
      pool = codes "P1";
      token_from = codes "A";
      token_to = codes "B";
    }
    ∷ record {
      dex = codes "Comet";
      pool = codes "P2";
      token_from = codes "B";
      token_to = codes "C";
    }
    ∷ []
