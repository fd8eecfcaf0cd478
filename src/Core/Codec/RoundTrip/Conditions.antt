-- ===== src/Core/Codec/RoundTrip/Conditions.antt =====
-- packages/core/src/codec.ts: conditions, encoded and read back.
use koul.Base.{◌≡◌, true, arith, and-true}
use koul.Core.Decimal.{is_decimal, is_positive}
use koul.Core.Schema.{
  Condition, health_factor, supply_rate_gap, supply_rate, fx_price, idle_balance, token_price,
  token_balance, condition_ok,
}
use koul.Core.Validate.Laws.{ConditionFits}
use koul.Core.Codec.Native.{Sdk, ok, bind_split}
use koul.Core.Codec.Encode.{encode_condition, encode_address}
use koul.Core.Codec.Decode.{decode_condition}
use koul.Core.Codec.RoundTrip.Atoms.{
  ok-injective, positive-decimal, cmp_trip, i128_trip, u32_trip, u64_trip, symbol_trip,
  address_of-ok, address_trip,
}

module _ (sdk : Sdk) where
  open sdk use {
    ScVal, symbol, u32, u64, i128, vec, map_of, bool, address, native, native_symbol, native_vec,
    native_u32, native_i128, native_u64, native_address, native_map, native_bool,
  }

  pub condition_trip :
      (c : Condition) (v : ScVal)
      → condition_ok c ≡ true
      → ConditionFits c
      → encode_condition sdk c ≡ ok v
      → decode_condition (native v) ≡ ok c
  unfolding encode_condition condition_ok
  condition_trip (health_factor cmp level) v h f e = rw (← ok-injective e) (
      rw native_vec (
        rw native_symbol (
          unfold decode_condition in
          rw (cmp_trip sdk cmp, i128_trip sdk level (positive-decimal level h) f))))
  condition_trip (supply_rate_gap over under bps) v h f e = rw (← ok-injective e) (
      rw native_vec (
        rw native_symbol (
          unfold decode_condition in
          rw (
            u32_trip sdk over (ground arith),
            u32_trip sdk under (ground arith),
            u32_trip sdk bps (ground arith),
          ))))
  condition_trip (supply_rate hub cmp bps) v h f e = rw (← ok-injective e) (
      rw native_vec (
        rw native_symbol (
          unfold decode_condition in
          rw (u32_trip sdk hub (ground arith), cmp_trip sdk cmp, u32_trip sdk bps (ground arith)))))
  condition_trip (fx_price asset cmp level age) v h f e =
      let (front, age_ok) = and-true _ (is_decimal age) h in
      let (_, level_ok) = and-true _ (is_positive level) front in
      rw (← ok-injective e) (
        rw native_vec (
          rw native_symbol (
            unfold decode_condition in
            rw (
              symbol_trip sdk asset,
              cmp_trip sdk cmp,
              i128_trip sdk level (positive-decimal level level_ok) f.0,
              u64_trip sdk age age_ok f.2,
            ))))
  condition_trip (idle_balance cmp amount) v h f e = rw (← ok-injective e) (
      rw native_vec (
        rw native_symbol
          (unfold decode_condition in rw (cmp_trip sdk cmp, i128_trip sdk amount h f))))
  condition_trip (token_price token cmp level) v h f e =
      let (t, at, e') = bind_split (encode_address sdk token) _ e in
      rw (← ok-injective e') (
        rw native_vec (
          rw native_symbol (
            unfold decode_condition in
            rw (
              address_trip sdk token t (address_of-ok sdk token (address token) at),
              cmp_trip sdk cmp,
              i128_trip sdk level (positive-decimal level (and-true _ (is_positive level) h).1) f,
            ))))
  condition_trip (token_balance token cmp amount) v h f e =
      let (t, at, e') = bind_split (encode_address sdk token) _ e in
      rw (← ok-injective e') (
        rw native_vec (
          rw native_symbol (
            unfold decode_condition in
            rw (
              address_trip sdk token t (address_of-ok sdk token (address token) at),
              cmp_trip sdk cmp,
              i128_trip sdk amount ((and-true _ (is_decimal amount) h).1) f,
            ))))
