-- ===== src/Core/Codec/RoundTrip/Actions.antt =====
-- packages/core/src/codec.ts: actions, encoded and read back.
use koul.Base.{◌≡◌, true, ◌&&◌, some, arith, and-true}
use koul.Core.Schema.{
  Action, move_supply, supply_from_wallet, repay_from_wallet, repay_with_collateral,
  withdraw_to_wallet, swap_from_wallet, withdraw_and_swap, action_ok, amount_ok, is_uint,
  is_slippage, is_contract_id,
}
use koul.Core.Validate.Laws.{ActionFits}
use koul.Core.Codec.Native.{Sdk, ok, bind_split}
use koul.Core.Codec.Encode.{encode_action, encode_address}
use koul.Core.Codec.Decode.{decode_action}
use koul.Core.Codec.RoundTrip.Atoms.{
  uint_le, slippage_le, ok-injective, u32_trip, address_of-ok, address_trip, amount_trip,
}

module _ (sdk : Sdk) where
  open sdk use {
    ScVal, symbol, u32, u64, i128, vec, map_of, bool, address, native, native_symbol, native_vec,
    native_u32, native_i128, native_u64, native_address, native_map, native_bool,
  }

  pub action_trip :
      (a : Action) (v : ScVal)
      → action_ok a ≡ true
      → ActionFits a
      → encode_action sdk a ≡ ok v
      → decode_action (some (native v)) ≡ ok a
  unfolding encode_action action_ok
  action_trip (move_supply from to a) v h f e =
      let (hubs, a_ok) = and-true (is_uint from && is_uint to) (amount_ok a) h in
      rw (← ok-injective e) (
        rw native_vec (
          rw native_symbol (
            unfold decode_action in
            rw (
              u32_trip sdk from (ground arith),
              u32_trip sdk to (ground arith),
              amount_trip sdk a _ a_ok f.1,
            ))))
  action_trip (supply_from_wallet hub a) v h f e =
      let (hub_ok, a_ok) = and-true (is_uint hub) (amount_ok a) h in
      rw (← ok-injective e) (
        rw native_vec (
          rw native_symbol (
            unfold decode_action in
            rw (u32_trip sdk hub (uint_le hub hub_ok), amount_trip sdk a _ a_ok f))))
  action_trip (repay_from_wallet hub a) v h f e =
      let (hub_ok, a_ok) = and-true (is_uint hub) (amount_ok a) h in
      rw (← ok-injective e) (
        rw native_vec (
          rw native_symbol (
            unfold decode_action in
            rw (u32_trip sdk hub (uint_le hub hub_ok), amount_trip sdk a _ a_ok f))))
  action_trip (repay_with_collateral from to a) v h f e =
      let (hubs, a_ok) = and-true (is_uint from && is_uint to) (amount_ok a) h in
      rw (← ok-injective e) (
        rw native_vec (
          rw native_symbol (
            unfold decode_action in
            rw (
              u32_trip sdk from (ground arith),
              u32_trip sdk to (ground arith),
              amount_trip sdk a _ a_ok f,
            ))))
  action_trip (withdraw_to_wallet hub a) v h f e =
      let (hub_ok, a_ok) = and-true (is_uint hub) (amount_ok a) h in
      rw (← ok-injective e) (
        rw native_vec (
          rw native_symbol (
            unfold decode_action in
            rw (u32_trip sdk hub (uint_le hub hub_ok), amount_trip sdk a _ a_ok f))))
  action_trip (swap_from_wallet tin tout a bps) v h f e =
      let (i, at_in, e1) = bind_split (encode_address sdk tin) _ e in
      let (o, at_out, e2) = bind_split (encode_address sdk tout) _ e1 in
      let (front, bps_ok) = and-true _ (is_slippage bps) h in
      let (_, a_ok) = and-true _ (amount_ok a) front in
      rw (← ok-injective e2) (
        rw native_vec (
          rw native_symbol (
            unfold decode_action in
            rw (
              amount_trip sdk a _ a_ok f.1,
              u32_trip sdk bps (slippage_le bps bps_ok),
              address_trip sdk tin i (address_of-ok sdk tin (address tin) at_in),
              address_trip sdk tout o (address_of-ok sdk tout (address tout) at_out),
            ))))
  action_trip (withdraw_and_swap hub tout a bps) v h f e =
      let (o, at_out, e1) = bind_split (encode_address sdk tout) _ e in
      let (front, bps_ok) = and-true _ (is_slippage bps) h in
      let (head, a_ok) = and-true (is_uint hub && is_contract_id tout) (amount_ok a) front in
      let (hub_ok, _) = and-true (is_uint hub) _ head in
      rw (← ok-injective e1) (
        rw native_vec (
          rw native_symbol (
            unfold decode_action in
            rw (
              u32_trip sdk hub (uint_le hub hub_ok),
              amount_trip sdk a _ a_ok f,
              u32_trip sdk bps (slippage_le bps bps_ok),
              address_trip sdk tout o (address_of-ok sdk tout (address tout) at_out),
            ))))
