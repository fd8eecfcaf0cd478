-- ===== src/Core/Codec/RoundTrip/Atoms.antt =====
-- packages/core/src/codec.ts: numbers, texts, addresses and amounts, encoded and read back.
use koul.Base.{ℕ, ◌≤◌, ◌≡◌, refl, ap, true, Option, none, some, arith, Text, and-true}
use koul.Core.Decimal.{is_decimal, is_positive, big, to_text-big}
use koul.Core.Schema.{
  Cmp, below, at_or_above, Amount, everything, percent, fixed, amount_ok, uint_max, is_uint,
  is_slippage,
}
use koul.Core.Validate.{i128_max, u64_max}
use koul.Core.Validate.Laws.{AmountFits}
use koul.Core.Codec.Native.{Sdk, ok}
use koul.Core.Codec.Encode.{encode_amount, cmp_name, encode_cmp, address_of}
use koul.Core.Codec.Decode.{decode_amount, decode_cmp, as_string, as_number}

pub uint_le : (n : ℕ) → is_uint n ≡ true → n ≤ uint_max
unfolding is_uint
uint_le n h = ground arith

pub slippage_le : (n : ℕ) → is_slippage n ≡ true → n ≤ uint_max
unfolding is_slippage
slippage_le n h = ground arith

pub ok-injective : {A : Type 0} {a b : A} → ok a ≡ ok b → a ≡ b
ok-injective h = cc

pub positive-decimal : (s : Text) → is_positive s ≡ true → is_decimal s ≡ true
unfolding is_positive
positive-decimal s h = (and-true (is_decimal s) _ h).0

module _ (sdk : Sdk) where
  open sdk use {
    ScVal, symbol, u32, u64, i128, vec, map_of, bool, address, native, native_symbol, native_vec,
    native_u32, native_i128, native_u64, native_address, native_map, native_bool,
  }

  pub cmp_trip : (c : Cmp) → decode_cmp (some (native (encode_cmp sdk c))) ≡ ok c
  unfolding decode_cmp cmp_name
  cmp_trip below = simp (native_vec, native_symbol)
  cmp_trip at_or_above = simp (native_vec, native_symbol)

  pub i128_trip :
      (s : Text)
      → is_decimal s ≡ true
      → big s ≤ i128_max
      → as_string (some (native (i128 (big s)))) ≡ s
  unfolding as_string
  i128_trip s d h = rw (native_i128 (big s) h) (to_text-big s d)

  pub u32_trip : (n : ℕ) → n ≤ uint_max → as_number (some (native (u32 n))) ≡ ok n
  unfolding as_number
  u32_trip n h = rw (native_u32 n h)

  pub u64_trip :
      (s : Text)
      → is_decimal s ≡ true
      → big s ≤ u64_max
      → as_string (some (native (u64 (big s)))) ≡ s
  unfolding as_string
  u64_trip s d h = rw (native_u64 (big s) h) (to_text-big s d)

  pub symbol_trip : (s : Text) → as_string (some (native (symbol s))) ≡ s
  unfolding as_string
  symbol_trip s = rw native_symbol

  pub address_of-ok :
      (s : Text) (o : Option ScVal) {v : ScVal} → address_of sdk s o ≡ ok v → o ≡ some v
  address_of-ok s none h = cc
  address_of-ok s (some w) h = ap some (ok-injective h)

  pub address_trip : (s : Text) (v : ScVal) → address s ≡ some v → as_string (some (native v)) ≡ s
  unfolding as_string
  address_trip s v h = rw (native_address s h)

  pub amount_trip :
      (a : Amount) (least : ℕ)
      → amount_ok a ≡ true
      → AmountFits least a
      → decode_amount (some (native (encode_amount sdk a))) ≡ ok a
  unfolding encode_amount
  amount_trip everything l h f = rw native_vec (rw native_symbol (unfold decode_amount in refl))
  amount_trip (percent bps) l h f =
      rw native_vec
        (rw native_symbol (unfold decode_amount in rw (u32_trip bps (omega (arith, f.1)))))
  amount_trip (fixed value) l h f = rw native_vec (
      rw native_symbol (
        unfold decode_amount in
        rw (i128_trip value (positive-decimal value (unfold amount_ok in h)) f.1)))
