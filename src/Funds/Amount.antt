-- ===== src/Funds/Amount.antt =====
-- packages/core/src/funds.ts, `parseAssetAmount`: an amount of seven decimals as whole units.
pub mod Laws
use koul.Base.{
  ℕ, ◌+◌, ◌*◌, ◌==◌, Bool, true, ◌&&◌, Option, none, some, [], ◌∷◌, Text, leb, length, all,
  if◌then◌else◌, or_else,
}
use koul.Core.Decimal.{is_digit, is_decimal, big}
use koul.Core.Amount.{pad_end}

pub data AmountError : Type 0 where
  bad_format not_positive : AmountError

pub data Parsed : Type 0 where
  refused : AmountError → Parsed
  units : ℕ → Parsed

abbrev pub before_dot : ℕ → Text × Option Text → Text × Option Text
before_dot c (whole, part) = (c ∷ whole, part)

-- The text to the first dot, and the text after it if there is one
unfoldable pub split_dot : Text → Text × Option Text
split_dot [] = ([], none)
split_dot (c ∷ s) =
    let rest = before_dot c (split_dot s) in if c == b'.' then ([], some s) else rest

-- (\.\d{1,7})?
abbrev pub is_part : Option Text → Bool
is_part none = true
is_part (some part) = leb 1 (length part) && leb (length part) 7 && all is_digit part

-- /^(0|[1-9]\d*)(\.\d{1,7})?$/
unfoldable pub is_amount : Text × Option Text → Bool
is_amount (whole, part) = is_decimal whole && is_part part

abbrev pub positive : ℕ → Parsed
positive n = if n == 0 then refused not_positive else units n

unfoldable pub parse_asset_amount : Text → Parsed
parse_asset_amount value =
    let (whole, part) = split_dot value in
    if is_amount (whole, part)
    then positive (big whole * 10000000 + big (pad_end 7 (or_else part [])))
    else refused bad_format
