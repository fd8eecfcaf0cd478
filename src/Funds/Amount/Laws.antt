-- ===== src/Funds/Amount/Laws.antt =====
-- packages/core/src/funds.ts: amounts written by `formatAssetAmount` are read back by `parseAssetAmount`.
use koul.Base.{
  ℕ, zero, suc, ◌+◌, ◌-◌, ◌*◌, ◌/◌, ◌%◌, ◌≤◌, ◌<◌, ◌==◌, ◌≡◌, refl, ap, ◌∙◌, true, false, some, [],
  ◌∷◌, ◌++◌, arith, Text, all, length, length-append, append-nil,
}
use koul.Core.Decimal.{is_digit, big_from, big, to_text}
use koul.Core.Decimal.Digits.{big-to_text, digits-to_text, to_text-IsDecimal, length-to_text}
use koul.Core.Amount.{zeros, pad_start, pad_end}
use koul.Funds.State.{format_asset_amount}
use koul.Funds.Amount.{units, before_dot, split_dot, is_part, is_amount, parse_asset_amount}

-- Digits have no dot in them.
split_dot-digits : (s t : Text) → all is_digit s ≡ true → split_dot (s ++ b'.' ∷ t) ≡ (s, some t)
unfolding split_dot
split_dot-digits [] t h = refl
split_dot-digits (c ∷ s) t h =
    let other : (c == b'.') ≡ false = ground arith in
    rw other (ap (before_dot c) (split_dot-digits s t (ground arith)))

length-zeros : (n : ℕ) → length (zeros n) ≡ n
length-zeros zero = refl
length-zeros (suc n) = ap suc (length-zeros n)

digits-zeros : (n : ℕ) (s : Text) → all is_digit s ≡ true → all is_digit (zeros n ++ s) ≡ true
digits-zeros zero s h = h
digits-zeros (suc n) s h = let ih = digits-zeros n s h in ground arith

big-zeros : (n : ℕ) (s : Text) → big_from 0 (zeros n ++ s) ≡ big_from 0 s
unfolding big_from
big-zeros zero s = refl
big-zeros (suc n) s = big-zeros n s

module _ (n : ℕ) (h : n < 10000000) where
  abbrev part : Text
  part = pad_start 7 (to_text n)

  length-part : length part ≡ 7
  length-part =
      let short : length (to_text n) ≤ 7 = length-to_text 6 n (omega arith) in
      omega (
        arith,
        length-append (zeros (7 - length (to_text n))) (to_text n),
        length-zeros (7 - length (to_text n)),
      )

  part-IsPart : is_part (some part) ≡ true
  part-IsPart =
      rw (length-part, digits-zeros (7 - length (to_text n)) (to_text n) (digits-to_text n)) refl

  big-part : big (pad_end 7 part) ≡ n
  unfolding big
  big-part =
      rw (length-part, append-nil part)
        (big-zeros (7 - length (to_text n)) (to_text n) ∙ big-to_text n)

-- A positive number of units, written with seven decimals, is read back as itself.
pub parse-format : (n : ℕ) → 0 < n → parse_asset_amount (format_asset_amount n) ≡ units n
unfolding parse_asset_amount format_asset_amount is_amount
parse-format n h =
    let whole = to_text (n / 10000000) in
    let small : n % 10000000 < 10000000 = omega arith in
    let whole_units : n / 10000000 * 10000000 + n % 10000000 ≡ n = omega arith in
    let some_units : (n == 0) ≡ false = ground arith in
    rw
      (
        split_dot-digits whole (part (n % 10000000) small) (digits-to_text (n / 10000000)),
        to_text-IsDecimal (n / 10000000),
        part-IsPart (n % 10000000) small,
        big-to_text (n / 10000000),
        big-part (n % 10000000) small,
        whole_units,
        some_units,
      )
      refl
