-- ===== src/Core/Decimal.antt =====
-- The decimal texts of packages/core/src/schema.ts (`decimal`, `positive`), with JavaScript's
-- `BigInt(text)` and `String(bigint)`.
pub mod Digits
use koul.Base.{
  ℕ, zero, suc, ◌+◌, ◌-◌, ◌*◌, ◌/◌, ◌%◌, ◌<◌, ◌≡◌, refl, sym, ap, ◌∙◌, Bool, true, false, ◌&&◌, [],
  ◌∷◌, ◌++◌, append_assoc, arith, ltb, leb, if◌then◌else◌, Text, all, and-true, Bool-cases, inl,
  inr, append-nil,
}

abbrev pub is_digit : ℕ → Bool
is_digit c = leb 48 c && leb c 57

-- /^(0|[1-9][0-9]*)$/
unfoldable pub is_decimal : Text → Bool
is_decimal [] = false
is_decimal (c ∷ []) = is_digit c
is_decimal (c ∷ d ∷ s) = leb 49 c && leb c 57 && all is_digit (d ∷ s)

-- The value of the digits of a text after digits worth `acc`.
unfoldable pub big_from : ℕ → Text → ℕ
big_from acc [] = acc
big_from acc (c ∷ s) = big_from (acc * 10 + (c - 48)) s

-- `BigInt(s)` on a decimal text.
unfoldable pub big : Text → ℕ
unfolding big_from
big s = big_from 0 s

-- `decimal.refine((v) => BigInt(v) > 0n)`
unfoldable pub is_positive : Text → Bool
unfolding big is_decimal
is_positive s = is_decimal s && ltb 0 (big s)

unfoldable pub print : ℕ → ℕ → Text
print zero n = []
print (suc f) n =
    let rest = print f (n / 10) ++ (48 + n % 10) ∷ [] in if ltb n 10 then (48 + n) ∷ [] else rest

-- `String(n)`: `n + 1` rounds are more than it has digits.
unfoldable pub to_text : ℕ → Text
unfolding print
to_text n = print (suc n) n

print_fuel : (f g n : ℕ) → n < f → n < g → print f n ≡ print g n
unfolding print
print_fuel zero g n h k = absurd (omega arith)
print_fuel (suc f) zero n h k = absurd (omega arith)
print_fuel (suc f) (suc g) n h k = elim (Bool-cases (ltb n 10)) [
  | inl small ↦ rw small
  | inr big_ ↦
      rw big_
        (ap (λ t. t ++ (48 + n % 10) ∷ []) (print_fuel f g (n / 10) (ground arith) (ground arith)))
]

print-push : (a d : ℕ) → 0 < a → d < 10 → to_text (a * 10 + d) ≡ to_text a ++ (48 + d) ∷ []
unfolding to_text
print-push a d p q =
    let large : ltb (a * 10 + d) 10 ≡ false = ground arith in
    let front : (a * 10 + d) / 10 ≡ a = omega arith in
    let digit : (a * 10 + d) % 10 ≡ d = omega arith in
    rw (large, front, digit)
      (ap (λ t. t ++ (48 + d) ∷ []) (print_fuel (a * 10 + d) (suc a) a (omega arith) (omega arith)))

to_text-big_from :
    (a : ℕ) (s : Text) → 0 < a → all is_digit s ≡ true → to_text (big_from a s) ≡ to_text a ++ s
unfolding big_from
to_text-big_from a [] p h = sym (append-nil _)
to_text-big_from a (c ∷ s) p h =
    let (digit, digits) = and-true (is_digit c) (all is_digit s) h in
    let back : 48 + (c - 48) ≡ c = ground arith in
    to_text-big_from (a * 10 + (c - 48)) s (omega arith) digits
    ∙ rw (print-push a (c - 48) p (ground arith), back, append_assoc) refl

-- Writing out the value of a decimal text gives the text back.
pub to_text-big : (s : Text) → is_decimal s ≡ true → to_text (big s) ≡ s
unfolding big is_decimal
to_text-big [] h = cc
to_text-big (c ∷ []) h =
    let small : ltb (0 + (c - 48)) 10 ≡ true = ground arith in
    let back : 48 + (0 + (c - 48)) ≡ c = ground arith in unfold to_text in rw (small, back)
to_text-big (c ∷ d ∷ s) h =
    let (lead, digits) = and-true (leb 49 c && leb c 57) _ h in
    let small : ltb (0 + (c - 48)) 10 ≡ true = ground arith in
    let back : 48 + (0 + (c - 48)) ≡ c = ground arith in
    to_text-big_from (0 + (c - 48)) (d ∷ s) (ground arith) digits
    ∙ (unfold to_text in rw (small, back))
