-- ===== src/Core/Decimal/Digits.antt =====
-- Decimal texts of numbers (`to_text`) read back, and how long they are.
use koul.Base.{
  ℕ, zero, suc, ◌+◌, ◌-◌, ◌*◌, ◌/◌, ◌%◌, ◌≤◌, ◌<◌, ◌≡◌, refl, Bool, true, false, ◌&&◌, [], ◌∷◌,
  ◌++◌, arith, ltb, leb, Text, all, length, length-append, Bool-cases, inl, inr,
}
use koul.Core.Decimal.{is_digit, is_decimal, big_from, big, print, to_text}

pub big_from-append :
    (acc : ℕ) (s : Text) (c : ℕ) → big_from acc (s ++ c ∷ []) ≡ big_from acc s * 10 + (c - 48)
unfolding big_from
big_from-append acc [] c = refl
big_from-append acc (d ∷ s) c = big_from-append (acc * 10 + (d - 48)) s c

big-print : (f n : ℕ) → n < f → big (print f n) ≡ n
unfolding print big
big-print zero n h = absurd (omega arith)
big-print (suc f) n h = elim (Bool-cases (ltb n 10)) [
  | inl small ↦ rw small (unfold big_from in omega arith)
  | inr large ↦
      let ih : big_from 0 (print f (n / 10)) ≡ n / 10 = big-print f (n / 10) (ground arith) in
      rw (large, big_from-append 0 (print f (n / 10)) (48 + n % 10), ih) (omega arith)
]

-- Reading a number's text gives the number.
pub big-to_text : (n : ℕ) → big (to_text n) ≡ n
unfolding to_text
big-to_text n = big-print (suc n) n (omega arith)

all-append :
    (s t : Text) → all is_digit s ≡ true → all is_digit t ≡ true → all is_digit (s ++ t) ≡ true
all-append [] t h k = k
all-append (c ∷ s) t h k = let ih = all-append s t in ground arith

digits-print : (f n : ℕ) → all is_digit (print f n) ≡ true
unfolding print
digits-print zero n = refl
digits-print (suc f) n = elim (Bool-cases (ltb n 10)) [
  | inl small ↦ rw small (ground arith)
  | inr large ↦
      rw large (
        all-append (print f (n / 10)) ((48 + n % 10) ∷ []) (digits-print f (n / 10)) (ground arith))
]

pub digits-to_text : (n : ℕ) → all is_digit (to_text n) ≡ true
unfolding to_text
digits-to_text n = digits-print (suc n) n

-- A text of digits whose first is not 0
is_lead : Text → Bool
is_lead [] = false
is_lead (c ∷ s) = leb 49 c && leb c 57 && all is_digit s

lead-append :
    (s : Text) (c : ℕ) → is_lead s ≡ true → is_digit c ≡ true → is_lead (s ++ c ∷ []) ≡ true
unfolding is_lead
lead-append [] c h k = cc
lead-append (d ∷ s) c h k = let a = all-append s (c ∷ []) in ground arith

lead-print : (f n : ℕ) → n < f → 0 < n → is_lead (print f n) ≡ true
unfolding print
lead-print zero n h p = absurd (omega arith)
lead-print (suc f) n h p = elim (Bool-cases (ltb n 10)) [
  | inl small ↦ rw small (unfold is_lead in ground arith)
  | inr large ↦ rw large (
      lead-append (print f (n / 10)) (48 + n % 10)
        (lead-print f (n / 10) (ground arith) (ground arith)) (ground arith))
]

decimal-lead : (s : Text) → is_lead s ≡ true → is_decimal s ≡ true
unfolding is_lead is_decimal
decimal-lead [] h = cc
decimal-lead (c ∷ []) h = ground arith
decimal-lead (c ∷ d ∷ s) h = h

-- A number's text has no leading zero.
pub to_text-IsDecimal : (n : ℕ) → is_decimal (to_text n) ≡ true
unfolding to_text
to_text-IsDecimal zero = unfold is_decimal in unfold print in refl
to_text-IsDecimal (suc n) =
    decimal-lead (print (suc (suc n)) (suc n))
      (lead-print (suc (suc n)) (suc n) (omega arith) (omega arith))

abbrev pub pow10 : ℕ → ℕ
pow10 zero = 1
pow10 (suc k) = 10 * pow10 k

length-print : (f k n : ℕ) → n < pow10 (suc k) → length (print f n) ≤ suc k
unfolding print
length-print zero k n h = omega arith
length-print (suc f) zero n h = let small : ltb n 10 ≡ true = ground arith in rw small (omega arith)
length-print (suc f) (suc k) n h = elim (Bool-cases (ltb n 10)) [
  | inl small ↦ rw small (omega arith)
  | inr large ↦ rw large (
      omega (
        arith,
        length-append (print f (n / 10)) ((48 + n % 10) ∷ []),
        length-print f k (n / 10) (omega arith),
      ))
]

-- A number below 10 ^ (k + 1) has at most k + 1 digits.
pub length-to_text : (k n : ℕ) → n < pow10 (suc k) → length (to_text n) ≤ suc k
unfolding to_text
length-to_text k n h = length-print (suc n) k n h

pub to_text-ne-nil : (n : ℕ) → 1 ≤ length (to_text n)
unfolding to_text print
to_text-ne-nil n = elim (Bool-cases (ltb n 10)) [
  | inl small ↦ rw small (omega arith)
  | inr large ↦ rw large (omega (arith, length-append (print n (n / 10)) ((48 + n % 10) ∷ [])))
]
