-- ===== src/Samples.antt =====
-- Concrete numbers for the tests: hundredths, with a rounded product and quotient.
use koul.Base.{
  ℕ, ◌+◌, ◌-◌, ◌*◌, ◌/◌, ◌%◌, ◌==◌, ◌^◌, max, min, [], true, ltb, leb, pos, pos_part, Num,
}

abbrev pub hundredths : Num
hundredths = record {
  F = ℕ;
  of_int = λ i. 100 * pos_part i;
  lit = λ n k. n * 100 / 10 ^ k;
  add = λ a b. a + b;
  sub = λ a b. a - b;
  mul = λ a b. a * b / 100;
  div = λ a b. a * 100 / b;
  lt = ltb;
  round = λ a. (a + 50) / 100 * 100;
  is_finite = λ a. true;
  to_fixed = λ a k. [];
  to_string = λ a. [];
  le = leb;
  abs = λ a. a;
  min_of = min;
  max_of = max;
  infinity = 10 ^ 30;
  nan = 10 ^ 31;
  expm1 = λ a. a;
  log1p = λ a. a;
  to_int = λ a. pos (a / 100);
  is_integer = λ a. a % 100 == 0;
}
