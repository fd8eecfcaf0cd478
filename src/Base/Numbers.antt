-- ===== src/Base/Numbers.antt =====
-- JavaScript's `number` where the source computes with fractions. There are no floats here: the
-- type and its operations are an interface. A theorem that needs a law of theirs names it.
use Prim.Native.Nat.{ℕ}
use mathlib.Core.Bool.{Bool}
use koul.Base.Strings.{Text}
use koul.Base.Integers.{ℤ}

pub record Num : Type 1 where
  pub F : Type 0
  -- `Number(n)`
  pub of_int : ℤ → F
  -- the literal n / 10 ^ k
  pub lit : ℕ → ℕ → F
  pub add : F → F → F
  pub sub : F → F → F
  pub mul : F → F → F
  pub div : F → F → F
  pub lt : F → F → Bool
  -- `Math.round(x)`
  pub round : F → F
  pub is_finite : F → Bool
  -- `x.toFixed(k)`, and `String(x)`
  pub to_fixed : F → ℕ → Text
  pub to_string : F → Text
  pub le : F → F → Bool
  -- `Math.abs(x)`, `Math.min(x, y)`, `Math.max(x, y)`
  pub abs : F → F
  pub min_of : F → F → F
  pub max_of : F → F → F
  pub infinity : F
  pub nan : F
  -- `Math.expm1(x)`, `Math.log1p(x)`
  pub expm1 : F → F
  pub log1p : F → F
  -- `Math.round(x)` of a finite x, as an integer
  pub to_int : F → ℤ
  -- `Number.isInteger(x)`
  pub is_integer : F → Bool
