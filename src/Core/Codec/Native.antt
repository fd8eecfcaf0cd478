-- ===== src/Core/Codec/Native.antt =====
-- What the codec uses of @stellar/stellar-sdk, as an interface: contract values, the constructors
-- that the codec calls, and `scValToNative` with its documented results on them. The native values
-- that it returns are JavaScript's.
use koul.Base.{
  ℕ, ◌≤◌, ◌≡◌, Bool, Option, none, some, List, [], ◌∷◌, map, Text, text_eq, if◌then◌else◌,
}
use koul.Core.Schema.{uint_max}
use koul.Core.Validate.{i128_max, u64_max, Invalid}

mutual
  pub data Native : Type 0 where
    str : Text → Native
    num : ℕ → Native
    big_int : ℕ → Native
    flag : Bool → Native
    arr : Items → Native
    obj : Fields → Native

  pub data Items : Type 0 where
    nil : Items
    cons : Native → Items → Items

  pub data Fields : Type 0 where
    end : Fields
    field : Text → Native → Fields → Fields

abbrev pub items : Items → List Native
items nil = []
items (cons v vs) = v ∷ items vs

abbrev pub items_of : List Native → Items
items_of [] = nil
items_of (v ∷ vs) = cons v (items_of vs)

abbrev pub fields_of : List (Text × Native) → Fields
fields_of [] = end
fields_of ((k, v) ∷ fs) = field k v (fields_of fs)

pub items-items_of : (vs : List Native) → items (items_of vs) ≡ vs
items-items_of [] = λ i. []
items-items_of (v ∷ vs) = λ i. v ∷ items-items_of vs i

-- `object[key]`
unfoldable pub property : Text → Fields → Option Native
unfolding text_eq
property k end = none
property k (field j v fs) = if text_eq j k then some v else property k fs

pub record Sdk : Type 1 where
  pub ScVal : Type 0
  pub symbol : Text → ScVal
  pub u32 : ℕ → ScVal
  pub u64 : ℕ → ScVal
  pub i128 : ℕ → ScVal
  pub vec : List ScVal → ScVal
  pub map_of : List (Text × ScVal) → ScVal
  pub bool : Bool → ScVal
  -- `new Address(s).toScVal()`; `none` where the constructor throws
  pub address : Text → Option ScVal
  pub native : ScVal → Native
  pub native_symbol : (s : Text) → native (symbol s) ≡ str s
  pub native_u32 : (n : ℕ) → n ≤ uint_max → native (u32 n) ≡ num n
  pub native_u64 : (n : ℕ) → n ≤ u64_max → native (u64 n) ≡ big_int n
  pub native_i128 : (n : ℕ) → n ≤ i128_max → native (i128 n) ≡ big_int n
  pub native_vec : (vs : List ScVal) → native (vec vs) ≡ arr (items_of (map native vs))
  pub native_map :
      (es : List (Text × ScVal))
      → native (map_of es) ≡ obj (fields_of (map (λ e. (e.0, native e.1)) es))
  pub native_bool : (b : Bool) → native (bool b) ≡ flag b
  pub native_address : (s : Text) {v : ScVal} → address s ≡ some v → native v ≡ str s

pub data CodecError : Type 0 where
  invalid_autopilot : List Invalid → CodecError
  bad_address : Text → CodecError
  bad_enum unknown_variant not_an_array schema_refused : CodecError

-- A value, or what the codec throws
pub data Result (A : Type 0) : Type 0 where
  err : CodecError → Result A
  ok : A → Result A

infixl 5 ◌>>=◌
abbrev pub ◌>>=◌ : {A B : Type 0} → Result A → (A → Result B) → Result B
err reason >>= next = err reason
ok value >>= next = next value

-- `xs.map(f)` where `f` may throw
unfoldable pub traverse : {A B : Type 0} → (A → Result B) → List A → Result (List B)
traverse f [] = ok []
traverse f (x ∷ xs) = do y ← f x; ys ← traverse f xs; ok (y ∷ ys)

-- A step that came out well had a first half that did
pub bind_split :
    {S T : Type 0} {out : T} (first : Result S) (next : S → Result T)
    → (first >>= next) ≡ ok out
    → (mid : S) × (first ≡ ok mid) × (next mid ≡ ok out)
bind_split (err reason) next whole = cc
bind_split (ok mid) next whole = (mid, λ i. ok mid, whole)
