-- ===== src/Base/Records.antt =====
-- JavaScript objects keyed by numbers: association lists, a new key at the end.
use Prim.Native.Nat.{ℕ}
use mathlib.Core.Path.{◌≡◌, refl}
use mathlib.Core.Logic.{inl, inr}
use mathlib.Core.Bool.{true, false}
use mathlib.Core.Option.{Option, none, some}
use mathlib.Core.List.{List, [], ◌∷◌}
use native.Mathlib.Omega.{arith}
use koul.Base.Tests.{if◌then◌else◌, ◌==◌, leb, Bool-cases, or_else}

abbrev pub NatMap {ℓ} : Type ℓ → Type ℓ
NatMap V = List (ℕ × V)

module _ {ℓ} {V : Type ℓ} where
  -- `m[k]`
  unfoldable pub at : ℕ → NatMap V → Option V
  at k [] = none
  at k ((j, v) ∷ m) = if j == k then some v else at k m

  -- `m[k] = f(m[k] ?? d)`
  unfoldable pub alter : ℕ → V → (V → V) → NatMap V → NatMap V
  alter k d f [] = (k, f d) ∷ []
  alter k d f ((j, v) ∷ m) = if j == k then (j, f v) ∷ m else (j, v) ∷ alter k d f m

  -- The entries whose key is not below c.
  unfoldable pub from_key : ℕ → NatMap V → NatMap V
  from_key c [] = []
  from_key c ((j, v) ∷ m) = if leb c j then (j, v) ∷ from_key c m else from_key c m

  pub at-alter :
      (k i : ℕ) (d : V) (f : V → V) (m : NatMap V)
      → at i (alter k d f m) ≡ (if k == i then some (f (or_else (at i m) d)) else at i m)
  unfolding at alter
  at-alter k i d f [] = elim (Bool-cases (k == i)) [ inl e ↦ rw e refl | inr e ↦ rw e refl ]
  at-alter k i d f ((j, v) ∷ m) = ground (arith, at-alter k i d f m)

  -- An entry at or above the bound is altered the same before and after the older ones go.
  pub from_key-alter_kept :
      (c k : ℕ) (d : V) (f : V → V) (m : NatMap V)
      → leb c k ≡ true
      → from_key c (alter k d f m) ≡ alter k d f (from_key c m)
  unfolding alter from_key
  from_key-alter_kept c k d f [] h = rw h refl
  from_key-alter_kept c k d f ((j, v) ∷ m) h =
      let ih = from_key-alter_kept c k d f m h in ground arith

  -- An entry below the bound goes with what was done to it.
  pub from_key-alter_dropped :
      (c k : ℕ) (d : V) (f : V → V) (m : NatMap V)
      → leb c k ≡ false
      → from_key c (alter k d f m) ≡ from_key c m
  unfolding alter from_key
  from_key-alter_dropped c k d f [] h = rw h refl
  from_key-alter_dropped c k d f ((j, v) ∷ m) h =
      let ih = from_key-alter_dropped c k d f m h in ground arith

  pub from_key-from_key :
      (b c : ℕ) (m : NatMap V) → leb b c ≡ true → from_key c (from_key b m) ≡ from_key c m
  unfolding from_key
  from_key-from_key b c [] h = refl
  from_key-from_key b c ((j, v) ∷ m) h = let ih = from_key-from_key b c m h in ground arith
