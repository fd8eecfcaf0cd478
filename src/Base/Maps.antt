-- ===== src/Base/Maps.antt =====
-- JavaScript's `Map` and `Record` with text keys: an association list in order of insertion.
use mathlib.Core.Path.{◌≡◌, refl, sym, ◌∙◌, subst}
use mathlib.Core.Logic.{inl, inr}
use mathlib.Core.Option.{Option, none, some}
use mathlib.Core.List.{List, [], ◌∷◌}
use native.Mathlib.Omega.{arith}
use koul.Base.Tests.{if◌then◌else◌, Bool-cases}
use koul.Base.Lists.{All}
use koul.Base.Strings.{Text, text_eq, text_eq_iff}

abbrev pub Assoc {ℓ} : Type ℓ → Type ℓ
Assoc V = List (Text × V)

module _ {ℓ} {V : Type ℓ} where
  -- `m.get(k)`, `m[k]`
  unfoldable pub get : Text → Assoc V → Option V
  get k [] = none
  get k ((j, v) ∷ m) = if text_eq j k then some v else get k m

  -- `m.set(k, v)`: a new key goes to the end.
  unfoldable pub put : Text → V → Assoc V → Assoc V
  put k v [] = (k, v) ∷ []
  put k v ((j, w) ∷ m) = if text_eq j k then (j, v) ∷ m else (j, w) ∷ put k v m

  -- `m.delete(k)`
  unfoldable pub remove : Text → Assoc V → Assoc V
  remove k [] = []
  remove k ((j, v) ∷ m) = let rest = remove k m in if text_eq j k then rest else (j, v) ∷ rest

  pub get-remove :
      (k j : Text) (m : Assoc V) → get j (remove k m) ≡ (if text_eq k j then none else get j m)
  unfolding get remove
  get-remove k j [] = elim (Bool-cases (text_eq k j)) [ inl e ↦ rw e refl | inr e ↦ rw e refl ]
  get-remove k j ((i, w) ∷ m) =
      ground (arith, get-remove k j m, text_eq_iff k j, text_eq_iff i k, text_eq_iff i j)

  pub get-put :
      (k j : Text) (v : V) (m : Assoc V)
      → get j (put k v m) ≡ (if text_eq k j then some v else get j m)
  unfolding get put
  get-put k j v [] = refl
  get-put k j v ((i, w) ∷ m) =
      ground (arith, get-put k j v m, text_eq_iff k j, text_eq_iff i k, text_eq_iff i j)

  pub get-put_same : (k : Text) (v : V) (m : Assoc V) → get k (put k v m) ≡ some v
  get-put_same k v m = let e = (text_eq_iff k k).1 refl in get-put k k v m ∙ rw e refl

  -- A property of every entry holds of the entry that a key has.
  pub All-get :
      (P : Text → V → Type 0) (k : Text) (v : V) (m : Assoc V)
      → All (λ e. P e.0 e.1) m
      → get k m ≡ some v
      → P k v
  unfolding get
  All-get P k v [] h g = cc
  All-get P k v ((j, w) ∷ m) (h, hs) g = elim (Bool-cases (text_eq j k)) [
    | inl s ↦
        let g' : some w ≡ some v = rw s at g in
        let e : w ≡ v = cc in subst (λ x. P x v) ((text_eq_iff j k).0 s) (subst (P j) e h)
    | inr s ↦ All-get P k v m hs (rw s at g)
  ]

  pub All-put :
      (P : Text → V → Type 0) (k : Text) (v : V) (m : Assoc V)
      → All (λ e. P e.0 e.1) m
      → P k v
      → All (λ e. P e.0 e.1) (put k v m)
  unfolding put
  All-put P k v [] h p = (p, tt)
  All-put P k v ((j, w) ∷ m) (h, hs) p = elim (Bool-cases (text_eq j k)) [
    | inl s ↦ rw s (subst (λ x. P x v) (sym ((text_eq_iff j k).0 s)) p, hs)
    | inr s ↦ rw s (h, All-put P k v m hs p)
  ]
