-- ===== src/Model/Engine/Laws.antt =====
-- web/lib/landing/engine.ts, `walk`: the first matching rule that has something to move.
use koul.Base.{
  ℕ, suc, Bool, not, ◌&&◌, Option, none, some, List, [], ◌∷◌, ◌++◌, is_some, if◌then◌else◌, Num,
  ◌≡◌, refl, ◌∙◌, Bool-cases, inl, inr, append_assoc, append-nil,
}
use koul.Model.Rules.{Rule}
use koul.Model.Engine.{World, Walk, matches, too_small, visit, walk_from, walk}

-- The places, counted from i, of the elements that pass a test.
unfoldable pub places : {A : Type 0} → (A → Bool) → ℕ → List A → List ℕ
places p i [] = []
places p i (x ∷ xs) = let rest = places p (suc i) xs in if p x then i ∷ rest else rest

abbrev pub first_of : Option ℕ → List ℕ → Option ℕ
first_of (some i) is = some i
first_of none [] = none
first_of none (i ∷ is) = some i

first_of-nil : (o : Option ℕ) → first_of o [] ≡ o
first_of-nil none = refl
first_of-nil (some i) = refl

first_of-visit :
    (o : Option ℕ) (i : ℕ) (is : List ℕ)
    → first_of (if is_some o then o else some i) is ≡ first_of o (i ∷ is)
first_of-visit none i is = refl
first_of-visit (some j) i is = refl

module _ (num : Num) (w : World num) where
  abbrev pub passes : Rule num → Bool
  passes r = matches num w r && not (too_small num w r)

  abbrev pub passed_by : Rule num → Bool
  passed_by r = matches num w r && too_small num w r

  walk_from_lem :
      (rs : List (Rule num)) (i : ℕ) (acc : Walk num)
      → walk_from num w i acc rs ≡ record {
        index = first_of acc.index (places passes i rs);
        matched = acc.matched ++ places (matches num w) i rs;
        skipped = acc.skipped ++ places passed_by i rs;
      }
  unfolding walk_from places
  walk_from_lem [] i acc =
      rw (append-nil acc.matched, append-nil acc.skipped, first_of-nil acc.index) refl
  walk_from_lem (r ∷ rs) i acc =
      let ih = walk_from_lem rs (suc i) (visit num w r i acc) in
      elim (Bool-cases (matches num w r)) [
        | inl m ↦ elim (Bool-cases (too_small num w r)) [
          | inl t ↦
              let ih' = rw (m, t) at ih in
              rw (m, t)
                (ih'
                  ∙ rw
                      (
                        append_assoc acc.matched (i ∷ []) (places (matches num w) (suc i) rs),
                        append_assoc acc.skipped (i ∷ []) (places passed_by (suc i) rs),
                      )
                      refl)
          | inr t ↦
              let ih' = rw (m, t) at ih in
              rw (m, t)
                (ih'
                  ∙ rw
                      (
                        append_assoc acc.matched (i ∷ []) (places (matches num w) (suc i) rs),
                        first_of-visit acc.index i (places passes (suc i) rs),
                      )
                      refl)
        ]
        | inr m ↦ let ih' = rw m at ih in rw m ih'
      ]

  -- The walk's index is the first rule that matches and has at least the least amount to move; `matched`
  -- has the places of all rules that match, and `skipped` of those among them that are below it.
  pub walk_lem :
      (rules : List (Rule num))
      → walk num rules w ≡ record {
        index = first_of none (places passes 0 rules);
        matched = places (matches num w) 0 rules;
        skipped = places passed_by 0 rules;
      }
  unfolding walk
  walk_lem rules = walk_from_lem rules 0 (record { index = none; matched = []; skipped = [] })
