-- ===== src/Model/Editing/Laws.antt =====
-- web/lib/model/edit.ts: the count of changes agrees with equality, and a moved item stands where it was put.
use koul.Base.{
  ℕ, zero, suc, ◌≤◌, ◌<◌, ◌==◌, true, false, ◌||◌, some, List, [], ◌∷◌, map, length, get_elem?, leb,
  Num, ◌≡◌, ◌↔◌, refl, ap, arith, Bool-cases, inl, inr,
}
use koul.Model.Rules.{Rule}
use koul.Model.Editing.{
  Json, rule_key, same_keys, rules_equal, differing, count_changes, remove_at, insert_at, move_to,
}

module _ (num : Num) (json : Json num) where
  differing-same_keys :
      (a b : List (Rule num))
      → length a ≡ length b
      → (differing num (map (rule_key num json) a) (map (rule_key num json) b) ≡ 0)
        ↔ (same_keys num json a b ≡ true)
  differing-same_keys [] b h = ground arith
  differing-same_keys (r ∷ a) [] h = absurd (omega (arith, h))
  differing-same_keys (r ∷ a) (q ∷ b) h =
      let ih = differing-same_keys a b (omega (arith, h)) in ground (arith, ih)

  -- countChanges finds no change exactly in rule lists that rulesEqual takes for equal, whatever JSON.stringify
  -- gives.
  pub count_changes-rules_equal :
      (saved draft : List (Rule num))
      → (count_changes num json saved draft ≡ 0) ↔ (rules_equal num json saved draft ≡ true)
  unfolding count_changes rules_equal
  count_changes-rules_equal saved draft = elim (Bool-cases (length saved == length draft)) [
    | inl e ↦
        let ih = differing-same_keys saved draft (ground arith) in
        rw e ((λ h. ih.0 (omega (arith, h))), (λ h. ground (arith, ih.1 h)))
    | inr e ↦ rw e ((λ h. absurd (ground (arith, h))), (λ h. cc))
  ]

module _ {A : Type 0} where
  length-remove_at :
      (i : ℕ) (xs : List A) → i < length xs → suc (length (remove_at i xs)) ≡ length xs
  unfolding remove_at
  length-remove_at i [] h = absurd (omega (arith, h))
  length-remove_at zero (x ∷ xs) h = refl
  length-remove_at (suc i) (x ∷ xs) h = omega (arith, length-remove_at i xs (omega (arith, h)))

  get-insert_at :
      (i : ℕ) (a : A) (xs : List A) → i ≤ length xs → get_elem? (insert_at i a xs) i ≡ some a
  unfolding insert_at
  get-insert_at zero a xs h = refl
  get-insert_at (suc i) a [] h = absurd (omega (arith, h))
  get-insert_at (suc i) a (x ∷ xs) h = get-insert_at i a xs (omega (arith, h))

  remove-insert_at :
      (i : ℕ) (a : A) (xs : List A) → i ≤ length xs → remove_at i (insert_at i a xs) ≡ xs
  unfolding remove_at insert_at
  remove-insert_at zero a xs h = refl
  remove-insert_at (suc i) a [] h = absurd (omega (arith, h))
  remove-insert_at (suc i) a (x ∷ xs) h =
      ap (λ t. x ∷ t) (remove-insert_at i a xs (omega (arith, h)))

  get_some : (i : ℕ) (xs : List A) → i < length xs → (a : A) × (get_elem? xs i ≡ some a)
  get_some i [] h = absurd (omega (arith, h))
  get_some zero (x ∷ xs) h = (x, refl)
  get_some (suc i) (x ∷ xs) h = get_some i xs (omega (arith, h))

  -- moveTo between two places of the list puts the item at the second one, and all others keep their order.
  pub move_to_lem :
      (xs : List A) (from to : ℕ)
      → from < length xs
      → to < length xs
      → (get_elem? (move_to xs from to) to ≡ get_elem? xs from)
        × (remove_at to (move_to xs from to) ≡ remove_at from xs)
  unfolding move_to
  move_to_lem xs from to hf ht = elim (Bool-cases (from == to)) [
    | inl e ↦ let q : from ≡ to = ground arith in rw e (rw q (refl, refl))
    | inr e ↦
        let ok : (leb (length xs) from || leb (length xs) to) ≡ false = ground arith in
        let (a, found) = get_some from xs hf in
        let fits : to ≤ length (remove_at from xs) =
          omega (arith, ht, length-remove_at from xs hf) in
        rw (e, ok, found)
          (
            get-insert_at to a (remove_at from xs) fits,
            remove-insert_at to a (remove_at from xs) fits,
          )
  ]
