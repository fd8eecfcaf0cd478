-- ===== src/Model/Editing.antt =====
-- web/lib/model/edit.ts: editing a list of rules. JSON.stringify of what a row shows is the parameter `json`.
pub mod Laws
use koul.Base.{
  ℕ, zero, suc, ◌+◌, ◌-◌, ◌==◌, Bool, true, false, not, ◌&&◌, ◌||◌, Option, none, some, List, [],
  ◌∷◌, map, length, get_elem?, leb, if◌then◌else◌, Text, text_eq, Num,
}
use koul.Model.Rules.{Rule, Condition, Action}

module _ (num : Num) where
  abbrev pub Json : Type 0
  Json = (match_all enabled : Bool) (cooldown_sec : ℕ) → Action num → List (Condition num) → Text

  abbrev pub rule_key : Json → Rule num → Text
  rule_key json r = json r.match_all r.enabled r.cooldown_sec r.action r.conditions

  -- `a.every((r, i) => ...)`, b being as long
  abbrev pub same_keys : Json → List (Rule num) → List (Rule num) → Bool
  same_keys json [] b = true
  same_keys json (r ∷ a) [] = false
  same_keys json (r ∷ a) (q ∷ b) = text_eq (rule_key json r) (rule_key json q) && same_keys json a b

  unfoldable pub rules_equal : Json → List (Rule num) → List (Rule num) → Bool
  rules_equal json a b = if length a == length b then same_keys json a b else false

  -- The positions before the end of both that differ
  abbrev pub differing : List Text → List Text → ℕ
  differing [] b = 0
  differing (k ∷ a) [] = 0
  differing (k ∷ a) (l ∷ b) =
      let rest = differing a b in if not (text_eq k l) then suc rest else rest

  -- `Math.abs(a.length - b.length)` and the positions
  unfoldable pub count_changes : Json → (saved draft : List (Rule num)) → ℕ
  count_changes json saved draft =
      (length saved - length draft)
      + (length draft - length saved)
      + differing (map (rule_key json) saved) (map (rule_key json) draft)

pub data Direction : Type 0 where
  up down : Direction

module _ {A : Type 0} where
  -- What stands at i and after it, the other way round
  unfoldable pub swap_next : ℕ → List A → List A
  swap_next i [] = []
  swap_next i (x ∷ []) = x ∷ []
  swap_next zero (x ∷ y ∷ xs) = y ∷ x ∷ xs
  swap_next (suc i) (x ∷ y ∷ xs) = x ∷ swap_next i (y ∷ xs)

  -- `from` is an index of the list, as it is where the pages call it.
  unfoldable pub move_item : List A → ℕ → Direction → List A
  move_item xs zero up = xs
  move_item xs (suc i) up = if leb (length xs) i then xs else swap_next i xs
  move_item xs i down = if leb (length xs) (suc i) then xs else swap_next i xs

  -- `list.splice(i, 1)`: the list then
  unfoldable pub remove_at : ℕ → List A → List A
  remove_at i [] = []
  remove_at zero (x ∷ xs) = xs
  remove_at (suc i) (x ∷ xs) = x ∷ remove_at i xs

  -- `list.splice(i, 0, a)`
  unfoldable pub insert_at : ℕ → A → List A → List A
  insert_at zero a xs = a ∷ xs
  insert_at (suc i) a [] = a ∷ []
  insert_at (suc i) a (x ∷ xs) = x ∷ insert_at i a xs

  abbrev pub put_at : ℕ → Option A → List A → List A
  put_at i none xs = xs
  put_at i (some a) xs = insert_at i a xs

  unfoldable pub move_to : List A → (from to : ℕ) → List A
  move_to xs from to =
      if (from == to) || leb (length xs) from || leb (length xs) to
      then xs
      else put_at to (get_elem? xs from) (remove_at from xs)
