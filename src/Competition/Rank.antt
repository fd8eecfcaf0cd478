-- ===== src/Competition/Rank.antt =====
-- packages/core/src/competition.ts, `rank`: the order of the leaderboard and the shared ranks. The
-- sort is stable, as JavaScript's is. Returns are compared and rounded by the interface.
pub mod Laws
use koul.Base.{
  ℕ, suc, ◌+◌, Bool, true, false, not, ◌&&◌, Option, none, some, List, [], ◌∷◌, leb, if◌then◌else◌,
  ℤ, le_ℤ,
}

-- How `rank` reads a return: `lt`, and `Math.round(pct * 10_000)`, whose ten-thousandth is the unit
-- in which ties are found.
pub record Returns : Type 1 where
  pub F : Type 0
  pub lt : F → F → Bool
  pub rounded : F → ℤ

module _ (ret : Returns) where
  open ret use {F, lt, rounded}

  pub record Row : Type 0 where
    pub return_pct : Option F
    pub flagged : Bool

  -- `(b.returnPct ?? -Infinity) - (a.returnPct ?? -Infinity) > 0`: b goes before a
  unfoldable pub goes_before : Option F → Option F → Bool
  goes_before none a = false
  goes_before (some b) none = true
  goes_before (some b) (some a) = lt a b

  unfoldable pub insert_row : Row → List Row → List Row
  insert_row r [] = r ∷ []
  insert_row r (s ∷ ss) =
      if goes_before s.return_pct r.return_pct then s ∷ insert_row r ss else r ∷ s ∷ ss

  unfoldable pub sort_rows : List Row → List Row
  sort_rows [] = []
  sort_rows (r ∷ rs) = insert_row r (sort_rows rs)

  pub record Ranked : Type 0 where
    pub row : Row
    pub rank : Option ℕ

  -- `rounded === last`
  abbrev pub is_last : Option ℤ → ℤ → Bool
  is_last none z = false
  is_last (some y) z = le_ℤ y z && le_ℤ z y

  -- The return a row is ranked by: none for a flagged row and for one with no return.
  abbrev pub counted_pct : Row → Option F
  counted_pct r = if r.flagged then none else r.return_pct

  -- `last`, `lastRank` and `counted` are the loop's variables.
  unfoldable pub rank_from : Option ℤ → ℕ → ℕ → List Row → List Ranked
  rank_from last last_rank counted [] = []
  rank_from last last_rank counted (r ∷ rs) = elim (counted_pct r) [
    | none ↦ record { row = r; rank = none } ∷ rank_from last last_rank counted rs
    | some pct ↦
        let here = if is_last last (rounded pct) then last_rank else counted + 1 in
        record { row = r; rank = some here } ∷ rank_from (some (rounded pct)) here (counted + 1) rs
  ]

  unfoldable pub rank : List Row → List Ranked
  rank rows = rank_from none 0 0 (sort_rows rows)
