-- ===== src/Competition/Rank/Laws/Steps.antt =====
-- packages/core/src/competition.ts: what the loop of `rank` knows of the rows behind it and those to come.
use koul.Base.{
  ℕ, suc, ◌+◌, Bool, true, false, Option, none, some, List, [], ◌∷◌, if◌then◌else◌, ℤ, le_ℤ, ◌≡◌,
  refl, ap, ◌∙◌, arith, inl, inr, All, Bool-cases, map_option,
}
use koul.Competition.Rank.{
  Returns, Row, goes_before, insert_row, sort_rows, Ranked, is_last, counted_pct,
}

module _ (ret : Returns) where
  open ret use {F, lt, rounded}

  -- The rounded return of a row that is counted.
  abbrev pub level : Row ret → Option ℤ
  level r = map_option rounded (counted_pct ret r)

  abbrev pub above : ℤ → Option ℤ → ℕ
  above z none = 0
  above z (some y) = if le_ℤ y z then 0 else 1

  -- The counted rows whose rounded return is above z.
  unfoldable pub ahead : ℤ → List (Row ret) → ℕ
  ahead z [] = 0
  ahead z (r ∷ rs) = above z (level r) + ahead z rs

  abbrev pub place_of : (ℤ → ℕ) → Option ℤ → Option ℕ
  place_of above_count none = none
  place_of above_count (some z) = some (1 + above_count z)

  -- One more than the number of counted rows ahead; none for a flagged row or one with no return.
  unfoldable pub place : List (Row ret) → Row ret → Option ℕ
  place rows r = place_of (λ z. ahead z rows) (level r)

  abbrev pub placed : List (Row ret) → Row ret → Ranked ret
  placed rows r = record { row = r; rank = place rows r }

  pub ahead-insert_row :
      (z : ℤ) (r : Row ret) (rs : List (Row ret))
      → ahead z (insert_row ret r rs) ≡ above z (level r) + ahead z rs
  unfolding ahead insert_row
  ahead-insert_row z r [] = refl
  ahead-insert_row z r (s ∷ ss) = elim (Bool-cases (goes_before ret s.return_pct r.return_pct)) [
    | inl e ↦ rw e (omega (arith, ahead-insert_row z r ss))
    | inr e ↦ rw e refl
  ]

  pub ahead-sort_rows : (z : ℤ) (rs : List (Row ret)) → ahead z (sort_rows ret rs) ≡ ahead z rs
  unfolding ahead sort_rows
  ahead-sort_rows z [] = refl
  ahead-sort_rows z (r ∷ rs) =
      ahead-insert_row z r (sort_rows ret rs)
      ∙ ap (λ n. above z (level r) + n) (ahead-sort_rows z rs)

  -- No row is above an earlier one: a missing return is below every other.
  abbrev pub Covers : Option F → Option F → Type 0
  Covers a none = Unit
  Covers none (some b) = ⊥
  Covers (some a) (some b) = le_ℤ (rounded b) (rounded a) ≡ true

  abbrev pub CoversAll : Option F → List (Row ret) → Type 0
  CoversAll a = All (λ s. Covers a s.return_pct)

  abbrev pub IsSorted : List (Row ret) → Type 0
  IsSorted [] = Unit
  IsSorted (r ∷ rs) = CoversAll r.return_pct rs × IsSorted rs

  pub Covers-trans : (a b c : Option F) → Covers a b → Covers b c → Covers a c
  Covers-trans a b none h k = tt
  Covers-trans a none (some c) h k = absurd k
  Covers-trans none (some b) (some c) h k = absurd h
  Covers-trans (some a) (some b) (some c) h k = ground arith

  pub CoversAll-trans :
      (a b : Option F) (rs : List (Row ret)) → Covers a b → CoversAll b rs → CoversAll a rs
  CoversAll-trans a b [] h k = tt
  CoversAll-trans a b (r ∷ rs) h (k, ks) =
      (Covers-trans a b r.return_pct h k, CoversAll-trans a b rs h ks)

  pub CoversAll-insert_row :
      (a : Option F) (r : Row ret) (rs : List (Row ret))
      → Covers a r.return_pct
      → CoversAll a rs
      → CoversAll a (insert_row ret r rs)
  unfolding insert_row
  CoversAll-insert_row a r [] h k = (h, tt)
  CoversAll-insert_row a r (s ∷ ss) h (k, ks) =
      elim (Bool-cases (goes_before ret s.return_pct r.return_pct)) [
        | inl e ↦ rw e (k, CoversAll-insert_row a r ss h ks)
        | inr e ↦ rw e (h, (k, ks))
      ]

  -- What the loop's variables say of the rows behind it, `before` being how many of them are above.
  abbrev pub Reaches : Option ℤ → ℤ → Type 0
  Reaches none z = Unit
  Reaches (some y) z = le_ℤ z y ≡ true

  abbrev pub Tracks : Option ℤ → ℕ → ℕ → (ℤ → ℕ) → Type 0
  Tracks last last_rank counted before =
      (z : ℤ)
      → Reaches last z
      → suc (before z) ≡ (if is_last ret last z then last_rank else counted + 1)

  abbrev pub Reached : Option ℤ → Option F → Type 0
  Reached last none = Unit
  Reached last (some p) = Reaches last (rounded p)

  pub Tracks-next :
      (last : Option ℤ) (last_rank counted : ℕ) (before : ℤ → ℕ) (y : ℤ)
      → Tracks last last_rank counted before
      → Reaches last y
      → Tracks
          (some y)
          (if is_last ret last y then last_rank else counted + 1)
          (counted + 1)
          (λ z. before z + above z (some y))
  Tracks-next none last_rank counted before y t h z k =
      let ty = t y h in let tz = t z tt in ground arith
  Tracks-next (some x) last_rank counted before y t h z k =
      let ty = t y h in let tz = t z in ground arith

  pub above-covered :
      (p : F) (flagged : Bool) (o : Option F)
      → Covers (some p) o
      → above (rounded p) (map_option rounded (if flagged then none else o)) ≡ 0
  above-covered p true o h = refl
  above-covered p false none h = refl
  above-covered p false (some q) h = rw h refl

  pub ahead-covered :
      (p : F) (rs : List (Row ret)) → CoversAll (some p) rs → ahead (rounded p) rs ≡ 0
  unfolding ahead
  ahead-covered p [] h = refl
  ahead-covered p (r ∷ rs) (h, hs) =
      omega (arith, ahead-covered p rs hs, above-covered p r.flagged r.return_pct h)

  pub counted_pct-some :
      (flagged : Bool) (o : Option F) (p : F) → (if flagged then none else o) ≡ some p → o ≡ some p
  counted_pct-some true o p h = cc
  counted_pct-some false o p h = h

  pub covered-Reached : (p : F) (o : Option F) → Covers (some p) o → Reached (some (rounded p)) o
  covered-Reached p none h = tt
  covered-Reached p (some q) h = h

  pub covered_all-Reached :
      (p : F) (rs : List (Row ret))
      → CoversAll (some p) rs
      → All (λ s. Reached (some (rounded p)) s.return_pct) rs
  covered_all-Reached p [] h = tt
  covered_all-Reached p (r ∷ rs) (h, hs) =
      (covered-Reached p r.return_pct h, covered_all-Reached p rs hs)
