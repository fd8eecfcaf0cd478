-- ===== src/Competition/Rank/Laws.antt =====
-- packages/core/src/competition.ts, `rank`, against the definition of a rank: one more than the
-- entries that are ahead.
mod Steps
use koul.Base.{
  ℕ, suc, ◌+◌, Bool, true, false, Option, none, some, List, [], ◌∷◌, map, if◌then◌else◌, ℤ, le_ℤ,
  ◌≡◌, refl, ap, ◌∙◌, arith, inl, inr, All, Bool-cases, map_option, Option-cases, subst,
}
use koul.Competition.Rank.{
  Returns, Row, goes_before, insert_row, sort_rows, Ranked, is_last, counted_pct, rank_from, rank,
}
pub use koul.Competition.Rank.Laws.Steps.{placed}
use koul.Competition.Rank.Laws.Steps.{
  level, above, ahead, place_of, place, ahead-sort_rows, Covers, CoversAll, IsSorted,
  CoversAll-trans, CoversAll-insert_row, Reaches, Tracks, Reached, Tracks-next, ahead-covered,
  counted_pct-some, covered_all-Reached,
}

module _ (ret : Returns) where
  open ret use {F, lt, rounded}

  here_lem :
      (last : Option ℤ) (last_rank counted : ℕ) (before all : ℤ → ℕ) (p : F) (rs : List (Row ret))
      → Tracks ret last last_rank counted before
      → Reaches ret last (rounded p)
      → CoversAll ret (some p) rs
      → all (rounded p)
        ≡ before (rounded p) + (above ret (rounded p) (some (rounded p)) + ahead ret (rounded p) rs)
      → (if is_last ret last (rounded p) then last_rank else counted + 1) ≡ 1 + all (rounded p)
  here_lem last last_rank counted before all p rs t k c e =
      let a = t (rounded p) k in let b = ahead-covered ret p rs c in ground arith

  -- What `rank_from` does with a row, by the return that it is ranked by.
  abbrev next : Option ℤ → ℕ → ℕ → Row ret → List (Row ret) → Option F → List (Ranked ret)
  next last last_rank counted r rs none =
      record { row = r; rank = none } ∷ rank_from ret last last_rank counted rs
  next last last_rank counted r rs (some p) =
      let here = if is_last ret last (rounded p) then last_rank else counted + 1 in
      record { row = r; rank = some here } ∷ rank_from ret (some (rounded p)) here (counted + 1) rs

  rank_from-next :
      (last : Option ℤ) (last_rank counted : ℕ) (r : Row ret) (rs : List (Row ret)) (o : Option F)
      → counted_pct ret r ≡ o
      → rank_from ret last last_rank counted (r ∷ rs) ≡ next last last_rank counted r rs o
  unfolding rank_from
  rank_from-next last last_rank counted r rs o e = ap (next last last_rank counted r rs) e

  rank_from-placed :
      (last : Option ℤ) (last_rank counted : ℕ) (before all : ℤ → ℕ) (rs : List (Row ret))
      → Tracks ret last last_rank counted before
      → All (λ s. (Reached ret) last s.return_pct) rs
      → IsSorted ret rs
      → ((z : ℤ) → all z ≡ before z + ahead ret z rs)
      → rank_from ret last last_rank counted rs
        ≡ map (λ r. record { row = r; rank = place_of ret all (level ret r) }) rs
  unfolding rank_from ahead
  rank_from-placed last last_rank counted before all [] t h s e = refl
  rank_from-placed last last_rank counted before all (r ∷ rs) t (h, hs) (c, s) e =
      elim (Option-cases (counted_pct ret r)) [
        | inl k ↦
            let e' = rw k at e in
            let ih =
              rank_from-placed last last_rank counted before all rs t hs s
                (λ z. omega (arith, e' z)) in
            rank_from-next last last_rank counted r rs none k
            ∙ rw k (ap (λ l. record { row = r; rank = none } ∷ l) ih)
        | inr (p, k) ↦
            let o = counted_pct-some ret r.flagged r.return_pct p k in
            let c' = subst (λ x. (CoversAll ret) x rs) o c in
            let h' = subst (λ x. (Reached ret) last x) o h in
            let e' = rw k at e in
            let here = here_lem last last_rank counted before all p rs t h' c' (e' (rounded p)) in
            let t' = Tracks-next ret last last_rank counted before (rounded p) t h' in
            let ih =
              rank_from-placed (some (rounded p))
                (if is_last ret last (rounded p) then last_rank else counted + 1) (counted + 1)
                (λ z. before z + above ret z (some (rounded p))) all rs t'
                (covered_all-Reached ret p rs c') s (λ z. omega (arith, e' z)) in
            rank_from-next last last_rank counted r rs (some p) k ∙ rw (k, ih, here) refl
      ]

  Reached-none : (o : Option F) → Reached ret none o
  Reached-none none = tt
  Reached-none (some p) = tt

  All-Reached-none : (rs : List (Row ret)) → All (λ s. (Reached ret) none s.return_pct) rs
  All-Reached-none [] = tt
  All-Reached-none (r ∷ rs) = (Reached-none r.return_pct, All-Reached-none rs)

  -- Rounding keeps the order.
  module _ (up : (a b : F) → lt a b ≡ true → le_ℤ (rounded a) (rounded b) ≡ true)
      (down : (a b : F) → lt a b ≡ false → le_ℤ (rounded b) (rounded a) ≡ true) where
    before-Covers : (a b : Option F) → goes_before ret b a ≡ true → Covers ret b a
    unfolding goes_before
    before-Covers none b h = tt
    before-Covers (some a) none h = cc
    before-Covers (some a) (some b) h = up a b h

    after-Covers : (a b : Option F) → goes_before ret b a ≡ false → Covers ret a b
    unfolding goes_before
    after-Covers a none h = tt
    after-Covers none (some b) h = cc
    after-Covers (some a) (some b) h = down a b h

    insert_row-IsSorted :
        (r : Row ret) (rs : List (Row ret)) → IsSorted ret rs → IsSorted ret (insert_row ret r rs)
    unfolding insert_row
    insert_row-IsSorted r [] h = (tt, tt)
    insert_row-IsSorted r (s ∷ ss) (h, hs) =
        elim (Bool-cases (goes_before ret s.return_pct r.return_pct)) [
          | inl e ↦ rw e (
            CoversAll-insert_row ret s.return_pct r ss (before-Covers r.return_pct s.return_pct e)
                h,
            insert_row-IsSorted r ss hs,
          )
          | inr e ↦
              let c = after-Covers r.return_pct s.return_pct e in
              rw e ((c, (CoversAll-trans ret) r.return_pct s.return_pct ss c h), (h, hs))
        ]

    sort_rows-IsSorted : (rs : List (Row ret)) → IsSorted ret (sort_rows ret rs)
    unfolding sort_rows
    sort_rows-IsSorted [] = tt
    sort_rows-IsSorted (r ∷ rs) = insert_row-IsSorted r (sort_rows ret rs) (sort_rows-IsSorted rs)

    -- When rounding keeps the order of returns: each row of the sorted board has the rank one more
    -- than the number of unflagged rows whose rounded return is higher, rows with equal rounded
    -- returns share it, and a flagged row or one with no return has none.
    pub rank_correct :
        (rows : List (Row ret)) → rank ret rows ≡ map (placed ret rows) (sort_rows ret rows)
    unfolding rank place
    rank_correct rows =
        rank_from-placed none 0 0 (λ z. 0) (λ z. (ahead ret) z rows) (sort_rows ret rows)
          (λ z h. refl) (All-Reached-none (sort_rows ret rows)) (sort_rows-IsSorted rows)
          (λ z. omega (arith, (ahead-sort_rows ret) z rows))
