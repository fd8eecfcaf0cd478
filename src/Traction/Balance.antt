-- ===== src/Traction/Balance.antt =====
-- packages/core/src/traction.ts, `applyEvents`: a wallet's counts and its days agree.
mod Cells
use koul.Base.{
  ℕ, zero, suc, ◌+◌, Bool, true, false, Option, none, some, List, [], ◌∷◌, ◌++◌, ◌==◌, length,
  get_elem?, set, if◌then◌else◌, or_else, ◌≡◌, refl, sym, ap, subst, ◌∙◌, arith, inl, inr, NatMap,
  at, alter, at-alter, Num, Text, text_eq, Bool-cases, Option-cases,
}
use koul.Competition.Value.{Prices}
use koul.Traction.State.{
  RouterEvent, autopilot_set, autopilot_cleared, fired, swapped, event_id, event_user, Wallet,
  DayCell, TractionState, new_wallet, empty_cell,
}
use koul.Traction.Apply.{
  on_wallet, on_cell, index_of, wallet_of, update, count_event, is_seen, apply_loop, drop_hours,
  apply_events,
}
unfoldable pub use koul.Traction.Balance.Cells.{over_days, tally}
use koul.Traction.Balance.Cells.{apply_events-kept}

module _ (num : Num) where
  -- Each wallet's trades, swaps, saves and clears are the sums of its cells over the days, and no cell
  -- counts for a wallet that is not there.
  abbrev pub Balances : TractionState num → Type 0
  Balances s =
      (i : ℕ)
      → (tally num (λ w. w.trades) (get_elem? s.wallets i) ≡ over_days num (λ c. c.fired) i s.days)
        × (tally num (λ w. w.swaps) (get_elem? s.wallets i) ≡ over_days num (λ c. c.swaps) i s.days)
        × (tally num (λ w. w.sets) (get_elem? s.wallets i) ≡ over_days num (λ c. c.sets) i s.days)
        × (tally num (λ w. w.clears) (get_elem? s.wallets i)
            ≡ over_days num (λ c. c.clears) i s.days)

  -- What an event adds to each of the four counts.
  abbrev is_fired : RouterEvent → ℕ
  is_fired (fired id at user kind amount tx) = 1
  is_fired _ = 0

  abbrev is_swapped : RouterEvent → ℕ
  is_swapped (swapped id at user token_in token_out amount_in amount_out) = 1
  is_swapped _ = 0

  abbrev is_set : RouterEvent → ℕ
  is_set (autopilot_set id at user autopilot_id rules) = 1
  is_set _ = 0

  abbrev is_cleared : RouterEvent → ℕ
  is_cleared (autopilot_cleared id at user autopilot_id) = 1
  is_cleared _ = 0

  on_wallet-counts :
      (prices : Prices num) (e : RouterEvent) (x : Wallet num)
      → ((on_wallet num prices e x).trades ≡ x.trades + is_fired e)
        × ((on_wallet num prices e x).swaps ≡ x.swaps + is_swapped e)
        × ((on_wallet num prices e x).sets ≡ x.sets + is_set e)
        × ((on_wallet num prices e x).clears ≡ x.clears + is_cleared e)
  unfolding on_wallet
  on_wallet-counts prices (autopilot_set id at user autopilot_id rules) x =
      (omega arith, omega arith, omega arith, omega arith)
  on_wallet-counts prices (autopilot_cleared id at user autopilot_id) x =
      (omega arith, omega arith, omega arith, omega arith)
  on_wallet-counts prices (fired id at user kind amount tx) x =
      (omega arith, omega arith, omega arith, omega arith)
  on_wallet-counts prices (swapped id at user token_in token_out amount_in amount_out) x =
      (omega arith, omega arith, omega arith, omega arith)

  on_cell-counts :
      (prices : Prices num) (e : RouterEvent) (x : DayCell num)
      → ((on_cell num prices e x).fired ≡ x.fired + is_fired e)
        × ((on_cell num prices e x).swaps ≡ x.swaps + is_swapped e)
        × ((on_cell num prices e x).sets ≡ x.sets + is_set e)
        × ((on_cell num prices e x).clears ≡ x.clears + is_cleared e)
  unfolding on_cell
  on_cell-counts prices (autopilot_set id at user autopilot_id rules) x =
      (omega arith, omega arith, omega arith, omega arith)
  on_cell-counts prices (autopilot_cleared id at user autopilot_id) x =
      (omega arith, omega arith, omega arith, omega arith)
  on_cell-counts prices (fired id at user kind amount tx) x =
      (omega arith, omega arith, omega arith, omega arith)
  on_cell-counts prices (swapped id at user token_in token_out amount_in amount_out) x =
      (omega arith, omega arith, omega arith, omega arith)

  -- A run keeps it: when each wallet's trades, swaps, saves and clears are the sums of its cells over
  -- the days, they are after `apply_events` on any events, those of new wallets included.
  pub apply_events-Balances :
      (prices : Prices num) (es : List RouterEvent) (s : TractionState num) (now : ℕ)
      → Balances s
      → Balances (apply_events num s es prices now)
  apply_events-Balances prices es s now h i =
      let up = on_wallet-counts prices in
      let down = on_cell-counts prices in
      let kept =
        λ (fw : Wallet num → ℕ) (fc : DayCell num → ℕ). apply_events-kept num prices fw fc in
      (
        kept (λ w. w.trades) (λ c. c.fired) is_fired (λ u. refl) refl (λ e x. (up e x).0)
            (λ e x. (down e x).0) es s now (λ j. (h j).0) i,
        kept (λ w. w.swaps) (λ c. c.swaps) is_swapped (λ u. refl) refl (λ e x. (up e x).1)
            (λ e x. (down e x).1) es s now (λ j. (h j).1) i,
        kept (λ w. w.sets) (λ c. c.sets) is_set (λ u. refl) refl (λ e x. (up e x).2)
            (λ e x. (down e x).2) es s now (λ j. (h j).2) i,
        kept (λ w. w.clears) (λ c. c.clears) is_cleared (λ u. refl) refl (λ e x. (up e x).3)
            (λ e x. (down e x).3) es s now (λ j. (h j).3) i,
      )
