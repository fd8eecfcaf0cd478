-- ===== src/Traction/Days.antt =====
-- packages/core/src/traction.ts, the days of `tractionSummary`: a row for each day from the first to
-- today. `keep` is given no group for a cell of a wallet that is not there, where the source passes
-- `undefined`.
use koul.Base.{
  ℕ, zero, suc, ◌+◌, ◌-◌, ◌/◌, min, Bool, ◌||◌, Option, none, some, List, [], ◌∷◌, Text, ltb,
  get_elem?, map, map_option, or_else, if◌then◌else◌, NatMap, at, alter, Num,
}
use koul.Traction.State.{day_ms, Wallet, DayCell, TractionState}
use koul.Traction.Apply.{cents}
use koul.Traction.Groups.{Group, group_of}

abbrev pub first_key : {A : Type 0} → NatMap A → Option ℕ
first_key [] = none
first_key ((k, v) ∷ m) = some (elim (first_key m) [ none ↦ k | some j ↦ min k j ])

module _ (num : Num) where
  open num use {F, lit, add}

  pub record Day : Type 0 where
    pub day : ℕ
    pub new_users : ℕ
    pub cumulative_users : ℕ
    pub trades : ℕ
    pub swaps : ℕ
    pub volume_usd : F
    pub volume_out_usd : F
    pub active : ℕ
    pub sets : ℕ
    pub clears : ℕ

  -- `firstDay`
  unfoldable pub first_day : TractionState num → Option ℕ
  first_day s = elim (first_key s.days) [
    | some d ↦ some d
    | none ↦ map_option (λ t. t / day_ms) s.history_from
  ]

  -- New wallets by day, and those seen with no first save.
  pub record Seen : Type 0 where
    pub new_by : NatMap ℕ
    pub before : ℕ

  abbrev pub see_wallet : Wallet num → Option ℕ → Seen → Seen
  see_wallet w none acc = record acc {
    before = if ltb 0 w.sets || ltb 0 w.live.autopilots then acc.before + 1 else acc.before;
  }
  see_wallet w (some t) acc = record acc { new_by = alter (t / day_ms) 0 (λ n. n + 1) acc.new_by }

  unfoldable pub see_wallets : (Option Group → Bool) → List Text → Seen → List (Wallet num) → Seen
  see_wallets keep tagged acc [] = acc
  see_wallets keep tagged acc (w ∷ ws) =
      see_wallets keep tagged
        (if keep (some (group_of num w tagged)) then see_wallet w w.first_seen acc else acc) ws

  abbrev pub add_cell : DayCell num → Day → Day
  add_cell c row = record row {
    trades = row.trades + c.fired;
    swaps = row.swaps + c.swaps;
    volume_usd = add row.volume_usd c.volume_usd;
    sets = row.sets + c.sets;
    clears = row.clears + c.clears;
    volume_out_usd = add row.volume_out_usd (or_else c.volume_out_usd (lit 0 0));
    active = if ltb 0 c.fired then row.active + 1 else row.active;
  }

  unfoldable pub add_cells : (Option Group → Bool) → List Group → Day → NatMap (DayCell num) → Day
  add_cells keep groups row [] = row
  add_cells keep groups row ((i, c) ∷ cells) =
      add_cells keep groups (if keep (get_elem? groups i) then add_cell c row else row) cells

  abbrev pub empty_day : ℕ → ℕ → Day
  empty_day day new_users = record {
    day = day;
    new_users = new_users;
    cumulative_users = 0;
    trades = 0;
    swaps = 0;
    volume_usd = lit 0 0;
    volume_out_usd = lit 0 0;
    active = 0;
    sets = 0;
    clears = 0;
  }

  unfoldable pub day_row : (Option Group → Bool) → List Group → TractionState num → ℕ → ℕ → ℕ → Day
  day_row keep groups s day new_users total =
      let row = add_cells keep groups (empty_day day new_users) (or_else (at day s.days) []) in
      record row {
        volume_usd = cents num row.volume_usd;
        volume_out_usd = cents num row.volume_out_usd;
        cumulative_users = total + new_users;
      }

  -- n days from a day on
  unfoldable pub day_rows :
      (Option Group → Bool) → List Group → TractionState num → NatMap ℕ → ℕ → ℕ → ℕ → List Day
  day_rows keep groups s new_by zero day total = []
  day_rows keep groups s new_by (suc n) day total =
      let new_users = or_else (at day new_by) 0 in
      day_row keep groups s day new_users total
      ∷ day_rows keep groups s new_by n (suc day) (total + new_users)

  -- The loop ends after today's row; before the first day there is none.
  abbrev pub days_until : ℕ → ℕ → ℕ
  days_until first now = suc (now / day_ms) - first

  unfoldable pub series : (Option Group → Bool) → TractionState num → List Text → ℕ → List Day
  series keep s tagged now =
      let seen = see_wallets keep tagged (record { new_by = []; before = 0 }) s.wallets in
      elim (first_day s) [
        | none ↦ []
        | some first ↦
            day_rows keep (map (λ w. group_of num w tagged) s.wallets) s seen.new_by
              (days_until first now) first seen.before
      ]
