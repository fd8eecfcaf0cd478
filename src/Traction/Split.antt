-- ===== src/Traction/Split.antt =====
-- packages/core/src/traction.ts, `tractionSummary`: the page's two groups against everyone.
use koul.Base.{
  ℕ, ◌+◌, ◌*◌, ◌||◌, List, [], ◌∷◌, Text, ltb, is_some, if◌then◌else◌, NatMap, ◌≡◌, refl, arith,
  Num,
}
use koul.Traction.State.{day_ms, Wallet, TractionState}
use koul.Traction.Groups.{Group, Side, organic_side, team_side, side, group_of, user_of}
use koul.Traction.Summary.{
  Counts, Split, zero_counts, on_side, count_wallet, count_wallets, within_last, count_hour,
  count_cells, count_hours, finish, finish_all, count_created, count_all_created, counts_of,
}

module _ (num : Num) where
  -- A count that each step of the summary raises by an amount of its own.
  module _ (count : Counts num → ℕ) (by_wallet : Wallet num → ℕ) (by_hour : ℕ → ℕ → ℕ → ℕ)
      (by_created : ℕ) (zero_lem : count (zero_counts num) ≡ 0)
      (wallet_lem : (w : Wallet num) (c : Counts num)
        → count (count_wallet num w c) ≡ count c + by_wallet w)
      (hour_lem : (now hour n : ℕ) (c : Counts num)
        → count (count_hour num now hour n c) ≡ count c + by_hour now hour n)
      (finish_lem : (c : Counts num) → count (finish num c) ≡ count c)
      (created_lem : (c : Counts num) → count (count_created num c) ≡ count c + by_created) where
    abbrev Adds : Split num → Type 0
    Adds c = count c.all_counts ≡ count c.organic_counts + count c.team_counts

    on_side-Adds :
        (f : Counts num → Counts num) (d : ℕ) (s : Side) (c : Split num)
        → ((x : Counts num) → count (f x) ≡ count x + d)
        → Adds c
        → Adds (on_side num f s c)
    on_side-Adds f d organic_side c h a = omega (arith, h c.all_counts, h c.organic_counts, a)
    on_side-Adds f d team_side c h a = omega (arith, h c.all_counts, h c.team_counts, a)

    count_wallets-Adds :
        (tagged : List Text) (ws : List (Wallet num)) (c : Split num)
        → Adds c
        → Adds (count_wallets num tagged c ws)
    unfolding count_wallets
    count_wallets-Adds tagged [] c a = a
    count_wallets-Adds tagged (w ∷ ws) c a = count_wallets-Adds tagged ws _ (
        on_side-Adds (count_wallet num w) (by_wallet w) (side (group_of num w tagged)) c
          (wallet_lem w) a)

    count_cells-Adds :
        (groups : List Group) (now hour : ℕ) (cells : NatMap ℕ) (c : Split num)
        → Adds c
        → Adds (count_cells num groups now hour c cells)
    unfolding count_cells
    count_cells-Adds groups now hour [] c a = a
    count_cells-Adds groups now hour ((i, n) ∷ cells) c a =
        count_cells-Adds groups now hour cells _ (
          on_side-Adds (count_hour num now hour n) (by_hour now hour n) _ c (hour_lem now hour n) a)

    count_hours-Adds :
        (groups : List Group) (now : ℕ) (hours : NatMap (NatMap ℕ)) (c : Split num)
        → Adds c
        → Adds (count_hours num groups now c hours)
    unfolding count_hours
    count_hours-Adds groups now [] c a = a
    count_hours-Adds groups now ((hour, cells) ∷ hours) c a =
        count_hours-Adds groups now hours _ (count_cells-Adds groups now hour cells c a)

    finish_all-Adds : (c : Split num) → Adds c → Adds (finish_all num c)
    unfolding finish_all
    finish_all-Adds c a =
        omega
          (arith, finish_lem c.all_counts, finish_lem c.organic_counts, finish_lem c.team_counts, a)

    count_all_created-Adds :
        (groups : List Group) (ws : List (Wallet num)) (tagged : List Text)
        (created : List (Text × ℕ)) (c : Split num)
        → Adds c
        → Adds (count_all_created num groups ws tagged c created)
    unfolding count_all_created
    count_all_created-Adds groups ws tagged [] c a = a
    count_all_created-Adds groups ws tagged ((address, ms) ∷ created) c a =
        count_all_created-Adds groups ws tagged created _
          (on_side-Adds (count_created num) by_created _ c created_lem a)

    counts_of-Adds :
        (s : TractionState num) (tagged : List Text) (created : List (Text × ℕ)) (now : ℕ)
        → Adds (counts_of num s tagged created now)
    unfolding counts_of
    counts_of-Adds s tagged created now = count_all_created-Adds _ s.wallets tagged created _ (
        finish_all-Adds _ (
          count_hours-Adds _ now s.hours _
            (count_wallets-Adds tagged s.wallets _ (omega (arith, zero_lem)))))

  abbrev pub SumsUp : Split num → Type 0
  SumsUp c =
      (c.all_counts.users ≡ c.organic_counts.users + c.team_counts.users)
      × (c.all_counts.autopilots ≡ c.organic_counts.autopilots + c.team_counts.autopilots)
      × (c.all_counts.rules ≡ c.organic_counts.rules + c.team_counts.rules)
      × (c.all_counts.users_ever ≡ c.organic_counts.users_ever + c.team_counts.users_ever)
      × (c.all_counts.trades_24h ≡ c.organic_counts.trades_24h + c.team_counts.trades_24h)
      × (c.all_counts.trades_7d ≡ c.organic_counts.trades_7d + c.team_counts.trades_7d)
      × (c.all_counts.trades ≡ c.organic_counts.trades + c.team_counts.trades)
      × (c.all_counts.swaps ≡ c.organic_counts.swaps + c.team_counts.swaps)
      × (c.all_counts.created ≡ c.organic_counts.created + c.team_counts.created)

  -- On the page everyone is the organic wallets and the team's: users, autopilots, rules, users ever,
  -- the trades of a day, of a week and of all time, swaps and created wallets add up, whatever the tags.
  pub counts_of-SumsUp :
      (s : TractionState num) (tagged : List Text) (created : List (Text × ℕ)) (now : ℕ)
      → SumsUp (counts_of num s tagged created now)
  counts_of-SumsUp s tagged created now = (
    counts_of-Adds (λ c. c.users) (λ w. user_of num w.live) (λ now hour n. 0) 0 refl (λ w c. refl)
        (λ now hour n c. omega arith) (λ c. refl) (λ c. omega arith) s tagged created now,
    counts_of-Adds (λ c. c.autopilots) (λ w. w.live.autopilots) (λ now hour n. 0) 0 refl
        (λ w c. refl) (λ now hour n c. omega arith) (λ c. refl) (λ c. omega arith) s tagged created
        now,
    counts_of-Adds (λ c. c.rules) (λ w. w.live.rules) (λ now hour n. 0) 0 refl (λ w c. refl)
        (λ now hour n c. omega arith) (λ c. refl) (λ c. omega arith) s tagged created now,
    counts_of-Adds (λ c. c.users_ever) (λ w. if is_some w.first_seen || ltb 0 w.sets then 1 else 0)
        (λ now hour n. 0) 0 refl (λ w c. refl) (λ now hour n c. omega arith) (λ c. refl)
        (λ c. omega arith) s tagged created now,
    counts_of-Adds (λ c. c.trades_24h) (λ w. 0)
        (λ now hour n. if within_last num day_ms now hour then n else 0) 0 refl (λ w c. omega arith)
        (λ now hour n c. ground arith) (λ c. refl) (λ c. omega arith) s tagged created now,
    counts_of-Adds (λ c. c.trades_7d) (λ w. 0)
        (λ now hour n. if within_last num (7 * day_ms) now hour then n else 0) 0 refl
        (λ w c. omega arith) (λ now hour n c. ground arith) (λ c. refl) (λ c. omega arith) s tagged
        created now,
    counts_of-Adds (λ c. c.trades) (λ w. w.trades) (λ now hour n. 0) 0 refl (λ w c. refl)
        (λ now hour n c. omega arith) (λ c. refl) (λ c. omega arith) s tagged created now,
    counts_of-Adds (λ c. c.swaps) (λ w. w.swaps) (λ now hour n. 0) 0 refl (λ w c. refl)
        (λ now hour n c. omega arith) (λ c. refl) (λ c. omega arith) s tagged created now,
    counts_of-Adds (λ c. c.created) (λ w. 0) (λ now hour n. 0) 1 refl (λ w c. omega arith)
        (λ now hour n c. omega arith) (λ c. refl) (λ c. refl) s tagged created now,
  )
