-- ===== src/Traction/Summary.antt =====
-- packages/core/src/traction.ts, `tractionSummary`: what the page shows. The three records of counts
-- of the source, `all`, `organic` and `team`, are passed on together.
use koul.Base.{
  ℕ, ◌+◌, ◌*◌, min, Bool, false, ◌||◌, Option, none, some, List, [], ◌∷◌, Text, ltb, ◌==◌, length,
  get_elem?, map, is_some, or_else, if◌then◌else◌, Assoc, get, put, NatMap, pos, Num,
}
use koul.Traction.State.{day_ms, Wallet, TractionState}
use koul.Traction.Apply.{cents, index_of}
use koul.Traction.Groups.{
  Group, organic, Side, organic_side, team_side, side, group_of, is_team, user_of,
}

abbrev pub add_kinds : Assoc ℕ → Assoc ℕ → Assoc ℕ
add_kinds acc [] = acc
add_kinds acc ((kind, n) ∷ kinds) = add_kinds (put kind (or_else (get kind acc) 0 + n) acc) kinds

pub record Funnel : Type 0 where
  pub since : Option ℕ
  pub created : ℕ
  pub with_autopilot : ℕ
  pub traded : ℕ

module _ (num : Num) where
  open num use {F, of_int, lit, add, div, lt}

  pub record Counts : Type 0 where
    pub users : ℕ
    pub autopilots : ℕ
    pub rules : ℕ
    pub users_ever : ℕ
    pub trades_24h : ℕ
    pub trades_7d : ℕ
    pub trades : ℕ
    pub swaps : ℕ
    pub volume_usd : F
    pub volume_out_usd : F
    pub trades_per_autopilot : Option F
    pub created : ℕ
    pub kinds : Assoc ℕ
    -- `autopilotsEver` of the same group
    pub autopilots_ever : ℕ

  pub record Split : Type 0 where
    pub all_counts : Counts
    pub organic_counts : Counts
    pub team_counts : Counts

  abbrev pub zero_counts : Counts
  zero_counts = record {
    users = 0;
    autopilots = 0;
    rules = 0;
    users_ever = 0;
    trades_24h = 0;
    trades_7d = 0;
    trades = 0;
    swaps = 0;
    volume_usd = lit 0 0;
    volume_out_usd = lit 0 0;
    trades_per_autopilot = none;
    created = 0;
    kinds = [];
    autopilots_ever = 0;
  }

  -- What is done to the counts of a side and to those of all.
  abbrev pub on_side : (Counts → Counts) → Side → Split → Split
  on_side f organic_side c = record c {
    organic_counts = f c.organic_counts;
    all_counts = f c.all_counts;
  }
  on_side f team_side c = record c { team_counts = f c.team_counts; all_counts = f c.all_counts }

  abbrev pub count_wallet : Wallet num → Counts → Counts
  count_wallet w c = record c {
    users = c.users + user_of num w.live;
    autopilots = c.autopilots + w.live.autopilots;
    rules = c.rules + w.live.rules;
    users_ever = c.users_ever + (if is_some w.first_seen || ltb 0 w.sets then 1 else 0);
    trades = c.trades + w.trades;
    swaps = c.swaps + w.swaps;
    volume_usd = add c.volume_usd w.volume_usd;
    volume_out_usd = add c.volume_out_usd (or_else w.volume_out_usd (lit 0 0));
    kinds = add_kinds c.kinds w.kinds;
    autopilots_ever = c.autopilots_ever + length w.ids;
  }

  unfoldable pub count_wallets : List Text → Split → List (Wallet num) → Split
  count_wallets tagged c [] = c
  count_wallets tagged c (w ∷ ws) =
      count_wallets tagged (on_side (count_wallet w) (side (group_of num w tagged)) c) ws

  -- `now - Number(hour) < span`, where the hour may be after now
  abbrev pub within_last : ℕ → ℕ → ℕ → Bool
  within_last span now hour = ltb now (hour + span)

  abbrev pub count_hour : ℕ → ℕ → ℕ → Counts → Counts
  count_hour now hour n c = record c {
    trades_24h = if within_last day_ms now hour then c.trades_24h + n else c.trades_24h;
    trades_7d = if within_last (7 * day_ms) now hour then c.trades_7d + n else c.trades_7d;
  }

  unfoldable pub count_cells : List Group → ℕ → ℕ → Split → NatMap ℕ → Split
  count_cells groups now hour c [] = c
  count_cells groups now hour c ((i, n) ∷ cells) =
      count_cells groups now hour
        (on_side (count_hour now hour n) (side (or_else (get_elem? groups i) organic)) c) cells

  unfoldable pub count_hours : List Group → ℕ → Split → NatMap (NatMap ℕ) → Split
  count_hours groups now c [] = c
  count_hours groups now c ((hour, cells) ∷ hours) =
      count_hours groups now (count_cells groups now hour c cells) hours

  abbrev pub finish : Counts → Counts
  finish c = record c {
    volume_usd = cents num c.volume_usd;
    volume_out_usd = cents num c.volume_out_usd;
    trades_per_autopilot =
        if c.autopilots_ever == 0
        then none
        else some (div (of_int (pos c.trades)) (of_int (pos c.autopilots_ever)));
  }

  unfoldable pub finish_all : Split → Split
  finish_all c = record {
    all_counts = finish c.all_counts;
    organic_counts = finish c.organic_counts;
    team_counts = finish c.team_counts;
  }

  abbrev pub count_created : Counts → Counts
  count_created c = record c { created = c.created + 1 }

  -- `createdTeam`
  unfoldable pub created_side : List Group → List (Wallet num) → List Text → Text → Side
  created_side groups ws tagged address = elim (index_of num address ws) [
    | some i ↦ side (or_else (get_elem? groups i) organic)
    | none ↦ if is_team num address tagged then team_side else organic_side
  ]

  unfoldable pub count_all_created :
      List Group → List (Wallet num) → List Text → Split → List (Text × ℕ) → Split
  count_all_created groups ws tagged c [] = c
  count_all_created groups ws tagged c ((address, ms) ∷ created) =
      count_all_created groups ws tagged
        (on_side count_created (created_side groups ws tagged address) c) created

  -- `counts`, from the first loop to the last
  unfoldable pub counts_of : TractionState num → List Text → List (Text × ℕ) → ℕ → Split
  counts_of s tagged created now =
      let groups = map (λ w. group_of num w tagged) s.wallets in
      let start : Split = record {
        all_counts = zero_counts;
        organic_counts = zero_counts;
        team_counts = zero_counts;
      } in
      let counted = count_hours groups now (count_wallets tagged start s.wallets) s.hours in
      count_all_created groups s.wallets tagged (finish_all counted) created

  abbrev pub wallet_at : List (Wallet num) → Text → Option (Wallet num)
  wallet_at ws address = elim (index_of num address ws) [ none ↦ none | some i ↦ get_elem? ws i ]

  abbrev pub has_autopilot : Option (Wallet num) → Bool
  has_autopilot none = false
  has_autopilot (some w) = ltb 0 w.sets || ltb 0 w.live.autopilots

  abbrev pub has_traded : Option (Wallet num) → Bool
  has_traded none = false
  has_traded (some w) = ltb 0 w.trades

  unfoldable pub funnel_loop : List (Wallet num) → Funnel → List (Text × ℕ) → Funnel
  funnel_loop ws f [] = f
  funnel_loop ws f ((address, ms) ∷ created) =
      let w = wallet_at ws address in
      funnel_loop ws
        (record f {
          created = f.created + 1;
          with_autopilot = if has_autopilot w then f.with_autopilot + 1 else f.with_autopilot;
          traded = if has_traded w then f.traded + 1 else f.traded;
        })
        created

  abbrev pub earliest : List (Text × ℕ) → Option ℕ
  earliest [] = none
  earliest ((address, ms) ∷ created) =
      some (elim (earliest created) [ none ↦ ms | some t ↦ min ms t ])

  unfoldable pub funnel_of : List (Wallet num) → List (Text × ℕ) → Funnel
  funnel_of ws created =
      funnel_loop ws
        (record { since = earliest created; created = 0; with_autopilot = 0; traded = 0 }) created
