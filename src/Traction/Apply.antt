-- ===== src/Traction/Apply.antt =====
-- packages/core/src/traction.ts, `swapUsd`, `applyEvents` and `applyLive`. The state is passed on, where
-- the source works on a copy. The `index` map of the source gives, at any time, the place of the last
-- wallet with an address, which is found here in the wallets.
use koul.Base.{
  ℕ, suc, ◌+◌, ◌-◌, ◌*◌, ◌/◌, max, min, Bool, false, Option, none, some, List, [], ◌∷◌, ◌++◌, Text,
  text_eq, text_leb, truthy, leb, ◌==◌, length, get_elem?, set, find, any, map, is_some, map_option,
  or_else, if◌then◌else◌, member, Assoc, get, put, NatMap, at, alter, from_key, ℤ, Num,
}
use koul.Competition.Value.{ScoredToken, Prices, units}
use koul.Traction.State.{
  hour_ms, day_ms, hours_kept, Live, RouterEvent, autopilot_set, autopilot_cleared, fired, swapped,
  event_id, event_at, event_user, Wallet, DayCell, TractionState, new_wallet, empty_cell,
  known_tokens,
}

-- `tokenSymbol`
unfoldable pub token_symbol : Text → Text
token_symbol id = or_else (map_option (λ t. t.symbol) (find (λ t. text_eq t.id id) known_tokens)) id

-- `if (!list.includes(x)) list.push(x)`
abbrev pub add_new : Text → List Text → List Text
add_new t ts = if member t ts then ts else ts ++ t ∷ []

abbrev pub add_id : ℕ → List ℕ → List ℕ
add_id i is = if any (λ j. j == i) is then is else is ++ i ∷ []

unfoldable pub cutoff : ℕ → ℕ
cutoff now = now - hours_kept * hour_ms

module _ (num : Num) where
  open num use {F, lit, add, mul, div, round}

  abbrev pub priced : Prices num → ℤ → ScoredToken → Option F
  priced prices amount t =
      map_option (λ price. mul (units num amount t.decimals) price)
        (elim t.feed [ none ↦ some (lit 1 0) | some feed ↦ get feed prices ])

  abbrev pub swap_usd_of : Prices num → ℤ → Option ScoredToken → Option F
  swap_usd_of prices amount none = none
  swap_usd_of prices amount (some t) = priced prices amount t

  unfoldable pub swap_usd : Text → ℤ → Prices num → Option F
  swap_usd token amount prices =
      swap_usd_of prices amount (find (λ t. text_eq t.id token) known_tokens)

  abbrev pub cents : F → F
  cents n = div (round (mul n (lit 100 0))) (lit 100 0)

  -- What an event does to the wallet of its user.
  unfoldable pub on_wallet : Prices num → RouterEvent → Wallet num → Wallet num
  on_wallet prices (autopilot_set id at user autopilot_id rules) w = record w {
    sets = w.sets + 1;
    first_seen = some (elim w.first_seen [ none ↦ at | some t ↦ min t at ]);
    ids = add_id autopilot_id w.ids;
  }
  on_wallet prices (autopilot_cleared id at user autopilot_id) w = record w {
    clears = w.clears + 1;
  }
  on_wallet prices (fired id at user kind amount tx) w = record w {
    trades = w.trades + 1;
    kinds = put kind (or_else (get kind w.kinds) 0 + 1) w.kinds;
    last_tx =
        if truthy tx
        then (if leb (or_else w.last_trade 0) at then tx else w.last_tx)
        else w.last_tx;
    last_trade = some (max (or_else w.last_trade 0) at);
  }
  on_wallet prices (swapped id at user token_in token_out amount_in amount_out) w = record w {
    swaps = w.swaps + 1;
    volume_usd = cents (add w.volume_usd (or_else (swap_usd token_in amount_in prices) (lit 0 0)));
    volume_out_usd = some (
        cents (
          add (or_else w.volume_out_usd (lit 0 0))
            (or_else (swap_usd token_out amount_out prices) (lit 0 0))));
    tokens = add_new (token_symbol token_out) (add_new (token_symbol token_in) w.tokens);
  }

  -- What it does to the user's cell of its day.
  unfoldable pub on_cell : Prices num → RouterEvent → DayCell num → DayCell num
  on_cell prices (autopilot_set id at user autopilot_id rules) c = record c { sets = c.sets + 1 }
  on_cell prices (autopilot_cleared id at user autopilot_id) c = record c { clears = c.clears + 1 }
  on_cell prices (fired id at user kind amount tx) c = record c { fired = c.fired + 1 }
  on_cell prices (swapped id at user token_in token_out amount_in amount_out) c = record c {
    swaps = c.swaps + 1;
    volume_usd = cents (add c.volume_usd (or_else (swap_usd token_in amount_in prices) (lit 0 0)));
    volume_out_usd = some (
        cents (
          add (or_else c.volume_out_usd (lit 0 0))
            (or_else (swap_usd token_out amount_out prices) (lit 0 0))));
  }

  -- Only a fired event counts in its hour.
  unfoldable pub on_hours : RouterEvent → ℕ → NatMap (NatMap ℕ) → NatMap (NatMap ℕ)
  on_hours (autopilot_set id at user autopilot_id rules) i hours = hours
  on_hours (autopilot_cleared id at user autopilot_id) i hours = hours
  on_hours (fired id at user kind amount tx) i hours =
      alter (at / hour_ms * hour_ms) [] (alter i 0 (λ n. n + 1)) hours
  on_hours (swapped id at user token_in token_out amount_in amount_out) i hours = hours

  -- A swap whose input has no price is counted.
  unfoldable pub on_unpriced : Prices num → RouterEvent → ℕ → ℕ
  on_unpriced prices (autopilot_set id at user autopilot_id rules) n = n
  on_unpriced prices (autopilot_cleared id at user autopilot_id) n = n
  on_unpriced prices (fired id at user kind amount tx) n = n
  on_unpriced prices (swapped id at user token_in token_out amount_in amount_out) n =
      if is_some (swap_usd token_in amount_in prices) then n else n + 1

  -- The place of the last wallet with an address.
  unfoldable pub index_of : Text → List (Wallet num) → Option ℕ
  index_of address [] = none
  index_of address (w ∷ ws) = elim (index_of address ws) [
    | some i ↦ some (suc i)
    | none ↦ if text_eq w.address address then some 0 else none
  ]

  -- The user's wallets and place, with a new wallet at the end where there is none.
  abbrev pub placed_at : Text → List (Wallet num) → Option ℕ → List (Wallet num) × ℕ
  placed_at user ws (some i) = (ws, i)
  placed_at user ws none = (ws ++ new_wallet num user ∷ [], length ws)

  unfoldable pub wallet_of : Text → List (Wallet num) → List (Wallet num) × ℕ
  wallet_of user ws = placed_at user ws (index_of user ws)

  abbrev pub update : ℕ → (Wallet num → Wallet num) → List (Wallet num) → List (Wallet num)
  update i f ws = elim (get_elem? ws i) [ none ↦ ws | some w ↦ set ws i (f w) ]

  -- One event that is counted.
  unfoldable pub count_event : Prices num → RouterEvent → TractionState num → TractionState num
  count_event prices e s =
      let placed = wallet_of (event_user e) s.wallets in
      record s {
        last_event_id = some (event_id e);
        wallets = update placed.1 (on_wallet prices e) placed.0;
        days =
            alter (event_at e / day_ms) [] (alter placed.1 (empty_cell num) (on_cell prices e))
              s.days;
        hours = on_hours e placed.1 s.hours;
        unpriced = on_unpriced prices e s.unpriced;
      }

  -- `s.lastEventId !== null && e.id <= s.lastEventId`
  abbrev pub is_seen : Option Text → Text → Bool
  is_seen none id = false
  is_seen (some last) id = text_leb id last

  unfoldable pub apply_loop : Prices num → TractionState num → List RouterEvent → TractionState num
  apply_loop prices s [] = s
  apply_loop prices s (e ∷ es) =
      apply_loop prices (if is_seen s.last_event_id (event_id e) then s else count_event prices e s)
        es

  unfoldable pub drop_hours : ℕ → TractionState num → TractionState num
  drop_hours now s = record s { hours = from_key (cutoff now) s.hours }

  unfoldable pub apply_events :
      TractionState num → List RouterEvent → Prices num → ℕ → TractionState num
  apply_events prev events prices now = drop_hours now (apply_loop prices prev events)

  -- `applyLive`: every wallet's live counts, wallets that only the views know added first.
  unfoldable pub add_known : List (Wallet num) → List (Text × Live) → List (Wallet num)
  add_known ws [] = []
  add_known ws ((address, l) ∷ live) =
      let rest = add_known ws live in
      if any (λ w. text_eq w.address address) ws then rest else new_wallet num address ∷ rest

  abbrev pub no_live : Live
  no_live = record { autopilots = 0; rules = 0 }

  unfoldable pub apply_live : TractionState num → Assoc Live → TractionState num
  apply_live prev live = record prev {
    wallets =
        map {A = Wallet num} (λ w. record w { live = or_else (get w.address live) no_live })
          (prev.wallets ++ add_known prev.wallets live);
  }
