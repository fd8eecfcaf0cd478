-- ===== src/Competition/Value.antt =====
-- packages/core/src/competition.ts: what a wallet is worth, the starting basket, outside money, the
-- capital check and the score. Dollars are JavaScript numbers, so the interface `Num`.
pub mod Laws
use koul.Base.{
  ℕ, zero, suc, ◌+◌, ◌-◌, ◌≡◌, Bool, true, false, not, ◌&&◌, ◌||◌, Option, none, some, List, [],
  ◌∷◌, ◌++◌, Text, text_eq, find, or_else, if◌then◌else◌, Assoc, get, ℤ, pos, negsuc, pos_part,
  neg_part, ◌-ℤ◌, is_zero_ℤ, Num,
}

-- Settings a run of the competition is held to.
pub record CompetitionConfig (num : Num) : Type 0 where
  pub id : Text
  pub name : Text
  pub start_ledger : ℕ
  pub end_ledger : Option ℕ
  pub starts_at : Option Text
  pub ends_at : Option Text
  pub starting_capital_usd : num.F
  pub starting_basket : Option (Assoc num.F)
  pub max_entrants : Option ℕ
  pub prize : Option Text
  pub autopilot_only : Bool
  pub exclude_tokens : Option (List Text)

-- A token without a feed is worth $1.
pub record ScoredToken : Type 0 where
  pub symbol : Text
  pub id : Text
  pub decimals : ℕ
  pub feed : Option Text

pub record Holdings : Type 0 where
  pub tokens : Assoc ℤ
  pub supplied : ℤ
  pub borrowed : ℤ

module _ (num : Num) where
  open num use {F, of_int, lit, add, sub, mul, div, lt, is_finite}

  abbrev pub Prices : Type 0
  Prices = Assoc F

  -- USD, and the tokens that had no price
  pub record Valued : Type 0 where
    pub usd : F
    pub unpriced : List Text

  -- 10 ** k
  unfoldable pub power_of_ten : ℕ → F
  power_of_ten zero = lit 1 0
  power_of_ten (suc k) = mul (power_of_ten k) (lit 10 0)

  unfoldable pub units : ℤ → ℕ → F
  unfolding power_of_ten
  units amount decimals = div (of_int amount) (power_of_ten decimals)

  abbrev pub finite_price : Option F → Option F
  finite_price none = none
  finite_price (some p) = if is_finite p then some p else none

  unfoldable pub price_of : ScoredToken → Prices → Option F
  unfolding get
  price_of t prices =
      finite_price (elim t.feed [ none ↦ some (lit 1 0) | some feed ↦ get feed prices ])

  abbrev pub add_priced : Valued → Text → F → Option F → Valued
  add_priced v symbol amount none = record v { unpriced = v.unpriced ++ symbol ∷ [] }
  add_priced v symbol amount (some price) = record v { usd = add v.usd (mul amount price) }

  -- one round of the loop over the tokens
  unfoldable pub add_token : Holdings → Prices → Valued → ScoredToken → Valued
  add_token h prices v t =
      let amount = or_else (get t.symbol h.tokens) (pos 0) in
      if is_zero_ℤ amount
      then v
      else add_priced v t.symbol (units amount t.decimals) (price_of t prices)

  unfoldable pub add_tokens : Holdings → Prices → Valued → List ScoredToken → Valued
  add_tokens h prices v [] = v
  add_tokens h prices v (t ∷ ts) = add_tokens h prices (add_token h prices v t) ts

  unfoldable pub value_usd : Holdings → List ScoredToken → Prices → Valued
  value_usd h tokens prices =
      add_tokens h prices (record { usd = units (h.supplied -ℤ h.borrowed) 7; unpriced = [] })
        tokens

  abbrev pub named : Text → ScoredToken → Bool
  named symbol t = text_eq t.symbol symbol

  -- `!amount`: zero or not a number
  abbrev pub is_falsy : F → Bool
  is_falsy x = not (lt x (lit 0 0)) && not (lt (lit 0 0) x)

  abbrev pub add_entry : Prices → Valued → Text → F → Option ScoredToken → Valued
  add_entry prices v symbol amount none = v
  add_entry prices v symbol amount (some t) =
      if is_falsy amount then v else add_priced v symbol amount (price_of t prices)

  unfoldable pub basket_from : List ScoredToken → Prices → Valued → Assoc F → Valued
  basket_from tokens prices v [] = v
  basket_from tokens prices v ((symbol, amount) ∷ rest) =
      basket_from tokens prices (add_entry prices v symbol amount (find (named symbol) tokens)) rest

  unfoldable pub basket_usd : Assoc F → List ScoredToken → Prices → Valued
  unfolding basket_from
  basket_usd basket tokens prices =
      basket_from tokens prices (record { usd = lit 0 0; unpriced = [] }) basket

  abbrev pub moved_usd : Prices → F → ℤ → Option ScoredToken → F
  moved_usd prices usd amount none = usd
  moved_usd prices usd amount (some t) = elim (price_of t prices) [
    | none ↦ usd
    | some price ↦ add usd (mul (units amount t.decimals) price)
  ]

  -- The amounts moved are texts in the source, which it reads by `BigInt`.
  unfoldable pub outside_usd : Assoc ℤ → F → List ScoredToken → Prices → F
  outside_usd [] usd tokens prices = usd
  outside_usd ((symbol, amount) ∷ rest) usd tokens prices =
      outside_usd rest (moved_usd prices usd amount (find (named symbol) tokens)) tokens prices

  abbrev pub opening_tolerance_usd : F
  opening_tolerance_usd = lit 1 0

  unfoldable pub capital_opening : F → Assoc ℤ → F → List ScoredToken → Prices → F
  unfolding outside_usd
  capital_opening value moved swap_edge tokens prices =
      let unexplained = sub (sub value (outside_usd moved (lit 0 0) tokens prices)) swap_edge in
      if lt opening_tolerance_usd unexplained then unexplained else lit 0 0

  pub record CapitalCheck : Type 0 where
    pub outside : F
    pub basket : F

  -- The part of the indexer's running totals that the capital check reads.
  pub record Opening : Type 0 where
    pub opening_prices : Option Prices
    pub capital_opening_usd : Option F
    pub outside_units : Option (Assoc ℤ)

  abbrev pub check_at : Opening → Assoc F → List ScoredToken → Prices → CapitalCheck
  check_at s basket tokens prices = record {
    outside =
        outside_usd (or_else s.outside_units []) (or_else s.capital_opening_usd (lit 0 0)) tokens
          prices;
    basket = (basket_usd basket tokens prices).usd;
  }

  unfoldable pub capital_check : Opening → Option (Assoc F) → List ScoredToken → Option CapitalCheck
  unfolding outside_usd basket_usd
  capital_check s none tokens = none
  capital_check s (some basket) tokens = elim s.opening_prices [
    | none ↦ none
    | some prices ↦ some (check_at s basket tokens prices)
  ]

  pub record Score : Type 0 where
    pub pnl_usd : F
    pub return_pct : Option F

  unfoldable pub score : F → F → Score
  score value net_in =
      let pnl = sub value net_in in
      record {
        pnl_usd = pnl;
        return_pct = if lt (lit 0 0) net_in then some (mul (div pnl net_in) (lit 100 0)) else none;
      }
