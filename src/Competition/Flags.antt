-- ===== src/Competition/Flags.antt =====
-- packages/core/src/competition.ts: why an entry is flagged, which rules read the mock oracle, and
-- whose money a transfer moves. The three reasons are constructors with the numbers of their texts.
pub mod Laws
use koul.Base.{
  ℕ, suc, ◌+◌, Bool, true, false, not, ◌&&◌, ◌||◌, Option, none, some, List, [], ◌∷◌, ◌++◌, Text,
  leb, ltb, any, ◌==◌, length, or_else, if◌then◌else◌, is_nil, Num,
}
use koul.Core.Schema.{Condition, fx_price, Rule, Autopilot}
use koul.Competition.Value.{CapitalCheck, CompetitionConfig}

unfoldable pub is_fx : Condition → Bool
is_fx (fx_price asset cmp level age) = true
is_fx _ = false

unfoldable pub count_fx : List Rule → ℕ
unfolding is_fx
count_fx [] = 0
count_fx (r ∷ rs) = if any is_fx r.conditions then 1 + count_fx rs else count_fx rs

unfoldable pub fx_rules : List (Option Autopilot) → ℕ
unfolding count_fx
fx_rules [] = 0
fx_rules (none ∷ aps) = fx_rules aps
fx_rules (some ap ∷ aps) = count_fx ap.rules + fx_rules aps

pub data Side : Type 0 where
  external internal : Side

abbrev starts_with : ℕ → Text → Bool
starts_with c [] = false
starts_with c (d ∷ s) = d == c

-- An account (G…) or muxed account (M…) is outside money; so is another smart wallet.
unfoldable pub counterparty_kind : Text → (Text → Bool) → Side
counterparty_kind address is_smart_wallet =
    if starts_with b'G' address || starts_with b'M' address
    then external
    else if is_smart_wallet address
    then external
    else internal

module _ (num : Num) where
  open num use {F, lit, add, sub, mul, lt}

  pub record EntryTotals : Type 0 where
    pub net_in_usd : F
    pub in_usd : F
    pub out_usd : F
    pub manual_txs : ℕ
    pub swap_edge_usd : Option F

  pub data Reason : Type 0 where
    not_by_autopilot : ℕ → Reason
    capital_over_basket : (outside basket : F) → Reason
    capital_over_start : (capital allowed : F) → Reason
    fx_rule : Reason

  abbrev pub basket_tolerance : F
  basket_tolerance = lit 1 2

  abbrev pub basket_slack_usd : F
  basket_slack_usd = lit 1 0

  abbrev pub over_basket : CapitalCheck num → Bool
  over_basket c =
      lt (add (mul c.basket (add (lit 1 0) basket_tolerance)) basket_slack_usd) c.outside

  abbrev pub capital_of : EntryTotals → F
  capital_of t = sub t.net_in_usd (or_else t.swap_edge_usd (lit 0 0))

  abbrev pub over_start : EntryTotals → F → Bool
  over_start t allowed = lt (add allowed (lit 1 2)) (capital_of t)

  abbrev pub when : Bool → Reason → List Reason
  when true r = r ∷ []
  when false r = []

  abbrev pub capital_reasons : EntryTotals → F → Option (CapitalCheck num) → List Reason
  capital_reasons t allowed none =
      when (over_start t allowed) (capital_over_start (capital_of t) allowed)
  capital_reasons t allowed (some c) = when (over_basket c) (capital_over_basket c.outside c.basket)

  unfoldable pub flags_for :
      EntryTotals → CompetitionConfig num → Option (CapitalCheck num) → Bool → List Reason
  flags_for t config capital fx =
      when (config.autopilot_only && ltb 0 t.manual_txs) (not_by_autopilot t.manual_txs)
      ++ (capital_reasons t config.starting_capital_usd capital ++ when fx fx_rule)
