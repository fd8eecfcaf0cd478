-- ===== src/Core/Swap.antt =====
-- packages/core/src/swap.ts: quotes of the swap server, checked, and routes over known pools. The XOXNO SDK is
-- an interface; an exception is an error value.
pub mod Laws
mod Types
unfoldable pub use Types.*
use koul.Base.{
  ℕ, ◌+◌, ◌-◌, ◌*◌, ◌/◌, ◌==◌, Bool, true, false, not, ◌&&◌, ◌||◌, Option, none, some, List, [],
  ◌∷◌, map, reverse, is_nil, last, all, ltb, if◌then◌else◌, or_else, map_option, Text, codes,
  text_eq, truthy, Num,
}
use koul.Core.Decimal.{is_digit, big, to_text}

-- The venue of a pool for the router
unfoldable pub venue : Text → Option Text
venue dex =
    if text_eq dex (codes "Aquarius")
    then some (codes "Aquarius")
    else if text_eq dex (codes "AquariusClmm")
    then some (codes "Aquarius")
    else if text_eq dex (codes "Soroswap")
    then some (codes "Soroswap")
    else if text_eq dex (codes "Phoenix")
    then some (codes "Phoenix")
    else if text_eq dex (codes "Sushi")
    then some (codes "Sushi")
    else if text_eq dex (codes "Comet")
    then some (codes "CometDex")
    else if text_eq dex (codes "Curve")
    then some (codes "Curve")
    else none

abbrev pub turned : SwapHop → SwapHop
turned h = record { dex = h.dex; pool = h.pool; token_from = h.token_to; token_to = h.token_from }

unfoldable pub reverse_hops : List SwapHop → List SwapHop
reverse_hops hops = map turned (reverse hops)

abbrev pub adapter : SwapHop → Option Text → Swapped Hop
adapter h none = failed (no_adapter h.dex)
adapter h (some v) =
    swapped (record { venue = v; pool = h.pool; token_in = h.token_from; token_out = h.token_to })

unfoldable pub adapters : List SwapHop → Swapped (List Hop)
adapters [] = swapped []
adapters (h ∷ hops) = do
  first ← adapter h (venue h.dex)
  rest ← adapters hops
  swapped (first ∷ rest)

-- No hop begins elsewhere than where the one before it ended.
unfoldable pub links : List SwapHop → Bool
links [] = true
links (h ∷ []) = true
links (h ∷ k ∷ hops) = text_eq h.token_to k.token_from && links (k ∷ hops)

abbrev pub starts_at : Text → List SwapHop → Bool
starts_at from_token [] = false
starts_at from_token (h ∷ hops) = text_eq h.token_from from_token

abbrev pub ends_at : Text → Option SwapHop → Bool
ends_at to_token none = false
ends_at to_token (some h) = text_eq h.token_to to_token

-- The hops lead from the input to the output token.
unfoldable pub chains : Text → Text → List SwapHop → Bool
chains from_token to_token hops =
    starts_at from_token hops && ends_at to_token (last hops) && links hops

module _ (num : Num) (sdk : SwapSdk) where
  open num use {F, lit, lt, le}

  pub record SwapRequest : Type 0 where
    pub token_from : Text
    pub token_to : Text
    pub amount_in : ℕ
    pub slippage : F
    pub min_out : Option ℕ

  -- The server's answer, with whether `mapQuoteResponseToStrategySwap` takes it
  pub record ServerQuote : Type 0 where
    pub route_xdr : Option Text
    pub amount_out_min : Option Text
    pub token_from : Text
    pub token_to : Text
    pub amount_in : Text
    pub amount_out : Text
    pub price_impact : Option F
    pub rate : F
    pub hops : List SwapHop
    pub snapshot_ledger : Option ℕ
    pub maps_to : Expected → Bool

  pub record SwapQuote : Type 0 where
    pub token_from : Text
    pub token_to : Text
    pub amount_in : ℕ
    pub amount_out : ℕ
    pub min_out : ℕ
    pub price_impact : Option F
    pub rate : F
    pub hops : List SwapHop
    pub snapshot_ledger : Option ℕ
    pub route_xdr : Text

  -- `req.minOut ?? BigInt(q.amountOutMin)`
  abbrev pub accepted : Option ℕ → Text → Swapped ℕ
  accepted none least = big_int least
  accepted (some m) least = swapped m

  abbrev pub asked : SwapRequest → ℕ → Expected
  asked req min_out = record {
    token_in = req.token_from;
    token_out = req.token_to;
    amount_in = req.amount_in;
    min_out = min_out;
  }

  abbrev pub quoted : SwapRequest → ServerQuote → Text → Text → Swapped SwapQuote
  quoted req q xdr least = do
    same_request ←
        must
          (text_eq q.token_from req.token_from
            && text_eq q.token_to req.token_to
            && text_eq q.amount_in (to_text req.amount_in))
          mismatch
    floor ← accepted req.min_out least
    mapped ← must (q.maps_to (asked req floor)) route_refused
    min_out ← given route_refused (sdk.verify xdr (asked req floor))
    amount_out ← big_int q.amount_out
    swapped (record {
      token_from = q.token_from;
      token_to = q.token_to;
      amount_in = req.amount_in;
      amount_out = amount_out;
      min_out = min_out;
      price_impact = q.price_impact;
      rate = q.rate;
      hops = q.hops;
      snapshot_ledger = q.snapshot_ledger;
      route_xdr = xdr;
    })

  abbrev pub executable : SwapRequest → ServerQuote → Option Text → Option Text → Swapped SwapQuote
  executable req q (some (c ∷ xdr)) (some (d ∷ least)) = quoted req q (c ∷ xdr) (d ∷ least)
  executable req q xdr least = failed no_route

  -- The checks before the server is asked
  unfoldable pub request_ok : SwapRequest → Swapped (Unit {0})
  request_ok req = do
    other ← must (not (text_eq req.token_from req.token_to)) same_token
    some_in ← must (ltb 0 req.amount_in) no_amount
    must (lt (lit 0 0) req.slippage && lt req.slippage (lit 5 1)) bad_slippage

  -- `quoteSwap`, on what the server answers to the request
  unfoldable pub quote_swap : SwapRequest → Option ServerQuote → Swapped SwapQuote
  quote_swap req response = do
    ready ← request_ok req
    q ← given unreachable response
    executable req q q.route_xdr q.amount_out_min

  -- The floor of a path: `ppm` is `Math.floor(r.slippage * 1_000_000)`, below 500000.
  unfoldable pub path_floor : ℕ → ℕ → ℕ
  path_floor expected_out ppm = expected_out * (1000000 - ppm) / 1000000

  abbrev pub verified : Text → Text → ℕ → ℕ → List SwapHop → ℕ → Text → ℕ → SwapQuote
  verified from_token to_token amount_in expected_out hops floor xdr min_out = record {
    token_from = from_token;
    token_to = to_token;
    amount_in = amount_in;
    amount_out = expected_out;
    min_out = min_out;
    price_impact = none;
    rate = lit 0 0;
    hops = hops;
    snapshot_ledger = none;
    route_xdr = xdr;
  }

  unfoldable pub path_route :
      (from_token to_token : Text) (amount_in expected_out : ℕ) (slippage : F) (ppm : ℕ)
      → List SwapHop
      → Swapped SwapQuote
  path_route from_token to_token amount_in expected_out slippage ppm hops = do
    chained ← must (chains from_token to_token hops) broken_chain
    sane ← must (le (lit 0 0) slippage && lt slippage (lit 5 1)) bad_slippage
    let floor = path_floor expected_out ppm
    some_out ← must (ltb 0 floor) no_minimum
    legs ← adapters hops
    xdr ← given route_refused (sdk.encode from_token to_token (to_text floor) legs)
    min_out ← given route_refused (
        sdk.verify xdr (record {
          token_in = from_token;
          token_out = to_token;
          amount_in = amount_in;
          min_out = floor;
        }))
    swapped (verified from_token to_token amount_in expected_out hops floor xdr min_out)
