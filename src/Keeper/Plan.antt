-- ===== src/Keeper/Plan.antt =====
-- keeper/src/keeper.ts, `tag` and `planOne`: what an autopilot has due. Log lines, and the `check` that is read for
-- one, are left out. Of an exception only that it was thrown matters here.
use koul.Base.{
  ℕ, ◌+◌, Bool, true, Option, none, some, ◌++◌, ◌∷◌, ltb, or_else, if◌then◌else◌, Text, get, Num,
}
use koul.Core.Decimal.{to_text}
use koul.Core.SecretGuard.{take}
use koul.Core.Swap.{
  SwapSdk, Swapped, failed, swapped, check_swap_deployment, SwapRequest, ServerQuote, SwapQuote,
  quote_swap,
}
use koul.Keeper.State.{Planned, Due, Chain, KeeperState}

unfoldable pub tag : Text → ℕ → Text
tag user id = take 8 user ++ b'#' ∷ to_text id

abbrev pub due : Text → ℕ → Option Text → Due
due user id route = record { user = user; id = id; route = route }

module _ (num : Num) (sdk : SwapSdk) (chain : Chain)
    (ask_quote : SwapRequest num sdk → chain.W → Option (ServerQuote num sdk) × chain.W) where
  open chain use {W}
  open num use {lit}

  abbrev pub Planning : Type 0
  Planning = Option Due × KeeperState chain

  abbrev pub request_of : Planned → SwapRequest num sdk
  request_of p = record {
    token_from = p.token_in;
    token_to = p.token_out;
    amount_in = p.amount;
    slippage = lit 1 2;
    min_out = none;
  }

  abbrev pub with_bytes : Text → ℕ → Option Text → KeeperState chain → Planning
  with_bytes user id none st = (none, st)
  with_bytes user id (some route) st = (some (due user id (some route)), st)

  -- The quote against the router's floor, then the route's bytes
  abbrev pub with_quote :
      Text → ℕ → Planned → Swapped (SwapQuote num sdk) → KeeperState chain → Planning
  with_quote user id p (failed e) st = (none, st)
  with_quote user id p (swapped q) st =
      if ltb q.amount_out p.min_out
      then (none, st)
      else with_bytes user id (chain.route_bytes q.route_xdr) st

  unfoldable pub quote_for : Text → ℕ → Planned → KeeperState chain → Planning
  quote_for user id p st =
      let (answer, w) = ask_quote (request_of p) st.world in
      with_quote user id p (quote_swap num sdk (request_of p) answer) (record st { world = w })

  abbrev pub with_config : Text → ℕ → Planned → Swapped (Unit {0}) → KeeperState chain → Planning
  with_config user id p (failed e) st = (none, st)
  with_config user id p (swapped ok) st =
      quote_for user id p (record st { deployment_checked = true })

  -- The quote server's deployment is checked once.
  unfoldable pub route_for : Text → ℕ → Planned → KeeperState chain → Planning
  route_for user id p st =
      if st.deployment_checked
      then quote_for user id p st
      else (let (answer, w) = chain.config st.world in
          with_config user id p (check_swap_deployment chain.trusted answer)
            (record st { world = w }))

  abbrev pub with_planned : Text → ℕ → Option (Option Planned) → KeeperState chain → Planning
  with_planned user id none st = (none, st)
  with_planned user id (some none) st = (none, st)
  with_planned user id (some (some p)) st =
      if p.needs_route then route_for user id p st else (some (due user id none), st)

  -- `(backoffUntil.get(tag) ?? 0) > Date.now()`
  abbrev pub backs_off : Text → ℕ → KeeperState chain → Bool
  backs_off user id st = ltb (chain.now st.world) (or_else (get (tag user id) st.backoff_until) 0)

  unfoldable pub plan_one : Text → ℕ → KeeperState chain → Planning
  plan_one user id st =
      if backs_off user id st
      then (none, record st { pass = record st.pass { backed_off = st.pass.backed_off + 1 } })
      else (let (planned, w) = chain.next_action user id st.world in
          with_planned user id planned (record st { world = w }))
