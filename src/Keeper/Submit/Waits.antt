-- ===== src/Keeper/Submit/Waits.antt =====
-- keeper/src/keeper.ts: after a refusal by the rate limit an autopilot is left alone for a quarter of an hour.
use koul.Base.{
  ◌+◌, ◌<◌, true, Option, none, some, ◌≡◌, refl, ap, ◌∙◌, Text, codes, contains, or_else, ltb,
  lt→ltb, get, get-put_same, Num,
}
use koul.Core.Swap.{SwapSdk, SwapRequest, ServerQuote}
use koul.Keeper.State.{Due, operation_failed, Chain, Grant, KeeperState}
use koul.Keeper.Plan.{tag, backs_off, plan_one}
use koul.Keeper.Submit.{joined, contract_codes, with_result, rate_limit_backoff_ms}

module _ (num : Num) (sdk : SwapSdk) (chain : Chain)
    (ask_quote : SwapRequest num sdk → chain.W → Option (ServerQuote num sdk) × chain.W) where
  until_set :
      (g : Grant chain) (d : Due) (message : Text) (st : KeeperState chain)
      → contains (codes "#7106") (joined (contract_codes message)) ≡ true
      → get (tag d.user d.id) (with_result chain g d (operation_failed message) st).backoff_until
        ≡ some (chain.now st.world + rate_limit_backoff_ms)
  until_set g d message st h =
      rw h (
        get-put_same (tag d.user d.id) (chain.now st.world + rate_limit_backoff_ms)
          st.backoff_until)

  -- After a submission that failed with the rate limit's code, planning the same autopilot within the next
  -- 900 seconds gives nothing, reads nothing from the chain and counts one more left alone, when the entry
  -- kept for this autopilot is still the one that the refusal set, whatever else is kept by then.
  pub rate_limited-waits :
      (g : Grant chain) (d : Due) (message : Text) (st later : KeeperState chain)
      → contains (codes "#7106") (joined (contract_codes message)) ≡ true
      → get (tag d.user d.id) later.backoff_until
        ≡ get (tag d.user d.id) (with_result chain g d (operation_failed message) st).backoff_until
      → chain.now later.world < chain.now st.world + rate_limit_backoff_ms
      → ((plan_one num sdk chain ask_quote d.user d.id later).0 ≡ none)
        × ((plan_one num sdk chain ask_quote d.user d.id later).1.world ≡ later.world)
        × ((plan_one num sdk chain ask_quote d.user d.id later).1.pass.backed_off
            ≡ later.pass.backed_off + 1)
  unfolding plan_one
  rate_limited-waits g d message st later h same soon =
      let until : get (tag d.user d.id) later.backoff_until
          ≡ some (chain.now st.world + rate_limit_backoff_ms) =
        same ∙ until_set g d message st h in
      let waits : backs_off num sdk chain ask_quote d.user d.id later ≡ true =
        ap (λ o. ltb (chain.now later.world) (or_else o 0)) until ∙ lt→ltb _ _ soon in
      rw waits (refl, refl, refl)
