-- ===== src/Keeper/Submit.antt =====
-- keeper/src/keeper.ts, `submitOne`, `submitUser` and `forgetGrant`: what is sent and how it is counted.
pub mod Laws
pub mod Among
pub mod Waits
use koul.Base.{
  ℕ, zero, suc, ◌+◌, ◌*◌, Bool, true, false, not, ◌&&◌, ◌||◌, ◌==◌, Option, none, some, List, [],
  ◌∷◌, ◌++◌, ltb, or_else, if◌then◌else◌, Text, codes, starts_with, contains, member, is_nil, put,
  remove, inl, inr, ◌⊎◌, is_space, text_eq, keep, trim, drop,
}
use koul.Core.Decimal.{is_digit}
use koul.Core.SecretGuard.{take}
use koul.Keeper.State.{
  Due, Ticked, tick_threw, tick_refused, tick_answered, Submitted, operation_threw,
  operation_failed, operation_sent, Chain, Counts, Grant, KeeperState, note,
}
use koul.Keeper.Plan.{tag}

-- Digits and a closing parenthesis: the digits
unfoldable pub closing : Text → Text → Option Text
closing digits [] = none
closing digits (c ∷ s) =
    let more = closing (digits ++ c ∷ []) s in
    if is_digit c then more else if (c == b')') && not (is_nil digits) then some digits else none

-- A match of /Error\(Contract, #\d+\)/ at the start: its digits
unfoldable pub match_here : Text → Option Text
unfolding closing
match_here s = if starts_with (codes "Error(Contract, #") s then closing [] (drop 17 s) else none

abbrev pub with_match : Option Text → List Text → List Text
with_match none more = more
with_match (some digits) more =
    let code = codes "Error(Contract, #" ++ digits ++ codes ")" in
    code ∷ keep (λ other. not (text_eq other code)) more

-- The contract error codes of a message. No match holds the start of another.
unfoldable pub contract_codes : Text → List Text
unfolding match_here
contract_codes [] = []
contract_codes (c ∷ s) = with_match (match_here (c ∷ s)) (contract_codes s)

-- `s.replace(/\s+/g, " ")`; the test says whether a space stands before
unfoldable pub squeeze : Bool → Text → Text
squeeze spaced [] = []
squeeze spaced (c ∷ s) =
    let after = squeeze (is_space c) s in
    if is_space c then (if spaced then after else 32 ∷ after) else c ∷ after

-- `[...].join(",")`
abbrev pub joined : List Text → Text
joined [] = []
joined (t ∷ []) = t
joined (t ∷ u ∷ ts) = t ++ b',' ∷ joined (u ∷ ts)

-- `a || b`
abbrev pub or_text : Text → Text → Text
or_text [] b = b
or_text (c ∷ a) b = c ∷ a

abbrev pub rate_limit_backoff_ms : ℕ
rate_limit_backoff_ms = 900000

module _ (chain : Chain) where
  open chain use {W}

  abbrev pub skip : Text → KeeperState chain → KeeperState chain
  skip reason st = record st {
    pass = note reason (record st.pass { skipped = st.pass.skipped + 1 });
  }

  abbrev pub fail : KeeperState chain → KeeperState chain
  fail st = record st { pass = record st.pass { failed = st.pass.failed + 1 } }

  -- A refusal by the wallet's rate limit starts its back-off.
  abbrev pub back_off : Due → Text → KeeperState chain → KeeperState chain
  back_off d codes_text st =
      if contains (codes "#7106") codes_text
      then record st {
        backoff_until =
            put (tag d.user d.id) (chain.now st.world + rate_limit_backoff_ms) st.backoff_until;
      }
      else st

  -- An exception that is caught outside: counted, and its message only logged
  abbrev pub after_send : Text ⊎ Unit {0} → KeeperState chain → KeeperState chain
  after_send (inl message) st = fail st
  after_send (inr u) st = st

  abbrev pub with_result : Grant chain → Due → Submitted → KeeperState chain → KeeperState chain
  with_result grant d (operation_threw message) st = fail st
  with_result grant d (operation_failed message) st =
      let found = joined (contract_codes message) in
      let st' = back_off d found (fail st) in
      record st' {
        pass =
            note (codes "submit " ++ or_text found (take 80 (trim (squeeze false message))))
              st'.pass;
      }
  with_result grant d (operation_sent hash) st =
      let (seen, w) = chain.look_up grant.kit hash st.world in
      after_send seen
        (record st { world = w; pass = record st.pass { submitted = st.pass.submitted + 1 } })

  -- `grant.agentRuleId!`
  unfoldable pub send : Grant chain → Due → KeeperState chain → KeeperState chain
  send grant d st =
      let (result, w) =
        chain.operation grant.kit grant.selected (or_else grant.agent_rule_id 0) d st.world in
      with_result grant d result (record st { world = w })

  abbrev pub with_entries : Grant chain → Due → Option ℕ → KeeperState chain → KeeperState chain
  with_entries grant d none st = st
  with_entries grant d (some zero) st = st
  with_entries grant d (some (suc n)) st = send grant d st

  abbrev pub refusal : Option Text → Text
  refusal none = codes "error"
  refusal (some message) = or_text (joined (contract_codes message)) (codes "error")

  abbrev pub with_tick : Grant chain → Due → Ticked → KeeperState chain → KeeperState chain
  with_tick grant d (tick_threw message) st =
      skip (codes "sim " ++ take 80 (squeeze false message)) st
  with_tick grant d (tick_refused message) st = skip (codes "sim " ++ refusal message) st
  with_tick grant d (tick_answered entries) st = with_entries grant d entries st

  -- `submitOne`, with the `catch` of `submitUser` around it
  unfoldable pub submit_one : Grant chain → Due → KeeperState chain → KeeperState chain
  submit_one grant d st =
      let (ticked, w) = chain.tick d st.world in with_tick grant d ticked (record st { world = w })

  unfoldable pub forget_grant : Text → KeeperState chain → KeeperState chain
  forget_grant user st = record st {
    grants = remove user st.grants;
    autopilot_ids = remove user st.autopilot_ids;
  }

  abbrev pub bad : KeeperState chain → ℕ
  bad st = st.pass.failed + st.pass.skipped

  -- What the other workers do to what they all share, the counts among it, while this one waits
  abbrev pub Others : Type 0
  Others = KeeperState chain → KeeperState chain

  abbrev pub idle : Others
  idle st = st

  -- One due autopilot, and the grant dropped if a tick went badly, this one or another worker's
  unfoldable pub submit_due :
      Others → Text → Grant chain → Due → KeeperState chain → KeeperState chain
  submit_due others user grant d st =
      let st' = others (submit_one grant d st) in
      if ltb (bad st) (bad st') then forget_grant user st' else st'

  unfoldable pub submit_user :
      Others → Text → Grant chain → List Due → KeeperState chain → KeeperState chain
  submit_user others user grant [] st = st
  submit_user others user grant (d ∷ dues) st =
      submit_user others user grant dues (submit_due others user grant d st)
