-- ===== src/Funds/Advance.antt =====
-- packages/core/src/funds.ts, `advance` and `simulateBankTransfer`. What the anchor, the network and the
-- relay answer is given; an answer that is missing is a call that throws. The result has the record as
-- it then stands, what was done in order, and what is published, if nothing threw. The store's `put` is
-- taken to succeed.
use koul.Base.{
  ℕ, Bool, true, false, not, ◌||◌, Option, none, some, List, [], ◌∷◌, ◌++◌, Text, codes, text_eq,
  truthy, ltb, or_else, if◌then◌else◌, contains,
}
use koul.Funds.State.{
  FundsKind, deposit, withdraw, FundsStage, awaiting_bank, awaiting_passkey, awaiting_anchor,
  forwarding, completed, failed, FundsRecord, FundsPublic, public_funds_record,
}

pub record Sep6Status : Type 0 where
  pub status : Text
  pub message : Option Text

pub record Answers : Type 0 where
  -- `sep6Transaction`
  pub status : Option Sep6Status
  -- `balance`, whose own `null` is the inner option
  pub landing : Option (Option ℕ)
  -- the hashes of `submitPreauthorized`
  pub forward : Option Text
  pub cleanup : Option Text

pub data Effect : Type 0 where
  put : FundsRecord → Effect
  submit_forward submit_cleanup : (xdr : Text) → Effect

pub record Advanced : Type 0 where
  pub record_ : FundsRecord
  pub effects : List Effect
  pub answer : Option FundsPublic

-- /error|expired|refunded/
unfoldable pub is_broken : Text → Bool
is_broken s =
    contains (codes "error") s || contains (codes "expired") s || contains (codes "refunded") s

abbrev pub is_completed : Text → Bool
is_completed s = text_eq s (codes "completed")

abbrev pub answered : FundsRecord → Text → List Effect → Advanced
answered r status effects = record {
  record_ = r;
  effects = effects;
  answer = some (public_funds_record r (some status));
}

abbrev pub thrown : FundsRecord → List Effect → Advanced
thrown r effects = record { record_ = r; effects = effects; answer = none }

-- `landing === null || landing < amount`
abbrev pub is_short : Option ℕ → ℕ → Bool
is_short none amount = true
is_short (some b) amount = ltb b amount

-- The last part: a deposit, or a withdrawal that the anchor has completed, is completed.
abbrev pub must_wait : FundsKind → Text → Bool
must_wait deposit status = false
must_wait withdraw status = not (is_completed status)

abbrev pub complete : Text → FundsRecord → List Effect → Advanced
complete status r effects =
    let r' = record r { stage = completed } in answered r' status (effects ++ put r' ∷ [])

unfoldable pub finish : Text → FundsRecord → List Effect → Advanced
finish status r effects =
    if must_wait r.kind status then answered r status effects else complete status r effects

abbrev pub cleaned_up : Text → Option Text → FundsRecord → List Effect → Advanced
cleaned_up status none r effects = thrown r (effects ++ submit_cleanup r.plan.cleanup_tx_xdr ∷ [])
cleaned_up status (some hash) r effects =
    let r' = record r { cleanup_hash = some hash } in
    finish status r' (effects ++ submit_cleanup r.plan.cleanup_tx_xdr ∷ put r' ∷ [])

unfoldable pub clean_up : Text → Option Text → FundsRecord → List Effect → Advanced
clean_up status hash r effects =
    if truthy r.cleanup_hash then finish status r effects else cleaned_up status hash r effects

abbrev pub forwarded : Text → Answers → FundsRecord → Option Text → List Effect → Advanced
forwarded status a r none effects = thrown r (effects ++ submit_forward r.plan.forward_tx_xdr ∷ [])
forwarded status a r (some hash) effects =
    let r' = record r { forward_hash = some hash; stage = awaiting_anchor } in
    clean_up status a.cleanup r' (effects ++ submit_forward r.plan.forward_tx_xdr ∷ put r' ∷ [])

unfoldable pub forward : Text → Answers → FundsRecord → List Effect → Advanced
forward status a r effects =
    if truthy r.forward_hash
    then clean_up status a.cleanup r effects
    else forwarded status a r a.forward effects

-- By the kind and stage: whether the money is there.
abbrev pub when_funded :
    Sep6Status → Answers → Option ℕ → FundsRecord → FundsKind → FundsStage → Advanced
when_funded st a landing r deposit stage =
    if not (is_completed st.status) || is_short landing r.plan.amount_stroops
    then answered r st.status []
    else forward st.status a r []
when_funded st a landing r withdraw awaiting_passkey =
    if is_short landing r.plan.amount_stroops
    then answered r st.status []
    else let r' = record r { stage = forwarding } in forward st.status a r' (put r' ∷ [])
when_funded st a landing r withdraw _ = forward st.status a r []

-- The landing account is gone.
abbrev pub is_gone : Option ℕ → FundsRecord → Text → Bool
is_gone (some b) r status = false
is_gone none r status = truthy r.forward_hash || is_completed status

unfoldable pub with_landing : Sep6Status → Answers → Option ℕ → FundsRecord → Advanced
with_landing st a landing r =
    if is_gone landing r st.status
    then complete st.status r []
    else when_funded st a landing r r.kind r.stage

abbrev pub landing_read : Sep6Status → Answers → FundsRecord → Option (Option ℕ) → Advanced
landing_read st a r none = thrown r []
landing_read st a r (some landing) = with_landing st a landing r

abbrev pub fail : Sep6Status → FundsRecord → Advanced
fail st r =
    let r' = record r { stage = failed; error = some (or_else st.message st.status) } in
    answered r' st.status (put r' ∷ [])

unfoldable pub with_status : Answers → FundsRecord → Option Sep6Status → Advanced
with_status a r none = thrown r []
with_status a r (some st) = if is_broken st.status then fail st r else landing_read st a r a.landing

abbrev pub is_terminal : FundsStage → Bool
is_terminal completed = true
is_terminal failed = true
is_terminal _ = false

-- `advance`, once the record is found
unfoldable pub advance : Answers → FundsRecord → Advanced
advance a r =
    if is_terminal r.stage
    then record { record_ = r; effects = []; answer = some (public_funds_record r none) }
    else with_status a r a.status

-- `simulateBankTransfer`: none where it throws
unfoldable pub simulate_bank_transfer : FundsRecord → Option FundsPublic
simulate_bank_transfer r = elim r.kind [
  | deposit ↦ elim r.stage [
    | awaiting_bank ↦ some (public_funds_record r (some (codes "pending_anchor")))
    | _ ↦ none
  ]
  | withdraw ↦ none
]
