-- ===== src/Model/SaveSteps.antt =====
-- web/lib/model/save-steps.ts: the passkey steps behind Save, with a state each.
use koul.Base.{
  ℕ, suc, Bool, true, false, not, ◌&&◌, Option, none, some, List, [], ◌∷◌, ◌++◌, map, Text, codes,
  or_else, if◌then◌else◌, ltb,
}

pub data StepKey : Type 0 where
  open_account grant rules clear revoke : StepKey

pub data StepState : Type 0 where
  done active pending failed : StepState

pub record SaveStep : Type 0 where
  pub key : StepKey
  pub label : Text
  pub state : StepState
  pub detail : Option Text

-- `STEP_LABELS`
abbrev pub step_label : StepKey → Text
step_label open_account = codes "Open XOXNO account"
step_label grant = codes "Give access"
step_label rules = codes "Save rules"
step_label clear = codes "Remove rules"
step_label revoke = codes "Revoke access"

unfoldable pub plan_delete : (has_access : Bool) → List StepKey
plan_delete has_access = if has_access then clear ∷ revoke ∷ [] else clear ∷ []

unfoldable pub plan_steps : (needs_position has_access : Bool) → List StepKey
plan_steps needs_position has_access =
    (if needs_position then open_account ∷ [] else [])
    ++ ((if has_access then [] else grant ∷ []) ++ rules ∷ [])

-- web/hooks/use-passkey-action.ts: where one passkey action stands
pub data ActionPhase : Type 0 where
  idle building prompt signed submitting success cancelled phase_error : ActionPhase

abbrev pub phase_detail : ActionPhase → Option Text
phase_detail building = some (codes "Preparing the transaction")
phase_detail prompt = some (codes "Confirm with your passkey")
phase_detail signed = some (codes "Signed · checking with the network")
phase_detail submitting = some (codes "Sent · waiting for the ledger to close")
phase_detail idle = none
phase_detail success = none
phase_detail cancelled = none
phase_detail phase_error = none

pub record Progress : Type 0 where
  pub plan : List StepKey
  pub done_steps : StepKey → Bool
  pub active_step : Option (StepKey × Option Text)
  pub failed_step : Option (StepKey × Text)
  pub labels : StepKey → Option Text

abbrev pub rank_of : StepKey → ℕ
rank_of open_account = 0
rank_of grant = 1
rank_of rules = 2
rank_of clear = 3
rank_of revoke = 4

abbrev pub same_key : StepKey → StepKey → Bool
same_key j k = not (ltb (rank_of j) (rank_of k)) && not (ltb (rank_of k) (rank_of j))

-- The detail of the running or failed step, when it is this one
abbrev pub active_detail : StepKey → Option (StepKey × Option Text) → Option (Option Text)
active_detail key none = none
active_detail key (some (k, detail)) = if same_key k key then some detail else none

abbrev pub failed_reason : StepKey → Option (StepKey × Text) → Option Text
failed_reason key none = none
failed_reason key (some (k, reason)) = if same_key k key then some reason else none

abbrev pub step_of : StepKey → Text → Option (Option Text) → Bool → Option Text → SaveStep
step_of key label (some detail) is_done reason = record {
  key = key;
  label = label;
  state = active;
  detail = detail;
}
step_of key label none true reason = record {
  key = key;
  label = label;
  state = done;
  detail = none;
}
step_of key label none false (some reason) = record {
  key = key;
  label = label;
  state = failed;
  detail = some reason;
}
step_of key label none false none = record {
  key = key;
  label = label;
  state = pending;
  detail = none;
}

unfoldable pub save_steps : Progress → List SaveStep
save_steps p =
    map
      (λ key.
        step_of key (or_else (p.labels key) (step_label key)) (active_detail key p.active_step)
          (p.done_steps key) (failed_reason key p.failed_step))
      p.plan

abbrev pub is_done : StepState → Bool
is_done done = true
is_done _ = false

-- `findIndex`, with the length where there is none
unfoldable pub active_index : List SaveStep → ℕ
active_index [] = 0
active_index (s ∷ ss) = let rest = active_index ss in if is_done s.state then suc rest else 0
