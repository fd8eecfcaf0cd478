-- ===== src/Keeper/State.antt =====
-- keeper/src/keeper.ts: what the keeper keeps between passes, and the chain, the quote server and the clock
-- that it talks to, as an interface.
use koul.Base.{ℕ, Bool, Option, List, [], ◌∷◌, ◌++◌, length, ltb, if◌then◌else◌, Text, Assoc, ◌⊎◌}
use koul.Core.SecretGuard.{take}
use koul.Core.Swap.{SwapDeployment, ServerConfig}

-- What `next_action` says of a rule that is due
pub record Planned : Type 0 where
  pub rule_index : ℕ
  pub needs_route : Bool
  pub token_in : Text
  pub token_out : Text
  pub amount : ℕ
  pub min_out : ℕ

pub record Signer : Type 0 where
  pub is_external : Bool
  pub address : Text

pub record ContextRule : Type 0 where
  pub id : ℕ
  pub signers : List Signer
  pub policies : List Text
  pub valid_until : Option ℕ

pub record Due : Type 0 where
  pub user : Text
  pub id : ℕ
  pub route : Option Text

-- `tick`'s simulation: it throws, it has an error (none when there is no simulation), or it says how many
-- authorisations the action needs, if there is an action.
pub data Ticked : Type 0 where
  tick_threw : Text → Ticked
  tick_refused : Option Text → Ticked
  tick_answered : (entries : Option ℕ) → Ticked

-- What became of a submission: an exception, a failure with its message, or a hash
pub data Submitted : Type 0 where
  operation_threw : Text → Submitted
  operation_failed : Text → Submitted
  operation_sent : Text → Submitted

pub record Chain : Type 1 where
  pub W : Type 0
  pub Kit : Type 0
  pub Selected : Type 0
  pub now : W → ℕ
  -- the mock oracle's last price with its time, none where it has none, and its setter
  pub last_price : W → Option (Option (ℕ × ℕ)) × W
  pub set_price : ℕ → W → W
  pub list_users : W → Option (List Text) × W
  pub latest_ledger : W → Option ℕ × W
  pub list_ids : Text → W → (Text ⊎ List ℕ) × W
  pub next_action : Text → ℕ → W → Option (Option Planned) × W
  -- the deployment that is trusted, and the quote server's answer about its own
  pub trusted : SwapDeployment
  pub config : W → Option (Bool × ServerConfig) × W
  -- base64 XDR to bytes
  pub route_bytes : Text → Option Text
  pub tick : Due → W → Ticked × W
  pub operation : Kit → List Selected → ℕ → Due → W → Submitted × W
  -- `getTransaction` after a submission, and what is logged of it
  pub look_up : Kit → Text → W → (Text ⊎ Unit {0}) × W
  -- the kit's calls; an exception has a message
  pub connect : (user payer : Text) → W → (Text ⊎ Kit) × W
  pub rule_count : Kit → W → (Text ⊎ ℕ) × W
  pub list_rules : Kit → W → (Text ⊎ List ContextRule) × W
  pub available : Kit → W → (Text ⊎ List Selected) × W
  pub is_ed25519 : Selected → Bool
  pub verifier : Text

-- Counts since the last heartbeat
pub record Counts : Type 0 where
  pub autopilots : ℕ
  pub submitted : ℕ
  pub failed : ℕ
  pub skipped : ℕ
  pub backed_off : ℕ
  pub errors : List Text

abbrev pub no_counts : Counts
no_counts = record {
  autopilots = 0;
  submitted = 0;
  failed = 0;
  skipped = 0;
  backed_off = 0;
  errors = [];
}

module _ (chain : Chain) where
  open chain use {W, Kit, Selected}

  pub record Grant : Type 0 where
    pub count : ℕ
    pub checked_at : ℕ
    pub agent_rule_id : Option ℕ
    pub valid_until : Option ℕ
    pub kit : Kit
    pub signs : Bool
    pub selected : List Selected

  pub record KeeperState : Type 0 where
    pub world : W
    pub grants : Assoc Grant
    pub autopilot_ids : Assoc (List ℕ × ℕ)
    pub backoff_until : Assoc ℕ
    pub deployment_checked : Bool
    pub pass : Counts

-- `note`: at most five reasons, each cut to 120 characters
unfoldable pub note : Text → Counts → Counts
note reason p =
    if ltb (length p.errors) 5 then record p { errors = p.errors ++ take 120 reason ∷ [] } else p
