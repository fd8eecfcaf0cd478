-- ===== src/Funds/State.antt =====
-- packages/core/src/funds.ts, the record of a transfer and what is published of it. The parts of the
-- record that no decision reads (the instructions, the sealed copy) are left out.
use koul.Base.{ℕ, ◌/◌, ◌%◌, Option, ◌∷◌, ◌++◌, Text}
use koul.Core.Amount.{pad_start}
use koul.Landing.Defs.{LandingPlan}
use koul.Core.Decimal.{to_text}

pub data FundsKind : Type 0 where
  deposit withdraw : FundsKind

pub data FundsStage : Type 0 where
  awaiting_bank awaiting_passkey awaiting_anchor forwarding completed failed : FundsStage

pub record FundsRecord : Type 0 where
  pub id : Text
  pub kind : FundsKind
  pub stage : FundsStage
  pub wallet : Text
  pub anchor_home_domain : Text
  pub sep_token : Text
  pub sep6_id : Text
  pub quote_id : Text
  pub quoted_fiat : Option Text
  pub plan : LandingPlan
  pub forward_hash : Option Text
  pub cleanup_hash : Option Text
  pub error : Option Text
  pub created_at : ℕ

pub record FundsPublic : Type 0 where
  pub transfer_id : Text
  pub kind : FundsKind
  pub status : FundsStage
  pub wallet : Text
  pub landing_account : Text
  pub amount_usdc : Text
  pub quoted_fiat : Option Text
  pub anchor_status : Option Text
  pub forward_hash : Option Text
  pub cleanup_hash : Option Text
  pub error : Option Text

unfoldable pub format_asset_amount : ℕ → Text
format_asset_amount units =
    to_text (units / 10000000) ++ b'.' ∷ pad_start 7 (to_text (units % 10000000))

unfoldable pub public_funds_record : FundsRecord → Option Text → FundsPublic
public_funds_record r anchor_status = record {
  transfer_id = r.id;
  kind = r.kind;
  status = r.stage;
  wallet = r.wallet;
  landing_account = r.plan.public_key;
  amount_usdc = format_asset_amount r.plan.amount_stroops;
  quoted_fiat = r.quoted_fiat;
  anchor_status = anchor_status;
  forward_hash = r.forward_hash;
  cleanup_hash = r.cleanup_hash;
  error = r.error;
}
