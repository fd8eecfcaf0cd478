-- ===== src/Funds/Tests.antt =====
-- The laws of the transfers on concrete ones.
use koul.Base.{some, In, ◌⊎◌, ◌≡◌, refl, none, some, [], ◌∷◌, codes, text_eq, arith}
use koul.Core.Decimal.{to_text, print}
use koul.Funds.State.{
  deposit, withdraw, awaiting_bank, awaiting_passkey, FundsRecord, format_asset_amount,
}
use koul.Funds.Amount.{units, parse_asset_amount}
use koul.Funds.Amount.Laws.{parse-format}
use koul.Landing.Defs.{onramp, LandingPlan}
use koul.Funds.Advance.{Answers, advance, with_status, is_broken, with_landing, forward, clean_up}
use koul.Funds.Laws.{forwards, Ready}
use koul.Funds.Runs.{polls}
use koul.Funds.Funded.{polls-Funded}

abbrev plan : LandingPlan
plan = record {
  public_key = codes "GA";
  kind = onramp;
  amount_stroops = 50;
  create_tx_hash = codes "1";
  lock_tx_hash = codes "2";
  forward_tx_xdr = codes "F";
  forward_tx_hash = codes "3";
  cleanup_tx_xdr = codes "C";
  cleanup_tx_hash = codes "4";
  sponsor_fees_stroops = 10000;
  challenges_signed = 1;
  abort_tx_xdr = none;
  abort_tx_hash = none;
}

abbrev waiting : FundsRecord
waiting = record {
  id = codes "1";
  kind = deposit;
  stage = awaiting_bank;
  wallet = codes "CW";
  anchor_home_domain = codes "a";
  sep_token = codes "t";
  sep6_id = codes "6";
  quote_id = codes "q";
  quoted_fiat = none;
  plan = plan;
  forward_hash = none;
  cleanup_hash = none;
  error = none;
  created_at = 0;
}

-- The relay takes the forward, and its call for the cleanup throws.
abbrev paid : Answers
paid = record {
  status = some (record { status = codes "completed"; message = none });
  landing = some (some 50);
  forward = some (codes "h");
  cleanup = none;
}

-- The relay takes the forward and the call throws, before it returns a hash.
abbrev pending : Answers
pending = record paid { forward = none }

called_twice : (polls (pending ∷ paid ∷ paid ∷ []) waiting).1 ≡ none ∷ some (codes "h") ∷ []
unfolding polls advance forwards with_status is_broken with_landing forward clean_up text_eq
called_twice = refl

abbrev withdrawing : FundsRecord
withdrawing = record waiting { kind = withdraw; stage = awaiting_passkey }

polls-Funded_example :
    ((polls (paid ∷ paid ∷ []) withdrawing).1 ≡ [])
    ⊎ ((a : Answers) × In a (paid ∷ paid ∷ []) × Ready withdrawing a)
polls-Funded_example = polls-Funded (paid ∷ paid ∷ []) withdrawing tt

parse-format_example : parse_asset_amount (format_asset_amount 12500000) ≡ units 12500000
parse-format_example = parse-format 12500000 (omega arith)

-- 1.25 units of the asset
written : format_asset_amount 12500000 ≡ codes "1.2500000"
unfolding format_asset_amount to_text print
written = refl
