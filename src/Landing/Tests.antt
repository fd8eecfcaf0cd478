-- ===== src/Landing/Tests.antt =====
-- The laws of landing accounts on a network that takes what it is sent.
use koul.Base.{length, ◌∷◌, ℕ, ◌+◌, ◌≡◌, refl, true, none, some, [], codes, last}
use koul.Landing.Defs.{
  offramp, LandingKind, to_treasury, LandingPlan, Asset, pending, success, PreauthResult,
}
use koul.Landing.Runs.{Network, polled, returned, State}
use koul.Landing.Build.{LandingInput}
use koul.Landing.Submit.{submit_preauthorized}
use koul.Landing.Submit.Confirmed.{submit_preauthorized_lem}
use koul.Landing.Create.{create_landing_account}
use koul.Landing.Create.Laws.{IsWiped, create_landing_account-IsWiped}

-- Its state counts the transactions that were sent.
abbrev willing : Network
willing = record {
  W = ℕ;
  send = λ tx w. (
    some (record { status = pending; hash = codes "h"; error_name = none; error_xdr = none }),
    w + 1,
  );
  poll = λ h n w. (some (record { status = success; ledger = w }), w);
  account = λ a w. (some w, w);
  simulate = λ tx w. (none, w);
  relay = λ x w. (
    some (record { succeeded = true; hash = some (codes "r"); error = none; error_code = none }),
    w,
  );
  accepts = λ tx. true;
  ceil_1_3 = λ n. n;
  json = λ plan. [];
  is_seed = λ s. true;
  hash = λ tx. tx.sequence ∷ length tx.operations ∷ [];
  to_xdr = λ tx. codes "x";
  from_xdr = λ s. none;
  fee = λ tx. 4000;
}

abbrev usdc : Asset
usdc = record { code = codes "USDC"; issuer = codes "G1" }

abbrev withdrawal : LandingKind
withdrawal = to_treasury (codes "GT") (codes "7") 50

abbrev request : LandingInput
request = record {
  usdc = usdc;
  usdc_contract = codes "C1";
  kind = some withdrawal;
  fee_buffer_xlm = none;
  abortable = true;
}

abbrev fresh : State ℕ
fresh = record { world = 5; holds_key = true; log = [] }

abbrev result : LandingPlan
result = record {
  public_key = codes "GL";
  kind = offramp;
  amount_stroops = 50;
  create_tx_hash = codes "h";
  lock_tx_hash = codes "h";
  forward_tx_xdr = codes "x";
  forward_tx_hash = 7 ∷ 1 ∷ [];
  cleanup_tx_xdr = codes "x";
  cleanup_tx_hash = 8 ∷ 2 ∷ [];
  sponsor_fees_stroops = 8000;
  challenges_signed = 0;
  abort_tx_xdr = some (codes "x");
  abort_tx_hash = some (7 ∷ 2 ∷ []);
}

create_landing_account-IsWiped_example :
    IsWiped willing request
      (codes "GS")
      (codes "GL")
      (create_landing_account willing request (codes "GS") (codes "GL") none fresh).1
create_landing_account-IsWiped_example =
    create_landing_account-IsWiped willing request (codes "GS") (codes "GL") none fresh (refl, tt)

abbrev relayed : PreauthResult
relayed = record { hash = codes "r"; ledger = 5; via_relay = true; relay_error = none }

taken : (submit_preauthorized willing (codes "x") fresh).0 ≡ returned relayed
unfolding submit_preauthorized
taken = refl

submit_preauthorized_lem_example :
    last (submit_preauthorized willing (codes "x") fresh).1.log ≡ some (polled (codes "r") success)
submit_preauthorized_lem_example = submit_preauthorized_lem willing (codes "x") fresh relayed taken
