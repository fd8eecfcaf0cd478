-- ===== src/Landing/Build.antt =====
-- packages/core/src/anchor/landing.ts: the transactions of a landing account, by the source's sequence
-- number, which the builder raises by one.
use koul.Base.{
  ℕ, ◌+◌, ◌*◌, ◌/◌, ◌%◌, min, Bool, Option, none, some, List, [], ◌∷◌, ◌++◌, Text, codes, or_else,
  inl, inr, ◌⊎◌,
}
use koul.Core.Decimal.{to_text}
use koul.Core.Amount.{pad_start}
use koul.Landing.Defs.{
  LandingKind, to_contract, to_treasury, Asset, Transfer, Operation, begin_sponsoring,
  create_account, change_trust, end_sponsoring, account_merge, pre_auth_signer, set_weights,
  payment, invoke, Resources, Transaction, simulation_failed, landing_error, Simulated,
}
use koul.Landing.Runs.{Network, Run, throw, ask, ◌>>=◌}
use koul.Landing.Submit.{network_error, built}

pub record LandingInput : Type 0 where
  pub usdc : Asset
  pub usdc_contract : Text
  pub kind : Option LandingKind
  pub fee_buffer_xlm : Option Text
  pub abortable : Bool

unfoldable pub stroops_to_amount : ℕ → Text
stroops_to_amount stroops =
    to_text (stroops / 10000000) ++ b'.' ∷ pad_start 7 (to_text (stroops % 10000000))

abbrev pub classic : Text → ℕ → Option ℕ → List Operation → Transaction
classic source sequence timeout operations = record {
  source = source;
  sequence = sequence + 1;
  base_fee = 1000;
  operations = operations;
  memo = none;
  timeout = timeout;
  soroban = none;
}

-- Step A: the sponsored account and its trustline
unfoldable pub create_tx : LandingInput → (sponsor landing : Text) → ℕ → Transaction
create_tx input sponsor landing sequence = classic sponsor sequence (some 300) (
    begin_sponsoring landing
    ∷ create_account landing (or_else input.fee_buffer_xlm (codes "0"))
    ∷ change_trust input.usdc none (some landing)
    ∷ end_sponsoring landing
    ∷ [])

-- The account merged back by the sponsor, before the lock
unfoldable pub undo_tx : Asset → (sponsor landing : Text) → ℕ → Transaction
undo_tx usdc sponsor landing sequence = classic sponsor sequence (some 300) (
    change_trust usdc (some (codes "0")) (some landing) ∷ account_merge sponsor (some landing) ∷ [])

-- `cleanupTx` at the account's sequence plus one, `abortTx` at its sequence
unfoldable pub merge_tx : Asset → (sponsor landing : Text) → ℕ → Transaction
merge_tx usdc sponsor landing sequence =
    classic landing sequence none
      (change_trust usdc (some (codes "0")) none ∷ account_merge sponsor none ∷ [])

abbrev pub abort_signer : Text → Option Text → List Operation
abort_signer landing none = []
abort_signer landing (some hash) = pre_auth_signer landing hash 1 ∷ []

-- Step C: the hashes as signers, then the weights
unfoldable pub lock_tx :
    (sponsor landing forward_hash cleanup_hash : Text) → Option Text → ℕ → Transaction
lock_tx sponsor landing forward_hash cleanup_hash abort_hash sequence =
    classic sponsor sequence (some 300) (
      begin_sponsoring landing
      ∷ pre_auth_signer landing forward_hash 1
      ∷ pre_auth_signer landing cleanup_hash 1
      ∷ (abort_signer landing abort_hash
          ++ set_weights landing 1 2 2 2 ∷ end_sponsoring landing ∷ []))

abbrev pub transfer : Text → Text → Text → ℕ → Transfer
transfer contract from_account to_account amount = record {
  contract = contract;
  from_account = from_account;
  to_account = to_account;
  amount = amount;
}

abbrev pub soroban_tx :
    Text → ℕ → Option ℕ → Option Resources → Transfer → List Transfer → Transaction
soroban_tx landing sequence timeout resources call authorised = record {
  source = landing;
  sequence = sequence + 1;
  base_fee = 100;
  operations = invoke call authorised ∷ [];
  memo = none;
  timeout = timeout;
  soroban = resources;
}

unfoldable pub classic_forward : LandingInput → Text → ℕ → Text → Text → ℕ → Transaction
classic_forward input landing sequence treasury memo_id amount =
    record (classic landing sequence none
      (payment treasury input.usdc (stroops_to_amount amount) ∷ [])) { memo = some memo_id }

module _ (net : Network) where
  open net use {W}

  -- The simulated resources, with room to spare
  unfoldable pub padded : Simulated → Resources
  padded s = record {
    instructions = min (net.ceil_1_3 s.instructions + 200000) 100000000;
    read_bytes = (s.disk_read_bytes * 3 + 1) / 2 + 1000;
    write_bytes = (s.write_bytes * 3 + 1) / 2 + 1000;
    resource_fee = s.min_resource_fee * 3 / 2 + 200000;
  }

  unfoldable pub soroban_forward : LandingInput → Text → ℕ → Text → ℕ → Simulated → Transaction
  soroban_forward input landing sequence destination amount s =
      let call = transfer input.usdc_contract landing destination amount in
      soroban_tx landing sequence none (some (padded s)) call (call ∷ [])

  abbrev pub with_simulation :
      LandingInput → Text → ℕ → Text → ℕ → Text ⊎ Simulated → Run W Transaction
  with_simulation input landing sequence destination amount (inl message) =
      throw
        (landing_error simulation_failed (codes "forward footprint simulation failed: " ++ message))
  with_simulation input landing sequence destination amount (inr s) =
      built net (soroban_forward input landing sequence destination amount s)

  unfoldable pub build_soroban_forward : LandingInput → Text → ℕ → Text → ℕ → Run W Transaction
  build_soroban_forward input landing sequence destination amount = do
    probe ← built net (
        soroban_tx landing sequence (some 3600) none
          (transfer input.usdc_contract landing destination 0) [])
    s ← ask network_error (net.simulate probe)
    with_simulation input landing sequence destination amount s

  unfoldable pub build_forward : LandingInput → Text → ℕ → LandingKind → Run W Transaction
  build_forward input landing sequence (to_contract destination amount) =
      build_soroban_forward input landing sequence destination amount
  build_forward input landing sequence (to_treasury treasury memo_id amount) =
      built net (classic_forward input landing sequence treasury memo_id amount)
