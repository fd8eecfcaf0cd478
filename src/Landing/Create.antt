-- ===== src/Landing/Create.antt =====
-- packages/core/src/anchor/landing.ts, `createLandingAccount`. The steps are those of the file's header: the
-- account (A), the talk with the anchor, the envelopes (B), the lock (C) and the wiping of the key (D).
pub mod Signs
pub mod Laws
use koul.Base.{
  ℕ, ◌+◌, Bool, true, false, Option, none, some, Text, codes, if◌then◌else◌, ◌==◌, is_some,
  map_option, ◌++◌, [], ◌∷◌,
}
use koul.Core.SecretGuard.{contains_secret}
use koul.Landing.Defs.{
  LandingKind, type_of, amount_of, LandingPlan, Asset, Transaction, submit_failed, Failure,
  landing_error, other_error,
}
use koul.Landing.Runs.{
  Network, signed, wiped, Outcome, thrown, returned, State, Run, pure, throw, ask, note, recover,
  ◌>>=◌, ◌>>◌,
}
use koul.Landing.Build.{LandingInput, create_tx, undo_tx, merge_tx, lock_tx, build_forward}
use koul.Landing.Submit.{network_error, built, submit, submit_sponsored}

-- `beforeLock`, as what it does with the bridge: it ends, or it asks for a signature and goes on, one way
-- when it gets it and the other when `sign` throws.
pub data Talk (W : Type 0) : Type 0 where
  ended : Outcome LandingKind → W → Talk W
  sign : Transaction → (agreed refused : Talk W) → Talk W

pub record Envelopes : Type 0 where
  pub forward : Transaction
  pub cleanup : Transaction
  pub abort : Option Transaction

abbrev pub kind_missing : Failure
kind_missing =
    landing_error submit_failed
      (codes "landing kind missing: pass `kind` or a `beforeLock` that returns it")

module _ (net : Network) where
  open net use {W}

  -- The answers of the hook, with the challenges signed so far
  unfoldable pub talk : Talk W → ℕ → Run W (LandingKind × ℕ)
  talk (ended (thrown e) w) n st = (thrown e, record st { world = w })
  talk (ended (returned kind) w) n st = (returned (kind, n), record st { world = w })
  talk (sign tx agreed refused) n st =
      let signing = note (signed tx) >> talk agreed (n + 1) in
      let refusing = talk refused n in (if tx.sequence == 0 then signing else refusing) st

  -- The account goes back to the sponsor; what fails in this is only logged.
  unfoldable pub undo : Asset → (sponsor landing : Text) → Run W (Text × ℕ)
  undo usdc sponsor landing = do
    sequence ← ask network_error (net.account sponsor)
    tx ← built net (undo_tx usdc sponsor landing sequence)
    note (signed tx)
    submit net tx none

  abbrev pub undo_and_throw : {A : Type 0} → Asset → (sponsor landing : Text) → Failure → Run W A
  undo_and_throw usdc sponsor landing e st = (thrown e, (undo usdc sponsor landing st).1)

  abbrev pub given : Option LandingKind → Run W (LandingKind × ℕ)
  given none = throw kind_missing
  given (some kind) = pure (kind, 0)

  -- The kind and the number of challenges: from the hook, if there is one
  unfoldable pub agree :
      LandingInput → (sponsor landing : Text) → Option (Text → W → Talk W) → Run W (LandingKind × ℕ)
  agree input sponsor landing none st = given input.kind st
  agree input sponsor landing (some before_lock) st =
      let said = talk (before_lock landing st.world) 0 st in
      recover said.0 pure (undo_and_throw input.usdc sponsor landing) said.1

  unfoldable pub build_abort : Bool → Transaction → Run W (Option Transaction)
  build_abort false tx = pure none
  build_abort true tx = do abort ← built net tx; note (signed abort); pure (some abort)

  unfoldable pub envelopes :
      LandingInput → (sponsor landing : Text) → LandingKind → ℕ → Run W Envelopes
  envelopes input sponsor landing kind sequence = do
    forward ← build_forward net input landing sequence kind
    cleanup ← built net (merge_tx input.usdc sponsor landing (sequence + 1))
    note (signed forward)
    note (signed cleanup)
    abort ← build_abort input.abortable (merge_tx input.usdc sponsor landing sequence)
    pure (record { forward = forward; cleanup = cleanup; abort = abort })

  unfoldable pub lock : (sponsor landing : Text) → Envelopes → Run W (Text × ℕ × ℕ)
  lock sponsor landing e =
      submit_sponsored net sponsor
        (lock_tx sponsor landing (net.hash e.forward) (net.hash e.cleanup)
          (map_option net.hash e.abort))
        none

  -- `wipeKeypair(landing); landing = null`
  unfoldable pub wipe : Run W (Unit {0})
  wipe st = (returned tt, record st { holds_key = false; log = st.log ++ wiped ∷ [] })

  unfoldable pub plan_of :
      Text → LandingKind → Text × ℕ × ℕ → Text × ℕ × ℕ → Envelopes → ℕ → LandingPlan
  plan_of landing kind created locked e challenges = record {
    public_key = landing;
    kind = type_of kind;
    amount_stroops = amount_of kind;
    create_tx_hash = created.0;
    lock_tx_hash = locked.0;
    forward_tx_xdr = net.to_xdr e.forward;
    forward_tx_hash = net.hash e.forward;
    cleanup_tx_xdr = net.to_xdr e.cleanup;
    cleanup_tx_hash = net.hash e.cleanup;
    sponsor_fees_stroops = created.2 + locked.2;
    challenges_signed = challenges;
    abort_tx_xdr = map_option net.to_xdr e.abort;
    abort_tx_hash = map_option net.hash e.abort;
  }

  -- `assertNoSecret(plan, "landing plan")`
  unfoldable pub guarded : LandingPlan → Run W LandingPlan
  guarded plan =
      if contains_secret net.is_seed (net.json plan)
      then throw
          (other_error (codes "landing plan contains a Stellar secret seed; refusing to continue"))
      else pure plan

  -- Whether the account is there: `landed` of the creation
  abbrev pub exists : Text → W → Bool × W
  exists landing w = (is_some (net.account landing w).0, (net.account landing w).1)

  -- The `try` block
  unfoldable pub create :
      LandingInput → (sponsor landing : Text) → Option (Text → W → Talk W) → Run W LandingPlan
  create input sponsor landing before_lock = do
    created ← submit_sponsored net sponsor (create_tx input sponsor landing) (some (exists landing))
    agreed ← agree input sponsor landing before_lock
    sequence ← ask network_error (net.account landing)
    e ← envelopes input sponsor landing agreed.0 sequence
    locked ← lock sponsor landing e
    wipe
    guarded (plan_of landing agreed.0 created locked e agreed.1)

  -- The `finally` block
  unfoldable pub wipe_if_held : State W → State W
  unfolding wipe
  wipe_if_held st = if st.holds_key then (wipe st).1 else st

  unfoldable pub create_landing_account :
      LandingInput → (sponsor landing : Text) → Option (Text → W → Talk W) → Run W LandingPlan
  create_landing_account input sponsor landing before_lock st =
      let out = create input sponsor landing before_lock st in (out.0, wipe_if_held out.1)
