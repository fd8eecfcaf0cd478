-- ===== src/Landing/Submit.antt =====
-- packages/core/src/anchor/landing.ts: `submit`, `submitSponsored` and `submitPreauthorized`. The waiting
-- between attempts and the progress lines are left out.
pub mod Keeps
pub mod Sends
pub mod Confirmed
use koul.Base.{
  ℕ, zero, suc, Bool, true, false, not, ◌&&◌, Option, none, some, ◌++◌, Text, codes, or_else,
  if◌then◌else◌, ◌==◌, contains, [], ◌∷◌,
}
use koul.Landing.Defs.{
  Transaction, submit_failed, Failure, landing_error, other_error, SendStatus, error, Sent,
  PollStatus, success, not_found, failed, Polled, PreauthResult,
}
use koul.Landing.Runs.{
  Network, signed, sent, polled, looked, Run, pure, throw, ask, note, recover, ◌>>=◌, ◌>>◌,
}

abbrev pub is_error : SendStatus → Bool
is_error error = true
is_error _ = false

abbrev pub status_text : PollStatus → Text
status_text success = codes "SUCCESS"
status_text not_found = codes "NOT_FOUND"
status_text failed = codes "FAILED"

-- An exception of the network or of the SDK; its message is not read anywhere.
abbrev pub network_error : Failure
network_error = other_error []

abbrev pub rejected : Sent → Failure
rejected s = landing_error submit_failed (
    codes "transaction rejected: "
    ++ or_else s.error_name (codes "unknown")
    ++ codes " ("
    ++ or_else s.error_xdr (codes "unknown")
    ++ codes ")")

abbrev pub ended : Text → Text → Failure
ended hash status =
    landing_error submit_failed (codes "transaction " ++ hash ++ codes " " ++ status)

-- `err instanceof LandingError && /txBadSeq/.test(err.message)`
unfoldable pub is_bad_seq : Failure → Bool
is_bad_seq (landing_error code message) = contains (codes "txBadSeq") message
is_bad_seq (other_error message) = false

module _ (net : Network) where
  open net use {W}

  -- `landed`, with its `catch`: a look at the world in place of the ledger index
  abbrev pub Check : Type 0
  Check = Option (W → Bool × W)

  -- A look that always gives an answer
  abbrev pub certain : {A : Type 0} → (W → A × W) → W → Option A × W
  certain call w = (some (call w).0, (call w).1)

  abbrev pub look : Check → Run W Bool
  look none = pure false
  look (some check) = do there ← ask network_error (certain check); note (looked there); pure there

  abbrev pub poll : Text → ℕ → Run W Polled
  poll hash n = do p ← ask network_error (net.poll hash n); note (polled hash p.status); pure p

  abbrev pub broadcast : Transaction → Run W Sent
  broadcast tx = do note (sent tx); ask network_error (net.send tx)

  -- `build()`, which throws where the SDK refuses an operation
  abbrev pub built : Transaction → Run W Transaction
  built tx = if net.accepts tx then pure tx else throw network_error

  -- After the re-broadcast: by the second poll
  abbrev pub settle_second : Text → Check → PollStatus → ℕ → Run W (Text × ℕ)
  settle_second hash landed success ledger = pure (hash, ledger)
  settle_second hash landed s ledger = do
    there ← look landed
    if there
        then pure (hash, 0)
        else throw (ended hash (status_text s ++ codes " after a re-broadcast"))

  unfoldable pub second_poll : Text → Check → Run W (Text × ℕ)
  second_poll hash landed = do
    second ← poll hash 20
    settle_second hash landed second.status second.ledger

  unfoldable pub broadcast_again : Transaction → Text → Check → Run W (Text × ℕ)
  broadcast_again tx hash landed = do
    again ← broadcast tx
    if is_error again.status
        then throw (ended hash (codes "NOT_FOUND"))
        else second_poll hash landed

  abbrev pub settle_first : Transaction → Text → Check → PollStatus → ℕ → Run W (Text × ℕ)
  settle_first tx hash landed success ledger = pure (hash, ledger)
  settle_first tx hash landed failed ledger = throw (ended hash (codes "FAILED"))
  settle_first tx hash landed not_found ledger = do
    there ← look landed
    if there then pure (hash, 0) else broadcast_again tx hash landed

  unfoldable pub first_poll : Transaction → Text → Check → Run W (Text × ℕ)
  first_poll tx hash landed = do
    first ← poll hash 20
    settle_first tx hash landed first.status first.ledger

  unfoldable pub submit : Transaction → Check → Run W (Text × ℕ)
  submit tx landed = do
    s ← broadcast tx
    if is_error s.status then throw (rejected s) else first_poll tx s.hash landed

  -- A bad sequence number is tried again while attempts are left.
  abbrev pub retry : {A : Type 0} → ℕ → Run W A → Failure → Run W A
  retry n again e = if is_bad_seq e && not (n == 0) then again else throw e

  -- The attempts left, each on the sponsor's sequence as it then is
  unfoldable pub attempts : ℕ → Text → (ℕ → Transaction) → Check → Run W (Text × ℕ × ℕ)
  attempts zero sponsor build landed = throw network_error
  attempts (suc n) sponsor build landed = do
    sequence ← ask network_error (net.account sponsor)
    tx ← built (build sequence)
    note (signed tx)
    λ st.
        recover (submit tx landed st).0 (λ done. pure (done.0, done.1, net.fee tx))
          (retry n (attempts n sponsor build landed)) (submit tx landed st).1

  unfoldable pub submit_sponsored : Text → (ℕ → Transaction) → Check → Run W (Text × ℕ × ℕ)
  submit_sponsored = attempts 3

  abbrev pub settle_relay : Text → PollStatus → ℕ → Run W PreauthResult
  settle_relay hash success ledger =
      pure (record { hash = hash; ledger = ledger; via_relay = true; relay_error = none })
  settle_relay hash s ledger = throw (
      landing_error submit_failed
        (codes "relayed pre-authorized transaction " ++ hash ++ codes " ended " ++ status_text s))

  abbrev pub relay_poll : Text → Run W PreauthResult
  relay_poll hash = do done ← poll hash 40; settle_relay hash done.status done.ledger

  -- `if (relayed.error)`: an empty text is no error.
  abbrev pub some_text : Option Text → Option Text
  some_text none = none
  some_text (some []) = none
  some_text (some (c ∷ s)) = some (c ∷ s)

  abbrev pub direct : Text → Option Text → Run W PreauthResult
  direct envelope relay_error = do
    tx ← ask network_error (λ w. (net.from_xdr envelope, w))
    done ← submit tx none
    pure (record {
      hash = done.0;
      ledger = done.1;
      via_relay = false;
      relay_error = some_text relay_error;
    })

  abbrev pub after_relay : Text → Bool → Option Text → Option Text → Run W PreauthResult
  after_relay envelope true (some (c ∷ hash)) relay_error = relay_poll (c ∷ hash)
  after_relay envelope true (some []) relay_error = direct envelope relay_error
  after_relay envelope true none relay_error = direct envelope relay_error
  after_relay envelope false hash relay_error = direct envelope relay_error

  -- The relay first, and the network itself when the relay refuses
  unfoldable pub submit_preauthorized : Text → Run W PreauthResult
  submit_preauthorized envelope = do
    relayed ← ask network_error (net.relay envelope)
    after_relay envelope relayed.succeeded relayed.hash relayed.error
