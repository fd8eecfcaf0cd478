-- ===== src/Landing/Runs.antt =====
-- How the code of packages/core/src/anchor/landing.ts runs: the network, the relay and the SDK as an
-- interface, with a log of what the landing key signs, of what is sent, and of the wiping of the key.
-- What was done before an exception stays done.
use koul.Base.{ℕ, Bool, Option, none, some, List, [], ◌∷◌, ◌++◌, Text, ◌⊎◌}
use koul.Landing.Defs.{
  LandingPlan, Transaction, Failure, Sent, PollStatus, Polled, Simulated, Relayed,
}

-- What the process is connected to. `W` is the state of all of it; `none` and `inl` are exceptions.
pub record Network : Type 1 where
  pub W : Type 0
  pub send : Transaction → W → Option Sent × W
  pub poll : (hash : Text) (attempts : ℕ) → W → Option Polled × W
  -- `getAccount`'s sequence number
  pub account : Text → W → Option ℕ × W
  -- the simulation's error message, or its result
  pub simulate : Transaction → W → Option (Text ⊎ Simulated) × W
  pub relay : (envelope_xdr : Text) → W → Option Relayed × W
  pub hash : Transaction → Text
  -- the envelope with the landing key's signature, and back
  pub to_xdr : Transaction → Text
  pub from_xdr : Text → Option Transaction
  -- whether the SDK's builder takes the operations, and does not throw
  pub accepts : Transaction → Bool
  -- `Math.ceil(n * 1.3)`, a product of floats
  pub ceil_1_3 : ℕ → ℕ
  -- `JSON.stringify(plan)`, and `StrKey.isValidEd25519SecretSeed`
  pub json : LandingPlan → Text
  pub is_seed : Text → Bool
  -- `tx.fee`, the fee of all its operations
  pub fee : Transaction → ℕ

pub data Event : Type 0 where
  signed : Transaction → Event
  sent : Transaction → Event
  wiped : Event
  -- what a poll and a look at the world told
  polled : (hash : Text) → PollStatus → Event
  looked : Bool → Event

pub data Outcome (A : Type 0) : Type 0 where
  thrown : Failure → Outcome A
  returned : A → Outcome A

pub record State (W : Type 0) : Type 0 where
  pub world : W
  -- whether `landing` still holds the keypair
  pub holds_key : Bool
  pub log : List Event

abbrev pub Run : Type 0 → Type 0 → Type 0
Run W A = State W → Outcome A × State W

module _ {W A : Type 0} where
  abbrev pub pure : A → Run W A
  pure a st = (returned a, st)

  abbrev pub throw : Failure → Run W A
  throw e st = (thrown e, st)

  -- A call of the network: an exception where it gives none
  abbrev pub answered : Failure → Option A × W → State W → Outcome A × State W
  answered e (none, w) st = (thrown e, record st { world = w })
  answered e (some a, w) st = (returned a, record st { world = w })

  abbrev pub ask : Failure → (W → Option A × W) → Run W A
  ask e call st = answered e (call st.world) st

abbrev pub note : {W : Type 0} → Event → Run W (Unit {0})
note e st = (returned tt, record st { log = st.log ++ e ∷ [] })

module _ {W A B : Type 0} where
  abbrev pub follow : Outcome A → (A → Run W B) → Run W B
  follow (thrown e) next st = (thrown e, st)
  follow (returned a) next st = next a st

  -- `try { first } catch (e) { handler }`
  abbrev pub recover : Outcome A → (A → Run W B) → (Failure → Run W B) → Run W B
  recover (thrown e) next handler st = handler e st
  recover (returned a) next handler st = next a st

  infixl 5 ◌>>=◌ ◌>>◌
  abbrev pub ◌>>=◌ : Run W A → (A → Run W B) → Run W B
  ◌>>=◌ first next st = follow (first st).0 next (first st).1

  abbrev pub ◌>>◌ : Run W A → Run W B → Run W B
  first >> second = first >>= λ _. second
