-- ===== src/Landing/Create/Signs.antt =====
-- packages/core/src/anchor/landing.ts, `createLandingAccount`: what the landing key may sign, and that each step
-- keeps to it.
use koul.Base.{
  ℕ, ◌+◌, Bool, true, false, ◌==◌, Option, none, some, ◌≡◌, refl, Text, if◌then◌else◌, Bool-cases,
  inl, inr, ==_iff, ap, [], ◌⊎◌,
}
use koul.Landing.Defs.{LandingKind, to_contract, to_treasury, Transaction, Simulated, PollStatus}
use koul.Landing.Runs.{
  Network, Event, signed, sent, wiped, polled, looked, Outcome, thrown, returned, State, pure,
  recover,
}
use koul.Landing.Triples.{
  Ends, Triple, IsStable, Live, Live-IsStable, given_run, then_run, pure_run, throw_run, pure_given,
  ask-Keeps, note-Keeps, Ends-both,
}
use koul.Landing.Build.{
  LandingInput, create_tx, undo_tx, merge_tx, lock_tx, soroban_tx, transfer, soroban_forward,
  classic_forward, with_simulation, build_soroban_forward, build_forward,
}
use koul.Landing.Submit.{network_error}
use koul.Landing.Submit.Keeps.{built-Keeps, submit-Keeps}
use koul.Landing.Create.{
  Talk, ended, sign, Envelopes, kind_missing, talk, undo, undo_and_throw, given, agree, build_abort,
  envelopes,
}

module _ (net : Network) (input : LandingInput) (sponsor landing : Text) where
  open net use {W}

  -- The forward envelope of a kind, at the account's sequence
  abbrev pub IsForward : LandingKind → ℕ → Transaction → Type 0
  IsForward (to_contract destination amount) sequence tx =
      (s : Simulated) × (tx ≡ soroban_forward net input landing sequence destination amount s)
  IsForward (to_treasury treasury memo_id amount) sequence tx =
      tx ≡ classic_forward input landing sequence treasury memo_id amount

  -- The transactions that the landing key may sign
  pub data Allowed (tx : Transaction) : Type 0 where
    creation : (s : ℕ) → tx ≡ create_tx input sponsor landing s → Allowed tx
    undoing : (s : ℕ) → tx ≡ undo_tx input.usdc sponsor landing s → Allowed tx
    challenge : tx.sequence ≡ 0 → Allowed tx
    forwarding : (kind : LandingKind) (s : ℕ) → IsForward kind s tx → Allowed tx
    merging : (s : ℕ) → tx ≡ merge_tx input.usdc sponsor landing s → Allowed tx
    locking :
        (s : ℕ) (forward cleanup : Text) (abort : Option Text)
        → tx ≡ lock_tx sponsor landing forward cleanup abort s
        → Allowed tx

  abbrev pub Fine : Event → Type 0
  Fine (signed tx) = Allowed tx
  Fine wiped = ⊥
  Fine (sent tx) = Unit
  Fine (polled h s) = Unit
  Fine (looked b) = Unit

  abbrev pub Held : State W → Type 0
  Held = Live Fine

  pub stable : IsStable {W = W} Fine Held
  stable = Live-IsStable Fine

  told : (h : Text) (s : PollStatus) → Fine (polled h s)
  told h s = tt

  seen : (b : Bool) → Fine (looked b)
  seen b = tt

  talk-Held : (t : Talk W) (n : ℕ) → Triple Held (talk net t n) (λ r. Held) Held
  unfolding talk
  talk-Held (ended (thrown e) w) n = record { holds = λ st h. h }
  talk-Held (ended (returned kind) w) n = record { holds = λ st h. h }
  talk-Held (sign tx agreed refused) n = elim (Bool-cases (tx.sequence == 0)) [
    | inl z ↦
        rw (z, talk)
          (then_run (note-Keeps stable (signed tx) (challenge ((==_iff tx.sequence 0).0 z)))
            λ u. talk-Held agreed (n + 1))
    | inr z ↦ rw (z, talk) (talk-Held refused n)
  ]

  undo-Held : Triple Held (undo net input.usdc sponsor landing) (λ r. Held) Held
  unfolding undo
  undo-Held = then_run (ask-Keeps stable network_error (net.account sponsor)) λ s.
      then_run
        (built-Keeps net stable told seen Allowed (undo_tx input.usdc sponsor landing s)
          (undoing s refl))
        λ tx. given_run λ q.
          then_run (note-Keeps stable (signed tx) q)
            λ u. submit-Keeps net stable told seen tx tt none

  recover-Held :
      (out : Outcome (LandingKind × ℕ)) (st : State W)
      → Ends (λ r. Held) Held out st
      → Ends
          (λ r. Held)
          Held
          (recover out pure (undo_and_throw net input.usdc sponsor landing) st).0
          (recover out pure (undo_and_throw net input.usdc sponsor landing) st).1
  recover-Held (thrown e) st h =
      let run = undo net input.usdc sponsor landing in
      Ends-both Held (run st).0 (run st).1 (undo-Held.holds st h)
  recover-Held (returned a) st h = h

  given-Held : (kind : Option LandingKind) → Triple Held (given net kind) (λ r. Held) Held
  given-Held none = throw_run kind_missing
  given-Held (some kind) = pure_run (kind, 0)

  pub agree-Held :
      (hook : Option (Text → W → Talk W))
      → Triple Held (agree net input sponsor landing hook) (λ r. Held) Held
  unfolding agree
  agree-Held none = record { holds = λ st h. (given-Held input.kind).holds st h }
  agree-Held (some before_lock) = record {
    holds = λ st h.
        let t = before_lock landing st.world in
        recover-Held (talk net t 0 st).0 (talk net t 0 st).1 ((talk-Held t 0).holds st h);
  }

  with_simulation-Held :
      (s : ℕ) (destination : Text) (amount : ℕ) (r : Text ⊎ Simulated)
      → Triple Held
          (with_simulation net input landing s destination amount r)
          (λ tx st. Held st × IsForward (to_contract destination amount) s tx)
          Held
  with_simulation-Held s destination amount (inl m) = throw_run _
  with_simulation-Held s destination amount (inr r) =
      built-Keeps net stable told seen (IsForward (to_contract destination amount) s)
        (soroban_forward net input landing s destination amount r) (r, refl)

  build_forward-Held :
      (s : ℕ) (kind : LandingKind)
      → Triple Held
          (build_forward net input landing s kind)
          (λ tx st. Held st × IsForward kind s tx)
          Held
  unfolding build_forward build_soroban_forward
  build_forward-Held s (to_contract destination amount) =
      then_run
        (built-Keeps net stable told seen (λ tx. Unit {0})
          (soroban_tx landing s (some 3600) none
            (transfer input.usdc_contract landing destination 0) [])
          tt)
        λ probe. given_run λ q.
          then_run (ask-Keeps stable network_error (net.simulate probe))
            λ r. with_simulation-Held s destination amount r
  build_forward-Held s (to_treasury treasury memo_id amount) =
      built-Keeps net stable told seen (IsForward (to_treasury treasury memo_id amount) s)
        (classic_forward input landing s treasury memo_id amount) refl

  -- The abort competes with the forward for its sequence number; the cleanup comes after it.
  pub record IsEnvelopes (kind : LandingKind) (s : ℕ) (e : Envelopes) : Type 0 where
    pub forward : IsForward kind s e.forward
    pub cleanup : e.cleanup ≡ merge_tx input.usdc sponsor landing (s + 1)
    pub abort :
        e.abort ≡ (if input.abortable then some (merge_tx input.usdc sponsor landing s) else none)

  build_abort-Held :
      (b : Bool) (s : ℕ)
      → Triple Held
          (build_abort net b (merge_tx input.usdc sponsor landing s))
          (λ o st.
            Held st × (o ≡ (if b then some (merge_tx input.usdc sponsor landing s) else none)))
          Held
  unfolding build_abort
  build_abort-Held false s = record { holds = λ st h. (h, refl) }
  build_abort-Held true s =
      then_run
        (built-Keeps net stable told seen (λ t. t ≡ merge_tx input.usdc sponsor landing s)
          (merge_tx input.usdc sponsor landing s) refl)
        λ tx. given_run λ q. then_run (note-Keeps stable (signed tx) (merging s q)) λ u.
          pure_given (λ o. o ≡ some (merge_tx input.usdc sponsor landing s)) (some tx) (ap some q)

  pub envelopes-Held :
      (kind : LandingKind) (s : ℕ)
      → Triple Held
          (envelopes net input sponsor landing kind s)
          (λ e st. Held st × IsEnvelopes kind s e)
          Held
  unfolding envelopes
  envelopes-Held kind s = then_run (build_forward-Held s kind) λ forward. given_run λ f.
      then_run
        (built-Keeps net stable told seen (λ t. t ≡ merge_tx input.usdc sponsor landing (s + 1))
          (merge_tx input.usdc sponsor landing (s + 1)) refl)
        λ cleanup. given_run λ c.
          then_run (note-Keeps stable (signed forward) (forwarding kind s f)) λ u.
            then_run (note-Keeps stable (signed cleanup) (merging (s + 1) c)) λ v.
              then_run (build_abort-Held input.abortable s) λ abort. given_run λ a.
                pure_given (IsEnvelopes kind s)
                  (record { forward = forward; cleanup = cleanup; abort = abort })
                  (record { forward = f; cleanup = c; abort = a })
