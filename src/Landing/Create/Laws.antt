-- ===== src/Landing/Create/Laws.antt =====
-- packages/core/src/anchor/landing.ts, `createLandingAccount`: the key's whole life, and what a plan stands for.
use koul.Base.{
  ℕ, false, Option, none, some, List, [], ◌∷◌, ◌++◌, ◌≡◌, refl, subst, sym, ◌⊎◌, inl, inr, Text,
  if◌then◌else◌, map_option, All, In, In-append_left, Bool-cases,
}
use koul.Core.SecretGuard.{contains_secret}
use koul.Landing.Defs.{LandingKind, type_of, amount_of, LandingPlan, Transaction}
use koul.Landing.Runs.{Network, Event, sent, wiped, Outcome, thrown, returned, State}
use koul.Landing.Triples.{Ends, Triple, given_run, then_run, pair_run, weaken_run, ask-Keeps}
use koul.Landing.Build.{LandingInput, create_tx, lock_tx}
use koul.Landing.Submit.{network_error, submit_sponsored}
use koul.Landing.Submit.Keeps.{attempts-Keeps}
use koul.Landing.Submit.Sends.{SentOne, attempts-Sent}
use koul.Landing.Create.{
  Talk, Envelopes, lock, wipe, plan_of, guarded, exists, create, wipe_if_held,
  create_landing_account,
}
use koul.Landing.Create.Signs.{
  creation, locking, Fine, Held, stable, IsEnvelopes, agree-Held, envelopes-Held,
}

module _ (net : Network) (input : LandingInput) (sponsor landing : Text) where
  open net use {W}

  abbrev pub AllFine : List Event → Type 0
  AllFine = All (Fine net input sponsor landing)

  -- The key is gone: its wiping is the last event, and before it only allowed things were signed.
  pub record IsWiped (st : State W) : Type 0 where
    pub gone : st.holds_key ≡ false
    pub before : List Event
    pub last : st.log ≡ before ++ wiped ∷ []
    pub fine : AllFine before

  -- What a plan says of the envelopes, and that a lock for just these was sent
  pub record IsIssued (plan : LandingPlan) (log : List Event) : Type 0 where
    pub kind : LandingKind
    pub sequence : ℕ
    pub envelopes : Envelopes
    pub built : IsEnvelopes net input sponsor landing kind sequence envelopes
    pub type : plan.kind ≡ type_of kind
    pub amount : plan.amount_stroops ≡ amount_of kind
    pub forward : plan.forward_tx_xdr ≡ net.to_xdr envelopes.forward
    pub cleanup : plan.cleanup_tx_xdr ≡ net.to_xdr envelopes.cleanup
    pub abort : plan.abort_tx_xdr ≡ map_option net.to_xdr envelopes.abort
    pub forward_hash : plan.forward_tx_hash ≡ net.hash envelopes.forward
    pub cleanup_hash : plan.cleanup_tx_hash ≡ net.hash envelopes.cleanup
    pub abort_hash : plan.abort_tx_hash ≡ map_option net.hash envelopes.abort
    pub locked_at : ℕ
    pub locked :
        In
          (sent (
            lock_tx sponsor landing
              (net.hash envelopes.forward)
              (net.hash envelopes.cleanup)
              (map_option net.hash envelopes.abort)
              locked_at))
          log

  abbrev Locks : Envelopes → ℕ → Transaction
  Locks e =
      lock_tx sponsor landing (net.hash e.forward) (net.hash e.cleanup)
        (map_option net.hash e.abort)

  lock-Held :
      (e : Envelopes)
      → Triple
          (Held net input sponsor landing)
          (lock net sponsor landing e)
          (λ r st. Held net input sponsor landing st × SentOne net (Locks e) st)
          (Held net input sponsor landing)
  unfolding lock submit_sponsored
  lock-Held e =
      pair_run
        (attempts-Keeps net (stable net input sponsor landing) (λ h s. tt) (λ b. tt) 3 sponsor
          (Locks e) none
          (λ s. (
            tt,
            locking s (net.hash e.forward) (net.hash e.cleanup) (map_option net.hash e.abort) refl,
          )))
        (attempts-Sent net 3 sponsor (Locks e) none)

  abbrev Ended : State W → Type 0
  Ended st = Held net input sponsor landing st ⊎ IsWiped st

  wipe-IsWiped :
      (e : Envelopes)
      → Triple
          (λ st. Held net input sponsor landing st × SentOne net (Locks e) st)
          (wipe net)
          (λ u st. IsWiped st × SentOne net (Locks e) st)
          Ended
  unfolding wipe
  wipe-IsWiped e = record {
    holds = λ st h. (
      record { gone = refl; before = st.log; last = refl; fine = h.0.1 },
      (h.1.0, In-append_left (sent (Locks e h.1.0)) st.log (wiped ∷ []) h.1.1),
    );
  }

  guarded-IsIssued :
      (kind : LandingKind) (s : ℕ) (e : Envelopes) (created locked : Text × ℕ × ℕ) (n : ℕ)
      → IsEnvelopes net input sponsor landing kind s e
      → Triple
          (λ st. IsWiped st × SentOne net (Locks e) st)
          (guarded net (plan_of net landing kind created locked e n))
          (λ plan st. IsWiped st × IsIssued plan st.log)
          Ended
  unfolding guarded plan_of
  guarded-IsIssued kind s e created locked n q =
      elim (Bool-cases (contains_secret net.is_seed (net.json plan))) [
        | inl bad ↦ rw bad (record { holds = λ st h. inr h.0 })
        | inr good ↦ rw good (record {
          holds = λ st h. (
            h.0,
            record {
              kind = kind;
              sequence = s;
              envelopes = e;
              built = q;
              type = refl;
              amount = refl;
              forward = refl;
              cleanup = refl;
              abort = refl;
              forward_hash = refl;
              cleanup_hash = refl;
              abort_hash = refl;
              locked_at = h.1.0;
              locked = h.1.1;
            },
          );
        })
      ]
    where
      plan : LandingPlan
      plan = plan_of net landing kind created locked e n

  create_lem :
      (hook : Option (Text → W → Talk W))
      → Triple
          (Held net input sponsor landing)
          (create net input sponsor landing hook)
          (λ plan st. IsWiped st × IsIssued plan st.log)
          Ended
  unfolding create submit_sponsored
  create_lem hook =
      then_run
        (weaken_run (λ s h. inl h)
          (attempts-Keeps net (stable net input sponsor landing) (λ h s. tt) (λ b. tt) 3 sponsor
            (create_tx input sponsor landing) (some (exists net landing))
            (λ s. (tt, creation s refl))))
        λ created.
          then_run (weaken_run (λ s h. inl h) (agree-Held net input sponsor landing hook)) λ agreed.
            then_run
              (weaken_run (λ s h. inl h)
                (ask-Keeps (stable net input sponsor landing) network_error (net.account landing)))
              λ s.
                then_run
                  (weaken_run (λ t h. inl h) (envelopes-Held net input sponsor landing agreed.0 s))
                  λ e. given_run λ q. then_run (weaken_run (λ t h. inl h) (lock-Held e)) λ locked.
                    then_run (wipe-IsWiped e)
                      λ u. guarded-IsIssued agreed.0 s e created locked agreed.1 q

  wipe_if_held-IsWiped : (st : State W) → Ended st → IsWiped (wipe_if_held net st)
  unfolding wipe_if_held wipe
  wipe_if_held-IsWiped st (inl h) =
      rw h.0 (record { gone = refl; before = st.log; last = refl; fine = h.1 })
  wipe_if_held-IsWiped st (inr h) =
      subst (λ b. IsWiped (if b then (wipe net st).1 else st)) (sym h.gone) h

  Ends-IsWiped :
      (out : Outcome LandingPlan) (st : State W)
      → Ends (λ plan s. IsWiped s × IsIssued plan s.log) Ended out st
      → IsWiped (wipe_if_held net st)
  Ends-IsWiped (thrown e) st h = wipe_if_held-IsWiped st h
  Ends-IsWiped (returned plan) st h = wipe_if_held-IsWiped st (inr h.0)

  -- However the network, the anchor and the SDK answer, and whether the call returns or throws: from a
  -- state that holds the key with nothing but allowed things in its log, the key is wiped exactly once,
  -- as the last thing that happens, and before that it signs only creations, undos, challenges of
  -- sequence 0, forwards, merges and locks.
  pub create_landing_account-IsWiped :
      (hook : Option (Text → W → Talk W)) (st : State W)
      → Held net input sponsor landing st
      → IsWiped (create_landing_account net input sponsor landing hook st).1
  unfolding create_landing_account
  create_landing_account-IsWiped hook st h =
      let run = create net input sponsor landing hook in
      Ends-IsWiped (run st).0 (run st).1 ((create_lem hook).holds st h)
