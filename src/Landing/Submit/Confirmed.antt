-- ===== src/Landing/Submit/Confirmed.antt =====
-- packages/core/src/anchor/landing.ts, `submit` and `submitPreauthorized`: on what ground they return a hash.
use koul.Base.{
  ℕ, Bool, true, false, Option, none, some, List, [], ◌∷◌, ◌≡◌, refl, ap, subst, ◌∙◌, Text, last,
  last-append, is_some, if◌then◌else◌,
}
use koul.Landing.Defs.{Transaction, PollStatus, success, not_found, failed, PreauthResult}
use koul.Landing.Runs.{
  Network, Event, sent, polled, looked, Outcome, thrown, returned, State, Run, pure, throw, note,
}
use koul.Landing.Triples.{
  Ends, Triple, IsStable, then_run, pure_run, throw_run, ask-Keeps, note-Keeps,
}
use koul.Landing.Submit.{
  is_error, network_error, rejected, Check, certain, look, poll, broadcast, settle_second,
  second_poll, broadcast_again, settle_first, first_poll, submit, settle_relay, relay_poll, direct,
  after_relay, submit_preauthorized,
}
use koul.Landing.Submit.Keeps.{either_run}

-- The last thing that the network told: the hash is on the ledger, or, where there was a check to make, its
-- effect is there.
pub data Confirmed (checked : Bool) (hash : Text) (log : List Event) : Type 0 where
  by_poll : last log ≡ some (polled hash success) → Confirmed checked hash log
  by_look : checked ≡ true → last log ≡ some (looked true) → Confirmed checked hash log

module _ (net : Network) where
  open net use {W}

  abbrev Any : State W → Type 0
  Any st = Unit {0}

  Any-IsStable : IsStable (λ e. Unit) Any
  Any-IsStable = record { world = λ st w h. tt; noted = λ st e p h. tt }

  note-Last : (e : Event) → Triple Any (note e) (λ u st. last st.log ≡ some e) Any
  note-Last e = record { holds = λ st h. last-append st.log e }

  poll-Last :
      (hash : Text) (n : ℕ)
      → Triple Any (poll net hash n) (λ p st. last st.log ≡ some (polled hash p.status)) Any
  poll-Last hash n =
      then_run (ask-Keeps Any-IsStable network_error (net.poll hash n))
        λ p. then_run (note-Last (polled hash p.status)) λ u. pure_run p

  -- A look that says yes was a look, and is the last event.
  abbrev Seen : Check net → Bool → State W → Type 0
  Seen landed b st = b ≡ true → (is_some landed ≡ true) × (last st.log ≡ some (looked true))

  look-Last :
      (check : W → Bool × W) (b : Bool)
      → Triple (λ st. last st.log ≡ some (looked b)) (pure b) (Seen (some check)) Any
  look-Last check b = record { holds = λ st h e. (refl, h ∙ ap (λ x. some (looked x)) e) }

  look-Seen : (landed : Check net) → Triple Any (look net landed) (Seen landed) Any
  look-Seen none = record { holds = λ st h e. cc }
  look-Seen (some check) =
      then_run (ask-Keeps Any-IsStable network_error (certain net check))
        λ b. then_run (note-Last (looked b)) λ u. look-Last check b

  forget :
      {A : Type 0} {m : Run W A} {good : A → State W → Type 0} {K : State W → Type 0}
      → Triple Any m good Any
      → Triple K m good Any
  forget h = record { holds = λ st k. h.holds st tt }

  module _ (landed : Check net) where
    abbrev Sure : Text × ℕ → State W → Type 0
    Sure r st = Confirmed (is_some landed) r.0 st.log

    when_seen :
        (hash : Text) (b : Bool) (other : Run W (Text × ℕ))
        → Triple Any other Sure Any
        → Triple (Seen landed b) (if b then pure (hash, 0) else other) Sure Any
    when_seen hash true other h = record { holds = λ st s. let (c, l) = s refl in by_look c l }
    when_seen hash false other h = record { holds = λ st s. h.holds st tt }

    settle_second-Sure :
        (hash : Text) (s : PollStatus) (l : ℕ)
        → Triple
            (λ st. last st.log ≡ some (polled hash s))
            (settle_second net hash landed s l)
            Sure
            Any
    settle_second-Sure hash success l = record { holds = λ st h. by_poll h }
    settle_second-Sure hash not_found l =
        then_run (forget (look-Seen landed)) λ b. when_seen hash b (throw _) (throw_run _)
    settle_second-Sure hash failed l =
        then_run (forget (look-Seen landed)) λ b. when_seen hash b (throw _) (throw_run _)

    broadcast-Any : (tx : Transaction) → Triple Any (broadcast net tx) (λ s. Any) Any
    broadcast-Any tx =
        then_run (note-Keeps Any-IsStable (sent tx) tt)
          λ u. ask-Keeps Any-IsStable network_error (net.send tx)

    module _ (tx : Transaction) where
      broadcast_again-Sure :
          (hash : Text) → Triple Any (broadcast_again net tx hash landed) Sure Any
      unfolding broadcast_again second_poll
      broadcast_again-Sure hash = then_run (broadcast-Any tx) λ s.
          either_run (is_error s.status) (throw_run _)
            (then_run (poll-Last hash 20) λ p. settle_second-Sure hash p.status p.ledger)

      settle_first-Sure :
          (hash : Text) (s : PollStatus) (l : ℕ)
          → Triple
              (λ st. last st.log ≡ some (polled hash s))
              (settle_first net tx hash landed s l)
              Sure
              Any
      settle_first-Sure hash success l = record { holds = λ st h. by_poll h }
      settle_first-Sure hash failed l = record { holds = λ st h. tt }
      settle_first-Sure hash not_found l =
          then_run (forget (look-Seen landed))
            λ b. when_seen hash b (broadcast_again net tx hash landed) (broadcast_again-Sure hash)

      -- `submit` returns a hash only when the last thing the network told is that the hash succeeded, or
      -- when its caller gave a check and the check found the effect.
      pub submit-Confirmed :
          Triple Any (submit net tx landed) (λ r st. Confirmed (is_some landed) r.0 st.log) Any
      unfolding submit first_poll
      submit-Confirmed = then_run (broadcast-Any tx) λ s.
          either_run (is_error s.status) (throw_run (rejected s))
            (then_run (poll-Last s.hash 20) λ p. settle_first-Sure s.hash p.status p.ledger)

  -- A hash of `submitPreauthorized` was polled with success, whichever way the envelope went.
  abbrev pub OnLedger : PreauthResult → State W → Type 0
  OnLedger r st = last st.log ≡ some (polled r.hash success)

  OnLedger-of :
      (hash : Text) (log : List Event)
      → Confirmed false hash log
      → last log ≡ some (polled hash success)
  OnLedger-of hash log (by_poll h) = h
  OnLedger-of hash log (by_look c h) = cc

  direct-OnLedger :
      (envelope : Text) (error : Option Text) → Triple Any (direct net envelope error) OnLedger Any
  direct-OnLedger envelope error =
      then_run (ask-Keeps Any-IsStable network_error (λ w. (net.from_xdr envelope, w))) λ tx.
        then_run (submit-Confirmed none tx)
          λ done. record { holds = λ st h. OnLedger-of done.0 st.log h }

  settle_relay-OnLedger :
      (hash : Text) (s : PollStatus) (l : ℕ)
      → Triple (λ st. last st.log ≡ some (polled hash s)) (settle_relay net hash s l) OnLedger Any
  settle_relay-OnLedger hash success l = record { holds = λ st h. h }
  settle_relay-OnLedger hash not_found l = record { holds = λ st h. tt }
  settle_relay-OnLedger hash failed l = record { holds = λ st h. tt }

  relay_poll-OnLedger : (hash : Text) → Triple Any (relay_poll net hash) OnLedger Any
  relay_poll-OnLedger hash =
      then_run (poll-Last hash 40) λ p. settle_relay-OnLedger hash p.status p.ledger

  after_relay-OnLedger :
      (envelope : Text) (b : Bool) (hash error : Option Text)
      → Triple Any (after_relay net envelope b hash error) OnLedger Any
  after_relay-OnLedger envelope true (some (c ∷ hash)) error = relay_poll-OnLedger (c ∷ hash)
  after_relay-OnLedger envelope true (some []) error = direct-OnLedger envelope error
  after_relay-OnLedger envelope true none error = direct-OnLedger envelope error
  after_relay-OnLedger envelope false hash error = direct-OnLedger envelope error

  submit_preauthorized-OnLedger :
      (envelope : Text) → Triple Any (submit_preauthorized net envelope) OnLedger Any
  unfolding submit_preauthorized
  submit_preauthorized-OnLedger envelope =
      then_run (ask-Keeps Any-IsStable network_error (net.relay envelope))
        λ r. after_relay-OnLedger envelope r.succeeded r.hash r.error

  Ends-returned :
      (out : Outcome PreauthResult) (st : State W) (r : PreauthResult)
      → Ends OnLedger Any out st
      → out ≡ returned r
      → OnLedger r st
  Ends-returned (thrown e) st r h q = cc
  Ends-returned (returned p) st r h q = let e : p ≡ r = cc in subst (λ x. OnLedger x st) e h

  -- When `submitPreauthorized` returns, by the relay or directly, the last thing the network told is that
  -- the returned hash is on the ledger with success.
  pub submit_preauthorized_lem :
      (envelope : Text) (st : State W) (r : PreauthResult)
      → (submit_preauthorized net envelope st).0 ≡ returned r
      → last (submit_preauthorized net envelope st).1.log ≡ some (polled r.hash success)
  submit_preauthorized_lem envelope st r q =
      Ends-returned (submit_preauthorized net envelope st).0
        (submit_preauthorized net envelope st).1 r
        ((submit_preauthorized-OnLedger envelope).holds st tt) q
