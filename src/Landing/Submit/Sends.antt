-- ===== src/Landing/Submit/Sends.antt =====
-- packages/core/src/anchor/landing.ts, `submit` and `submitSponsored`: what is sent when they return.
use koul.Base.{
  ℕ, zero, suc, not, ◌&&◌, ◌==◌, ◌≡◌, refl, subst, inl, [], ◌∷◌, Text, In, In-append_right,
}
use koul.Landing.Defs.{Transaction}
use koul.Landing.Runs.{
  Network, Event, signed, sent, Outcome, thrown, returned, State, Run, pure, note, recover,
}
use koul.Landing.Triples.{
  Ends, Triple, IsStable, In-IsStable, given_run, then_run, throw_run, weaken_run, ask-Keeps,
  note-Keeps,
}
use koul.Landing.Submit.{
  is_error, network_error, rejected, is_bad_seq, Check, submit, retry, attempts,
}
use koul.Landing.Submit.Keeps.{either_run, first_poll-Keeps, built-Keeps}

module _ (net : Network) where
  open net use {W}

  abbrev Any : State W → Type 0
  Any st = Unit

  Any-IsStable : IsStable (λ e. Unit) Any
  Any-IsStable = record { world = λ st w h. tt; noted = λ st e p h. tt }

  note-In : (e : Event) → Triple Any (note e) (λ u st. In e st.log) (λ st. In e st.log)
  note-In e = record { holds = λ st h. In-append_right e st.log (e ∷ []) (inl refl) }

  submit-Sent :
      (tx : Transaction) (landed : Check net)
      → Triple Any (submit net tx landed) (λ r st. In (sent tx) st.log) Any
  unfolding submit
  submit-Sent tx landed =
      weaken_run {bad = λ st. In (sent tx) st.log} (λ s h. tt)
        (then_run (then_run (note-In (sent tx)) λ u. ask-Keeps stable network_error (net.send tx))
          λ s.
            either_run (is_error s.status) (throw_run (rejected s))
              (first_poll-Keeps net stable (λ h q. tt) (λ b. tt) tx tt s.hash landed))
    where
      stable : IsStable {W = W} (λ e. Unit) (λ st. In (sent tx) st.log)
      stable = In-IsStable (sent tx)

  -- Some transaction that the maker gives is in the log as sent.
  abbrev pub SentOne : (ℕ → Transaction) → State W → Type 0
  SentOne build st = (s : ℕ) × In (sent (build s)) st.log

  recover-Sent :
      (tx : Transaction) (build : ℕ → Transaction) (n : ℕ) (again : Run W (Text × ℕ × ℕ))
      (out : Outcome (Text × ℕ)) (st : State W)
      → (s : ℕ) × (tx ≡ build s)
      → Triple Any again (λ r. SentOne build) Any
      → Ends (λ r q. In (sent tx) q.log) Any out st
      → Ends
          (λ r. SentOne build)
          Any
          (recover out (λ done. pure (done.0, done.1, net.fee tx)) (retry net n again) st).0
          (recover out (λ done. pure (done.0, done.1, net.fee tx)) (retry net n again) st).1
  recover-Sent tx build n again (thrown e) st q h k =
      (either_run (is_bad_seq e && not (n == 0)) h (throw_run e)).holds st tt
  recover-Sent tx build n again (returned done) st (s, e) h k =
      (s, subst (λ t. In (sent t) st.log) e k)

  pub attempts-Sent :
      (n : ℕ) (sponsor : Text) (build : ℕ → Transaction) (landed : Check net)
      → Triple Any (attempts net n sponsor build landed) (λ r. SentOne build) Any
  unfolding attempts
  attempts-Sent zero sponsor build landed = throw_run network_error
  attempts-Sent (suc n) sponsor build landed =
      then_run (ask-Keeps Any-IsStable network_error (net.account sponsor)) λ s.
        then_run
          (built-Keeps net Any-IsStable (λ h q. tt) (λ b. tt) (λ t. (i : ℕ) × (t ≡ build i))
            (build s) (s, refl))
          λ tx. given_run λ q. then_run (note-Keeps Any-IsStable (signed tx) tt) λ u. record {
            holds = λ st h.
                recover-Sent tx build n (attempts net n sponsor build landed)
                  (submit net tx landed st).0 (submit net tx landed st).1 q
                  (attempts-Sent n sponsor build landed) ((submit-Sent tx landed).holds st tt);
          }
