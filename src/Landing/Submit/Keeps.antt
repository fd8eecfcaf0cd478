-- ===== src/Landing/Submit/Keeps.antt =====
-- packages/core/src/anchor/landing.ts, `submit` and `submitSponsored`: what neither breaks.
use koul.Base.{ℕ, zero, suc, Bool, true, false, not, ◌&&◌, none, some, Text, if◌then◌else◌, ◌==◌}
use koul.Landing.Defs.{Transaction, PollStatus, success, not_found, failed}
use koul.Landing.Runs.{
  Network, Event, signed, sent, polled, looked, Outcome, thrown, returned, State, Run, pure,
  recover,
}
use koul.Landing.Triples.{
  Ends, Triple, IsStable, given_run, then_run, pure_run, throw_run, ask-Keeps, note-Keeps,
}
use koul.Landing.Submit.{
  is_error, network_error, rejected, is_bad_seq, Check, certain, look, poll, broadcast, built,
  settle_second, second_poll, broadcast_again, settle_first, first_poll, submit, retry, attempts,
}

module _ {W : Type 0} {A : Type 0} {before : State W → Type 0} {good : A → State W → Type 0}
    {bad : State W → Type 0} where
  pub either_run :
      (b : Bool) {m n : Run W A}
      → Triple before m good bad
      → Triple before n good bad
      → Triple before (if b then m else n) good bad
  either_run true h k = h
  either_run false h k = k

module _ (net : Network) where
  open net use {W}

  module _ {P : Event → Type 0} {K : State W → Type 0} (stable : IsStable P K)
      (told : (h : Text) (s : PollStatus) → P (polled h s)) (seen : (b : Bool) → P (looked b)) where
    pub look-Keeps : (landed : Check net) → Triple K (look net landed) (λ b. K) K
    look-Keeps none = pure_run false
    look-Keeps (some check) =
        then_run (ask-Keeps stable network_error (certain net check))
          λ b. then_run (note-Keeps stable (looked b) (seen b)) λ u. pure_run b

    pub poll-Keeps : (hash : Text) (n : ℕ) → Triple K (poll net hash n) (λ p. K) K
    poll-Keeps hash n = then_run (ask-Keeps stable network_error (net.poll hash n)) λ p.
        then_run (note-Keeps stable (polled hash p.status) (told hash p.status)) λ u. pure_run p

    pub built-Keeps :
        (Q : Transaction → Type 0) (tx : Transaction)
        → Q tx
        → Triple K (built net tx) (λ t st. K st × Q t) K
    built-Keeps Q tx q =
        either_run (net.accepts tx) (record { holds = λ st k. (k, q) }) (throw_run network_error)

    module _ (tx : Transaction) (p : P (sent tx)) where
      broadcast-Keeps : Triple K (broadcast net tx) (λ s. K) K
      broadcast-Keeps =
          then_run (note-Keeps stable (sent tx) p) λ u. ask-Keeps stable network_error (net.send tx)

      settle_second-Keeps :
          (hash : Text) (landed : Check net) (s : PollStatus) (l : ℕ)
          → Triple K (settle_second net hash landed s l) (λ r. K) K
      settle_second-Keeps hash landed success l = pure_run (hash, l)
      settle_second-Keeps hash landed not_found l =
          then_run (look-Keeps landed) λ b. either_run b (pure_run (hash, 0)) (throw_run _)
      settle_second-Keeps hash landed failed l =
          then_run (look-Keeps landed) λ b. either_run b (pure_run (hash, 0)) (throw_run _)

      pub broadcast_again-Keeps :
          (hash : Text) (landed : Check net)
          → Triple K (broadcast_again net tx hash landed) (λ r. K) K
      unfolding broadcast_again second_poll
      broadcast_again-Keeps hash landed = then_run broadcast-Keeps λ s.
          either_run (is_error s.status) (throw_run _)
            (then_run (poll-Keeps hash 20) λ q. settle_second-Keeps hash landed q.status q.ledger)

      settle_first-Keeps :
          (hash : Text) (landed : Check net) (s : PollStatus) (l : ℕ)
          → Triple K (settle_first net tx hash landed s l) (λ r. K) K
      settle_first-Keeps hash landed success l = pure_run (hash, l)
      settle_first-Keeps hash landed failed l = throw_run _
      settle_first-Keeps hash landed not_found l =
          then_run (look-Keeps landed)
            λ b. either_run b (pure_run (hash, 0)) (broadcast_again-Keeps hash landed)

      pub first_poll-Keeps :
          (hash : Text) (landed : Check net) → Triple K (first_poll net tx hash landed) (λ r. K) K
      unfolding first_poll
      first_poll-Keeps hash landed =
          then_run (poll-Keeps hash 20) λ q. settle_first-Keeps hash landed q.status q.ledger

      pub submit-Keeps : (landed : Check net) → Triple K (submit net tx landed) (λ r. K) K
      unfolding submit
      submit-Keeps landed = then_run broadcast-Keeps λ s.
          either_run (is_error s.status) (throw_run (rejected s)) (first_poll-Keeps s.hash landed)

      attempt-Keeps :
          (n : ℕ) (again : Run W (Text × ℕ × ℕ)) (landed : Check net)
          → Triple K again (λ r. K) K
          → Triple K
              (λ st.
                recover
                  (submit net tx landed st).0
                  (λ done. pure (done.0, done.1, net.fee tx))
                  (retry net n again)
                  (submit net tx landed st).1)
              (λ r. K)
              K
      attempt-Keeps n again landed h = record {
        holds = λ st k.
            recover_lem (submit net tx landed st).0 (submit net tx landed st).1
              ((submit-Keeps landed).holds st k);
      }
        where
          recover_lem :
              (out : Outcome (Text × ℕ)) (st : State W)
              → Ends (λ r. K) K out st
              → Ends
                  (λ r. K)
                  K
                  (recover out (λ done. pure (done.0, done.1, net.fee tx)) (retry net n again) st).0
                  (recover out (λ done. pure (done.0, done.1, net.fee tx)) (retry net n again) st).1
          recover_lem (thrown e) st k =
              (either_run (is_bad_seq e && not (n == 0)) h (throw_run e)).holds st k
          recover_lem (returned done) st k = k

    pub attempts-Keeps :
        (n : ℕ) (sponsor : Text) (build : ℕ → Transaction) (landed : Check net)
        → ((s : ℕ) → P (sent (build s)) × P (signed (build s)))
        → Triple K (attempts net n sponsor build landed) (λ r. K) K
    unfolding attempts
    attempts-Keeps zero sponsor build landed p = throw_run network_error
    attempts-Keeps (suc n) sponsor build landed p =
        then_run (ask-Keeps stable network_error (net.account sponsor)) λ s.
          then_run (built-Keeps (λ t. P (sent t) × P (signed t)) (build s) (p s)) λ tx.
            given_run λ q. then_run (note-Keeps stable (signed tx) q.1) λ u.
              attempt-Keeps tx q.0 n (attempts net n sponsor build landed) landed
                (attempts-Keeps n sponsor build landed p)
