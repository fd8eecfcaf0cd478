-- ===== src/Web/Relay/Laws.antt =====
-- web/lib/relay-server.ts: how often a transaction is sent, and what a returned hash means.
use koul.Base.{
  ℕ, zero, suc, ◌+◌, ◌≤◌, Bool, true, false, ◌||◌, Option, none, some, List, [], ◌∷◌, ◌++◌, leb,
  Text, codes, text_eq, inl, inr, ◌⊎◌, ◌≡◌, refl, subst, arith, Bool-cases,
}
use koul.Web.Relay.{
  Event, sent, told, Sending, prepare_threw, send_threw, accepted, refused, Relay, Tried, Sends,
  Attempts, on_poll, on_send, on_account, on_lock, attempts, submit_sponsored, lock_channel,
  after_refusal, wait_for, rejected, missing, failed_text, low_balance,
}

abbrev pub sends : List Event → ℕ
sends [] = 0
sends (sent ∷ log) = suc (sends log)
sends (told hash failed ∷ log) = sends log

abbrev pub failures_told : List Event → ℕ
failures_told [] = 0
failures_told (sent ∷ log) = failures_told log
failures_told (told hash false ∷ log) = failures_told log
failures_told (told hash true ∷ log) = suc (failures_told log)

sends-append : (a b : List Event) → sends (a ++ b) ≡ sends a + sends b
sends-append [] b = omega arith
sends-append (sent ∷ a) b = let ih = sends-append a b in omega (arith, ih)
sends-append (told hash failed ∷ a) b = sends-append a b

failures_told-append :
    (a b : List Event) → failures_told (a ++ b) ≡ failures_told a + failures_told b
failures_told-append [] b = omega arith
failures_told-append (sent ∷ a) b = failures_told-append a b
failures_told-append (told hash false ∷ a) b = failures_told-append a b
failures_told-append (told hash true ∷ a) b = let ih = failures_told-append a b in omega (arith, ih)

-- A returned hash was told last, as not failed.
pub data IsTold : Text ⊎ Text → List Event → Type 0 where
  threw : {message : Text} {log : List Event} → IsTold (inl message) log
  returned :
      {hash : Text} (before : List Event) → IsTold (inr hash) (before ++ told hash false ∷ [])

module _ (relay : Relay) where
  -- At most n more were sent, the failures are at most three with the f before, and the result is as told.
  record After (n f : ℕ) (log : List Event) (out : (Text ⊎ Text) × Sends relay) : Type 0 where
    few_sent : sends out.1.log ≤ sends log + n
    few_failed : failures_told out.1.log + f ≤ failures_told log + 3
    is_told : IsTold out.0 out.1.log

  abbrev Keeps : ℕ → Attempts relay → Type 0
  Keeps n more =
      (t : Tried) (st : Sends relay) → t.failures ≤ 2 → After n t.failures st.log (more t st)

  more-After :
      (n f : ℕ) (log : List Event) (out : (Text ⊎ Text) × Sends relay)
      → After n f (log ++ sent ∷ []) out
      → After (suc n) f log out
  more-After n f log out a = record {
    few_sent = omega (arith, a.few_sent, sends-append log (sent ∷ []));
    few_failed = omega (arith, a.few_failed, failures_told-append log (sent ∷ []));
    is_told = a.is_told;
  }

  same-After :
      (n f : ℕ) (log : List Event) (out : (Text ⊎ Text) × Sends relay)
      → After n f log out
      → After (suc n) f log out
  same-After n f log out a = record {
    few_sent = omega (arith, a.few_sent);
    few_failed = a.few_failed;
    is_told = a.is_told;
  }

  threw-After :
      (n f : ℕ) (log : List Event) (message : Text) (w : relay.W)
      → f ≤ 2
      → After n f log (inl message, record { log = log; world = w })
  threw-After n f log message w h = record {
    few_sent = omega arith;
    few_failed = omega (arith, h);
    is_told = threw;
  }

  on_poll-After :
      (n : ℕ) (more : Attempts relay) (t : Tried) (hash : Text) (o : (Text ⊎ Bool) × relay.W)
      → (log : List Event) → Keeps n more
      → t.failures ≤ 2
      → After n t.failures log (on_poll relay more t hash o log)
  on_poll-After n more t hash (inl e, w) log k h = threw-After n t.failures log e w h
  on_poll-After n more t hash (inr false, w) log k h = record {
    few_sent = omega (arith, sends-append log (told hash false ∷ []));
    few_failed = omega (arith, h, failures_told-append log (told hash false ∷ []));
    is_told = returned log;
  }
  on_poll-After n more t hash (inr true, w) log k h = elim (Bool-cases (leb 3 (suc t.failures))) [
    | inl e ↦ rw e (record {
      few_sent = omega (arith, sends-append log (told hash true ∷ []));
      few_failed = omega (arith, h, failures_told-append log (told hash true ∷ []));
      is_told = threw;
    })
    | inr e ↦
        let t' : Tried = record t { last_code = failed_text relay; failures = suc t.failures } in
        let st : Sends relay = record { log = log ++ told hash true ∷ []; world = w } in
        let a = k t' st (ground arith) in
        rw e (record {
          few_sent = omega (arith, a.few_sent, sends-append log (told hash true ∷ []));
          few_failed = omega (arith, a.few_failed, failures_told-append log (told hash true ∷ []));
          is_told = a.is_told;
        })
  ]

  after_refusal-failures :
      (channel : Option ℕ) (code : Text) (t : Tried)
      → (after_refusal relay channel code t).failures ≡ t.failures
  after_refusal-failures none code t = refl
  after_refusal-failures (some i) code t = elim (Bool-cases (text_eq code (low_balance relay))) [
    | inl e ↦ rw e refl
    | inr e ↦ rw e refl
  ]

  on_send-After :
      (n : ℕ) (more : Attempts relay) (t : Tried) (channel : Option ℕ) (o : Sending × relay.W)
      → (log : List Event) → Keeps n more
      → t.failures ≤ 2
      → After (suc n) t.failures log (on_send relay more t channel o log)
  on_send-After n more t channel (prepare_threw e, w) log k h =
      threw-After (suc n) t.failures log e w h
  on_send-After n more t channel (send_threw e, w) log k h =
      more-After n t.failures log _ (threw-After n t.failures (log ++ sent ∷ []) e w h)
  on_send-After n more t channel (accepted hash, w) log k h =
      more-After n t.failures log _
        (on_poll-After n more t hash (relay.poll hash w) (log ++ sent ∷ []) k h)
  on_send-After n more t channel (refused try_again code, w) log k h =
      elim (Bool-cases
        (text_eq code (codes "txBadSeq") || try_again || text_eq code (low_balance relay))) [
          | inl e ↦
              let t' = after_refusal relay channel code t in
              let same = after_refusal-failures channel code t in
              let st : Sends relay = record {
                log = log ++ sent ∷ [];
                world = wait_for relay channel w;
              } in
              rw e (
                more-After n t.failures log _ (
                  subst (λ f. After n f (log ++ sent ∷ []) (more t' st)) same
                    (k t' st (omega (arith, h, same)))))
          | inr e ↦ rw e (
              more-After n t.failures log _
                (threw-After n t.failures (log ++ sent ∷ []) (rejected relay code) w h))
        ]

  on_account-After :
      (n : ℕ) (more : Attempts relay) (t : Tried) (channel : Option ℕ) (o : Bool × relay.W)
      → (log : List Event) → Keeps n more
      → t.failures ≤ 2
      → After (suc n) t.failures log (on_account relay more t channel o log)
  on_account-After n more t none (false, w) log k h =
      threw-After (suc n) t.failures log (missing relay) w h
  on_account-After n more t (some i) (false, w) log k h =
      same-After n t.failures log _
        (k (record t { skip = i ∷ t.skip }) (record { log = log; world = w }) h)
  on_account-After n more t none (true, w) log k h =
      on_send-After n more t none (relay.send none w) log k h
  on_account-After n more t (some i) (true, w) log k h =
      on_send-After n more t (some i) (relay.send (some i) w) log k h

  on_lock-After :
      (n : ℕ) (more : Attempts relay) (t : Tried) (o : (Text ⊎ Option ℕ) × relay.W)
      (log : List Event)
      → Keeps n more
      → t.failures ≤ 2
      → After (suc n) t.failures log (on_lock relay more t o log)
  on_lock-After n more t (inl e, w) log k h = threw-After (suc n) t.failures log e w h
  on_lock-After n more t (inr channel, w) log k h =
      on_account-After n more t channel (relay.account channel w) log k h

  attempts-After : (n : ℕ) → Keeps n (attempts relay n)
  unfolding attempts
  attempts-After zero t st h =
      threw-After 0 t.failures st.log (rejected relay t.last_code) st.world h
  attempts-After (suc n) t st h =
      on_lock-After n (attempts relay n) t (lock_channel relay t.skip st.world) st.log
        (attempts-After n) h

-- submitSponsored sends at most eight times and hears of at most three failures on the ledger, and a hash that it
-- returns was told last, as not failed.
pub submit_sponsored_lem :
    (relay : Relay) (w : relay.W)
    → let out = submit_sponsored relay w in
      (sends out.1.log ≤ 8) × (failures_told out.1.log ≤ 3) × IsTold out.0 out.1.log
unfolding submit_sponsored
submit_sponsored_lem relay w =
    let a =
      attempts-After relay 8 (record { skip = []; last_code = codes "no channel"; failures = 0 })
        (record { log = []; world = w }) (omega arith) in
    (omega (arith, a.few_sent), omega (arith, a.few_failed), a.is_told)
