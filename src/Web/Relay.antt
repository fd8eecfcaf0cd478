-- ===== src/Web/Relay.antt =====
-- web/lib/relay-server.ts, `lockChannel` and `submitSponsored`: a channel is locked, and a transaction is sent again
-- while the refusal allows it. The stores and the network are the interface `Relay`; the log is not in the source.
pub mod Laws
pub mod Waits
use koul.Base.{
  ℕ, zero, suc, ◌+◌, Bool, true, false, not, ◌||◌, ◌==◌, Option, none, some, List, [], ◌∷◌, ◌++◌,
  any, keep, ltb, leb, if◌then◌else◌, Text, codes, text_eq, is_nil, inl, inr, ◌⊎◌,
}

pub data Event : Type 0 where
  sent : Event
  told : (hash : Text) (failed : Bool) → Event

-- What `prepareTransaction` and `sendTransaction` come to: an exception; PENDING or DUPLICATE; another status, with
-- whether it is TRY_AGAIN_LATER and the code, which is the status where there is no result
pub data Sending : Type 0 where
  prepare_threw send_threw : (message : Text) → Sending
  accepted : (hash : Text) → Sending
  refused : (try_again : Bool) (code : Text) → Sending

pub record Relay : Type 1 where
  pub W : Type 0
  pub now : W → ℕ
  pub has_store : Bool
  -- RELAY_CHANNELS; a number below 0 stands as 0
  pub channels : ℕ
  -- `.sort(() => Math.random() - 0.5)`
  pub shuffled : List ℕ → W → List ℕ × W
  -- `redis.set` of a channel's key with nx: an exception, or whether it is set
  pub set_channel : ℕ → W → (Text ⊎ Bool) × W
  pub sleep : ℕ → W → W
  -- whether `getAccount` finds the channel's account, or for none the keeper's
  pub account : Option ℕ → W → Bool × W
  pub send : Option ℕ → W → Sending × W
  -- whether `pollTransaction` says FAILED, or an exception
  pub poll : Text → W → (Text ⊎ Bool) × W

abbrev pub lock_ms : ℕ
lock_ms = 12000

-- One more than the waits of 400 ms that fit
abbrev pub lock_rounds : ℕ
lock_rounds = 31

abbrev pub indices_below : ℕ → List ℕ
indices_below zero = []
indices_below (suc n) = indices_below n ++ n ∷ []

abbrev pub has_index : List ℕ → ℕ → Bool
has_index skip i = any (λ j. j == i) skip

-- What attempts leave for the next one
pub record Tried : Type 0 where
  pub skip : List ℕ
  pub last_code : Text
  pub failures : ℕ

module _ (relay : Relay) where
  open relay use {W}

  -- An exception, the locked channel if any, or on with more
  abbrev pub locked : ℕ → (W → (Text ⊎ Option ℕ) × W) → (Text ⊎ Bool) × W → (Text ⊎ Option ℕ) × W
  locked i more (inl e, w) = (inl e, w)
  locked i more (inr true, w) = (inr (some i), w)
  locked i more (inr false, w) = more w

  -- One round: the first channel that locks
  unfoldable pub lock_first : List ℕ → W → (Text ⊎ Option ℕ) × W
  lock_first [] w = (inr none, w)
  lock_first (i ∷ order) w = locked i (lock_first order) (relay.set_channel i w)

  -- After a round without a channel
  abbrev pub wait_round :
      (W → (Text ⊎ Option ℕ) × W) → (Text ⊎ Option ℕ) × W → (Text ⊎ Option ℕ) × W
  wait_round more (inl e, w) = (inl e, w)
  wait_round more (inr (some i), w) = (inr (some i), w)
  wait_round more (inr none, w) = more (relay.sleep 400 w)

  abbrev pub lock_round : List ℕ → (W → (Text ⊎ Option ℕ) × W) → W → (Text ⊎ Option ℕ) × W
  lock_round order more w =
      if is_nil order
      then (inr none, w)
      else (let (shuffled, w') = relay.shuffled order w in wait_round more (lock_first shuffled w'))

  unfoldable pub lock_until : ℕ → (end : ℕ) → (order : List ℕ) → W → (Text ⊎ Option ℕ) × W
  lock_until zero end order w = (inr none, w)
  lock_until (suc n) end order w =
      let more = lock_until n end order in
      if ltb (relay.now w) end then lock_round order more w else (inr none, w)

  unfoldable pub lock_channel : (skip : List ℕ) → W → (Text ⊎ Option ℕ) × W
  lock_channel skip w =
      if not relay.has_store || (relay.channels == 0)
      then (inr none, w)
      else lock_until lock_rounds (relay.now w + lock_ms)
          (keep (λ i. not (has_index skip i)) (indices_below relay.channels)) w

  -- The log and what the world is
  pub record Sends : Type 0 where
    pub log : List Event
    pub world : W

  -- The hash, or an exception
  abbrev pub Attempts : Type 0
  Attempts = Tried → Sends → (Text ⊎ Text) × Sends

  abbrev pub rejected : Text → Text
  rejected code = codes "The transaction was rejected: " ++ code

  abbrev pub missing : Text
  missing = codes "The relay account is missing"

  abbrev pub failed_text : Text
  failed_text = codes "failed on-chain"

  abbrev pub low_balance : Text
  low_balance = codes "txInsufficientBalance"

  abbrev pub on_poll :
      Attempts → Tried → Text → (Text ⊎ Bool) × W → List Event → (Text ⊎ Text) × Sends
  on_poll more t hash (inl e, w) log = (inl e, record { log = log; world = w })
  on_poll more t hash (inr false, w) log =
      (inr hash, record { log = log ++ told hash false ∷ []; world = w })
  on_poll more t hash (inr true, w) log =
      let st : Sends = record { log = log ++ told hash true ∷ []; world = w } in
      let t' : Tried = record t { last_code = failed_text; failures = suc t.failures } in
      if leb 3 (suc t.failures) then (inl (rejected failed_text), st) else more t' st

  -- The channel is left out only when it cannot pay; the keeper's account is waited for.
  abbrev pub after_refusal : Option ℕ → Text → Tried → Tried
  after_refusal none code t = record t { last_code = code }
  after_refusal (some i) code t =
      if text_eq code low_balance
      then record t { last_code = code; skip = i ∷ t.skip }
      else record t { last_code = code }

  abbrev pub wait_for : Option ℕ → W → W
  wait_for none w = relay.sleep 2500 w
  wait_for (some i) w = w

  abbrev pub on_send :
      Attempts → Tried → Option ℕ → Sending × W → List Event → (Text ⊎ Text) × Sends
  on_send more t channel (prepare_threw e, w) log = (inl e, record { log = log; world = w })
  on_send more t channel (send_threw e, w) log =
      (inl e, record { log = log ++ sent ∷ []; world = w })
  on_send more t channel (accepted hash, w) log =
      on_poll more t hash (relay.poll hash w) (log ++ sent ∷ [])
  on_send more t channel (refused try_again code, w) log =
      if text_eq code (codes "txBadSeq") || try_again || text_eq code low_balance
      then more (after_refusal channel code t)
          (record { log = log ++ sent ∷ []; world = wait_for channel w })
      else (inl (rejected code), record { log = log ++ sent ∷ []; world = w })

  abbrev pub on_account :
      Attempts → Tried → Option ℕ → Bool × W → List Event → (Text ⊎ Text) × Sends
  on_account more t none (false, w) log = (inl missing, record { log = log; world = w })
  on_account more t (some i) (false, w) log =
      more (record t { skip = i ∷ t.skip }) (record { log = log; world = w })
  on_account more t channel (true, w) log = on_send more t channel (relay.send channel w) log

  abbrev pub on_lock : Attempts → Tried → (Text ⊎ Option ℕ) × W → List Event → (Text ⊎ Text) × Sends
  on_lock more t (inl e, w) log = (inl e, record { log = log; world = w })
  on_lock more t (inr channel, w) log = on_account more t channel (relay.account channel w) log

  unfoldable pub attempts : ℕ → Attempts
  attempts zero t st = (inl (rejected t.last_code), st)
  attempts (suc n) t st =
      let more = attempts n in on_lock more t (lock_channel t.skip st.world) st.log

  unfoldable pub submit_sponsored : W → (Text ⊎ Text) × Sends
  submit_sponsored w =
      attempts 8 (record { skip = []; last_code = codes "no channel"; failures = 0 })
        (record { log = []; world = w })
