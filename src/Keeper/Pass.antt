-- ===== src/Keeper/Pass.antt =====
-- keeper/src/keeper.ts, one turn of its loop. The wallets of a phase run at once in the source and share only the
-- counts; here they come one after another, in the shuffled order and then worker by worker.
pub mod Laws
use koul.Base.{
  ℕ, zero, suc, ◌+◌, ◌-◌, ◌*◌, ◌/◌, ◌%◌, ◌^◌, ◌==◌, max, Bool, true, false, ◌||◌, Option, none,
  some, List, [], ◌∷◌, ◌++◌, length, get_elem?, set, ltb, leb, or_else, if◌then◌else◌, Text, codes,
  Assoc, put, keep, inl, inr, ◌⊎◌, Num,
}
use koul.Core.Swap.{SwapSdk, SwapRequest, ServerQuote}
use koul.Keeper.State.{Due, Chain, Counts, Grant, KeeperState, note}
use koul.Keeper.Submit.{fail, forget_grant, submit_user, idle}
use koul.Keeper.Grants.{plan_user}

abbrev pub both : {A : Type 0} → Option A → Option A → (A → A → List A) → List A → List A
both none b f xs = xs
both (some a) none f xs = xs
both (some a) (some b) f xs = f a b

-- `[xs[i], xs[j]] = [xs[j], xs[i]]`
unfoldable pub swap : {A : Type 0} → ℕ → ℕ → List A → List A
swap i j xs = both (get_elem? xs i) (get_elem? xs j) (λ a b. set (set xs i b) j a) xs

-- From index i down; `pick i` is the random index, at most i.
unfoldable pub shuffle_from : {A : Type 0} → (ℕ → ℕ) → ℕ → List A → List A
unfolding swap
shuffle_from pick zero xs = xs
shuffle_from pick (suc i) xs = shuffle_from pick i (swap (suc i) (pick (suc i)) xs)

unfoldable pub shuffle : {A : Type 0} → (ℕ → ℕ) → List A → List A
unfolding shuffle_from
shuffle pick xs = shuffle_from pick (length xs - 1) xs

-- `>>> 0` on a number below 2 ^ 53
unfoldable pub hash_from : ℕ → Text → ℕ
hash_from h [] = h
hash_from h (c ∷ s) = hash_from ((h * 31 + c) % 2 ^ 32) s

unfoldable pub shard : ℕ → Text → ℕ
unfolding hash_from
shard parallel user = hash_from 7 user % parallel

pub record Config : Type 0 where
  pub channels : ℕ
  pub has_oracle : Bool
  pub once : Bool
  pub interval : ℕ
  pub policy : Option Text
  pub keeper_secret : Text
  -- `keeperChannel(env, i).secret()`
  pub channel_secret : ℕ → Text

abbrev pub parallel : Config → ℕ
parallel c = max 1 c.channels

unfoldable pub payer : Config → Text → Text
payer c user =
    if ltb 0 c.channels then c.channel_secret (shard (parallel c) user) else c.keeper_secret

-- The planned wallets of one worker
unfoldable pub share : {P : Type 0} → ℕ → ℕ → Assoc P → Assoc P
share n w planned = keep (λ e. shard n e.0 == w) planned

pub record Heartbeat : Type 0 where
  pub at : ℕ
  pub pass_ms : ℕ
  pub interval_sec : ℕ
  pub wallets : ℕ
  pub pass : Counts
  pub ledger : ℕ

abbrev pub beat_every_ms : ℕ
beat_every_ms = 60000

module _ (num : Num) (sdk : SwapSdk) (chain : Chain)
    (ask_quote : SwapRequest num sdk → chain.W → Option (ServerQuote num sdk) × chain.W)
    (config : Config) where
  abbrev pub Plan : Type 0
  Plan = Grant chain × List Due

  abbrev pub with_price : Option (Option (ℕ × ℕ)) → KeeperState chain → KeeperState chain
  with_price none st = st
  with_price (some none) st = st
  with_price (some (some (price, at))) st =
      if ltb (chain.now st.world / 1000 - at) 600
      then st
      else record st { world = chain.set_price price st.world }

  unfoldable pub refresh_mock_oracle : KeeperState chain → KeeperState chain
  refresh_mock_oracle st =
      if config.has_oracle
      then (let (price, w) = chain.last_price st.world in
          with_price price (record st { world = w }))
      else st

  -- `failed`
  abbrev pub wallet_failed : Text → Text → KeeperState chain → KeeperState chain
  wallet_failed user message st =
      let st' = forget_grant chain user (fail chain st) in
      record st' { pass = note (codes "wallet " ++ message) st'.pass }

  abbrev pub with_plan :
      Text → Assoc Plan → Text ⊎ Option Plan → KeeperState chain → Assoc Plan × KeeperState chain
  with_plan user planned (inl message) st = (planned, wallet_failed user message st)
  with_plan user planned (inr none) st = (planned, st)
  with_plan user planned (inr (some p)) st = (put user p planned, st)

  -- The reads: what each wallet has due
  unfoldable pub plan_wallets :
      ℕ → List Text → Assoc Plan → KeeperState chain → Assoc Plan × KeeperState chain
  plan_wallets latest [] planned st = (planned, st)
  plan_wallets latest (user ∷ users) planned st =
      let (p, st1) =
        plan_user chain config.policy num sdk ask_quote user (payer config user) latest st in
      let (planned1, st2) = with_plan user planned p st1 in plan_wallets latest users planned1 st2

  -- The wallets one after another: what is due is submitted with nothing of another worker in between.
  unfoldable pub submit_wallets : Assoc Plan → KeeperState chain → KeeperState chain
  submit_wallets [] st = st
  submit_wallets ((user, (grant, due)) ∷ planned) st =
      submit_wallets planned (submit_user chain (idle chain) user grant due st)

  -- The workers, from w on
  unfoldable pub run_workers : ℕ → ℕ → Assoc Plan → KeeperState chain → KeeperState chain
  run_workers zero w planned st = st
  run_workers (suc n) w planned st =
      run_workers n (w + 1) planned (submit_wallets (share (parallel config) w planned) st)

  -- The counts after a heartbeat
  abbrev pub reset : Counts → Counts
  reset p = record p { submitted = 0; failed = 0; skipped = 0; backed_off = 0; errors = [] }

  unfoldable pub heartbeat :
      (started last_beat_at wallets : ℕ)
      → KeeperState chain
      → Option Heartbeat × ℕ × KeeperState chain
  heartbeat started last_beat_at wallets st =
      if config.once || leb beat_every_ms (chain.now st.world - last_beat_at)
      then (let (ledger, w) = chain.latest_ledger st.world in
          (
            some (record {
              at = chain.now w;
              pass_ms = chain.now st.world - started;
              interval_sec = config.interval;
              wallets = wallets;
              pass = st.pass;
              ledger = or_else ledger 0;
            }),
            chain.now w,
            record st { world = w; pass = reset st.pass },
          ))
      else (none, last_beat_at, st)

  -- One turn: the counts of this pass, the oracle, the wallets, the reads, the submissions, the heartbeat
  unfoldable pub run_pass :
      (ℕ → ℕ) → ℕ → KeeperState chain → Option Heartbeat × ℕ × KeeperState chain
  run_pass pick last_beat_at st =
      let started = chain.now st.world in
      let st1 = refresh_mock_oracle (record st { pass = record st.pass { autopilots = 0 } }) in
      let (listed, w) = chain.list_users st1.world in
      let users = or_else listed [] in
      let (latest, w') = chain.latest_ledger w in
      let (planned, st2) =
        plan_wallets (or_else latest 0) (shuffle pick users) [] (record st1 { world = w' }) in
      let st3 = run_workers (parallel config) 0 planned st2 in
      heartbeat started last_beat_at (length users) st3
