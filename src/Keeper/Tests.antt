-- ===== src/Keeper/Tests.antt =====
-- The keeper's laws on a concrete chain, whose state is the time.
use koul.Base.{
  ℕ, ◌+◌, ◌≡◌, refl, Bool, true, false, Option, none, some, List, [], ◌∷◌, Text, codes, Assoc,
  contains, text_eq, member, get, remove, trim, inr, arith,
}
use koul.Samples.{hundredths}
use koul.Core.SecretGuard.{take}
use koul.Core.Swap.{SwapSdk, SwapRequest, ServerQuote}
use koul.Keeper.State.{
  ContextRule, Due, tick_answered, operation_failed, Chain, Grant, KeeperState, no_counts, note,
}
use koul.Keeper.Plan.{plan_one, tag}
use koul.Keeper.Submit.{
  with_result, submit_due, forget_grant, submit_one, submit_user, idle, send, contract_codes,
  match_here, joined,
}
use koul.Keeper.Submit.Among.{now}
use koul.Keeper.Submit.Waits.{rate_limited-waits}
use koul.Keeper.Grants.{newest_live, grant_for, read_grant, not_expired, sort_rules, insert_rule}
use koul.Keeper.Grants.Laws.{grant_for-NotExpired}
use koul.Keeper.Grants.Laws.Newest.{IsNewest, newest_live_lem}
use koul.Keeper.Pass.{shuffle, Config, parallel, submit_wallets, run_workers}
use koul.Keeper.Pass.Laws.{count, count-shuffle, run_workers_lem}

abbrev limit_text : Text
limit_text = codes "HostError: Error(Contract, #7106)"

abbrev agent : ContextRule
agent = record {
  id = 3;
  signers = record { is_external = true; address = codes "V" } ∷ [];
  policies = codes "P" ∷ [];
  valid_until = some 900;
}

abbrev older : ContextRule
older = record agent { id = 1; valid_until = none }

abbrev limited : Chain
limited = record {
  W = ℕ;
  Kit = Unit;
  Selected = Unit;
  now = λ w. w;
  last_price = λ w. (none, w);
  set_price = λ p w. w;
  list_users = λ w. (some (codes "CA" ∷ codes "CB" ∷ []), w);
  latest_ledger = λ w. (some 500, w);
  list_ids = λ u w. (inr (1 ∷ []), w);
  next_action = λ u i w. (some none, w);
  trusted = record { quote_url = []; router = codes "R"; network_passphrase = codes "N" };
  config = λ w. (none, w);
  route_bytes = λ t. some t;
  tick = λ d w. (tick_answered (some 1), w);
  operation = λ k s r d w. (operation_failed limit_text, w);
  look_up = λ k h w. (inr tt, w);
  connect = λ u p w. (inr tt, w);
  rule_count = λ k w. (inr 2, w);
  list_rules = λ k w. (inr (agent ∷ older ∷ []), w);
  available = λ k w. (inr (tt ∷ []), w);
  is_ed25519 = λ s. true;
  verifier = codes "V";
}

abbrev sdk : SwapSdk
sdk = record { verify = λ t e. none; encode = λ a b c hops. none }

abbrev no_quote : SwapRequest hundredths sdk → ℕ → Option (ServerQuote hundredths sdk) × ℕ
no_quote request w = (none, w)

abbrev grant : Grant limited
grant = record {
  count = 2;
  checked_at = 10;
  agent_rule_id = some 3;
  valid_until = some 900;
  kit = tt;
  signs = true;
  selected = tt ∷ [];
}

abbrev start : KeeperState limited
start = record {
  world = 20;
  grants = (codes "CA", grant) ∷ [];
  autopilot_ids = [];
  backoff_until = [];
  deployment_checked = false;
  pass = no_counts;
}

abbrev due_one : Due
due_one = record { user = codes "CA"; id = 1; route = none }

-- The refused tick is counted, and the grant is dropped.
refused : (submit_user limited (idle limited) (codes "CA") grant (due_one ∷ []) start).grants ≡ []
unfolding submit_user submit_due submit_one send contract_codes forget_grant remove text_eq note
    take trim tag match_here
refused = refl

abbrev later : KeeperState limited
later = record (with_result limited grant due_one (operation_failed limit_text) start) {
  world = 899999;
}

rate_limited : contains (codes "#7106") (joined (contract_codes limit_text)) ≡ true
unfolding contract_codes
rate_limited = refl

rate_limited-waits_example :
    ((plan_one hundredths sdk limited no_quote (codes "CA") 1 later).0 ≡ none)
    × ((plan_one hundredths sdk limited no_quote (codes "CA") 1 later).1.world ≡ later.world)
    × ((plan_one hundredths sdk limited no_quote (codes "CA") 1 later).1.pass.backed_off
        ≡ later.pass.backed_off + 1)
rate_limited-waits_example =
    rate_limited-waits hundredths sdk limited no_quote grant due_one limit_text start later
      rate_limited refl (omega arith)

newest_live_lem_example :
    IsNewest
      (codes "V")
      (some (codes "P"))
      500
      (agent ∷ older ∷ [])
      (newest_live (codes "V") (some (codes "P")) 500 (agent ∷ older ∷ []))
newest_live_lem_example = newest_live_lem (codes "V") (some (codes "P")) 500 (agent ∷ older ∷ [])

newest_rule : newest_live (codes "V") (some (codes "P")) 500 (agent ∷ older ∷ []) ≡ some agent
unfolding newest_live sort_rules text_eq member insert_rule
newest_rule = refl

abbrev kept : Grant limited
kept = record grant { checked_at = 20 }

given : (grant_for limited none (codes "CB") (codes "S") 500 start).0 ≡ inr kept
unfolding grant_for read_grant newest_live get text_eq sort_rules insert_rule
given = refl

grant_for-NotExpired_example : not_expired 500 kept.valid_until ≡ true
grant_for-NotExpired_example =
    grant_for-NotExpired limited none (codes "CB") (codes "S") 500 start kept given

count-shuffle_example :
    count (text_eq (codes "CB")) (shuffle (λ i. 0) (codes "CA" ∷ codes "CB" ∷ codes "CC" ∷ []))
    ≡ count (text_eq (codes "CB")) (codes "CA" ∷ codes "CB" ∷ codes "CC" ∷ [])
count-shuffle_example =
    count-shuffle (text_eq (codes "CB")) (λ i. 0) (codes "CA" ∷ codes "CB" ∷ codes "CC" ∷ [])

abbrev two_workers : Config
two_workers = record {
  channels = 2;
  has_oracle = false;
  once = true;
  interval = 30;
  policy = none;
  keeper_secret = codes "K";
  channel_secret = λ i. codes "S";
}

abbrev planned : Assoc (Grant limited × List Due)
planned = (codes "CA", (grant, due_one ∷ [])) ∷ (codes "CB", (grant, [])) ∷ []

run_workers_lem_example :
    (order : Assoc (Grant limited × List Due)) × (run_workers hundredths sdk limited no_quote
        two_workers
        (parallel two_workers)
        0
        planned
        start
      ≡ submit_wallets hundredths sdk limited no_quote two_workers order start)
    × ((test : Text × (Grant limited × List Due) → Bool) → count test order ≡ count test planned)
run_workers_lem_example = run_workers_lem hundredths sdk limited no_quote two_workers planned start
