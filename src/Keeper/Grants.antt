-- ===== src/Keeper/Grants.antt =====
-- keeper/src/keeper.ts, `grantFor` and `planUser`: a wallet's grant, kept between passes, and what its autopilots
-- have due.
pub mod Laws
use koul.Base.{
  ℕ, suc, ◌+◌, ◌-◌, ◌==◌, Bool, true, false, not, ◌&&◌, ◌||◌, Option, none, some, List, [], ◌∷◌,
  ltb, leb, or_else, if◌then◌else◌, Text, text_eq, member, any, keep, last, length, is_nil, is_some,
  map_option, get, put, inl, inr, ◌⊎◌, Num,
}
use koul.Core.Swap.{SwapSdk, SwapRequest, ServerQuote}
use koul.Keeper.State.{Signer, ContextRule, Due, Chain, Counts, Grant, KeeperState}
use koul.Keeper.Plan.{plan_one}

abbrev pub recheck_ms : ℕ
recheck_ms = 60000

-- `!r.valid_until || r.valid_until > latest`
abbrev pub runs_after : ℕ → Option ℕ → Bool
runs_after latest none = true
runs_after latest (some until) = (until == 0) || ltb latest until

abbrev pub signs_with : Text → ContextRule → Bool
signs_with verifier r = any (λ s. s.is_external && text_eq s.address verifier) r.signers

-- `POLICY` may be missing, or empty, and then every policy does.
abbrev pub under_policy : Option Text → ContextRule → Bool
under_policy none r = true
under_policy (some []) r = true
under_policy (some (c ∷ p)) r = member (c ∷ p) r.policies

-- `.sort((x, y) => x.id - y.id)`, stable
unfoldable pub insert_rule : ContextRule → List ContextRule → List ContextRule
insert_rule r [] = r ∷ []
insert_rule r (q ∷ rules) = if leb r.id q.id then r ∷ q ∷ rules else q ∷ insert_rule r rules

unfoldable pub sort_rules : List ContextRule → List ContextRule
sort_rules [] = []
sort_rules (r ∷ rules) = insert_rule r (sort_rules rules)

-- The newest live grant under the current policy
unfoldable pub newest_live : Text → Option Text → ℕ → List ContextRule → Option ContextRule
newest_live verifier policy latest rules = last (
    sort_rules (
      keep (λ r. runs_after latest r.valid_until)
        (keep (under_policy policy) (keep (signs_with verifier) rules))))

-- `rule?.valid_until ? Number(rule.valid_until) : null`
abbrev pub until_of : Option ContextRule → Option ℕ
until_of none = none
until_of (some r) = if or_else r.valid_until 0 == 0 then none else r.valid_until

-- `validUntil === null || validUntil > latest`
abbrev pub not_expired : ℕ → Option ℕ → Bool
not_expired latest none = true
not_expired latest (some until) = ltb latest until

module _ (chain : Chain) (policy : Option Text) where
  open chain use {W, Kit, Selected}

  -- A result, or an exception with its message, and the state then
  abbrev pub Step : Type 0 → Type 0
  Step A = KeeperState chain → (Text ⊎ A) × KeeperState chain

  infixl 5 ◌>>=◌
  abbrev pub go : {A B : Type 0} → Text ⊎ A → (A → Step B) → Step B
  go (inl e) next st = (inl e, st)
  go (inr a) next st = next a st

  abbrev pub ◌>>=◌ : {A B : Type 0} → Step A → (A → Step B) → Step B
  ◌>>=◌ first next st = go (first st).0 next (first st).1

  abbrev pub ask : {A : Type 0} → (W → (Text ⊎ A) × W) → Step A
  ask call st = let (a, w) = call st.world in (a, record st { world = w })

  abbrev pub give : {A : Type 0} → A → Step A
  give a st = (inr a, st)

  abbrev pub is_fresh : ℕ → ℕ → Grant chain → Bool
  is_fresh now latest g = ltb (now - g.checked_at) recheck_ms && not_expired latest g.valid_until

  abbrev pub keep_grant : Text → Grant chain → Step (Grant chain)
  keep_grant user g st = (inr g, record st { grants = put user g st.grants })

  -- The kit's selected signers when there is a rule to sign under
  abbrev pub selected_for : Kit → Option ContextRule → Step (List Selected)
  selected_for kit none = give []
  selected_for kit (some r) = do
    signers ← ask (chain.available kit)
    give (keep chain.is_ed25519 signers)

  abbrev pub grant_of : ℕ → ℕ → Kit → Option ContextRule → List Selected → Grant chain
  grant_of count now kit rule selected = record {
    count = count;
    checked_at = now;
    agent_rule_id = map_option (λ (r : ContextRule). r.id) rule;
    valid_until = until_of rule;
    kit = kit;
    signs = is_some rule && (length selected == 1);
    selected = selected;
  }

  -- The grant read from the wallet's rules
  unfoldable pub read_grant : Text → ℕ → ℕ → Kit → Step (Grant chain)
  read_grant user latest count kit = do
    rules ← ask (chain.list_rules kit)
    let rule = newest_live chain.verifier policy latest rules
    selected ← selected_for kit rule
    λ st. keep_grant user (grant_of count (chain.now st.world) kit rule selected) st

  -- Another counter, or an expired grant: a new kit and a new reading
  abbrev pub reread : Text → Text → ℕ → ℕ → Step (Grant chain)
  reread user payer latest count = do
    kit ← ask (chain.connect user payer)
    read_grant user latest count kit

  abbrev pub checked_now : Text → Grant chain → Step (Grant chain)
  checked_now user g st = keep_grant user (record g { checked_at = chain.now st.world }) st

  abbrev pub recheck : Text → Text → ℕ → Grant chain → Step (Grant chain)
  recheck user payer latest g = do
    count ← ask (chain.rule_count g.kit)
    if (g.count == count) && not_expired latest g.valid_until
        then checked_now user g
        else reread user payer latest count

  abbrev pub first_grant : Text → Text → ℕ → Step (Grant chain)
  first_grant user payer latest = do
    kit ← ask (chain.connect user payer)
    count ← ask (chain.rule_count kit)
    read_grant user latest count kit

  abbrev pub known_grant : Text → Text → ℕ → Option (Grant chain) → Step (Grant chain)
  known_grant user payer latest none st = first_grant user payer latest st
  known_grant user payer latest (some g) st =
      let again = recheck user payer latest g in
      (if is_fresh (chain.now st.world) latest g then give g else again) st

  unfoldable pub grant_for : Text → Text → ℕ → Step (Grant chain)
  grant_for user payer latest st = known_grant user payer latest (get user st.grants) st

  -- The ids, from the wallet's list when the kept ones are older than the window
  abbrev pub read_ids : Text → Step (List ℕ)
  read_ids user = do
    ids ← ask (chain.list_ids user)
    λ st.
        (inr ids, record st { autopilot_ids = put user (ids, chain.now st.world) st.autopilot_ids })

  abbrev pub known_ids : Text → Option (List ℕ × ℕ) → Step (List ℕ)
  known_ids user none st = read_ids user st
  known_ids user (some (ids, at)) st =
      let again = read_ids user in
      (if ltb (chain.now st.world - at) recheck_ms then give ids else again) st

  module _ (num : Num) (sdk : SwapSdk)
      (ask_quote : SwapRequest num sdk → chain.W → Option (ServerQuote num sdk) × chain.W) where
    abbrev pub with_due : Option Due → List Due → List Due
    with_due none more = more
    with_due (some d) more = d ∷ more

    unfoldable pub plan_ids : Text → List ℕ → KeeperState chain → List Due × KeeperState chain
    plan_ids user [] st = ([], st)
    plan_ids user (id ∷ ids) st =
        let (d, st1) = plan_one num sdk chain ask_quote user id st in
        let (more, st2) = plan_ids user ids st1 in (with_due d more, st2)

    abbrev pub count_autopilots : ℕ → Step (Unit {0})
    count_autopilots n st =
        (inr tt, record st { pass = record st.pass { autopilots = st.pass.autopilots + n } })

    -- `due.length > 0 ? { grant, due } : null`
    abbrev pub if_due : Grant chain → List Due → Option (Grant chain × List Due)
    if_due g [] = none
    if_due g (d ∷ due) = some (g, d ∷ due)

    abbrev pub with_grant : Text → List ℕ → Grant chain → Step (Option (Grant chain × List Due))
    with_grant user ids g st =
        let (due, st') = plan_ids user ids st in
        if is_some g.agent_rule_id && g.signs then (inr (if_due g due), st') else (inr none, st)

    unfoldable pub plan_user : Text → Text → ℕ → Step (Option (Grant chain × List Due))
    plan_user user payer latest = do
      ids ← λ st. known_ids user (get user st.autopilot_ids) st
      if is_nil ids then give none else do
        counted ← count_autopilots (length ids)
        g ← grant_for user payer latest
        with_grant user ids g
