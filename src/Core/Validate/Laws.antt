-- ===== src/Core/Validate/Laws.antt =====
-- What an autopilot without errors is.
use koul.Base.{
  ℕ, suc, ◌≤◌, ◌<◌, ◌≡◌, ◌≢◌, ◌↔◌, refl, ap, true, false, List, [], ◌∷◌, ◌++◌, arith, ltb, ◌==◌,
  text_eq_iff, All, Bool-cases, inl, inr,
}
use koul.Core.Decimal.{big}
use koul.Core.Schema.{
  Amount, everything, percent, fixed, Condition, health_factor, supply_rate_gap, supply_rate,
  fx_price, idle_balance, token_price, token_balance, Action, move_supply, swap_from_wallet, Rule,
  Autopilot, autopilot_ok,
}
use koul.Core.Validate.{
  i128_max, u64_max, min_move, when, cooldown_zero, condition_errors, conditions_errors, amount_of,
  action_errors, rule_errors, rules_errors, validate,
}

-- What the router takes, beyond the shape.
abbrev pub ConditionFits : Condition → Type 0
ConditionFits (health_factor cmp level) = big level ≤ i128_max
ConditionFits (supply_rate_gap over under bps) = (over ≢ under) × (0 < bps)
ConditionFits (supply_rate hub cmp bps) = 0 < bps
ConditionFits (fx_price asset cmp level age) =
    (big level ≤ i128_max) × (0 < big age) × (big age ≤ u64_max)
ConditionFits (idle_balance cmp amount) = big amount ≤ i128_max
ConditionFits (token_price token cmp level) = big level ≤ i128_max
ConditionFits (token_balance token cmp amount) = big amount ≤ i128_max

-- `least` is the smallest fixed amount.
abbrev pub AmountFits : ℕ → Amount → Type 0
AmountFits least everything = Unit {0}
AmountFits least (percent bps) = (1 ≤ bps) × (bps ≤ 10_000)
AmountFits least (fixed value) = (least ≤ big value) × (big value ≤ i128_max)

abbrev pub ActionFits : Action → Type 0
ActionFits (move_supply from to a) = (from ≢ to) × AmountFits min_move a
ActionFits (swap_from_wallet tin tout a bps) = (tin ≢ tout) × AmountFits 0 a
ActionFits a = AmountFits min_move (amount_of a)

pub record RuleFits (r : Rule) : Type 0 where
  pub cooldown : 0 < r.cooldown_ledgers
  pub conditions : All ConditionFits r.conditions
  pub action : ActionFits r.action

pub record Fits (ap : Autopilot) : Type 0 where
  pub shape : autopilot_ok ap ≡ true
  pub account : big ap.account_id ≤ u64_max
  pub rules : All RuleFits ap.rules

pub append-eq-nil {ℓ} : {A : Type ℓ} (xs ys : List A) → xs ++ ys ≡ [] → (xs ≡ []) × (ys ≡ [])
append-eq-nil [] ys h = (refl, h)
append-eq-nil (x ∷ xs) ys h = cc

condition_errors_sound : (i j : ℕ) (c : Condition) → condition_errors i j c ≡ [] → ConditionFits c
unfolding condition_errors
condition_errors_sound i j (health_factor cmp level) h = ground arith
condition_errors_sound i j _ h = ground arith

condition_errors_complete :
    (i j : ℕ) (c : Condition) → ConditionFits c → condition_errors i j c ≡ []
unfolding condition_errors
condition_errors_complete i j (health_factor cmp level) h = ground arith
condition_errors_complete i j _ h = ground arith

action_errors_sound : (i : ℕ) (a : Action) → action_errors i a ≡ [] → ActionFits a
unfolding action_errors
action_errors_sound i (swap_from_wallet tin tout a bps) h = ground (arith, text_eq_iff tin tout)
action_errors_sound i a h = ground arith

action_errors_complete : (i : ℕ) (a : Action) → ActionFits a → action_errors i a ≡ []
unfolding action_errors
action_errors_complete i (swap_from_wallet tin tout a bps) h = ground (arith, text_eq_iff tin tout)
action_errors_complete i a h = ground arith

conditions_errors_sound :
    (i j : ℕ) (cs : List Condition) → conditions_errors i j cs ≡ [] → All ConditionFits cs
unfolding conditions_errors
conditions_errors_sound i j [] h = tt
conditions_errors_sound i j (c ∷ cs) h =
    let (here, later) = append-eq-nil (condition_errors i j c) (conditions_errors i (suc j) cs) h in
    (condition_errors_sound i j c here, conditions_errors_sound i (suc j) cs later)

conditions_errors_complete :
    (i j : ℕ) (cs : List Condition) → All ConditionFits cs → conditions_errors i j cs ≡ []
unfolding conditions_errors
conditions_errors_complete i j [] h = refl
conditions_errors_complete i j (c ∷ cs) h =
    rw (condition_errors_complete i j c h.0) (conditions_errors_complete i (suc j) cs h.1)

rule_errors_sound : (i : ℕ) (r : Rule) → rule_errors i r ≡ [] → RuleFits r
unfolding rule_errors
rule_errors_sound i r h =
    let (cooled, rest) = append-eq-nil (when (r.cooldown_ledgers == 0) (cooldown_zero i)) _ h in
    let (held, acted) =
      append-eq-nil (conditions_errors i 0 r.conditions) (action_errors i r.action) rest in
    record {
      cooldown = ground arith;
      conditions = conditions_errors_sound i 0 r.conditions held;
      action = action_errors_sound i r.action acted;
    }

rule_errors_complete : (i : ℕ) (r : Rule) → RuleFits r → rule_errors i r ≡ []
unfolding rule_errors
rule_errors_complete i r f =
    let cooled : (r.cooldown_ledgers == 0) ≡ false = ground (arith, f.cooldown) in
    rw (
      cooled,
      conditions_errors_complete i 0 r.conditions f.conditions,
      action_errors_complete i r.action f.action,
    )

rules_errors_sound : (i : ℕ) (rs : List Rule) → rules_errors i rs ≡ [] → All RuleFits rs
unfolding rules_errors
rules_errors_sound i [] h = tt
rules_errors_sound i (r ∷ rs) h =
    let (here, later) = append-eq-nil (rule_errors i r) (rules_errors (suc i) rs) h in
    (rule_errors_sound i r here, rules_errors_sound (suc i) rs later)

rules_errors_complete : (i : ℕ) (rs : List Rule) → All RuleFits rs → rules_errors i rs ≡ []
unfolding rules_errors
rules_errors_complete i [] h = refl
rules_errors_complete i (r ∷ rs) h =
    rw (rule_errors_complete i r h.0) (rules_errors_complete (suc i) rs h.1)

pub validate_sound : (ap : Autopilot) → validate ap ≡ [] → Fits ap
unfolding validate
validate_sound ap h = elim (Bool-cases (autopilot_ok ap)) [
  | inl ok_ ↦
      let (account, rules) = append-eq-nil _ (rules_errors 0 ap.rules) (rw ok_ at h) in
      record { shape = ok_; account = ground arith; rules = rules_errors_sound 0 ap.rules rules }
  | inr bad ↦ cc (rw bad at h)
]

pub validate_complete : (ap : Autopilot) → Fits ap → validate ap ≡ []
unfolding validate
validate_complete ap f =
    let fits : ltb u64_max (big ap.account_id) ≡ false = ground (arith, f.account) in
    rw (f.shape, fits) (rules_errors_complete 0 ap.rules f.rules)

-- The validator finds no error in exactly the autopilots that have the schema's shape and keep every
-- limit of the router: a u64 account, positive cooldowns, different hubs and tokens, positive rates
-- and ages, a percentage from 1 to 10000 bps, at least 1 USDC where USDC is counted, and values
-- that an i128 holds.
pub validate_iff : (ap : Autopilot) → (validate ap ≡ []) ↔ Fits ap
validate_iff ap = (validate_sound ap, validate_complete ap)
